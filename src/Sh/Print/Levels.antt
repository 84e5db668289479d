-- ===== src/Sh/Print/Levels.antt =====
-- lab6/xv6-public/sh.c: a command written out, with parentheses where parseexec, parsepipe or the
-- loop of parseline would not read it, and what each function of the parser is to read back.
pub mod Lifts
use cs333_os_labs.Prelude.{
  All, Bool, List, [], false, leb, length, suc, true, zero, ℕ, ◌++◌, ◌<◌, ◌==◌, ◌∷◌, ◌≡◌, ◌≤◌, ◌⊎◌,
}
use cs333_os_labs.Prelude.Outcome.{done, ◌>>=◌}
use cs333_os_labs.Sh.{
  Cmd, back_loop, backcmd, execcmd, listcmd, maxargs, parseexec, parseline, parsepipe, pipecmd,
  redircmd,
}
use cs333_os_labs.Sh.Print.{IsTok, IsWord, Tok, mark, show, word}
use cs333_os_labs.Sh.Print.Redirs.{Next, Redir, arrow, redirs, stops, words, wrap}

-- The function that reads the command: parseexec, parsepipe, the loop of parseline, parseline.
abbrev pub level : Cmd → ℕ
level (execcmd args) = 0
level (redircmd c file mode fd) = 0
level (pipecmd l r) = 1
level (backcmd c) = 2
level (listcmd l r) = 3

abbrev pub fenced : Bool → List Tok → List Tok
fenced true ts = ts
fenced false ts = mark b'(' ∷ ts ++ mark b')' ∷ []

abbrev pub print : Cmd → List Tok
print (execcmd args) = words args
print (redircmd c file mode fd) =
    fenced (leb (level c) 0) (print c) ++ mark (arrow (mode == 0)) ∷ word file ∷ []
print (pipecmd l r) =
    fenced (leb (level l) 0) (print l) ++ mark b'|' ∷ fenced (leb (level r) 1) (print r)
print (backcmd c) = fenced (leb (level c) 2) (print c) ++ mark b'&' ∷ []
print (listcmd l r) =
    fenced (leb (level l) 2) (print l) ++ mark b';' ∷ fenced (leb (level r) 3) (print r)

abbrev pub at_level : ℕ → Cmd → List Tok
at_level n c = fenced (leb (level c) n) (print c)

-- A command that a line can give: fewer than MAXARGS words, and redirections of the input, or of
-- the output to a file that is created.
abbrev pub IsPlain : Cmd → Type 0
IsPlain (execcmd args) = (length args < maxargs) × All IsWord args
IsPlain (redircmd c file mode fd) =
    IsPlain c × IsWord file × ((mode ≡ 0) × (fd ≡ 0) ⊎ (mode ≡ 0x201) × (fd ≡ 1))
IsPlain (pipecmd l r) = IsPlain l × IsPlain r
IsPlain (backcmd c) = IsPlain c
IsPlain (listcmd l r) = IsPlain l × IsPlain r

abbrev pub amps : ℕ → List Tok
amps zero = []
amps (suc k) = mark b'&' ∷ amps k

abbrev pub backs : ℕ → Cmd → Cmd
backs zero c = c
backs (suc k) c = backs k (backcmd c)

abbrev pub pipe_stops : List ℕ
pipe_stops = b')' ∷ b'&' ∷ b';' ∷ []

abbrev pub back_stops : List ℕ
back_stops = b')' ∷ b';' ∷ []

abbrev pub line_stops : List ℕ
line_stops = b')' ∷ []

-- What each function reads back from the tokens `x` and what may follow them.
abbrev pub ReadsExec : List Tok → Cmd → Type 0
ReadsExec x c =
    (n m : ℕ) (rs : List Redir) (ts : List Tok)
    → All IsTok (x ++ (redirs rs ++ ts))
    → Next stops ts
    → length (x ++ (redirs rs ++ ts)) ≤ n
    → length (x ++ (redirs rs ++ ts)) < m
    → parseexec m (parseline n) (show (x ++ (redirs rs ++ ts))) ≡ done (wrap c rs, show ts)

abbrev pub ReadsPipe : List Tok → Cmd → Type 0
ReadsPipe x c =
    (n m : ℕ) (ts : List Tok)
    → All IsTok (x ++ ts)
    → Next pipe_stops ts
    → length (x ++ ts) ≤ n
    → length (x ++ ts) < m
    → parsepipe m (parseline n) (show (x ++ ts)) ≡ done (c, show ts)

abbrev pub ReadsBacks : List Tok → Cmd → Type 0
ReadsBacks x c =
    (n m k : ℕ) (ts : List Tok)
    → All IsTok (x ++ (amps k ++ ts))
    → Next back_stops ts
    → length (x ++ (amps k ++ ts)) ≤ n
    → length (x ++ (amps k ++ ts)) < m
    → (parsepipe m (parseline n) >>= back_loop m) (show (x ++ (amps k ++ ts)))
      ≡ done (backs k c, show ts)

abbrev pub ReadsLine : List Tok → Cmd → Type 0
ReadsLine x c =
    (n : ℕ) (ts : List Tok)
    → All IsTok (x ++ ts)
    → Next line_stops ts
    → length (x ++ ts) < n
    → parseline n (show (x ++ ts)) ≡ done (c, show ts)
