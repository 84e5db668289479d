-- ===== src/Sh.antt =====
-- lab6/xv6-public/sh.c: from a line to the command that runcmd runs. The line is its bytes before
-- the NUL, and `es` is its end. A word is its bytes between the two pointers that gettoken sets,
-- which nulterminate makes a string.
pub mod Fuel
pub mod Print
pub mod Wiring
use cs333_os_labs.Prelude.{
  Bool, List, [], false, if◌then◌else◌, length, ltb, suc, true, zero, ℕ, ◌++◌, ◌+◌, ◌==◌, ◌||◌, ◌∷◌,
}
use cs333_os_labs.Prelude.Outcome.{
  Outcome, Stop, branch, done, halt, pure, read, require, ◌>>=◌, ◌>>◌,
}

abbrev pub whitespace : List ℕ
whitespace = 32 ∷ 9 ∷ 13 ∷ 10 ∷ 11 ∷ []

abbrev pub symbols : List ℕ
symbols = b'<' ∷ b'|' ∷ b'>' ∷ b'&' ∷ b';' ∷ b'(' ∷ b')' ∷ []

-- `strchr(toks, c) != 0`, for a byte that is not NUL.
unfoldable pub occurs : ℕ → List ℕ → Bool
occurs c [] = false
occurs c (d ∷ toks) = c == d || occurs c toks

abbrev pub maxargs : ℕ
maxargs = 10

pub data Cmd : Type 0 where
  execcmd : List (List ℕ) → Cmd
  redircmd : Cmd → List ℕ → ℕ → ℕ → Cmd  -- file, mode, fd
  pipecmd listcmd : Cmd → Cmd → Cmd
  backcmd : Cmd → Cmd

-- The state is the line from `*ps` on.
abbrev pub P : Type 0 → Type 0
P A = List ℕ → Outcome (A × List ℕ)

unfoldable pub skip_white : List ℕ → List ℕ
skip_white [] = []
skip_white (c ∷ s) = let rest = skip_white s in if occurs c whitespace then rest else c ∷ s

-- The word at the front, and what follows it.
unfoldable pub word_at : List ℕ → List ℕ × List ℕ
word_at [] = ([], [])
word_at (c ∷ s) =
    let rest = word_at s in
    if occurs c whitespace || occurs c symbols then ([], c ∷ s) else (c ∷ rest.0, rest.1)

-- After a `>`.
unfoldable pub after_greater : List ℕ → ℕ × List ℕ × List ℕ
after_greater [] = (b'>', [], [])
after_greater (c ∷ s) = if c == b'>' then (b'+', [], s) else (b'>', [], c ∷ s)

-- The `switch` of gettoken: what it returns, the word, and what follows.
unfoldable pub token_at : List ℕ → ℕ × List ℕ × List ℕ
token_at [] = (0, [], [])
token_at (c ∷ s) =
    let (word, rest) = word_at (c ∷ s) in
    if c == b'>'
    then after_greater s
    else if occurs c symbols
    then (c, [], s)
    else (b'a', word, rest)

unfoldable pub gettoken : P (ℕ × List ℕ)
gettoken s = let (ret, q, rest) = token_at (skip_white s) in done ((ret, q), skip_white rest)

-- `*s && strchr(toks, *s)`
unfoldable pub starts_in : List ℕ → List ℕ → Bool
starts_in toks [] = false
starts_in toks (c ∷ s) = occurs c toks

unfoldable pub peek : List ℕ → P Bool
peek toks s = done (starts_in toks (skip_white s), skip_white s)

-- O_RDONLY, and O_WRONLY | O_CREATE for both `>` and `>>`.
unfoldable pub redirect_to : ℕ → List ℕ → Cmd → Cmd
redirect_to tok file c = if tok == b'<' then redircmd c file 0 0 else redircmd c file 0x201 1

unfoldable pub parseredirs : ℕ → Cmd → P Cmd
parseredirs zero c = halt Stop.out_of_fuel
parseredirs (suc n) c = do
  more ← peek (b'<' ∷ b'>' ∷ [])
  branch more
      (do
        tok ← gettoken
        file ← gettoken
        require (file.0 == b'a') Stop.missing_file
        parseredirs n (redirect_to tok.0 file.1 c))
      (pure c)

-- `cmd->argv[argc] = q`, where `cmd` is the command inside of the redirections.
unfoldable pub add_arg : List ℕ → Cmd → Cmd
add_arg q (execcmd args) = execcmd (args ++ q ∷ [])
add_arg q (redircmd c file mode fd) = redircmd (add_arg q c) file mode fd
add_arg q (pipecmd l r) = pipecmd l r
add_arg q (listcmd l r) = listcmd l r
add_arg q (backcmd c) = backcmd c

-- The loop of parseexec.
unfoldable pub exec_args : ℕ → ℕ → Cmd → P Cmd
exec_args zero argc ret = halt Stop.out_of_fuel
exec_args (suc n) argc ret = do
  over ← peek (b'|' ∷ b')' ∷ b'&' ∷ b';' ∷ [])
  branch over (pure ret) (do
    tok ← gettoken
    branch (tok.0 == 0) (pure ret) (do
      require (tok.0 == b'a') Stop.syntax
      require (ltb (argc + 1) maxargs) Stop.too_many_args
      longer ← parseredirs n (add_arg tok.1 ret)
      exec_args n (argc + 1) longer))

-- `line` is parseline.
unfoldable pub parseblock : ℕ → P Cmd → P Cmd
parseblock n line = do
  block ← peek (b'(' ∷ [])
  require block Stop.parseblock_panic
  tok ← gettoken
  c ← line
  closes ← peek (b')' ∷ [])
  require closes Stop.missing_paren
  tok ← gettoken
  parseredirs n c

unfoldable pub parseexec : ℕ → P Cmd → P Cmd
parseexec n line = do
  block ← peek (b'(' ∷ [])
  branch block (parseblock n line) (do ret ← parseredirs n (execcmd []); exec_args n 0 ret)

unfoldable pub parsepipe : ℕ → P Cmd → P Cmd
parsepipe zero line = halt Stop.out_of_fuel
parsepipe (suc n) line =
    let rest = parsepipe n line in
    do
      c ← parseexec (suc n) line
      piped ← peek (b'|' ∷ [])
      branch piped (do tok ← gettoken; r ← rest; pure (pipecmd c r)) (pure c)

-- The loop of parseline.
unfoldable pub back_loop : ℕ → Cmd → P Cmd
back_loop zero c = halt Stop.out_of_fuel
back_loop (suc n) c =
    let rest = back_loop n (backcmd c) in
    do more ← peek (b'&' ∷ []); branch more (do tok ← gettoken; rest) (pure c)

unfoldable pub parseline : ℕ → P Cmd
parseline zero = halt Stop.out_of_fuel
parseline (suc n) =
    let rest = parseline n in
    do
      c ← parsepipe (suc n) rest
      b ← back_loop (suc n) c
      more ← peek (b';' ∷ [])
      branch more (do tok ← gettoken; r ← rest; pure (listcmd b r)) (pure b)

abbrev pub is_end : List ℕ → Bool
is_end [] = true
is_end (c ∷ s) = false

-- A round and a nested call for each byte of the line, and one more.
unfoldable pub parsecmd : P Cmd
parsecmd = do
  fuel ← read (λ s. length s + 1)
  c ← parseline fuel
  more ← peek []
  over ← read is_end
  require over Stop.leftovers
  pure c
