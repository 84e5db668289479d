-- ===== src/Sh/Print/RoundTrip.antt =====
-- lab6/xv6-public/sh.c: parsecmd of a command that was written out.
use cs333_os_labs.Prelude.{
  All, Bool, List, [], ap, arith, false, leb, length, length-append, refl, subst, sym, true, ◌++◌,
  ◌+◌, ◌==◌, ◌∙◌, ◌∷◌, ◌≡◌, ◌≤◌,
}
use cs333_os_labs.Prelude.Outcome.{
  Stop, bind_done, done, read, reads, require, required, returns, then_done,
}
use cs333_os_labs.Sh.{
  Cmd, backcmd, execcmd, is_end, listcmd, occurs, parsecmd, parseline, peek, pipecmd, redircmd,
}
use cs333_os_labs.Sh.Print.{IsTok, Tok, mark, peek-show, show, text, word}
use cs333_os_labs.Sh.Print.Functions.{
  IsTok-words, ReadsBacks-backcmd, ReadsExec-redircmd, ReadsExec-words, ReadsLine-listcmd,
  ReadsPipe-pipecmd,
}
use cs333_os_labs.Sh.Print.Levels.{
  IsPlain, ReadsBacks, ReadsExec, ReadsLine, ReadsPipe, at_level, fenced, level, print,
}
use cs333_os_labs.Sh.Print.Levels.Lifts.{
  ReadsBacks-ReadsPipe, ReadsExec-ReadsLine, ReadsLine-ReadsBacks, ReadsPipe-ReadsExec,
}
use cs333_os_labs.Sh.Print.Redirs.{arrow, words}
use mathlib.Core.List.{append-nil}

-- Every function of the parser reads the command back, in parentheses where it needs them.
record Reads (c : Cmd) : Type 0 where
  pub exec : ReadsExec (at_level 0 c) c
  pub pipe : ReadsPipe (at_level 1 c) c
  pub backs : ReadsBacks (at_level 2 c) c
  pub line : ReadsLine (at_level 3 c) c

Reads-parts : (c : Cmd) → IsPlain c → Reads c
Reads-parts (execcmd args) (few, plain) =
    let x = words args in
    let e = ReadsExec-words args few in
    let p = ReadsPipe-ReadsExec x (execcmd args) e in
    let b = ReadsBacks-ReadsPipe x (execcmd args) p in
    record { exec = e; pipe = p; backs = b; line = ReadsLine-ReadsBacks x (execcmd args) b }
Reads-parts (redircmd c file mode fd) (plain, name, to) =
    let d = redircmd c file mode fd in
    let x = print d in
    let e = ReadsExec-redircmd (at_level 0 c) c file mode fd to (Reads-parts c plain).exec in
    let p = ReadsPipe-ReadsExec x d e in
    let b = ReadsBacks-ReadsPipe x d p in
    record { exec = e; pipe = p; backs = b; line = ReadsLine-ReadsBacks x d b }
Reads-parts (pipecmd l r) (plain, plain') =
    let d = pipecmd l r in
    let x = print d in
    let p =
      ReadsPipe-pipecmd (at_level 0 l) (at_level 1 r) l r (Reads-parts l plain).exec
        (Reads-parts r plain').pipe in
    let b = ReadsBacks-ReadsPipe x d p in
    let n = ReadsLine-ReadsBacks x d b in
    record { exec = ReadsExec-ReadsLine x d n; pipe = p; backs = b; line = n }
Reads-parts (backcmd c) plain =
    let d = backcmd c in
    let x = print d in
    let b = ReadsBacks-backcmd (at_level 2 c) c (Reads-parts c plain).backs in
    let n = ReadsLine-ReadsBacks x d b in
    let e = ReadsExec-ReadsLine x d n in
    record { exec = e; pipe = ReadsPipe-ReadsExec (fenced false x) d e; backs = b; line = n }
Reads-parts (listcmd l r) (plain, plain') =
    let d = listcmd l r in
    let x = print d in
    let n =
      ReadsLine-listcmd (at_level 2 l) (at_level 3 r) l r (Reads-parts l plain).backs
        (Reads-parts r plain').line in
    let e = ReadsExec-ReadsLine x d n in
    let p = ReadsPipe-ReadsExec (fenced false x) d e in
    record { exec = e; pipe = p; backs = ReadsBacks-ReadsPipe (fenced false x) d p; line = n }

All-append : (x y : List Tok) → All IsTok x → All IsTok y → All IsTok (x ++ y)
All-append [] y h k = k
All-append (t ∷ x) y h k = (h.0, All-append x y h.1 k)

fenced-IsTok : (b : Bool) (x : List Tok) → All IsTok x → All IsTok (fenced b x)
unfolding occurs
fenced-IsTok true x h = h
fenced-IsTok false x h = ((refl, refl), All-append x (mark b')' ∷ []) h ((refl, refl), tt))

arrow-IsTok : (b : Bool) → IsTok (mark (arrow b))
unfolding occurs
arrow-IsTok true = (refl, refl)
arrow-IsTok false = (refl, refl)

print-IsTok : (c : Cmd) → IsPlain c → All IsTok (print c)
unfolding occurs
print-IsTok (execcmd args) (few, plain) = IsTok-words args plain
print-IsTok (redircmd c file mode fd) (plain, name, to) =
    All-append (at_level 0 c) (mark (arrow (mode == 0)) ∷ word file ∷ [])
      (fenced-IsTok (leb (level c) 0) (print c) (print-IsTok c plain))
      (arrow-IsTok (mode == 0), (name, tt))
print-IsTok (pipecmd l r) (plain, plain') =
    All-append (at_level 0 l) (mark b'|' ∷ at_level 1 r)
      (fenced-IsTok (leb (level l) 0) (print l) (print-IsTok l plain))
      ((refl, refl), fenced-IsTok (leb (level r) 1) (print r) (print-IsTok r plain'))
print-IsTok (backcmd c) plain =
    All-append (at_level 2 c) (mark b'&' ∷ [])
      (fenced-IsTok (leb (level c) 2) (print c) (print-IsTok c plain)) ((refl, refl), tt)
print-IsTok (listcmd l r) (plain, plain') =
    All-append (at_level 2 l) (mark b';' ∷ at_level 3 r)
      (fenced-IsTok (leb (level l) 2) (print l) (print-IsTok l plain))
      ((refl, refl), fenced-IsTok (leb (level r) 3) (print r) (print-IsTok r plain'))

never_fenced : (c : Cmd) → at_level 3 c ≡ print c
never_fenced (execcmd args) = refl
never_fenced (redircmd c file mode fd) = refl
never_fenced (pipecmd l r) = refl
never_fenced (backcmd c) = refl
never_fenced (listcmd l r) = refl

show-length : (ts : List Tok) → length ts ≤ length (show ts)
show-length [] = omega arith
show-length (t ∷ ts) = omega (arith, length-append (text t) (32 ∷ show ts), show-length ts)

-- parsecmd of a command that was written out, with a blank after each token and parentheses where
-- the grammar needs them, gives the command back and leaves nothing over, for every command of
-- words without blanks and symbols, fewer than ten to a program, whose redirections are of the
-- input, or of the output to a file that is created.
pub parsecmd-print : (c : Cmd) → IsPlain c → parsecmd (show (print c)) ≡ done (c, [])
unfolding parsecmd
parsecmd-print c plain =
    let x = print c in
    let s = show x in
    let e = append-nil x in
    let same = never_fenced c in
    let h = subst (All IsTok) (sym e) (print-IsTok c plain) in
    let r = subst (λ y. ReadsLine y c) same (Reads-parts c plain).line in
    let fits = ap length e in
    bind_done (read (λ t. length t + 1)) _ (reads (λ t. length t + 1) s)
    ∙ bind_done (parseline (length s + 1)) _ (
        ap (λ y. parseline (length s + 1) (show y)) (sym e)
        ∙ r (length s + 1) [] h tt (omega (arith, fits, show-length x)))
    ∙ bind_done (peek []) _ (peek-show [] [] tt tt)
    ∙ bind_done (read is_end) _ (reads is_end [])
    ∙ then_done (require true Stop.leftovers) _ (required Stop.leftovers [])
    ∙ returns c []
