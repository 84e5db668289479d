-- ===== src/Sh/Print/Functions.antt =====
-- lab6/xv6-public/sh.c: each function of the parser on what it is to read, part by part.
use cs333_os_labs.Prelude.{
  All, List, [], ap, arith, inl, inr, length, length-append, refl, subst, suc, true, zero, ℕ, ◌++◌,
  ◌+◌, ◌<◌, ◌==◌, ◌∙◌, ◌∷◌, ◌≡◌, ◌≤◌, ◌⊎◌,
}
use cs333_os_labs.Prelude.Outcome.{bind_assoc, bind_done, branch_yes, done, returns, ◌>>=◌}
use cs333_os_labs.Sh.{
  Cmd, back_loop, backcmd, execcmd, gettoken, listcmd, maxargs, occurs, parseexec, parseline,
  parsepipe, peek, pipecmd, redircmd, redirect_to,
}
use cs333_os_labs.Sh.Print.{IsTok, IsWord, Tok, gettoken-show, mark, peek-show, show, word}
use cs333_os_labs.Sh.Print.Arguments.{parseexec-words}
use cs333_os_labs.Sh.Print.Levels.{ReadsBacks, ReadsExec, ReadsLine, ReadsPipe, amps, back_stops}
use cs333_os_labs.Sh.Print.Levels.Lifts.{All-after, one_symbol, redirs_fit}
use cs333_os_labs.Sh.Print.Redirs.{Next, Redir, arrow, redirs, stops, words, wrap}
use mathlib.Core.List.{append_assoc}

pub IsTok-words : (ws : List (List ℕ)) → All IsWord ws → All IsTok (words ws)
IsTok-words [] h = tt
IsTok-words (w ∷ ws) h = (h.0, IsTok-words ws h.1)

pub ReadsExec-words :
    (args : List (List ℕ)) → length args < maxargs → ReadsExec (words args) (execcmd args)
ReadsExec-words args few n m rs ts h e l k =
    parseexec-words m (parseline n) rs ts e args h few (omega (arith, words-length-both args rs ts))
  where
    words-length-both :
        (args : List (List ℕ)) (rs : List Redir) (ts : List Tok)
        → length args + length rs ≤ length (words args ++ (redirs rs ++ ts))
    words-length-both [] rs ts = omega (arith, redirs_fit rs ts)
    words-length-both (w ∷ args) rs ts = omega (arith, words-length-both args rs ts)

-- The redirection that was written out is the one that is read.
redirect_to-arrow :
    (c : Cmd) (file : List ℕ) (mode fd : ℕ)
    → (mode ≡ 0) × (fd ≡ 0) ⊎ (mode ≡ 0x201) × (fd ≡ 1)
    → redirect_to (arrow (mode == 0)) file c ≡ redircmd c file mode fd
unfolding redirect_to
redirect_to-arrow c file mode fd (inl (a, b)) = rw (a, b) refl
redirect_to-arrow c file mode fd (inr (a, b)) = rw (a, b) refl

pub ReadsExec-redircmd :
    (x : List Tok) (c : Cmd) (file : List ℕ) (mode fd : ℕ)
    → (mode ≡ 0) × (fd ≡ 0) ⊎ (mode ≡ 0x201) × (fd ≡ 1)
    → ReadsExec x c
    → ReadsExec (x ++ mark (arrow (mode == 0)) ∷ word file ∷ []) (redircmd c file mode fd)
ReadsExec-redircmd x c file mode fd to r n m rs ts h e l k =
    let b = mode == 0 in
    let tail = mark (arrow b) ∷ word file ∷ [] in
    let same = append_assoc x tail (redirs rs ++ ts) in
    let short = ap length same in
    ap (λ ys. parseexec m (parseline n) (show ys)) same
    ∙ r n m ((b, file) ∷ rs) ts (subst (All IsTok) same h) e (omega (arith, short))
        (omega (arith, short))
    ∙ ap (λ d. done (wrap d rs, show ts)) (redirect_to-arrow c file mode fd to)

Next-pipe : (ts : List Tok) → Next stops (mark b'|' ∷ ts)
unfolding occurs
Next-pipe ts = refl

pub ReadsPipe-pipecmd :
    (x y : List Tok) (c d : Cmd)
    → ReadsExec x c
    → ReadsPipe y d
    → ReadsPipe (x ++ mark b'|' ∷ y) (pipecmd c d)
unfolding parsepipe occurs
ReadsPipe-pipecmd x y c d r s n zero ts h e l k = absurd (omega arith)
ReadsPipe-pipecmd x y c d r s n (suc m) ts h e l k =
    let same = append_assoc x (mark b'|' ∷ y) ts in
    let short = ap length same in
    let rest = mark b'|' ∷ y ++ ts in
    let h' = subst (All IsTok) same h in
    let after = All-after x rest h' in
    let size = length-append x rest in
    ap (λ ys. parsepipe (suc m) (parseline n) (show ys)) same
    ∙ bind_done (parseexec (suc m) (parseline n)) _
        (r n (suc m) [] rest h' (Next-pipe (y ++ ts)) (omega (arith, short)) (omega (arith, short)))
    ∙ bind_done (peek (b'|' ∷ [])) _ (peek-show (b'|' ∷ []) rest (one_symbol b'|' refl) after)
    ∙ branch_yes true _ _ (show rest) refl
    ∙ bind_done gettoken _ (gettoken-show (mark b'|') (y ++ ts) after)
    ∙ bind_done (parsepipe m (parseline n)) _
        (s n m ts after.1 e (omega (arith, short, size)) (omega (arith, short, size)))
    ∙ returns (pipecmd c d) (show ts)

pub ReadsBacks-backcmd :
    (x : List Tok) (c : Cmd) → ReadsBacks x c → ReadsBacks (x ++ mark b'&' ∷ []) (backcmd c)
ReadsBacks-backcmd x c r n m k ts h e l q =
    let same = append_assoc x (mark b'&' ∷ []) (amps k ++ ts) in
    let short = ap length same in
    ap (λ ys. (parsepipe m (parseline n) >>= back_loop m) (show ys)) same
    ∙ r n m (suc k) ts (subst (All IsTok) same h) e (omega (arith, short)) (omega (arith, short))

Next-list : (ts : List Tok) → Next back_stops (mark b';' ∷ ts)
unfolding occurs
Next-list ts = refl

pub ReadsLine-listcmd :
    (x y : List Tok) (c d : Cmd)
    → ReadsBacks x c
    → ReadsLine y d
    → ReadsLine (x ++ mark b';' ∷ y) (listcmd c d)
unfolding parseline occurs
ReadsLine-listcmd x y c d r s zero ts h e l = absurd (omega arith)
ReadsLine-listcmd x y c d r s (suc n) ts h e l =
    let same = append_assoc x (mark b';' ∷ y) ts in
    let short = ap length same in
    let rest = mark b';' ∷ y ++ ts in
    let h' = subst (All IsTok) same h in
    let after = All-after x rest h' in
    let size = length-append x rest in
    ap (λ ys. parseline (suc n) (show ys)) same
    ∙ bind_assoc (parsepipe (suc n) (parseline n)) (back_loop (suc n)) _ (show (x ++ rest))
        (show rest) c
        (r n (suc n) 0 rest h' (Next-list (y ++ ts)) (omega (arith, short)) (omega (arith, short)))
    ∙ bind_done (peek (b';' ∷ [])) _ (peek-show (b';' ∷ []) rest (one_symbol b';' refl) after)
    ∙ branch_yes true _ _ (show rest) refl
    ∙ bind_done gettoken _ (gettoken-show (mark b';') (y ++ ts) after)
    ∙ bind_done (parseline n) _ (s n ts after.1 e (omega (arith, short, size)))
    ∙ returns (listcmd c d) (show ts)
