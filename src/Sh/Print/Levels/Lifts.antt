-- ===== src/Sh/Print/Levels/Lifts.antt =====
-- lab6/xv6-public/sh.c: from one function of the parser to the one that calls it.
use cs333_os_labs.Prelude.{
  All, List, [], ap, arith, false, length, length-append, refl, subst, suc, true, zero, ℕ, ◌++◌,
  ◌<◌, ◌∙◌, ◌∷◌, ◌≡◌, ◌≤◌,
}
use cs333_os_labs.Prelude.Outcome.{
  Stop, bind_assoc, bind_done, branch_no, branch_yes, done, require, required, returns, then_done,
}
use cs333_os_labs.Sh.{
  Cmd, back_loop, backcmd, gettoken, occurs, parseblock, parseexec, parseline, parsepipe, peek,
  symbols,
}
use cs333_os_labs.Sh.Print.{IsTok, Tok, gettoken-show, mark, peek-show, sees, show, word}
use cs333_os_labs.Sh.Print.Levels.{
  ReadsBacks, ReadsExec, ReadsLine, ReadsPipe, amps, back_stops, backs, fenced, line_stops,
  pipe_stops,
}
use cs333_os_labs.Sh.Print.Redirs.{
  AllSymbols, Next, Redir, parseredirs-redirs, redirs, sees_not, stops, wrap,
}
use mathlib.Core.List.{append_assoc}

weaken :
    (toks other : List ℕ) (ts : List Tok)
    → ((c : ℕ) → occurs c toks ≡ true → occurs c other ≡ true)
    → Next toks ts
    → Next other ts
weaken toks other [] f h = tt
weaken toks other (word w ∷ ts) f h = h
weaken toks other (mark c ∷ ts) f h = f c h

pub All-after : (x ts : List Tok) → All IsTok (x ++ ts) → All IsTok ts
All-after [] ts h = h
All-after (t ∷ x) ts h = All-after x ts h.1

amps_count : (k : ℕ) → length (amps k) ≡ k
amps_count zero = refl
amps_count (suc k) = ap suc (amps_count k)

pipe_stop_stops : (c : ℕ) → occurs c pipe_stops ≡ true → occurs c stops ≡ true
unfolding occurs
pipe_stop_stops c h = ground arith

pipe_stop_no_pipe : (c : ℕ) → occurs c pipe_stops ≡ true → occurs c (b'|' ∷ []) ≡ false
unfolding occurs
pipe_stop_no_pipe c h = ground arith

pub one_symbol : (c : ℕ) → occurs c symbols ≡ true → AllSymbols (c ∷ [])
one_symbol c h = (h, tt)

-- parsepipe of a command without a `|`.
pub ReadsPipe-ReadsExec : (x : List Tok) (c : Cmd) → ReadsExec x c → ReadsPipe x c
unfolding parsepipe occurs
ReadsPipe-ReadsExec x c r n zero ts h e l k = absurd (omega arith)
ReadsPipe-ReadsExec x c r n (suc m) ts h e l k =
    bind_done (parseexec (suc m) (parseline n)) _
      (r n (suc m) [] ts h (weaken pipe_stops stops ts pipe_stop_stops e) l k)
    ∙ bind_done (peek (b'|' ∷ [])) _
        (peek-show (b'|' ∷ []) ts (one_symbol b'|' refl) (All-after x ts h))
    ∙ branch_no (sees (b'|' ∷ []) ts) _ _ (show ts)
        (sees_not pipe_stops (b'|' ∷ []) ts pipe_stop_no_pipe e)
    ∙ returns c (show ts)

back_stop_pipe_stops : (c : ℕ) → occurs c back_stops ≡ true → occurs c pipe_stops ≡ true
unfolding occurs
back_stop_pipe_stops c h = ground arith

back_stop_no_back : (c : ℕ) → occurs c back_stops ≡ true → occurs c (b'&' ∷ []) ≡ false
unfolding occurs
back_stop_no_back c h = ground arith

back_loop-amps :
    (m k : ℕ) (c : Cmd) (ts : List Tok)
    → All IsTok (amps k ++ ts)
    → Next back_stops ts
    → k < m
    → back_loop m c (show (amps k ++ ts)) ≡ done (backs k c, show ts)
unfolding back_loop occurs
back_loop-amps zero k c ts h e l = absurd (omega arith)
back_loop-amps (suc m) zero c ts h e l =
    bind_done (peek (b'&' ∷ [])) _ (peek-show (b'&' ∷ []) ts (one_symbol b'&' refl) h)
    ∙ branch_no (sees (b'&' ∷ []) ts) _ _ (show ts)
        (sees_not back_stops (b'&' ∷ []) ts back_stop_no_back e)
    ∙ returns c (show ts)
back_loop-amps (suc m) (suc k) c ts h e l =
    let rest = amps k ++ ts in
    let all = mark b'&' ∷ rest in
    bind_done (peek (b'&' ∷ [])) _ (peek-show (b'&' ∷ []) all (one_symbol b'&' refl) h)
    ∙ branch_yes true _ _ (show all) refl
    ∙ bind_done gettoken _ (gettoken-show (mark b'&') rest h)
    ∙ back_loop-amps m k (backcmd c) ts h.1 e (omega arith)

Next-amps : (k : ℕ) (ts : List Tok) → Next back_stops ts → Next pipe_stops (amps k ++ ts)
unfolding occurs
Next-amps zero ts e = weaken back_stops pipe_stops ts back_stop_pipe_stops e
Next-amps (suc k) ts e = refl

amps-length : (k : ℕ) (x ts : List Tok) → k ≤ length (x ++ (amps k ++ ts))
amps-length k x ts =
    omega (arith, length-append x (amps k ++ ts), length-append (amps k) ts, amps_count k)

-- The loop of parseline after a command that does not end in `&`.
pub ReadsBacks-ReadsPipe : (x : List Tok) (c : Cmd) → ReadsPipe x c → ReadsBacks x c
ReadsBacks-ReadsPipe x c r n m k ts h e l q =
    bind_done (parsepipe m (parseline n)) (back_loop m)
      (r n m (amps k ++ ts) h (Next-amps k ts e) l q)
    ∙ back_loop-amps m k c ts (All-after x (amps k ++ ts) h) e (omega (arith, amps-length k x ts))

line_stop_back_stops : (c : ℕ) → occurs c line_stops ≡ true → occurs c back_stops ≡ true
unfolding occurs
line_stop_back_stops c h = ground arith

line_stop_no_list : (c : ℕ) → occurs c line_stops ≡ true → occurs c (b';' ∷ []) ≡ false
unfolding occurs
line_stop_no_list c h = ground arith

-- parseline of a command that no `;` follows.
pub ReadsLine-ReadsBacks : (x : List Tok) (c : Cmd) → ReadsBacks x c → ReadsLine x c
unfolding parseline occurs
ReadsLine-ReadsBacks x c r zero ts h e l = absurd (omega arith)
ReadsLine-ReadsBacks x c r (suc n) ts h e l =
    bind_assoc (parsepipe (suc n) (parseline n)) (back_loop (suc n)) _ (show (x ++ ts)) (show ts) c
      (r n (suc n) 0 ts h (weaken line_stops back_stops ts line_stop_back_stops e) (omega arith) l)
    ∙ bind_done (peek (b';' ∷ [])) _
        (peek-show (b';' ∷ []) ts (one_symbol b';' refl) (All-after x ts h))
    ∙ branch_no (sees (b';' ∷ []) ts) _ _ (show ts)
        (sees_not line_stops (b';' ∷ []) ts line_stop_no_list e)
    ∙ returns c (show ts)

pub redirs_fit : (rs : List Redir) (ts : List Tok) → length rs ≤ length (redirs rs ++ ts)
redirs_fit [] ts = omega arith
redirs_fit (r ∷ rs) ts = omega (arith, redirs_fit rs ts)

module _ (x : List Tok) (c : Cmd) (r : ReadsLine x c) (n m : ℕ) (rs : List Redir)
    (ts : List Tok) where
  abbrev in_block : List Tok
  in_block = x ++ mark b')' ∷ (redirs rs ++ ts)

  -- parseblock of a line in parentheses.
  block_read :
      All IsTok (mark b'(' ∷ in_block)
      → Next stops ts
      → length in_block < n
      → length rs < m
      → parseexec m (parseline n) (show (mark b'(' ∷ in_block)) ≡ done (wrap c rs, show ts)
  unfolding parseexec parseblock occurs
  block_read h e l k =
      let all = mark b'(' ∷ in_block in
      let rest = redirs rs ++ ts in
      let open_ = peek-show (b'(' ∷ []) all (one_symbol b'(' refl) h in
      bind_done (peek (b'(' ∷ [])) _ open_
      ∙ branch_yes true _ _ (show all) refl
      ∙ bind_done (peek (b'(' ∷ [])) _ open_
      ∙ then_done (require true Stop.parseblock_panic) _ (required Stop.parseblock_panic (show all))
      ∙ bind_done gettoken _ (gettoken-show (mark b'(') in_block h)
      ∙ bind_done (parseline n) _ (r n (mark b')' ∷ rest) h.1 refl l)
      ∙ bind_done (peek (b')' ∷ [])) _ (
          peek-show (b')' ∷ []) (mark b')' ∷ rest) (one_symbol b')' refl)
            (All-after x (mark b')' ∷ rest) h.1))
      ∙ then_done (require true Stop.missing_paren) _
          (required Stop.missing_paren (show (mark b')' ∷ rest)))
      ∙ bind_done gettoken _ (gettoken-show (mark b')') rest (All-after x (mark b')' ∷ rest) h.1))
      ∙ parseredirs-redirs m c rs ts (All-after x (mark b')' ∷ rest) h.1).1 e k

-- parseexec of a line in parentheses, in redirections.
pub ReadsExec-ReadsLine : (x : List Tok) (c : Cmd) → ReadsLine x c → ReadsExec (fenced false x) c
ReadsExec-ReadsLine x c r n m rs ts h e l k =
    let rest = redirs rs ++ ts in
    let same : fenced false x ++ rest ≡ mark b'(' ∷ x ++ mark b')' ∷ rest =
      ap (λ ys. mark b'(' ∷ ys) (append_assoc x (mark b')' ∷ []) rest) in
    let short = ap length same in
    let size = length-append x (mark b')' ∷ rest) in
    ap (λ ys. parseexec m (parseline n) (show ys)) same
    ∙ block_read x c r n m rs ts (subst (All IsTok) same h) e (omega (arith, short))
        (omega (arith, short, size, redirs_fit rs ts))
