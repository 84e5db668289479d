-- ===== src/Sh/Fuel/Parsers.antt =====
-- lab6/xv6-public/sh.c: the bytes of the line that the functions of the parser leave.
use cs333_os_labs.Prelude.{
  Bool-cases, List, [], arith, inl, inr, length, ltb, refl, subst, suc, sym, zero, ℕ, ◌+◌, ◌-◌, ◌<◌,
  ◌==◌, ◌∷◌, ◌≢◌, ◌≤◌,
}
use cs333_os_labs.Prelude.Outcome.{
  Stop, bind_done, branch, code, pure, read, reads, require, stop, ◌>>=◌, ◌>>◌,
}
use cs333_os_labs.Sh.{
  Cmd, P, add_arg, back_loop, backcmd, exec_args, execcmd, gettoken, is_end, listcmd, maxargs,
  parseblock, parsecmd, parseexec, parseline, parsepipe, parseredirs, peek, pipecmd, redirect_to,
  skip_white,
}
use cs333_os_labs.Sh.Fuel.{
  Leaves, Leaves-bind, Leaves-branch, Leaves-more, Leaves-require, gettoken-Leaves, gettoken-bind,
  length-skip_white, peek-Leaves, peek-gettoken, peek-require-gettoken, pure-Leaves,
}

parseredirs-Leaves :
    (n b : ℕ) (c : Cmd) (s : List ℕ) → length s ≤ b → b < n → Leaves b (parseredirs n c s)
unfolding parseredirs
parseredirs-Leaves zero b c s h l = absurd (omega arith)
parseredirs-Leaves (suc n) b c s h l =
    peek-gettoken b b (b'<' ∷ b'>' ∷ []) s _ (pure c) h
      (λ tok t r.
        Leaves-bind (b - 1) b gettoken _ t (gettoken-Leaves (b - 1) t (omega arith)) (λ file u q.
          Leaves-require b (file.0 == b'a') Stop.missing_file
            (parseredirs n (redirect_to tok.0 file.1 c)) u (λ e. cc)
            (Leaves-more (b - 1) b (parseredirs n (redirect_to tok.0 file.1 c) u) (omega arith)
              (parseredirs-Leaves n (b - 1) (redirect_to tok.0 file.1 c) u q (omega arith)))))
      (λ t r. pure-Leaves b c t r)

branch_end : (b : ℕ) (c : Cmd) (m : P Cmd) → Leaves b (branch (0 == 0) (pure c) m [])
unfolding code
branch_end b c m = omega arith

exec_args-Leaves :
    (n b argc : ℕ) (c : Cmd) (s : List ℕ) → length s ≤ b → b < n → Leaves b (exec_args n argc c s)
unfolding exec_args
exec_args-Leaves zero b argc c s h l = absurd (omega arith)
exec_args-Leaves (suc n) b argc c s h l =
    Leaves-bind b b (peek (b'|' ∷ b')' ∷ b'&' ∷ b';' ∷ [])) _ s (peek-Leaves b _ s h) (λ over t r.
      Leaves-branch b over (pure c) _ t (λ e. pure-Leaves b c t r)
        (λ e. gettoken-bind b b t _ r (branch_end b c _) (λ tok u q.
          Leaves-branch b (tok.0 == 0) (pure c) _ u (λ d. pure-Leaves b c u (omega arith))
            (λ d.
              Leaves-require b (tok.0 == b'a') Stop.syntax _ u (λ d. cc)
                (Leaves-require b (ltb (argc + 1) maxargs) Stop.too_many_args _ u (λ d. cc)
                  (Leaves-bind (b - 1) b (parseredirs n (add_arg tok.1 c)) (exec_args n (argc + 1))
                    u (parseredirs-Leaves n (b - 1) (add_arg tok.1 c) u (omega arith) (omega arith))
                    (λ longer v w.
                      Leaves-more (b - 1) b (exec_args n (argc + 1) longer v) (omega arith)
                        (exec_args-Leaves n (b - 1) (argc + 1) longer v w (omega arith)))))))))

module _ (n : ℕ) (line : P Cmd)
    (lines : (b : ℕ) (s : List ℕ) → length s ≤ b → b < n → Leaves b (line s)) where
  parseblock-Leaves :
      (m b : ℕ) (s : List ℕ) → length s ≤ b → b < m → b ≤ n → Leaves b (parseblock m line s)
  unfolding parseblock
  parseblock-Leaves m b s h l r =
      peek-require-gettoken b b (b'(' ∷ []) s Stop.parseblock_panic _ (λ e. cc) h
        (λ tok t q.
          Leaves-bind (b - 1) b line _ t (lines (b - 1) t (omega arith) (omega arith)) (λ c u w.
            peek-require-gettoken (b - 1) b (b')' ∷ []) u Stop.missing_paren _ (λ e. cc) w
              (λ tok v z.
                Leaves-more (b - 1) b (parseredirs m c v) (omega arith)
                  (parseredirs-Leaves m (b - 1) c v (omega arith) (omega arith)))))

  parseexec-Leaves :
      (m b : ℕ) (s : List ℕ) → length s ≤ b → b < m → b ≤ n → Leaves b (parseexec m line s)
  unfolding parseexec
  parseexec-Leaves m b s h l r =
      Leaves-bind b b (peek (b'(' ∷ [])) _ s (peek-Leaves b (b'(' ∷ []) s h) (λ block t q.
        Leaves-branch b block (parseblock m line) _ t (λ e. parseblock-Leaves m b t q l r)
          (λ e.
            Leaves-bind b b (parseredirs m (execcmd [])) _ t
              (parseredirs-Leaves m b (execcmd []) t q l)
              (λ ret u w. exec_args-Leaves m b 0 ret u w l)))

  parsepipe-Leaves :
      (m b : ℕ) (s : List ℕ) → length s ≤ b → b < m → b ≤ n → Leaves b (parsepipe m line s)
  unfolding parsepipe
  parsepipe-Leaves zero b s h l r = absurd (omega arith)
  parsepipe-Leaves (suc m) b s h l r =
      Leaves-bind b b (parseexec (suc m) line) _ s (parseexec-Leaves (suc m) b s h l r) (λ c t q.
        peek-gettoken b b (b'|' ∷ []) t _ (pure c) q
          (λ tok u w.
            Leaves-bind (b - 1) b (parsepipe m line) _ u
              (parsepipe-Leaves m (b - 1) u (omega arith) (omega arith) (omega arith))
              (λ d v z. pure-Leaves b (pipecmd c d) v (omega arith)))
          (λ u w. pure-Leaves b c u w))

back_loop-Leaves :
    (n b : ℕ) (c : Cmd) (s : List ℕ) → length s ≤ b → b < n → Leaves b (back_loop n c s)
unfolding back_loop
back_loop-Leaves zero b c s h l = absurd (omega arith)
back_loop-Leaves (suc n) b c s h l =
    peek-gettoken b b (b'&' ∷ []) s _ (pure c) h
      (λ tok t r.
        Leaves-more (b - 1) b (back_loop n (backcmd c) t) (omega arith)
          (back_loop-Leaves n (b - 1) (backcmd c) t (omega arith) (omega arith)))
      (λ t r. pure-Leaves b c t r)

parseline-Leaves : (n b : ℕ) (s : List ℕ) → length s ≤ b → b < n → Leaves b (parseline n s)
unfolding parseline
parseline-Leaves zero b s h l = absurd (omega arith)
parseline-Leaves (suc n) b s h l =
    Leaves-bind b b (parsepipe (suc n) (parseline n)) _ s
      (parsepipe-Leaves n (parseline n) (parseline-Leaves n) (suc n) b s h l (omega arith))
      (λ c t r.
        Leaves-bind b b (back_loop (suc n) c) _ t (back_loop-Leaves (suc n) b c t r l) (λ d u q.
          peek-gettoken b b (b';' ∷ []) u _ (pure d) q
            (λ tok v w.
              Leaves-bind (b - 1) b (parseline n) _ v
                (parseline-Leaves n (b - 1) v (omega arith) (omega arith))
                (λ e x z. pure-Leaves b (listcmd d e) x (omega arith)))
            (λ v w. pure-Leaves b d v w)))

parsed-Leaves :
    (b : ℕ) (c : Cmd) (s : List ℕ)
    → length s ≤ b
    → Leaves b
        ((peek [] >>= λ more. read is_end >>= λ over. require over Stop.leftovers >> pure c) s)
unfolding peek code
parsed-Leaves b c s h =
    let t = skip_white s in
    elim (Bool-cases (is_end t)) [
      | inl d ↦
          subst (λ x. Leaves b ((require x Stop.leftovers >> pure c) t)) (sym d)
            (omega (arith, length-skip_white s))
      | inr d ↦ subst (λ x. Leaves b ((require x Stop.leftovers >> pure c) t)) (sym d) (λ e. cc)
    ]

parsecmd-Leaves : (s : List ℕ) → Leaves (length s) (parsecmd s)
unfolding parsecmd
parsecmd-Leaves s =
    let b = length s in
    subst (Leaves b) (sym (bind_done (read (λ t. length t + 1)) _ (reads (λ t. length t + 1) s))) (
      Leaves-bind b b (parseline (b + 1)) _ s
        (parseline-Leaves (b + 1) b s (omega arith) (omega arith)) (λ c t r. parsed-Leaves b c t r))

-- parsecmd of any line returns a command or stops with a panic of the shell: it never loops for
-- ever, and fuel of one more than the bytes of the line is enough for all its loops and calls.
pub parsecmd_ends : (s : List ℕ) → parsecmd s ≢ stop Stop.out_of_fuel
parsecmd_ends s e = subst (Leaves (length s)) e (parsecmd-Leaves s) refl
