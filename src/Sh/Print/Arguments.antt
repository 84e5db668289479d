-- ===== src/Sh/Print/Arguments.antt =====
-- lab6/xv6-public/sh.c: parseexec of words and redirections that were written out.
use cs333_os_labs.Prelude.{
  All, List, [], ap, arith, false, length, ltb, lt→ltb, refl, suc, true, zero, ℕ, ◌++◌, ◌+◌, ◌<◌,
  ◌==◌, ◌∙◌, ◌∷◌, ◌≡◌,
}
use cs333_os_labs.Prelude.Outcome.{
  Stop, bind_done, branch_no, done, require, required, then_done, ◌>>=◌,
}
use cs333_os_labs.Sh.{
  Cmd, P, add_arg, exec_args, execcmd, gettoken, maxargs, occurs, parseexec, parseredirs, peek,
}
use cs333_os_labs.Sh.Print.{IsTok, Tok, gettoken-show, peek-show, sees, show, word}
use cs333_os_labs.Sh.Print.Redirs.{
  All-after_redirs, AllSymbols, Next, Redir, exec_args_end, parseredirs-redirs, parseredirs_none,
  redirs, sees_not, stops, stops-AllSymbols, words, wrap,
}
use mathlib.Core.List.{append_assoc}

parseredirs_next :
    (n : ℕ) (c : Cmd) (w : List ℕ) (ts : List Tok)
    → All IsTok (word w ∷ ts)
    → 0 < n
    → parseredirs n c (show (word w ∷ ts)) ≡ done (c, show (word w ∷ ts))
parseredirs_next zero c w ts h l = absurd (omega arith)
parseredirs_next (suc n) c w ts h l = parseredirs_none n c (word w ∷ ts) h refl

exec_args_over :
    (n argc : ℕ) (c : Cmd) (ts : List Tok)
    → All IsTok ts
    → Next stops ts
    → 0 < n
    → exec_args n argc c (show ts) ≡ done (c, show ts)
exec_args_over zero argc c ts h e l = absurd (omega arith)
exec_args_over (suc n) argc c ts h e l = exec_args_end n argc c ts h e

-- A round of the loop of parseexec, over a word.
exec_args_word :
    (n argc : ℕ) (acc : List (List ℕ)) (w : List ℕ) (ts : List Tok)
    → All IsTok (word w ∷ ts)
    → argc + 1 < maxargs
    → exec_args (suc n) argc (execcmd acc) (show (word w ∷ ts))
      ≡ (parseredirs n (execcmd (acc ++ w ∷ [])) >>= exec_args n (argc + 1)) (show ts)
unfolding exec_args add_arg
exec_args_word n argc acc w ts h l =
    let s = show ts in
    let fits = lt→ltb (argc + 1) maxargs l in
    bind_done (peek stops) _ (peek-show stops (word w ∷ ts) stops-AllSymbols h)
    ∙ branch_no false _ _ (show (word w ∷ ts)) refl
    ∙ bind_done gettoken _ (gettoken-show (word w) ts h)
    ∙ branch_no (b'a' == 0) _ _ s refl
    ∙ then_done (require (b'a' == b'a') Stop.syntax) _ (required Stop.syntax s)
    ∙ then_done (require (ltb (argc + 1) maxargs) Stop.too_many_args) _
        (ap (λ b. require b Stop.too_many_args s) fits ∙ required Stop.too_many_args s)

exec_args-words :
    (n argc : ℕ) (acc : List (List ℕ)) (w : List ℕ) (ws : List (List ℕ)) (rs : List Redir)
    (ts : List Tok)
    → All IsTok (words (w ∷ ws) ++ (redirs rs ++ ts))
    → Next stops ts
    → argc + length (w ∷ ws) < maxargs
    → length ws + length rs + 1 < n
    → exec_args n argc (execcmd acc) (show (words (w ∷ ws) ++ (redirs rs ++ ts)))
      ≡ done (wrap (execcmd (acc ++ w ∷ ws)) rs, show ts)
exec_args-words zero argc acc w ws rs ts h e l k = absurd (omega arith)
exec_args-words (suc n) argc acc w [] rs ts h e l k =
    let c = execcmd (acc ++ w ∷ []) in
    exec_args_word n argc acc w (redirs rs ++ ts) h (omega arith)
    ∙ bind_done (parseredirs n c) _ (parseredirs-redirs n c rs ts h.1 e (omega arith))
    ∙ exec_args_over n (argc + 1) (wrap c rs) ts (All-after_redirs rs ts h.1) e (omega arith)
exec_args-words (suc n) argc acc w (v ∷ vs) rs ts h e l k =
    let c = execcmd (acc ++ w ∷ []) in
    let rest = words vs ++ (redirs rs ++ ts) in
    exec_args_word n argc acc w (word v ∷ rest) h (omega arith)
    ∙ bind_done (parseredirs n c) _ (parseredirs_next n c v rest h.1 (omega arith))
    ∙ exec_args-words n (argc + 1) (acc ++ w ∷ []) v vs rs ts h.1 e (omega arith) (omega arith)
    ∙ ap (λ args. done (wrap (execcmd args) rs, show ts)) (append_assoc acc (w ∷ []) (v ∷ vs))

block_symbol : AllSymbols (b'(' ∷ [])
unfolding occurs
block_symbol = (refl, tt)

stop_no_block : (c : ℕ) → occurs c stops ≡ true → occurs c (b'(' ∷ []) ≡ false
unfolding occurs
stop_no_block c h = ground arith

no_block :
    (ws : List (List ℕ)) (rs : List Redir) (ts : List Tok)
    → Next stops ts
    → sees (b'(' ∷ []) (words ws ++ (redirs rs ++ ts)) ≡ false
unfolding occurs
no_block (w ∷ ws) rs ts e = refl
no_block [] ((true, f) ∷ rs) ts e = refl
no_block [] ((false, f) ∷ rs) ts e = refl
no_block [] [] ts e = sees_not stops (b'(' ∷ []) ts stop_no_block e

module _ (m : ℕ) (line : P Cmd) (rs : List Redir) (ts : List Tok) (e : Next stops ts) where
  after_block :
      (ws : List (List ℕ))
      → All IsTok (words ws ++ (redirs rs ++ ts))
      → length ws < maxargs
      → length ws + length rs < m
      → (parseredirs m (execcmd []) >>= exec_args m 0) (show (words ws ++ (redirs rs ++ ts)))
        ≡ done (wrap (execcmd ws) rs, show ts)
  after_block [] h l k =
      bind_done (parseredirs m (execcmd [])) _
        (parseredirs-redirs m (execcmd []) rs ts h e (omega arith))
      ∙ exec_args_over m 0 (wrap (execcmd []) rs) ts (All-after_redirs rs ts h) e (omega arith)
  after_block (w ∷ ws) h l k =
      bind_done (parseredirs m (execcmd [])) _
        (parseredirs_next m (execcmd []) w (words ws ++ (redirs rs ++ ts)) h (omega arith))
      ∙ exec_args-words m 0 [] w ws rs ts h e (omega arith) (omega arith)

  -- Words and redirections become a command of these words, in the redirections.
  pub parseexec-words :
      (ws : List (List ℕ))
      → All IsTok (words ws ++ (redirs rs ++ ts))
      → length ws < maxargs
      → length ws + length rs < m
      → parseexec m line (show (words ws ++ (redirs rs ++ ts)))
        ≡ done (wrap (execcmd ws) rs, show ts)
  unfolding parseexec
  parseexec-words ws h l k =
      let all = words ws ++ (redirs rs ++ ts) in
      bind_done (peek (b'(' ∷ [])) _ (peek-show (b'(' ∷ []) all block_symbol h)
      ∙ branch_no (sees (b'(' ∷ []) all) _ _ (show all) (no_block ws rs ts e)
      ∙ after_block ws h l k
