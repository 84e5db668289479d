-- ===== src/Sh/Print/Redirs.antt =====
-- lab6/xv6-public/sh.c: parseredirs and the loop of parseexec on lines that were written out.
use cs333_os_labs.Prelude.{
  All, Bool, List, [], arith, false, length, refl, suc, true, zero, ℕ, ◌++◌, ◌<◌, ◌==◌, ◌∙◌, ◌∷◌,
  ◌≡◌,
}
use cs333_os_labs.Prelude.Outcome.{
  Stop, bind_done, branch_no, branch_yes, done, require, required, returns, then_done,
}
use cs333_os_labs.Sh.{Cmd, exec_args, gettoken, occurs, parseredirs, peek, redirect_to, symbols}
use cs333_os_labs.Sh.Fuel.{gettoken_end, skip_white_nothing}
use cs333_os_labs.Sh.Print.{IsTok, Tok, gettoken-show, mark, peek-show, sees, show, word}

abbrev pub AllSymbols : List ℕ → Type 0
AllSymbols toks = All (λ d. occurs d symbols ≡ true) toks

abbrev pub arrows : List ℕ
arrows = b'<' ∷ b'>' ∷ []

abbrev pub stops : List ℕ
stops = b'|' ∷ b')' ∷ b'&' ∷ b';' ∷ []

arrows-AllSymbols : AllSymbols arrows
unfolding occurs
arrows-AllSymbols = (refl, (refl, tt))

pub stops-AllSymbols : AllSymbols stops
unfolding occurs
stops-AllSymbols = (refl, (refl, (refl, (refl, tt))))

-- A redirection that is written out, of the input or of the output.
abbrev pub Redir : Type 0
Redir = Bool × List ℕ

abbrev pub arrow : Bool → ℕ
arrow true = b'<'
arrow false = b'>'

abbrev pub redirs : List Redir → List Tok
redirs [] = []
redirs (r ∷ rs) = mark (arrow r.0) ∷ word r.1 ∷ redirs rs

abbrev pub wrap : Cmd → List Redir → Cmd
wrap c [] = c
wrap c (r ∷ rs) = wrap (redirect_to (arrow r.0) r.1 c) rs

-- The next token, if any, is one of these marks.
abbrev pub Next : List ℕ → List Tok → Type 0
Next toks [] = Unit
Next toks (word w ∷ ts) = true ≡ false
Next toks (mark c ∷ ts) = occurs c toks ≡ true

pub sees_not :
    (toks other : List ℕ) (ts : List Tok)
    → ((c : ℕ) → occurs c toks ≡ true → occurs c other ≡ false)
    → Next toks ts
    → sees other ts ≡ false
sees_not toks other [] f h = refl
sees_not toks other (word w ∷ ts) f h = refl
sees_not toks other (mark c ∷ ts) f h = f c h

stop_no_arrow : (c : ℕ) → occurs c stops ≡ true → occurs c arrows ≡ false
unfolding occurs
stop_no_arrow c h = ground arith

arrow_seen : (b : Bool) → occurs (arrow b) arrows ≡ true
unfolding occurs
arrow_seen true = refl
arrow_seen false = refl

-- No redirection follows.
pub parseredirs_none :
    (n : ℕ) (c : Cmd) (ts : List Tok)
    → All IsTok ts
    → sees arrows ts ≡ false
    → parseredirs (suc n) c (show ts) ≡ done (c, show ts)
unfolding parseredirs
parseredirs_none n c ts h e =
    bind_done (peek arrows) _ (peek-show arrows ts arrows-AllSymbols h)
    ∙ branch_no (sees arrows ts) _ _ (show ts) e
    ∙ returns c (show ts)

-- parseredirs of redirections that were written out wraps the command in them.
pub parseredirs-redirs :
    (n : ℕ) (c : Cmd) (rs : List Redir) (ts : List Tok)
    → All IsTok (redirs rs ++ ts)
    → Next stops ts
    → length rs < n
    → parseredirs n c (show (redirs rs ++ ts)) ≡ done (wrap c rs, show ts)
unfolding parseredirs
parseredirs-redirs zero c rs ts h e l = absurd (omega arith)
parseredirs-redirs (suc n) c [] ts h e l =
    parseredirs_none n c ts h (sees_not stops arrows ts stop_no_arrow e)
parseredirs-redirs (suc n) c (r ∷ rs) ts h e l =
    let rest = redirs rs ++ ts in
    let all = mark (arrow r.0) ∷ word r.1 ∷ rest in
    bind_done (peek arrows) _ (peek-show arrows all arrows-AllSymbols h)
    ∙ branch_yes (occurs (arrow r.0) arrows) _ _ (show all) (arrow_seen r.0)
    ∙ bind_done gettoken _ (gettoken-show (mark (arrow r.0)) (word r.1 ∷ rest) h)
    ∙ bind_done gettoken _ (gettoken-show (word r.1) rest h.1)
    ∙ then_done (require (b'a' == b'a') Stop.missing_file) _
        (required Stop.missing_file (show rest))
    ∙ parseredirs-redirs n (redirect_to (arrow r.0) r.1 c) rs ts h.1.1 e (omega arith)

abbrev pub words : List (List ℕ) → List Tok
words [] = []
words (w ∷ ws) = word w ∷ words ws

pub All-after_words :
    (ws : List (List ℕ)) (ts : List Tok) → All IsTok (words ws ++ ts) → All IsTok ts
All-after_words [] ts h = h
All-after_words (w ∷ ws) ts h = All-after_words ws ts h.1

pub All-after_redirs :
    (rs : List Redir) (ts : List Tok) → All IsTok (redirs rs ++ ts) → All IsTok ts
All-after_redirs [] ts h = h
All-after_redirs (r ∷ rs) ts h = All-after_redirs rs ts h.1.1

-- The end of the loop of parseexec.
pub exec_args_end :
    (n argc : ℕ) (c : Cmd) (ts : List Tok)
    → All IsTok ts
    → Next stops ts
    → exec_args (suc n) argc c (show ts) ≡ done (c, show ts)
unfolding exec_args
exec_args_end n argc c [] h e =
    bind_done (peek stops) _ (peek-show stops [] stops-AllSymbols h)
    ∙ branch_no false _ _ [] refl
    ∙ bind_done gettoken _ (gettoken_end [] skip_white_nothing)
    ∙ branch_yes (0 == 0) _ _ [] refl
    ∙ returns c []
exec_args_end n argc c (word w ∷ ts) h e = cc
exec_args_end n argc c (mark d ∷ ts) h e =
    bind_done (peek stops) _ (peek-show stops (mark d ∷ ts) stops-AllSymbols h)
    ∙ branch_yes (occurs d stops) _ _ (show (mark d ∷ ts)) e
    ∙ returns c (show (mark d ∷ ts))
