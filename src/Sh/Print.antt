-- ===== src/Sh/Print.antt =====
-- lab6/xv6-public/sh.c: commands written out as lines, token by token, and how gettoken and peek
-- read such a line.
pub mod Redirs
pub mod Arguments
pub mod Levels
pub mod Functions
pub mod RoundTrip
use cs333_os_labs.Prelude.{
  ==_iff, All, Bool, Bool-cases, List, [], ap, arith, false, inl, inr, length, refl, subst, sym,
  true, ℕ, ◌++◌, ◌<◌, ◌==◌, ◌∙◌, ◌∷◌, ◌≡◌, ◌≢◌,
}
use cs333_os_labs.Prelude.Outcome.{done}
use cs333_os_labs.Sh.{
  after_greater, gettoken, occurs, peek, skip_white, starts_in, symbols, token_at, whitespace,
  word_at,
}

pub data Tok : Type 0 where
  word : List ℕ → Tok
  mark : ℕ → Tok

abbrev pub text : Tok → List ℕ
text (word w) = w
text (mark c) = c ∷ []

-- A blank after each token.
abbrev pub show : List Tok → List ℕ
show [] = []
show (t ∷ ts) = text t ++ 32 ∷ show ts

abbrev pub IsWordByte : ℕ → Type 0
IsWordByte c = (occurs c whitespace ≡ false) × (occurs c symbols ≡ false)

-- A word has a byte, and neither blanks nor symbols.
abbrev pub IsWord : List ℕ → Type 0
IsWord w = (0 < length w) × All IsWordByte w

abbrev pub IsTok : Tok → Type 0
IsTok (word w) = IsWord w
IsTok (mark c) = (occurs c symbols ≡ true) × (occurs c whitespace ≡ false)

-- What gettoken returns, and the word.
abbrev pub code_of : Tok → ℕ
code_of (word w) = b'a'
code_of (mark c) = c

abbrev pub name_of : Tok → List ℕ
name_of (word w) = w
name_of (mark c) = []

skip_white_byte : (c : ℕ) (s : List ℕ) → occurs c whitespace ≡ false → skip_white (c ∷ s) ≡ c ∷ s
unfolding skip_white
skip_white_byte c s e = rw e refl

skip_white_blank : (s : List ℕ) → skip_white (32 ∷ s) ≡ skip_white s
unfolding skip_white occurs
skip_white_blank s = refl

skip_white-show : (ts : List Tok) → All IsTok ts → skip_white (show ts) ≡ show ts
unfolding skip_white
skip_white-show [] h = refl
skip_white-show (word [] ∷ ts) h = absurd (omega (arith, h.0.0))
skip_white-show (word (c ∷ w) ∷ ts) h = skip_white_byte c (w ++ 32 ∷ show ts) h.0.1.0.0
skip_white-show (mark c ∷ ts) h = skip_white_byte c (32 ∷ show ts) h.0.1

word_at-blank : (w s : List ℕ) → All IsWordByte w → word_at (w ++ 32 ∷ s) ≡ (w, 32 ∷ s)
unfolding word_at occurs
word_at-blank [] s h = refl
word_at-blank (c ∷ w) s h = rw (h.0.0, h.0.1, word_at-blank w s h.1) refl

no_greater : (c : ℕ) → occurs c symbols ≡ false → (c == b'>') ≡ false
unfolding occurs
no_greater c h = ground arith

token_at-show :
    (t : Tok) (s : List ℕ) → IsTok t → token_at (text t ++ 32 ∷ s) ≡ (code_of t, name_of t, 32 ∷ s)
unfolding token_at after_greater
token_at-show (word []) s h = absurd (omega (arith, h.0))
token_at-show (word (c ∷ w)) s h =
    let (white, plain) = h.1.0 in rw (no_greater c plain, plain, word_at-blank (c ∷ w) s h.1) refl
token_at-show (mark c) s h = elim (Bool-cases (c == b'>')) [
  | inl e ↦ let k : c ≡ b'>' = (==_iff c b'>').0 e in rw e (ap (λ a. (a, [], 32 ∷ s)) (sym k))
  | inr e ↦ rw (e, h.0) refl
]

-- A token of a line that was written out, read back.
pub gettoken-show :
    (t : Tok) (ts : List Tok)
    → All IsTok (t ∷ ts)
    → gettoken (show (t ∷ ts)) ≡ done ((code_of t, name_of t), show ts)
unfolding gettoken
gettoken-show t ts h =
    let e = skip_white-show (t ∷ ts) h in
    let f = token_at-show t (show ts) h.0 in
    let g = skip_white_blank (show ts) ∙ skip_white-show ts h.1 in
    ap (λ s. let (ret, q, rest) = token_at s in done ((ret, q), skip_white rest)) e
    ∙ ap (λ r. let (ret, q, rest) = r in done ((ret, q), skip_white rest)) f
    ∙ ap (λ s. done ((code_of t, name_of t), s)) g

-- What peek says of the next token.
abbrev pub sees : List ℕ → List Tok → Bool
sees toks [] = false
sees toks (word w ∷ ts) = false
sees toks (mark c ∷ ts) = occurs c toks

true_ne_false : true ≢ false
true_ne_false e = cc

not_in :
    (c : ℕ) (toks : List ℕ)
    → All (λ d. occurs d symbols ≡ true) toks
    → occurs c symbols ≡ false
    → occurs c toks ≡ false
unfolding occurs
not_in c [] h e = refl
not_in c (d ∷ toks) h e = elim (Bool-cases (c == d)) [
  | inl k ↦
      let same : d ≡ c = sym ((==_iff c d).0 k) in
      absurd (true_ne_false (sym (subst (λ a. occurs a symbols ≡ true) same h.0) ∙ e))
  | inr k ↦ rw k (not_in c toks h.1 e)
]

starts_in-show :
    (toks : List ℕ) (ts : List Tok)
    → All (λ d. occurs d symbols ≡ true) toks
    → All IsTok ts
    → starts_in toks (show ts) ≡ sees toks ts
unfolding starts_in
starts_in-show toks [] h k = refl
starts_in-show toks (word [] ∷ ts) h k = absurd (omega (arith, k.0.0))
starts_in-show toks (word (c ∷ w) ∷ ts) h k = not_in c toks h k.0.1.0.1
starts_in-show toks (mark c ∷ ts) h k = refl

pub peek-show :
    (toks : List ℕ) (ts : List Tok)
    → All (λ d. occurs d symbols ≡ true) toks
    → All IsTok ts
    → peek toks (show ts) ≡ done (sees toks ts, show ts)
unfolding peek
peek-show toks ts h k =
    let e = skip_white-show ts k in
    ap (λ s. done (starts_in toks s, s)) e
    ∙ ap (λ b. done (b, show ts)) (starts_in-show toks ts h k)
