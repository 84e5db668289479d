-- ===== src/Grep/Regex.antt =====
-- lab6/xv6-public/grep.c, match: what a pattern means.
use cs333_os_labs.Grep.{
  caret, dollar, dot, is_nil, match, match_anywhere, match_here, match_one, match_star, star_byte,
}
use cs333_os_labs.Prelude.{
  Bool, Bool-cases, List, [], ap, arith, if◌then◌else◌, inl, inr, refl, subst, sym, true, ℕ, ◌&&◌,
  ◌++◌, ◌==◌, ◌||◌, ◌↔◌, ◌∷◌, ◌≡◌,
}

-- The parts of a pattern.
pub data Piece : Type 0 where
  one many : ℕ → Piece
  end : Piece

abbrev pub pieces : List ℕ → List Piece
pieces [] = []
pieces (c ∷ []) = (if c == dollar then end else one c) ∷ []
pieces (c ∷ d ∷ re) =
    let after = pieces re in
    let next = pieces (d ∷ re) in if d == star_byte then many c ∷ after else one c ∷ next

abbrev pub fits : ℕ → ℕ → Bool
fits c t = c == dot || c == t

abbrev pub all_fit : ℕ → List ℕ → Bool
all_fit c [] = true
all_fit c (t ∷ text) = fits c t && all_fit c text

-- The text starts with what the pieces stand for.
abbrev pub Begins : List Piece → List ℕ → Type 0
Begins [] text = Unit {0}
Begins (one c ∷ ps) text =
    (t : ℕ) × (rest : List ℕ) × (text ≡ t ∷ rest) × (fits c t ≡ true) × Begins ps rest
Begins (many c ∷ ps) text =
    (run : List ℕ) × (rest : List ℕ) × (text ≡ run ++ rest)
    × (all_fit c run ≡ true)
    × Begins ps rest
Begins (end ∷ ps) text = text ≡ []

-- The text of a line has a match: at its start for a pattern with ^, otherwise anywhere.
abbrev pub HasMatch : List ℕ → List ℕ → Type 0
HasMatch [] text = Unit {0}
HasMatch (c ∷ re) text =
    if c == caret
    then Begins (pieces re) text
    else (before : List ℕ) × (after : List ℕ) × (text ≡ before ++ after)
      × Begins (pieces (c ∷ re)) after

-- A test decides what the text starts with.
abbrev Tests : (List ℕ → Bool) → (List ℕ → Type 0) → Type 0
Tests here G = (text : List ℕ) → (here text ≡ true) ↔ G text

star_stops :
    (c : ℕ) (here : List ℕ → Bool) (text : List ℕ)
    → here text ≡ true
    → match_star c here text ≡ true
unfolding match_star
star_stops c here [] e = e
star_stops c here (t ∷ text) e = rw e refl

star_passes :
    (c : ℕ) (here : List ℕ → Bool) (run rest : List ℕ)
    → all_fit c run ≡ true
    → here rest ≡ true
    → match_star c here (run ++ rest) ≡ true
unfolding match_star
star_passes c here [] rest f e = star_stops c here rest e
star_passes c here (t ∷ run) rest f e = ground (arith, f, star_passes c here run rest)

module _ (c : ℕ) (here : List ℕ → Bool) (ps : List Piece) (h : Tests here (Begins ps)) where
  star_sound : (text : List ℕ) → match_star c here text ≡ true → Begins (many c ∷ ps) text
  unfolding match_star
  star_sound [] e = ([], [], refl, refl, (h []).0 e)
  star_sound (t ∷ text) e = elim (Bool-cases (here (t ∷ text))) [
    | inl a ↦ ([], t ∷ text, refl, refl, (h (t ∷ text)).0 a)
    | inr a ↦
        let further : match_star c here text ≡ true = ground (arith, e, a) in
        let fit : fits c t ≡ true = ground (arith, e, a) in
        let (run, rest, q, f, g) = star_sound text further in
        (t ∷ run, rest, ap (λ s. t ∷ s) q, ground (arith, fit, f), g)
  ]

  star-Tests : Tests (match_star c here) (Begins (many c ∷ ps))
  star-Tests text = (
    star_sound text,
    λ (run, rest, q, f, g).
        subst (λ s. match_star c here s ≡ true) (sym q)
          (star_passes c here run rest f ((h rest).1 g)),
  )

  one_sound : (text : List ℕ) → match_one c here text ≡ true → Begins (one c ∷ ps) text
  unfolding match_one
  one_sound [] e = ground (arith, e)
  one_sound (t ∷ text) e = (t, text, refl, ground (arith, e), (h text).0 (ground (arith, e)))

  one-Tests : Tests (match_one c here) (Begins (one c ∷ ps))
  unfolding match_one
  one-Tests text = (
    one_sound text,
    λ (t, rest, q, f, g).
        let found : match_one c here (t ∷ rest) ≡ true = rw f ((h rest).1 g) in
        subst (λ s. match_one c here s ≡ true) (sym q) found,
  )

is_nil-Tests : Tests is_nil (Begins (end ∷ []))
is_nil-Tests [] = (λ e. refl, λ q. refl)
is_nil-Tests (t ∷ text) = (λ e. ground (arith, e), λ q. ground (arith, q))

match_here-Tests : (re : List ℕ) → Tests (match_here re) (Begins (pieces re))
unfolding match_here
match_here-Tests [] text = (λ e. tt, λ g. refl)
match_here-Tests (c ∷ []) text = elim (Bool-cases (c == dollar)) [
  | inl e ↦ rw e (is_nil-Tests text)
  | inr e ↦ rw e (one-Tests c (λ s. true) [] (λ s. (λ e. tt, λ g. refl)) text)
]
match_here-Tests (c ∷ d ∷ re) text = elim (Bool-cases (d == star_byte)) [
  | inl e ↦ rw e (star-Tests c (match_here re) (pieces re) (match_here-Tests re) text)
  | inr e ↦
      rw e (one-Tests c (match_here (d ∷ re)) (pieces (d ∷ re)) (match_here-Tests (d ∷ re)) text)
]

anywhere_sound :
    (re text : List ℕ)
    → match_anywhere re text ≡ true
    → (before : List ℕ) × (after : List ℕ) × (text ≡ before ++ after) × Begins (pieces re) after
unfolding match_anywhere
anywhere_sound re [] e = ([], [], refl, (match_here-Tests re []).0 e)
anywhere_sound re (t ∷ text) e = elim (Bool-cases (match_here re (t ∷ text))) [
  | inl a ↦ ([], t ∷ text, refl, (match_here-Tests re (t ∷ text)).0 a)
  | inr a ↦
      let (before, after, q, g) = anywhere_sound re text (ground (arith, e, a)) in
      (t ∷ before, after, ap (λ s. t ∷ s) q, g)
]

anywhere_at : (re after : List ℕ) → match_here re after ≡ true → match_anywhere re after ≡ true
unfolding match_anywhere
anywhere_at re [] e = e
anywhere_at re (t ∷ after) e = rw e refl

anywhere_after :
    (re before after : List ℕ)
    → match_anywhere re after ≡ true
    → match_anywhere re (before ++ after) ≡ true
unfolding match_anywhere
anywhere_after re [] after e = e
anywhere_after re (t ∷ before) after e = ground (arith, anywhere_after re before after e)

anywhere_iff :
    (re text : List ℕ)
    → (match_anywhere re text ≡ true)
      ↔ ((before : List ℕ) × (after : List ℕ) × (text ≡ before ++ after) × Begins (pieces re) after)
anywhere_iff re text = (
  anywhere_sound re text,
  λ (before, after, q, g).
      subst (λ s. match_anywhere re s ≡ true) (sym q)
        (anywhere_after re before after (anywhere_at re after ((match_here-Tests re after).1 g))),
)

-- match finds exactly what the pattern means: at the start of the text for a pattern that begins
-- with ^, anywhere in it otherwise, a part that is made up, piece after piece, of one byte that
-- fits, of a run of bytes that fit for a starred one, and that reaches the end of the text for a
-- last $.
pub match_lem : (pattern text : List ℕ) → (match pattern text ≡ true) ↔ HasMatch pattern text
unfolding match
match_lem [] text = (λ e. tt, λ g. anywhere_at [] text ((match_here-Tests [] text).1 tt))
match_lem (c ∷ re) text = elim (Bool-cases (c == caret)) [
  | inl e ↦ rw e (match_here-Tests re text)
  | inr e ↦ rw e (anywhere_iff (c ∷ re) text)
]
