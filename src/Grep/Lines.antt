-- ===== src/Grep/Lines.antt =====
-- lab6/xv6-public/grep.c, grep: the lines of the input.
use mathlib.Core.Option
use cs333_os_labs.Grep.{newline, next_line}
use cs333_os_labs.Prelude.{
  Bool, Bool-cases, List, Option, [], arith, false, if◌then◌else◌, inl, inr, length, none, refl,
  some, true, ℕ, ◌++◌, ◌+◌, ◌<◌, ◌==◌, ◌||◌, ◌∷◌, ◌≡◌, ◌≤◌,
}

-- A byte before a text that is cut into these lines and this end.
abbrev pub put_in : ℕ → List (List ℕ) → List ℕ → List (List ℕ) × List ℕ
put_in c [] last = ([], c ∷ last)
put_in c (line ∷ lines) last = ((c ∷ line) ∷ lines, last)

abbrev pub put_byte : ℕ → List (List ℕ) × List ℕ → List (List ℕ) × List ℕ
put_byte c parts = if c == newline then ([] ∷ parts.0, parts.1) else put_in c parts.0 parts.1

-- The lines of a text and the bytes after its last newline.
abbrev pub cut : List ℕ → List (List ℕ) × List ℕ
cut [] = ([], [])
cut (c ∷ cs) = put_byte c (cut cs)

abbrev pub has_newline : List ℕ → Bool
has_newline [] = false
has_newline (c ∷ cs) = c == newline || has_newline cs

abbrev pub has_nul : List ℕ → Bool
has_nul [] = false
has_nul (c ∷ cs) = c == 0 || has_nul cs

pub next_line-none :
    (cs : List ℕ) → has_newline cs ≡ false → (next_line cs ≡ none) × (cut cs ≡ ([], cs))
unfolding next_line
next_line-none [] e = (refl, refl)
next_line-none (c ∷ cs) e =
    let (a, b) = next_line-none cs (ground (arith, e)) in
    (ground (arith, e, a), ground (arith, e, b))

-- What `next_line` gives for a text with a newline.
unfoldable pub Next : List ℕ → Option (List ℕ × List ℕ) → Type 0
Next cs none = ⊥
Next cs (some (line, after)) =
    (cut cs ≡ (line ∷ (cut after).0, (cut after).1))
    × (length after < length cs)
    × (has_nul after ≡ false)

Next-cons :
    (c : ℕ) (cs : List ℕ) (r : Option (List ℕ × List ℕ))
    → (c == newline) ≡ false
    → Next cs r
    → Next (c ∷ cs) (Option.map (λ (line, after). (c ∷ line, after)) r)
unfolding Next
Next-cons c cs none e h = h
Next-cons c cs (some (line, after)) e (q, short, clean) = (rw (e, q) refl, omega arith, clean)

pub next_line-some :
    (cs : List ℕ) → has_nul cs ≡ false → has_newline cs ≡ true → Next cs (next_line cs)
unfolding next_line Next
next_line-some [] f e = ground (arith, e)
next_line-some (c ∷ cs) f e = elim (Bool-cases (c == newline)) [
  | inl n ↦ rw n (rw n refl, omega arith, ground (arith, f))
  | inr n ↦
      let z : (c == 0) ≡ false = ground (arith, f) in
      let rest = next_line-some cs (ground (arith, f)) (ground (arith, e, n)) in
      rw (n, z) (Next-cons c cs (next_line cs) n rest)
]

put_in-append :
    (c : ℕ) (lines : List (List ℕ)) (last ys : List ℕ)
    → (c == newline) ≡ false
    → put_in c (lines ++ (cut (last ++ ys)).0) (cut (last ++ ys)).1 ≡ (
      (put_in c lines last).0 ++ (cut ((put_in c lines last).1 ++ ys)).0,
      (cut ((put_in c lines last).1 ++ ys)).1,
    )
put_in-append c [] last ys e = rw e refl
put_in-append c (line ∷ lines) last ys e = refl

pub cut-append :
    (xs ys : List ℕ)
    → cut (xs ++ ys) ≡ ((cut xs).0 ++ (cut ((cut xs).1 ++ ys)).0, (cut ((cut xs).1 ++ ys)).1)
cut-append [] ys = refl
cut-append (c ∷ xs) ys = elim (Bool-cases (c == newline)) [
  | inl e ↦ rw e (rw (cut-append xs ys) refl)
  | inr e ↦ rw e (rw (cut-append xs ys) (put_in-append c (cut xs).0 (cut xs).1 ys e))
]

put_in-no_newline :
    (c : ℕ) (lines : List (List ℕ)) (last : List ℕ)
    → (c == newline) ≡ false
    → has_newline last ≡ false
    → has_newline (put_in c lines last).1 ≡ false
put_in-no_newline c [] last e f = ground (arith, e, f)
put_in-no_newline c (line ∷ lines) last e f = f

put_in-no_nul :
    (c : ℕ) (lines : List (List ℕ)) (last : List ℕ)
    → (c == 0) ≡ false
    → has_nul last ≡ false
    → has_nul (put_in c lines last).1 ≡ false
put_in-no_nul c [] last e f = ground (arith, e, f)
put_in-no_nul c (line ∷ lines) last e f = f

put_in-length :
    (c : ℕ) (lines : List (List ℕ)) (last : List ℕ)
    → length (put_in c lines last).1 ≤ length last + 1
put_in-length c [] last = omega arith
put_in-length c (line ∷ lines) last = omega arith

-- What is left after the last newline of a text.
pub record IsRest (cs : List ℕ) : Type 0 where
  pub no_newline : has_newline (cut cs).1 ≡ false
  pub no_nul : has_nul cs ≡ false → has_nul (cut cs).1 ≡ false
  pub short : length (cut cs).1 ≤ length cs
  pub shorter : has_newline cs ≡ true → length (cut cs).1 < length cs

pub cut-IsRest : (cs : List ℕ) → IsRest cs
cut-IsRest [] = record {
  no_newline = refl;
  no_nul = λ e. e;
  short = omega arith;
  shorter = λ e. ground (arith, e);
}
cut-IsRest (c ∷ cs) =
    let r = cut-IsRest cs in
    elim (Bool-cases (c == newline)) [
      | inl e ↦ record {
        no_newline = rw e r.no_newline;
        no_nul = λ f. rw e (r.no_nul (ground (arith, f)));
        short = rw e (omega (arith, r.short));
        shorter = λ f. rw e (omega (arith, r.short));
      }
      | inr e ↦ record {
        no_newline = rw e (put_in-no_newline c (cut cs).0 (cut cs).1 e r.no_newline);
        no_nul = λ f. rw e (
            put_in-no_nul c (cut cs).0 (cut cs).1 (ground (arith, f))
              (r.no_nul (ground (arith, f))));
        short = rw e (omega (arith, r.short, put_in-length c (cut cs).0 (cut cs).1));
        shorter = λ f. rw e (
            omega (arith, r.shorter (ground (arith, e, f)), put_in-length c (cut cs).0 (cut cs).1));
      }
    ]

pub has_nul-append :
    (xs ys : List ℕ) → has_nul xs ≡ false → has_nul ys ≡ false → has_nul (xs ++ ys) ≡ false
has_nul-append [] ys e f = f
has_nul-append (x ∷ xs) ys e f = ground (arith, has_nul-append xs ys (ground (arith, e)) f)

pub has_newline-append : (xs ys : List ℕ) → has_newline ys ≡ true → has_newline (xs ++ ys) ≡ true
has_newline-append [] ys e = e
has_newline-append (x ∷ xs) ys e = ground (arith, has_newline-append xs ys e)
