-- ===== src/Fs/Paths/Elements.antt =====
-- lab6/xv6-public/fs.c, skipelem: the elements of a path.
use cs333_os_labs.Fs.Directory.{dirsiz}
use cs333_os_labs.Fs.Paths.{element_of, skip_slashes, skipelem, slash, split_element}
use cs333_os_labs.Prelude.{
  Bool, Bool-cases, List, Option, [], ap, arith, false, if◌then◌else◌, inl, inr, length, none, refl,
  some, subst, suc, sym, take, true, ℕ, ◌+◌, ◌<◌, ◌==◌, ◌∙◌, ◌∷◌, ◌≡◌, ◌≤◌,
}

-- The fields of a path between its slashes.
abbrev pub cons_head : ℕ → List (List ℕ) → List (List ℕ)
cons_head c [] = (c ∷ []) ∷ []
cons_head c (f ∷ fs) = (c ∷ f) ∷ fs

abbrev pub fields : List ℕ → List (List ℕ)
fields [] = [] ∷ []
fields (c ∷ cs) = if c == slash then [] ∷ fields cs else cons_head c (fields cs)

abbrev pub nonempty : List (List ℕ) → List (List ℕ)
nonempty [] = []
nonempty ([] ∷ fs) = nonempty fs
nonempty ((c ∷ f) ∷ fs) = (c ∷ f) ∷ nonempty fs

-- The elements of a path: its fields that are not empty.
abbrev pub elements : List ℕ → List (List ℕ)
elements path = nonempty (fields path)

skip_slashes-elements : (path : List ℕ) → elements (skip_slashes path) ≡ elements path
unfolding skip_slashes
skip_slashes-elements [] = refl
skip_slashes-elements (c ∷ cs) = elim (Bool-cases (c == slash)) [
  | inl e ↦ rw e (skip_slashes-elements cs)
  | inr e ↦ rw e (rw e refl)
]

skip_slashes-length : (path : List ℕ) → length (skip_slashes path) ≤ length path
unfolding skip_slashes
skip_slashes-length [] = omega arith
skip_slashes-length (c ∷ cs) = elim (Bool-cases (c == slash)) [
  | inl e ↦ rw e (omega (arith, skip_slashes-length cs))
  | inr e ↦ rw e (omega arith)
]

abbrev pub starts_with_slash : List ℕ → Bool
starts_with_slash [] = false
starts_with_slash (c ∷ cs) = c == slash

skip_slashes-starts : (path : List ℕ) → starts_with_slash (skip_slashes path) ≡ false
unfolding skip_slashes
skip_slashes-starts [] = refl
skip_slashes-starts (c ∷ cs) = elim (Bool-cases (c == slash)) [
  | inl e ↦ rw e (skip_slashes-starts cs)
  | inr e ↦ rw e e
]

-- A split is before the first slash, or at the end.
abbrev Splits : List ℕ → List ℕ × List ℕ → Type 0
Splits cs (name, []) = (fields cs ≡ name ∷ []) × (length name ≡ length cs)
Splits cs (name, s ∷ rest) =
    ((s == slash) ≡ true)
    × (fields cs ≡ name ∷ fields rest)
    × (length name + suc (length rest) ≡ length cs)

Splits-cons :
    (c : ℕ) (cs : List ℕ) (r : List ℕ × List ℕ)
    → (c == slash) ≡ false
    → Splits cs r
    → Splits (c ∷ cs) (c ∷ r.0, r.1)
Splits-cons c cs (name, []) h (e, l) = (rw (h, e) refl, omega (arith, l))
Splits-cons c cs (name, s ∷ rest) h (at, e, l) = (at, rw (h, e) refl, omega (arith, l))

split_element_lem : (cs : List ℕ) → Splits cs (split_element cs)
unfolding split_element
split_element_lem [] = (refl, refl)
split_element_lem (c ∷ cs) = elim (Bool-cases (c == slash)) [
  | inl e ↦ rw e (e, rw e refl, omega arith)
  | inr e ↦ rw e (Splits-cons c cs (split_element cs) e (split_element_lem cs))
]

abbrev pub Skips : List ℕ → Option (List ℕ × List ℕ) → Type 0
Skips path none = elements path ≡ []
Skips path (some (name, rest)) =
    (starts_with_slash rest ≡ false)
    × (length rest < length path)
    × ((e : List ℕ) × (elements path ≡ e ∷ elements rest) × (name ≡ take dirsiz e))

element_of_lem :
    (c : ℕ) (cs : List ℕ) (r : List ℕ × List ℕ)
    → (c == slash) ≡ false
    → Splits cs r
    → Skips (c ∷ cs) (some (take dirsiz (c ∷ r.0), skip_slashes r.1))
unfolding skip_slashes
element_of_lem c cs (name, []) h (e, l) = (refl, omega arith, (c ∷ name, rw (h, e) refl, refl))
element_of_lem c cs (name, s ∷ rest) h (at, e, l) = (
  skip_slashes-starts (s ∷ rest),
  omega (arith, l, skip_slashes-length (s ∷ rest)),
  (
    c ∷ name,
    rw (h, e) (ap (λ x. (c ∷ name) ∷ x) (sym (skip_slashes-elements (s ∷ rest) ∙ rw at refl))),
    refl,
  ),
)

split_name :
    (c : ℕ) (cs : List ℕ)
    → (c == slash) ≡ false
    → split_element (c ∷ cs) ≡ (c ∷ (split_element cs).0, (split_element cs).1)
unfolding split_element
split_name c cs h = rw h refl

element_of-Skips : (path : List ℕ) → starts_with_slash path ≡ false → Skips path (element_of path)
element_of-Skips [] h = refl
element_of-Skips (c ∷ cs) h =
    subst (λ (r : List ℕ × List ℕ). Skips (c ∷ cs) (some (take dirsiz r.0, skip_slashes r.1)))
      (sym (split_name c cs h)) (element_of_lem c cs (split_element cs) h (split_element_lem cs))

Skips-longer :
    (path short : List ℕ) (r : Option (List ℕ × List ℕ))
    → elements short ≡ elements path
    → length short ≤ length path
    → Skips short r
    → Skips path r
Skips-longer path short none e l h = sym e ∙ h
Skips-longer path short (some (name, rest)) e l (start, shorter, (f, agree, cut)) =
    (start, omega arith, (f, sym e ∙ agree, cut))

-- skipelem takes a path apart as its slashes do: it fails exactly where all fields between the
-- slashes are empty, and otherwise gives the first non-empty field, cut to DIRSIZ bytes, and a
-- shorter rest without a leading slash that has the other non-empty fields.
pub skipelem_lem : (path : List ℕ) → Skips path (skipelem path)
unfolding skipelem
skipelem_lem path =
    Skips-longer path (skip_slashes path) _ (skip_slashes-elements path) (skip_slashes-length path)
      (element_of-Skips (skip_slashes path) (skip_slashes-starts path))
