-- ===== src/FileTable/References.antt =====
-- lab6/xv6-public/file.c: the reference counts of the table of open files.
use mathlib.Core.Option
use cs333_os_labs.FileTable.{Closing, File, filealloc, fileclose, filedup, last_close, nothing}
use cs333_os_labs.Prelude.{
  ==_iff, All, Bool-cases, List, Option, Option-cases, [], ap, arith, get_elem?, if◌then◌else◌, inl,
  inr, ltb, none, refl, set, some, subst, suc, sym, zero, ℕ, ◌+◌, ◌-◌, ◌<◌, ◌==◌, ◌∙◌, ◌∷◌, ◌≡◌,
  ◌≤◌,
}

abbrev pub refs : List File → ℕ
refs [] = 0
refs (f ∷ fs) = f.ref + refs fs

-- A slot that filealloc gives away was free, has one reference now, and no other slot changes; it
-- gives none away only if every slot is referenced.
abbrev pub Allocates : ℕ → List File → Option ℕ × List File → Type 0
Allocates base fs (none, gs) = (gs ≡ fs) × All (λ f. 0 < f.ref) fs
Allocates base fs (some i, gs) =
    (base ≤ i)
    × ((f : File) × (get_elem? fs (i - base) ≡ some f)
        × (f.ref ≡ 0)
        × (gs ≡ set fs (i - base) (record f { ref = 1 })))

filealloc_here :
    (base : ℕ) (f : File) (fs : List File)
    → f.ref ≡ 0
    → Allocates base (f ∷ fs) (some base, record f { ref = 1 } ∷ fs)
filealloc_here base f fs h =
    let e : base - base ≡ 0 = omega arith in (omega arith, rw e (f, refl, h, refl))

filealloc_later :
    (base : ℕ) (f : File) (fs : List File) (r : Option ℕ × List File)
    → 0 < f.ref
    → Allocates (base + 1) fs r
    → Allocates base (f ∷ fs) (r.0, f ∷ r.1)
filealloc_later base f fs (none, gs) h (e, k) = (ap (λ x. f ∷ x) e, (h, k))
filealloc_later base f fs (some i, gs) h (le, (g, at, free, e)) =
    let k : i - base ≡ suc (i - (base + 1)) = omega arith in
    (omega arith, rw k (g, at, free, ap (λ x. f ∷ x) e))

-- The slot that filealloc gives away was free, has one reference now, and no other slot changes;
-- it gives none away only if every slot is referenced.
pub filealloc_lem : (base : ℕ) (fs : List File) → Allocates base fs (filealloc base fs)
unfolding filealloc
filealloc_lem base [] = (refl, tt)
filealloc_lem base (f ∷ fs) = elim (Bool-cases (f.ref == 0)) [
  | inl e ↦ rw e (filealloc_here base f fs ((==_iff f.ref 0).0 e))
  | inr e ↦ rw e (filealloc_later base f fs _ (ground arith) (filealloc_lem (base + 1) fs))
]

-- A file that filedup has duplicated, closed once, is as before with the whole table, and nothing
-- is closed underneath.
fileclose-filedup :
    (i : ℕ) (fs gs : List File) → filedup i fs ≡ some gs → fileclose i gs ≡ some (fs, nothing)
unfolding filedup fileclose
fileclose-filedup i [] gs h = cc
fileclose-filedup zero (f ∷ fs) gs h = elim (Bool-cases (ltb f.ref 1)) [
  | inl e ↦ grind arith
  | inr e ↦
      let k : record f { ref = f.ref + 1 } ∷ fs ≡ gs = grind (arith, h, e) in
      subst (λ g. fileclose 0 g ≡ some (f ∷ fs, nothing)) k (ground (arith, e))
]
fileclose-filedup (suc i) (f ∷ fs) gs h = elim (Option-cases (filedup i fs)) [
  | inl e ↦ grind arith
  | inr (ks, e) ↦
      let k : f ∷ ks ≡ gs = grind (arith, h, e) in
      subst (λ g. fileclose (suc i) g ≡ some (f ∷ fs, nothing)) k
        (ap (Option.map (λ r. (f ∷ r.0, r.1))) (fileclose-filedup i fs ks e))
]

-- Where fileclose does not panic, it drops exactly one of the table's references, and closes what
-- is underneath if it was the last one of its file, and only then.
fileclose_lem :
    (i : ℕ) (fs gs : List File) (c : Closing)
    → fileclose i fs ≡ some (gs, c)
    → (refs gs + 1 ≡ refs fs)
      × ((f : File) × (get_elem? fs i ≡ some f)
          × (c ≡ (if f.ref == 1 then last_close f else nothing)))
unfolding fileclose
fileclose_lem i [] gs c h = cc
fileclose_lem zero (f ∷ fs) gs c h = (ground arith, (f, refl, ground arith))
fileclose_lem (suc i) (f ∷ fs) gs c h = elim (Option-cases (fileclose i fs)) [
  | inl e ↦ grind arith
  | inr ((ks, d), e) ↦
      let (count, (file, at, what)) = fileclose_lem i fs ks d e in
      let g : f ∷ ks ≡ gs = grind (arith, h, e) in
      let same : d ≡ c = grind (arith, h, e) in
      (ground (arith, ap refs g, count), (file, at, sym same ∙ what))
]
