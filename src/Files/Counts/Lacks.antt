-- ===== src/Files/Counts/Lacks.antt =====
-- lab6/xv6-public/file.c and sysfile.c: what a call on descriptors that fails was short of.
use cs333_os_labs.FileTable.{File}
use cs333_os_labs.Prelude.{
  All, List, Option, [], get_elem?, get_or, length, none, some, some-injective, subst, suc, zero, ℕ,
  ◌<◌, ◌∷◌, ◌≡◌, ◌≢◌,
}

-- Every file but at most the one of place `i` is referenced.
abbrev pub UsedBut : ℕ → List File → Type 0
UsedBut i fs = (j : ℕ) (f : File) → j ≢ i → get_elem? fs j ≡ some f → 0 < f.ref

-- Every descriptor but at most `d` is in use.
abbrev pub TakenBut : ℕ → List (Option ℕ) → Type 0
TakenBut d ds = (e : ℕ) → e < length ds → e ≢ d → get_or ds e none ≢ none

-- Every descriptor is in use.
abbrev pub Taken : List (Option ℕ) → Type 0
Taken ds = (e : ℕ) → e < length ds → get_or ds e none ≢ none

-- A pipe needs two files, a page and two descriptors; one of them is not to be had.
pub data PipeLacks (fs : List File) (free : List ℕ) (ds : List (Option ℕ)) : Type 0 where
  no_files : (i : ℕ) → UsedBut i fs → PipeLacks fs free ds
  no_page : free ≡ [] → PipeLacks fs free ds
  no_descriptors : (d : ℕ) → TakenBut d ds → PipeLacks fs free ds

pub All-get_elem? :
    {A : Type 0} (P : A → Type 0) (xs : List A) (i : ℕ) (a : A)
    → All P xs
    → get_elem? xs i ≡ some a
    → P a
All-get_elem? P [] i a h e = cc
All-get_elem? P (x ∷ xs) zero a h e = subst P (some-injective x a e) h.0
All-get_elem? P (x ∷ xs) (suc i) a h e = All-get_elem? P xs i a h.1 e
