-- ===== src/Files/Counts.antt =====
-- lab6/xv6-public/file.c and sysfile.c: the reference counts of the open files against the
-- descriptors that name them.
pub mod Table
pub mod Steps
pub mod Lacks
pub mod Descriptors
pub mod Ends
pub mod Pipealloc
pub mod GiveBack
pub mod PipeCall
pub mod OpenCall
use cs333_os_labs.FileTable.{File, fd_none}
use cs333_os_labs.Prelude.{
  List, Option, [], ap, arith, get_elem?, get_or, if◌then◌else◌, length, length-set, none, refl,
  set, some, suc, zero, ℕ, ◌+◌, ◌<◌, ◌==◌, ◌∙◌, ◌∷◌, ◌≡◌,
}
use cs333_os_labs.Proc.Table.{nofile}

-- What a descriptor adds to the uses of the file `j`.
abbrev pub use_of : ℕ → Option ℕ → ℕ
use_of j none = 0
use_of j (some i) = if i == j then 1 else 0

abbrev pub uses : ℕ → List (Option ℕ) → ℕ
uses j [] = 0
uses j (d ∷ ds) = use_of j d + uses j ds

-- One more reference to `i`, outside of the descriptors.
abbrev pub plus : ℕ → (ℕ → ℕ) → ℕ → ℕ
plus i held j = use_of j (some i) + held j

-- Each count is the number of the descriptors of the process that name the file, and of the
-- references `held` elsewhere; these names are places of the table; and a file that nothing names
-- has no pipe and no inode.
pub record IsCounted (held : ℕ → ℕ) (fs : List File) (ds : List (Option ℕ)) : Type 0 where
  pub width : length ds ≡ nofile
  pub counts : (j : ℕ) (f : File) → get_elem? fs j ≡ some f → f.ref ≡ uses j ds + held j
  pub named : (j : ℕ) → 0 < uses j ds + held j → j < length fs
  pub idle : (j : ℕ) (f : File) → get_elem? fs j ≡ some f → f.ref ≡ 0 → f.kind ≡ fd_none

pub get_elem?-found :
    {A : Type 0} (xs : List A) (i : ℕ) → i < length xs → (a : A) × (get_elem? xs i ≡ some a)
get_elem?-found [] i h = elim h [ ]
get_elem?-found (x ∷ xs) zero h = (x, refl)
get_elem?-found (x ∷ xs) (suc i) h = get_elem?-found xs i (omega arith)

pub get_elem?-inside :
    {A : Type 0} (xs : List A) (i : ℕ) (a : A) → get_elem? xs i ≡ some a → i < length xs
get_elem?-inside [] i a h = cc
get_elem?-inside (x ∷ xs) zero a h = omega arith
get_elem?-inside (x ∷ xs) (suc i) a h = omega (arith, get_elem?-inside xs i a h)

uses-set :
    (j d : ℕ) (r : Option ℕ) (ds : List (Option ℕ))
    → d < length ds
    → uses j (set ds d r) + use_of j (get_or ds d none) ≡ uses j ds + use_of j r
uses-set j d r [] h = elim h [ ]
uses-set j zero r (x ∷ ds) h = omega arith
uses-set j (suc d) r (x ∷ ds) h = omega (arith, uses-set j d r ds (omega arith))

pub uses-some : (j d : ℕ) (ds : List (Option ℕ)) → get_or ds d none ≡ some j → 0 < uses j ds
uses-some j d [] h = cc
uses-some j zero (x ∷ ds) h = rw h (ground arith)
uses-some j (suc d) (x ∷ ds) h = omega (arith, uses-some j d ds h)

module _ (held : ℕ → ℕ) (fs : List File) (ds : List (Option ℕ)) where
  -- A reference held elsewhere moves to a free descriptor.
  pub IsCounted-put :
      (i d : ℕ)
      → d < length ds
      → get_or ds d none ≡ none
      → IsCounted (plus i held) fs ds
      → IsCounted held fs (set ds d (some i))
  IsCounted-put i d l free c = record {
    width = length-set ds d (some i) ∙ c.width;
    counts = λ j f at. c.counts j f at ∙ same j;
    named = λ j h. c.named j (omega (arith, same j));
    idle = c.idle;
  }
    where
      same : (j : ℕ) → uses j ds + plus i held j ≡ uses j (set ds d (some i)) + held j
      same j =
          let e = uses-set j d (some i) ds l in let z = ap (use_of j) free in omega (arith, e, z)

  -- And back.
  pub IsCounted-clear :
      (i d : ℕ)
      → d < length ds
      → get_or ds d none ≡ some i
      → IsCounted held fs ds
      → IsCounted (plus i held) fs (set ds d none)
  IsCounted-clear i d l taken c = record {
    width = length-set ds d none ∙ c.width;
    counts = λ j f at. c.counts j f at ∙ same j;
    named = λ j h. c.named j (omega (arith, same j));
    idle = c.idle;
  }
    where
      same : (j : ℕ) → uses j ds + held j ≡ uses j (set ds d none) + plus i held j
      same j = let e = uses-set j d none ds l in let z = ap (use_of j) taken in omega (arith, e, z)
