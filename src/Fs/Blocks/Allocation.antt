-- ===== src/Fs/Blocks/Allocation.antt =====
-- lab6/xv6-public/fs.c: the search of balloc, and what it changes.
use cs333_os_labs.Fs.{Volume}
use cs333_os_labs.Fs.Blocks.{balloc, bzero, find_unused_block, take_block}
use cs333_os_labs.Kalloc.{update}
use cs333_os_labs.Prelude.{
  Bool, Bool-cases, Option, arith, false, inl, inr, none, refl, some, suc, true, zero, ℕ, ◌+◌, ◌<◌,
  ◌≡◌, ◌≤◌,
}
use cs333_os_labs.Prelude.Outcome.{Outcome, Stop, code, done, stop}
use native.Mathlib.Decide.{ℕ_discrete}

-- What the search finds: the first free block, or that none is free.
abbrev FirstFree : ℕ → ℕ → (ℕ → Bool) → Option ℕ → Type 0
FirstFree n b used none = (c : ℕ) → b ≤ c → c < b + n → used c ≡ true
FirstFree n b used (some a) =
    (b ≤ a) × (a < b + n) × (used a ≡ false) × ((c : ℕ) → b ≤ c → c < a → used c ≡ true)

FirstFree-later :
    (n b : ℕ) (used : ℕ → Bool) (r : Option ℕ)
    → used b ≡ true
    → FirstFree n (b + 1) used r
    → FirstFree (suc n) b used r
FirstFree-later n b used none h k =
    λ c low high. elim (ℕ_discrete c b) [ yes e ↦ rw e h | no ne ↦ k c (omega arith) (omega arith) ]
FirstFree-later n b used (some a) h (low, high, free, before) =
    (omega arith, omega arith, free, earlier)
  where
    earlier : (c : ℕ) → b ≤ c → c < a → used c ≡ true
    earlier c l m = elim (ℕ_discrete c b) [ yes e ↦ rw e h | no ne ↦ before c (omega arith) m ]

find_unused_block_lem :
    (n b : ℕ) (used : ℕ → Bool) → FirstFree n b used (find_unused_block n b used)
unfolding find_unused_block
find_unused_block_lem zero b used = λ c l m. absurd (omega arith)
find_unused_block_lem (suc n) b used = elim (Bool-cases (used b)) [
  | inl e ↦ rw e (FirstFree-later n b used _ e (find_unused_block_lem n (b + 1) used))
  | inr e ↦ rw e (omega arith, omega arith, e, λ c l m. absurd (omega arith))
]

-- What balloc gives.
abbrev pub Allocates : Volume → Outcome (ℕ × Volume) → Type 0
Allocates v (stop e) = (e ≡ Stop.no_blocks) × ((c : ℕ) → c < v.sb.size → v.used c ≡ true)
Allocates v (done (b, w)) =
    (b < v.sb.size)
    × (v.used b ≡ false)
    × ((c : ℕ) → c < b → v.used c ≡ true)
    × (w ≡ record v { used = update v.used b true; bytes = update v.bytes b (λ _. 0) })

take_block-Allocates :
    (v : Volume) (r : Option ℕ) → FirstFree v.sb.size 0 v.used r → Allocates v (take_block r v)
unfolding take_block bzero code
take_block-Allocates v none h = (refl, λ c l. h c (omega arith) (omega arith))
take_block-Allocates v (some b) (low, high, free, before) =
    (omega arith, free, λ c l. before c (omega arith) l, refl)

-- balloc takes the first free block of the bitmap, marks it as used and fills it with zeros, and
-- changes nothing else; it panics only if every block is used.
pub balloc_lem : (v : Volume) → Allocates v (balloc v)
unfolding balloc code
balloc_lem v =
    take_block-Allocates v (find_unused_block v.sb.size 0 v.used)
      (find_unused_block_lem v.sb.size 0 v.used)
