-- ===== src/Bio/Cache.antt =====
-- lab6/xv6-public/bio.c, bget: which buffer a block gets.
use mathlib.Core.Option
use cs333_os_labs.Bio.{
  Buf, bget, caches, find_cached, is_free, or_recycle, recycle, recycle_front, take_over,
}
use cs333_os_labs.Prelude.{
  All, Bool-cases, List, Option, [], ap, arith, drop, false, get_elem?, if◌then◌else◌, inl, inr,
  none, refl, set, some, suc, true, zero, ℕ, ◌+◌, ◌∷◌, ◌≡◌, ◌≢◌, ◌≤◌, ◌⊎◌,
}

-- The number of buffers that hold a block.
abbrev pub copies : ℕ → ℕ → List Buf → ℕ
copies dev blockno [] = 0
copies dev blockno (b ∷ bs) = (if caches dev blockno b then 1 else 0) + copies dev blockno bs

abbrev pub Caches : ℕ → ℕ → Option Buf → Type 0
Caches dev blockno none = ⊥
Caches dev blockno (some b) = caches dev blockno b ≡ true

-- What the first loop finds: the block's buffer, or that it has none.
abbrev FindsCached : ℕ → ℕ → List Buf → Option (ℕ × List Buf) → Type 0
FindsCached dev blockno bs none = copies dev blockno bs ≡ 0
FindsCached dev blockno bs (some (i, cs)) =
    Caches dev blockno (get_elem? cs i) × ((d n : ℕ) → copies d n cs ≡ copies d n bs)

find_cached_cons :
    (dev blockno : ℕ) (b : Buf) (bs : List Buf) (r : Option (ℕ × List Buf))
    → caches dev blockno b ≡ false
    → FindsCached dev blockno bs r
    → FindsCached dev blockno (b ∷ bs) (Option.map (λ r. (suc r.0, b ∷ r.1)) r)
find_cached_cons dev blockno b bs none h k = ground (arith, h, k)
find_cached_cons dev blockno b bs (some (i, cs)) h (here, same) =
    (here, λ d n. ap (λ x. (if caches d n b then 1 else 0) + x) (same d n))

find_cached_lem :
    (dev blockno : ℕ) (bs : List Buf) → FindsCached dev blockno bs (find_cached dev blockno bs)
unfolding find_cached
find_cached_lem dev blockno [] = refl
find_cached_lem dev blockno (b ∷ bs) = elim (Bool-cases (caches dev blockno b)) [
  | inl e ↦ rw e (e, λ d n. refl)
  | inr e ↦ rw e (find_cached_cons dev blockno b bs _ e (find_cached_lem dev blockno bs))
]

-- What recycling may do: the last free buffer of the list, that is the least recently used one, is
-- taken over; there is none only if no buffer is free.
abbrev pub Recycles : ℕ → ℕ → List Buf → Option (ℕ × List Buf) → Type 0
Recycles dev blockno bs none = All (λ b. is_free b ≡ false) bs
Recycles dev blockno bs (some (i, cs)) =
    (b : Buf) × (get_elem? bs i ≡ some b)
    × (is_free b ≡ true)
    × (cs ≡ set bs i (take_over dev blockno b))
    × All (λ c. is_free c ≡ false) (drop (suc i) bs)

recycle_front_lem :
    (dev blockno : ℕ) (b : Buf) (bs : List Buf) (r : Option (ℕ × List Buf))
    → Recycles dev blockno bs r
    → Recycles dev blockno (b ∷ bs) (recycle_front dev blockno b bs r)
recycle_front_lem dev blockno b bs (some (i, cs)) (c, at, free, e, rest) =
    (c, at, free, ap (λ x. b ∷ x) e, rest)
recycle_front_lem dev blockno b bs none h = elim (Bool-cases (is_free b)) [
  | inl e ↦ rw e (b, refl, e, refl, h)
  | inr e ↦ rw e (e, h)
]

-- The buffer that bget recycles was free, is the last free one of the list, that is the least
-- recently used, and is the only one that changes; it recycles none only if no buffer is free.
recycle_lem : (dev blockno : ℕ) (bs : List Buf) → Recycles dev blockno bs (recycle dev blockno bs)
unfolding recycle
recycle_lem dev blockno [] = tt
recycle_lem dev blockno (b ∷ bs) = recycle_front_lem dev blockno b bs _ (recycle_lem dev blockno bs)

Caches-set :
    (dev blockno i : ℕ) (bs : List Buf) (b c : Buf)
    → get_elem? bs i ≡ some b
    → caches dev blockno c ≡ true
    → Caches dev blockno (get_elem? (set bs i c) i)
Caches-set dev blockno i [] b c at h = cc
Caches-set dev blockno zero (x ∷ bs) b c at h = h
Caches-set dev blockno (suc i) (x ∷ bs) b c at h = Caches-set dev blockno i bs b c at h

copies-set :
    (d n i : ℕ) (bs : List Buf) (c : Buf)
    → copies d n (set bs i c) ≤ copies d n bs + (if caches d n c then 1 else 0)
copies-set d n i [] c = omega arith
copies-set d n zero (x ∷ bs) c = omega arith
copies-set d n (suc i) (x ∷ bs) c = let k = copies-set d n i bs c in omega arith

-- What `bget` gives.
abbrev pub Gets : ℕ → ℕ → List Buf → Option (ℕ × List Buf) → Type 0
Gets dev blockno bs none = (copies dev blockno bs ≡ 0) × All (λ b. is_free b ≡ false) bs
Gets dev blockno bs (some (i, cs)) =
    Caches dev blockno (get_elem? cs i)
    × (copies dev blockno bs ≤ 1 → copies dev blockno cs ≤ 1)
    × ((d n : ℕ) → (d ≢ dev) ⊎ (n ≢ blockno) → copies d n cs ≤ copies d n bs)

recycled-Gets :
    (dev blockno : ℕ) (bs : List Buf) (r : Option (ℕ × List Buf))
    → copies dev blockno bs ≡ 0
    → Recycles dev blockno bs r
    → Gets dev blockno bs r
recycled-Gets dev blockno bs none zero_copies h = (zero_copies, h)
recycled-Gets dev blockno bs (some (i, cs)) zero_copies (b, at, free, e, rest) = rw e (
  Caches-set dev blockno i bs b (take_over dev blockno b) at (ground arith),
  λ one. ground (arith, copies-set dev blockno i bs (take_over dev blockno b)),
  λ d n other. ground (arith, copies-set d n i bs (take_over dev blockno b)),
)

or_recycle-Gets :
    (dev blockno : ℕ) (bs : List Buf) (r : Option (ℕ × List Buf))
    → FindsCached dev blockno bs r
    → Gets dev blockno bs (or_recycle r (recycle dev blockno bs))
or_recycle-Gets dev blockno bs none h =
    recycled-Gets dev blockno bs (recycle dev blockno bs) h (recycle_lem dev blockno bs)
or_recycle-Gets dev blockno bs (some (i, cs)) (here, same) =
    (here, λ one. rw (same dev blockno) one, λ d n other. rw (same d n) (omega arith))

-- bget returns a buffer of the block; a block that had at most one buffer has at most one
-- afterwards, and no other block gets one more. It panics only if the block has no buffer and
-- none is free.
pub bget_lem : (dev blockno : ℕ) (bs : List Buf) → Gets dev blockno bs (bget dev blockno bs)
unfolding bget
bget_lem dev blockno bs =
    or_recycle-Gets dev blockno bs (find_cached dev blockno bs) (find_cached_lem dev blockno bs)
