-- ===== src/Fs/Inodes/Cache.antt =====
-- lab6/xv6-public/fs.c, iget and idup: the entries of the inode cache.
use cs333_os_labs.Fs.{Inode, Volume}
use cs333_os_labs.Fs.Inodes.{
  Lookup, edit_nth, first_empty, hit, iget, iget_found, iget_scan, is_entry, miss, new_entry,
}
use cs333_os_labs.Prelude.{
  All, Bool-cases, List, Option, [], arith, false, get_elem?, if◌then◌else◌, inl, inr, none, refl,
  some, subst, suc, true, zero, ℕ, ◌+◌, ◌-◌, ◌<◌, ◌∷◌, ◌≡◌, ◌≢◌, ◌≤◌, ◌⊎◌,
}
use cs333_os_labs.Prelude.Outcome.{Outcome, Stop, code, done, stop}
use Prim.Native.Nat.{max}

-- The number of referenced entries of an inode.
abbrev pub entries : ℕ → ℕ → List Inode → ℕ
entries dev inum [] = 0
entries dev inum (x ∷ xs) = (if is_entry dev inum x then 1 else 0) + entries dev inum xs

abbrev pub refs_of : ℕ → ℕ → List Inode → ℕ
refs_of dev inum [] = 0
refs_of dev inum (x ∷ xs) = (if is_entry dev inum x then x.ref else 0) + refs_of dev inum xs

edit_nth-entries :
    (d n i : ℕ) (f : Inode → Inode) (xs : List Inode) (x : Inode)
    → get_elem? xs i ≡ some x
    → entries d n (edit_nth i f xs) + (if is_entry d n x then 1 else 0)
      ≡ entries d n xs + (if is_entry d n (f x) then 1 else 0)
edit_nth-entries d n i f [] x h = cc
edit_nth-entries d n zero f (y ∷ xs) x h = let e : y ≡ x = cc in rw e (omega arith)
edit_nth-entries d n (suc i) f (y ∷ xs) x h = omega (arith, edit_nth-entries d n i f xs x h)

edit_nth-refs :
    (d n i : ℕ) (f : Inode → Inode) (xs : List Inode) (x : Inode)
    → get_elem? xs i ≡ some x
    → refs_of d n (edit_nth i f xs) + (if is_entry d n x then x.ref else 0)
      ≡ refs_of d n xs + (if is_entry d n (f x) then (f x).ref else 0)
edit_nth-refs d n i f [] x h = cc
edit_nth-refs d n zero f (y ∷ xs) x h = let e : y ≡ x = cc in rw e (omega arith)
edit_nth-refs d n (suc i) f (y ∷ xs) x h = omega (arith, edit_nth-refs d n i f xs x h)

-- Slot `k` of a list whose first slot has the number `base`.
abbrev SlotHas : (Inode → Type 0) → ℕ → ℕ → List Inode → Type 0
SlotHas P base k xs = (base ≤ k) × ((x : Inode) × (get_elem? xs (k - base) ≡ some x) × P x)

SlotHas-cons :
    (P : Inode → Type 0) (base k : ℕ) (y : Inode) (xs : List Inode)
    → SlotHas P (base + 1) k xs
    → SlotHas P base k (y ∷ xs)
SlotHas-cons P base k y xs (low, (x, at, h)) =
    let e : k - base ≡ suc (k - (base + 1)) = omega arith in (omega arith, (x, rw e at, h))

SlotHas-here :
    (P : Inode → Type 0) (base : ℕ) (y : Inode) (xs : List Inode)
    → P y
    → SlotHas P base base (y ∷ xs)
SlotHas-here P base y xs h =
    let e : base - base ≡ 0 = omega arith in (omega arith, (y, rw e refl, h))

abbrev IsFree : Inode → Type 0
IsFree x = x.ref ≡ 0

abbrev IsEntry : ℕ → ℕ → Inode → Type 0
IsEntry dev inum x = is_entry dev inum x ≡ true

-- What the scan ends with, from slot `base` on, with the empty slot that it has seen before.
abbrev Scans : ℕ → ℕ → ℕ → Option ℕ → List Inode → Lookup → Type 0
Scans dev inum base empty xs (hit k) = SlotHas (IsEntry dev inum) base k xs
Scans dev inum base empty xs (miss none) =
    (entries dev inum xs ≡ 0) × (empty ≡ none) × All (λ x. 0 < x.ref) xs
Scans dev inum base empty xs (miss (some k)) =
    (entries dev inum xs ≡ 0) × ((empty ≡ some k) ⊎ SlotHas IsFree base k xs)

Scans-cons :
    (dev inum base : ℕ) (empty : Option ℕ) (y : Inode) (xs : List Inode) (r : Lookup)
    → is_entry dev inum y ≡ false
    → Scans dev inum (base + 1) (first_empty empty base y) xs r
    → Scans dev inum base empty (y ∷ xs) r
Scans-cons dev inum base empty y xs (hit k) h s = SlotHas-cons _ base k y xs s
Scans-cons dev inum base none y xs (miss none) h (zero_entries, unseen, all) =
    (ground (arith, h, zero_entries), refl, (ground (arith, unseen), all))
Scans-cons dev inum base (some e) y xs (miss none) h (zero_entries, unseen, all) = cc
Scans-cons dev inum base (some e) y xs (miss (some k)) h (zero_entries, inl at) =
    (ground (arith, h, zero_entries), inl at)
Scans-cons dev inum base (some e) y xs (miss (some k)) h (zero_entries, inr s) =
    (ground (arith, h, zero_entries), inr (SlotHas-cons _ base k y xs s))
Scans-cons dev inum base none y xs (miss (some k)) h (zero_entries, inr s) =
    (ground (arith, h, zero_entries), inr (SlotHas-cons _ base k y xs s))
Scans-cons dev inum base none y xs (miss (some k)) h (zero_entries, inl at) = (
  ground (arith, h, zero_entries),
  inr (
      let free : y.ref ≡ 0 = ground (arith, at) in
      let here : base ≡ k = ground (arith, at) in
      subst (λ i. SlotHas IsFree base i (y ∷ xs)) here (SlotHas-here IsFree base y xs free)),
)

iget_scan_lem :
    (dev inum base : ℕ) (empty : Option ℕ) (xs : List Inode)
    → Scans dev inum base empty xs (iget_scan dev inum base empty xs)
unfolding iget_scan
iget_scan_lem dev inum base none [] = (refl, refl, tt)
iget_scan_lem dev inum base (some e) [] = (refl, inl refl)
iget_scan_lem dev inum base empty (y ∷ xs) = elim (Bool-cases (is_entry dev inum y)) [
  | inl e ↦ rw e (SlotHas-here (IsEntry dev inum) base y xs e)
  | inr e ↦ rw e (
      Scans-cons dev inum base empty y xs _ e
        (iget_scan_lem dev inum (base + 1) (first_empty empty base y) xs))
]

entries_pos :
    (dev inum i : ℕ) (xs : List Inode) (x : Inode)
    → get_elem? xs i ≡ some x
    → is_entry dev inum x ≡ true
    → 0 < entries dev inum xs
entries_pos dev inum i [] x at h = cc
entries_pos dev inum zero (y ∷ xs) x at h = let e : y ≡ x = cc in rw (e, h) (omega arith)
entries_pos dev inum (suc i) (y ∷ xs) x at h = omega (arith, entries_pos dev inum i xs x at h)

module _ (dev inum i : ℕ) (xs : List Inode) (x : Inode) (at : get_elem? xs i ≡ some x) where
  abbrev one_more : Inode → Inode
  one_more y = record y { ref = y.ref + 1 }

  -- The effect of the two ways to give an entry on the counts of an inode.
  abbrev Counts : (Inode → Inode) → Type 0
  Counts f =
      (refs_of dev inum (edit_nth i f xs) ≡ refs_of dev inum xs + 1)
      × (entries dev inum (edit_nth i f xs) ≡ max 1 (entries dev inum xs))
      × ((d n : ℕ)
          → (d ≢ dev) ⊎ (n ≢ inum)
          → (refs_of d n (edit_nth i f xs) ≡ refs_of d n xs)
            × (entries d n (edit_nth i f xs) ≡ entries d n xs))

  one_more-Counts : is_entry dev inum x ≡ true → Counts one_more
  one_more-Counts h = (
    ground (arith, edit_nth-refs dev inum i one_more xs x at, h),
    ground
        (arith, edit_nth-entries dev inum i one_more xs x at, entries_pos dev inum i xs x at h, h),
    λ d n other. (
      ground (arith, edit_nth-refs d n i one_more xs x at, h, other),
      ground (arith, edit_nth-entries d n i one_more xs x at, h, other),
    ),
  )

  new_entry-Counts : x.ref ≡ 0 → entries dev inum xs ≡ 0 → Counts (new_entry dev inum)
  new_entry-Counts h z = (
    ground (arith, edit_nth-refs dev inum i (new_entry dev inum) xs x at, h),
    ground (arith, edit_nth-entries dev inum i (new_entry dev inum) xs x at, h, z),
    λ d n other. (
      ground (arith, edit_nth-refs d n i (new_entry dev inum) xs x at, h, other),
      ground (arith, edit_nth-entries d n i (new_entry dev inum) xs x at, h, other),
    ),
  )

-- What iget gives.
abbrev pub IGets : ℕ → ℕ → Volume → Outcome (ℕ × Volume) → Type 0
IGets dev inum v (stop e) =
    (e ≡ Stop.no_inodes) × (entries dev inum v.icache ≡ 0) × All (λ x. 0 < x.ref) v.icache
IGets dev inum v (done (i, w)) =
    (refs_of dev inum w.icache ≡ refs_of dev inum v.icache + 1)
    × (entries dev inum w.icache ≡ max 1 (entries dev inum v.icache))
    × ((d n : ℕ)
        → (d ≢ dev) ⊎ (n ≢ inum)
        → (refs_of d n w.icache ≡ refs_of d n v.icache)
          × (entries d n w.icache ≡ entries d n v.icache))

iget_found_lem :
    (dev inum : ℕ) (v : Volume) (r : Lookup)
    → Scans dev inum 0 none v.icache r
    → IGets dev inum v (iget_found dev inum r v)
unfolding iget_found code
iget_found_lem dev inum v (hit i) (low, (x, at, e)) =
    let z : i - 0 ≡ i = omega arith in one_more-Counts dev inum i v.icache x (rw z at at) e
iget_found_lem dev inum v (miss none) (zero_entries, unseen, all) = (refl, zero_entries, all)
iget_found_lem dev inum v (miss (some i)) (zero_entries, inl at) = cc
iget_found_lem dev inum v (miss (some i)) (zero_entries, inr (low, (x, at, e))) =
    let z : i - 0 ≡ i = omega arith in
    new_entry-Counts dev inum i v.icache x (rw z at at) e zero_entries

-- iget adds one reference to the inode, which has as many entries in the cache as before, or one
-- if it had none; the entries of other inodes and the references to them stay as they are. It
-- panics only if the inode has no entry and every entry is referenced.
pub iget_lem : (dev inum : ℕ) (v : Volume) → IGets dev inum v (iget dev inum v)
unfolding iget code
iget_lem dev inum v = iget_found_lem dev inum v _ (iget_scan_lem dev inum 0 none v.icache)
