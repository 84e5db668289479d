-- ===== src/Kalloc/FreeList.antt =====
-- lab6/xv6-public/kalloc.c: what kalloc and kfree do to the free list and the counts.
use cs333_os_labs.Kalloc.{
  Machine, bad_page, decr_rtable, frame_of, incr_rtable, isone_rtable, iszero_rtable, junk_page,
  kalloc, kfree, n_frames, p2v, pgsize, pref_count, push_free, uint_mod,
}
use cs333_os_labs.Prelude.{
  All, Bool-cases, List, [], arith, false, inl, inr, length, refl, true, ℕ, ◌%◌, ◌*◌, ◌<◌, ◌∷◌, ◌≡◌,
  ◌≢◌,
}
use cs333_os_labs.Prelude.Outcome.{Stop, code, done, stop}
use cs333_os_labs.Prelude.Outcome.Keeps.{Keeps, Returns}
use native.Mathlib.Decide.{ℕ_discrete}

-- What the allocator promises of its state: the counter is the length of the free list as a 32-bit
-- word, every free page is one that `kfree` accepts, and the linker's `data` is an address.
pub record IsSound (s : Machine) : Type 0 where
  pub counted : s.freepg_cnt ≡ length s.freelist % uint_mod
  pub linked : s.kdata < uint_mod
  pub valid : All (λ v. bad_page s.kend v ≡ false) s.freelist

kalloc-IsSound_cases :
    (s : Machine) (l : List ℕ) → s.freelist ≡ l → IsSound s → Returns IsSound (kalloc s)
unfolding kalloc
kalloc-IsSound_cases s [] e h = ground arith
kalloc-IsSound_cases s (r ∷ rest) e h = ground arith

pub kalloc-IsSound : Keeps IsSound kalloc
kalloc-IsSound = record { run = λ s h. kalloc-IsSound_cases s s.freelist refl h }

incr_rtable-IsSound_at : (v : ℕ) (s : Machine) → IsSound s → Returns IsSound (incr_rtable v s)
unfolding incr_rtable code
incr_rtable-IsSound_at v s h = ground arith

pub incr_rtable-IsSound : (v : ℕ) → Keeps IsSound (incr_rtable v)
incr_rtable-IsSound v = record { run = incr_rtable-IsSound_at v }

decr_rtable-IsSound_at : (v : ℕ) (s : Machine) → IsSound s → Returns IsSound (decr_rtable v s)
unfolding decr_rtable code
decr_rtable-IsSound_at v s h = ground arith

pub decr_rtable-IsSound : (v : ℕ) → Keeps IsSound (decr_rtable v)
decr_rtable-IsSound v = record { run = decr_rtable-IsSound_at v }

isone_rtable-IsSound_at : (v : ℕ) (s : Machine) → IsSound s → Returns IsSound (isone_rtable v s)
unfolding isone_rtable pref_count code
isone_rtable-IsSound_at v s h = ground arith

pub isone_rtable-IsSound : (v : ℕ) → Keeps IsSound (isone_rtable v)
isone_rtable-IsSound v = record { run = isone_rtable-IsSound_at v }

pub frame_in_range : (kend v : ℕ) → bad_page kend v ≡ false → frame_of v < n_frames
unfolding bad_page
frame_in_range kend v h = ground arith

-- The physical page of a valid kernel address leads back to the address.
pub p2v-frame_of :
    (kend v : ℕ) → bad_page kend v ≡ false → v < uint_mod → p2v (frame_of v * pgsize) ≡ v
unfolding bad_page
p2v-frame_of kend v h = ground arith

pub kfree_unreferenced :
    (v : ℕ) (s : Machine)
    → bad_page s.kend v ≡ false
    → s.cnt (frame_of v) ≡ 0
    → kfree v s ≡ done (tt, push_free v (junk_page v s))
unfolding kfree iszero_rtable pref_count code
kfree_unreferenced v s valid zero_count = ground (arith, frame_in_range s.kend v)

-- kfree leaves a page alone that a reference is counted for.
pub kfree_referenced :
    (v : ℕ) (s : Machine)
    → bad_page s.kend v ≡ false
    → s.cnt (frame_of v) ≢ 0
    → kfree v s ≡ done (tt, s)
unfolding kfree iszero_rtable pref_count code
kfree_referenced v s valid counted = ground (arith, frame_in_range s.kend v)

-- kfree of an address that is not a page of the allocator's memory stops the kernel.
pub kfree_invalid :
    (v : ℕ) (s : Machine) → bad_page s.kend v ≡ true → kfree v s ≡ stop Stop.bad_kfree
unfolding kfree iszero_rtable pref_count code
kfree_invalid v s invalid = ground arith

push_free-IsSound :
    (v : ℕ) (s : Machine)
    → bad_page s.kend v ≡ false
    → IsSound s
    → IsSound (push_free v (junk_page v s))
unfolding push_free junk_page
push_free-IsSound v s valid h = ground arith

kfree-IsSound_at : (v : ℕ) (s : Machine) → IsSound s → Returns IsSound (kfree v s)
kfree-IsSound_at v s h = elim (Bool-cases (bad_page s.kend v)) [
  | inl bad ↦ rw (kfree_invalid v s bad) (λ e. cc)
  | inr valid ↦ elim (ℕ_discrete (s.cnt (frame_of v)) 0) [
    | yes z ↦ rw (kfree_unreferenced v s valid z) (push_free-IsSound v s valid h)
    | no n ↦ rw (kfree_referenced v s valid n) h
  ]
]

pub kfree-IsSound : (v : ℕ) → Keeps IsSound (kfree v)
kfree-IsSound v = record { run = kfree-IsSound_at v }
