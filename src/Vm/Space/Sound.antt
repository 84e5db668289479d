-- ===== src/Vm/Space/Sound.antt =====
-- lab6/xv6-public/vm.c, deallocuvm, freevm and allocuvm: the allocator's invariant and the end of
-- the loops.
use cs333_os_labs.Kalloc.{M, kernbase, pgsize, uint_mod, v2p}
use cs333_os_labs.Kalloc.FreeList.{
  IsSound, decr_rtable-IsSound, incr_rtable-IsSound, kalloc-IsSound, kfree-IsSound,
}
use cs333_os_labs.Prelude.{
  Option, add-two, arith, false, leb-false, ltb, ltb→lt, none, some, suc, true, zero, ℕ, ◌%◌, ◌*◌,
  ◌+◌, ◌/◌, ◌<◌, ◌≡◌, ◌≤◌,
}
use cs333_os_labs.Prelude.Outcome.{Stop}
use cs333_os_labs.Prelude.Outcome.Keeps.{
  Keeps, Keeps-bind, Keeps-branch, Keeps-modify, Keeps-pure, Keeps-require, Keeps-then,
}
use cs333_os_labs.Vm.Space.{
  alloc_failed, alloc_loop, alloc_one, allocuvm, dealloc_loop, deallocuvm, free_tables, freevm,
  next_addr, unmap_at, unmap_one, user_perm,
}
use cs333_os_labs.Vm.Table.{PtePtr}
use cs333_os_labs.Vm.Table.Sound.{
  IsSound-zero_page, load_pte-IsSound, mappages-IsSound, store_pte-IsSound, walkpgdir-IsSound,
}

unmap_one-IsSound : (p : PtePtr) → Keeps IsSound (unmap_one p)
unfolding unmap_one
unmap_one-IsSound p = Keeps-bind (load_pte-IsSound p) λ pte.
    Keeps-branch
      (λ _.
        Keeps-then (Keeps-require _ Stop.bad_kfree (λ e. cc)) (
          Keeps-then (decr_rtable-IsSound _)
            (Keeps-then (kfree-IsSound _) (store_pte-IsSound p _))))
      (λ _. Keeps-pure _)

unmap_at-IsSound : (p : Option PtePtr) → Keeps IsSound (unmap_at p)
unfolding unmap_at
unmap_at-IsSound none = Keeps-pure _
unmap_at-IsSound (some p) = unmap_one-IsSound p

-- Each round comes a page nearer to the end.
next_addr_measure :
    (a oldsz fuel : ℕ) (p : Option PtePtr)
    → oldsz ≤ kernbase
    → ltb a oldsz ≡ true
    → oldsz < a + suc fuel * pgsize
    → oldsz < next_addr a p + fuel * pgsize
next_addr_measure a oldsz fuel none h t m = omega (arith, ltb→lt a oldsz t)
next_addr_measure a oldsz fuel (some p) h t m = omega (arith, ltb→lt a oldsz t)

dealloc_loop-IsSound :
    (fuel pgdir a oldsz : ℕ)
    → oldsz ≤ kernbase
    → oldsz < a + fuel * pgsize
    → Keeps IsSound (dealloc_loop (suc fuel) pgdir a oldsz)
unfolding dealloc_loop
dealloc_loop-IsSound zero pgdir a oldsz h m =
    Keeps-branch (λ t. absurd (omega (arith, ltb→lt a oldsz t))) (λ _. Keeps-pure _)
dealloc_loop-IsSound (suc fuel) pgdir a oldsz h m =
    Keeps-branch
      (λ t. Keeps-bind (walkpgdir-IsSound pgdir a false) λ p. Keeps-then (unmap_at-IsSound p) (
        dealloc_loop-IsSound fuel pgdir (next_addr a p) oldsz h
          (next_addr_measure a oldsz fuel p h t m)))
      (λ _. Keeps-pure _)

-- deallocuvm from an old size of at most KERNBASE to any new one. No loop in it runs out of its
-- rounds; where it returns, the allocator invariant (the counter of free pages is the length of the
-- free list as a 32-bit word, and every free page is one that kfree accepts) holds again.
pub deallocuvm-IsSound :
    (pgdir oldsz newsz : ℕ) → oldsz ≤ kernbase → Keeps IsSound (deallocuvm pgdir oldsz newsz)
unfolding deallocuvm
deallocuvm-IsSound pgdir oldsz newsz h =
    Keeps-branch (λ _. Keeps-pure _)
      λ shrinks.
        Keeps-then
          (rw add-two (dealloc_loop-IsSound (oldsz / pgsize + 1) pgdir _ oldsz h (omega arith)))
          (Keeps-pure _)

free_tables-IsSound : (n i pgdir : ℕ) → Keeps IsSound (free_tables n i pgdir)
unfolding free_tables
free_tables-IsSound zero i pgdir = Keeps-pure _
free_tables-IsSound (suc n) i pgdir = Keeps-bind (load_pte-IsSound _) λ pde.
    Keeps-then (Keeps-branch (λ _. kfree-IsSound _) (λ _. Keeps-pure _))
      (free_tables-IsSound n (i + 1) pgdir)

-- freevm of any directory. No loop in it runs out of its rounds; where it returns, the allocator
-- invariant (the counter of free pages is the length of the free list as a 32-bit word, and every
-- free page is one that kfree accepts) holds again.
pub freevm-IsSound : (pgdir : ℕ) → Keeps IsSound (freevm pgdir)
unfolding freevm
freevm-IsSound pgdir = Keeps-then (Keeps-require _ Stop.no_pgdir (λ e. cc)) (
    Keeps-bind (deallocuvm-IsSound pgdir kernbase 0 (omega arith))
      λ sz. Keeps-then (free_tables-IsSound 1024 0 pgdir) (kfree-IsSound pgdir))

alloc_failed-IsSound :
    (pgdir mem oldsz newsz : ℕ)
    → newsz ≤ kernbase
    → Keeps IsSound (alloc_failed pgdir mem oldsz newsz)
unfolding alloc_failed
alloc_failed-IsSound pgdir mem oldsz newsz h =
    Keeps-bind (deallocuvm-IsSound pgdir newsz oldsz h)
      λ sz. Keeps-then (kfree-IsSound mem) (Keeps-pure _)

alloc_one-IsSound :
    (pgdir a oldsz newsz : ℕ) (next : M ℕ) (r : Option ℕ)
    → a < uint_mod
    → newsz ≤ kernbase
    → Keeps IsSound next
    → Keeps IsSound (alloc_one pgdir a oldsz newsz next r)
unfolding alloc_one
alloc_one-IsSound pgdir a oldsz newsz next none ha h k =
    Keeps-bind (deallocuvm-IsSound pgdir newsz oldsz h) λ sz. Keeps-pure _
alloc_one-IsSound pgdir a oldsz newsz next (some mem) ha h k =
    Keeps-then (Keeps-modify _ (IsSound-zero_page mem)) (
      Keeps-then (incr_rtable-IsSound mem) (
        Keeps-bind (mappages-IsSound pgdir a pgsize (v2p mem) user_perm ha)
          λ mapped. Keeps-branch (λ _. k) (λ _. alloc_failed-IsSound pgdir mem oldsz newsz h)))

alloc_loop-IsSound :
    (fuel pgdir a oldsz newsz : ℕ)
    → newsz ≤ kernbase
    → newsz < a + fuel * pgsize
    → Keeps IsSound (alloc_loop (suc fuel) pgdir a oldsz newsz)
unfolding alloc_loop
alloc_loop-IsSound zero pgdir a oldsz newsz h m =
    Keeps-branch (λ t. absurd (omega (arith, ltb→lt a newsz t))) (λ _. Keeps-pure _)
alloc_loop-IsSound (suc fuel) pgdir a oldsz newsz h m =
    Keeps-branch
      (λ t.
        let lt : a < newsz = ltb→lt a newsz t in
        Keeps-bind kalloc-IsSound λ r.
          alloc_one-IsSound pgdir a oldsz newsz _ r (omega arith) h
            (alloc_loop-IsSound fuel pgdir ((a + pgsize) % uint_mod) oldsz newsz h (omega arith)))
      (λ _. Keeps-pure _)

-- allocuvm for any sizes, its failures included. No loop in it runs out of its rounds; where it
-- returns, the allocator invariant (the counter of free pages is the length of the free list as a
-- 32-bit word, and every free page is one that kfree accepts) holds again.
allocuvm-IsSound : (pgdir oldsz newsz : ℕ) → Keeps IsSound (allocuvm pgdir oldsz newsz)
unfolding allocuvm
allocuvm-IsSound pgdir oldsz newsz =
    Keeps-branch (λ _. Keeps-pure _)
      λ below.
        Keeps-branch (λ _. Keeps-pure _)
          λ grows. rw add-two (
            alloc_loop-IsSound (newsz / pgsize + 1) pgdir _ oldsz newsz
              (omega (arith, leb-false kernbase newsz below)) (omega arith))
