-- ===== src/Vm/Fork/Sound.antt =====
-- lab6/xv6-public/vm.c, copyuvm and copyuvm_cow: the allocator's invariant and the end of the loop.
use cs333_os_labs.Kalloc.{Machine, kernbase, p2v, pgsize, uint_mod}
use cs333_os_labs.Kalloc.FreeList.{
  IsSound, decr_rtable-IsSound, incr_rtable-IsSound, isone_rtable-IsSound, kalloc-IsSound,
}
use cs333_os_labs.Prelude.{
  Option, add-two, arith, false, ltb→lt, none, some, suc, zero, ℕ, ◌%◌, ◌*◌, ◌+◌, ◌/◌, ◌<◌, ◌≤◌,
}
use cs333_os_labs.Prelude.Outcome.Keeps.{
  Keeps, Keeps-bind, Keeps-branch, Keeps-halt, Keeps-modify, Keeps-pure, Keeps-require, Keeps-then,
}
use cs333_os_labs.Vm.Fork.{
  copy_into, copy_loop, copy_page, copyuvm, copyuvm_cow, cow_at, cow_copy, flags_of, protect,
}
use cs333_os_labs.Vm.Space.Sound.{freevm-IsSound}
use cs333_os_labs.Vm.Table.{PtePtr}
use cs333_os_labs.Vm.Table.Sound.{
  load_pte-IsSound, mappages-IsSound, setupkvm-IsSound, store_pte-IsSound, walkpgdir-IsSound,
}

protect-IsSound : (p : Option PtePtr) → Keeps IsSound (protect p)
unfolding protect
protect-IsSound none = Keeps-halt _ _ (λ e. cc)
protect-IsSound (some p) = Keeps-bind (load_pte-IsSound p) λ pte.
    Keeps-then (Keeps-require _ _ (λ e. cc))
      (Keeps-then (store_pte-IsSound p _) (load_pte-IsSound p))

copy_loop-IsSound :
    (fuel pgdir d i sz : ℕ)
    → sz ≤ kernbase
    → sz < i + fuel * pgsize
    → Keeps IsSound (copy_loop (suc fuel) pgdir d i sz)
unfolding copy_loop
copy_loop-IsSound zero pgdir d i sz h m =
    Keeps-branch (λ t. absurd (omega (arith, ltb→lt i sz t))) (λ _. Keeps-pure _)
copy_loop-IsSound (suc fuel) pgdir d i sz h m =
    Keeps-branch
      (λ t.
        let lt : i < sz = ltb→lt i sz t in
        Keeps-bind (walkpgdir-IsSound pgdir i false) λ p. Keeps-bind (protect-IsSound p) λ pte.
          Keeps-bind (mappages-IsSound d i pgsize _ (flags_of pte) (omega arith)) λ mapped.
            Keeps-branch
              (λ _.
                Keeps-then (incr_rtable-IsSound _)
                  (copy_loop-IsSound fuel pgdir d ((i + pgsize) % uint_mod) sz h (omega arith)))
              (λ _. Keeps-then (freevm-IsSound d) (Keeps-pure _)))
      (λ _. Keeps-pure _)

copy_into-IsSound :
    (pgdir sz : ℕ) (d : Option ℕ) → sz ≤ kernbase → Keeps IsSound (copy_into pgdir sz d)
unfolding copy_into
copy_into-IsSound pgdir sz none h = Keeps-pure _
copy_into-IsSound pgdir sz (some d) h =
    rw add-two (copy_loop-IsSound (sz / pgsize + 1) pgdir d 0 sz h (omega arith))

-- copyuvm, the copy of an address space of at most KERNBASE bytes that makes all its pages shared
-- and read-only. No loop in it runs out of its rounds; where it returns, the allocator invariant
-- (the counter of free pages is the length of the free list as a 32-bit word, and every free page
-- is one that kfree accepts) holds again.
pub copyuvm-IsSound : (pgdir sz : ℕ) → sz ≤ kernbase → Keeps IsSound (copyuvm pgdir sz)
unfolding copyuvm
copyuvm-IsSound pgdir sz h = Keeps-bind setupkvm-IsSound λ d. copy_into-IsSound pgdir sz d h

IsSound-copy_page : (dst src : ℕ) (s : Machine) → IsSound s → IsSound (copy_page dst src s)
unfolding copy_page
IsSound-copy_page dst src s h = record { counted = h.counted; linked = h.linked; valid = h.valid }

cow_copy-IsSound :
    (pgdir : ℕ) (p : PtePtr) (pa : ℕ) (r : Option ℕ) → Keeps IsSound (cow_copy pgdir p pa r)
unfolding cow_copy
cow_copy-IsSound pgdir p pa none = Keeps-then (freevm-IsSound pgdir) (Keeps-pure _)
cow_copy-IsSound pgdir p pa (some mem) = Keeps-then (incr_rtable-IsSound mem) (
    Keeps-then (decr_rtable-IsSound _) (
      Keeps-then (Keeps-modify _ (IsSound-copy_page mem (p2v pa)))
        (Keeps-bind (load_pte-IsSound p) λ pte. Keeps-then (store_pte-IsSound p _) (Keeps-pure _))))

cow_at-IsSound : (pgdir : ℕ) (p : Option PtePtr) → Keeps IsSound (cow_at pgdir p)
unfolding cow_at
cow_at-IsSound pgdir none = Keeps-then (freevm-IsSound pgdir) (Keeps-pure _)
cow_at-IsSound pgdir (some p) = Keeps-bind (load_pte-IsSound p) λ pte.
    Keeps-bind (isone_rtable-IsSound _) λ one.
      Keeps-branch (λ _. Keeps-then (store_pte-IsSound p _) (Keeps-pure _))
        (λ _. Keeps-bind kalloc-IsSound (cow_copy-IsSound pgdir p _))

-- copyuvm_cow at any address, its failures included. No loop in it runs out of its rounds; where it
-- returns, the allocator invariant (the counter of free pages is the length of the free list as a
-- 32-bit word, and every free page is one that kfree accepts) holds again.
copyuvm_cow-IsSound : (pgdir va : ℕ) → Keeps IsSound (copyuvm_cow pgdir va)
unfolding copyuvm_cow
copyuvm_cow-IsSound pgdir va = Keeps-bind (walkpgdir-IsSound pgdir va false) (cow_at-IsSound pgdir)
