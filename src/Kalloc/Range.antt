-- ===== src/Kalloc/Range.antt =====
-- lab6/xv6-public/kalloc.c, freerange: the loop over a range of addresses.
use cs333_os_labs.Kalloc.{freerange, freerange_loop, pg_round_up, pgsize, uint_mod}
use cs333_os_labs.Kalloc.FreeList.{IsSound, kfree-IsSound}
use cs333_os_labs.Prelude.{arith, leb→le, suc, zero, ℕ, ◌%◌, ◌*◌, ◌+◌, ◌/◌, ◌<◌, ◌≡◌, ◌≤◌}
use cs333_os_labs.Prelude.Outcome.Keeps.{Keeps, Keeps-branch, Keeps-pure, Keeps-then}

freerange_loop-IsSound :
    (fuel p vend : ℕ)
    → 0 < fuel
    → vend < p + fuel * pgsize
    → p + pgsize < uint_mod
    → vend + pgsize < uint_mod
    → Keeps IsSound (freerange_loop fuel p vend)
unfolding freerange_loop
freerange_loop-IsSound zero p vend some_fuel enough low high = absurd (omega arith)
freerange_loop-IsSound (suc fuel) p vend some_fuel enough low high =
    Keeps-branch
      (λ more.
        let next : (p + pgsize) % uint_mod ≡ p + pgsize = omega arith in
        let below : p + pgsize ≤ vend =
          ground (arith, leb→le ((p + pgsize) % uint_mod) vend more) in
        Keeps-then (kfree-IsSound p) (
          rw next (
            freerange_loop-IsSound fuel (p + pgsize) vend (omega arith) (omega arith) (omega arith)
              high)))
      (λ _. Keeps-pure tt)

-- freerange of any range that stays two pages below the end of the address space. No loop in it
-- runs out of its rounds; where it returns, the allocator invariant (the counter of free pages is
-- the length of the free list as a 32-bit word, and every free page is one that kfree accepts)
-- holds again.
freerange-IsSound :
    (vstart vend : ℕ)
    → vstart + 2 * pgsize < uint_mod
    → vend + pgsize < uint_mod
    → Keeps IsSound (freerange vstart vend)
unfolding freerange
freerange-IsSound vstart vend low high =
    freerange_loop-IsSound (vend / pgsize + 1) (pg_round_up vstart) vend (omega arith) (omega arith)
      (omega arith) high
