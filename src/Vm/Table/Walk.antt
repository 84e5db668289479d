-- ===== src/Vm/Table/Walk.antt =====
-- lab6/xv6-public/vm.c, walkpgdir and mappages: what a walk finds after another.
use cs333_os_labs.Kalloc.{Machine, frame_of, pg_round_down, pgsize, uint_mod}
use cs333_os_labs.Prelude.{
  Bool, arith, false, if◌then◌else◌, none, some, true, ℕ, ◌%◌, ◌+◌, ◌-◌, ◌<◌, ◌≡◌,
}
use cs333_os_labs.Prelude.Outcome.{Stop, code, done, stop}
use cs333_os_labs.Vm.Table.{
  Perm, PtePtr, load_pte, make_pte, map_one, mappages, mappages_loop, pdx, ptx, rounds, set_entry,
  store_pte, table_of, walkpgdir,
}

-- A walk that may not allocate changes nothing.
pub walkpgdir_find :
    (pgdir va : ℕ) (s : Machine)
    → let pde = s.entry (frame_of pgdir) (pdx va) in
      walkpgdir pgdir va false s
      ≡ done
          (if pde.present then some (record { table = table_of pde; index = ptx va }) else none, s)
unfolding walkpgdir code
walkpgdir_find pgdir va s = ground arith

-- A walk that finds a page table does not allocate.
pub walkpgdir_present :
    (pgdir va : ℕ) (alloc : Bool) (s : Machine)
    → let pde = s.entry (frame_of pgdir) (pdx va) in
      pde.present ≡ true
      → walkpgdir pgdir va alloc s
        ≡ done (some (record { table = table_of pde; index = ptx va }), s)
unfolding walkpgdir code
walkpgdir_present pgdir va alloc s h = ground arith

-- A page-aligned range of one page is one round of `mappages`.
mappages_one :
    (pgdir va pa : ℕ) (perm : Perm)
    → va < uint_mod
    → va % pgsize ≡ 0
    → mappages pgdir va pgsize pa perm ≡ mappages_loop 1 pgdir va va pa perm
unfolding mappages
mappages_one pgdir va pa perm h aligned =
    rw (round_down_aligned va aligned, last_of_page va h aligned, rounds_same va h)
  where
    round_down_aligned : (a : ℕ) → a % pgsize ≡ 0 → pg_round_down a ≡ a
    round_down_aligned a e = omega arith

    last_of_page :
        (a : ℕ)
        → a < uint_mod
        → a % pgsize ≡ 0
        → pg_round_down ((a + pgsize + uint_mod - 1) % uint_mod) ≡ a
    last_of_page a l e = omega arith

    rounds_same : (a : ℕ) → a < uint_mod → rounds a a ≡ 1
    rounds_same a l = omega arith

module _ (pgdir va pa : ℕ) (perm : Perm) (s : Machine) (small : va < uint_mod)
    (aligned : va % pgsize ≡ 0) where
  abbrev slot : PtePtr
  slot = record { table = table_of (s.entry (frame_of pgdir) (pdx va)); index = ptx va }

  -- Mapping one page, at a page-aligned 32-bit address where the page table exists and the entry
  -- is free, writes that entry and nothing else.
  mappages_free :
      (s.entry (frame_of pgdir) (pdx va)).present ≡ true
      → (s.entry slot.table slot.index).present ≡ false
      → mappages pgdir va pgsize pa perm s
        ≡ done (true, set_entry slot.table slot.index (make_pte pa perm) s)
  unfolding mappages_loop map_one load_pte store_pte code
  mappages_free table_present free =
      rw (mappages_one pgdir va pa perm small aligned)
        (ground (arith, walkpgdir_present pgdir va true s table_present))

  -- Mapping a page where the entry is in use stops the kernel.
  pub mappages_remap :
      (s.entry (frame_of pgdir) (pdx va)).present ≡ true
      → (s.entry slot.table slot.index).present ≡ true
      → mappages pgdir va pgsize pa perm s ≡ stop Stop.remap
  unfolding mappages_loop map_one load_pte store_pte code
  mappages_remap table_present used =
      rw (mappages_one pgdir va pa perm small aligned)
        (ground (arith, walkpgdir_present pgdir va true s table_present))
