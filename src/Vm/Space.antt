-- ===== src/Vm/Space.antt =====
-- lab6/xv6-public/vm.c, inituvm, allocuvm, deallocuvm, freevm and clearpteu: the pages of a user
-- address space. A pointer that the source does not test is 0 for NULL.
pub mod Sound
pub mod Shrink
use cs333_os_labs.Kalloc.{
  M, Machine, decr_rtable, frame_of, incr_rtable, kalloc, kernbase, kfree, p2v, pg_round_up, pgsize,
  uint_mod, update, v2p, zero_page, zero_pte,
}
use cs333_os_labs.Prelude.{
  List, Option, [], false, leb, length, ltb, none, not, some, suc, true, zero, ℕ, ◌%◌, ◌*◌, ◌+◌,
  ◌/◌, ◌==◌, ◌∷◌,
}
use cs333_os_labs.Prelude.Outcome.{Stop, branch, halt, modify, pure, require, ◌>>=◌, ◌>>◌}
use cs333_os_labs.Vm.Table.{Perm, PtePtr, load_pte, mappages, store_pte, walkpgdir}

abbrev pub user_perm : Perm
user_perm = record { writable = true; user = true; other = 0 }

-- `memmove` of `src` to `off` in a page.
abbrev pub write_bytes : ℕ → List ℕ → (ℕ → ℕ) → ℕ → ℕ
write_bytes off [] f = f
write_bytes off (b ∷ bs) f = write_bytes (off + 1) bs (update f off b)

abbrev pub store_bytes : ℕ → ℕ → List ℕ → Machine → Machine
store_bytes fr off src s = record s { bytes = update s.bytes fr (write_bytes off src (s.bytes fr)) }

abbrev or_null : Option ℕ → ℕ
or_null none = 0
or_null (some v) = v

unfoldable pub inituvm : ℕ → List ℕ → M (Unit {0})
inituvm pgdir init = do
  require (ltb (length init) pgsize) Stop.inituvm_size
  r ← kalloc
  let mem = or_null r
  incr_rtable mem
  modify (zero_page mem)
  mapped ← mappages pgdir 0 pgsize (v2p mem) user_perm
  modify (store_bytes (frame_of mem) 0 init)

-- What `deallocuvm` does with one page: it drops the reference and clears the entry.
unfoldable pub unmap_one : PtePtr → M (Unit {0})
unmap_one p = do
  pte ← load_pte p
  branch pte.present
      (do
        require (not (pte.frame == 0)) Stop.bad_kfree
        decr_rtable (p2v (pte.frame * pgsize))
        kfree (p2v (pte.frame * pgsize))
        store_pte p zero_pte)
      (pure tt)

-- The address after `a`: past the next table's worth of pages if there is no page table.
abbrev pub next_addr : ℕ → Option PtePtr → ℕ
next_addr a none = (a + 1023 * pgsize + pgsize) % uint_mod
next_addr a (some p) = (a + pgsize) % uint_mod

unfoldable pub unmap_at : Option PtePtr → M (Unit {0})
unmap_at none = pure tt
unmap_at (some p) = unmap_one p

unfoldable pub dealloc_loop : ℕ → ℕ → ℕ → ℕ → M (Unit {0})
dealloc_loop zero pgdir a oldsz = halt Stop.out_of_fuel
dealloc_loop (suc fuel) pgdir a oldsz =
    let rest = λ (b : ℕ). dealloc_loop fuel pgdir b oldsz in
    branch (ltb a oldsz) (do p ← walkpgdir pgdir a false; unmap_at p; rest (next_addr a p))
      (pure tt)

unfoldable pub deallocuvm : ℕ → ℕ → ℕ → M ℕ
deallocuvm pgdir oldsz newsz =
    branch (leb oldsz newsz) (pure oldsz)
      (do dealloc_loop (oldsz / pgsize + 2) pgdir (pg_round_up newsz) oldsz; pure newsz)

-- The loop of `freevm` over the directory.
unfoldable pub free_tables : ℕ → ℕ → ℕ → M (Unit {0})
free_tables zero i pgdir = pure tt
free_tables (suc n) i pgdir =
    let rest = free_tables n (i + 1) pgdir in
    (do
      pde ← load_pte (record { table = frame_of pgdir; index = i })
      branch pde.present (kfree (p2v (pde.frame * pgsize))) (pure tt)
      rest)

unfoldable pub freevm : ℕ → M (Unit {0})
freevm pgdir = do
  require (not (pgdir == 0)) Stop.no_pgdir
  sz ← deallocuvm pgdir kernbase 0
  free_tables 1024 0 pgdir
  kfree pgdir

-- The failure of `allocuvm` at `mappages`: the page keeps the count that `incr_rtable` gave it.
unfoldable pub alloc_failed : ℕ → ℕ → ℕ → ℕ → M ℕ
alloc_failed pgdir mem oldsz newsz = do sz ← deallocuvm pgdir newsz oldsz; kfree mem; pure 0

-- One round of `allocuvm`; `next` is the rest of the loop.
unfoldable pub alloc_one : ℕ → ℕ → ℕ → ℕ → M ℕ → Option ℕ → M ℕ
alloc_one pgdir a oldsz newsz next none = do sz ← deallocuvm pgdir newsz oldsz; pure 0
alloc_one pgdir a oldsz newsz next (some mem) = do
  modify (zero_page mem)
  incr_rtable mem
  mapped ← mappages pgdir a pgsize (v2p mem) user_perm
  branch mapped next (alloc_failed pgdir mem oldsz newsz)

unfoldable pub alloc_loop : ℕ → ℕ → ℕ → ℕ → ℕ → M ℕ
alloc_loop zero pgdir a oldsz newsz = halt Stop.out_of_fuel
alloc_loop (suc fuel) pgdir a oldsz newsz =
    let rest = alloc_loop fuel pgdir ((a + pgsize) % uint_mod) oldsz newsz in
    branch (ltb a newsz) (do r ← kalloc; alloc_one pgdir a oldsz newsz rest r) (pure newsz)

unfoldable pub allocuvm : ℕ → ℕ → ℕ → M ℕ
allocuvm pgdir oldsz newsz = branch (leb kernbase newsz) (pure 0) (
    branch (ltb newsz oldsz) (pure oldsz)
      (alloc_loop (newsz / pgsize + 2) pgdir (pg_round_up oldsz) oldsz newsz))

unfoldable pub clear_user : Option PtePtr → M (Unit {0})
clear_user none = halt Stop.no_user_pte
clear_user (some p) = do pte ← load_pte p; store_pte p (record pte { user = false })

unfoldable pub clearpteu : ℕ → ℕ → M (Unit {0})
clearpteu pgdir uva = do p ← walkpgdir pgdir uva false; clear_user p
