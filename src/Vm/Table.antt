-- ===== src/Vm/Table.antt =====
-- lab6/xv6-public/vm.c, walkpgdir, mappages, kmap and setupkvm: the two-level page table.
pub mod Sound
pub mod Walk
use cs333_os_labs.Kalloc.{
  M, Machine, Pte, frame_of, kalloc, kernbase, p2v, pg_round_down, pgsize, phystop, uint_mod,
  update, v2p, zero_page,
}
use cs333_os_labs.Prelude.{
  Bool, List, Option, [], false, leb, none, not, some, suc, true, zero, ℕ, ◌%◌, ◌*◌, ◌+◌, ◌-◌, ◌/◌,
  ◌==◌, ◌^◌, ◌∷◌,
}
use cs333_os_labs.Prelude.Outcome.{Stop, branch, halt, modify, pure, read, require, ◌>>=◌, ◌>>◌}

abbrev pub pdx : ℕ → ℕ
pdx va = va / 2 ^ 22 % 1024

abbrev pub ptx : ℕ → ℕ
ptx va = va / 2 ^ 12 % 1024

-- `pte_t *`: the physical page of the table and the index in it.
pub record PtePtr : Type 0 where
  pub table : ℕ
  pub index : ℕ

abbrev pub set_entry : ℕ → ℕ → Pte → Machine → Machine
set_entry t i e s = record s { entry = update s.entry t (update (s.entry t) i e) }

unfoldable pub load_pte : PtePtr → M Pte
load_pte p = read (λ s. s.entry p.table p.index)

unfoldable pub store_pte : PtePtr → Pte → M (Unit {0})
store_pte p e = modify (set_entry p.table p.index e)

-- `V2P(pgtab) | PTE_P | PTE_W | PTE_U`
abbrev pub table_pde : ℕ → Pte
table_pde pgtab = record {
  frame = frame_of pgtab;
  present = true;
  writable = true;
  user = true;
  other = 0;
}

-- The page table behind a directory entry, as a physical page.
abbrev pub table_of : Pte → ℕ
table_of pde = frame_of (p2v (pde.frame * pgsize))

unfoldable pub new_table : ℕ → ℕ → Option ℕ → M (Option PtePtr)
new_table pgdir va none = pure none
new_table pgdir va (some pgtab) = do
  modify (zero_page pgtab)
  modify (set_entry (frame_of pgdir) (pdx va) (table_pde pgtab))
  pure (some (record { table = frame_of pgtab; index = ptx va }))

unfoldable pub walkpgdir : ℕ → ℕ → Bool → M (Option PtePtr)
walkpgdir pgdir va alloc = do
  pde ← read (λ s. s.entry (frame_of pgdir) (pdx va))
  branch pde.present (pure (some (record { table = table_of pde; index = ptx va })))
      (branch alloc (do r ← kalloc; new_table pgdir va r) (pure none))

-- The permission bits that `mappages` is called with.
pub record Perm : Type 0 where
  pub writable : Bool
  pub user : Bool
  pub other : ℕ

-- `pa | perm | PTE_P`, at a page-aligned `pa`.
abbrev pub make_pte : ℕ → Perm → Pte
make_pte pa perm = record {
  frame = pa / pgsize;
  present = true;
  writable = perm.writable;
  user = perm.user;
  other = perm.other;
}

-- One round of `mappages`: false if there is no memory for a page table.
unfoldable pub map_one : ℕ → ℕ → ℕ → Perm → Option PtePtr → M Bool
map_one pgdir a pa perm none = pure false
map_one pgdir a pa perm (some p) = do
  pte ← load_pte p
  require (not pte.present) Stop.remap
  store_pte p (make_pte pa perm)
  pure true

unfoldable pub mappages_loop : ℕ → ℕ → ℕ → ℕ → ℕ → Perm → M Bool
mappages_loop zero pgdir a last pa perm = halt Stop.out_of_fuel
mappages_loop (suc fuel) pgdir a last pa perm =
    let rest =
      mappages_loop fuel pgdir ((a + pgsize) % uint_mod) last ((pa + pgsize) % uint_mod) perm in
    (do
      p ← walkpgdir pgdir a true
      mapped ← map_one pgdir a pa perm p
      branch mapped (branch (a == last) (pure true) rest) (pure false))

-- A round for each page from `a` to `last`, going round at 2^32.
abbrev pub rounds : ℕ → ℕ → ℕ
rounds a last = (last + uint_mod - a) % uint_mod / pgsize + 1

unfoldable pub mappages : ℕ → ℕ → ℕ → ℕ → Perm → M Bool
mappages pgdir va size pa perm =
    let a = pg_round_down va in
    let last = pg_round_down ((va + size + uint_mod - 1) % uint_mod) in
    mappages_loop (rounds a last) pgdir a last pa perm

pub record Kmap : Type 0 where
  pub virt : ℕ
  pub phys_start : ℕ
  pub phys_end : ℕ
  pub perm : Perm

abbrev pub extmem : ℕ
extmem = 0x100000

abbrev pub kernlink : ℕ
kernlink = kernbase + extmem

abbrev pub devspace : ℕ
devspace = 0xFE000000

abbrev pub kernel_perm : Bool → Perm
kernel_perm w = record { writable = w; user = false; other = 0 }

unfoldable pub kmap : ℕ → List Kmap
kmap kdata =
    record { virt = kernbase; phys_start = 0; phys_end = extmem; perm = kernel_perm true }
    ∷ record {
      virt = kernlink;
      phys_start = v2p kernlink;
      phys_end = v2p kdata;
      perm = kernel_perm false;
    }
    ∷ record { virt = kdata; phys_start = v2p kdata; phys_end = phystop; perm = kernel_perm true }
    ∷ record { virt = devspace; phys_start = devspace; phys_end = 0; perm = kernel_perm true }
    ∷ []

-- The loop of `setupkvm` over `kmap`.
unfoldable pub map_kernel : ℕ → List Kmap → M Bool
map_kernel pgdir [] = pure true
map_kernel pgdir (k ∷ ks) =
    let rest = map_kernel pgdir ks in
    (do
      mapped ←
          mappages pgdir k.virt ((k.phys_end + uint_mod - k.phys_start) % uint_mod) k.phys_start
            k.perm
      branch mapped rest (pure false))

unfoldable pub map_state : ℕ → M Bool
map_state pgdir s = map_kernel pgdir (kmap s.kdata) s

-- `none` where `setupkvm` returns 0. PHYSTOP lies below DEVSPACE, so the test for that passes.
unfoldable pub setup_from : Option ℕ → M (Option ℕ)
setup_from none = pure none
setup_from (some pgdir) = do
  modify (zero_page pgdir)
  require (leb (p2v phystop) devspace) Stop.no_kernel_map
  mapped ← map_state pgdir
  branch mapped (pure (some pgdir)) (pure none)

unfoldable pub setupkvm : M (Option ℕ)
setupkvm = do r ← kalloc; setup_from r
