-- ===== src/Vm/Table/Sound.antt =====
-- lab6/xv6-public/vm.c, walkpgdir, mappages and setupkvm: the allocator's invariant and the end of
-- the loops.
use cs333_os_labs.Kalloc.{Machine, Pte, frame_of, pgsize, uint_mod, zero_page}
use cs333_os_labs.Kalloc.FreeList.{IsSound, kalloc-IsSound}
use cs333_os_labs.Prelude.{
  ==_ne, All, Bool, List, Option, [], arith, false, none, some, suc, true, zero, ℕ, ◌%◌, ◌+◌, ◌-◌,
  ◌/◌, ◌<◌, ◌==◌, ◌∷◌, ◌≡◌,
}
use cs333_os_labs.Prelude.Outcome.Keeps.{
  Keeps, Keeps-bind, Keeps-branch, Keeps-modify, Keeps-pure, Keeps-read, Keeps-require, Keeps-then,
}
use cs333_os_labs.Vm.Table.{
  Kmap, Perm, PtePtr, kmap, load_pte, map_kernel, map_one, map_state, mappages, mappages_loop,
  new_table, pdx, set_entry, setup_from, setupkvm, store_pte, table_pde, walkpgdir,
}

IsSound-set_entry : (t i : ℕ) (e : Pte) (s : Machine) → IsSound s → IsSound (set_entry t i e s)
IsSound-set_entry t i e s h = record { counted = h.counted; linked = h.linked; valid = h.valid }

pub IsSound-zero_page : (v : ℕ) (s : Machine) → IsSound s → IsSound (zero_page v s)
unfolding zero_page
IsSound-zero_page v s h = record { counted = h.counted; linked = h.linked; valid = h.valid }

pub load_pte-IsSound : (p : PtePtr) → Keeps IsSound (load_pte p)
unfolding load_pte
load_pte-IsSound p = record { run = (Keeps-read (λ s. s.entry p.table p.index)).run }

pub store_pte-IsSound : (p : PtePtr) (e : Pte) → Keeps IsSound (store_pte p e)
unfolding store_pte
store_pte-IsSound p e = record { run = (Keeps-modify _ (IsSound-set_entry p.table p.index e)).run }

new_table-IsSound : (pgdir va : ℕ) (r : Option ℕ) → Keeps IsSound (new_table pgdir va r)
unfolding new_table
new_table-IsSound pgdir va none = Keeps-pure _
new_table-IsSound pgdir va (some t) = Keeps-then (Keeps-modify _ (IsSound-zero_page t)) (
    Keeps-then (Keeps-modify _ (IsSound-set_entry (frame_of pgdir) (pdx va) (table_pde t)))
      (Keeps-pure _))

pub walkpgdir-IsSound : (pgdir va : ℕ) (alloc : Bool) → Keeps IsSound (walkpgdir pgdir va alloc)
unfolding walkpgdir
walkpgdir-IsSound pgdir va alloc = Keeps-bind (Keeps-read _) λ pde.
    Keeps-branch (λ _. Keeps-pure _)
      λ _.
        Keeps-branch (λ _. Keeps-bind kalloc-IsSound (new_table-IsSound pgdir va))
          (λ _. Keeps-pure _)

map_one-IsSound :
    (pgdir a pa : ℕ) (perm : Perm) (p : Option PtePtr) → Keeps IsSound (map_one pgdir a pa perm p)
unfolding map_one
map_one-IsSound pgdir a pa perm none = Keeps-pure _
map_one-IsSound pgdir a pa perm (some p) = Keeps-bind (load_pte-IsSound p) λ pte.
    Keeps-then (Keeps-require _ _ (λ e. cc)) (Keeps-then (store_pte-IsSound p _) (Keeps-pure _))

mappages_measure :
    (a last fuel : ℕ)
    → a < uint_mod
    → last < uint_mod
    → a % pgsize ≡ 0
    → last % pgsize ≡ 0
    → (a == last) ≡ false
    → (last + uint_mod - a) % uint_mod / pgsize < suc fuel
    → (last + uint_mod - (a + pgsize) % uint_mod) % uint_mod / pgsize < fuel
mappages_measure a last fuel ha hl aa al further h = omega (arith, ==_ne a last further)

mappages_loop-IsSound :
    (fuel pgdir a last pa : ℕ) (perm : Perm)
    → a < uint_mod
    → last < uint_mod
    → a % pgsize ≡ 0
    → last % pgsize ≡ 0
    → (last + uint_mod - a) % uint_mod / pgsize < fuel
    → Keeps IsSound (mappages_loop fuel pgdir a last pa perm)
unfolding mappages_loop
mappages_loop-IsSound zero pgdir a last pa perm ha hl aa al h = absurd (omega arith)
mappages_loop-IsSound (suc fuel) pgdir a last pa perm ha hl aa al h =
    Keeps-bind (walkpgdir-IsSound pgdir a true) λ p.
      Keeps-bind (map_one-IsSound pgdir a pa perm p) λ mapped.
        Keeps-branch
          (λ _.
            Keeps-branch (λ _. Keeps-pure _)
              λ further.
                mappages_loop-IsSound fuel pgdir ((a + pgsize) % uint_mod) last
                  ((pa + pgsize) % uint_mod) perm (omega arith) hl (omega arith) al
                  (mappages_measure a last fuel ha hl aa al further h))
          (λ _. Keeps-pure _)

-- mappages of any range, whose start is a 32-bit address. The computation returns or panics and
-- never runs out of its rounds; where it returns, the allocator invariant (the counter of free
-- pages is the length of the free list as a 32-bit word, and every free page is one that kfree
-- accepts) holds again.
pub mappages-IsSound :
    (pgdir va size pa : ℕ) (perm : Perm)
    → va < uint_mod
    → Keeps IsSound (mappages pgdir va size pa perm)
unfolding mappages
mappages-IsSound pgdir va size pa perm h =
    mappages_loop-IsSound _ pgdir _ _ pa perm (omega arith) (omega arith) (omega arith)
      (omega arith) (omega arith)

map_kernel-IsSound :
    (pgdir : ℕ) (ks : List Kmap)
    → All (λ k. k.virt < uint_mod) ks
    → Keeps IsSound (map_kernel pgdir ks)
unfolding map_kernel
map_kernel-IsSound pgdir [] h = Keeps-pure _
map_kernel-IsSound pgdir (k ∷ ks) h =
    Keeps-bind (mappages-IsSound pgdir k.virt _ k.phys_start k.perm h.0)
      λ mapped. Keeps-branch (λ _. map_kernel-IsSound pgdir ks h.1) (λ _. Keeps-pure _)

map_state-IsSound : (pgdir : ℕ) → Keeps IsSound (map_state pgdir)
unfolding map_state kmap
map_state-IsSound pgdir = record {
  run = λ s h. (map_kernel-IsSound pgdir (kmap s.kdata) (omega (arith, h.linked))).run s h;
}

setup_from-IsSound : (r : Option ℕ) → Keeps IsSound (setup_from r)
unfolding setup_from
setup_from-IsSound none = Keeps-pure _
setup_from-IsSound (some pgdir) = Keeps-then (Keeps-modify _ (IsSound-zero_page pgdir)) (
    Keeps-then (Keeps-require _ _ (λ e. cc)) (
      Keeps-bind (map_state-IsSound pgdir)
        λ mapped. Keeps-branch (λ _. Keeps-pure _) (λ _. Keeps-pure _)))

pub setupkvm-IsSound : Keeps IsSound setupkvm
unfolding setupkvm
setupkvm-IsSound = Keeps-bind kalloc-IsSound setup_from-IsSound
