-- ===== src/Vm/Fork/Cow.antt =====
-- lab6/xv6-public/vm.c, copyuvm_cow: what the handling of a write to a shared page does to the
-- page, to the reference counts and to the other processes that map it.
use cs333_os_labs.Kalloc.{
  Machine, Pte, decr_rtable, frame_of, incr_rtable, isone_rtable, kalloc, n_frames, pref_count,
  uint_mod, update, zero_pte,
}
use cs333_os_labs.Kalloc.FreeList.{IsSound, frame_in_range}
use cs333_os_labs.Prelude.{
  List, arith, false, head_of_All, refl, some, true, ℕ, ◌%◌, ◌+◌, ◌-◌, ◌<◌, ◌∙◌, ◌∷◌, ◌≡◌, ◌≢◌, ◌≤◌,
}
use cs333_os_labs.Prelude.Outcome.{bind_done, code, done}
use cs333_os_labs.Vm.Fork.{copy_page, copyuvm_cow, cow_at, cow_copy}
use cs333_os_labs.Vm.Table.{PtePtr, load_pte, pdx, ptx, set_entry, store_pte, table_of, walkpgdir}
use cs333_os_labs.Vm.Table.Walk.{walkpgdir_present}

-- The state that `copyuvm_cow` leaves where it copies the page behind `p` to the free page `mem`.
abbrev pub copied : PtePtr → ℕ → List ℕ → Machine → Machine
copied p mem rest s =
    let pte = s.entry p.table p.index in
    let f = frame_of mem in
    let counts = update s.cnt f ((s.cnt f + 1) % uint_mod) in
    let entries = update s.entry f (s.entry pte.frame) in
    record s {
      freelist = rest;
      freepg_cnt = (s.freepg_cnt + uint_mod - 1) % uint_mod;
      cnt = update counts pte.frame ((counts pte.frame + uint_mod - 1) % uint_mod);
      bytes = update s.bytes f (s.bytes pte.frame);
      entry = update entries p.table (
          update (entries p.table) p.index
            (record (entries p.table p.index) { frame = f; writable = true }));
    }

cow_at_sole :
    (pgdir : ℕ) (p : PtePtr) (s : Machine)
    → let pte = s.entry p.table p.index in
      pte.frame < n_frames
      → s.cnt pte.frame ≡ 1
      → cow_at pgdir (some p) s
        ≡ done (some pgdir, set_entry p.table p.index (record pte { writable = true }) s)
unfolding cow_at isone_rtable pref_count load_pte store_pte code
cow_at_sole pgdir p s h one = ground arith

cow_at_shared :
    (pgdir : ℕ) (p : PtePtr) (s : Machine) (mem : ℕ) (rest : List ℕ)
    → let pte = s.entry p.table p.index in
      pte.frame < n_frames
      → s.cnt pte.frame ≢ 1
      → s.freelist ≡ mem ∷ rest
      → frame_of mem < n_frames
      → cow_at pgdir (some p) s ≡ done (some pgdir, copied p mem rest s)
unfolding cow_at cow_copy kalloc isone_rtable pref_count incr_rtable decr_rtable copy_page load_pte
    store_pte code
cow_at_shared pgdir p s mem rest h many free valid = ground arith

-- The entry that `walkpgdir` leads to for `va`, where there is a page table.
abbrev pub ptr_of : Machine → ℕ → ℕ → PtePtr
ptr_of s pgdir va = record { table = table_of (s.entry (frame_of pgdir) (pdx va)); index = ptx va }

abbrev pub pte_of : Machine → ℕ → ℕ → Pte
pte_of s pgdir va = s.entry (ptr_of s pgdir va).table (ptr_of s pgdir va).index

-- A byte of the user page at `va`, as a process with this directory reads it.
abbrev pub user_byte : Machine → ℕ → ℕ → ℕ → ℕ
user_byte s pgdir va off = s.bytes (pte_of s pgdir va).frame off

-- A write fault on a page of the allocator's memory with one reference makes the entry writable
-- in place: nothing is allocated or copied, and no count changes.
copyuvm_cow_sole :
    (s : Machine) (pgdir va : ℕ)
    → (s.entry (frame_of pgdir) (pdx va)).present ≡ true
    → (pte_of s pgdir va).frame < n_frames
    → s.cnt (pte_of s pgdir va).frame ≡ 1
    → let p = ptr_of s pgdir va in
      copyuvm_cow pgdir va s
      ≡ done
          (some pgdir, set_entry p.table p.index (record (pte_of s pgdir va) { writable = true }) s)
unfolding copyuvm_cow
copyuvm_cow_sole s pgdir va walked backed one =
    bind_done (walkpgdir pgdir va false) (cow_at pgdir) (walkpgdir_present pgdir va false s walked)
    ∙ cow_at_sole pgdir (ptr_of s pgdir va) s backed one

-- The walk to `va` finds a page table and a page of the allocator's memory, and the next free page
-- `mem` is none of the pages that the walk goes through.
pub record IsApart (s : Machine) (pgdir va mem : ℕ) : Type 0 where
  pub walked : (s.entry (frame_of pgdir) (pdx va)).present ≡ true
  pub backed : (pte_of s pgdir va).frame < n_frames
  pub not_directory : frame_of mem ≢ frame_of pgdir
  pub not_table : frame_of mem ≢ (ptr_of s pgdir va).table
  pub table_apart : (ptr_of s pgdir va).table ≢ frame_of pgdir
  pub not_page : frame_of mem ≢ (pte_of s pgdir va).frame

module _ (s : Machine) (pgdir va mem : ℕ) (rest : List ℕ) (sound : IsSound s)
    (free : s.freelist ≡ mem ∷ rest) (apart : IsApart s pgdir va mem)
    (shared : s.cnt (pte_of s pgdir va).frame ≢ 1) where
  -- The state after the fault.
  abbrev pub after_fault : Machine
  after_fault = copied (ptr_of s pgdir va) mem rest s

  free_frame : frame_of mem < n_frames
  free_frame = frame_in_range s.kend mem (head_of_All _ s.freelist mem rest free sound.valid)

  fault-run : copyuvm_cow pgdir va s ≡ done (some pgdir, after_fault)
  unfolding copyuvm_cow
  fault-run =
      bind_done (walkpgdir pgdir va false) (cow_at pgdir)
        (walkpgdir_present pgdir va false s apart.walked)
      ∙ cow_at_shared pgdir (ptr_of s pgdir va) s mem rest apart.backed shared free free_frame

  same_byte : (off : ℕ) → user_byte after_fault pgdir va off ≡ user_byte s pgdir va off
  same_byte off = grind arith

  -- A write fault on a page of which the count is not 1, where the allocator invariant holds and
  -- a free page is left that the walk does not go through, succeeds. The process then reads the
  -- same bytes at the page, has it writable, and in a frame of its own: the free page, which is
  -- not the shared one, whose bytes are as before.
  pub copyuvm_cow_splits :
      (t : Machine) × (copyuvm_cow pgdir va s ≡ done (some pgdir, t))
      × ((off : ℕ) → user_byte t pgdir va off ≡ user_byte s pgdir va off)
      × ((pte_of t pgdir va).writable ≡ true)
      × ((pte_of t pgdir va).frame ≡ frame_of mem)
      × ((pte_of t pgdir va).frame ≢ (pte_of s pgdir va).frame)
      × (t.bytes (pte_of s pgdir va).frame ≡ s.bytes (pte_of s pgdir va).frame)
      × (t.freelist ≡ rest)
  copyuvm_cow_splits =
      (after_fault, fault-run, same_byte, grind arith, grind arith, grind arith, grind arith, refl)

  -- The same fault, where the shared page has two references at least and the free page none: the
  -- reference moves from the shared page to the new one, and no other count changes.
  pub copyuvm_cow_counts :
      s.cnt (frame_of mem) ≡ 0
      → 2 ≤ s.cnt (pte_of s pgdir va).frame
      → s.cnt (pte_of s pgdir va).frame < uint_mod
      → (t : Machine) × (copyuvm_cow pgdir va s ≡ done (some pgdir, t))
        × (t.cnt (frame_of mem) ≡ 1)
        × (t.cnt (pte_of s pgdir va).frame + 1 ≡ s.cnt (pte_of s pgdir va).frame)
        × ((g : ℕ) → g ≢ frame_of mem → g ≢ (pte_of s pgdir va).frame → t.cnt g ≡ s.cnt g)
  copyuvm_cow_counts fresh many word =
      (after_fault, fault-run, counts_new, counts_old, λ g h k. grind (arith, apart.not_page))
    where
      counts_new : after_fault.cnt (frame_of mem) ≡ 1
      counts_new = grind (arith, apart.not_page)

      counts_old : after_fault.cnt (pte_of s pgdir va).frame + 1 ≡ s.cnt (pte_of s pgdir va).frame
      counts_old = grind (arith, apart.not_page)

-- A fault at an address with a page table but no page there, the entry being zero: copyuvm_cow
-- succeeds, but takes a page off the free list and leaves the entry not present, so that the
-- access faults again. The condition is that frame 0 has no reference, the free page is not one
-- that the walk goes through, and the allocator invariant holds.
pub copyuvm_cow_absent :
    (s : Machine) (pgdir va mem : ℕ) (rest : List ℕ)
    → IsSound s
    → s.freelist ≡ mem ∷ rest
    → (s.entry (frame_of pgdir) (pdx va)).present ≡ true
    → (ptr_of s pgdir va).table ≢ frame_of pgdir
    → frame_of mem ≢ frame_of pgdir
    → frame_of mem ≢ (ptr_of s pgdir va).table
    → pte_of s pgdir va ≡ zero_pte
    → s.cnt 0 ≡ 0
    → (t : Machine) × (copyuvm_cow pgdir va s ≡ done (some pgdir, t))
      × (t.freelist ≡ rest)
      × ((pte_of t pgdir va).present ≡ false)
unfolding copyuvm_cow
copyuvm_cow_absent s pgdir va mem rest sound free walked apart out out' absent none_counted = (
  copied (ptr_of s pgdir va) mem rest s,
  bind_done (walkpgdir pgdir va false) (cow_at pgdir) (walkpgdir_present pgdir va false s walked)
      ∙ cow_at_shared pgdir (ptr_of s pgdir va) s mem rest (grind arith) (grind arith) free
          (frame_in_range s.kend mem (head_of_All _ s.freelist mem rest free sound.valid)),
  refl,
  grind arith,
)
