-- ===== src/Vm/Space/Shrink.antt =====
-- lab6/xv6-public/vm.c, deallocuvm: what a process that gives a page back loses, and who gets it.
use cs333_os_labs.Kalloc.{
  Machine, bad_page, decr_rtable, frame_of, junk_page, kernbase, kfree, n_frames, p2v, pg_round_up,
  pgsize, push_free, uint_mod, update, zero_pte,
}
use cs333_os_labs.Kalloc.FreeList.{kfree_referenced, kfree_unreferenced}
use cs333_os_labs.Prelude.{
  arith, false, leb, ltb, refl, suc, true, ℕ, ◌%◌, ◌*◌, ◌+◌, ◌-◌, ◌/◌, ◌<◌, ◌==◌, ◌∙◌, ◌∷◌, ◌≡◌,
  ◌≢◌, ◌≤◌, ◌⊎◌,
}
use cs333_os_labs.Prelude.Outcome.{bind_done, code, done, then_done, ◌>>◌}
use cs333_os_labs.Vm.Fork.Cow.{ptr_of}
use cs333_os_labs.Vm.Space.{dealloc_loop, deallocuvm, unmap_at, unmap_one}
use cs333_os_labs.Vm.Table.{PtePtr, load_pte, pdx, set_entry, store_pte, walkpgdir}
use cs333_os_labs.Vm.Table.Walk.{walkpgdir_present}
use native.Mathlib.Decide.{ℕ_discrete}

-- The count of the frame `f` is one less.
abbrev pub uncounted : ℕ → Machine → Machine
uncounted f s = record s { cnt = update s.cnt f ((s.cnt f + uint_mod - 1) % uint_mod) }

frame_of-p2v : (f : ℕ) → f < n_frames → frame_of (p2v (f * pgsize)) ≡ f
frame_of-p2v f h = omega arith

decr_rtable_at :
    (f : ℕ) (s : Machine)
    → f < n_frames
    → decr_rtable (p2v (f * pgsize)) s ≡ done (tt, uncounted f s)
unfolding decr_rtable code
decr_rtable_at f s h = rw (frame_of-p2v f h) (ground arith)

-- What unmap_one leaves where the page keeps other references, and where it does not.
abbrev pub unmapped : PtePtr → Machine → Machine
unmapped p s = set_entry p.table p.index zero_pte (uncounted (s.entry p.table p.index).frame s)

abbrev pub unmapped_last : PtePtr → Machine → Machine
unmapped_last p s =
    let v = p2v ((s.entry p.table p.index).frame * pgsize) in
    let u = uncounted (s.entry p.table p.index).frame s in
    set_entry p.table p.index zero_pte (push_free v (junk_page v u))

-- The entry `p` maps a page of the allocator's memory that something is counted for.
pub record IsMapped (p : PtePtr) (s : Machine) : Type 0 where
  pub present : (s.entry p.table p.index).present ≡ true
  pub not_zero : (s.entry p.table p.index).frame ≢ 0
  pub backed : (s.entry p.table p.index).frame < n_frames
  pub free_ok : bad_page s.kend (p2v ((s.entry p.table p.index).frame * pgsize)) ≡ false
  pub counted : 0 < s.cnt (s.entry p.table p.index).frame
  pub word : s.cnt (s.entry p.table p.index).frame < uint_mod

module _ (p : PtePtr) (s : Machine) (m : IsMapped p s) where
  abbrev fr : ℕ
  fr = (s.entry p.table p.index).frame

  unmap_one_shared : s.cnt fr ≢ 1 → unmap_one p s ≡ done (tt, unmapped p s)
  unfolding unmap_one load_pte store_pte code
  unmap_one_shared n =
      let v = p2v (fr * pgsize) in
      let u = uncounted fr s in
      let z : fr == 0 ≡ false = ground (arith, m.not_zero) in
      let left : u.cnt (frame_of v) ≢ 0 =
        rw (frame_of-p2v fr m.backed) (ground (arith, m.counted, m.word, n)) in
      rw (m.present, z)
        (then_done (decr_rtable v) (kfree v >> store_pte p zero_pte) (decr_rtable_at fr s m.backed)
          ∙ then_done (kfree v) (store_pte p zero_pte) (kfree_referenced v u m.free_ok left))

  unmap_one_last : s.cnt fr ≡ 1 → unmap_one p s ≡ done (tt, unmapped_last p s)
  unfolding unmap_one load_pte store_pte code
  unmap_one_last e =
      let v = p2v (fr * pgsize) in
      let u = uncounted fr s in
      let z : fr == 0 ≡ false = ground (arith, m.not_zero) in
      let none_left : u.cnt (frame_of v) ≡ 0 = rw (frame_of-p2v fr m.backed) (ground (arith, e)) in
      rw (m.present, z)
        (then_done (decr_rtable v) (kfree v >> store_pte p zero_pte) (decr_rtable_at fr s m.backed)
          ∙ then_done (kfree v) (store_pte p zero_pte) (kfree_unreferenced v u m.free_ok none_left))

-- A range of one page is one round of the loop.
loop_one :
    (s t : Machine) (fuel pgdir a oldsz : ℕ)
    → a < oldsz
    → oldsz ≤ a + pgsize
    → oldsz ≤ kernbase
    → (s.entry (frame_of pgdir) (pdx a)).present ≡ true
    → unmap_one (ptr_of s pgdir a) s ≡ done (tt, t)
    → dealloc_loop (suc (suc fuel)) pgdir a oldsz s ≡ done (tt, t)
unfolding dealloc_loop unmap_at code
loop_one s t fuel pgdir a oldsz l m h walked run =
    let more : ltb a oldsz ≡ true = ground (arith, l) in
    let over : ltb ((a + pgsize) % uint_mod) oldsz ≡ false = ground (arith, l, m, h) in
    rw more (
      bind_done (walkpgdir pgdir a false) _ (walkpgdir_present pgdir a false s walked)
      ∙ then_done (unmap_one (ptr_of s pgdir a)) _ run
      ∙ rw over refl)

deallocuvm_one :
    (s t : Machine) (pgdir oldsz newsz : ℕ)
    → newsz < oldsz
    → pg_round_up newsz < oldsz
    → oldsz ≤ pg_round_up newsz + pgsize
    → oldsz ≤ kernbase
    → (s.entry (frame_of pgdir) (pdx (pg_round_up newsz))).present ≡ true
    → unmap_one (ptr_of s pgdir (pg_round_up newsz)) s ≡ done (tt, t)
    → deallocuvm pgdir oldsz newsz s ≡ done (newsz, t)
unfolding deallocuvm code
deallocuvm_one s t pgdir oldsz newsz k l m h walked run =
    let shrinks : leb oldsz newsz ≡ false = ground (arith, k) in
    let two : oldsz / pgsize + 2 ≡ suc (suc (oldsz / pgsize)) = omega arith in
    rw (shrinks, two)
      (then_done (dealloc_loop (suc (suc (oldsz / pgsize))) pgdir (pg_round_up newsz) oldsz) _
        (loop_one s t (oldsz / pgsize) pgdir (pg_round_up newsz) oldsz l m h walked run))

-- What the process and the allocator have once the page behind `p` is given back: the entry is
-- empty, the page has one reference less, it is free if it had no other, and is as before if it
-- had; no other count changes, and no other entry of a table that is not the page.
pub record GivesBack (p : PtePtr) (s t : Machine) : Type 0 where
  pub gone : t.entry p.table p.index ≡ zero_pte
  pub count : t.cnt (s.entry p.table p.index).frame + 1 ≡ s.cnt (s.entry p.table p.index).frame
  pub other_counts : (g : ℕ) → g ≢ (s.entry p.table p.index).frame → t.cnt g ≡ s.cnt g
  pub freed :
      s.cnt (s.entry p.table p.index).frame ≡ 1
      → t.freelist ≡ p2v ((s.entry p.table p.index).frame * pgsize) ∷ s.freelist
  pub shared :
      s.cnt (s.entry p.table p.index).frame ≢ 1 → (t.freelist ≡ s.freelist) × (t.bytes ≡ s.bytes)
  pub other_entries :
      (a i : ℕ)
      → a ≢ (s.entry p.table p.index).frame
      → (a ≢ p.table) ⊎ (i ≢ p.index)
      → t.entry a i ≡ s.entry a i

module _ (p : PtePtr) (s : Machine) (m : IsMapped p s) where
  unmapped-GivesBack : s.cnt (s.entry p.table p.index).frame ≢ 1 → GivesBack p s (unmapped p s)
  unmapped-GivesBack n = record {
    gone = ground arith;
    count = ground (arith, m.counted, m.word);
    other_counts = λ g h. ground (arith, h);
    freed = λ e. absurd (n e);
    shared = λ k. (refl, refl);
    other_entries = λ a i h k. ground (arith, k);
  }

  unmapped_last-GivesBack :
      s.cnt (s.entry p.table p.index).frame ≡ 1 → GivesBack p s (unmapped_last p s)
  unfolding push_free junk_page
  unmapped_last-GivesBack e = record {
    gone = ground arith;
    count = ground (arith, e);
    other_counts = λ g h. ground (arith, h);
    freed = λ k. refl;
    shared = λ n. absurd (n e);
    other_entries = λ a i h k. ground (arith, frame_of-p2v _ m.backed, h, k);
  }

-- deallocuvm of a range of one page, which the directory maps, at a frame that is not 0 and has a
-- count of at least one, returns the new size. The entry of the page is zero then and the count
-- of its frame one less; if that was the last reference, the page is the first free one, and
-- otherwise the free list and all bytes are as before. No other count changes, and no other entry
-- of a frame that is not the page.
pub deallocuvm_page :
    (s : Machine) (pgdir oldsz newsz : ℕ)
    → newsz < oldsz
    → pg_round_up newsz < oldsz
    → oldsz ≤ pg_round_up newsz + pgsize
    → oldsz ≤ kernbase
    → (s.entry (frame_of pgdir) (pdx (pg_round_up newsz))).present ≡ true
    → IsMapped (ptr_of s pgdir (pg_round_up newsz)) s
    → (t : Machine) × (deallocuvm pgdir oldsz newsz s ≡ done (newsz, t))
      × GivesBack (ptr_of s pgdir (pg_round_up newsz)) s t
deallocuvm_page s pgdir oldsz newsz k l m h walked mapped =
    let p = ptr_of s pgdir (pg_round_up newsz) in
    let runs = λ (t : Machine). deallocuvm_one s t pgdir oldsz newsz k l m h walked in
    elim (ℕ_discrete (s.cnt (s.entry p.table p.index).frame) 1) [
      | yes e ↦ (
        unmapped_last p s,
        runs (unmapped_last p s) (unmap_one_last p s mapped e),
        unmapped_last-GivesBack p s mapped e,
      )
      | no n ↦ (
        unmapped p s,
        runs (unmapped p s) (unmap_one_shared p s mapped n),
        unmapped-GivesBack p s mapped n,
      )
    ]
