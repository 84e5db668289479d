-- ===== src/Tests/Paging.antt =====
-- A machine with one address space: the directory is frame 512, its page table frame 513, and the
-- user page at 0x1000 frame 514, which two processes share. Frames 768 and 769 are free.
use cs333_os_labs.Kalloc.{Machine, Pte, bad_page, frame_of, zero_pte}
use cs333_os_labs.Kalloc.FreeList.{IsSound}
use cs333_os_labs.Prelude.{
  [], arith, false, if◌then◌else◌, refl, some, true, ℕ, ◌&&◌, ◌+◌, ◌==◌, ◌∷◌, ◌≡◌, ◌≢◌,
}
use cs333_os_labs.Prelude.Outcome.{done}
use cs333_os_labs.Prelude.Outcome.Keeps.{Keeps}
use cs333_os_labs.Vm.Fork.{copyuvm_cow}
use cs333_os_labs.Vm.Fork.Cow.{
  IsApart, copyuvm_cow_absent, copyuvm_cow_counts, copyuvm_cow_splits, pte_of, ptr_of, user_byte,
}
use cs333_os_labs.Vm.Space.{deallocuvm, user_perm}
use cs333_os_labs.Vm.Space.Shrink.{GivesBack, IsMapped, deallocuvm_page}
use cs333_os_labs.Vm.Table.{mappages}
use cs333_os_labs.Vm.Table.Sound.{mappages-IsSound}

abbrev directory : ℕ
directory = 0x80200000

abbrev directory_entry : Pte
directory_entry = record { frame = 513; present = true; writable = true; user = true; other = 0 }

abbrev shared_entry : Pte
shared_entry = record { frame = 514; present = true; writable = false; user = true; other = 0 }

abbrev entries : ℕ → ℕ → Pte
entries f i =
    if f == 512 && i == 0
    then directory_entry
    else if f == 513 && i == 1
    then shared_entry
    else zero_pte

abbrev machine : Machine
machine = record {
  kend = 0x80100000;
  kdata = 0x80108000;
  use_lock = true;
  freelist = 0x80300000 ∷ 0x80301000 ∷ [];
  freepg_cnt = 2;
  cnt = λ f. if f == 514 then 2 else 0;
  bytes = λ f off. if f == 514 then 65 else 0;
  entry = entries;
}

-- The other process is gone.
abbrev alone : Machine
alone = record machine { cnt = λ f. if f == 514 then 1 else 0 }

machine-IsSound : IsSound machine
unfolding bad_page
machine-IsSound = record { counted = refl; linked = omega arith; valid = (refl, (refl, tt)) }

machine-IsApart : IsApart machine directory 0x1000 0x80300000
machine-IsApart = record {
  walked = refl;
  backed = omega arith;
  not_directory = omega arith;
  not_table = omega arith;
  table_apart = omega arith;
  not_page = omega arith;
}

copyuvm_cow_splits_example :
    (t : Machine) × (copyuvm_cow directory 0x1000 machine ≡ done (some directory, t))
    × ((off : ℕ) → user_byte t directory 0x1000 off ≡ user_byte machine directory 0x1000 off)
    × ((pte_of t directory 0x1000).writable ≡ true)
    × ((pte_of t directory 0x1000).frame ≡ frame_of 0x80300000)
    × ((pte_of t directory 0x1000).frame ≢ (pte_of machine directory 0x1000).frame)
    × (t.bytes (pte_of machine directory 0x1000).frame
        ≡ machine.bytes (pte_of machine directory 0x1000).frame)
    × (t.freelist ≡ 0x80301000 ∷ [])
copyuvm_cow_splits_example =
    copyuvm_cow_splits machine directory 0x1000 0x80300000 (0x80301000 ∷ []) machine-IsSound refl
      machine-IsApart (omega arith)

copyuvm_cow_counts_example :
    (t : Machine) × (copyuvm_cow directory 0x1000 machine ≡ done (some directory, t))
    × (t.cnt (frame_of 0x80300000) ≡ 1)
    × (t.cnt (pte_of machine directory 0x1000).frame + 1
        ≡ machine.cnt (pte_of machine directory 0x1000).frame)
    × ((g : ℕ)
        → g ≢ frame_of 0x80300000
        → g ≢ (pte_of machine directory 0x1000).frame
        → t.cnt g ≡ machine.cnt g)
copyuvm_cow_counts_example =
    copyuvm_cow_counts machine directory 0x1000 0x80300000 (0x80301000 ∷ []) machine-IsSound refl
      machine-IsApart (omega arith) refl (omega arith) (omega arith)

-- The page at 0x2000 is not present.
copyuvm_cow_absent_example :
    (t : Machine) × (copyuvm_cow directory 0x2000 machine ≡ done (some directory, t))
    × (t.freelist ≡ 0x80301000 ∷ [])
    × ((pte_of t directory 0x2000).present ≡ false)
copyuvm_cow_absent_example =
    copyuvm_cow_absent machine directory 0x2000 0x80300000 (0x80301000 ∷ []) machine-IsSound refl
      refl (omega arith) (omega arith) (omega arith) refl refl

machine-IsMapped : IsMapped (ptr_of machine directory 0x1000) machine
unfolding bad_page
machine-IsMapped = record {
  present = refl;
  not_zero = omega arith;
  backed = omega arith;
  free_ok = refl;
  counted = omega arith;
  word = omega arith;
}

deallocuvm_page_example :
    (t : Machine) × (deallocuvm directory 0x2000 0x1000 machine ≡ done (0x1000, t))
    × GivesBack (ptr_of machine directory 0x1000) machine t
deallocuvm_page_example =
    deallocuvm_page machine directory 0x2000 0x1000 (omega arith) (omega arith) (omega arith)
      (omega arith) refl machine-IsMapped

mappages-IsSound_example : Keeps IsSound (mappages directory 0x2000 0x3000 0x400000 user_perm)
mappages-IsSound_example = mappages-IsSound directory 0x2000 0x3000 0x400000 user_perm (omega arith)
