-- ===== src/Vm/Fork.antt =====
-- lab6/xv6-public/vm.c, copyuvm, copyuvm_cow, uva2ka and copyout: copy-on-write fork and access
-- to user memory from the kernel. The TLB flush (`lcr3`) and the output are left out.
pub mod Sound
pub mod Cow
use cs333_os_labs.Kalloc.{
  M, Machine, Pte, decr_rtable, frame_of, incr_rtable, isone_rtable, kalloc, p2v, pg_round_down,
  pgsize, uint_mod, update,
}
use cs333_os_labs.Prelude.{
  Bool, List, Option, drop, false, if◌then◌else◌, length, ltb, none, not, some, suc, take, true,
  zero, ℕ, ◌%◌, ◌*◌, ◌+◌, ◌-◌, ◌/◌,
}
use cs333_os_labs.Prelude.Outcome.{Stop, branch, halt, modify, pure, require, ◌>>=◌, ◌>>◌}
use Prim.Native.Nat.{min}
use cs333_os_labs.Vm.Space.{freevm, store_bytes}
use cs333_os_labs.Vm.Table.{Perm, PtePtr, load_pte, mappages, setupkvm, store_pte, walkpgdir}

-- `PTE_FLAGS(*pte)`, as `mappages` is handed it.
abbrev pub flags_of : Pte → Perm
flags_of pte = record { writable = pte.writable; user = pte.user; other = pte.other }

-- The parent's entry in one round of `copyuvm`, made read-only.
unfoldable pub protect : Option PtePtr → M Pte
protect none = halt Stop.missing_pte
protect (some p) = do
  pte ← load_pte p
  require pte.present Stop.absent_page
  store_pte p (record pte { writable = false })
  load_pte p

unfoldable pub copy_loop : ℕ → ℕ → ℕ → ℕ → ℕ → M (Option ℕ)
copy_loop zero pgdir d i sz = halt Stop.out_of_fuel
copy_loop (suc fuel) pgdir d i sz =
    let rest = copy_loop fuel pgdir d ((i + pgsize) % uint_mod) sz in
    branch (ltb i sz)
      (do
        p ← walkpgdir pgdir i false
        pte ← protect p
        mapped ← mappages d i pgsize (pte.frame * pgsize) (flags_of pte)
        branch mapped (do incr_rtable (p2v (pte.frame * pgsize)); rest) (do freevm d; pure none))
      (pure (some d))

unfoldable pub copy_into : ℕ → ℕ → Option ℕ → M (Option ℕ)
copy_into pgdir sz none = pure none
copy_into pgdir sz (some d) = copy_loop (sz / pgsize + 2) pgdir d 0 sz

unfoldable pub copyuvm : ℕ → ℕ → M (Option ℕ)
copyuvm pgdir sz = do d ← setupkvm; copy_into pgdir sz d

-- `memmove` of a whole page, both views of it.
unfoldable pub copy_page : ℕ → ℕ → Machine → Machine
copy_page dst src s = record s {
  bytes = update s.bytes (frame_of dst) (s.bytes (frame_of src));
  entry = update s.entry (frame_of dst) (s.entry (frame_of src));
}

-- The `else` branch of `copyuvm_cow`, after `kalloc`.
unfoldable pub cow_copy : ℕ → PtePtr → ℕ → Option ℕ → M (Option ℕ)
cow_copy pgdir p pa none = do freevm pgdir; pure none
cow_copy pgdir p pa (some mem) = do
  incr_rtable mem
  decr_rtable (p2v pa)
  modify (copy_page mem (p2v pa))
  pte ← load_pte p
  store_pte p (record pte { frame = frame_of mem; writable = true })
  pure (some pgdir)

unfoldable pub cow_at : ℕ → Option PtePtr → M (Option ℕ)
cow_at pgdir none = do freevm pgdir; pure none
cow_at pgdir (some p) = do
  pte ← load_pte p
  one ← isone_rtable (p2v (pte.frame * pgsize))
  branch one (do store_pte p (record pte { writable = true }); pure (some pgdir))
      (do r ← kalloc; cow_copy pgdir p (pte.frame * pgsize) r)

unfoldable pub copyuvm_cow : ℕ → ℕ → M (Option ℕ)
copyuvm_cow pgdir va = do p ← walkpgdir pgdir va false; cow_at pgdir p

-- The kernel address of a user page; `none` where `uva2ka` returns 0.
unfoldable pub uva2ka_at : Option PtePtr → M (Option ℕ)
uva2ka_at none = halt Stop.null_pte
uva2ka_at (some p) = do
  pte ← load_pte p
  pure (
      if not pte.present
      then none
      else if not pte.user
      then none
      else some (p2v (pte.frame * pgsize)))

unfoldable pub uva2ka : ℕ → ℕ → M (Option ℕ)
uva2ka pgdir uva = do p ← walkpgdir pgdir uva false; uva2ka_at p

-- One round of `copyout`: `none` where it returns -1.
unfoldable pub copy_chunk : ℕ → ℕ → List ℕ → Option ℕ → M Bool
copy_chunk va n buf none = pure false
copy_chunk va n buf (some pa0) = do
  modify (store_bytes (frame_of pa0) (va % pgsize) (take n buf))
  pure true

unfoldable pub copyout_loop : ℕ → ℕ → ℕ → List ℕ → M Bool
copyout_loop zero pgdir va buf = halt Stop.out_of_fuel
copyout_loop (suc fuel) pgdir va buf =
    let n = min (pgsize - va % pgsize) (length buf) in
    let rest = copyout_loop fuel pgdir ((pg_round_down va + pgsize) % uint_mod) (drop n buf) in
    branch (ltb 0 (length buf))
      (do
        pa0 ← uva2ka pgdir (pg_round_down va)
        stored ← copy_chunk va n buf pa0
        branch stored rest (pure false))
      (pure true)

-- `len` is the length of the buffer.
unfoldable pub copyout : ℕ → ℕ → List ℕ → M Bool
copyout pgdir va buf = copyout_loop (length buf + 1) pgdir va buf
