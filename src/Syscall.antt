-- ===== src/Syscall.antt =====
-- lab6/xv6-public/syscall.c and sysproc.c: how system calls fetch their arguments from the stack of
-- the process, and the calls on processes and memory. `sz` is the size of the process, `esp` its
-- stack pointer, and the memory that of the process.
pub mod Bounds
use mathlib.Core.Option
use cs333_os_labs.Kalloc.{count_freepg, p2v, pgsize, uint_mod}
use cs333_os_labs.Memory.{Mem}
use cs333_os_labs.Prelude.{
  Option, false, if◌then◌else◌, leb, ltb, none, some, suc, zero, ℕ, ◌%◌, ◌*◌, ◌+◌, ◌-◌, ◌==◌, ◌^◌,
  ◌||◌,
}
use cs333_os_labs.Prelude.Outcome.{pure, ◌>>=◌, ◌>>◌}
use cs333_os_labs.Proc.Life.{K, growproc, in_memory, load_proc}
use cs333_os_labs.Vm.Table.{PtePtr, walkpgdir}

-- The word at an address, low byte first.
abbrev pub load_word : Mem → ℕ → ℕ
load_word m a = m a + 256 * m (a + 1) + 65536 * m (a + 2) + 16777216 * m (a + 3)

-- `none` where a function returns -1.
unfoldable pub fetchint : ℕ → Mem → ℕ → Option ℕ
fetchint sz m addr =
    if leb sz addr || ltb sz ((addr + 4) % uint_mod) then none else some (load_word m addr)

-- The loop of `fetchstr` over the `n` bytes from `s` to the end of the process; `k` is `s - *pp`.
unfoldable pub find_nul : ℕ → ℕ → ℕ → Mem → Option ℕ
find_nul zero k s m = none
find_nul (suc n) k s m =
    let rest = find_nul n (k + 1) (s + 1) m in if m s == 0 then some k else rest

unfoldable pub fetchstr : ℕ → Mem → ℕ → Option ℕ
fetchstr sz m addr = if leb sz addr then none else find_nul (sz - addr) 0 addr m

unfoldable pub argint : ℕ → ℕ → Mem → ℕ → Option ℕ
argint sz esp m n = fetchint sz m ((esp + 4 + 4 * n) % uint_mod)

-- The test of `argptr` on the argument; `size` is the bit pattern of an int.
unfoldable pub check_ptr : ℕ → ℕ → Option ℕ → Option ℕ
check_ptr sz size none = none
check_ptr sz size (some i) =
    if leb (2 ^ 31) size || leb sz i || ltb sz ((i + size) % uint_mod) then none else some i

unfoldable pub argptr : ℕ → ℕ → Mem → ℕ → ℕ → Option ℕ
argptr sz esp m n size = check_ptr sz size (argint sz esp m n)

-- The address of the string, and its length.
unfoldable pub check_str : ℕ → Mem → Option ℕ → Option (ℕ × ℕ)
check_str sz m none = none
check_str sz m (some addr) = Option.map (λ len. (addr, len)) (fetchstr sz m addr)

unfoldable pub argstr : ℕ → ℕ → Mem → ℕ → Option (ℕ × ℕ)
argstr sz esp m n = check_str sz m (argint sz esp m n)

-- `PTE_ADDR(pte)`, of the pointer, as the source has it.
abbrev pte_address : Option PtePtr → ℕ
pte_address none = 0
pte_address (some p) = p2v (p.table * pgsize)

module _ {F : Type 0} where
  unfoldable pub sys_getpid : ℕ → K F ℕ
  sys_getpid me = do p ← load_proc me; pure p.pid

  -- `sys_sbrk` with its argument fetched: the old size, or `none` where it returns -1.
  unfoldable pub sys_sbrk : ℕ → ℕ → K F (Option ℕ)
  sys_sbrk me n = do
    p ← load_proc me
    grown ← growproc me n
    pure (if grown then some p.sz else none)

  unfoldable pub sys_get_num_free_pages : K F ℕ
  sys_get_num_free_pages = in_memory count_freepg

  unfoldable pub sys_get_phy_addr : ℕ → ℕ → K F ℕ
  sys_get_phy_addr me n = do
    p ← load_proc me
    r ← in_memory (walkpgdir p.pgdir n false)
    pure (pte_address r)
