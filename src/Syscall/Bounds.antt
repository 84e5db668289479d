-- ===== src/Syscall/Bounds.antt =====
-- lab6/xv6-public/syscall.c: where the arguments of a system call lie.
use cs333_os_labs.Kalloc.{kernbase}
use cs333_os_labs.Memory.{Mem}
use cs333_os_labs.Prelude.{
  Bool-cases, Option-cases, arith, false, inl, inr, some, subst, suc, zero, ℕ, ◌+◌, ◌-◌, ◌<◌, ◌==◌,
  ◌≡◌, ◌≢◌, ◌≤◌,
}
use cs333_os_labs.Syscall.{argint, argptr, check_ptr, fetchstr, find_nul}

check_ptr_within :
    (sz size i p : ℕ)
    → sz ≤ kernbase
    → check_ptr sz size (some i) ≡ some p
    → (p < sz) × (p + size ≤ sz)
unfolding check_ptr
check_ptr_within sz size i p small h = ground arith

-- Where argptr succeeds, in a process of at most KERNBASE bytes, the pointer lies in the address
-- space of the process and so does the whole block of the size asked for.
pub argptr_within :
    (sz esp n size p : ℕ) (m : Mem)
    → sz ≤ kernbase
    → argptr sz esp m n size ≡ some p
    → (p < sz) × (p + size ≤ sz)
unfolding argptr check_ptr
argptr_within sz esp n size p m small h = elim (Option-cases (argint sz esp m n)) [
  | inl e ↦ ground (arith, e, h)
  | inr (i, e) ↦ ground (arith, e, h)
]

-- What a string of a system call is: it ends inside of the process, at its first NUL.
abbrev pub IsString : ℕ → Mem → ℕ → ℕ → Type 0
IsString sz m addr len =
    (addr + len < sz) × (m (addr + len) ≡ 0) × ((i : ℕ) → i < len → m (addr + i) ≢ 0)

-- The loop of `fetchstr`, that has seen `k` bytes, stops at the first NUL of the next `n`.
find_nul_lem :
    (n k s r : ℕ) (m : Mem)
    → find_nul n k s m ≡ some r
    → (k ≤ r) × (r < k + n) × (m (s + (r - k)) ≡ 0) × ((i : ℕ) → i < r - k → m (s + i) ≢ 0)
unfolding find_nul
find_nul_lem zero k s r m h = cc
find_nul_lem (suc n) k s r m h = elim (Bool-cases (m s == 0)) [
  | inl e ↦
      let same : k ≡ r = ground (arith, h, e) in
      (omega arith, omega arith, ground (arith, e, same), λ i l. absurd (omega arith))
  | inr e ↦
      let (low, high, nul, before) = find_nul_lem n (k + 1) (s + 1) r m (ground (arith, h, e)) in
      let a : s + (r - k) ≡ s + 1 + (r - (k + 1)) = omega arith in
      (omega arith, omega arith, rw a nul, keeps e low before)
]
  where
    keeps :
        (m s == 0) ≡ false
        → k + 1 ≤ r
        → ((i : ℕ) → i < r - (k + 1) → m (s + 1 + i) ≢ 0)
        → (i : ℕ) → i < r - k
        → m (s + i) ≢ 0
    keeps e low before zero l = ground (arith, e)
    keeps e low before (suc i) l = let b = before i (omega arith) in ground (arith, b)

-- The string that fetchstr accepts ends inside of the process: its length is the number of bytes
-- before its first NUL, which lies below the size of the process.
fetchstr_lem : (sz addr len : ℕ) (m : Mem) → fetchstr sz m addr ≡ some len → IsString sz m addr len
unfolding fetchstr
fetchstr_lem sz addr len m h =
    let inside : addr < sz = ground (arith, h) in
    let found_nul : find_nul (sz - addr) 0 addr m ≡ some len = ground (arith, h) in
    let (low, high, nul, before) = find_nul_lem (sz - addr) 0 addr len m found_nul in
    let e : len - 0 ≡ len = omega arith in
    (omega arith, subst (λ x. m (addr + x) ≡ 0) e nul, λ i l. before i (omega arith))
