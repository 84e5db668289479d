-- ===== src/Memory/Strings.antt =====
-- lab6/xv6-public/string.c, safestrcpy, strncpy and strlen: C strings in the memory.
use cs333_os_labs.Memory.{Mem, copy_string, safestrcpy, store, strlen}
use cs333_os_labs.Prelude.{
  Bool-cases, Option-cases, arith, false, inl, inr, some, suc, true, zero, ℕ, ◌+◌, ◌<◌, ◌==◌, ◌≡◌,
  ◌≢◌, ◌≤◌, ◌⊎◌,
}

-- A NUL stands among the `n` bytes from `s` on.
abbrev pub Terminated : ℕ → ℕ → Mem → Type 0
Terminated s n m = (i : ℕ) × (i < n) × (m (s + i) ≡ 0)

copy_string_terminates : (k s t : ℕ) (m : Mem) → Terminated s (suc k) (copy_string s t k m)
unfolding copy_string
copy_string_terminates zero s t m = (0, omega arith, ground arith)
copy_string_terminates (suc k) s t m = elim (Bool-cases (m t == 0)) [
  | inl e ↦ rw e (1, omega arith, ground arith)
  | inr e ↦
      let (i, l, z) = copy_string_terminates k (s + 1) (t + 1) (store m s (m t)) in
      let f : s + suc i ≡ s + 1 + i = omega arith in rw e (suc i, omega arith, rw f z)
]

copy_string_frame : (k s t a : ℕ) (m : Mem) → (a < s) ⊎ (s + k < a) → copy_string s t k m a ≡ m a
unfolding copy_string
copy_string_frame zero s t a m h = ground arith
copy_string_frame (suc k) s t a m h =
    ground (arith, copy_string_frame k (s + 1) (t + 1) a (store m s (m t)))

-- safestrcpy leaves a NUL among the `n` bytes of the destination, for a positive `n`, whatever
-- the source is, and writes nothing outside these bytes.
safestrcpy_terminates :
    (s t n : ℕ) (m : Mem)
    → 0 < n
    → Terminated s n (safestrcpy s t n m)
      × ((a : ℕ) → (a < s) ⊎ (s + n ≤ a) → safestrcpy s t n m a ≡ m a)
unfolding safestrcpy
safestrcpy_terminates s t zero m h = elim h [ ]
safestrcpy_terminates s t (suc k) m h =
    (copy_string_terminates k s t m, λ a out. copy_string_frame k s t a m (widen a out))
  where
    widen : (a : ℕ) → (a < s) ⊎ (s + suc k ≤ a) → (a < s) ⊎ (s + k < a)
    widen a (inl l) = inl l
    widen a (inr l) = inr (omega arith)

abbrev pub FirstNul : ℕ → ℕ → Mem → Type 0
FirstNul s n m = (m (s + n) ≡ 0) × ((i : ℕ) → i < n → m (s + i) ≢ 0)

first_here : (s n : ℕ) (m : Mem) → n ≡ 0 → (m s == 0) ≡ true → FirstNul s n m
first_here s n m z e = (ground arith, λ i l. absurd (omega arith))

first_later :
    (s n k : ℕ) (m : Mem) → n ≡ k + 1 → (m s == 0) ≡ false → FirstNul (s + 1) k m → FirstNul s n m
first_later s n k m e ne (z, before) = (ground (arith, z), keeps)
  where
    keeps : (i : ℕ) → i < n → m (s + i) ≢ 0
    keeps zero l = ground arith
    keeps (suc i) l = let b = before i (omega arith) in ground (arith, b)

strlen_first : (fuel s n : ℕ) (m : Mem) → strlen fuel s m ≡ some n → FirstNul s n m
unfolding strlen
strlen_first zero s n m h = cc
strlen_first (suc fuel) s n m h = elim (Bool-cases (m s == 0)) [
  | inl e ↦ first_here s n m (ground arith) e
  | inr e ↦ elim (Option-cases (strlen fuel (s + 1) m)) [
    | inl f ↦ absurd (ground arith)
    | inr (k, f) ↦ first_later s n k m (ground arith) e (strlen_first fuel (s + 1) k m f)
  ]
]

strlen_total : (fuel s : ℕ) (m : Mem) → Terminated s fuel m → (n : ℕ) × (strlen fuel s m ≡ some n)
unfolding strlen
strlen_total zero s m (i, l, z) = elim l [ ]
strlen_total (suc fuel) s m (i, l, z) = elim (Bool-cases (m s == 0)) [
  | inl e ↦ (0, rw e)
  | inr e ↦ let (n, hit) = strlen_total fuel (s + 1) m (later i l z e) in (n + 1, rw (e, hit))
]
  where
    later : (j : ℕ) → j < suc fuel → m (s + j) ≡ 0 → (m s == 0) ≡ false → Terminated (s + 1) fuel m
    later zero l' z' e' = ground arith
    later (suc j) l' z' e' = (j, omega arith, ground (arith, z'))

-- Where a NUL stands among the bytes that strlen may look at, it returns, with the number of
-- bytes before the first one.
strlen_lem :
    (fuel s : ℕ) (m : Mem)
    → Terminated s fuel m
    → (n : ℕ) × (strlen fuel s m ≡ some n) × FirstNul s n m
strlen_lem fuel s m h = let (n, e) = strlen_total fuel s m h in (n, e, strlen_first fuel s n m e)
