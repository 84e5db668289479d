-- ===== src/Memory/Move.antt =====
-- lab6/xv6-public/string.c, memmove, memset and memcmp: the bytes afterwards.
use cs333_os_labs.Memory.{Mem, copy_down, copy_up, memcmp, memmove, memset, same, store}
use cs333_os_labs.Prelude.{
  Bool-cases, arith, false, if◌then◌else◌, inl, inr, leb, ltb, refl, suc, zero, ℕ, ◌%◌, ◌&&◌, ◌+◌,
  ◌-◌, ◌<◌, ◌↔◌, ◌∙◌, ◌≡◌, ◌≤◌, ◌⊎◌,
}

-- The memory after `n` bytes from `src` have been copied to `dst` all at once.
abbrev pub moved : ℕ → ℕ → ℕ → Mem → Mem
moved dst src n m a = if leb dst a && ltb a (dst + n) then m (src + (a - dst)) else m a

copy_up_step :
    (n d s a : ℕ) (m : Mem)
    → (d ≤ s) ⊎ (s + suc n ≤ d)
    → moved (d + 1) (s + 1) n (store m d (m s)) a ≡ moved d s (suc n) m a
copy_up_step n d s a m (inl h) = ground arith
copy_up_step n d s a m (inr h) = ground arith

copy_up_lem : (n d s a : ℕ) (m : Mem) → (d ≤ s) ⊎ (s + n ≤ d) → copy_up n d s m a ≡ moved d s n m a
unfolding copy_up
copy_up_lem zero d s a m h = ground arith
copy_up_lem (suc n) d s a m h =
    copy_up_lem n (d + 1) (s + 1) a (store m d (m s)) (shorter h) ∙ copy_up_step n d s a m h
  where
    shorter : (d ≤ s) ⊎ (s + suc n ≤ d) → (d + 1 ≤ s + 1) ⊎ (s + 1 + n ≤ d + 1)
    shorter (inl l) = inl (omega arith)
    shorter (inr l) = inr (omega arith)

copy_down_step :
    (n d s a : ℕ) (m : Mem)
    → s ≤ d
    → moved d s n (store m (d + n) (m (s + n))) a ≡ moved d s (suc n) m a
copy_down_step n d s a m h = ground arith

copy_down_lem : (n d s a : ℕ) (m : Mem) → s ≤ d → copy_down n (d + n) (s + n) m a ≡ moved d s n m a
unfolding copy_down
copy_down_lem zero d s a m h = ground arith
copy_down_lem (suc n) d s a m h =
    let e : d + suc n - 1 ≡ d + n = omega arith in
    let f : s + suc n - 1 ≡ s + n = omega arith in
    rw (e, f) (copy_down_lem n d s a (store m (d + n) (m (s + n))) h ∙ copy_down_step n d s a m h)

-- memmove copies the whole range as it was before, however the two ranges overlap, and changes no
-- byte outside the destination.
pub memmove_lem : (dst src n a : ℕ) (m : Mem) → memmove dst src n m a ≡ moved dst src n m a
unfolding memmove
memmove_lem dst src n a m = elim (Bool-cases (ltb src dst && ltb dst (src + n))) [
  | inl overlap ↦ rw overlap (copy_down_lem n dst src a m (ground arith))
  | inr safe ↦ rw safe (copy_up_lem n dst src a m (apart dst src n safe))
]
  where
    apart : (d s k : ℕ) → (ltb s d && ltb d (s + k)) ≡ false → (d ≤ s) ⊎ (s + k ≤ d)
    apart d s k h = ground arith

-- memset gives every byte of the range the low byte of its argument, and changes no other.
pub memset_lem :
    (dst c n a : ℕ) (m : Mem)
    → memset dst c n m a ≡ (if leb dst a && ltb a (dst + n) then c % 256 else m a)
unfolding memset
memset_lem dst c zero a m = ground arith
memset_lem dst c (suc n) a m = ground (arith, memset_lem (dst + 1) c n a (store m dst (c % 256)))

-- memcmp gives 0 exactly on equal ranges.
memcmp-same :
    (v1 v2 n : ℕ) (m : Mem)
    → (memcmp v1 v2 n m ≡ same) ↔ ((i : ℕ) → i < n → m (v1 + i) ≡ m (v2 + i))
unfolding memcmp
memcmp-same v1 v2 n m = (to v1 v2 n, from v1 v2 n)
  where
    to : (x y k : ℕ) → memcmp x y k m ≡ same → (i : ℕ) → i < k → m (x + i) ≡ m (y + i)
    to x y zero h i l = elim l [ ]
    to x y (suc k) h zero l = ground arith
    to x y (suc k) h (suc i) l =
        let later = to (x + 1) (y + 1) k (ground arith) i (omega arith) in ground (arith, later)

    from : (x y k : ℕ) → ((i : ℕ) → i < k → m (x + i) ≡ m (y + i)) → memcmp x y k m ≡ same
    from x y zero h = refl
    from x y (suc k) h = ground (
      arith,
      h 0 (omega arith),
      from (x + 1) (y + 1) k (λ (i : ℕ) (l : i < k). ground (arith, h (suc i) (omega arith))),
    )
