-- ===== src/Memory.antt =====
-- lab6/xv6-public/string.c: the byte routines, over a memory of bytes by address. Addresses do not
-- wrap; a `char` is its value as an `uchar`. What a routine writes, it returns as a new memory.
pub mod Move
pub mod Strings
use mathlib.Core.Option
use cs333_os_labs.Prelude.{
  Option, if◌then◌else◌, ltb, none, not, some, suc, zero, ℕ, ◌%◌, ◌&&◌, ◌+◌, ◌-◌, ◌==◌,
}

abbrev pub Mem : Type 0
Mem = ℕ → ℕ

abbrev pub store : Mem → ℕ → ℕ → Mem
store m a v b = if a == b then v else m b

-- `memset`. The aligned case stores words of four equal bytes, which is the same bytes.
unfoldable pub memset : ℕ → ℕ → ℕ → Mem → Mem
memset dst c zero m = m
memset dst c (suc n) m = memset (dst + 1) c n (store m dst (c % 256))

-- The two loops of `memmove`.
unfoldable pub copy_up : ℕ → ℕ → ℕ → Mem → Mem
copy_up zero d s m = m
copy_up (suc n) d s m = copy_up n (d + 1) (s + 1) (store m d (m s))

unfoldable pub copy_down : ℕ → ℕ → ℕ → Mem → Mem
copy_down zero d s m = m
copy_down (suc n) d s m = copy_down n (d - 1) (s - 1) (store m (d - 1) (m (s - 1)))

unfoldable pub memmove : ℕ → ℕ → ℕ → Mem → Mem
memmove dst src n m =
    if ltb src dst && ltb dst (src + n)
    then copy_down n (dst + n) (src + n) m
    else copy_up n dst src m

unfoldable pub memcpy : ℕ → ℕ → ℕ → Mem → Mem
memcpy dst src n m = memmove dst src n m

-- The difference of two bytes, as an int: the sign and the size.
pub data Diff : Type 0 where
  same : Diff
  differ : ℕ → ℕ → Diff

unfoldable pub memcmp : ℕ → ℕ → ℕ → Mem → Diff
memcmp v1 v2 zero m = same
memcmp v1 v2 (suc n) m =
    let rest = memcmp (v1 + 1) (v2 + 1) n m in if m v1 == m v2 then rest else differ (m v1) (m v2)

unfoldable pub strncmp : ℕ → ℕ → ℕ → Mem → Diff
strncmp p q zero m = same
strncmp p q (suc n) m =
    let rest = strncmp (p + 1) (q + 1) n m in
    if not (m p == 0) && m p == m q then rest else if m p == m q then same else differ (m p) (m q)

-- The second loop of `strncpy`.
unfoldable pub pad : ℕ → ℕ → Mem → Mem
pad zero s m = m
pad (suc n) s m = pad n (s + 1) (store m s 0)

unfoldable pub strncpy : ℕ → ℕ → ℕ → Mem → Mem
strncpy s t zero m = m
strncpy s t (suc n) m =
    let m' = store m s (m t) in
    let stopped = pad n (s + 1) m' in
    let rest = strncpy (s + 1) (t + 1) n m' in if m t == 0 then stopped else rest

-- `safestrcpy` once `n` is known to be positive, for `n = suc k`.
unfoldable pub copy_string : ℕ → ℕ → ℕ → Mem → Mem
copy_string s t zero m = store m s 0
copy_string s t (suc k) m =
    let m' = store m s (m t) in
    let stopped = store m' (s + 1) 0 in
    let rest = copy_string (s + 1) (t + 1) k m' in if m t == 0 then stopped else rest

unfoldable pub safestrcpy : ℕ → ℕ → ℕ → Mem → Mem
safestrcpy s t zero m = m
safestrcpy s t (suc k) m = copy_string s t k m

-- `strlen`; `none` where no NUL stands among the `fuel` bytes from `s` on.
unfoldable pub strlen : ℕ → ℕ → Mem → Option ℕ
strlen zero s m = none
strlen (suc fuel) s m =
    let rest = Option.map (λ n. n + 1) (strlen fuel (s + 1) m) in if m s == 0 then some 0 else rest
