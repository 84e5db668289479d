-- ===== src/Fs/Transfer.antt =====
-- lab6/xv6-public/fs.c: readi and writei. The device table `devsw` is a parameter: console.c fills
-- it.
pub mod Array
pub mod Update
pub mod File
pub mod RoundTrip
use cs333_os_labs.Fs.{V, bsize, maxfile, t_dev}
use cs333_os_labs.Fs.Content.{bmap}
use cs333_os_labs.Fs.Inodes.{edit_copy, iupdate, load_inode}
use cs333_os_labs.Kalloc.{uint_mod, update}
use cs333_os_labs.Prelude.{
  List, Option, [], drop, get_or, if◌then◌else◌, leb, length, ltb, none, some, suc, take, zero, ℕ,
  ◌%◌, ◌&&◌, ◌*◌, ◌++◌, ◌+◌, ◌-◌, ◌/◌, ◌==◌, ◌||◌, ◌∷◌,
}
use cs333_os_labs.Prelude.Outcome.{Stop, branch, halt, modify, pure, read, ◌>>=◌, ◌>>◌}
use Prim.Native.Nat.{min}

-- The functions of one device; `none` where one returns -1.
pub record Device : Type 0 where
  pub read_device : ℕ → ℕ → V (Option (List ℕ))
  pub write_device : ℕ → List ℕ → V (Option ℕ)

abbrev pub Devsw : Type 0
Devsw = ℕ → Option Device

abbrev pub ndev : ℕ
ndev = 10

-- The device with a major number, a bit pattern of 16 bits: negative from 2^15 on.
abbrev pub device_of : Devsw → ℕ → Option Device
device_of devsw major = if leb ndev major then none else devsw major

-- `n` bytes from `at` on.
abbrev pub slice : ℕ → ℕ → (ℕ → ℕ) → List ℕ
slice zero at d = []
slice (suc n) at d = d at ∷ slice n (at + 1) d

-- The bytes of a block after `memmove(d + at, xs, …)`.
abbrev pub overwrite : ℕ → List ℕ → (ℕ → ℕ) → ℕ → ℕ
overwrite at xs d k = if leb at k && ltb k (at + length xs) then get_or xs (k - at) 0 else d k

-- The loop of `readi` for `n` bytes from `off` on.
unfoldable pub read_loop : ℕ → ℕ → ℕ → ℕ → V (List ℕ)
read_loop zero i off n = branch (n == 0) (pure []) (halt Stop.out_of_fuel)
read_loop (suc fuel) i off n =
    let m = min n (bsize - off % bsize) in
    let rest = read_loop fuel i (off + m) (n - m) in
    branch (n == 0) (pure []) (do
      b ← bmap i (off / bsize)
      xs ← read (λ v. slice m (off % bsize) (v.bytes b))
      ys ← rest
      pure (xs ++ ys))

-- The loop of `writei` for the bytes `xs`: the offset after the last.
unfoldable pub write_loop : ℕ → ℕ → ℕ → List ℕ → V ℕ
write_loop zero i off xs = branch (length xs == 0) (pure off) (halt Stop.out_of_fuel)
write_loop (suc fuel) i off xs =
    let m = min (length xs) (bsize - off % bsize) in
    let rest = write_loop fuel i (off + m) (drop m xs) in
    branch (length xs == 0) (pure off) (do
      b ← bmap i (off / bsize)
      modify (λ v. record v {
        bytes = update v.bytes b (overwrite (off % bsize) (take m xs) (v.bytes b));
      })
      rest)

-- Each round moves a byte at least, so a round for each byte is enough.
unfoldable pub read_file : ℕ → ℕ → ℕ → ℕ → V (Option (List ℕ))
read_file i size off n =
    let k = if ltb size (off + n) then size - off else n in
    branch (ltb size off || ltb ((off + n) % uint_mod) off) (pure none)
      (do xs ← read_loop k i off k; pure (some xs))

unfoldable pub read_dev : ℕ → ℕ → Option Device → V (Option (List ℕ))
read_dev i n none = pure none
read_dev i n (some d) = d.read_device i n

unfoldable pub readi : Devsw → ℕ → ℕ → ℕ → V (Option (List ℕ))
readi devsw i off n = do
  x ← load_inode i
  branch (x.copy.type == t_dev) (read_dev i n (device_of devsw x.copy.major))
      (read_file i x.copy.size off n)

unfoldable pub grow_file : ℕ → ℕ → ℕ → V (Unit {0})
grow_file i n off = do
  x ← load_inode i
  branch (ltb 0 n && ltb x.copy.size off)
      (do modify (edit_copy i (λ d. record d { size = off })); iupdate i) (pure tt)

unfoldable pub write_file : ℕ → ℕ → ℕ → List ℕ → V (Option ℕ)
write_file i size off xs =
    branch (ltb size off || ltb ((off + length xs) % uint_mod) off) (pure none) (
      branch (ltb (maxfile * bsize) (off + length xs)) (pure none) (do
        end ← write_loop (length xs) i off xs
        grow_file i (length xs) end
        pure (some (length xs))))

unfoldable pub write_dev : ℕ → List ℕ → Option Device → V (Option ℕ)
write_dev i xs none = pure none
write_dev i xs (some d) = d.write_device i xs

unfoldable pub writei : Devsw → ℕ → ℕ → List ℕ → V (Option ℕ)
writei devsw i off xs = do
  x ← load_inode i
  branch (x.copy.type == t_dev) (write_dev i xs (device_of devsw x.copy.major))
      (write_file i x.copy.size off xs)
