-- ===== src/Fs/Transfer/Array.antt =====
-- lab6/xv6-public/fs.c, readi: the content of a file as an array of bytes.
use cs333_os_labs.Fs.{Inode, Volume, bsize}
use cs333_os_labs.Fs.Content.Blockmap.{IsAllocated, block_at, bmap_present}
use cs333_os_labs.Fs.Transfer.{read_loop, slice}
use cs333_os_labs.Prelude.{
  List, ap, arith, get_elem?, refl, some, suc, sym, zero, ℕ, ◌%◌, ◌*◌, ◌++◌, ◌+◌, ◌-◌, ◌/◌, ◌<◌,
  ◌∙◌, ◌∷◌, ◌≡◌, ◌≤◌,
}
use cs333_os_labs.Prelude.Outcome.{code, done}
use Prim.Native.Nat.{min}

-- The byte at a position of a file.
abbrev pub content : (ℕ → ℕ → ℕ) → List ℕ → ℕ → ℕ
content β addrs pos = β (block_at β addrs (pos / bsize)) (pos % bsize)

slice_step :
    (n a b : ℕ) (d e : ℕ → ℕ)
    → ((k : ℕ) → k < suc n → d (a + k) ≡ e (b + k))
    → (k : ℕ) → k < n
    → d (a + 1 + k) ≡ e (b + 1 + k)
slice_step n a b d e h k l =
    let x : a + 1 + k ≡ a + suc k = omega arith in
    let y : b + suc k ≡ b + 1 + k = omega arith in ap d x ∙ h (suc k) (omega arith) ∙ ap e y

pub slice_same :
    (n a b : ℕ) (d e : ℕ → ℕ)
    → ((k : ℕ) → k < n → d (a + k) ≡ e (b + k))
    → slice n a d ≡ slice n b e
slice_same zero a b d e h = refl
slice_same (suc n) a b d e h =
    let x : a + 0 ≡ a = omega arith in
    let y : b + 0 ≡ b = omega arith in
    let head : d a ≡ e b = ap d (sym x) ∙ h 0 (omega arith) ∙ ap e y in
    let tail : slice n (a + 1) d ≡ slice n (b + 1) e =
      slice_same n (a + 1) (b + 1) d e (slice_step n a b d e h) in
    cc

slice-append : (m n a : ℕ) (d : ℕ → ℕ) → slice m a d ++ slice n (a + m) d ≡ slice (m + n) a d
slice-append zero n a d = ap (λ x. slice n x d) (omega arith) ∙ ap (λ k. slice k a d) (omega arith)
slice-append (suc m) n a d =
    let x : suc m + n ≡ suc (m + n) = omega arith in
    let y : a + suc m ≡ a + 1 + m = omega arith in
    rw (x, y) (ap (λ xs. d a ∷ xs) (slice-append m n (a + 1) d))

-- One round of the loop of readi.
read_chunk :
    (β : ℕ → ℕ → ℕ) (addrs : List ℕ) (off m k : ℕ)
    → m ≤ k
    → m ≤ bsize - off % bsize
    → slice m (off % bsize) (β (block_at β addrs (off / bsize)))
        ++ slice (k - m) (off + m) (content β addrs)
      ≡ slice k off (content β addrs)
read_chunk β addrs off m k l r =
    let whole : m + (k - m) ≡ k = omega arith in
    ap (λ xs. xs ++ slice (k - m) (off + m) (content β addrs))
      (slice_same m (off % bsize) off (β (block_at β addrs (off / bsize))) (content β addrs) inside)
    ∙ slice-append m (k - m) off (content β addrs)
    ∙ ap (λ j. slice j off (content β addrs)) whole
  where
    inside :
        (j : ℕ)
        → j < m
        → β (block_at β addrs (off / bsize)) (off % bsize + j) ≡ content β addrs (off + j)
    inside j s =
        let q : (off + j) / bsize ≡ off / bsize = omega arith in
        let e : (off + j) % bsize ≡ off % bsize + j = omega arith in
        ap (β (block_at β addrs (off / bsize))) (sym e)
        ∙ ap (λ a. β (block_at β addrs a) ((off + j) % bsize)) (sym q)

module _ (i n : ℕ) (x : Inode) where
  -- The loop of readi gives the bytes of the array.
  pub read_loop_lem :
      (fuel off k : ℕ) (v : Volume)
      → get_elem? v.icache i ≡ some x
      → IsAllocated v.bytes x.copy.addrs n
      → k ≤ fuel
      → off + k ≤ n * bsize
      → read_loop fuel i off k v ≡ done (slice k off (content v.bytes x.copy.addrs), v)
  unfolding read_loop code
  read_loop_lem zero off zero v at h l e = refl
  read_loop_lem zero off (suc k) v at h l e = absurd (omega arith)
  read_loop_lem (suc fuel) off zero v at h l e = refl
  read_loop_lem (suc fuel) off (suc k) v at h l e =
      let m = min (suc k) (bsize - off % bsize) in
      let here = bmap_present i (off / bsize) n v x at h (omega arith) in
      let rest = read_loop_lem fuel (off + m) (suc k - m) v at h (omega arith) (omega arith) in
      let whole = read_chunk v.bytes x.copy.addrs off m (suc k) (omega arith) (omega arith) in
      ground (arith, here, rest, whole)
