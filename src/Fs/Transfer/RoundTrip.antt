-- ===== src/Fs/Transfer/RoundTrip.antt =====
-- lab6/xv6-public/fs.c, readi after writei.
use cs333_os_labs.Fs.{Inode, Volume, bsize, t_dev}
use cs333_os_labs.Fs.Content.Blockmap.{IsAllocated}
use cs333_os_labs.Fs.Transfer.{Devsw, readi, slice, writei}
use cs333_os_labs.Fs.Transfer.Array.{content, slice_same}
use cs333_os_labs.Fs.Transfer.File.{grown, readi_lem, slice-list, writei_lem}
use cs333_os_labs.Kalloc.{uint_mod}
use cs333_os_labs.Prelude.{
  List, ap, arith, get_elem?, length, some, ℕ, ◌*◌, ◌+◌, ◌-◌, ◌<◌, ◌∙◌, ◌≡◌, ◌≢◌, ◌≤◌, ◌⊎◌,
}
use cs333_os_labs.Prelude.Outcome.{done}
use Prim.Native.Nat.{min}

-- What a write leaves behind for the reads that follow.
pub record ReadsBack (devsw : Devsw) (i : ℕ) (v : Volume) (x : Inode) (off : ℕ) (xs : List ℕ)
    (w : Volume) : Type 0 where
  pub wrote : writei devsw i off xs v ≡ done (some (length xs), w)
  pub same_range : readi devsw i off (length xs) w ≡ done (some xs, w)
  pub other_range :
      (a k : ℕ)
      → a + k ≤ off ⊎ off + length xs ≤ a
      → a + k ≤ x.copy.size
      → a + k < uint_mod
      → readi devsw i a k w ≡ done (some (slice k a (content v.bytes x.copy.addrs)), w)

module _ (devsw : Devsw) (i n : ℕ) (v : Volume) (x : Inode) (at : get_elem? v.icache i ≡ some x)
    (plain : x.copy.type ≢ t_dev) (h : IsAllocated v.bytes x.copy.addrs n)
    (sized : x.copy.size ≤ n * bsize) where
  -- A write inside of the blocks that a file has allocated, from an offset of at most its size,
  -- to an inode that is no device, writes all its bytes; a read of the same range afterwards
  -- gives these bytes, and a read of any range apart from it and within the old size gives what
  -- stood there before.
  pub readi-writei :
      (off : ℕ) (xs : List ℕ)
      → off ≤ x.copy.size
      → off + length xs ≤ n * bsize
      → (w : Volume) × ReadsBack devsw i v x off xs w
  readi-writei off xs l fits =
      let (w, run, there, r) = writei_lem devsw i n v x at plain h sized off xs l fits in
      let y = grown x (length xs) (off + length xs) in
      let bound = h.in_range in
      let big : y.copy.size ≤ n * bsize = ground arith in
      let reads = readi_lem devsw i n w y there plain r.allocated big in
      let kept : ℕ → ℕ = content w.bytes x.copy.addrs in
      let k = length xs in
      let m : min k (y.copy.size - off) ≡ k = ground arith in
      let same : slice k off kept ≡ xs =
        slice-list xs off kept (λ j s. r.array (off + j) (omega arith) ∙ ground (arith, s)) in
      let all : (a j : ℕ) → a + j ≤ x.copy.size → min j (y.copy.size - a) ≡ j =
        λ a j inside. ground (arith, inside) in
      let other : (a j : ℕ)
          → a + j ≤ off ⊎ off + k ≤ a
          → a + j ≤ x.copy.size
          → slice j a kept ≡ slice j a (content v.bytes x.copy.addrs) =
        λ a j apart inside.
          slice_same j a a kept (content v.bytes x.copy.addrs)
            (λ b s. r.array (a + b) (omega arith) ∙ ground (arith, s, apart)) in
      (
        w,
        record {
          wrote = run;
          same_range =
              reads off k (ground arith) (omega arith)
              ∙ ap (λ m. done (some (slice m off kept), w)) m
              ∙ ap (λ ys. done (some ys, w)) same;
          other_range = λ a j apart inside small.
              reads a j (ground (arith, inside)) small
              ∙ ap (λ m. done (some (slice m a kept), w)) (all a j inside)
              ∙ ap (λ ys. done (some ys, w)) (other a j apart inside);
        },
      )
