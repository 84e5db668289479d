-- ===== src/Fs/Transfer/File.antt =====
-- lab6/xv6-public/fs.c, readi and writei of a whole range of a file.
use cs333_os_labs.Fs.{Inode, Volume, bsize, t_dev}
use cs333_os_labs.Fs.Content.Blockmap.{IsAllocated}
use cs333_os_labs.Fs.Inodes.{edit_inode, edit_nth, iupdate, load_inode}
use cs333_os_labs.Fs.Transfer.{Devsw, grow_file, read_file, readi, slice, write_file, writei}
use cs333_os_labs.Fs.Transfer.Array.{content, read_loop_lem}
use cs333_os_labs.Fs.Transfer.Update.{Writes, write_loop_lem}
use cs333_os_labs.Kalloc.{uint_mod, update}
use cs333_os_labs.Prelude.{
  Bool-cases, List, [], ap, arith, get_elem?, get_or, if◌then◌else◌, inl, inr, length, ltb, refl,
  some, suc, sym, zero, ℕ, ◌&&◌, ◌*◌, ◌+◌, ◌-◌, ◌<◌, ◌∙◌, ◌∷◌, ◌≡◌, ◌≢◌, ◌≤◌,
}
use cs333_os_labs.Prelude.Outcome.{code, done}
use Prim.Native.Nat.{min}

pub slice-list :
    (xs : List ℕ) (off : ℕ) (d : ℕ → ℕ)
    → ((k : ℕ) → k < length xs → d (off + k) ≡ get_or xs k 0)
    → slice (length xs) off d ≡ xs
slice-list [] off d h = refl
slice-list (x ∷ xs) off d h =
    let e : off + 0 ≡ off = omega arith in
    let head : d off ≡ x = ap d (sym e) ∙ h 0 (omega arith) in
    let tail : slice (length xs) (off + 1) d ≡ xs = slice-list xs (off + 1) d (λ k l.
      let f : off + 1 + k ≡ off + suc k = omega arith in ap d f ∙ h (suc k) (omega arith)) in
    cc

pub get_elem?-edit_nth :
    (i : ℕ) (f : Inode → Inode) (xs : List Inode) (x : Inode)
    → get_elem? xs i ≡ some x
    → get_elem? (edit_nth i f xs) i ≡ some (f x)
get_elem?-edit_nth i f [] x e = ground arith
get_elem?-edit_nth zero f (y ∷ ys) x e = ground (arith, e)
get_elem?-edit_nth (suc i) f (y ∷ ys) x e = get_elem?-edit_nth i f ys x e

-- The inode after a write of `k` bytes that ends at `end`.
abbrev pub grown : Inode → ℕ → ℕ → Inode
grown x k end = record x {
  copy = record (x.copy) { size = if ltb 0 k && ltb x.copy.size end then end else x.copy.size };
}

grow_file_lem :
    (i k end : ℕ) (v : Volume) (x : Inode)
    → get_elem? v.icache i ≡ some x
    → (w : Volume) × (grow_file i k end v ≡ done (tt, w))
      × (w.bytes ≡ v.bytes)
      × (get_elem? w.icache i ≡ some (grown x k end))
unfolding grow_file load_inode iupdate code
grow_file_lem i k end v x at = elim (Bool-cases (ltb 0 k && ltb x.copy.size end)) [
  | inl e ↦
      let f : Inode → Inode = λ y. record y { copy = record (y.copy) { size = end } } in
      let there : get_elem? (edit_nth i f v.icache) i ≡ some (f x) =
        get_elem?-edit_nth i f v.icache x at in
      (
        record (edit_inode i f v) { dinodes = update v.dinodes x.inum (f x).copy },
        ground (arith, at, e, there),
        refl,
        ground (arith, there, e),
      )
  | inr e ↦ (v, ground (arith, at, e), refl, ground (arith, at, e))
]

module _ (devsw : Devsw) (i n : ℕ) (v : Volume) (x : Inode) (at : get_elem? v.icache i ≡ some x)
    (plain : x.copy.type ≢ t_dev) (h : IsAllocated v.bytes x.copy.addrs n)
    (sized : x.copy.size ≤ n * bsize) where
  pub readi_lem :
      (off k : ℕ)
      → off ≤ x.copy.size
      → off + k < uint_mod
      → readi devsw i off k v
        ≡ done (some (slice (min k (x.copy.size - off)) off (content v.bytes x.copy.addrs)), v)
  unfolding readi read_file load_inode code
  readi_lem off k l small =
      let size = x.copy.size in
      let m = if ltb size (off + k) then size - off else k in
      let e : m ≡ min k (size - off) = ground arith in
      let run = read_loop_lem i n x m off m v at h (omega arith) (ground arith) in
      ground (arith, at, run, e)

  pub writei_lem :
      (off : ℕ) (xs : List ℕ)
      → off ≤ x.copy.size
      → off + length xs ≤ n * bsize
      → (w : Volume) × (writei devsw i off xs v ≡ done (some (length xs), w))
        × (get_elem? w.icache i ≡ some (grown x (length xs) (off + length xs)))
        × Writes v.bytes w.bytes x.copy.addrs n off xs
  unfolding writei write_file load_inode code
  writei_lem off xs l fits =
      let (γ, run, r) = write_loop_lem i n x (length xs) off xs v at h (omega arith) fits in
      let (w, grows, same_bytes, there) =
        grow_file_lem i (length xs) (off + length xs) (record v { bytes = γ }) x at in
      (w, ground (arith, at, run, grows), there, rw same_bytes r)
