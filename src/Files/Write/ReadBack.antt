-- ===== src/Files/Write/ReadBack.antt =====
-- lab6/xv6-public/file.c: fileread of an inode, and fileread after filewrite.
use cs333_os_labs.Bio.{unlocked}
use cs333_os_labs.FileTable.{File, fd_inode}
use cs333_os_labs.Files.{Kernel, advance, fileread, filewrite, in_volume, load_file, read_kind}
use cs333_os_labs.Files.Write.{
  IsOpenOn, Wrote, advanced, ilock_free, in_volume_done, iunlock_held, load_file_at, locked_by,
}
use cs333_os_labs.Files.Write.Chunks.{filewrite_lem}
use cs333_os_labs.Fs.{Inode, bsize}
use cs333_os_labs.Fs.Inodes.{edit_inode, ilock, iunlock}
use cs333_os_labs.Fs.Transfer.{Devsw, readi, slice}
use cs333_os_labs.Fs.Transfer.Array.{content}
use cs333_os_labs.Fs.Transfer.File.{get_elem?-edit_nth, grown, readi_lem, slice-list}
use cs333_os_labs.Kalloc.{uint_mod}
use cs333_os_labs.Pipe.{all_written, bytes}
use cs333_os_labs.Prelude.{
  List, ap, arith, get_elem?, get_elem?-set_ne, length, refl, set, some, true, ℕ, ◌*◌, ◌+◌, ◌-◌,
  ◌<◌, ◌∙◌, ◌≡◌, ◌≢◌, ◌≤◌,
}
use cs333_os_labs.Prelude.Outcome.{bind_done, branch_yes, done, reads, returns, then_done}
use Prim.Native.Nat.{min}

module _ (devsw : Devsw) (me j n : ℕ) (k : Kernel) (g : File) (x : Inode) (h : IsOpenOn j n k g x)
    (kind : g.kind ≡ fd_inode) (allowed : g.readable ≡ true) (small : n * bsize < uint_mod) where
  abbrev there : ℕ → ℕ
  there = content k.volume.bytes x.copy.addrs

  -- The bytes that a read of `m` gives.
  abbrev got : ℕ → List ℕ
  got m = slice (min m (x.copy.size - g.off)) g.off there

  fileread_lem :
      (m : ℕ)
      → g.off + m < uint_mod
      → g.off + length (got m) < uint_mod
      → (t : Kernel) × (fileread devsw me j m k ≡ done (bytes (got m), t))
  unfolding fileread read_kind
  fileread_lem m fits fits' =
      let ip = g.ip in
      let lk = λ (y : Inode). locked_by me y in
      let v = edit_inode ip lk k.volume in
      let at0 = get_elem?-edit_nth ip lk k.volume.icache x h.at_inode in
      let reads =
        readi_lem devsw ip n v (lk x) at0 h.plain h.allocated h.sized g.off m h.inside fits in
      let u = edit_inode ip (λ y. record y { lock = unlocked }) v in
      let locks = ilock_free me ip k.volume x h.at_inode h.referenced h.valid h.free in
      let unlocks = iunlock_held ip v (lk x) at0 h.referenced refl in
      let k1 = record k { volume = v } in
      let k2 = record k1 { files = set k.files j (record g { off = g.off + length (got m) }) } in
      let t = record k2 { volume = u } in
      (
        t,
        bind_done (load_file j) _ (load_file_at devsw me j k g h.at_file k.volume)
            ∙ branch_yes g.readable _ _ k allowed
            ∙ ap (λ c. read_kind devsw me j m g c k) kind
            ∙ then_done (in_volume (ilock me ip)) _ (in_volume_done (ilock me ip) k locks)
            ∙ bind_done (in_volume (readi devsw ip g.off m)) _
                (in_volume_done (readi devsw ip g.off m) k1 reads)
            ∙ then_done (advance j (some (length (got m)))) _
                (advanced devsw me j k g h.at_file (length (got m)) v fits')
            ∙ then_done (in_volume (iunlock ip)) _ (in_volume_done (iunlock ip) k2 unlocks)
            ∙ returns (bytes (got m)) t,
      )

-- What filewrite has put there is what a read of the same place gives.
slice-Wrote :
    (i n : ℕ) (xs : List ℕ) (k : Kernel) (f : File) (x : Inode) (t : Kernel)
    → Wrote i n xs k f x t
    → f.off + length xs ≤ n * bsize
    → slice (length xs) f.off (content t.volume.bytes x.copy.addrs) ≡ xs
slice-Wrote i n xs k f x t w fits =
    slice-list xs f.off (content t.volume.bytes x.copy.addrs)
      (λ a l. w.array.array (f.off + a) (omega arith) ∙ ground (arith, l))

module _ (devsw : Devsw) (me i j n : ℕ) (xs : List ℕ) (k : Kernel) (f g : File) (x : Inode)
    (h : IsOpenOn i n k f x) (apart : i ≢ j) (at : get_elem? k.files j ≡ some g)
    (same_inode : g.ip ≡ f.ip) (same_off : g.off ≡ f.off) (fits : f.off + length xs ≤ n * bsize)
    (small : n * bsize < uint_mod) where
  -- The other file is still open on the inode after the write.
  other-IsOpenOn :
      (t : Kernel)
      → Wrote i n xs k f x t
      → IsOpenOn j n t g (grown x (length xs) (f.off + length xs))
  other-IsOpenOn t w = record {
    at_file =
        ap (λ fs. get_elem? fs j) w.files
        ∙ get_elem?-set_ne k.files (record f { off = f.off + length xs }) apart
        ∙ at;
    at_inode = ap (get_elem? t.volume.icache) same_inode ∙ w.inode;
    referenced = h.referenced;
    valid = h.valid;
    free = h.free;
    plain = h.plain;
    allocated = w.array.allocated;
    sized = ground (arith, h.sized, fits);
    inside = ground (arith, h.inside, same_off);
  }

  -- Two open files of one plain inode, at the same offset, the first open for writing and the
  -- second for reading: where the inode is referenced, read in and unlocked, and the bytes end
  -- inside of the blocks that it has allocated, from an offset of at most its size, a filewrite
  -- through the first returns with all bytes written, and a fileread of as many bytes through the
  -- second then returns with exactly these.
  pub fileread-filewrite :
      f.kind ≡ fd_inode
      → f.writable ≡ true
      → g.kind ≡ fd_inode
      → g.readable ≡ true
      → (t u : Kernel) × (filewrite devsw me i xs k ≡ done (all_written, t))
        × (fileread devsw me j (length xs) t ≡ done (bytes xs, u))
  fileread-filewrite kind allowed kind' allowed' =
      let (t, run, w) = filewrite_lem devsw me i n small xs k f x h kind allowed fits in
      let y = grown x (length xs) (f.off + length xs) in
      let o = other-IsOpenOn t w in
      let m = length xs in
      let whole : min m (y.copy.size - g.off) ≡ m = ground (arith, same_off) in
      let same : got devsw me j n t g y o kind' allowed' small m ≡ xs =
        ap (λ a. slice a g.off (content t.volume.bytes x.copy.addrs)) whole
        ∙ ap (λ a. slice m a (content t.volume.bytes x.copy.addrs)) same_off
        ∙ slice-Wrote i n xs k f x t w fits in
      let (u, reads) =
        fileread_lem devsw me j n t g y o kind' allowed' small m (omega (arith, same_off))
          (omega (arith, same_off, ap length same)) in
      (t, u, run, reads ∙ ap (λ ys. done (bytes ys, u)) same)
