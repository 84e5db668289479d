-- ===== src/Fs/Calls/Emptiness.antt =====
-- lab6/xv6-public/sysfile.c, isdirempty: the entries of a directory that are in use.
use cs333_os_labs.Fs.{Inode, Volume, bsize, t_dir}
use cs333_os_labs.Fs.Calls.{empty_from, isdirempty}
use cs333_os_labs.Fs.Content.Blockmap.{IsAllocated}
use cs333_os_labs.Fs.Directory.{dirent_inum, dirent_rounds, direntsize, whole_dirent}
use cs333_os_labs.Fs.Directory.Lookup.{entry, length-entry, read_entry, whole_dirent-done}
use cs333_os_labs.Fs.Inodes.{load_inode}
use cs333_os_labs.Fs.Transfer.{Devsw, readi}
use cs333_os_labs.Fs.Transfer.Array.{content}
use cs333_os_labs.Prelude.{
  Bool, Bool-cases, arith, false, get_elem?, if◌then◌else◌, inl, inr, ltb, refl, some, suc, true,
  zero, ℕ, ◌*◌, ◌+◌, ◌<◌, ◌==◌, ◌∙◌, ◌≡◌, ◌≤◌,
}
use cs333_os_labs.Prelude.Outcome.{bind_done, code, done}

-- None of the `n` entries from `k` on is in use.
abbrev pub all_free : ℕ → ℕ → (ℕ → ℕ) → Bool
all_free zero k c = true
all_free (suc n) k c =
    let rest = all_free n (k + 1) c in if dirent_inum (entry c k) == 0 then rest else false

module _ (devsw : Devsw) (i n : ℕ) (v : Volume) (x : Inode) (at : get_elem? v.icache i ≡ some x)
    (dir : x.copy.type ≡ t_dir) (h : IsAllocated v.bytes x.copy.addrs n)
    (sized : x.copy.size ≤ n * bsize) where
  empty_from_lem :
      (fuel left k : ℕ)
      → left < fuel
      → direntsize * (k + left) ≡ x.copy.size
      → empty_from fuel devsw i x.copy.size (direntsize * k) v
        ≡ done (all_free left k (content v.bytes x.copy.addrs), v)
  unfolding empty_from code
  empty_from_lem zero left k l e = absurd (omega arith)
  empty_from_lem (suc fuel) zero k l e =
      let over : ltb (direntsize * k) x.copy.size ≡ false = ground arith in rw over refl
  empty_from_lem (suc fuel) (suc left) k l e =
      let c = content v.bytes x.copy.addrs in
      let inside : ltb (direntsize * k) x.copy.size ≡ true = ground arith in
      let this = read_entry devsw i n v x at dir h sized k (omega arith) in
      let step : direntsize * k + direntsize ≡ direntsize * (k + 1) = omega arith in
      let rest = empty_from_lem fuel left (k + 1) (omega arith) (omega arith) in
      let de = entry c k in
      rw inside (
        bind_done (readi devsw i (direntsize * k) direntsize) _ this
        ∙ bind_done (whole_dirent (some de)) _ (whole_dirent-done de v (length-entry c k))
        ∙ rw step
            (elim (Bool-cases (dirent_inum de == 0)) [ inl z ↦ rw z rest | inr z ↦ rw z refl ]))

  isdirempty_lem :
      (m : ℕ)
      → direntsize * (m + 2) ≡ x.copy.size
      → isdirempty devsw i v ≡ done (all_free m 2 (content v.bytes x.copy.addrs), v)
  unfolding isdirempty load_inode
  isdirempty_lem m e =
      let loaded : load_inode i v ≡ done (x, v) = rw (load_inode, at) refl in
      bind_done (load_inode i) _ loaded
      ∙ empty_from_lem (dirent_rounds x.copy.size) m 2 (omega arith) (omega arith)
