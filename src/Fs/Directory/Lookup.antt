-- ===== src/Fs/Directory/Lookup.antt =====
-- lab6/xv6-public/fs.c, dirlookup: the entries of a directory.
use cs333_os_labs.Fs.{Inode, V, Volume, bsize, t_dev, t_dir}
use cs333_os_labs.Fs.Content.Blockmap.{IsAllocated}
use cs333_os_labs.Fs.Directory.{
  dirent_inum, dirent_name, dirent_rounds, direntsize, dirlookup, lookup_loop, namecmp_is_zero,
  whole_dirent,
}
use cs333_os_labs.Fs.Inodes.{iget, load_inode}
use cs333_os_labs.Fs.Transfer.{Devsw, readi, slice}
use cs333_os_labs.Fs.Transfer.Array.{content}
use cs333_os_labs.Fs.Transfer.File.{readi_lem}
use cs333_os_labs.Kalloc.{uint_mod}
use cs333_os_labs.Prelude.{
  Bool, Bool-cases, List, Option, ap, arith, false, get_elem?, if◌then◌else◌, inl, inr, length, ltb,
  none, not, refl, some, suc, true, zero, ℕ, ◌%◌, ◌&&◌, ◌*◌, ◌+◌, ◌-◌, ◌<◌, ◌==◌, ◌∙◌, ◌≡◌, ◌≢◌,
  ◌≤◌,
}
use cs333_os_labs.Prelude.Outcome.{Stop, bind_done, code, done, pure, require, then_done, ◌>>=◌}
use Prim.Native.Nat.{min}

-- The entry `k` of a directory with these bytes.
unfoldable pub entry : (ℕ → ℕ) → ℕ → List ℕ
entry c k = slice direntsize (direntsize * k) c

abbrev pub is_match : List ℕ → List ℕ → Bool
is_match name de = not (dirent_inum de == 0) && namecmp_is_zero name (dirent_name de)

-- The first entry with the name among the `n` entries from `k` on.
abbrev pub first_match : ℕ → ℕ → List ℕ → (ℕ → ℕ) → Option ℕ
first_match zero k name c = none
first_match (suc n) k name c =
    let rest = first_match n (k + 1) name c in if is_match name (entry c k) then some k else rest

-- The inode of an entry that has been found, and the offset of the entry.
abbrev pub entry_inode : ℕ → (ℕ → ℕ) → Option ℕ → V (Option (ℕ × ℕ))
entry_inode dev c none = pure none
entry_inode dev c (some k) = do
  j ← iget dev (dirent_inum (entry c k))
  pure (some (j, direntsize * k))

length-slice : (n a : ℕ) (d : ℕ → ℕ) → length (slice n a d) ≡ n
length-slice zero a d = refl
length-slice (suc n) a d = omega (arith, length-slice n (a + 1) d)

pub length-entry : (c : ℕ → ℕ) (k : ℕ) → length (entry c k) ≡ direntsize
unfolding entry
length-entry c k = length-slice direntsize (direntsize * k) c

pub whole_dirent-done :
    (de : List ℕ) (v : Volume) → length de ≡ direntsize → whole_dirent (some de) v ≡ done (de, v)
unfolding whole_dirent code
whole_dirent-done de v e = rw e refl

module _ (devsw : Devsw) (i n : ℕ) (v : Volume) (x : Inode) (at : get_elem? v.icache i ≡ some x)
    (dir : x.copy.type ≡ t_dir) (h : IsAllocated v.bytes x.copy.addrs n)
    (sized : x.copy.size ≤ n * bsize) where
  pub read_entry :
      (k : ℕ)
      → direntsize * k + direntsize ≤ x.copy.size
      → readi devsw i (direntsize * k) direntsize v
        ≡ done (some (entry (content v.bytes x.copy.addrs) k), v)
  unfolding entry
  read_entry k l =
      let bound = h.in_range in
      let plain : x.copy.type ≢ t_dev = ground (arith, dir) in
      let all : min direntsize (x.copy.size - direntsize * k) ≡ direntsize = omega arith in
      readi_lem devsw i n v x at plain h sized (direntsize * k) direntsize (omega arith)
        (omega arith)
      ∙ ap (λ m. done (some (slice m (direntsize * k) (content v.bytes x.copy.addrs)), v)) all

  lookup_loop_lem :
      (fuel left k : ℕ) (name : List ℕ)
      → left < fuel
      → direntsize * (k + left) ≡ x.copy.size
      → lookup_loop fuel devsw i x name (direntsize * k) v
        ≡ entry_inode x.dev
            (content v.bytes x.copy.addrs)
            (first_match left k name (content v.bytes x.copy.addrs))
            v
  unfolding lookup_loop whole_dirent code
  lookup_loop_lem zero left k name l e = absurd (omega arith)
  lookup_loop_lem (suc fuel) zero k name l e =
      let over : ltb (direntsize * k) x.copy.size ≡ false = ground arith in rw over refl
  lookup_loop_lem (suc fuel) (suc left) k name l e =
      let bound = h.in_range in
      let c = content v.bytes x.copy.addrs in
      let inside : ltb (direntsize * k) x.copy.size ≡ true = ground arith in
      let this = read_entry k (omega arith) in
      let step : (direntsize * k + direntsize) % uint_mod ≡ direntsize * (k + 1) = omega arith in
      let rest = lookup_loop_lem fuel left (k + 1) name (omega arith) (omega arith) in
      let de = entry c k in
      rw inside (
        bind_done (readi devsw i (direntsize * k) direntsize) _ this
        ∙ bind_done (whole_dirent (some de)) _ (whole_dirent-done de v (length-entry c k))
        ∙ rw step (elim (Bool-cases (dirent_inum de == 0)) [
          | inl z ↦ rw z rest
          | inr z ↦ elim (Bool-cases (namecmp_is_zero name (dirent_name de))) [
            | inl s ↦ rw (z, s) refl
            | inr s ↦ rw (z, s) rest
          ]
        ]))

  -- In a directory of whole entries, in blocks that are allocated, dirlookup ends within its
  -- rounds and finds the first entry in use that has the name: it gives the inode that iget gives
  -- for the number in this entry, and the offset of the entry; if there is none it gives none and
  -- changes nothing.
  pub dirlookup_lem :
      (m : ℕ) (name : List ℕ)
      → direntsize * m ≡ x.copy.size
      → dirlookup devsw i name v
        ≡ entry_inode x.dev
            (content v.bytes x.copy.addrs)
            (first_match m 0 name (content v.bytes x.copy.addrs))
            v
  unfolding dirlookup load_inode require
  dirlookup_lem m name e =
      let run = lookup_loop_lem (dirent_rounds x.copy.size) m 0 name (omega arith) (omega arith) in
      let loaded : load_inode i v ≡ done (x, v) = rw (load_inode, at) refl in
      let is_dir : (x.copy.type == t_dir) ≡ true = rw dir refl in
      let passed : require (x.copy.type == t_dir) Stop.not_directory v ≡ done (tt, v) =
        rw (require, is_dir) refl in
      bind_done (load_inode i) _ loaded
      ∙ then_done (require (x.copy.type == t_dir) Stop.not_directory) _ passed
      ∙ run
