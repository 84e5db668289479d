-- ===== src/Fs/Content/Blockmap.antt =====
-- lab6/xv6-public/fs.c, bmap: the disk block behind a block of a file.
use cs333_os_labs.Fs.{Inode, Volume, maxfile, ndirect, nindirect, word_at}
use cs333_os_labs.Fs.Content.{bmap, bmap_indirect, listed_block, own_block}
use cs333_os_labs.Fs.Inodes.{load_inode}
use cs333_os_labs.Prelude.{
  Bool-cases, List, arith, get_elem?, get_or, if◌then◌else◌, inl, inr, ltb, ltb→lt, refl, some,
  true, ℕ, ◌-◌, ◌<◌, ◌∙◌, ◌≡◌, ◌≢◌, ◌≤◌,
}
use cs333_os_labs.Prelude.Outcome.{code, done}

-- The block `bn` of a file with these addresses, on a disk with these bytes; 0 where it has none.
abbrev pub block_at : (ℕ → ℕ → ℕ) → List ℕ → ℕ → ℕ
block_at β addrs bn =
    if ltb bn ndirect
    then get_or addrs bn 0
    else word_at (β (get_or addrs ndirect 0)) (bn - ndirect)

-- The first `n` blocks of the file are there, are different blocks of the disk, and none of them is
-- the indirect block.
pub record IsAllocated (β : ℕ → ℕ → ℕ) (addrs : List ℕ) (n : ℕ) : Type 0 where
  pub in_range : n ≤ maxfile
  pub present : (a : ℕ) → a < n → block_at β addrs a ≢ 0
  pub indirect : ndirect < n → get_or addrs ndirect 0 ≢ 0
  pub distinct : (a b : ℕ) → a < n → b < n → a ≢ b → block_at β addrs a ≢ block_at β addrs b
  pub apart : (a : ℕ) → a < n → block_at β addrs a ≢ get_or addrs ndirect 0

own_block_present : (i n addr : ℕ) (v : Volume) → addr ≢ 0 → own_block i n addr v ≡ done (addr, v)
unfolding own_block code
own_block_present i n addr v h = ground arith

bmap_direct_present :
    (i bn : ℕ) (v : Volume) (x : Inode)
    → get_elem? v.icache i ≡ some x
    → bn < ndirect
    → get_or x.copy.addrs bn 0 ≢ 0
    → bmap i bn v ≡ done (get_or x.copy.addrs bn 0, v)
unfolding bmap load_inode code
bmap_direct_present i bn v x at small there = ground (arith, own_block_present i bn _ v there)

bmap_indirect_present :
    (i k : ℕ) (v : Volume) (x : Inode)
    → get_elem? v.icache i ≡ some x
    → get_or x.copy.addrs ndirect 0 ≢ 0
    → word_at (v.bytes (get_or x.copy.addrs ndirect 0)) k ≢ 0
    → bmap_indirect i k v ≡ done (word_at (v.bytes (get_or x.copy.addrs ndirect 0)) k, v)
unfolding bmap_indirect load_inode listed_block code
bmap_indirect_present i k v x at ind there = ground (arith, own_block_present i ndirect _ v ind)

-- A block that is there is found without a change.
pub bmap_present :
    (i bn n : ℕ) (v : Volume) (x : Inode)
    → get_elem? v.icache i ≡ some x
    → IsAllocated v.bytes x.copy.addrs n
    → bn < n
    → bmap i bn v ≡ done (block_at v.bytes x.copy.addrs bn, v)
unfolding bmap code
bmap_present i bn n v x at h l = elim (Bool-cases (ltb bn ndirect)) [
  | inl e ↦
      let small : bn < ndirect = ltb→lt bn ndirect e in
      let there : get_or x.copy.addrs bn 0 ≢ 0 = ground (arith, e, h.present bn l) in
      bmap_direct_present i bn v x at small there ∙ rw e refl
  | inr e ↦
      let inside : ltb (bn - ndirect) nindirect ≡ true = ground (arith, e, h.in_range) in
      let ind : get_or x.copy.addrs ndirect 0 ≢ 0 = h.indirect (ground (arith, e)) in
      let there : word_at (v.bytes (get_or x.copy.addrs ndirect 0)) (bn - ndirect) ≢ 0 =
        ground (arith, e, h.present bn l) in
      rw (e, inside) (bmap_indirect_present i (bn - ndirect) v x at ind there)
]
