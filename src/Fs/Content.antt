-- ===== src/Fs/Content.antt =====
-- lab6/xv6-public/fs.c: the blocks of an inode: bmap, itrunc, stati, and iput, which may truncate.
pub mod Blockmap
use cs333_os_labs.Fs.{V, ndirect, nindirect, put_word, word_at}
use cs333_os_labs.Fs.Blocks.{balloc, bfree}
use cs333_os_labs.Fs.Inodes.{edit_copy, edit_inode, iunlock, iupdate, load_inode}
use cs333_os_labs.Kalloc.{update}
use cs333_os_labs.Prelude.{false, get_or, ltb, set, suc, zero, ℕ, ◌&&◌, ◌+◌, ◌-◌, ◌==◌}
use cs333_os_labs.Prelude.Outcome.{Stop, branch, halt, modify, pure, read, ◌>>=◌, ◌>>◌}

-- The entry `n` of `ip->addrs`, which `balloc` fills where it is zero.
unfoldable pub own_block : ℕ → ℕ → ℕ → V ℕ
own_block i n addr =
    branch (addr == 0)
      (do b ← balloc; modify (edit_copy i (λ d. record d { addrs = set d.addrs n b })); pure b)
      (pure addr)

-- The entry `n` of the indirect block `ind`.
unfoldable pub listed_block : ℕ → ℕ → ℕ → V ℕ
listed_block ind n addr =
    branch (addr == 0)
      (do
        b ← balloc
        modify (λ v. record v { bytes = update v.bytes ind (put_word (v.bytes ind) n b) })
        pure b)
      (pure addr)

unfoldable pub bmap_indirect : ℕ → ℕ → V ℕ
bmap_indirect i n = do
  x ← load_inode i
  ind ← own_block i ndirect (get_or x.copy.addrs ndirect 0)
  addr ← read (λ v. word_at (v.bytes ind) n)
  listed_block ind n addr

unfoldable pub bmap : ℕ → ℕ → V ℕ
bmap i bn =
    branch (ltb bn ndirect) (do x ← load_inode i; own_block i bn (get_or x.copy.addrs bn 0))
      (branch (ltb (bn - ndirect) nindirect) (bmap_indirect i (bn - ndirect))
        (halt Stop.bmap_range))

-- The first loop of `itrunc`, with `n` entries left from `k` on.
unfoldable pub free_direct : ℕ → ℕ → ℕ → V (Unit {0})
free_direct zero k i = pure tt
free_direct (suc n) k i =
    let rest = free_direct n (k + 1) i in
    (do
      x ← load_inode i
      branch (get_or x.copy.addrs k 0 == 0) (pure tt) (do
        bfree (get_or x.copy.addrs k 0)
        modify (edit_copy i (λ d. record d { addrs = set d.addrs k 0 })))
      rest)

-- The loop over the indirect block.
unfoldable pub free_listed : ℕ → ℕ → ℕ → V (Unit {0})
free_listed zero k ind = pure tt
free_listed (suc n) k ind =
    let rest = free_listed n (k + 1) ind in
    (do a ← read (λ v. word_at (v.bytes ind) k); branch (a == 0) (pure tt) (bfree a); rest)

unfoldable pub free_indirect : ℕ → ℕ → V (Unit {0})
free_indirect i ind = branch (ind == 0) (pure tt) (do
  free_listed nindirect 0 ind
  bfree ind
  modify (edit_copy i (λ d. record d { addrs = set d.addrs ndirect 0 })))

unfoldable pub itrunc : ℕ → V (Unit {0})
itrunc i = do
  free_direct ndirect 0 i
  x ← load_inode i
  free_indirect i (get_or x.copy.addrs ndirect 0)
  modify (edit_copy i (λ d. record d { size = 0 }))
  iupdate i

unfoldable pub drop_ref : ℕ → V (Unit {0})
drop_ref i = modify (edit_inode i (λ x. record x { ref = x.ref - 1 }))

-- A count is positive where its reference is dropped.
unfoldable pub iput : ℕ → V (Unit {0})
iput i = do
  x ← load_inode i
  branch (x.ref == 1 && (x.valid && x.copy.nlink == 0))
      (do
        itrunc i
        modify (edit_copy i (λ d. record d { type = 0 }))
        iupdate i
        modify (edit_inode i (λ y. record y { valid = false })))
      (pure tt)
  drop_ref i

unfoldable pub iunlockput : ℕ → V (Unit {0})
iunlockput i = do iunlock i; iput i

pub record Stat : Type 0 where
  pub dev : ℕ
  pub ino : ℕ
  pub type : ℕ
  pub nlink : ℕ
  pub size : ℕ

unfoldable pub stati : ℕ → V Stat
stati i = do
  x ← load_inode i
  pure (record {
    dev = x.dev;
    ino = x.inum;
    type = x.copy.type;
    nlink = x.copy.nlink;
    size = x.copy.size;
  })
