-- ===== src/Fs/Inodes.antt =====
-- lab6/xv6-public/fs.c: the inode cache and the copies of inodes on the disk: ialloc, iupdate, iget,
-- idup, ilock and iunlock. A cached inode is named by its place in `icache.inode`. The model runs one
-- process; a process that would sleep on the lock of an inode stops with `sleeps_locked`.
pub mod Cache
use cs333_os_labs.Bio.{SleepLock, acquiresleep, holdingsleep, releasesleep}
use cs333_os_labs.Fs.{Dinode, Inode, V, Volume, ndirect}
use cs333_os_labs.Kalloc.{update}
use cs333_os_labs.Prelude.{
  Bool, List, Option, [], false, get_elem?, if◌then◌else◌, ltb, none, not, replicate, some, suc,
  true, zero, ℕ, ◌&&◌, ◌+◌, ◌-◌, ◌==◌, ◌∷◌,
}
use cs333_os_labs.Prelude.Outcome.{
  Stop, branch, done, halt, modify, pure, read, require, stop, ◌>>=◌, ◌>>◌,
}

abbrev pub edit_nth : ℕ → (Inode → Inode) → List Inode → List Inode
edit_nth i f [] = []
edit_nth zero f (x ∷ xs) = f x ∷ xs
edit_nth (suc i) f (x ∷ xs) = x ∷ edit_nth i f xs

abbrev pub edit_inode : ℕ → (Inode → Inode) → Volume → Volume
edit_inode i f v = record v { icache = edit_nth i f v.icache }

abbrev pub edit_copy : ℕ → (Dinode → Dinode) → Volume → Volume
edit_copy i f v = edit_inode i (λ x. record x { copy = f x.copy }) v

unfoldable pub load_inode : ℕ → V Inode
load_inode i v = elim (get_elem? v.icache i) [
  | some x ↦ done (x, v)
  | none ↦ stop Stop.out_of_bounds
]

abbrev pub is_entry : ℕ → ℕ → Inode → Bool
is_entry dev inum x = ltb 0 x.ref && (x.dev == dev && x.inum == inum)

-- What the loop of `iget` ends with: the entry of the inode, or the first empty slot, if any.
pub data Lookup : Type 0 where
  hit : ℕ → Lookup
  miss : Option ℕ → Lookup

abbrev pub first_empty : Option ℕ → ℕ → Inode → Option ℕ
first_empty (some e) i x = some e
first_empty none i x = if x.ref == 0 then some i else none

unfoldable pub iget_scan : ℕ → ℕ → ℕ → Option ℕ → List Inode → Lookup
iget_scan dev inum i empty [] = miss empty
iget_scan dev inum i empty (x ∷ xs) =
    let rest = iget_scan dev inum (i + 1) (first_empty empty i x) xs in
    if is_entry dev inum x then hit i else rest

abbrev pub new_entry : ℕ → ℕ → Inode → Inode
new_entry dev inum x = record x { dev = dev; inum = inum; ref = 1; valid = false }

unfoldable pub iget_found : ℕ → ℕ → Lookup → V ℕ
iget_found dev inum (hit i) = do modify (edit_inode i (λ x. record x { ref = x.ref + 1 })); pure i
iget_found dev inum (miss none) = halt Stop.no_inodes
iget_found dev inum (miss (some i)) = do modify (edit_inode i (new_entry dev inum)); pure i

unfoldable pub iget : ℕ → ℕ → V ℕ
iget dev inum = do r ← read (λ v. iget_scan dev inum 0 none v.icache); iget_found dev inum r

unfoldable pub idup : ℕ → V ℕ
idup i = do modify (edit_inode i (λ x. record x { ref = x.ref + 1 })); pure i

abbrev free_dinode : ℕ → Dinode
free_dinode type = record {
  type = type;
  major = 0;
  minor = 0;
  nlink = 0;
  size = 0;
  addrs = replicate (ndirect + 1) 0;
}

-- The loop of `ialloc`; `n` numbers are left.
unfoldable pub find_free_inode : ℕ → ℕ → (ℕ → Dinode) → Option ℕ
find_free_inode zero inum dinodes = none
find_free_inode (suc n) inum dinodes =
    let rest = find_free_inode n (inum + 1) dinodes in
    if (dinodes inum).type == 0 then some inum else rest

unfoldable pub take_inode : ℕ → ℕ → Option ℕ → V ℕ
take_inode dev type none = halt Stop.no_inodes
take_inode dev type (some inum) = do
  modify (λ v. record v { dinodes = update v.dinodes inum (free_dinode type) })
  iget dev inum

unfoldable pub ialloc : ℕ → ℕ → V ℕ
ialloc dev type = do
  r ← read (λ v. find_free_inode (v.sb.ninodes - 1) 1 v.dinodes)
  take_inode dev type r

unfoldable pub iupdate : ℕ → V (Unit {0})
iupdate i = do x ← load_inode i; modify (λ v. record v { dinodes = update v.dinodes x.inum x.copy })

-- What `ilock` reads from the disk, once the inode is locked.
unfoldable pub read_inode : ℕ → Inode → V (Unit {0})
read_inode i x = branch x.valid (pure tt) (do
  d ← read (λ v. v.dinodes x.inum)
  modify (edit_inode i (λ y. record y { copy = d; valid = true }))
  require (not (d.type == 0)) Stop.ilock_no_type)

unfoldable pub lock_with : ℕ → Option SleepLock → V (Unit {0})
lock_with i none = halt Stop.sleeps_locked
lock_with i (some lk) = modify (edit_inode i (λ y. record y { lock = lk }))

-- `me` is the pid of the process.
unfoldable pub ilock : ℕ → ℕ → V (Unit {0})
ilock me i = do
  x ← load_inode i
  require (not (ltb x.ref 1)) Stop.ilock_unreferenced
  lock_with i (acquiresleep me x.lock)
  read_inode i x

unfoldable pub iunlock : ℕ → V (Unit {0})
iunlock i = do
  x ← load_inode i
  require (holdingsleep x.lock && not (ltb x.ref 1)) Stop.iunlock_unlocked
  modify (edit_inode i (λ y. record y { lock = releasesleep y.lock }))
