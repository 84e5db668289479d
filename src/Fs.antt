-- ===== src/Fs.antt =====
-- lab6/xv6-public/fs.c and fs.h: the file system above the log: blocks, inodes, file content,
-- directories and paths. There is one disk, seen through the buffer cache and the log, so a block
-- reads as it was last written. The bitmap is a Boolean for each block and the inode blocks are an
-- inode for each number, since mkfs gives them regions of their own; all other blocks are bytes.
pub mod Blocks
pub mod Inodes
pub mod Content
pub mod Transfer
pub mod Directory
pub mod Paths
pub mod Calls
use cs333_os_labs.Bio.{SleepLock}
use cs333_os_labs.Prelude.{Bool, List, if◌then◌else◌, ℕ, ◌%◌, ◌*◌, ◌+◌, ◌/◌, ◌==◌}
use cs333_os_labs.Prelude.Outcome.{Outcome}

abbrev pub bsize : ℕ
bsize = 512

abbrev pub ndirect : ℕ
ndirect = 12

abbrev pub nindirect : ℕ
nindirect = bsize / 4

abbrev pub maxfile : ℕ
maxfile = ndirect + nindirect

abbrev pub ninode : ℕ
ninode = 50

abbrev pub rootdev : ℕ
rootdev = 1

abbrev pub rootino : ℕ
rootino = 1

-- `T_DIR`, `T_FILE` and `T_DEV` of stat.h; 0 is a free inode.
abbrev pub t_dir : ℕ
t_dir = 1

abbrev pub t_dev : ℕ
t_dev = 3

pub record Superblock : Type 0 where
  pub size : ℕ
  pub nblocks : ℕ
  pub ninodes : ℕ

-- `struct dinode`. A `short` is its bit pattern.
pub record Dinode : Type 0 where
  pub type : ℕ
  pub major : ℕ
  pub minor : ℕ
  pub nlink : ℕ
  pub size : ℕ
  pub addrs : List ℕ

-- `struct inode`, with the fields of the disk inode in `copy`.
pub record Inode : Type 0 where
  pub dev : ℕ
  pub inum : ℕ
  pub ref : ℕ
  pub lock : SleepLock
  pub valid : Bool
  pub copy : Dinode

pub record Volume : Type 0 where
  pub sb : Superblock
  pub used : ℕ → Bool  -- the bitmap
  pub dinodes : ℕ → Dinode
  pub bytes : ℕ → ℕ → ℕ
  pub icache : List Inode

abbrev pub V : Type 0 → Type 0
V A = Volume → Outcome (A × Volume)

-- Entry `j` of a block that is read as an array of `uint`, low byte first.
abbrev pub word_at : (ℕ → ℕ) → ℕ → ℕ
word_at d j = d (4 * j) + 256 * d (4 * j + 1) + 65536 * d (4 * j + 2) + 16777216 * d (4 * j + 3)

abbrev pub byte_of : ℕ → ℕ → ℕ
byte_of w k =
    if k == 0
    then w % 256
    else if k == 1
    then w / 256 % 256
    else if k == 2
    then w / 65536 % 256
    else w / 16777216 % 256

abbrev pub put_word : (ℕ → ℕ) → ℕ → ℕ → ℕ → ℕ
put_word d j w k = if k / 4 == j then byte_of w (k % 4) else d k
