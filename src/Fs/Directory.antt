-- ===== src/Fs/Directory.antt =====
-- lab6/xv6-public/fs.c: namecmp, dirlookup and dirlink. A name is its bytes before the NUL.
pub mod Lookup
pub mod Insert
use cs333_os_labs.Fs.{Inode, V, t_dir}
use cs333_os_labs.Fs.Content.{iput}
use cs333_os_labs.Fs.Inodes.{iget, load_inode}
use cs333_os_labs.Fs.Transfer.{Devsw, readi, writei}
use cs333_os_labs.Kalloc.{uint_mod}
use cs333_os_labs.Prelude.{
  Bool, List, Option, [], drop, false, get_or, if◌then◌else◌, length, ltb, none, not, some, suc,
  true, zero, ℕ, ◌%◌, ◌&&◌, ◌*◌, ◌+◌, ◌/◌, ◌==◌, ◌∷◌,
}
use cs333_os_labs.Prelude.Outcome.{Stop, branch, halt, pure, require, ◌>>=◌, ◌>>◌}

abbrev pub dirsiz : ℕ
dirsiz = 14

-- `sizeof(struct dirent)`
abbrev pub direntsize : ℕ
direntsize = 16

-- `strncmp(s, t, n) == 0` from byte `k` on; a NUL stands after the last byte of a list.
unfoldable pub same_from : ℕ → ℕ → List ℕ → List ℕ → Bool
same_from zero k s t = true
same_from (suc n) k s t =
    let rest = same_from n (k + 1) s t in
    if not (get_or s k 0 == 0) && get_or s k 0 == get_or t k 0
    then rest
    else get_or s k 0 == get_or t k 0

unfoldable pub namecmp_is_zero : List ℕ → List ℕ → Bool
namecmp_is_zero s t = same_from dirsiz 0 s t

abbrev pub dirent_inum : List ℕ → ℕ
dirent_inum de = get_or de 0 0 + 256 * get_or de 1 0

abbrev pub dirent_name : List ℕ → List ℕ
dirent_name de = drop 2 de

-- A `readi` of one directory entry has to give all of it.
unfoldable pub whole_dirent : Option (List ℕ) → V (List ℕ)
whole_dirent none = halt Stop.short_dirent
whole_dirent (some de) = do require (length de == direntsize) Stop.short_dirent; pure de

-- A round for each entry of a directory of `size` bytes, and one more.
abbrev pub dirent_rounds : ℕ → ℕ
dirent_rounds size = size / direntsize + 2

unfoldable pub lookup_loop : ℕ → Devsw → ℕ → Inode → List ℕ → ℕ → V (Option (ℕ × ℕ))
lookup_loop zero devsw i dp name off = halt Stop.out_of_fuel
lookup_loop (suc fuel) devsw i dp name off =
    let rest = lookup_loop fuel devsw i dp name ((off + direntsize) % uint_mod) in
    branch (ltb off dp.copy.size)
      (do
        r ← readi devsw i off direntsize
        de ← whole_dirent r
        branch (dirent_inum de == 0) rest (
            branch (namecmp_is_zero name (dirent_name de))
              (do j ← iget dp.dev (dirent_inum de); pure (some (j, off))) rest))
      (pure none)

-- The inode of the entry, and the offset of the entry.
unfoldable pub dirlookup : Devsw → ℕ → List ℕ → V (Option (ℕ × ℕ))
dirlookup devsw i name = do
  dp ← load_inode i
  require (dp.copy.type == t_dir) Stop.not_directory
  lookup_loop (dirent_rounds dp.copy.size) devsw i dp name 0

-- The loop of `dirlink` that looks for an empty entry: the offset where it ends.
unfoldable pub empty_loop : ℕ → Devsw → ℕ → ℕ → ℕ → V ℕ
empty_loop zero devsw i size off = halt Stop.out_of_fuel
empty_loop (suc fuel) devsw i size off =
    let rest = empty_loop fuel devsw i size ((off + direntsize) % uint_mod) in
    branch (ltb off size)
      (do
        r ← readi devsw i off direntsize
        de ← whole_dirent r
        branch (dirent_inum de == 0) (pure off) rest)
      (pure off)

-- `strncpy` into the field of an entry.
abbrev pub name_field : ℕ → List ℕ → List ℕ
name_field zero name = []
name_field (suc n) [] = 0 ∷ name_field n []
name_field (suc n) (c ∷ name) = c ∷ name_field n name

abbrev pub make_dirent : List ℕ → ℕ → List ℕ
make_dirent name inum = inum % 256 ∷ inum / 256 % 256 ∷ name_field dirsiz name

unfoldable pub written_dirent : Option ℕ → V (Unit {0})
written_dirent none = halt Stop.dirlink_failed
written_dirent (some n) = require (n == direntsize) Stop.dirlink_failed

unfoldable pub link_new : Devsw → ℕ → List ℕ → ℕ → Option (ℕ × ℕ) → V Bool
link_new devsw i name inum (some (j, off)) = do iput j; pure false
link_new devsw i name inum none = do
  dp ← load_inode i
  off ← empty_loop (dirent_rounds dp.copy.size) devsw i dp.copy.size 0
  r ← writei devsw i off (make_dirent name inum)
  written_dirent r
  pure true

-- `dirlink`: false where it returns -1.
unfoldable pub dirlink : Devsw → ℕ → List ℕ → ℕ → V Bool
dirlink devsw i name inum = do r ← dirlookup devsw i name; link_new devsw i name inum r
