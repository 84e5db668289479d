-- ===== src/Fs/Calls.antt =====
-- lab6/xv6-public/sysfile.c: the calls that change directories: link, unlink, create, mkdir, mknod and
-- chdir, once their arguments have been fetched, for a process `me`. Those that return 0 or -1 give
-- true or false. begin_op and end_op, which open and close a transaction of the log, are left to Log.
pub mod Emptiness
use cs333_os_labs.Fs.{V, t_dev, t_dir}
use cs333_os_labs.Fs.Content.{iput, iunlockput}
use cs333_os_labs.Fs.Directory.{
  dirent_inum, dirent_rounds, direntsize, dirlink, dirlookup, namecmp_is_zero, whole_dirent,
}
use cs333_os_labs.Fs.Inodes.{edit_copy, ialloc, ilock, iunlock, iupdate, load_inode}
use cs333_os_labs.Fs.Paths.{Found, namei, nameiparent}
use cs333_os_labs.Fs.Transfer.{Devsw, readi, writei}
use cs333_os_labs.Prelude.{
  Bool, List, Option, [], false, leb, ltb, none, not, replicate, some, suc, true, zero, ℕ, ◌%◌,
  ◌&&◌, ◌*◌, ◌+◌, ◌-◌, ◌==◌, ◌^◌, ◌||◌, ◌∷◌,
}
use cs333_os_labs.Prelude.Outcome.{Stop, branch, halt, modify, pure, require, ◌>>=◌, ◌>>◌}

abbrev pub t_file : ℕ
t_file = 2

abbrev edit_nlink : (ℕ → ℕ) → ℕ → V (Unit {0})
edit_nlink f i = do modify (edit_copy i (λ d. record d { nlink = f d.nlink })); iupdate i

-- A `short` that is counted up or down.
abbrev short_mod : ℕ
short_mod = 2 ^ 16

abbrev pub one_more_link : ℕ → V (Unit {0})
one_more_link i = edit_nlink (λ n. (n + 1) % short_mod) i

abbrev pub one_link_less : ℕ → V (Unit {0})
one_link_less i = edit_nlink (λ n. (n + (short_mod - 1)) % short_mod) i

-- The loop of `isdirempty`.
unfoldable pub empty_from : ℕ → Devsw → ℕ → ℕ → ℕ → V Bool
empty_from zero devsw i size off = halt Stop.out_of_fuel
empty_from (suc fuel) devsw i size off =
    let rest = empty_from fuel devsw i size (off + direntsize) in
    branch (ltb off size)
      (do
        r ← readi devsw i off direntsize
        de ← whole_dirent r
        branch (dirent_inum de == 0) rest (pure false))
      (pure true)

unfoldable pub isdirempty : Devsw → ℕ → V Bool
isdirempty devsw i = do
  dp ← load_inode i
  empty_from (dirent_rounds dp.copy.size) devsw i dp.copy.size (2 * direntsize)

abbrev dot : List ℕ
dot = b'.' ∷ []

abbrev dotdot : List ℕ
dotdot = b'.' ∷ b'.' ∷ []

-- `nlink < 1`, for a signed `short`.
abbrev is_unlinked : ℕ → Bool
is_unlinked n = n == 0 || leb (2 ^ 15) n

abbrev whole_write : Option ℕ → V (Unit {0})
whole_write none = halt Stop.short_write
whole_write (some n) = require (n == direntsize) Stop.short_write

module _ (devsw : Devsw) (me : ℕ) where
  abbrev give_up : ℕ → V Bool
  give_up i = do iunlockput i; pure false

  -- The end of `sys_unlink`.
  unfoldable pub unlink_at : ℕ → ℕ → ℕ → V Bool
  unlink_at dp ip off = do
    r ← writei devsw dp off (replicate direntsize 0)
    whole_write r
    x ← load_inode ip
    branch (x.copy.type == t_dir) (one_link_less dp) (pure tt)
    iunlockput dp
    one_link_less ip
    iunlockput ip
    pure true

  unfoldable pub unlink_entry : ℕ → Option (ℕ × ℕ) → V Bool
  unlink_entry dp none = give_up dp
  unlink_entry dp (some (ip, off)) = do
    ilock me ip
    x ← load_inode ip
    require (not (is_unlinked x.copy.nlink)) Stop.unlink_unlinked
    empty ← branch (x.copy.type == t_dir) (isdirempty devsw ip) (pure true)
    branch empty (unlink_at dp ip off) (do iunlockput ip; give_up dp)

  unfoldable pub unlink_in : Found → V Bool
  unlink_in none = pure false
  unlink_in (some (dp, name)) = do
    ilock me dp
    branch (namecmp_is_zero name dot || namecmp_is_zero name dotdot) (give_up dp)
        (do r ← dirlookup devsw dp name; unlink_entry dp r)

  unfoldable pub sys_unlink : ℕ → List ℕ → V Bool
  sys_unlink cwd path = do r ← nameiparent devsw me cwd path; unlink_in r

  -- The label `bad` of `sys_link`.
  unfoldable pub undo_link : ℕ → V Bool
  undo_link ip = do ilock me ip; one_link_less ip; iunlockput ip; pure false

  unfoldable pub link_to : ℕ → Found → V Bool
  link_to ip none = undo_link ip
  link_to ip (some (dp, name)) = do
    ilock me dp
    d ← load_inode dp
    x ← load_inode ip
    ok ← branch (d.dev == x.dev) (dirlink devsw dp name x.inum) (pure false)
    iunlockput dp
    branch ok (do iput ip; pure true) (undo_link ip)

  unfoldable pub link_from : ℕ → List ℕ → Found → V Bool
  link_from cwd path none = pure false
  link_from cwd path (some (ip, rest)) = do
    ilock me ip
    x ← load_inode ip
    branch (x.copy.type == t_dir) (give_up ip)
        (do one_more_link ip; iunlock ip; r ← nameiparent devsw me cwd path; link_to ip r)

  unfoldable pub sys_link : ℕ → List ℕ → List ℕ → V Bool
  sys_link cwd old path = do r ← namei devsw me cwd old; link_from cwd path r

  -- The entries . and .. of a new directory.
  unfoldable pub make_dots : ℕ → ℕ → V (Unit {0})
  make_dots dp ip = do
    one_more_link dp
    x ← load_inode ip
    ok ← dirlink devsw ip dot x.inum
    require ok Stop.create_failed
    d ← load_inode dp
    ok' ← dirlink devsw ip dotdot d.inum
    require ok' Stop.create_failed

  module _ (type major minor : ℕ) where
    unfoldable pub create_entry : ℕ → List ℕ → Option (ℕ × ℕ) → V (Option ℕ)
    create_entry dp name (some (ip, off)) = do
      iunlockput dp
      ilock me ip
      x ← load_inode ip
      branch (type == t_file && x.copy.type == t_file) (pure (some ip))
          (do iunlockput ip; pure none)
    create_entry dp name none = do
      d ← load_inode dp
      ip ← ialloc d.dev type
      ilock me ip
      modify (edit_copy ip (λ c. record c { major = major; minor = minor; nlink = 1 }))
      iupdate ip
      branch (type == t_dir) (make_dots dp ip) (pure tt)
      x ← load_inode ip
      ok ← dirlink devsw dp name x.inum
      require ok Stop.create_failed
      iunlockput dp
      pure (some ip)

    unfoldable pub create_in : Found → V (Option ℕ)
    create_in none = pure none
    create_in (some (dp, name)) = do
      ilock me dp
      r ← dirlookup devsw dp name
      create_entry dp name r

    unfoldable pub create : ℕ → List ℕ → V (Option ℕ)
    create cwd path = do r ← nameiparent devsw me cwd path; create_in r

  abbrev put_new : Option ℕ → V Bool
  put_new none = pure false
  put_new (some ip) = do iunlockput ip; pure true

  unfoldable pub sys_mkdir : ℕ → List ℕ → V Bool
  sys_mkdir cwd path = do r ← create t_dir 0 0 cwd path; put_new r

  unfoldable pub sys_mknod : ℕ → List ℕ → ℕ → ℕ → V Bool
  sys_mknod cwd path major minor = do
    r ← create t_dev (major % short_mod) (minor % short_mod) cwd path
    put_new r

  unfoldable pub chdir_to : ℕ → Found → V (Option ℕ)
  chdir_to cwd none = pure none
  chdir_to cwd (some (ip, rest)) = do
    ilock me ip
    x ← load_inode ip
    branch (not (x.copy.type == t_dir)) (do iunlockput ip; pure none)
        (do iunlock ip; iput cwd; pure (some ip))

  -- `sys_chdir`: the new current directory.
  unfoldable pub sys_chdir : ℕ → List ℕ → V (Option ℕ)
  sys_chdir cwd path = do r ← namei devsw me cwd path; chdir_to cwd r
