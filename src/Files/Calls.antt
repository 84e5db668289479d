-- ===== src/Files/Calls.antt =====
-- lab6/xv6-public/sysfile.c: the calls on descriptors, with the argument `fd` fetched as a word.
use cs333_os_labs.FileTable.{File, fd_inode}
use cs333_os_labs.Files.{
  C, Kernel, alloc_file, close_file, dup_file, edit_file, fileread, filestat, filewrite, in_volume,
  pipealloc,
}
use cs333_os_labs.Fs.{V, t_dir}
use cs333_os_labs.Fs.Calls.{create, t_file}
use cs333_os_labs.Fs.Content.{Stat, iunlockput}
use cs333_os_labs.Fs.Inodes.{ilock, iunlock, load_inode}
use cs333_os_labs.Fs.Paths.{Found, namei}
use cs333_os_labs.Fs.Transfer.{Devsw}
use cs333_os_labs.Pipe.{ReadResult, Written, read_failed, write_failed}
use cs333_os_labs.Prelude.{
  Bool, List, Option, [], false, get_or, if◌then◌else◌, leb, none, not, set, some, true, ℕ, ◌%◌,
  ◌&&◌, ◌+◌, ◌/◌, ◌==◌, ◌||◌, ◌∷◌,
}
use cs333_os_labs.Prelude.Outcome.{branch, modify, pure, read, ◌>>=◌, ◌>>◌}
use cs333_os_labs.Proc.Table.{nofile}

-- `proc->ofile[fd] = r`
abbrev pub put_fd : ℕ → Option ℕ → Kernel → Kernel
put_fd fd r k = record k { ofile = set k.ofile fd r }

-- The tests of `argfd`: the file behind a descriptor. A negative one is a word from 2^31 on.
unfoldable pub fd_file : ℕ → C (Option ℕ)
fd_file fd = read (λ k. if leb nofile fd then none else get_or k.ofile fd none)

-- The loop of `fdalloc`.
unfoldable pub first_fd : ℕ → List (Option ℕ) → Option ℕ
first_fd fd [] = none
first_fd fd (none ∷ rest) = some fd
first_fd fd (some i ∷ rest) = first_fd (fd + 1) rest

unfoldable pub fd_taken : ℕ → Option ℕ → C (Option ℕ)
fd_taken i none = pure none
fd_taken i (some fd) = do modify (put_fd fd (some i)); pure (some fd)

unfoldable pub fdalloc : ℕ → C (Option ℕ)
fdalloc i = do r ← read (λ k. first_fd 0 k.ofile); fd_taken i r

unfoldable pub dup_fd : ℕ → Option ℕ → C (Option ℕ)
dup_fd i none = pure none
dup_fd i (some fd) = do dup_file i; pure (some fd)

unfoldable pub dup_open : Option ℕ → C (Option ℕ)
dup_open none = pure none
dup_open (some i) = do r ← fdalloc i; dup_fd i r

unfoldable pub sys_dup : ℕ → C (Option ℕ)
sys_dup fd = do r ← fd_file fd; dup_open r

unfoldable pub close_open : ℕ → Option ℕ → C Bool
close_open fd none = pure false
close_open fd (some i) = do modify (put_fd fd none); close_file i; pure true

unfoldable pub sys_close : ℕ → C Bool
sys_close fd = do r ← fd_file fd; close_open fd r

unfoldable pub give_back : ℕ → ℕ → C (Option (ℕ × ℕ))
give_back rf wf = do close_file rf; close_file wf; pure none

unfoldable pub pipe_fd1 : ℕ → ℕ → ℕ → Option ℕ → C (Option (ℕ × ℕ))
pipe_fd1 rf wf fd0 none = do modify (put_fd fd0 none); give_back rf wf
pipe_fd1 rf wf fd0 (some fd1) = pure (some (fd0, fd1))

unfoldable pub pipe_fd0 : ℕ → ℕ → Option ℕ → C (Option (ℕ × ℕ))
pipe_fd0 rf wf none = give_back rf wf
pipe_fd0 rf wf (some fd0) = do r ← fdalloc wf; pipe_fd1 rf wf fd0 r

unfoldable pub pipe_fds : Option (ℕ × ℕ) → C (Option (ℕ × ℕ))
pipe_fds none = pure none
pipe_fds (some (rf, wf)) = do r ← fdalloc rf; pipe_fd0 rf wf r

-- `sys_pipe`: the two descriptors.
unfoldable pub sys_pipe : C (Option (ℕ × ℕ))
sys_pipe = do r ← pipealloc; pipe_fds r

-- The bits of fcntl.h in a mode.
abbrev pub o_wronly : ℕ → Bool
o_wronly mode = mode % 2 == 1

abbrev pub o_rdwr : ℕ → Bool
o_rdwr mode = mode / 2 % 2 == 1

abbrev pub o_create : ℕ → Bool
o_create mode = mode / 512 % 2 == 1

-- What `sys_open` fills in.
abbrev pub opened : ℕ → ℕ → File → File
opened ip mode f = record f {
  kind = fd_inode;
  ip = ip;
  off = 0;
  readable = not (o_wronly mode);
  writable = o_wronly mode || o_rdwr mode;
}

module _ (devsw : Devsw) (me : ℕ) where
  unfoldable pub read_open : ℕ → Option ℕ → C ReadResult
  read_open n none = pure read_failed
  read_open n (some i) = fileread devsw me i n

  unfoldable pub sys_read : ℕ → ℕ → C ReadResult
  sys_read fd n = do r ← fd_file fd; read_open n r

  unfoldable pub write_open : List ℕ → Option ℕ → C Written
  write_open xs none = pure write_failed
  write_open xs (some i) = filewrite devsw me i xs

  unfoldable pub sys_write : ℕ → List ℕ → C Written
  sys_write fd xs = do r ← fd_file fd; write_open xs r

  unfoldable pub stat_open : Option ℕ → C (Option Stat)
  stat_open none = pure none
  stat_open (some i) = filestat devsw me i

  unfoldable pub sys_fstat : ℕ → C (Option Stat)
  sys_fstat fd = do r ← fd_file fd; stat_open r

  unfoldable pub open_found : ℕ → Found → V (Option ℕ)
  open_found mode none = pure none
  open_found mode (some (ip, rest)) = do
    ilock me ip
    x ← load_inode ip
    branch (x.copy.type == t_dir && not (mode == 0)) (do iunlockput ip; pure none) (pure (some ip))

  unfoldable pub open_path : ℕ → List ℕ → ℕ → V (Option ℕ)
  open_path cwd path mode =
      branch (o_create mode) (create devsw me t_file 0 0 cwd path)
        (do r ← namei devsw me cwd path; open_found mode r)

  unfoldable pub open_fd : ℕ → ℕ → ℕ → Option ℕ → C (Option ℕ)
  open_fd ip mode f none = do close_file f; in_volume (iunlockput ip); pure none
  open_fd ip mode f (some fd) = do
    in_volume (iunlock ip)
    modify (edit_file f (opened ip mode))
    pure (some fd)

  unfoldable pub open_file : ℕ → ℕ → Option ℕ → C (Option ℕ)
  open_file ip mode none = do in_volume (iunlockput ip); pure none
  open_file ip mode (some f) = do r ← fdalloc f; open_fd ip mode f r

  unfoldable pub open_inode : ℕ → Option ℕ → C (Option ℕ)
  open_inode mode none = pure none
  open_inode mode (some ip) = do r ← alloc_file; open_file ip mode r

  unfoldable pub sys_open : ℕ → List ℕ → ℕ → C (Option ℕ)
  sys_open cwd path mode = do r ← in_volume (open_path cwd path mode); open_inode mode r
