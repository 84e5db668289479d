-- ===== src/Files.antt =====
-- lab6/xv6-public/file.c, pipe.c and sysfile.c: open files over pipes and inodes, and the calls on
-- descriptors, once their arguments have been fetched. One process runs; its descriptors are
-- `ofile`. The references that other processes hold are counted in `ref` alone. begin_op and end_op
-- are left to Log, and a wakeup has nobody to wake.
pub mod Calls
pub mod Counts
pub mod Write
use mathlib.Core.Option
use cs333_os_labs.FileTable.{
  Closing, File, FileType, close_pipe, fd_inode, fd_none, fd_pipe, filealloc, fileclose, filedup,
  nothing, put_inode,
}
use cs333_os_labs.Fs.{V, Volume}
use cs333_os_labs.Fs.Content.{Stat, iput, stati}
use cs333_os_labs.Fs.Inodes.{ilock, iunlock}
use cs333_os_labs.Fs.Transfer.{Devsw, readi, writei}
use cs333_os_labs.Kalloc.{M, Machine, kalloc, kfree, uint_mod, update}
use cs333_os_labs.Log.{logsize}
use cs333_os_labs.Pipe.{
  Pipe, ReadResult, Written, all_written, bytes, pipe_init, pipeclose, piperead, pipewrite,
  read_failed, write_failed,
}
use cs333_os_labs.Prelude.{
  Bool, List, Option, drop, false, get_elem?, length, none, set, some, suc, take, true, zero, ℕ,
  ◌%◌, ◌*◌, ◌+◌, ◌-◌, ◌/◌, ◌==◌,
}
use cs333_os_labs.Prelude.Outcome.{
  Outcome, Stop, branch, done, halt, modify, pure, read, stop, ◌>>=◌, ◌>>◌,
}
use Prim.Native.Nat.{min}

pub record Kernel : Type 0 where
  pub files : List File
  pub ofile : List (Option ℕ)
  pub killed : Bool
  pub pipes : ℕ → Pipe  -- by the address of the page
  pub mem : Machine
  pub volume : Volume

abbrev pub C : Type 0 → Type 0
C A = Kernel → Outcome (A × Kernel)

unfoldable pub in_volume : {A : Type 0} → V A → C A
in_volume m k = elim (m k.volume) [
  | done (a, v) ↦ done (a, record k { volume = v })
  | stop e ↦ stop e
]

unfoldable pub in_machine : {A : Type 0} → M A → C A
in_machine m k = elim (m k.mem) [ done (a, s) ↦ done (a, record k { mem = s }) | stop e ↦ stop e ]

unfoldable pub load_file : ℕ → C File
load_file i k = elim (get_elem? k.files i) [ some f ↦ done (f, k) | none ↦ stop Stop.out_of_bounds ]

abbrev pub edit_file : ℕ → (File → File) → Kernel → Kernel
edit_file i g k = elim (get_elem? k.files i) [
  | some f ↦ record k { files = set k.files i (g f) }
  | none ↦ k
]

abbrev pub put_pipe : ℕ → Pipe → Kernel → Kernel
put_pipe p q k = record k { pipes = update k.pipes p q }

-- `pipeclose`
unfoldable pub close_end : ℕ → Bool → C (Unit {0})
close_end p writable = do
  r ← read (λ k. pipeclose writable (k.pipes p))
  modify (put_pipe p r.0)
  branch r.2 (in_machine (kfree p)) (pure tt)

unfoldable pub finish_close : Closing → C (Unit {0})
finish_close nothing = pure tt
finish_close (close_pipe p writable) = close_end p writable
finish_close (put_inode ip) = in_volume (iput ip)

unfoldable pub closed : Option (List File × Closing) → C (Unit {0})
closed none = halt Stop.bad_file
closed (some (fs, c)) = do modify (λ k. record k { files = fs }); finish_close c

-- `fileclose`
unfoldable pub close_file : ℕ → C (Unit {0})
close_file i = do r ← read (λ k. fileclose i k.files); closed r

unfoldable pub duplicated : Option (List File) → C (Unit {0})
duplicated none = halt Stop.bad_file
duplicated (some fs) = modify (λ k. record k { files = fs })

-- `filedup`
unfoldable pub dup_file : ℕ → C (Unit {0})
dup_file i = do r ← read (λ k. filedup i k.files); duplicated r

-- `filealloc`
unfoldable pub alloc_file : C (Option ℕ)
alloc_file k = done ((filealloc 0 k.files).0, record k { files = (filealloc 0 k.files).1 })

-- `if(r > 0) f->off += r`
unfoldable pub advance : ℕ → Option ℕ → C (Unit {0})
advance i none = pure tt
advance i (some r) = modify (edit_file i (λ f. record f { off = (f.off + r) % uint_mod }))

-- What one operation on the log has room for: the bytes of 13 blocks.
abbrev pub max_chunk : ℕ
max_chunk = (logsize - 1 - 1 - 2) / 2 * 512

abbrev pub as_read : Option (List ℕ) → ReadResult
as_read none = read_failed
as_read (some xs) = bytes xs

-- `r < 0`, `r != n1` or another round.
unfoldable pub chunk_done : ℕ → C Written → Option ℕ → C Written
chunk_done n1 next none = pure write_failed
chunk_done n1 next (some r) = branch (r == n1) next (halt Stop.short_write)

module _ (devsw : Devsw) (me : ℕ) where
  unfoldable pub stat_kind : File → FileType → C (Option Stat)
  stat_kind f fd_inode = in_volume (do ilock me f.ip; st ← stati f.ip; iunlock f.ip; pure (some st))
  stat_kind f kind = pure none

  unfoldable pub filestat : ℕ → C (Option Stat)
  filestat i = do f ← load_file i; stat_kind f f.kind

  unfoldable pub read_kind : ℕ → ℕ → File → FileType → C ReadResult
  read_kind i n f fd_none = halt Stop.bad_file
  read_kind i n f fd_pipe = do
    r ← read (λ k. piperead k.killed n (k.pipes f.pipe))
    modify (put_pipe f.pipe r.0)
    pure r.1
  read_kind i n f fd_inode = do
    in_volume (ilock me f.ip)
    r ← in_volume (readi devsw f.ip f.off n)
    advance i (Option.map length r)
    in_volume (iunlock f.ip)
    pure (as_read r)

  unfoldable pub fileread : ℕ → ℕ → C ReadResult
  fileread i n = do f ← load_file i; branch f.readable (read_kind i n f f.kind) (pure read_failed)

  -- `writei` of a part of the bytes at the offset of the file.
  unfoldable pub write_chunk : ℕ → ℕ → List ℕ → C (Option ℕ)
  write_chunk i ip xs = do
    in_volume (ilock me ip)
    f ← load_file i
    r ← in_volume (writei devsw ip f.off xs)
    advance i r
    in_volume (iunlock ip)
    pure r

  -- Each round writes a byte at least.
  unfoldable pub chunk_loop : ℕ → ℕ → ℕ → List ℕ → C Written
  chunk_loop zero i ip xs = halt Stop.out_of_fuel
  chunk_loop (suc fuel) i ip xs =
      let n1 = min (length xs) max_chunk in
      let next = chunk_loop fuel i ip (drop n1 xs) in
      branch (length xs == 0) (pure all_written)
        (do r ← write_chunk i ip (take n1 xs); chunk_done n1 next r)

  unfoldable pub write_kind : ℕ → List ℕ → File → FileType → C Written
  write_kind i xs f fd_none = halt Stop.bad_file
  write_kind i xs f fd_pipe = do
    r ← read (λ k. pipewrite k.killed xs (k.pipes f.pipe))
    modify (put_pipe f.pipe r.0)
    pure r.1
  write_kind i xs f fd_inode = chunk_loop (length xs + 1) i f.ip xs

  unfoldable pub filewrite : ℕ → List ℕ → C Written
  filewrite i xs = do
    f ← load_file i
    branch f.writable (write_kind i xs f f.kind) (pure write_failed)

-- The end of `pipealloc`.
unfoldable pub pipe_ends : ℕ → ℕ → ℕ → C (Unit {0})
pipe_ends p f0 f1 = do
  modify (λ k. put_pipe p (pipe_init (k.pipes p).buf) k)
  modify
      (edit_file f0 (λ f. record f { kind = fd_pipe; readable = true; writable = false; pipe = p }))
  modify
      (edit_file f1 (λ f. record f { kind = fd_pipe; readable = false; writable = true; pipe = p }))

unfoldable pub pipe_page : ℕ → ℕ → Option ℕ → C (Option (ℕ × ℕ))
pipe_page f0 f1 none = do close_file f0; close_file f1; pure none
pipe_page f0 f1 (some p) = do pipe_ends p f0 f1; pure (some (f0, f1))

unfoldable pub pipe_second : ℕ → Option ℕ → C (Option (ℕ × ℕ))
pipe_second f0 none = do close_file f0; pure none
pipe_second f0 (some f1) = do p ← in_machine kalloc; pipe_page f0 f1 p

unfoldable pub pipe_first : Option ℕ → C (Option (ℕ × ℕ))
pipe_first none = pure none
pipe_first (some f0) = do r ← alloc_file; pipe_second f0 r

unfoldable pub pipealloc : C (Option (ℕ × ℕ))
pipealloc = do r ← alloc_file; pipe_first r
