-- ===== src/Tests/Descriptors.antt =====
-- Open files and descriptors of a process: one file of three bytes, open at descriptor 0.
use cs333_os_labs.Bio.{SleepLock, acquiresleep, holdingsleep, releasesleep, unlocked}
use cs333_os_labs.FileTable.{File, fd_inode, fd_none}
use cs333_os_labs.Files.{Kernel, fileread, filewrite}
use cs333_os_labs.Files.Calls.{open_found, open_path, sys_dup, sys_open, sys_pipe}
use cs333_os_labs.Files.Counts.{IsCounted, uses}
use cs333_os_labs.Files.Counts.Descriptors.{Duplicates, sys_dup-IsCounted}
use cs333_os_labs.Files.Counts.OpenCall.{OpensFile, sys_open-OpensFile}
use cs333_os_labs.Files.Counts.PipeCall.{Opens, Unshared, sys_pipe-Opens}
use cs333_os_labs.Files.Write.{IsOpenOn, Wrote}
use cs333_os_labs.Files.Write.Chunks.{filewrite_lem}
use cs333_os_labs.Files.Write.ReadBack.{fileread-filewrite}
use cs333_os_labs.Fs.{Inode, Volume}
use cs333_os_labs.Fs.Content.{drop_ref, iput, iunlockput}
use cs333_os_labs.Fs.Content.Blockmap.{IsAllocated}
use cs333_os_labs.Fs.Inodes.{
  iget, iget_found, iget_scan, ilock, iunlock, load_inode, lock_with, read_inode,
}
use cs333_os_labs.Fs.Paths.{finish_walk, namei, namex, skip_slashes, skipelem, walk, walk_step}
use cs333_os_labs.Fs.Transfer.{Devsw}
use cs333_os_labs.Kalloc.{Machine, bad_page, zero_pte}
use cs333_os_labs.Pipe.{Pipe, all_written, bytes}
use cs333_os_labs.Prelude.{
  Option, [], ap, arith, false, get_elem?, ltb, none, refl, replicate, some, some-injective, suc,
  sym, true, zero, ℕ, ◌+◌, ◌∷◌, ◌≡◌,
}
use cs333_os_labs.Prelude.Outcome.{code, done}

abbrev no_devices : Devsw
no_devices major = none

abbrev pub a_file : File
a_file = record {
  kind = fd_inode;
  ref = 1;
  readable = true;
  writable = true;
  pipe = 0;
  ip = 0;
  off = 1;
}

abbrev free_file : File
free_file = record {
  kind = fd_none;
  ref = 0;
  readable = false;
  writable = false;
  pipe = 0;
  ip = 0;
  off = 0;
}

abbrev free_inode : Inode
free_inode = record {
  dev = 1;
  inum = 2;
  ref = 1;
  lock = unlocked;
  valid = true;
  copy = record { type = 2; major = 0; minor = 0; nlink = 1; size = 3; addrs = 5 ∷ replicate 12 0 };
}

-- The root directory.
abbrev root_inode : Inode
root_inode = record free_inode {
  inum = 1;
  copy = record { type = 1; major = 0; minor = 0; nlink = 1; size = 0; addrs = replicate 13 0 };
}

abbrev volume : Volume
volume = record {
  sb = record { size = 10; nblocks = 5; ninodes = 4 };
  used = λ b. ltb b 6;
  dinodes = λ n. free_inode.copy;
  bytes = λ b k. b + k;
  icache = free_inode ∷ root_inode ∷ [];
}

abbrev machine : Machine
machine = record {
  kend = 0x80100000;
  kdata = 0x80108000;
  use_lock = true;
  freelist = 0x80300000 ∷ [];
  freepg_cnt = 1;
  cnt = λ f. 0;
  bytes = λ f off. 0;
  entry = λ f i. zero_pte;
}

abbrev old_pipe : Pipe
old_pipe = record {
  buf = replicate 512 0;
  nread = 0;
  nwrite = 0;
  readopen = false;
  writeopen = false;
}

abbrev pub kernel : Kernel
kernel = record {
  files = a_file ∷ free_file ∷ free_file ∷ [];
  ofile = some 0 ∷ replicate 15 none;
  killed = false;
  pipes = λ p. old_pipe;
  mem = machine;
  volume = volume;
}

-- No other process has a file open.
abbrev nowhere : ℕ → ℕ
nowhere j = 0

kernel_counts :
    (j : ℕ) (f : File) → get_elem? kernel.files j ≡ some f → f.ref ≡ uses j kernel.ofile + nowhere j
kernel_counts zero f e = ap File.ref (sym (some-injective a_file f e))
kernel_counts (suc zero) f e = ap File.ref (sym (some-injective free_file f e))
kernel_counts (suc (suc zero)) f e = ap File.ref (sym (some-injective free_file f e))
kernel_counts (suc (suc (suc j))) f e = cc

kernel_idle : (j : ℕ) (f : File) → get_elem? kernel.files j ≡ some f → f.ref ≡ 0 → f.kind ≡ fd_none
kernel_idle zero f e z = absurd (omega (arith, z, ap File.ref (some-injective a_file f e)))
kernel_idle (suc zero) f e z = ap File.kind (sym (some-injective free_file f e))
kernel_idle (suc (suc zero)) f e z = ap File.kind (sym (some-injective free_file f e))
kernel_idle (suc (suc (suc j))) f e z = cc

kernel-IsCounted : IsCounted nowhere kernel.files kernel.ofile
kernel-IsCounted = record {
  width = refl;
  counts = kernel_counts;
  named = λ j h. ground arith;
  idle = kernel_idle;
}

sys_dup-IsCounted_example :
    (a : Option ℕ) × (t : Kernel) × (sys_dup 0 kernel ≡ done (a, t))
    × IsCounted nowhere t.files t.ofile
    × Duplicates 0 kernel a t
sys_dup-IsCounted_example = sys_dup-IsCounted nowhere kernel kernel-IsCounted 0

machine-Unshared : Unshared machine
unfolding bad_page
machine-Unshared = ((refl, refl), tt)

sys_pipe-Opens_example :
    (a : Option (ℕ × ℕ)) × (t : Kernel) × (sys_pipe kernel ≡ done (a, t)) × Opens nowhere kernel a t
sys_pipe-Opens_example = sys_pipe-Opens nowhere kernel machine-Unshared kernel-IsCounted

volume-IsAllocated : IsAllocated volume.bytes free_inode.copy.addrs 1
volume-IsAllocated = record {
  in_range = omega arith;
  present = λ a l. ground arith;
  indirect = λ l. absurd (omega arith);
  distinct = λ a b l m ne. absurd (ne (omega arith));
  apart = λ a l. ground arith;
}

kernel-IsOpenOn : IsOpenOn 0 1 kernel a_file free_inode
kernel-IsOpenOn = record {
  at_file = refl;
  at_inode = refl;
  referenced = omega arith;
  valid = refl;
  free = refl;
  plain = λ e. absurd (omega (arith, e));
  allocated = volume-IsAllocated;
  sized = omega arith;
  inside = omega arith;
}

filewrite_lem_example :
    (t : Kernel) × (filewrite no_devices 1 0 (7 ∷ 8 ∷ 9 ∷ []) kernel ≡ done (all_written, t))
    × Wrote 0 1 (7 ∷ 8 ∷ 9 ∷ []) kernel a_file free_inode t
filewrite_lem_example =
    filewrite_lem no_devices 1 0 1 (omega arith) (7 ∷ 8 ∷ 9 ∷ []) kernel a_file free_inode
      kernel-IsOpenOn refl refl (omega arith)

-- The same inode is open at the second place, for reading.
abbrev reader : File
reader = record a_file { writable = false }

abbrev shared : Kernel
shared = record kernel { files = a_file ∷ reader ∷ free_file ∷ [] }

shared-IsOpenOn : IsOpenOn 0 1 shared a_file free_inode
shared-IsOpenOn = record {
  at_file = refl;
  at_inode = refl;
  referenced = omega arith;
  valid = refl;
  free = refl;
  plain = λ e. absurd (omega (arith, e));
  allocated = volume-IsAllocated;
  sized = omega arith;
  inside = omega arith;
}

fileread-filewrite_example :
    (t u : Kernel) × (filewrite no_devices 1 0 (7 ∷ 8 ∷ 9 ∷ []) shared ≡ done (all_written, t))
    × (fileread no_devices 1 1 3 t ≡ done (bytes (7 ∷ 8 ∷ 9 ∷ []), u))
fileread-filewrite_example =
    fileread-filewrite no_devices 1 0 1 1 (7 ∷ 8 ∷ 9 ∷ []) shared a_file reader free_inode
      shared-IsOpenOn (λ e. absurd (omega (arith, e))) refl refl refl (omega arith) (omega arith)
      refl refl refl refl

-- The volume with the root directory referenced once more, and locked by process 1, or by none.
abbrev with_root : SleepLock → ℕ → Volume
with_root lk n = record volume {
  icache = free_inode ∷ record root_inode { ref = n; lock = lk } ∷ [];
}

abbrev locked_root : Volume
locked_root = with_root (record { locked = true; pid = 1 }) 2

root_opens : open_path no_devices 1 0 (b'/' ∷ []) 0 volume ≡ done (some 1, locked_root)
unfolding open_path open_found code namei namex iget iget_found iget_scan walk walk_step skipelem
    skip_slashes finish_walk ilock load_inode lock_with acquiresleep read_inode
root_opens = refl

root_unlocks : iunlock 1 locked_root ≡ done (tt, with_root unlocked 2)
unfolding iunlock load_inode holdingsleep releasesleep code
root_unlocks = refl

root_put : iunlockput 1 locked_root ≡ done (tt, with_root unlocked 1)
unfolding iunlockput iput code iunlock load_inode holdingsleep drop_ref releasesleep
root_put = refl

sys_open-OpensFile_example :
    (b : Option ℕ) × (t : Kernel) × (sys_open no_devices 1 0 (b'/' ∷ []) 0 kernel ≡ done (b, t))
    × OpensFile nowhere 0 1 (with_root unlocked 2) (with_root unlocked 1) kernel b t
sys_open-OpensFile_example =
    sys_open-OpensFile nowhere no_devices 1 0 0 1 (b'/' ∷ []) kernel locked_root
      (with_root unlocked 2) (with_root unlocked 1) root_opens root_unlocks root_put
      kernel-IsCounted
