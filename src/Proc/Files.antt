-- ===== src/Proc/Files.antt =====
-- lab6/xv6-public/file.c and fs.c, as proc.c calls them: filedup, fileclose, idup, iput and namei. The
-- memory is that of the system; the descriptors of `Files.Kernel` are those of one process and play
-- no part here. begin_op and end_op are left to Log.
pub mod Memory
use cs333_os_labs.Files.{C, Kernel, close_file, dup_file, in_volume}
use cs333_os_labs.Fs.Content.{iput}
use cs333_os_labs.Fs.Inodes.{idup}
use cs333_os_labs.Fs.Paths.{namei}
use cs333_os_labs.Fs.Transfer.{Devsw}
use cs333_os_labs.Prelude.{Option, [], none, some, ℕ, ◌∷◌}
use cs333_os_labs.Prelude.Outcome.{done, pure, stop, ◌>>=◌, ◌>>◌}
use cs333_os_labs.Proc.Life.{FileCall, FileOps}

-- A call of the file code on the memory that the system has at this point.
unfoldable pub with_memory : {A : Type 0} → C A → FileCall Kernel A
with_memory m (s, k) = elim (m (record k { mem = s })) [
  | done (a, t) ↦ done (a, (t.mem, t))
  | stop e ↦ stop e
]

abbrev pub found_inode : {A : Type 0} → Option (ℕ × A) → Option ℕ
found_inode none = none
found_inode (some (ip, name)) = some ip

-- namei("/") of the process `me`; an absolute path does not look at the directory of the process.
unfoldable pub find_root : Devsw → ℕ → C (Option ℕ)
find_root devsw me = do r ← in_volume (namei devsw me 0 (b'/' ∷ [])); pure (found_inode r)

unfoldable pub kernel_files : Devsw → ℕ → FileOps Kernel
kernel_files devsw me = record {
  filedup = λ f. with_memory (dup_file f >> pure f);
  fileclose = λ f. with_memory (close_file f);
  idup = λ ip. with_memory (in_volume (idup ip));
  iput = λ ip. with_memory (in_volume (iput ip));
  root = with_memory (find_root devsw me);
}
