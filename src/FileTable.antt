-- ===== src/FileTable.antt =====
-- lab6/xv6-public/file.c: the table of open files. A file is named by its slot; `ref` is a count
-- that stays far below 2^31.
pub mod References
use mathlib.Core.Option
use cs333_os_labs.Prelude.{
  Bool, List, Option, [], if◌then◌else◌, ltb, none, some, suc, zero, ℕ, ◌+◌, ◌-◌, ◌==◌, ◌∷◌,
}

pub data FileType : Type 0 where
  fd_none fd_pipe fd_inode : FileType

pub record File : Type 0 where
  pub kind : FileType
  pub ref : ℕ
  pub readable : Bool
  pub writable : Bool
  pub pipe : ℕ
  pub ip : ℕ
  pub off : ℕ

abbrev pub nfile : ℕ
nfile = 100

-- `filealloc`: the slot, and the table; `none` where it returns 0.
unfoldable pub filealloc : ℕ → List File → Option ℕ × List File
filealloc i [] = (none, [])
filealloc i (f ∷ fs) =
    let (found, rest) = filealloc (i + 1) fs in
    if f.ref == 0 then (some i, record f { ref = 1 } ∷ fs) else (found, f ∷ rest)

-- `filedup`: `none` where it panics.
unfoldable pub filedup : ℕ → List File → Option (List File)
filedup i [] = none
filedup zero (f ∷ fs) = if ltb f.ref 1 then none else some (record f { ref = f.ref + 1 } ∷ fs)
filedup (suc i) (f ∷ fs) = Option.map (λ rest. f ∷ rest) (filedup i fs)

-- What `fileclose` has to close after it let go of the table's lock.
pub data Closing : Type 0 where
  nothing : Closing
  close_pipe : ℕ → Bool → Closing
  put_inode : ℕ → Closing

unfoldable pub last_close : File → Closing
last_close f = elim f.kind [
  | fd_none ↦ nothing
  | fd_pipe ↦ close_pipe f.pipe f.writable
  | fd_inode ↦ put_inode f.ip
]

-- `fileclose`: `none` where it panics.
unfoldable pub fileclose : ℕ → List File → Option (List File × Closing)
fileclose i [] = none
fileclose zero (f ∷ fs) =
    if ltb f.ref 1
    then none
    else if ltb 0 (f.ref - 1)
    then some (record f { ref = f.ref - 1 } ∷ fs, nothing)
    else some (record f { ref = 0; kind = fd_none } ∷ fs, last_close f)
fileclose (suc i) (f ∷ fs) = Option.map (λ r. (f ∷ r.0, r.1)) (fileclose i fs)
