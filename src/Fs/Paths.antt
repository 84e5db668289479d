-- ===== src/Fs/Paths.antt =====
-- lab6/xv6-public/fs.c: skipelem, namex, namei and nameiparent. A path is its bytes before the NUL.
pub mod Elements
use cs333_os_labs.Fs.{V, rootdev, rootino, t_dir}
use cs333_os_labs.Fs.Content.{iput, iunlockput}
use cs333_os_labs.Fs.Directory.{dirlookup, dirsiz}
use cs333_os_labs.Fs.Inodes.{idup, iget, ilock, iunlock, load_inode}
use cs333_os_labs.Fs.Transfer.{Devsw}
use cs333_os_labs.Prelude.{
  Bool, List, Option, [], false, if◌then◌else◌, length, none, not, some, suc, take, true, zero, ℕ,
  ◌&&◌, ◌+◌, ◌==◌, ◌∷◌,
}
use cs333_os_labs.Prelude.Outcome.{Stop, branch, halt, pure, ◌>>=◌, ◌>>◌}

abbrev pub slash : ℕ
slash = b'/'

unfoldable pub skip_slashes : List ℕ → List ℕ
skip_slashes [] = []
skip_slashes (c ∷ cs) = if c == slash then skip_slashes cs else c ∷ cs

-- The bytes up to the next slash, and those from it on.
unfoldable pub split_element : List ℕ → List ℕ × List ℕ
split_element [] = ([], [])
split_element (c ∷ cs) =
    let (name, rest) = split_element cs in if c == slash then ([], c ∷ cs) else (c ∷ name, rest)

abbrev pub element_of : List ℕ → Option (List ℕ × List ℕ)
element_of [] = none
element_of (c ∷ cs) =
    let (name, rest) = split_element (c ∷ cs) in some (take dirsiz name, skip_slashes rest)

-- `skipelem`: the element, cut to DIRSIZ bytes, and what follows it.
unfoldable pub skipelem : List ℕ → Option (List ℕ × List ℕ)
skipelem path = element_of (skip_slashes path)

abbrev pub is_empty : List ℕ → Bool
is_empty [] = true
is_empty (c ∷ cs) = false

abbrev pub is_absolute : List ℕ → Bool
is_absolute [] = false
is_absolute (c ∷ cs) = c == slash

-- The result of `namex`: the inode, and the last element of the path for `nameiparent`.
abbrev pub Found : Type 0
Found = Option (ℕ × List ℕ)

-- The round of `namex` after `dirlookup`.
unfoldable pub descend : ℕ → (ℕ → V Found) → Option (ℕ × ℕ) → V Found
descend ip next none = do iunlockput ip; pure none
descend ip next (some (j, off)) = do iunlockput ip; next j

module _ (devsw : Devsw) (me : ℕ) (parent : Bool) where
  -- A round of the loop of `namex` for one element of the path.
  unfoldable pub walk_element : ℕ → List ℕ → List ℕ → (ℕ → V Found) → V Found
  walk_element ip name rest next = do
    ilock me ip
    x ← load_inode ip
    branch (not (x.copy.type == t_dir)) (do iunlockput ip; pure none)
        (branch (parent && is_empty rest) (do iunlock ip; pure (some (ip, name)))
          (do r ← dirlookup devsw ip name; descend ip next r))

  -- The end of `namex`; `name` is left from the last round.
  unfoldable pub finish_walk : ℕ → V Found
  finish_walk ip = branch parent (do iput ip; pure none) (pure (some (ip, [])))

  unfoldable pub walk_step : (List ℕ → ℕ → V Found) → ℕ → Option (List ℕ × List ℕ) → V Found
  walk_step next ip none = finish_walk ip
  walk_step next ip (some (name, rest)) = walk_element ip name rest (next rest)

  unfoldable pub walk : ℕ → List ℕ → ℕ → V Found
  walk zero path ip = halt Stop.out_of_fuel
  walk (suc fuel) path ip = walk_step (λ rest j. walk fuel rest j) ip (skipelem path)

  unfoldable pub namex : ℕ → List ℕ → V Found
  namex cwd path = do
    ip ← branch (is_absolute path) (iget rootdev rootino) (idup cwd)
    walk (length path + 1) path ip

unfoldable pub namei : Devsw → ℕ → ℕ → List ℕ → V Found
namei devsw me cwd path = namex devsw me false cwd path

unfoldable pub nameiparent : Devsw → ℕ → ℕ → List ℕ → V Found
nameiparent devsw me cwd path = namex devsw me true cwd path
