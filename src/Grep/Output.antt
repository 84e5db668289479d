-- ===== src/Grep/Output.antt =====
-- lab6/xv6-public/grep.c, grep: what it writes for an input.
use cs333_os_labs.Grep.{buf_size, print_lines, shown}
use cs333_os_labs.Grep.Lines.{cut, has_newline, has_nul}
use cs333_os_labs.Prelude.{List, [], false, length, some, true, ℕ, ◌++◌, ◌+◌, ◌<◌, ◌∷◌, ◌≡◌}

abbrev pub matching : List ℕ → List (List ℕ) → List (List ℕ)
matching pattern [] = []
matching pattern (line ∷ lines) = shown pattern line ++ matching pattern lines

abbrev pub joined : List (List ℕ) → List ℕ
joined [] = []
joined (chunk ∷ chunks) = chunk ++ joined chunks

-- Each chunk fits into the room that is left, has a newline, and no NUL.
abbrev pub Feeds : List ℕ → List (List ℕ) → Type 0
Feeds kept [] = Unit {0}
Feeds kept (chunk ∷ chunks) =
    (length kept + length chunk < buf_size)
    × (has_newline chunk ≡ true)
    × (has_nul chunk ≡ false)
    × Feeds (cut (kept ++ chunk)).1 chunks

module _ (pattern : List ℕ) where
  PrintsAll : ℕ → Type 0
  PrintsAll fuel =
      (p : List ℕ)
      → length p < fuel
      → has_nul p ≡ false
      → print_lines fuel pattern p ≡ some (matching pattern (cut p).0, (cut p).1)
