-- ===== src/Grep.antt =====
-- lab6/xv6-public/grep.c: the matcher of patterns with ^ . * $ and the loop over the input. A string
-- is its bytes before the NUL.
pub mod Regex
pub mod Lines
pub mod Output
use mathlib.Core.Option
use cs333_os_labs.Prelude.{
  Bool, List, Option, [], false, if◌then◌else◌, length, none, some, suc, true, zero, ℕ, ◌++◌, ◌+◌,
  ◌==◌, ◌||◌, ◌∷◌,
}

abbrev pub star_byte : ℕ
star_byte = b'*'

abbrev pub dollar : ℕ
dollar = b'$'

abbrev pub caret : ℕ
caret = b'^'

abbrev pub dot : ℕ
dot = b'.'

-- `sizeof(buf)`
abbrev pub buf_size : ℕ
buf_size = 1024

abbrev pub newline : ℕ
newline = 10

-- `here` is `matchhere` with the rest of the pattern.
unfoldable pub match_star : ℕ → (List ℕ → Bool) → List ℕ → Bool
match_star c here [] = here []
match_star c here (t ∷ text) =
    let further = match_star c here text in
    if here (t ∷ text) then true else if t == c || c == dot then further else false

-- `re[0]=='.' || re[0]==*text`, for a text that goes on with `matchhere(re+1, text+1)`.
unfoldable pub match_one : ℕ → (List ℕ → Bool) → List ℕ → Bool
match_one c here [] = false
match_one c here (t ∷ text) = if c == dot || c == t then here text else false

abbrev pub is_nil : List ℕ → Bool
is_nil [] = true
is_nil (c ∷ cs) = false

unfoldable pub match_here : List ℕ → List ℕ → Bool
match_here [] text = true
match_here (c ∷ []) text = if c == dollar then is_nil text else match_one c (λ s. true) text
match_here (c ∷ d ∷ re) text =
    let starred = match_star c (match_here re) text in
    let plain = match_one c (match_here (d ∷ re)) text in if d == star_byte then starred else plain

-- The loop of `match`, which must look at the empty string too.
unfoldable pub match_anywhere : List ℕ → List ℕ → Bool
match_anywhere re [] = match_here re []
match_anywhere re (t ∷ text) =
    let further = match_anywhere re text in if match_here re (t ∷ text) then true else further

unfoldable pub match : List ℕ → List ℕ → Bool
match [] text = match_anywhere [] text
match (c ∷ re) text = if c == caret then match_here re text else match_anywhere (c ∷ re) text

-- `strchr(p, '\n')`: the bytes before the newline and those after it.
unfoldable pub next_line : List ℕ → Option (List ℕ × List ℕ)
next_line [] = none
next_line (c ∷ cs) =
    let rest = next_line cs in
    if c == newline
    then some ([], cs)
    else if c == 0
    then none
    else Option.map (λ (line, after). (c ∷ line, after)) rest

-- What `write` puts out for a line, which is nothing if it does not match.
abbrev pub shown : List ℕ → List ℕ → List (List ℕ)
shown pattern line = if match pattern line then (line ++ newline ∷ []) ∷ [] else []

-- The lines that are written, and what is left of the buffer.
abbrev pub Printed : Type 0
Printed = Option (List (List ℕ) × List ℕ)

abbrev pub print_line : List ℕ → List ℕ → (List ℕ → Printed) → Option (List ℕ × List ℕ) → Printed
print_line pattern p more none = some ([], p)
print_line pattern p more (some (line, after)) =
    Option.map (λ (out, left). (shown pattern line ++ out, left)) (more after)

-- The inner loop of `grep`.
unfoldable pub print_lines : ℕ → List ℕ → List ℕ → Printed
print_lines zero pattern p = none
print_lines (suc fuel) pattern p = print_line pattern p (print_lines fuel pattern) (next_line p)

-- The bytes that stay in the buffer: none if it holds no whole line, where `p` is still `buf`.
abbrev pub kept_after : ℕ → List ℕ → List ℕ
kept_after m left = if length left == m then [] else left

abbrev pub keep_rest : ℕ → (List ℕ → Option (List (List ℕ))) → Printed → Option (List (List ℕ))
keep_rest m more none = none
keep_rest m more (some (out, left)) = Option.map (λ rest. out ++ rest) (more (kept_after m left))

-- The outer loop. `chunks` are the bytes that the calls of `read` give; each fits into the buffer,
-- and an empty one ends the input, as their end does.
unfoldable pub grep_loop : List ℕ → List ℕ → List (List ℕ) → Option (List (List ℕ))
grep_loop pattern kept [] = some []
grep_loop pattern kept ([] ∷ chunks) = some []
grep_loop pattern kept ((c ∷ chunk) ∷ chunks) =
    let buf = kept ++ c ∷ chunk in
    keep_rest (length buf) (λ rest. grep_loop pattern rest chunks)
      (print_lines (length buf + 1) pattern buf)

unfoldable pub grep : List ℕ → List (List ℕ) → Option (List (List ℕ))
grep pattern chunks = grep_loop pattern [] chunks
