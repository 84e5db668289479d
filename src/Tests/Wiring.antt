-- ===== src/Tests/Wiring.antt =====
-- A child of the shell of lab6 before it runs its side of a pipe: the console is open at 0, 1 and 2,
-- and the ends of the pipe at 3 and 4. The shell has each of them open too.
use cs333_os_labs.FileTable.{File, fd_pipe}
use cs333_os_labs.Files.{Kernel}
use cs333_os_labs.Files.Counts.{IsCounted, uses}
use cs333_os_labs.Prelude.{
  Bool, List, Option, [], ap, arith, false, get_elem?, if◌then◌else◌, ltb, none, not, refl,
  replicate, some, some-injective, suc, sym, true, zero, ℕ, ◌+◌, ◌<◌, ◌∷◌, ◌≡◌,
}
use cs333_os_labs.Sh.Wiring.{Wires, wire_left, wire_right, pipe_children, with_fds, without_ends}
use cs333_os_labs.Tests.Descriptors.{a_file, kernel}

abbrev console : File
console = record a_file { ref = 4 }

abbrev end_of : Bool → File
end_of w = record a_file { kind = fd_pipe; ref = 2; readable = not w; writable = w; pipe = 7 }

abbrev child_files : List File
child_files = console ∷ end_of false ∷ end_of true ∷ []

abbrev from_two : List (Option ℕ)
from_two = some 0 ∷ some 1 ∷ some 2 ∷ replicate 11 none

abbrev child : Kernel
child = record kernel { files = child_files }

-- What the shell holds.
abbrev by_shell : ℕ → ℕ
by_shell j = if ltb j 3 then 1 else 0

child_counts :
    (j : ℕ) (f : File)
    → get_elem? child_files j ≡ some f
    → f.ref ≡ uses j (some 0 ∷ some 0 ∷ from_two) + by_shell j
child_counts zero f e = ap File.ref (sym (some-injective console f e))
child_counts (suc zero) f e = ap File.ref (sym (some-injective (end_of false) f e))
child_counts (suc (suc zero)) f e = ap File.ref (sym (some-injective (end_of true) f e))
child_counts (suc (suc (suc j))) f e = cc

child_in_use : (j : ℕ) (f : File) → get_elem? child_files j ≡ some f → 0 < f.ref
child_in_use zero f e = omega (arith, ap File.ref (some-injective console f e))
child_in_use (suc zero) f e = omega (arith, ap File.ref (some-injective (end_of false) f e))
child_in_use (suc (suc zero)) f e = omega (arith, ap File.ref (some-injective (end_of true) f e))
child_in_use (suc (suc (suc j))) f e = cc

child-IsCounted : IsCounted by_shell child_files (some 0 ∷ some 0 ∷ from_two)
child-IsCounted = record {
  width = refl;
  counts = child_counts;
  named = λ j h. ground arith;
  idle = λ j f e z. absurd (omega (arith, z, child_in_use j f e));
}

pipe_children_example :
    Wires by_shell
      (wire_left 3 4)
      1
      (some 0 ∷ some 2 ∷ without_ends from_two 1 2)
      (with_fds (some 0) (some 0) from_two child)
    × Wires by_shell
        (wire_right 3 4)
        0
        (some 1 ∷ some 0 ∷ without_ends from_two 1 2)
        (with_fds (some 0) (some 0) from_two child)
pipe_children_example =
    pipe_children by_shell child 0 0 from_two 1 2 1 2 child-IsCounted
      (λ e. absurd (omega (arith, e))) refl refl (omega arith) (omega arith) (omega arith)
      (omega arith)
