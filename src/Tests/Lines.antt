-- ===== src/Tests/Lines.antt =====
-- Lines of the shell of lab6.
use cs333_os_labs.Prelude.{List, [], arith, false, inr, refl, ℕ, ◌∷◌, ◌≡◌, ◌≢◌}
use cs333_os_labs.Prelude.Outcome.{Stop, code, done, stop}
use cs333_os_labs.Sh.{
  Cmd, add_arg, after_greater, backcmd, exec_args, execcmd, gettoken, listcmd, occurs, parsecmd,
  parseexec, parseline, parsepipe, parseredirs, peek, pipecmd, redircmd, skip_white, starts_in,
  symbols, token_at, whitespace, word_at,
}
use cs333_os_labs.Sh.Fuel.Parsers.{parsecmd_ends}
use cs333_os_labs.Sh.Print.{IsWord, show}
use cs333_os_labs.Sh.Print.Levels.{IsPlain, print}
use cs333_os_labs.Sh.Print.RoundTrip.{parsecmd-print}

-- (a b | c) > d & ; e
abbrev small_command : Cmd
small_command =
    listcmd
      (backcmd (
        redircmd (pipecmd (execcmd ((b'a' ∷ []) ∷ (b'b' ∷ []) ∷ [])) (execcmd ((b'c' ∷ []) ∷ [])))
          (b'd' ∷ []) 0x201 1))
      (execcmd ((b'e' ∷ []) ∷ []))

one_letter : (c : ℕ) → occurs c whitespace ≡ false → occurs c symbols ≡ false → IsWord (c ∷ [])
one_letter c h k = (omega arith, ((h, k), tt))

small_command-IsPlain : IsPlain small_command
unfolding occurs
small_command-IsPlain = (
  (
    (
      (omega arith, (one_letter b'a' refl refl, (one_letter b'b' refl refl, tt))),
      (omega arith, (one_letter b'c' refl refl, tt)),
    ),
    one_letter b'd' refl refl,
    inr (refl, refl),
  ),
  (omega arith, (one_letter b'e' refl refl, tt)),
)

parsecmd-print_example : parsecmd (show (print small_command)) ≡ done (small_command, [])
parsecmd-print_example = parsecmd-print small_command small_command-IsPlain

-- The line "a >" has no file to write to.
abbrev no_file : List ℕ
no_file = b'a' ∷ 32 ∷ b'>' ∷ []

parsecmd_ends_example : parsecmd no_file ≢ stop Stop.out_of_fuel
parsecmd_ends_example = parsecmd_ends no_file

no_file_panics : parsecmd no_file ≡ stop Stop.missing_file
unfolding parsecmd parseline parsepipe parseexec exec_args parseredirs gettoken peek skip_white
    token_at word_at after_greater starts_in occurs add_arg code
no_file_panics = refl
