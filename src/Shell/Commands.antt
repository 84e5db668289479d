-- ===== src/Shell/Commands.antt =====
-- lab3/src/client-shell.c, main: which commands pipe a file into a program.
use cs333_os_labs.Prelude.{Bool, List, [], arith, false, length, refl, true, ℕ, ◌==◌, ◌∷◌, ◌≡◌}
use cs333_os_labs.Shell.{
  Action, arrow, cd_action, command, get_file, operator_is, pipe, server_action,
}

abbrev is_pipe : Action → Bool
is_pipe (pipe file to) = true
is_pipe a = false

get_file-arrow :
    (args : List (List ℕ)) → operator_is arrow args ≡ true → is_pipe (get_file args) ≡ false
get_file-arrow [] e = refl
get_file-arrow (file ∷ []) e = refl
get_file-arrow (file ∷ op ∷ []) e = ground (arith, e)
get_file-arrow (file ∷ op ∷ to ∷ []) e = rw e refl
get_file-arrow (file ∷ op ∷ to ∷ x ∷ rest) e = ground (arith, e)

get_file-one : (args : List (List ℕ)) → (length args == 1) ≡ true → is_pipe (get_file args) ≡ false
get_file-one [] e = refl
get_file-one (file ∷ []) e = refl
get_file-one (file ∷ op ∷ rest) e = ground (arith, e)

cd_action_lem : (args : List (List ℕ)) → is_pipe (cd_action args) ≡ false
cd_action_lem [] = refl
cd_action_lem (dir ∷ []) = refl
cd_action_lem (dir ∷ x ∷ rest) = refl

server_action_lem : (args : List (List ℕ)) → is_pipe (server_action args) ≡ false
server_action_lem [] = refl
server_action_lem (name ∷ []) = refl
server_action_lem (name ∷ port ∷ []) = refl
server_action_lem (name ∷ port ∷ x ∷ rest) = refl

-- Once a server has been set, no command of the client shell pipes a file into a program.
no_pipe : (words : List (List ℕ)) → is_pipe (command true words) ≡ false
unfolding command
no_pipe [] = refl
no_pipe (word ∷ args) =
    ground
      (arith, cd_action_lem args, server_action_lem args, get_file-arrow args, get_file-one args)
