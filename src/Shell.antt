-- ===== src/Shell.antt =====
-- lab3/src/client-shell.c: the words of a line, and what the loop of `main` does with them. The
-- programs it starts are not modelled. A string is its bytes before the NUL.
pub mod Words
pub mod Commands
use cs333_os_labs.Prelude.{
  Bool, List, Option, [], false, if◌then◌else◌, leb, length, ltb, none, some, true, ℕ, ◌&&◌, ◌++◌,
  ◌==◌, ◌||◌, ◌∷◌,
}

abbrev pub max_token_size : ℕ
max_token_size = 64

abbrev pub max_num_tokens : ℕ
max_num_tokens = 64

abbrev pub is_blank : ℕ → Bool
is_blank c = c == 32 || c == 10 || c == 9

-- A word that is done goes to the end of `tokens`; one of no bytes does not.
abbrev pub add_token : List ℕ → List (List ℕ) → List (List ℕ)
add_token [] tokens = tokens
add_token (c ∷ token) tokens = tokens ++ (c ∷ token) ∷ []

-- The loop of `tokenize`; `none` for a write past the end of `token` or of `tokens`.
unfoldable pub token_loop : List ℕ → List ℕ → List (List ℕ) → Option (List (List ℕ))
token_loop [] token tokens = if ltb (length tokens) max_num_tokens then some tokens else none
token_loop (c ∷ line) token tokens =
    let next = token_loop line [] (add_token token tokens) in
    let longer = token_loop line (token ++ c ∷ []) tokens in
    if ltb (length token) max_token_size
    then if is_blank c
      then if leb (length (add_token token tokens)) max_num_tokens then next else none
      else longer
    else none

unfoldable pub tokenize : List ℕ → Option (List (List ℕ))
tokenize line = token_loop line [] []

-- `strcmp(s, t) == 0`
abbrev pub same : List ℕ → List ℕ → Bool
same [] [] = true
same [] (d ∷ t) = false
same (c ∷ s) [] = false
same (c ∷ s) (d ∷ t) = c == d && same s t

pub data Action : Type 0 where
  skip usage no_server quit crash : Action
  change_dir show : List ℕ → Action
  set_server redirect pipe : List ℕ → List ℕ → Action
  get_sequence get_parallel run_command : List (List ℕ) → Action

abbrev pub cd_word : List ℕ
cd_word = b'c' ∷ b'd' ∷ []

abbrev pub server_word : List ℕ
server_word = b's' ∷ b'e' ∷ b'r' ∷ b'v' ∷ b'e' ∷ b'r' ∷ []

abbrev pub exit_word : List ℕ
exit_word = b'e' ∷ b'x' ∷ b'i' ∷ b't' ∷ []

abbrev pub getfl_word : List ℕ
getfl_word = b'g' ∷ b'e' ∷ b't' ∷ b'f' ∷ b'l' ∷ []

abbrev pub getsq_word : List ℕ
getsq_word = b'g' ∷ b'e' ∷ b't' ∷ b's' ∷ b'q' ∷ []

abbrev pub getpl_word : List ℕ
getpl_word = b'g' ∷ b'e' ∷ b't' ∷ b'p' ∷ b'l' ∷ []

abbrev pub arrow : List ℕ
arrow = b'>' ∷ []

abbrev pub bar : List ℕ
bar = b'|' ∷ []

-- `get_file`, for the words after the command; it copies from a null pointer where one is missing.
abbrev pub get_file : List (List ℕ) → Action
get_file [] = crash
get_file (file ∷ []) = show file
get_file (file ∷ op ∷ []) = if same op arrow || same op bar then crash else show file
get_file (file ∷ op ∷ to ∷ rest) =
    if same op arrow then redirect file to else if same op bar then pipe file to else show file

abbrev pub cd_action : List (List ℕ) → Action
cd_action (dir ∷ []) = change_dir dir
cd_action args = usage

abbrev pub server_action : List (List ℕ) → Action
server_action (name ∷ port ∷ []) = set_server name port
server_action args = usage

-- The first argument of three, if there are three.
abbrev pub operator_is : List ℕ → List (List ℕ) → Bool
operator_is op (file ∷ op' ∷ to ∷ []) = same op' op
operator_is op args = false

abbrev pub getfl_action : List (List ℕ) → Action
getfl_action args = if length args == 1 || operator_is arrow args then get_file args else usage

abbrev pub getsq_action : List (List ℕ) → Action
getsq_action args = if ltb 0 (length args) then get_sequence args else usage

abbrev pub getpl_action : List (List ℕ) → Action
getpl_action args = if ltb 0 (length args) then get_parallel args else usage

-- A round of the loop of `main`; `added` is `serv_added`.
unfoldable pub command : Bool → List (List ℕ) → Action
command added [] = skip
command added (word ∷ args) =
    if same word cd_word
    then cd_action args
    else if same word server_word
    then server_action args
    else if same word exit_word
    then quit
    else if same word getfl_word
    then if added then getfl_action args else no_server
    else if same word getsq_word
    then if added then getsq_action args else no_server
    else if same word getpl_word
    then if added
      then getpl_action args
      else if operator_is bar args
      then get_file args
      else no_server
    else run_command (word ∷ args)
