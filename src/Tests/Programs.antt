-- ===== src/Tests/Programs.antt =====
-- Runs of the server and of the client shell.
use cs333_os_labs.Prelude.{Bool, List, [], arith, false, refl, some, true, ℕ, ◌++◌, ◌∷◌, ◌≡◌, ◌⊎◌}
use cs333_os_labs.Server.{
  Main, Reaches, Server, Worker, accept, accepting, at_start, checks, dequeue, enqueue, entering,
  leaving, main_step, main_steps, onward, pushes, releases, signal_empty, started, step, taking,
  testing, wants, worker_step, worker_steps,
}
use cs333_os_labs.Server.LostSignal.{IsLost, IsLost-signal, lost_at, only_signals}
use cs333_os_labs.Server.Progress.{IsIdle, Moves, progress}
use cs333_os_labs.Server.Reachable.{reachable-IsSound}
use cs333_os_labs.Server.Sound.{IsSound}
use cs333_os_labs.Shell.{tokenize}
use cs333_os_labs.Shell.Words.{tokenize_lem, words}

-- A server with one worker, after a connection has come and been taken.
abbrev busy : Server
busy = record { qsize = 2; queue = []; held = true; main = accepting; workers = leaving 4 ∷ [] }

-- The state with the lock, the main thread and the worker as given.
abbrev moment : List ℕ → Bool → Main → Worker → Server
moment queue held m w = record { qsize = 2; queue = queue; held = held; main = m; workers = w ∷ [] }

busy_run : Reaches (started 2 1) busy
unfolding step worker_step main_step enqueue dequeue signal_empty
busy_run =
    let r₁ : Reaches (started 2 1) (moment [] false accepting entering) = at_start in
    let r₂ : Reaches (started 2 1) (moment [] false (wants 4) entering) =
      onward r₁ (accept 4) refl in
    let r₃ : Reaches (started 2 1) (moment [] true (checks 4) entering) =
      onward r₂ (main_steps 0) refl in
    let r₄ : Reaches (started 2 1) (moment [] true (pushes 4) entering) =
      onward r₃ (main_steps 0) refl in
    let r₅ : Reaches (started 2 1) (moment (4 ∷ []) true releases entering) =
      onward r₄ (main_steps 0) refl in
    let r₆ : Reaches (started 2 1) (moment (4 ∷ []) false accepting entering) =
      onward r₅ (main_steps 0) refl in
    let r₇ : Reaches (started 2 1) (moment (4 ∷ []) true accepting testing) =
      onward r₆ (worker_steps 0) refl in
    let r₈ : Reaches (started 2 1) (moment (4 ∷ []) true accepting taking) =
      onward r₇ (worker_steps 0) refl in
    onward r₈ (worker_steps 0) refl

reachable-IsSound_example : IsSound busy
reachable-IsSound_example = reachable-IsSound 2 1 busy (omega arith) (omega arith) busy_run

progress_example : IsIdle busy ⊎ Moves busy
progress_example = progress 2 1 busy (omega arith) (omega arith) busy_run

IsLost-signal_example :
    ((r : Reaches (started 0 1) (lost_at 4)) × (only_signals r ≡ true))
    × ((t : Server) (q : Reaches (lost_at 4) t) → only_signals q ≡ true → IsLost t)
IsLost-signal_example = IsLost-signal 4 (omega arith)

-- The line "ls  x".
abbrev small_line : List ℕ
small_line = b'l' ∷ b's' ∷ 32 ∷ 32 ∷ b'x' ∷ []

tokenize_lem_example : tokenize (small_line ++ 10 ∷ []) ≡ some (words small_line)
tokenize_lem_example = tokenize_lem small_line refl (omega arith)
