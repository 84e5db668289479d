-- ===== src/Server.antt =====
-- lab4/server-mt.cpp: the queue of connections between the main thread and the worker threads. The
-- state of a thread is the statement it is at. `enqueue` and `dequeue` are one step each, as they
-- are under the lock; of an unbounded queue, to which main enqueues without the lock, the model has
-- only the runs in which the two do not race. Where accept, or the read or open of a worker, fails,
-- the whole server exits: a run of the model is one up to there.
pub mod Workers
pub mod Sound
pub mod WorkerSteps
pub mod MainSteps
pub mod Reachable
pub mod Progress
pub mod LostSignal
pub mod Passes
pub mod Order
use mathlib.Core.Option
use cs333_os_labs.Prelude.{
  Bool, List, Option, [], false, get_elem?, if◌then◌else◌, length, ltb, none, not, replicate, set,
  some, true, ℕ, ◌&&◌, ◌++◌, ◌==◌, ◌||◌, ◌∷◌, ◌≡◌,
}

-- A worker: before `pthread_mutex_lock`, at the test of the loop, before and in
-- `pthread_cond_wait`, signalled there, before `dequeue`, before `pthread_mutex_unlock`, and while
-- it answers a connection.
pub data Worker : Type 0 where
  entering testing sleeping waiting woken taking : Worker
  leaving serving : ℕ → Worker

-- The main thread: in `accept`, before `pthread_mutex_lock`, at the test of the loop, in
-- `pthread_cond_wait`, signalled there, before `enqueue` and before `pthread_mutex_unlock`.
pub data Main : Type 0 where
  accepting releases : Main
  wants checks asleep roused pushes : ℕ → Main

pub record Server : Type 0 where
  pub qsize : ℕ  -- 0 for a queue without a bound
  pub queue : List ℕ
  pub held : Bool  -- q_lock
  pub main : Main
  pub workers : List Worker

-- What happens next; `main_steps j` and a signal wakes the worker `j`.
pub data Event : Type 0 where
  accept main_steps worker_steps wakes : ℕ → Event
  wakes_main : Event

abbrev pub is_waiting : Worker → Bool
is_waiting waiting = true
is_waiting w = false

abbrev pub any_waiting : List Worker → Bool
any_waiting [] = false
any_waiting (w ∷ ws) = is_waiting w || any_waiting ws

abbrev pub wake : ℕ → List Worker → Option Worker → Option (List Worker)
wake j ws none = none
wake j ws (some w) = if is_waiting w then some (set ws j woken) else none

-- `pthread_cond_signal(&empty)`: a worker that waits is woken, if one does.
unfoldable pub signal_empty : ℕ → List Worker → Option (List Worker)
signal_empty j ws = if any_waiting ws then wake j ws (get_elem? ws j) else some ws

-- `pthread_cond_signal(&full)`
abbrev pub signal_full : Main → Main
signal_full (asleep fd) = roused fd
signal_full m = m

abbrev pub is_nil : List ℕ → Bool
is_nil [] = true
is_nil (fd ∷ fds) = false

-- One step, as it is with the lock held. With no bound main calls it without the lock: its `push`
-- may then race with the `pop` of a worker, which C++ leaves undefined, and such runs are not
-- modelled.
unfoldable pub enqueue : ℕ → ℕ → Server → Option Server
enqueue j fd s =
    let s' = record s { queue = s.queue ++ fd ∷ [] } in
    if is_nil s.queue
    then Option.map (λ ws. record s' { workers = ws }) (signal_empty j s.workers)
    else some s'

abbrev pub woken_main : ℕ → ℕ → Main → Main
woken_main qsize sz m = if not (qsize == 0) && sz == qsize then signal_full m else m

-- The front of an empty queue is undefined.
abbrev pub pop : Server → List ℕ → Option (ℕ × Server)
pop s [] = none
pop s (fd ∷ fds) =
    some (fd, record s { queue = fds; main = woken_main s.qsize (length s.queue) s.main })

unfoldable pub dequeue : Server → Option (ℕ × Server)
dequeue s = pop s s.queue

abbrev pub move : ℕ → Worker → Server → Server
move i w s = record s { workers = set s.workers i w }

-- Taking the lock, which waits while another thread holds it.
abbrev pub lock : Server → Option Server
lock s = if s.held then none else some (record s { held = true })

abbrev pub unlock : Server → Server
unlock s = record s { held = false }

-- A step of `cli_handl`. A serving worker comes back once it has answered; where its read or its
-- open fails it exits the whole server, as the main thread does where accept fails, and the server
-- has no state after that.
unfoldable pub worker_step : ℕ → Worker → Server → Option Server
worker_step i entering s = Option.map (move i testing) (lock s)
worker_step i testing s = some (move i (if is_nil s.queue then sleeping else taking) s)
worker_step i sleeping s = some (unlock (move i waiting s))
worker_step i waiting s = none
worker_step i woken s = Option.map (move i testing) (lock s)
worker_step i taking s = Option.map (λ (fd, s'). move i (leaving fd) s') (dequeue s)
worker_step i (leaving fd) s = some (unlock (move i (serving fd) s))
worker_step i (serving fd) s = some (move i entering s)

abbrev pub at_main : Main → Server → Server
at_main m s = record s { main = m }

-- A step of the loop of `main`; `j` is the worker that a signal wakes.
unfoldable pub main_step : ℕ → Main → Server → Option Server
main_step j accepting s = none
main_step j (wants fd) s = Option.map (at_main (checks fd)) (lock s)
main_step j (checks fd) s =
    if length s.queue == s.qsize
    then some (unlock (at_main (asleep fd) s))
    else some (at_main (pushes fd) s)
main_step j (asleep fd) s = none
main_step j (roused fd) s = Option.map (at_main (checks fd)) (lock s)
main_step j (pushes fd) s =
    Option.map (at_main (if ltb 0 s.qsize then releases else accepting)) (enqueue j fd s)
main_step j releases s = some (unlock (at_main accepting s))

-- A connection, which has a descriptor above 0: on any other value the server exits.
abbrev pub accept_step : ℕ → Main → Server → Option Server
accept_step fd accepting s =
    if fd == 0 then none else some (at_main (if ltb 0 s.qsize then wants fd else pushes fd) s)
accept_step fd m s = none

abbrev pub spurious : ℕ → Option Worker → Server → Option Server
spurious i none s = none
spurious i (some w) s = if is_waiting w then some (move i woken s) else none

abbrev pub spurious_main : Main → Server → Option Server
spurious_main (asleep fd) s = some (at_main (roused fd) s)
spurious_main m s = none

abbrev pub worker_at : ℕ → Option Worker → Server → Option Server
worker_at i (some w) s = worker_step i w s
worker_at i none s = none

-- `pthread_cond_wait` may return without a signal.
unfoldable pub step : Event → Server → Option Server
step (accept fd) s = accept_step fd s.main s
step (main_steps j) s = main_step j s.main s
step (worker_steps i) s = worker_at i (get_elem? s.workers i) s
step (wakes i) s = spurious i (get_elem? s.workers i) s
step wakes_main s = spurious_main s.main s

-- The server once the worker threads have been created.
abbrev pub started : ℕ → ℕ → Server
started qsize n = record {
  qsize = qsize;
  queue = [];
  held = false;
  main = accepting;
  workers = replicate n entering;
}

-- The states that a sequence of steps leads to.
pub data Reaches (s : Server) : Server → Type 0 where
  at_start : Reaches s s
  onward : {t u : Server} → Reaches s t → (e : Event) → step e t ≡ some u → Reaches s u
