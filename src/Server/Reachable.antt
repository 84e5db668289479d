-- ===== src/Server/Reachable.antt =====
-- lab4/server-mt.cpp: the states that the server comes to.
use cs333_os_labs.Prelude.{
  Option, [], arith, get_elem?, length-replicate, none, refl, replicate, some, suc, zero, ℕ, ◌<◌,
  ◌≡◌,
}
use cs333_os_labs.Server.{
  Event, Reaches, Server, Worker, accept, at_start, entering, main_steps, onward, started, step,
  wakes, wakes_main, worker_at, worker_steps,
}
use cs333_os_labs.Server.MainSteps.{
  accept_step-IsSound, main_step-IsSound, spurious-IsSound, spurious_main-IsSound,
}
use cs333_os_labs.Server.Sound.{IsSound}
use cs333_os_labs.Server.WorkerSteps.{worker_step-IsSound}
use cs333_os_labs.Server.Workers.{all_fine_free, owners}

worker_at-IsSound :
    (i : ℕ) (r : Option Worker) (s t : Server)
    → IsSound s
    → get_elem? s.workers i ≡ r
    → worker_at i r s ≡ some t
    → IsSound t
worker_at-IsSound i none s t h at e = ground (arith, e)
worker_at-IsSound i (some w) s t h at e = worker_step-IsSound i w s t h at e

step-IsSound : (e : Event) (s t : Server) → IsSound s → step e s ≡ some t → IsSound t
unfolding step
step-IsSound (accept fd) s t h e = accept_step-IsSound fd s.main s t h refl e
step-IsSound (main_steps j) s t h e = main_step-IsSound j s.main s t h refl e
step-IsSound (worker_steps i) s t h e = worker_at-IsSound i (get_elem? s.workers i) s t h refl e
step-IsSound (wakes i) s t h e = spurious-IsSound i (get_elem? s.workers i) s t h refl e
step-IsSound wakes_main s t h e = spurious_main-IsSound s.main s t h refl e

owners-replicate : (n : ℕ) → owners (replicate n entering) ≡ 0
owners-replicate zero = refl
owners-replicate (suc n) = omega (arith, owners-replicate n)

started-IsSound : (qsize n : ℕ) → 0 < qsize → 0 < n → IsSound (started qsize n)
started-IsSound qsize n b l = record {
  bounded = b;
  staffed = omega (arith, length-replicate n entering);
  one_owner = omega (arith, owners-replicate n);
  fits = omega arith;
  main_is_fine = refl;
  workers_are_fine = all_fine_free [] (replicate n entering) (owners-replicate n);
  awake = refl;
}

Reaches-IsSound : (s t : Server) → IsSound s → Reaches s t → IsSound t
Reaches-IsSound s t h at_start = h
Reaches-IsSound s u h (onward {t = t} r e q) = step-IsSound e t u (Reaches-IsSound s t h r) q

-- In every state that the server with a bounded queue and at least one worker comes to, one
-- thread at most has the lock, the queue is within its bound, a worker about to dequeue finds a
-- connection, the main thread sleeps only while the queue is full, and a worker is awake while
-- the queue has a connection.
pub reachable-IsSound :
    (qsize n : ℕ) (s : Server) → 0 < qsize → 0 < n → Reaches (started qsize n) s → IsSound s
reachable-IsSound qsize n s b l r =
    Reaches-IsSound (started qsize n) s (started-IsSound qsize n b l) r
