-- ===== src/Server/LostSignal.antt =====
-- lab4/server-mt.cpp: a queue without a bound, where the main thread enqueues without the lock.
use cs333_os_labs.Prelude.{
  Bool, List, Option, [], ap, arith, false, get_elem?, ltb, none, refl, some, some-injective, subst,
  suc, sym, true, zero, ℕ, ◌&&◌, ◌++◌, ◌==◌, ◌∙◌, ◌∷◌, ◌≡◌, ◌≢◌,
}
use cs333_os_labs.Server.{
  Event, Main, Reaches, Server, Worker, accept, accept_step, accepting, asleep, at_main, at_start,
  checks, enqueue, entering, is_nil, is_waiting, leaving, main_step, main_steps, onward, pushes,
  releases, roused, serving, signal_empty, sleeping, started, step, taking, testing, waiting, wakes,
  wakes_main, wants, woken, worker_at, worker_step, worker_steps,
}
use cs333_os_labs.Server.Workers.{any_awake}

-- The main thread as it is with a queue without a bound.
abbrev is_unbounded : Main → Bool
is_unbounded accepting = true
is_unbounded (pushes fd) = true
is_unbounded m = false

-- There are connections in the queue, and every worker waits.
pub record IsLost (s : Server) : Type 0 where
  pub no_bound : s.qsize ≡ 0
  pub connections : is_nil s.queue ≡ false
  pub all_wait : any_awake s.workers ≡ false
  pub main_goes_on : is_unbounded s.main ≡ true

-- No wait returns without a signal.
abbrev pub no_spurious : Event → Bool
no_spurious (wakes i) = false
no_spurious wakes_main = false
no_spurious e = true

abbrev pub only_signals : {s t : Server} → Reaches s t → Bool
only_signals at_start = true
only_signals (onward r e q) = no_spurious e && only_signals r

waits_at :
    (ws : List Worker) (i : ℕ) (w : Worker)
    → any_awake ws ≡ false
    → get_elem? ws i ≡ some w
    → is_waiting w ≡ true
waits_at [] i w h e = ground (arith, e)
waits_at (x ∷ ws) zero w h e =
    subst (λ x. is_waiting x ≡ true) (some-injective x w e) (ground (arith, h))
waits_at (x ∷ ws) (suc i) w h e = waits_at ws i w (ground (arith, h)) e

worker_stays :
    (i : ℕ) (w : Worker) (s t : Server) → is_waiting w ≡ true → worker_step i w s ≢ some t
unfolding worker_step
worker_stays i entering s t h e = ground (arith, h)
worker_stays i testing s t h e = ground (arith, h)
worker_stays i sleeping s t h e = ground (arith, h)
worker_stays i waiting s t h e = ground (arith, e)
worker_stays i woken s t h e = ground (arith, h)
worker_stays i taking s t h e = ground (arith, h)
worker_stays i (leaving fd) s t h e = ground (arith, h)
worker_stays i (serving fd) s t h e = ground (arith, h)

worker_at_stays :
    (i : ℕ) (r : Option Worker) (s t : Server)
    → any_awake s.workers ≡ false
    → get_elem? s.workers i ≡ r
    → worker_at i r s ≢ some t
worker_at_stays i none s t h at e = ground (arith, e)
worker_at_stays i (some w) s t h at e = worker_stays i w s t (waits_at s.workers i w h at) e

not_nil : (q : List ℕ) (fd : ℕ) → is_nil (q ++ fd ∷ []) ≡ false
not_nil [] fd = refl
not_nil (x ∷ q) fd = refl

IsLost-accept :
    (fd : ℕ) (m : Main) (s t : Server) → IsLost s → accept_step fd m s ≡ some t → IsLost t
IsLost-accept fd accepting s t h e =
    let c = h.connections in
    let a = h.all_wait in
    let z : ltb 0 s.qsize ≡ false = ground (arith, h.no_bound) in
    let to : some (at_main (pushes fd) s) ≡ some t = ground (arith, e, z) in
    subst IsLost (some-injective (at_main (pushes fd) s) t to)
      (record { no_bound = h.no_bound; connections = c; all_wait = a; main_goes_on = refl })
IsLost-accept fd releases s t h e = ground (arith, e)
IsLost-accept fd (wants k) s t h e = ground (arith, e)
IsLost-accept fd (checks k) s t h e = ground (arith, e)
IsLost-accept fd (asleep k) s t h e = ground (arith, e)
IsLost-accept fd (roused k) s t h e = ground (arith, e)
IsLost-accept fd (pushes k) s t h e = ground (arith, e)

IsLost-main :
    (j : ℕ) (m : Main) (s t : Server) → IsLost s → s.main ≡ m → main_step j m s ≡ some t → IsLost t
unfolding main_step enqueue
IsLost-main j accepting s t h at e = ground (arith, e)
IsLost-main j releases s t h at e = absurd (ground (arith, h.main_goes_on, ap is_unbounded at))
IsLost-main j (wants fd) s t h at e = absurd (ground (arith, h.main_goes_on, ap is_unbounded at))
IsLost-main j (checks fd) s t h at e = absurd (ground (arith, h.main_goes_on, ap is_unbounded at))
IsLost-main j (asleep fd) s t h at e = ground (arith, e)
IsLost-main j (roused fd) s t h at e = absurd (ground (arith, h.main_goes_on, ap is_unbounded at))
IsLost-main j (pushes fd) s t h at e =
    let u = record (at_main accepting s) { queue = s.queue ++ fd ∷ [] } in
    let z : ltb 0 s.qsize ≡ false = ground (arith, h.no_bound) in
    let to : main_step j (pushes fd) s ≡ some u = rw (h.connections, z) refl in
    subst IsLost (some-injective u t (sym to ∙ e)) (record {
      no_bound = h.no_bound;
      connections = not_nil s.queue fd;
      all_wait = h.all_wait;
      main_goes_on = refl;
    })

IsLost-step :
    (e : Event) (s t : Server) → IsLost s → no_spurious e ≡ true → step e s ≡ some t → IsLost t
unfolding step
IsLost-step (accept fd) s t h n e = IsLost-accept fd s.main s t h e
IsLost-step (main_steps j) s t h n e = IsLost-main j s.main s t h refl e
IsLost-step (worker_steps i) s t h n e =
    absurd (worker_at_stays i (get_elem? s.workers i) s t h.all_wait refl e)
IsLost-step (wakes i) s t h n e = ground (arith, n)
IsLost-step wakes_main s t h n e = ground (arith, n)

IsLost-forever : (s t : Server) (r : Reaches s t) → IsLost s → only_signals r ≡ true → IsLost t
IsLost-forever s t at_start h n = h
IsLost-forever s u (onward {t = t} r e q) h n =
    IsLost-step e t u (IsLost-forever s t r h (ground (arith, n))) (ground (arith, n)) q

-- The state that a connection leads to when it comes between the test of the worker and its wait.
abbrev pub lost_at : ℕ → Server
lost_at fd = record {
  qsize = 0;
  queue = fd ∷ [];
  held = false;
  main = accepting;
  workers = waiting ∷ [];
}

reaches_lost :
    (fd : ℕ) → fd ≢ 0 → (r : Reaches (started 0 1) (lost_at fd)) × (only_signals r ≡ true)
unfolding step worker_step main_step enqueue signal_empty
reaches_lost fd nz =
    let e : (fd == 0) ≡ false = ground (arith, nz) in
    let r₁ : Reaches (started 0 1) (record (started 0 1) { held = true; workers = testing ∷ [] }) =
      onward at_start (worker_steps 0) refl in
    let r₂ : Reaches (started 0 1) (record (started 0 1) { held = true; workers = sleeping ∷ [] }) =
      onward r₁ (worker_steps 0) refl in
    let r₃ : Reaches (started 0 1)
        (record (started 0 1) { held = true; main = pushes fd; workers = sleeping ∷ [] }) =
      onward r₂ (accept fd) (rw e refl) in
    let r₄ : Reaches (started 0 1) (record (lost_at fd) { held = true; workers = sleeping ∷ [] }) =
      onward r₃ (main_steps 0) refl in
    (onward r₄ (worker_steps 0) refl, refl)

-- With an unbounded queue and one worker, a connection that is enqueued, without the lock,
-- between the test of the worker and its wait is lost: the server comes to a state, by signals
-- alone, from where it stays for ever, whatever connections arrive, with a queue that is not
-- empty and a worker that waits, unless a wait returns without a signal.
pub IsLost-signal :
    (fd : ℕ)
    → fd ≢ 0
    → ((r : Reaches (started 0 1) (lost_at fd)) × (only_signals r ≡ true))
      × ((t : Server) (q : Reaches (lost_at fd) t) → only_signals q ≡ true → IsLost t)
IsLost-signal fd nz = (
  reaches_lost fd nz,
  λ t q n.
      IsLost-forever (lost_at fd) t q
        (record { no_bound = refl; connections = refl; all_wait = refl; main_goes_on = refl }) n,
)
