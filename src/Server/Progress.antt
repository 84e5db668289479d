-- ===== src/Server/Progress.antt =====
-- lab4/server-mt.cpp: which thread can make a step.
use cs333_os_labs.Prelude.{
  Bool, Bool-cases, List, [], ap, arith, false, get_elem?, if◌then◌else◌, inl, inr, length, ltb,
  refl, set, some, subst, suc, true, ℕ, ◌++◌, ◌<◌, ◌==◌, ◌∷◌, ◌≡◌, ◌≤◌, ◌⊎◌,
}
use cs333_os_labs.Server.{
  Event, Main, Reaches, Server, Worker, accept, accepting, any_waiting, asleep, at_main, checks,
  dequeue, enqueue, entering, is_nil, is_waiting, leaving, main_step, main_steps, move, pop, pushes,
  releases, roused, serving, signal_empty, sleeping, started, step, taking, testing, unlock,
  waiting, wakes, wakes_main, wants, woken, woken_main, worker_step, worker_steps,
}
use cs333_os_labs.Server.MainSteps.{main_alone}
use cs333_os_labs.Server.Reachable.{reachable-IsSound}
use cs333_os_labs.Server.Sound.{IsSound, main_fine, main_owns}
use cs333_os_labs.Server.Workers.{all_fine-get, any_awake, owners, owners-get, owns}

-- A step of a thread, as opposed to a new connection or a wait that returns without a signal.
abbrev is_own : Event → Bool
is_own (accept fd) = false
is_own (main_steps j) = true
is_own (worker_steps i) = true
is_own (wakes i) = false
is_own wakes_main = false

abbrev pub Moves : Server → Type 0
Moves s = (e : Event) × (t : Server) × (is_own e ≡ true) × (step e s ≡ some t)

-- The main thread waits for a connection, and there is none for the workers, which all wait.
pub record IsIdle (s : Server) : Type 0 where
  pub main_accepts : s.main ≡ accepting
  pub no_connection : s.queue ≡ []
  pub all_wait : any_awake s.workers ≡ false

abbrev At : List Worker → (Worker → Type 0) → Type 0
At ws P = (i : ℕ) × (w : Worker) × (get_elem? ws i ≡ some w) × P w

owns_le : (w : Worker) → owns w ≤ 1
owns_le entering = omega arith
owns_le testing = omega arith
owns_le sleeping = omega arith
owns_le waiting = omega arith
owns_le woken = omega arith
owns_le taking = omega arith
owns_le (leaving fd) = omega arith
owns_le (serving fd) = omega arith

find_owner : (ws : List Worker) → 0 < owners ws → At ws (λ w. owns w ≡ 1)
find_owner [] l = absurd (omega arith)
find_owner (w ∷ ws) l = elim (Bool-cases (owns w == 1)) [
  | inl e ↦ (0, w, refl, ground (arith, e))
  | inr e ↦ let (i, x, at, o) = find_owner ws (ground (arith, owns_le w)) in (suc i, x, at, o)
]

find_awake : (ws : List Worker) → any_awake ws ≡ true → At ws (λ w. is_waiting w ≡ false)
find_awake [] e = ground (arith, e)
find_awake (w ∷ ws) e = elim (Bool-cases (is_waiting w)) [
  | inl f ↦ let (i, x, at, o) = find_awake ws (ground (arith, e, f)) in (suc i, x, at, o)
  | inr f ↦ (0, w, refl, f)
]

find_waiting : (ws : List Worker) → any_waiting ws ≡ true → At ws (λ w. is_waiting w ≡ true)
find_waiting [] e = ground (arith, e)
find_waiting (w ∷ ws) e = elim (Bool-cases (is_waiting w)) [
  | inl f ↦ (0, w, refl, f)
  | inr f ↦ let (i, x, at, o) = find_waiting ws (ground (arith, e, f)) in (suc i, x, at, o)
]

pop-some :
    (s : Server) (q : List ℕ)
    → is_nil q ≡ false
    → (fd : ℕ) × (t : Server) × (pop s q ≡ some (fd, t))
pop-some s [] e = ground (arith, e)
pop-some s (fd ∷ fds) e =
    (fd, record s { queue = fds; main = woken_main s.qsize (length s.queue) s.main }, refl)

owner_steps :
    (i : ℕ) (w : Worker) (s : Server)
    → IsSound s
    → get_elem? s.workers i ≡ some w
    → owns w ≡ 1
    → (t : Server) × (worker_step i w s ≡ some t)
unfolding worker_step dequeue
owner_steps i entering s h at o = absurd (omega arith)
owner_steps i testing s h at o = (move i (if is_nil s.queue then sleeping else taking) s, refl)
owner_steps i sleeping s h at o = (unlock (move i waiting s), refl)
owner_steps i waiting s h at o = absurd (omega arith)
owner_steps i woken s h at o = absurd (omega arith)
owner_steps i taking s h at o =
    let some_there = all_fine-get s.queue s.workers i taking h.workers_are_fine at in
    let (fd, t, e) = pop-some s s.queue (ground (arith, some_there)) in
    (move i (leaving fd) t, rw e refl)
owner_steps i (leaving fd) s h at o = (unlock (move i (serving fd) s), refl)
owner_steps i (serving fd) s h at o = absurd (omega arith)

awake_steps :
    (i : ℕ) (w : Worker) (s : Server)
    → s.held ≡ false
    → is_waiting w ≡ false
    → owns w ≡ 0
    → (t : Server) × (worker_step i w s ≡ some t)
unfolding worker_step
awake_steps i entering s h f o = (move i testing (record s { held = true }), rw h refl)
awake_steps i testing s h f o = absurd (omega arith)
awake_steps i sleeping s h f o = absurd (omega arith)
awake_steps i waiting s h f o = ground (arith, f)
awake_steps i woken s h f o = (move i testing (record s { held = true }), rw h refl)
awake_steps i taking s h f o = absurd (omega arith)
awake_steps i (leaving fd) s h f o = absurd (omega arith)
awake_steps i (serving fd) s h f o = (move i entering s, refl)

signals : (ws : List Worker) → (j : ℕ) × (ws' : List Worker) × (signal_empty j ws ≡ some ws')
unfolding signal_empty
signals ws = elim (Bool-cases (any_waiting ws)) [
  | inl e ↦ let (j, w, at, f) = find_waiting ws e in (j, set ws j woken, rw (e, at, f) refl)
  | inr e ↦ (0, ws, rw e refl)
]

enqueues : (fd : ℕ) (s : Server) → (j : ℕ) × (t : Server) × (enqueue j fd s ≡ some t)
unfolding enqueue
enqueues fd s = elim (Bool-cases (is_nil s.queue)) [
  | inl e ↦
      let (j, ws, q) = signals s.workers in
      (j, record s { queue = s.queue ++ fd ∷ []; workers = ws }, rw (e, q) refl)
  | inr e ↦ (0, record s { queue = s.queue ++ fd ∷ [] }, rw e refl)
]

main_owner_steps :
    (m : Main) (s : Server) → main_owns m ≡ 1 → (j : ℕ) × (t : Server) × (main_step j m s ≡ some t)
unfolding main_step
main_owner_steps accepting s o = absurd (omega arith)
main_owner_steps releases s o = (0, unlock (at_main accepting s), refl)
main_owner_steps (wants fd) s o = absurd (omega arith)
main_owner_steps (checks fd) s o = elim (Bool-cases (length s.queue == s.qsize)) [
  | inl e ↦ (0, unlock (at_main (asleep fd) s), rw e refl)
  | inr e ↦ (0, at_main (pushes fd) s, rw e refl)
]
main_owner_steps (asleep fd) s o = absurd (omega arith)
main_owner_steps (roused fd) s o = absurd (omega arith)
main_owner_steps (pushes fd) s o =
    let (j, t, e) = enqueues fd s in
    (j, at_main (if ltb 0 s.qsize then releases else accepting) t, rw e refl)

not_held : (s : Server) → IsSound s → main_owns s.main ≡ 1 → s.held ≡ false → ⊥
not_held s h o f = let (locked, free) = main_alone s h o in ground (arith, locked, f)

nil_of : (q : List ℕ) → is_nil q ≡ true → q ≡ []
nil_of [] e = refl
nil_of (fd ∷ fds) e = ground (arith, e)

-- The main thread, while no thread has the lock and no worker is awake.
main_alone_steps :
    (m : Main) (s : Server)
    → IsSound s
    → s.main ≡ m
    → s.held ≡ false
    → s.queue ≡ []
    → (s.main ≡ accepting) ⊎ ((t : Server) × (main_step 0 m s ≡ some t))
unfolding main_step
main_alone_steps accepting s h at f q = inl at
main_alone_steps releases s h at f q = absurd (not_held s h (ap main_owns at) f)
main_alone_steps (wants fd) s h at f q =
    inr (at_main (checks fd) (record s { held = true }), rw f refl)
main_alone_steps (checks fd) s h at f q = absurd (not_held s h (ap main_owns at) f)
main_alone_steps (asleep fd) s h at f q =
    let full : (length s.queue == s.qsize) ≡ true =
      subst (λ m. main_fine s.qsize s.queue m ≡ true) at h.main_is_fine in
    absurd (ground (arith, full, h.bounded, ap length q))
main_alone_steps (roused fd) s h at f q =
    inr (at_main (checks fd) (record s { held = true }), rw f refl)
main_alone_steps (pushes fd) s h at f q = absurd (not_held s h (ap main_owns at) f)

worker-Moves :
    (i : ℕ) (w : Worker) (s t : Server)
    → get_elem? s.workers i ≡ some w
    → worker_step i w s ≡ some t
    → Moves s
unfolding step
worker-Moves i w s t at e = (worker_steps i, t, refl, rw at e)

main-Moves : (j : ℕ) (s t : Server) → main_step j s.main s ≡ some t → Moves s
unfolding step
main-Moves j s t e = (main_steps j, t, refl, e)

sound_progress : (s : Server) → IsSound s → IsIdle s ⊎ Moves s
sound_progress s h = elim (Bool-cases s.held) [
  | inl f ↦ elim (Bool-cases (main_owns s.main == 1)) [
    | inl o ↦
        let (j, t, e) = main_owner_steps s.main s (ground (arith, o)) in inr (main-Moves j s t e)
    | inr o ↦
        let one = h.one_owner in
        let (i, w, at, own) = find_owner s.workers (ground (arith, o, f, one)) in
        let (t, e) = owner_steps i w s h at own in inr (worker-Moves i w s t at e)
  ]
  | inr f ↦ elim (Bool-cases (any_awake s.workers)) [
    | inl a ↦
        let (i, w, at, up) = find_awake s.workers a in
        let free = owners-get s.workers i w at in
        let one = h.one_owner in
        let (t, e) = awake_steps i w s f up (ground (arith, free, one, f)) in
        inr (worker-Moves i w s t at e)
    | inr a ↦
        let q : s.queue ≡ [] = nil_of s.queue (ground (arith, h.awake, a)) in
        elim (main_alone_steps s.main s h refl f q) [
          | inl m ↦ inl (record { main_accepts = m; no_connection = q; all_wait = a })
          | inr (t, e) ↦ inr (main-Moves 0 s t e)
        ]
  ]
]

-- The server with a queue that has a bound and at least one worker, in every state that it comes
-- to: some thread can make a step without a new connection and without a wait that returns by
-- itself, unless the main thread waits for a connection, the queue is empty and every worker
-- waits.
pub progress :
    (qsize n : ℕ) (s : Server)
    → 0 < qsize
    → 0 < n
    → Reaches (started qsize n) s
    → IsIdle s ⊎ Moves s
progress qsize n s b l r = sound_progress s (reachable-IsSound qsize n s b l r)
