-- ===== src/Server/Passes.antt =====
-- lab4/server-mt.cpp: the connection that a step takes in or gives out.
use mathlib.Core.Option
use cs333_os_labs.Prelude.{
  Bool-cases, List, Option, [], ap, arith, get_elem?, if◌then◌else◌, inl, inr, length, ltb, none,
  refl, some, some-injective, subst, sym, true, ℕ, ◌++◌, ◌==◌, ◌∙◌, ◌∷◌, ◌≡◌,
}
use cs333_os_labs.Server.{
  Event, Main, Server, Worker, accept, accept_step, accepting, asleep, at_main, checks, dequeue,
  enqueue, entering, is_nil, is_waiting, leaving, lock, main_step, move, pop, pushes, releases,
  roused, serving, signal_empty, sleeping, spurious, spurious_main, taking, testing, unlock,
  waiting, wants, woken, woken_main, worker_at, worker_step, worker_steps,
}
use cs333_os_labs.Server.MainSteps.{map-map}
use mathlib.Core.List.{append-nil}

-- The connection that the main thread has and has not put into the queue.
abbrev pub pending : Main → List ℕ
pending accepting = []
pending releases = []
pending (wants fd) = fd ∷ []
pending (checks fd) = fd ∷ []
pending (asleep fd) = fd ∷ []
pending (roused fd) = fd ∷ []
pending (pushes fd) = fd ∷ []

abbrev pub came : Event → List ℕ
came (accept fd) = fd ∷ []
came e = []

abbrev pub front : List ℕ → List ℕ
front [] = []
front (fd ∷ fds) = fd ∷ []

abbrev pub taken_by : List ℕ → Option Worker → List ℕ
taken_by q none = []
taken_by q (some taking) = front q
taken_by q (some w) = []

abbrev pub went : Event → Server → List ℕ
went (worker_steps i) s = taken_by s.queue (get_elem? s.workers i)
went e s = []

-- A step that takes in `input` and gives out `output`.
abbrev pub Passes : List ℕ → List ℕ → Server → Server → Type 0
Passes input output s t =
    s.queue ++ (pending s.main ++ input) ≡ output ++ (t.queue ++ pending t.main)

silent : (s u : Server) → u.queue ≡ s.queue → pending u.main ≡ pending s.main → Passes [] [] s u
silent s u q p = rw (q, p, append-nil (pending s.main)) refl

Passes-some :
    (input output : List ℕ) (s : Server) {t u : Server}
    → Passes input output s u
    → some u ≡ some t
    → Passes input output s t
Passes-some input output s {t} {u} h e = subst (Passes input output s) (some-injective u t e) h

-- A step that takes in nothing and gives out nothing.
silent-Passes :
    (s u t : Server)
    → u.queue ≡ s.queue
    → pending u.main ≡ pending s.main
    → some u ≡ some t
    → Passes [] [] s t
silent-Passes s u t q p e = subst (Passes [] [] s) (some-injective u t e) (silent s u q p)

lock-Passes :
    (to : Server → Server) (s t : Server)
    → (to (record s { held = true })).queue ≡ s.queue
    → pending (to (record s { held = true })).main ≡ pending s.main
    → Option.map to (lock s) ≡ some t
    → Passes [] [] s t
lock-Passes to s t q p e = elim (Bool-cases s.held) [
  | inl f ↦ ground (arith, e, f)
  | inr f ↦ silent-Passes s (to (record s { held = true })) t q p (ground (arith, e, f))
]

pending-woken : (qsize n : ℕ) (m : Main) → pending (woken_main qsize n m) ≡ pending m
pending-woken qsize n accepting = ground arith
pending-woken qsize n releases = ground arith
pending-woken qsize n (wants fd) = ground arith
pending-woken qsize n (checks fd) = ground arith
pending-woken qsize n (asleep fd) = ground arith
pending-woken qsize n (roused fd) = ground arith
pending-woken qsize n (pushes fd) = ground arith

pop-Passes :
    (i : ℕ) (s t : Server) (q : List ℕ)
    → s.queue ≡ q
    → Option.map (λ (fd, s'). move i (leaving fd) s') (pop s q) ≡ some t
    → Passes [] (front q) s t
pop-Passes i s t [] q e = ground (arith, e)
pop-Passes i s t (fd ∷ fds) q e =
    Passes-some [] (fd ∷ []) s
      (rw (q, pending-woken s.qsize (length (fd ∷ fds)) s.main, append-nil (pending s.main)) refl) e

worker_step-Passes :
    (i : ℕ) (w : Worker) (s t : Server)
    → worker_step i w s ≡ some t
    → Passes [] (taken_by s.queue (some w)) s t
unfolding worker_step dequeue
worker_step-Passes i entering s t e = lock-Passes (move i testing) s t refl refl e
worker_step-Passes i testing s t e =
    silent-Passes s (move i (if is_nil s.queue then sleeping else taking) s) t refl refl e
worker_step-Passes i sleeping s t e = silent-Passes s (unlock (move i waiting s)) t refl refl e
worker_step-Passes i waiting s t e = ground (arith, e)
worker_step-Passes i woken s t e = lock-Passes (move i testing) s t refl refl e
worker_step-Passes i taking s t e = pop-Passes i s t s.queue refl e
worker_step-Passes i (leaving fd) s t e =
    silent-Passes s (unlock (move i (serving fd) s)) t refl refl e
worker_step-Passes i (serving fd) s t e = silent-Passes s (move i entering s) t refl refl e

-- The main thread has put its connection into the queue.
abbrev pushed : Main → ℕ → Server → Server
pushed m fd s = record s { main = m; queue = s.queue ++ fd ∷ [] }

pushed-Passes :
    (fd : ℕ) (s : Server) (m : Main) (ws : List Worker)
    → s.main ≡ pushes fd
    → pending m ≡ []
    → Passes [] [] s (record (pushed m fd s) { workers = ws })
pushed-Passes fd s m ws at p = rw (at, p) (sym (append-nil (s.queue ++ fd ∷ [])))

signalled-Passes :
    (fd : ℕ) (s t : Server) (m : Main) (r : Option (List Worker))
    → s.main ≡ pushes fd
    → pending m ≡ []
    → Option.map (λ ws. record (pushed m fd s) { workers = ws }) r ≡ some t
    → Passes [] [] s t
signalled-Passes fd s t m none at p e = ground (arith, e)
signalled-Passes fd s t m (some ws) at p e = Passes-some [] [] s (pushed-Passes fd s m ws at p) e

enqueue-Passes :
    (j fd : ℕ) (s t : Server) (m : Main)
    → s.main ≡ pushes fd
    → pending m ≡ []
    → Option.map (at_main m) (enqueue j fd s) ≡ some t
    → Passes [] [] s t
unfolding enqueue
enqueue-Passes j fd s t m at p e = elim (Bool-cases (is_nil s.queue)) [
  | inl f ↦
      let opens : Option.map (at_main m) (enqueue j fd s)
          ≡ Option.map (λ ws. record (pushed m fd s) { workers = ws }) (signal_empty j s.workers) =
        rw f (
          map-map (λ ws. record s { queue = s.queue ++ fd ∷ []; workers = ws }) (at_main m)
            (signal_empty j s.workers)) in
      signalled-Passes fd s t m (signal_empty j s.workers) at p (sym opens ∙ e)
  | inr f ↦
      let opens : Option.map (at_main m) (enqueue j fd s) ≡ some (pushed m fd s) = rw f refl in
      Passes-some [] [] s (pushed-Passes fd s m s.workers at p) (sym opens ∙ e)
]

pub main_step-Passes :
    (j : ℕ) (m : Main) (s t : Server) → s.main ≡ m → main_step j m s ≡ some t → Passes [] [] s t
unfolding main_step
main_step-Passes j accepting s t at e = ground (arith, e)
main_step-Passes j releases s t at e =
    silent-Passes s (unlock (at_main accepting s)) t refl (ap pending (sym at)) e
main_step-Passes j (wants fd) s t at e =
    lock-Passes (at_main (checks fd)) s t refl (ap pending (sym at)) e
main_step-Passes j (checks fd) s t at e = elim (Bool-cases (length s.queue == s.qsize)) [
  | inl f ↦
      silent-Passes s (unlock (at_main (asleep fd) s)) t refl (ap pending (sym at))
        (ground (arith, e, f))
  | inr f ↦
      silent-Passes s (at_main (pushes fd) s) t refl (ap pending (sym at)) (ground (arith, e, f))
]
main_step-Passes j (asleep fd) s t at e = ground (arith, e)
main_step-Passes j (roused fd) s t at e =
    lock-Passes (at_main (checks fd)) s t refl (ap pending (sym at)) e
main_step-Passes j (pushes fd) s t at e =
    enqueue-Passes j fd s t (if ltb 0 s.qsize then releases else accepting) at (ground arith) e

pub accept_step-Passes :
    (fd : ℕ) (m : Main) (s t : Server)
    → s.main ≡ m
    → accept_step fd m s ≡ some t
    → Passes (fd ∷ []) [] s t
accept_step-Passes fd accepting s t at e = elim (Bool-cases (fd == 0)) [
  | inl f ↦ ground (arith, e, f)
  | inr f ↦
      let u = at_main (if ltb 0 s.qsize then wants fd else pushes fd) s in
      let p : pending u.main ≡ fd ∷ [] = ground arith in
      Passes-some (fd ∷ []) [] s {t = t} {u = u} (rw (at, p) refl) (ground (arith, e, f))
]
accept_step-Passes fd releases s t at e = ground (arith, e)
accept_step-Passes fd (wants k) s t at e = ground (arith, e)
accept_step-Passes fd (checks k) s t at e = ground (arith, e)
accept_step-Passes fd (asleep k) s t at e = ground (arith, e)
accept_step-Passes fd (roused k) s t at e = ground (arith, e)
accept_step-Passes fd (pushes k) s t at e = ground (arith, e)

pub spurious_main-Passes :
    (m : Main) (s t : Server) → s.main ≡ m → spurious_main m s ≡ some t → Passes [] [] s t
spurious_main-Passes (asleep fd) s t at e =
    silent-Passes s (at_main (roused fd) s) t refl (ap pending (sym at)) e
spurious_main-Passes accepting s t at e = ground (arith, e)
spurious_main-Passes releases s t at e = ground (arith, e)
spurious_main-Passes (wants k) s t at e = ground (arith, e)
spurious_main-Passes (checks k) s t at e = ground (arith, e)
spurious_main-Passes (roused k) s t at e = ground (arith, e)
spurious_main-Passes (pushes k) s t at e = ground (arith, e)

pub spurious-Passes :
    (i : ℕ) (r : Option Worker) (s t : Server) → spurious i r s ≡ some t → Passes [] [] s t
spurious-Passes i none s t e = ground (arith, e)
spurious-Passes i (some w) s t e = elim (Bool-cases (is_waiting w)) [
  | inl f ↦ silent-Passes s (move i woken s) t refl refl (ground (arith, e, f))
  | inr f ↦ ground (arith, e, f)
]

pub worker_at-Passes :
    (i : ℕ) (r : Option Worker) (s t : Server)
    → worker_at i r s ≡ some t
    → Passes [] (taken_by s.queue r) s t
worker_at-Passes i none s t e = ground (arith, e)
worker_at-Passes i (some w) s t e = worker_step-Passes i w s t e
