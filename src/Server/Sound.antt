-- ===== src/Server/Sound.antt =====
-- lab4/server-mt.cpp: the states of the server, with a queue that has a bound.
use mathlib.Core.Option
use cs333_os_labs.Prelude.{
  Bool, Bool-cases, List, arith, false, get_elem?, if◌then◌else◌, inl, inr, length, length-set, ltb,
  not, some, some-injective, subst, true, ℕ, ◌+◌, ◌<◌, ◌==◌, ◌||◌, ◌≡◌, ◌≤◌,
}
use cs333_os_labs.Server.{
  Main, Server, Worker, accepting, asleep, at_main, checks, is_nil, is_waiting, lock, move, pushes,
  releases, roused, wants,
}
use cs333_os_labs.Server.Workers.{
  all_fine, all_fine-set, any_awake, any_awake-set, fine, owners, owners-get, owners-set, owns,
}

abbrev pub main_owns : Main → ℕ
main_owns accepting = 0
main_owns releases = 1
main_owns (wants fd) = 0
main_owns (checks fd) = 1
main_owns (asleep fd) = 0
main_owns (roused fd) = 0
main_owns (pushes fd) = 1

-- What the main thread knows of the queue.
abbrev pub main_fine : ℕ → List ℕ → Main → Bool
main_fine qsize q (pushes fd) = ltb (length q) qsize
main_fine qsize q (asleep fd) = length q == qsize
main_fine qsize q m = true

-- One thread at most has the lock; the queue stays within its bound; a worker that goes on to
-- `dequeue` finds a connection there; the main thread sleeps only while the queue is full, and not
-- all workers sleep while it has a connection.
pub record IsSound (s : Server) : Type 0 where
  pub bounded : 0 < s.qsize
  pub staffed : 0 < length s.workers
  pub one_owner : main_owns s.main + owners s.workers ≡ (if s.held then 1 else 0)
  pub fits : length s.queue ≤ s.qsize
  pub main_is_fine : main_fine s.qsize s.queue s.main ≡ true
  pub workers_are_fine : all_fine s.queue s.workers ≡ true
  pub awake : (is_nil s.queue || any_awake s.workers) ≡ true

-- A worker that moves on, with or without the lock.
pub IsSound-move :
    (i : ℕ) (w w' : Worker) (held : Bool) (s : Server)
    → IsSound s
    → get_elem? s.workers i ≡ some w
    → (if s.held then 1 else 0) + owns w' ≡ owns w + (if held then 1 else 0)
    → fine s.queue w' ≡ true
    → (is_nil s.queue || not (is_waiting w')) ≡ true
    → IsSound (record (move i w' s) { held = held })
IsSound-move i w w' held s h at own f a = record {
  bounded = h.bounded;
  staffed = omega (arith, h.staffed, length-set s.workers i w');
  one_owner = omega (arith, h.one_owner, own, owners-set s.workers i w w' at);
  fits = h.fits;
  main_is_fine = h.main_is_fine;
  workers_are_fine = all_fine-set s.queue s.workers i w' h.workers_are_fine f;
  awake = elim (Bool-cases (is_waiting w')) [
    | inl e ↦ ground (arith, a, e)
    | inr e ↦ ground (arith, any_awake-set s.workers i w w' at e)
  ];
}

-- A move of the main thread that leaves the queue and the workers alone.
pub IsSound-main :
    (m : Main) (held : Bool) (s : Server)
    → IsSound s
    → (if s.held then 1 else 0) + main_owns m ≡ main_owns s.main + (if held then 1 else 0)
    → main_fine s.qsize s.queue m ≡ true
    → IsSound (record (at_main m s) { held = held })
IsSound-main m held s h own f = record {
  bounded = h.bounded;
  staffed = h.staffed;
  one_owner = omega (arith, h.one_owner, own);
  fits = h.fits;
  main_is_fine = f;
  workers_are_fine = h.workers_are_fine;
  awake = h.awake;
}

pub IsSound-some : {t u : Server} → IsSound u → some u ≡ some t → IsSound t
IsSound-some {t} {u} h e = subst IsSound (some-injective u t e) h

-- Taking the lock, after which the thread is as in `to`.
pub IsSound-lock :
    (to : Server → Server) (s t : Server)
    → (s.held ≡ false → IsSound (to (record s { held = true })))
    → Option.map to (lock s) ≡ some t
    → IsSound t
IsSound-lock to s t h e = elim (Bool-cases s.held) [
  | inl f ↦ ground (arith, e, f)
  | inr f ↦
      subst IsSound (some-injective (to (record s { held = true })) t (ground (arith, e, f))) (h f)
]

-- A worker that owns the lock is the only owner.
pub owner_alone :
    (i : ℕ) (w : Worker) (s : Server)
    → IsSound s
    → get_elem? s.workers i ≡ some w
    → owns w ≡ 1
    → (s.held ≡ true) × (main_owns s.main ≡ 0) × (owners s.workers ≡ 1)
owner_alone i w s h at e =
    let own = owners-get s.workers i w at in
    let one = h.one_owner in (ground arith, ground arith, ground arith)
