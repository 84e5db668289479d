-- ===== src/Server/WorkerSteps.antt =====
-- lab4/server-mt.cpp, cli_handl: the steps of a worker from a sound state.
use mathlib.Core.Option
use cs333_os_labs.Prelude.{
  List, [], ap, arith, false, get_elem?, if◌then◌else◌, length, length-set, refl, some, true, ℕ,
  ◌<◌, ◌∷◌, ◌≡◌,
}
use cs333_os_labs.Server.{
  Main, Server, Worker, accepting, asleep, checks, dequeue, entering, is_nil, leaving, move, pop,
  pushes, releases, roused, serving, sleeping, taking, testing, waiting, wants, woken, woken_main,
  worker_step,
}
use cs333_os_labs.Server.Sound.{
  IsSound, IsSound-lock, IsSound-move, IsSound-some, main_fine, main_owns, owner_alone,
}
use cs333_os_labs.Server.Workers.{all_fine-get, all_fine-owner, any_awake-set, owners-set}

main_owns-woken : (qsize n : ℕ) (m : Main) → main_owns (woken_main qsize n m) ≡ main_owns m
main_owns-woken qsize n accepting = ground arith
main_owns-woken qsize n releases = ground arith
main_owns-woken qsize n (wants fd) = ground arith
main_owns-woken qsize n (checks fd) = ground arith
main_owns-woken qsize n (asleep fd) = ground arith
main_owns-woken qsize n (roused fd) = ground arith
main_owns-woken qsize n (pushes fd) = ground arith

main_fine-woken :
    (qsize : ℕ) (q q' : List ℕ) (m : Main)
    → 0 < qsize
    → main_owns m ≡ 0
    → main_fine qsize q m ≡ true
    → main_fine qsize q' (woken_main qsize (length q) m) ≡ true
main_fine-woken qsize q q' accepting b o f = ground arith
main_fine-woken qsize q q' releases b o f = absurd (omega arith)
main_fine-woken qsize q q' (wants fd) b o f = ground arith
main_fine-woken qsize q q' (checks fd) b o f = absurd (omega arith)
main_fine-woken qsize q q' (asleep fd) b o f = ground (arith, b, f)
main_fine-woken qsize q q' (roused fd) b o f = ground arith
main_fine-woken qsize q q' (pushes fd) b o f = absurd (omega arith)

pop-IsSound :
    (i : ℕ) (s t : Server) (q : List ℕ)
    → s.queue ≡ q
    → IsSound s
    → get_elem? s.workers i ≡ some taking
    → Option.map (λ (fd, s'). move i (leaving fd) s') (pop s q) ≡ some t
    → IsSound t
pop-IsSound i s t [] q h at e = ground (arith, e)
pop-IsSound i s t (fd ∷ fds) q h at e =
    let (locked, free, alone) = owner_alone i taking s h at refl in
    let one = h.one_owner in
    IsSound-some
      (record {
        bounded = h.bounded;
        staffed = omega (arith, h.staffed, length-set s.workers i (leaving fd));
        one_owner = omega (
          arith,
          one,
          main_owns-woken s.qsize (length s.queue) s.main,
          owners-set s.workers i taking (leaving fd) at,
        );
        fits = omega (arith, h.fits, ap length q);
        main_is_fine = main_fine-woken s.qsize s.queue fds s.main h.bounded free h.main_is_fine;
        workers_are_fine =
            all_fine-owner fds s.workers i taking (leaving fd) at (omega (arith, alone)) refl;
        awake = ground (arith, any_awake-set s.workers i taking (leaving fd) at refl);
      })
      e

pub worker_step-IsSound :
    (i : ℕ) (w : Worker) (s t : Server)
    → IsSound s
    → get_elem? s.workers i ≡ some w
    → worker_step i w s ≡ some t
    → IsSound t
unfolding worker_step dequeue
worker_step-IsSound i entering s t h at e =
    IsSound-lock (move i testing) s t
      (λ f. IsSound-move i entering testing true s h at (rw f refl) refl (ground arith)) e
worker_step-IsSound i testing s t h at e =
    let w = if is_nil s.queue then sleeping else taking in
    IsSound-some
      (IsSound-move i testing w s.held s h at (ground arith) (ground arith) (ground arith)) e
worker_step-IsSound i sleeping s t h at e =
    let (locked, free, alone) = owner_alone i sleeping s h at refl in
    let nothing = all_fine-get s.queue s.workers i sleeping h.workers_are_fine at in
    IsSound-some
      (IsSound-move i sleeping waiting false s h at (rw locked refl) refl (ground (arith, nothing)))
      e
worker_step-IsSound i waiting s t h at e = ground (arith, e)
worker_step-IsSound i woken s t h at e =
    IsSound-lock (move i testing) s t
      (λ f. IsSound-move i woken testing true s h at (rw f refl) refl (ground arith)) e
worker_step-IsSound i taking s t h at e = pop-IsSound i s t s.queue refl h at e
worker_step-IsSound i (leaving fd) s t h at e =
    let (locked, free, alone) = owner_alone i (leaving fd) s h at refl in
    IsSound-some
      (IsSound-move i (leaving fd) (serving fd) false s h at (rw locked refl) refl (ground arith)) e
worker_step-IsSound i (serving fd) s t h at e =
    IsSound-some
      (IsSound-move i (serving fd) entering s.held s h at (omega arith) refl (ground arith)) e
