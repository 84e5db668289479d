-- ===== src/Server/MainSteps.antt =====
-- lab4/server-mt.cpp, main: the steps of the main thread from a sound state, and the waits that
-- return without a signal.
use mathlib.Core.Option
use cs333_os_labs.Prelude.{
  Bool-cases, List, Option, [], ap, arith, false, get_elem?, inl, inr, length, length-append, ltb,
  none, refl, some, subst, sym, true, ℕ, ◌++◌, ◌==◌, ◌∙◌, ◌∷◌, ◌≡◌,
}
use cs333_os_labs.Server.{
  Main, Server, Worker, accept_step, accepting, asleep, at_main, checks, enqueue, is_nil,
  is_waiting, main_step, pushes, releases, roused, signal_empty, spurious, spurious_main, wants,
  woken,
}
use cs333_os_labs.Server.Sound.{
  IsSound, IsSound-lock, IsSound-main, IsSound-move, IsSound-some, main_fine, main_owns,
}
use cs333_os_labs.Server.Workers.{
  all_fine_free, any_awake, owners, signal_empty-Wakes, waiting_free,
}

-- The main thread has put a connection into the queue.
enqueued :
    (s : Server) (fd : ℕ) (ws : List Worker)
    → IsSound s
    → s.main ≡ pushes fd
    → owners ws ≡ owners s.workers
    → length ws ≡ length s.workers
    → any_awake ws ≡ true
    → IsSound (record (at_main releases s) { queue = s.queue ++ fd ∷ []; workers = ws })
enqueued s fd ws h at own len up =
    let one = h.one_owner in
    let mine : main_owns s.main ≡ 1 = ap main_owns at in
    let room : ltb (length s.queue) s.qsize ≡ true =
      subst (λ m. main_fine s.qsize s.queue m ≡ true) at h.main_is_fine in
    let none_else : owners s.workers ≡ 0 = ground arith in
    record {
      bounded = h.bounded;
      staffed = omega (arith, h.staffed, len);
      one_owner = ground arith;
      fits = ground (arith, room, length-append s.queue (fd ∷ []));
      main_is_fine = refl;
      workers_are_fine = all_fine_free (s.queue ++ fd ∷ []) ws (own ∙ none_else);
      awake = ground (arith, up);
    }

signalled :
    (s : Server) (fd : ℕ) (r : Option (List Worker)) (t : Server) (j : ℕ)
    → IsSound s
    → s.main ≡ pushes fd
    → signal_empty j s.workers ≡ r
    → Option.map (λ ws. record (at_main releases s) { queue = s.queue ++ fd ∷ []; workers = ws }) r
      ≡ some t
    → IsSound t
signalled s fd none t j h at q e = ground (arith, e)
signalled s fd (some ws) t j h at q e =
    let w = signal_empty-Wakes s.workers ws j h.staffed q in
    IsSound-some (enqueued s fd ws h at w.same_owners w.same_length w.awake) e

pub map-map :
    {A B C : Type 0} (f : A → B) (g : B → C) (r : Option A)
    → Option.map g (Option.map f r) ≡ Option.map (λ a. g (f a)) r
map-map f g none = refl
map-map f g (some a) = refl

enqueue-IsSound :
    (j fd : ℕ) (s t : Server)
    → IsSound s
    → s.main ≡ pushes fd
    → Option.map (at_main releases) (enqueue j fd s) ≡ some t
    → IsSound t
unfolding enqueue
enqueue-IsSound j fd s t h at e = elim (Bool-cases (is_nil s.queue)) [
  | inl f ↦
      let opens : Option.map (at_main releases) (enqueue j fd s)
          ≡ Option.map
              (λ ws. record (at_main releases s) { queue = s.queue ++ fd ∷ []; workers = ws })
              (signal_empty j s.workers) =
        rw f (
          map-map (λ ws. record s { queue = s.queue ++ fd ∷ []; workers = ws }) (at_main releases)
            (signal_empty j s.workers)) in
      signalled s fd (signal_empty j s.workers) t j h at refl (sym opens ∙ e)
  | inr f ↦
      let up = h.awake in
      let opens : Option.map (at_main releases) (enqueue j fd s)
          ≡ some (record (at_main releases s) { queue = s.queue ++ fd ∷ [] }) =
        rw f refl in
      IsSound-some (enqueued s fd s.workers h at refl refl (ground (arith, f))) (sym opens ∙ e)
]

pub main_alone :
    (s : Server) → IsSound s → main_owns s.main ≡ 1 → (s.held ≡ true) × (owners s.workers ≡ 0)
main_alone s h e = let one = h.one_owner in (ground arith, ground arith)

pub main_step-IsSound :
    (j : ℕ) (m : Main) (s t : Server)
    → IsSound s
    → s.main ≡ m
    → main_step j m s ≡ some t
    → IsSound t
unfolding main_step
main_step-IsSound j accepting s t h at e = ground (arith, e)
main_step-IsSound j releases s t h at e =
    let (locked, free) = main_alone s h (ap main_owns at) in
    IsSound-some (IsSound-main accepting false s h (rw (locked, at) refl) refl) e
main_step-IsSound j (wants fd) s t h at e =
    IsSound-lock (at_main (checks fd)) s t
      (λ f. IsSound-main (checks fd) true s h (rw (f, at) refl) refl) e
main_step-IsSound j (checks fd) s t h at e =
    let (locked, free) = main_alone s h (ap main_owns at) in
    elim (Bool-cases (length s.queue == s.qsize)) [
      | inl f ↦
          IsSound-some (IsSound-main (asleep fd) false s h (rw (locked, at) refl) f)
            (ground (arith, e, f))
      | inr f ↦
          let fits = h.fits in
          IsSound-some
            (IsSound-main (pushes fd) s.held s h (rw (locked, at) refl) (ground (arith, f)))
            (ground (arith, e, f))
    ]
main_step-IsSound j (asleep fd) s t h at e = ground (arith, e)
main_step-IsSound j (roused fd) s t h at e =
    IsSound-lock (at_main (checks fd)) s t
      (λ f. IsSound-main (checks fd) true s h (rw (f, at) refl) refl) e
main_step-IsSound j (pushes fd) s t h at e =
    enqueue-IsSound j fd s t h at (ground (arith, e, h.bounded))

pub accept_step-IsSound :
    (fd : ℕ) (m : Main) (s t : Server)
    → IsSound s
    → s.main ≡ m
    → accept_step fd m s ≡ some t
    → IsSound t
accept_step-IsSound fd accepting s t h at e =
    IsSound-some (IsSound-main (wants fd) s.held s h (rw at (omega arith)) refl)
      (ground (arith, e, h.bounded))
accept_step-IsSound fd releases s t h at e = ground (arith, e)
accept_step-IsSound fd (wants k) s t h at e = ground (arith, e)
accept_step-IsSound fd (checks k) s t h at e = ground (arith, e)
accept_step-IsSound fd (asleep k) s t h at e = ground (arith, e)
accept_step-IsSound fd (roused k) s t h at e = ground (arith, e)
accept_step-IsSound fd (pushes k) s t h at e = ground (arith, e)

pub spurious_main-IsSound :
    (m : Main) (s t : Server) → IsSound s → s.main ≡ m → spurious_main m s ≡ some t → IsSound t
spurious_main-IsSound (asleep fd) s t h at e =
    IsSound-some (IsSound-main (roused fd) s.held s h (rw at (omega arith)) refl) e
spurious_main-IsSound accepting s t h at e = ground (arith, e)
spurious_main-IsSound releases s t h at e = ground (arith, e)
spurious_main-IsSound (wants k) s t h at e = ground (arith, e)
spurious_main-IsSound (checks k) s t h at e = ground (arith, e)
spurious_main-IsSound (roused k) s t h at e = ground (arith, e)
spurious_main-IsSound (pushes k) s t h at e = ground (arith, e)

pub spurious-IsSound :
    (i : ℕ) (r : Option Worker) (s t : Server)
    → IsSound s
    → get_elem? s.workers i ≡ r
    → spurious i r s ≡ some t
    → IsSound t
spurious-IsSound i none s t h at e = ground (arith, e)
spurious-IsSound i (some w) s t h at e = elim (Bool-cases (is_waiting w)) [
  | inl f ↦
      IsSound-some
        (IsSound-move i w woken s.held s h at (omega (arith, waiting_free w f)) refl (ground arith))
        (ground (arith, e, f))
  | inr f ↦ ground (arith, e, f)
]
