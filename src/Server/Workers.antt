-- ===== src/Server/Workers.antt =====
-- lab4/server-mt.cpp: the worker threads as a list.
use cs333_os_labs.Prelude.{
  Bool, Bool-cases, List, Option, [], ap, arith, false, get_elem?, inl, inr, length, length-set,
  none, not, refl, set, some, some-injective, subst, suc, true, zero, ℕ, ◌&&◌, ◌+◌, ◌<◌, ◌||◌, ◌∷◌,
  ◌≡◌, ◌≤◌,
}
use cs333_os_labs.Server.{
  Worker, any_waiting, entering, is_nil, is_waiting, leaving, serving, signal_empty, sleeping,
  taking, testing, waiting, wake, woken,
}

-- A worker that has the lock.
abbrev pub owns : Worker → ℕ
owns testing = 1
owns sleeping = 1
owns taking = 1
owns (leaving fd) = 1
owns w = 0

abbrev pub owners : List Worker → ℕ
owners [] = 0
owners (w ∷ ws) = owns w + owners ws

-- What a worker with the lock knows of the queue.
abbrev pub fine : List ℕ → Worker → Bool
fine q sleeping = is_nil q
fine q taking = not (is_nil q)
fine q w = true

abbrev pub all_fine : List ℕ → List Worker → Bool
all_fine q [] = true
all_fine q (w ∷ ws) = fine q w && all_fine q ws

abbrev pub any_awake : List Worker → Bool
any_awake [] = false
any_awake (w ∷ ws) = not (is_waiting w) || any_awake ws

fine_free : (q : List ℕ) (w : Worker) → owns w ≡ 0 → fine q w ≡ true
fine_free q entering e = refl
fine_free q testing e = absurd (omega arith)
fine_free q sleeping e = absurd (omega arith)
fine_free q waiting e = refl
fine_free q woken e = refl
fine_free q taking e = absurd (omega arith)
fine_free q (leaving fd) e = refl
fine_free q (serving fd) e = refl

pub all_fine_free : (q : List ℕ) (ws : List Worker) → owners ws ≡ 0 → all_fine q ws ≡ true
all_fine_free q [] e = refl
all_fine_free q (w ∷ ws) e =
    let here = fine_free q w (omega arith) in
    let there = all_fine_free q ws (omega arith) in ground (arith, here, there)

pub owners-set :
    (ws : List Worker) (i : ℕ) (w w' : Worker)
    → get_elem? ws i ≡ some w
    → owners (set ws i w') + owns w ≡ owners ws + owns w'
owners-set [] i w w' e = ground (arith, e)
owners-set (x ∷ ws) zero w w' e = omega (arith, ap owns (some-injective x w e))
owners-set (x ∷ ws) (suc i) w w' e = omega (arith, owners-set ws i w w' e)

pub owners-get :
    (ws : List Worker) (i : ℕ) (w : Worker) → get_elem? ws i ≡ some w → owns w ≤ owners ws
owners-get [] i w e = ground (arith, e)
owners-get (x ∷ ws) zero w e = omega (arith, ap owns (some-injective x w e))
owners-get (x ∷ ws) (suc i) w e = omega (arith, owners-get ws i w e)

pub waiting_free : (w : Worker) → is_waiting w ≡ true → owns w ≡ 0
waiting_free entering e = refl
waiting_free testing e = ground (arith, e)
waiting_free sleeping e = ground (arith, e)
waiting_free waiting e = refl
waiting_free woken e = refl
waiting_free taking e = ground (arith, e)
waiting_free (leaving fd) e = ground (arith, e)
waiting_free (serving fd) e = refl

-- A step that leaves the queue alone.
pub all_fine-set :
    (q : List ℕ) (ws : List Worker) (i : ℕ) (w : Worker)
    → all_fine q ws ≡ true
    → fine q w ≡ true
    → all_fine q (set ws i w) ≡ true
all_fine-set q [] i w h e = refl
all_fine-set q (x ∷ ws) zero w h e = ground (arith, h, e)
all_fine-set q (x ∷ ws) (suc i) w h e =
    let rest = all_fine-set q ws i w (ground (arith, h)) e in ground (arith, h, rest)

pub all_fine-get :
    (q : List ℕ) (ws : List Worker) (i : ℕ) (w : Worker)
    → all_fine q ws ≡ true
    → get_elem? ws i ≡ some w
    → fine q w ≡ true
all_fine-get q [] i w h e = ground (arith, e)
all_fine-get q (x ∷ ws) zero w h e =
    subst (λ x. fine q x ≡ true) (some-injective x w e) (ground (arith, h))
all_fine-get q (x ∷ ws) (suc i) w h e = all_fine-get q ws i w (ground (arith, h)) e

-- A step of the only owner of the lock.
pub all_fine-owner :
    (q : List ℕ) (ws : List Worker) (i : ℕ) (w w' : Worker)
    → get_elem? ws i ≡ some w
    → owners ws ≤ owns w
    → fine q w' ≡ true
    → all_fine q (set ws i w') ≡ true
all_fine-owner q [] i w w' e l f = refl
all_fine-owner q (x ∷ ws) zero w w' e l f =
    let same = ap owns (some-injective x w e) in
    let rest = all_fine_free q ws (omega arith) in ground (arith, f, rest)
all_fine-owner q (x ∷ ws) (suc i) w w' e l f =
    let own = owners-get ws i w e in
    let here = fine_free q x (omega arith) in
    let rest = all_fine-owner q ws i w w' e (omega arith) f in ground (arith, here, rest)

pub any_awake-set :
    (ws : List Worker) (i : ℕ) (w w' : Worker)
    → get_elem? ws i ≡ some w
    → is_waiting w' ≡ false
    → any_awake (set ws i w') ≡ true
any_awake-set [] i w w' e f = ground (arith, e)
any_awake-set (x ∷ ws) zero w w' e f = ground (arith, f)
any_awake-set (x ∷ ws) (suc i) w w' e f = ground (arith, any_awake-set ws i w w' e f)

any_awake_unless : (ws : List Worker) → any_waiting ws ≡ false → 0 < length ws → any_awake ws ≡ true
any_awake_unless [] e l = absurd (omega arith)
any_awake_unless (w ∷ ws) e l = ground (arith, e)

-- What a signal changes.
pub record Wakes (ws ws' : List Worker) : Type 0 where
  pub same_owners : owners ws' ≡ owners ws
  pub same_fine : (q : List ℕ) → all_fine q ws ≡ true → all_fine q ws' ≡ true
  pub same_length : length ws' ≡ length ws
  pub awake : any_awake ws' ≡ true

woken-Wakes :
    (ws : List Worker) (j : ℕ) (w : Worker)
    → get_elem? ws j ≡ some w
    → is_waiting w ≡ true
    → Wakes ws (set ws j woken)
woken-Wakes ws j w e f = record {
  same_owners = omega (arith, owners-set ws j w woken e, waiting_free w f);
  same_fine = λ q h. all_fine-set q ws j woken h refl;
  same_length = length-set ws j woken;
  awake = any_awake-set ws j w woken e refl;
}

wake-Wakes :
    (ws : List Worker) (j : ℕ) (r : Option Worker) (ws' : List Worker)
    → get_elem? ws j ≡ r
    → wake j ws r ≡ some ws'
    → Wakes ws ws'
wake-Wakes ws j none ws' at e = ground (arith, e)
wake-Wakes ws j (some w) ws' at e = elim (Bool-cases (is_waiting w)) [
  | inl f ↦
      let same : set ws j woken ≡ ws' =
        some-injective (set ws j woken) ws' (ground (arith, e, f)) in
      subst (Wakes ws) same (woken-Wakes ws j w at f)
  | inr f ↦ ground (arith, e, f)
]

pub signal_empty-Wakes :
    (ws ws' : List Worker) (j : ℕ) → 0 < length ws → signal_empty j ws ≡ some ws' → Wakes ws ws'
unfolding signal_empty
signal_empty-Wakes ws ws' j l e = elim (Bool-cases (any_waiting ws)) [
  | inl f ↦ wake-Wakes ws j (get_elem? ws j) ws' refl (ground (arith, e, f))
  | inr f ↦ subst (Wakes ws) (some-injective ws ws' (ground (arith, e, f))) (record {
    same_owners = refl;
    same_fine = λ q h. h;
    same_length = refl;
    awake = any_awake_unless ws f l;
  })
]
