-- ===== src/Prelude/Outcome/Keeps.antt =====
-- An invariant of the state along a `do` block, together with the end of its loops.
use cs333_os_labs.Prelude.{Bool, false, refl, true, ◌≡◌, ◌≢◌}
use cs333_os_labs.Prelude.Outcome.{
  Outcome, Stop, branch, code, done, halt, modify, pure, read, require, stop, ◌>>=◌, ◌>>◌,
}

module _ {S : Type 0} where
  -- The code does not run out of fuel, and where it returns, the invariant holds.
  abbrev pub Returns : {A : Type 0} → (S → Type 0) → Outcome (A × S) → Type 0
  Returns P (done (a, s)) = P s
  Returns P (stop e) = e ≢ Stop.out_of_fuel

  pub record Keeps {A : Type 0} (P : S → Type 0) (m : S → Outcome (A × S)) : Type 0 where
    pub run : (s : S) → P s → Returns P (m s)

  Returns-bind :
      {A B : Type 0} (P : S → Type 0) (o : Outcome (A × S)) (f : A → S → Outcome (B × S))
      → Returns P o
      → ((a : A) → Keeps P (f a))
      → Returns P (elim o [ done (a, s) ↦ f a s | stop e ↦ stop e ])
  Returns-bind P (done (a, s)) f h k = (k a).run s h
  Returns-bind P (stop e) f h k = h

  pub Keeps-bind :
      {A B : Type 0} {P : S → Type 0} {m : S → Outcome (A × S)} {f : A → S → Outcome (B × S)}
      → Keeps P m
      → ((a : A) → Keeps P (f a))
      → Keeps P (m >>= f)
  unfolding code
  Keeps-bind {P} {m} {f} h k = record { run = λ s p. Returns-bind P (m s) f (h.run s p) k }

  pub Keeps-then :
      {B : Type 0} {P : S → Type 0} {m : S → Outcome (Unit {0} × S)} {n : S → Outcome (B × S)}
      → Keeps P m
      → Keeps P n
      → Keeps P (m >> n)
  unfolding code
  Keeps-then {P} {m} {n} h k = record {
    run = λ s p. Returns-bind P (m s) (λ _. n) (h.run s p) (λ _. k);
  }

  pub Keeps-pure : {A : Type 0} {P : S → Type 0} (a : A) → Keeps P (pure a)
  unfolding code
  Keeps-pure a = record { run = λ s p. p }

  pub Keeps-read : {A : Type 0} {P : S → Type 0} (f : S → A) → Keeps P (read f)
  unfolding code
  Keeps-read f = record { run = λ s p. p }

  pub Keeps-halt :
      (A : Type 0) {P : S → Type 0} (e : Stop) → e ≢ Stop.out_of_fuel → Keeps P (halt {A = A} e)
  unfolding code
  Keeps-halt A e h = record { run = λ s p. h }

  pub Keeps-modify : {P : S → Type 0} (f : S → S) → ((s : S) → P s → P (f s)) → Keeps P (modify f)
  unfolding code
  Keeps-modify f h = record { run = h }

  Keeps-require_cases :
      (P : S → Type 0) (b : Bool) (e : Stop)
      → e ≢ Stop.out_of_fuel
      → (s : S) → P s
      → Returns P (require b e s)
  unfolding code
  Keeps-require_cases P true e h s p = p
  Keeps-require_cases P false e h s p = h

  pub Keeps-require :
      {P : S → Type 0} (b : Bool) (e : Stop) → e ≢ Stop.out_of_fuel → Keeps P (require b e)
  Keeps-require {P} b e h = record { run = Keeps-require_cases P b e h }

  Keeps-branch_cases :
      {A : Type 0} (P : S → Type 0) (b : Bool) (m n : S → Outcome (A × S))
      → ((b ≡ true) → Keeps P m)
      → ((b ≡ false) → Keeps P n)
      → (s : S) → P s
      → Returns P (branch b m n s)
  unfolding code
  Keeps-branch_cases P true m n h k s p = (h refl).run s p
  Keeps-branch_cases P false m n h k s p = (k refl).run s p

  pub Keeps-branch :
      {A : Type 0} {P : S → Type 0} {b : Bool} {m n : S → Outcome (A × S)}
      → ((b ≡ true) → Keeps P m)
      → ((b ≡ false) → Keeps P n)
      → Keeps P (branch b m n)
  Keeps-branch {P} {b} {m} {n} h k = record { run = Keeps-branch_cases P b m n h k }
