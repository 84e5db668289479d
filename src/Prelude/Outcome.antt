-- ===== src/Prelude/Outcome.antt =====
-- Kernel code as functions on a state: what `panic`, an access out of range and an endless loop
-- give, and the sequencing that the `do` blocks of the model use.
pub mod Keeps
use cs333_os_labs.Prelude.{Bool, false, refl, sym, true, ◌∙◌, ◌≡◌, ◌≢◌}

-- The calls of `panic`, by their message, and what the C source leaves undefined.
pub data Stop : Type 0 where
  bad_kfree remap no_pgdir missing_pte absent_page no_kernel_map : Stop
  no_user_pte null_pte null_inode init_exits bad_sched inituvm_size loaduvm_align cow_failed : Stop
  no_blocks frees_free_block no_inodes ilock_unreferenced ilock_no_type iunlock_unlocked : Stop
  bmap_range not_directory short_dirent dirlink_failed sleeps_locked short_write bad_file : Stop
  unlink_unlinked create_failed out_of_bounds out_of_fuel : Stop
  missing_file parseblock_panic missing_paren syntax too_many_args leftovers : Stop

pub data Outcome {ℓ} (A : Type ℓ) : Type ℓ where
  done : A → Outcome A
  stop : Stop → Outcome A

module _ {S : Type 0} where
  unfoldable pub pure : {A : Type 0} → A → S → Outcome (A × S)
  pure a s = done (a, s)

  unfoldable pub halt : {A : Type 0} → Stop → S → Outcome (A × S)
  halt e s = stop e

  infixl 5 ◌>>=◌ ◌>>◌
  unfoldable pub ◌>>=◌ :
      {A B : Type 0} → (S → Outcome (A × S)) → (A → S → Outcome (B × S)) → S → Outcome (B × S)
  ◌>>=◌ m f s = elim (m s) [ done (a, s') ↦ f a s' | stop e ↦ stop e ]

  unfoldable pub ◌>>◌ :
      {B : Type 0} → (S → Outcome (Unit {0} × S)) → (S → Outcome (B × S)) → S → Outcome (B × S)
  ◌>>◌ m k s = elim (m s) [ done (a, s') ↦ k s' | stop e ↦ stop e ]

  -- Reading and changing the state.
  unfoldable pub read : {A : Type 0} → (S → A) → S → Outcome (A × S)
  read f s = done (f s, s)

  unfoldable pub modify : (S → S) → S → Outcome (Unit {0} × S)
  modify f s = done (tt, f s)

  -- Goes on only if the test holds.
  unfoldable pub require : Bool → Stop → S → Outcome (Unit {0} × S)
  require b e s = elim b [ true ↦ done (tt, s) | false ↦ stop e ]

  -- A branch of the code, chosen by a test.
  unfoldable pub branch :
      {A : Type 0} → Bool → (S → Outcome (A × S)) → (S → Outcome (A × S)) → S → Outcome (A × S)
  branch b m n s = elim b [ true ↦ m s | false ↦ n s ]

-- Named on an `unfolding` line to compute with `do` blocks.
unfoldable pub code : Bool
unfolding pure halt ◌>>=◌ ◌>>◌ read modify require branch
code = true

stop_ne_done : {A : Type 0} (x : Stop) (a : A) → stop x ≢ done a
stop_ne_done x a e = cc

-- A step that is known to return is left behind.
module _ {S : Type 0} where
  pub bind_done :
      {A B : Type 0} (m : S → Outcome (A × S)) (f : A → S → Outcome (B × S)) {s t : S} {a : A}
      → m s ≡ done (a, t)
      → (m >>= f) s ≡ f a t
  unfolding code
  bind_done m f e = rw (e, ◌>>=◌)

  pub then_done :
      {B : Type 0} (m : S → Outcome (Unit {0} × S)) (n : S → Outcome (B × S)) {s t : S}
      → m s ≡ done (tt, t)
      → (m >> n) s ≡ n t
  unfolding code
  then_done m n e = rw (e, ◌>>◌)

  pub branch_yes :
      {A : Type 0} (b : Bool) (m n : S → Outcome (A × S)) (s : S) → b ≡ true → branch b m n s ≡ m s
  unfolding code
  branch_yes b m n s e = rw e refl

  pub branch_no :
      {A : Type 0} (b : Bool) (m n : S → Outcome (A × S)) (s : S) → b ≡ false → branch b m n s ≡ n s
  unfolding code
  branch_no b m n s e = rw e refl

  pub returns : {A : Type 0} (a : A) (s : S) → pure a s ≡ done (a, s)
  unfolding code
  returns a s = refl

  pub modifies : (f : S → S) (s : S) → modify f s ≡ done (tt, f s)
  unfolding code
  modifies f s = refl

  pub reads : {A : Type 0} (f : S → A) (s : S) → read f s ≡ done (f s, s)
  unfolding code
  reads f s = refl

  pub required : (e : Stop) (s : S) → require true e s ≡ done (tt, s)
  unfolding code
  required e s = refl

  bind_stop :
      {A B : Type 0} (m : S → Outcome (A × S)) (f : A → S → Outcome (B × S)) (s : S) (x : Stop)
      → m s ≡ stop x
      → (m >>= f) s ≡ stop x
  unfolding code
  bind_stop m f s x e = rw (e, ◌>>=◌) refl

  bind_assoc_at :
      {A B D : Type 0} (m : S → Outcome (A × S)) (f : A → S → Outcome (B × S))
      (g : B → S → Outcome (D × S)) (s t : S) (b : B) (o : Outcome (A × S))
      → m s ≡ o
      → (m >>= f) s ≡ done (b, t)
      → (m >>= λ a. f a >>= g) s ≡ g b t
  bind_assoc_at m f g s t b (done (a, u)) r e =
      bind_done m (λ a. f a >>= g) r ∙ bind_done (f a) g (sym (bind_done m f r) ∙ e)
  bind_assoc_at m f g s t b (stop x) r e =
      absurd (stop_ne_done x (b, t) (sym (bind_stop m f s x r) ∙ e))

  -- Two steps that are known to return together, of which the second one is part of the rest.
  pub bind_assoc :
      {A B D : Type 0} (m : S → Outcome (A × S)) (f : A → S → Outcome (B × S))
      (g : B → S → Outcome (D × S)) (s t : S) (b : B)
      → (m >>= f) s ≡ done (b, t)
      → (m >>= λ a. f a >>= g) s ≡ g b t
  bind_assoc m f g s t b e = bind_assoc_at m f g s t b (m s) refl e

  -- What follows sees only how a step ends.
  pub then_same :
      {B : Type 0} (m m' : S → Outcome (Unit {0} × S)) (n : S → Outcome (B × S)) {s s' : S}
      → m s ≡ m' s'
      → (m >> n) s ≡ (m' >> n) s'
  unfolding code
  then_same m m' n e = rw (e, ◌>>◌) refl
