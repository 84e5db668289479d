-- ===== src/Files/Counts/Steps.antt =====
-- lab6/xv6-public/file.c and sysfile.c: the steps of the calls on descriptors, where their test
-- has been decided.
use cs333_os_labs.FileTable.{Closing, File, filealloc, fileclose, filedup}
use cs333_os_labs.Files.{
  Kernel, alloc_file, close_file, closed, dup_file, duplicated, edit_file, finish_close,
}
use cs333_os_labs.Files.Calls.{fd_taken, fdalloc, first_fd, put_fd}
use cs333_os_labs.Prelude.{
  List, Option, [], ap, arith, get_elem?, get_or, length, none, refl, set, some, some-injective,
  suc, sym, zero, ℕ, ◌+◌, ◌-◌, ◌<◌, ◌∙◌, ◌∷◌, ◌≡◌, ◌≢◌, ◌≤◌,
}
use cs333_os_labs.Prelude.Outcome.{code, done}

module _ (i : ℕ) (k : Kernel) where
  pub close_file_at :
      (gs : List File) (c : Closing)
      → fileclose i k.files ≡ some (gs, c)
      → close_file i k ≡ finish_close c (record k { files = gs })
  unfolding close_file code closed
  close_file_at gs c e = rw e refl

  pub dup_file_at :
      (gs : List File)
      → filedup i k.files ≡ some gs
      → dup_file i k ≡ done (tt, record k { files = gs })
  unfolding dup_file code duplicated
  dup_file_at gs e = rw e refl

  pub alloc_file_at :
      (r : Option ℕ) (gs : List File)
      → filealloc 0 k.files ≡ (r, gs)
      → alloc_file k ≡ done (r, record k { files = gs })
  unfolding alloc_file
  alloc_file_at r gs e = rw e refl

  pub fdalloc_free :
      (d : ℕ) → first_fd 0 k.ofile ≡ some d → fdalloc i k ≡ done (some d, put_fd d (some i) k)
  unfolding fdalloc code fd_taken
  fdalloc_free d e = rw e refl

  pub fdalloc_full : first_fd 0 k.ofile ≡ none → fdalloc i k ≡ done (none, k)
  unfolding fdalloc code fd_taken
  fdalloc_full e = rw e refl

  pub edit_file_at :
      (f : File) (g : File → File)
      → get_elem? k.files i ≡ some f
      → edit_file i g k ≡ record k { files = set k.files i (g f) }
  edit_file_at f g e = rw (edit_file, e) refl

pub some_ne_none : {A : Type 0} (a : A) → some a ≢ none
some_ne_none a e = cc

first_fd_below :
    (i : ℕ) (ds : List (Option ℕ)) (n m : ℕ)
    → n ≡ suc m
    → ((e : ℕ) → e < m → get_or ds e none ≢ none)
    → (e : ℕ) → e < n
    → get_or (some i ∷ ds) e none ≢ none
first_fd_below i ds n m z h zero l = some_ne_none i
first_fd_below i ds n m z h (suc e) l = h e (omega (arith, z))

first_fd_from :
    (b : ℕ) (ds : List (Option ℕ)) (d : ℕ)
    → first_fd b ds ≡ some d
    → (b ≤ d)
      × (d - b < length ds)
      × (get_or ds (d - b) none ≡ none)
      × ((e : ℕ) → e < d - b → get_or ds e none ≢ none)
unfolding first_fd
first_fd_from b [] d e = cc
first_fd_from b (none ∷ ds) d e =
    let k = some-injective b d e in
    let z : d - b ≡ 0 = omega (arith, k) in
    (omega (arith, k), rw z (omega arith), rw z refl, λ a l. absurd (omega (arith, z)))
first_fd_from b (some i ∷ ds) d e =
    let (l, m, free, lowest) = first_fd_from (b + 1) ds d e in
    let z : d - b ≡ suc (d - (b + 1)) = omega arith in
    (omega arith, rw z (omega arith), rw z free, first_fd_below i ds (d - b) (d - (b + 1)) z lowest)

-- The descriptor that fdalloc takes is the first one of the process's that is free.
pub first_fd_lem :
    (ds : List (Option ℕ)) (d : ℕ)
    → first_fd 0 ds ≡ some d
    → (d < length ds) × (get_or ds d none ≡ none) × ((e : ℕ) → e < d → get_or ds e none ≢ none)
first_fd_lem ds d e =
    let (l, m, free, lowest) = first_fd_from 0 ds d e in
    let z : d - 0 ≡ d = omega arith in
    (
      omega (arith, z),
      sym (ap (λ a. get_or ds a none) z) ∙ free,
      λ a n. lowest a (omega (arith, z)),
    )

first_fd-none :
    (b : ℕ) (ds : List (Option ℕ)) (e : ℕ)
    → first_fd b ds ≡ none
    → e < length ds
    → get_or ds e none ≢ none
unfolding first_fd
first_fd-none b [] e h l = absurd (omega (arith, l))
first_fd-none b (none ∷ ds) e h l = cc
first_fd-none b (some i ∷ ds) zero h l = some_ne_none i
first_fd-none b (some i ∷ ds) (suc e) h l = first_fd-none (b + 1) ds e h (omega (arith, l))

-- Where fdalloc finds none, every descriptor is in use.
pub no_first_fd :
    (ds : List (Option ℕ))
    → first_fd 0 ds ≡ none
    → (e : ℕ) → e < length ds
    → get_or ds e none ≢ none
no_first_fd ds h e l = first_fd-none 0 ds e h l

pub get_or-inside : (ds : List (Option ℕ)) (d i : ℕ) → get_or ds d none ≡ some i → d < length ds
get_or-inside [] d i h = cc
get_or-inside (x ∷ ds) zero i h = omega arith
get_or-inside (x ∷ ds) (suc d) i h = omega (arith, get_or-inside ds d i h)

pub get_or-outside : (ds : List (Option ℕ)) (d : ℕ) → length ds ≤ d → get_or ds d none ≡ none
get_or-outside [] d h = refl
get_or-outside (x ∷ ds) zero h = absurd (omega arith)
get_or-outside (x ∷ ds) (suc d) h = get_or-outside ds d (omega arith)
