-- ===== src/Files/Counts/PipeCall.antt =====
-- lab6/xv6-public/sysfile.c, sys_pipe: its two descriptors.
use cs333_os_labs.Files.{Kernel, pipealloc}
use cs333_os_labs.Files.Calls.{
  fdalloc, first_fd, give_back, pipe_fd0, pipe_fd1, pipe_fds, put_fd, sys_pipe,
}
use cs333_os_labs.Files.Counts.{IsCounted, IsCounted-put, plus}
use cs333_os_labs.Files.Counts.Ends.{Allocates, IsEnd, IsPiped, IsUndone, without_first}
use cs333_os_labs.Files.Counts.GiveBack.{give_back-undoes}
use cs333_os_labs.Files.Counts.Lacks.{PipeLacks, Taken, TakenBut, no_descriptors}
use cs333_os_labs.Files.Counts.Pipealloc.{pipealloc-Allocates}
use cs333_os_labs.Files.Counts.Steps.{
  fdalloc_free, fdalloc_full, first_fd_lem, no_first_fd, some_ne_none,
}
use cs333_os_labs.Files.Counts.Table.{IsCounted-swap}
use cs333_os_labs.Kalloc.{Machine, bad_page, frame_of}
use cs333_os_labs.Pipe.{pipe_init}
use cs333_os_labs.Prelude.{
  All, List, Option, [], ap, arith, false, get_or, get_or-set_ne, get_or-set_self, head_of_All,
  length-set, none, refl, set, some, subst, suc, sym, true, zero, ℕ, ◌∙◌, ◌∷◌, ◌≡◌, ◌≢◌,
}
use cs333_os_labs.Prelude.Outcome.{bind_done, done, modifies, modify, returns, then_done, ◌>>=◌}

-- Two descriptors that were free name the ends of a new pipe in the page that was the first free
-- one; the memory is as before but for this page.
pub record IsOpened (held : ℕ → ℕ) (k t : Kernel) (a b : ℕ) : Type 0 where
  pub counted : IsCounted held t.files t.ofile
  pub apart : a ≢ b
  pub free_first : get_or k.ofile a none ≡ none
  pub free_second : get_or k.ofile b none ≡ none
  pub i : ℕ
  pub j : ℕ
  pub p : ℕ
  pub named : t.ofile ≡ set (set k.ofile a (some i)) b (some j)
  pub rest : List ℕ
  pub taken : k.mem.freelist ≡ p ∷ rest
  pub same_mem : t.mem ≡ without_first rest k.mem
  pub fresh : t.pipes p ≡ pipe_init (k.pipes p).buf
  pub reading : IsEnd t.files i p false
  pub writing : IsEnd t.files j p true

abbrev pub Opens : (ℕ → ℕ) → Kernel → Option (ℕ × ℕ) → Kernel → Type 0
Opens held k none t = PipeLacks k.files k.mem.freelist k.ofile × IsUndone held k t
Opens held k (some (a, b)) t = IsOpened held k t a b

set-undo :
    (ds : List (Option ℕ)) (d : ℕ) (r : Option ℕ)
    → get_or ds d none ≡ none
    → set (set ds d r) d none ≡ ds
set-undo [] d r h = refl
set-undo (x ∷ ds) zero r h = ap (λ y. y ∷ ds) (sym h)
set-undo (x ∷ ds) (suc d) r h = ap (λ ys. x ∷ ys) (set-undo ds d r h)

but_one : (ds : List (Option ℕ)) (d : ℕ) (r : Option ℕ) → Taken (set ds d r) → TakenBut d ds
but_one ds d r h e l n z =
    h e (omega (arith, l, length-set ds d r)) (get_or-set_ne ds d e r none (λ k. n (sym k)) ∙ z)

-- The pages that kalloc can give are pages that kfree takes, and not shared.
abbrev pub Unshared : Machine → Type 0
Unshared s = All (λ v. (bad_page s.kend v ≡ false) × (s.cnt (frame_of v) ≡ 0)) s.freelist

module _ (held : ℕ → ℕ) (k t : Kernel) (f0 f1 p : ℕ) (x : IsPiped held k t f0 f1 p)
    (sound : Unshared k.mem) where
  page_ok : (bad_page k.mem.kend p ≡ false) × (k.mem.cnt (frame_of p) ≡ 0)
  page_ok =
      head_of_All (λ v. (bad_page k.mem.kend v ≡ false) × (k.mem.cnt (frame_of v) ≡ 0))
        k.mem.freelist p x.rest x.taken sound

  -- From any descriptors that were put back.
  undone :
      (ds : List (Option ℕ))
      → ds ≡ t.ofile
      → (u : Kernel) × (give_back f0 f1 (record t { ofile = ds }) ≡ done (none, u))
        × IsUndone held k u
  undone ds e =
      let c = subst (λ es. IsCounted (plus f1 (plus f0 held)) t.files es) (sym e) x.counted in
      let good = subst (λ (s : Machine). bad_page s.kend p ≡ false) (sym x.same_mem) page_ok.0 in
      let zero_count = subst (λ (s : Machine). s.cnt (frame_of p) ≡ 0) (sym x.same_mem) page_ok.1 in
      let (u, run, d, eo, em) =
        give_back-undoes held (record t { ofile = ds }) f0 f1 p (k.pipes p).buf x.apart c x.fresh
          good zero_count x.reading x.writing in
      (
        u,
        run,
        record {
          counted = d;
          same_ofile = eo ∙ e ∙ x.same_ofile;
          same_free = em ∙ ap (λ (s : Machine). p ∷ s.freelist) x.same_mem ∙ sym x.taken;
        },
      )

  module _ (d0 : ℕ) (e0 : first_fd 0 t.ofile ≡ some d0) where
    abbrev opened_one : Kernel
    opened_one = put_fd d0 (some f0) t

    second_fd :
        (r : Option ℕ)
        → first_fd 0 (set t.ofile d0 (some f0)) ≡ r
        → (a : Option (ℕ × ℕ)) × (u : Kernel) × ((fdalloc f1 >>= pipe_fd1 f0 f1 d0) opened_one
            ≡ done (a, u))
          × Opens held k a u
    unfolding pipe_fd1
    second_fd none e1 =
        let (l, free, low) = first_fd_lem t.ofile d0 e0 in
        let ds = set (set t.ofile d0 (some f0)) d0 none in
        let (u, run, gone) = undone ds (set-undo t.ofile d0 (some f0) free) in
        (
          none,
          u,
          bind_done (fdalloc f1) (pipe_fd1 f0 f1 d0) (fdalloc_full f1 opened_one e1)
              ∙ then_done (modify (put_fd d0 none)) (give_back f0 f1)
                  (modifies (put_fd d0 none) opened_one)
              ∙ run,
          (
            no_descriptors d0 (
                subst (TakenBut d0) x.same_ofile
                  (but_one t.ofile d0 (some f0) (no_first_fd (set t.ofile d0 (some f0)) e1))),
            gone,
          ),
        )
    second_fd (some d1) e1 =
        let ds = set t.ofile d0 (some f0) in
        let (l0, free0, low0) = first_fd_lem t.ofile d0 e0 in
        let (l1, free1, low1) = first_fd_lem ds d1 e1 in
        let apart : d0 ≢ d1 = λ e. some_ne_none f0 (
          sym (get_or-set_self t.ofile d0 (some f0) none l0)
          ∙ ap (λ d. get_or ds d none) e
          ∙ free1) in
        let swapped = IsCounted-swap held f0 f1 t.files t.ofile x.counted in
        let c0 = IsCounted-put (plus f1 held) t.files t.ofile f0 d0 l0 free0 swapped in
        let u = put_fd d1 (some f1) opened_one in
        let same = x.same_ofile in
        (
          some (d0, d1),
          u,
          bind_done (fdalloc f1) (pipe_fd1 f0 f1 d0) (fdalloc_free f1 opened_one d1 e1)
              ∙ returns (some (d0, d1)) u,
          record {
            counted = IsCounted-put held t.files ds f1 d1 l1 free1 c0;
            apart = apart;
            free_first = sym (ap (λ es. get_or es d0 none) same) ∙ free0;
            free_second =
                sym (ap (λ es. get_or es d1 none) same)
                ∙ sym (get_or-set_ne t.ofile d0 d1 (some f0) none apart)
                ∙ free1;
            i = f0;
            j = f1;
            p = p;
            named = ap (λ es. set (set es d0 (some f0)) d1 (some f1)) same;
            rest = x.rest;
            taken = x.taken;
            same_mem = x.same_mem;
            fresh = x.fresh;
            reading = x.reading;
            writing = x.writing;
          },
        )

  pipe_fds-Opens :
      (r : Option ℕ)
      → first_fd 0 t.ofile ≡ r
      → (a : Option (ℕ × ℕ)) × (u : Kernel) × (pipe_fds (some (f0, f1)) t ≡ done (a, u))
        × Opens held k a u
  unfolding pipe_fds pipe_fd0
  pipe_fds-Opens none e0 =
      let (u, run, gone) = undone t.ofile refl in
      (
        none,
        u,
        bind_done (fdalloc f0) (pipe_fd0 f0 f1) (fdalloc_full f0 t e0) ∙ run,
        (
          no_descriptors 0 (subst (TakenBut 0) x.same_ofile (λ e l n. no_first_fd t.ofile e0 e l)),
          gone,
        ),
      )
  pipe_fds-Opens (some d0) e0 =
      let (a, u, run, gives) = second_fd d0 e0 (first_fd 0 (set t.ofile d0 (some f0))) refl in
      (a, u, bind_done (fdalloc f0) (pipe_fd0 f0 f1) (fdalloc_free f0 t d0 e0) ∙ run, gives)

module _ (held : ℕ → ℕ) (k : Kernel) (sound : Unshared k.mem) where
  after_pipealloc :
      (r : Option (ℕ × ℕ)) (t : Kernel)
      → Allocates (PipeLacks k.files k.mem.freelist k.ofile) held k r t
      → (a : Option (ℕ × ℕ)) × (u : Kernel) × (pipe_fds r t ≡ done (a, u)) × Opens held k a u
  unfolding pipe_fds
  after_pipealloc none t gone = (none, t, returns none t, gone)
  after_pipealloc (some (f0, f1)) t (p, x) =
      pipe_fds-Opens held k t f0 f1 p x sound (first_fd 0 t.ofile) refl

  -- Where the count of every open file is the number of descriptors and other references that
  -- name it, and the free pages are unshared pages that kfree accepts, sys_pipe returns. Where it
  -- gives two descriptors, they are different, were free, and name the two ends of a new pipe,
  -- the first for reading only and the second for writing only, each referenced once. It fails
  -- only where at most one file is free, no page is, or at most one descriptor is; the
  -- descriptors and the free list are then as before. The counts are right again in every case.
  pub sys_pipe-Opens :
      IsCounted held k.files k.ofile
      → (a : Option (ℕ × ℕ)) × (t : Kernel) × (sys_pipe k ≡ done (a, t)) × Opens held k a t
  unfolding sys_pipe
  sys_pipe-Opens c =
      let (r, t, run, gives) = pipealloc-Allocates held k c in
      let (a, u, run', opens) = after_pipealloc r t gives in
      (a, u, bind_done pipealloc pipe_fds run ∙ run', opens)
