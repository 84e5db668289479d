-- ===== src/Files/Counts/Pipealloc.antt =====
-- lab6/xv6-public/pipe.c, pipealloc: its tests, one after the other.
use cs333_os_labs.FileTable.{File, fd_none, filealloc}
use cs333_os_labs.Files.{
  Kernel, alloc_file, close_file, in_machine, pipe_ends, pipe_first, pipe_page, pipe_second,
  pipealloc,
}
use cs333_os_labs.Files.Counts.{IsCounted, get_elem?-inside, plus}
use cs333_os_labs.Files.Counts.Ends.{
  Allocates, IsPiped, IsUndone, close_blank, filled-IsCounted, filled_reading, filled_writing,
  pipe_ends_at, with_ends, without_first,
}
use cs333_os_labs.Files.Counts.Lacks.{All-get_elem?, PipeLacks, no_files, no_page}
use cs333_os_labs.Files.Counts.Steps.{alloc_file_at}
use cs333_os_labs.Files.Counts.Table.{Fresh, IsCounted-swap, filealloc-Fresh}
use cs333_os_labs.Kalloc.{kalloc}
use cs333_os_labs.Prelude.{
  All, List, Option, [], ap, arith, get_elem?, get_elem?-set_ne, get_elem?-set_self, none, refl,
  set, some, some-injective, subst, sym, ℕ, ◌<◌, ◌∙◌, ◌∷◌, ◌≡◌, ◌≢◌,
}
use cs333_os_labs.Prelude.Outcome.{bind_done, done, pure, returns, then_done, ◌>>=◌, ◌>>◌}

kalloc_empty : (k : Kernel) → k.mem.freelist ≡ [] → in_machine kalloc k ≡ done (none, k)
unfolding in_machine kalloc
kalloc_empty k e = rw e refl

kalloc_first :
    (k : Kernel) (p : ℕ) (l : List ℕ)
    → k.mem.freelist ≡ p ∷ l
    → in_machine kalloc k ≡ done (some p, record k { mem = without_first l k.mem })
unfolding in_machine kalloc
kalloc_first k p l e = rw e refl

module _ (held : ℕ → ℕ) (k : Kernel) (f0 f1 : ℕ) (a0 a1 : File)
    (at0 : get_elem? k.files f0 ≡ some a0) (at1 : get_elem? k.files f1 ≡ some a1)
    (once0 : a0.ref ≡ 1) (once1 : a1.ref ≡ 1) (apart : f0 ≢ f1)
    (c : IsCounted (plus f1 (plus f0 held)) k.files k.ofile) where
  pipe_second_taken :
      (l : List ℕ) (p : ℕ)
      → k.mem.freelist ≡ p ∷ l
      → (t : Kernel) × (pipe_second f0 (some f1) k ≡ done (some (f0, f1), t))
        × IsPiped held k t f0 f1 p
  unfolding pipe_second pipe_page
  pipe_second_taken l p e =
      let u = record k { mem = without_first l k.mem } in
      let t = with_ends held u f0 f1 a0 a1 at0 at1 once0 once1 apart c p in
      (
        t,
        bind_done (in_machine kalloc) (pipe_page f0 f1) (kalloc_first k p l e)
            ∙ then_done (pipe_ends p f0 f1) (pure (some (f0, f1)))
                (pipe_ends_at held u f0 f1 a0 a1 at0 at1 once0 once1 apart c p)
            ∙ returns (some (f0, f1)) t,
        record {
          counted = filled-IsCounted held u f0 f1 a0 a1 at0 at1 once0 once1 apart c p;
          apart = apart;
          same_ofile = refl;
          rest = l;
          taken = e;
          same_mem = refl;
          fresh = ground arith;
          reading = filled_reading held u f0 f1 a0 a1 at0 at1 once0 once1 apart c p;
          writing = filled_writing held u f0 f1 a0 a1 at0 at1 once0 once1 apart c p;
        },
      )

  pipe_second_empty :
      k.mem.freelist ≡ []
      → a0.kind ≡ fd_none
      → a1.kind ≡ fd_none
      → (t : Kernel) × (pipe_second f0 (some f1) k ≡ done (none, t)) × IsUndone held k t
  unfolding pipe_second pipe_page
  pipe_second_empty e z0 z1 =
      let swapped = IsCounted-swap held f0 f1 k.files k.ofile c in
      let (g0, run0, c0) = close_blank (plus f1 held) f0 k a0 at0 z0 swapped in
      let u = record k { files = set k.files f0 g0 } in
      let at1' = get_elem?-set_ne k.files g0 apart ∙ at1 in
      let (g1, run1, c1) = close_blank held f1 u a1 at1' z1 c0 in
      let t = record u { files = set u.files f1 g1 } in
      (
        t,
        bind_done (in_machine kalloc) (pipe_page f0 f1) (kalloc_empty k e)
            ∙ then_done (close_file f0) (close_file f1 >> pure none) run0
            ∙ then_done (close_file f1) (pure none) run1
            ∙ returns none t,
        record { counted = c1; same_ofile = refl; same_free = refl },
      )

  pipe_second-Allocates :
      {Short : Type 0} (l : List ℕ)
      → (k.mem.freelist ≡ [] → Short)
      → k.mem.freelist ≡ l
      → a0.kind ≡ fd_none
      → a1.kind ≡ fd_none
      → (a : Option (ℕ × ℕ)) × (t : Kernel) × (pipe_second f0 (some f1) k ≡ done (a, t))
        × Allocates Short held k a t
  pipe_second-Allocates [] short e z0 z1 =
      let (t, run, undone) = pipe_second_empty e z0 z1 in (none, t, run, (short e, undone))
  pipe_second-Allocates (p ∷ l) short e z0 z1 =
      let (t, run, piped) = pipe_second_taken l p e in (some (f0, f1), t, run, (p, piped))

-- The files before the call do not matter to what it leaves behind.
Allocates-files :
    (Short : Type 0) (held : ℕ → ℕ) (k : Kernel) (fs : List File) (a : Option (ℕ × ℕ)) (t : Kernel)
    → Allocates Short held (record k { files = fs }) a t
    → Allocates Short held k a t
Allocates-files Short held k fs none t (short, h) =
    (short, record { counted = h.counted; same_ofile = h.same_ofile; same_free = h.same_free })
Allocates-files Short held k fs (some (f0, f1)) t (p, h) = (
  p,
  record {
    counted = h.counted;
    apart = h.apart;
    same_ofile = h.same_ofile;
    rest = h.rest;
    taken = h.taken;
    same_mem = h.same_mem;
    fresh = h.fresh;
    reading = h.reading;
    writing = h.writing;
  },
)

module _ (held : ℕ → ℕ) (k : Kernel) (f0 : ℕ) (a0 : File) (at0 : get_elem? k.files f0 ≡ some a0)
    (once0 : a0.ref ≡ 1) (blank0 : a0.kind ≡ fd_none) (c : IsCounted (plus f0 held) k.files k.ofile)
    {Short : Type 0} (no_file : All (λ f. 0 < f.ref) k.files → Short)
    (no_free : k.mem.freelist ≡ [] → Short) where
  not_again : (f1 : ℕ) (f : File) → get_elem? k.files f1 ≡ some f → f.ref ≡ 0 → f0 ≢ f1
  not_again f1 f at free e =
      let same = some-injective a0 f (sym at0 ∙ ap (get_elem? k.files) e ∙ at) in
      absurd (omega (arith, ap File.ref same, once0, free))

  second_file :
      (l : List ℕ) (r : Option ℕ × List File)
      → k.mem.freelist ≡ l
      → filealloc 0 k.files ≡ r
      → Fresh (plus f0 held) k.files k.ofile r
      → (a : Option (ℕ × ℕ)) × (t : Kernel) × ((alloc_file >>= pipe_second f0) k ≡ done (a, t))
        × Allocates Short held k a t
  unfolding pipe_second
  second_file l (none, gs) el e (unchanged, used) =
      let u = record k { files = gs } in
      let at0' = ap (λ fs. get_elem? fs f0) unchanged ∙ at0 in
      let c' = subst (λ fs. IsCounted (plus f0 held) fs k.ofile) (sym unchanged) c in
      let (g, run, d) = close_blank held f0 u a0 at0' blank0 c' in
      let t = record u { files = set gs f0 g } in
      (
        none,
        t,
        bind_done alloc_file (pipe_second f0) (alloc_file_at 0 k none gs e)
            ∙ then_done (close_file f0) (pure none) run
            ∙ returns none t,
        (no_file used, record { counted = d; same_ofile = refl; same_free = refl }),
      )
  second_file l (some f1, gs) el e (f, at, free, blank, made, d) =
      let g = record f { ref = 1 } in
      let u = record k { files = set k.files f1 g } in
      let apart = not_again f1 f at free in
      let at0' = get_elem?-set_ne k.files g (λ z. apart (sym z)) ∙ at0 in
      let at1 = get_elem?-set_self k.files f1 g (get_elem?-inside k.files f1 f at) in
      let first =
        bind_done alloc_file (pipe_second f0)
          (alloc_file_at 0 k (some f1) (set k.files f1 g) (e ∙ ap (λ hs. (some f1, hs)) made)) in
      let (a, t, run, gives) =
        pipe_second-Allocates held u f0 f1 a0 g at0' at1 once0 refl apart d l no_free el blank0
          blank in
      (a, t, first ∙ run, Allocates-files _ held k (set k.files f1 g) a t gives)

module _ (held : ℕ → ℕ) (k : Kernel) (c : IsCounted held k.files k.ofile) where
  first_file :
      (r : Option ℕ × List File)
      → filealloc 0 k.files ≡ r
      → Fresh held k.files k.ofile r
      → (a : Option (ℕ × ℕ)) × (t : Kernel) × (pipealloc k ≡ done (a, t))
        × Allocates (PipeLacks k.files k.mem.freelist k.ofile) held k a t
  unfolding pipealloc pipe_first
  first_file (none, gs) e (unchanged, used) =
      let t = record k { files = gs } in
      (
        none,
        t,
        bind_done alloc_file pipe_first (alloc_file_at 0 k none gs e) ∙ returns none t,
        (
          no_files 0 (λ j f n at. All-get_elem? (λ g. 0 < g.ref) k.files j f used at),
          record {
            counted = subst (λ fs. IsCounted held fs k.ofile) (sym unchanged) c;
            same_ofile = refl;
            same_free = refl;
          },
        ),
      )
  first_file (some f0, gs) e (f, at, free, blank, made, d) =
      let g = record f { ref = 1 } in
      let hs = set k.files f0 g in
      let u = record k { files = hs } in
      let at' = get_elem?-set_self k.files f0 g (get_elem?-inside k.files f0 f at) in
      let (a, t, run, gives) =
        second_file held u f0 g at' refl blank d
          (λ used. no_files f0 (λ j h n has.
            All-get_elem? (λ b. 0 < b.ref) hs j h used
              (get_elem?-set_ne k.files g (λ z. n (sym z)) ∙ has)))
          no_page k.mem.freelist (filealloc 0 hs) refl refl
          (filealloc-Fresh (plus f0 held) hs k.ofile d) in
      (
        a,
        t,
        bind_done alloc_file pipe_first
              (alloc_file_at 0 k (some f0) hs (e ∙ ap (λ fs. (some f0, fs)) made))
            ∙ run,
        Allocates-files _ held k hs a t gives,
      )

  -- Where the counts are right, pipealloc returns: two different new files, one for each end of a
  -- new pipe in the first free page, or nothing, for want of one of them, with every file and page
  -- given back.
  pub pipealloc-Allocates :
      (a : Option (ℕ × ℕ)) × (t : Kernel) × (pipealloc k ≡ done (a, t))
      × Allocates (PipeLacks k.files k.mem.freelist k.ofile) held k a t
  pipealloc-Allocates =
      first_file (filealloc 0 k.files) refl (filealloc-Fresh held k.files k.ofile c)
