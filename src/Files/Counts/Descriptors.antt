-- ===== src/Files/Counts/Descriptors.antt =====
-- lab6/xv6-public/sysfile.c: dup and close against the counts of the open files.
use cs333_os_labs.FileTable.{Closing, File, fileclose, nothing}
use cs333_os_labs.Files.{Kernel, close_file, dup_file, finish_close}
use cs333_os_labs.Files.Calls.{
  close_open, dup_fd, dup_open, fd_file, fdalloc, first_fd, put_fd, sys_close, sys_dup,
}
use cs333_os_labs.Files.Counts.{
  IsCounted, IsCounted-clear, IsCounted-put, get_elem?-found, uses, uses-some,
}
use cs333_os_labs.Files.Counts.Steps.{
  close_file_at, dup_file_at, fdalloc_free, fdalloc_full, first_fd_lem, get_or-inside,
  get_or-outside,
}
use cs333_os_labs.Files.Counts.Table.{
  closing, closing-left, closing_after, fileclose-IsCounted, filedup-IsCounted, plus_same,
}
use cs333_os_labs.Prelude.{
  Bool-cases, List, Option, Option-cases, ap, arith, false, get_elem?, get_or, inl, inr, leb,
  leb→le, none, refl, set, some, sym, true, ℕ, ◌+◌, ◌<◌, ◌==◌, ◌∙◌, ◌≡◌, ◌≢◌,
}
use cs333_os_labs.Prelude.Outcome.{
  bind_done, code, done, modifies, modify, pure, returns, then_done, then_same, ◌>>◌,
}
use cs333_os_labs.Proc.Table.{nofile}

-- What dup leaves behind: nothing new, or the file of the old descriptor at a free one too.
abbrev pub Duplicates : ℕ → Kernel → Option ℕ → Kernel → Type 0
Duplicates fd k none t = t ≡ k
Duplicates fd k (some d) t =
    (get_or k.ofile d none ≡ none)
    × ((e : ℕ) → e < d → get_or k.ofile e none ≢ none)
    × (t.ofile ≡ set k.ofile d (get_or k.ofile fd none))

module _ (held : ℕ → ℕ) (k : Kernel) (c : IsCounted held k.files k.ofile) where
  in_use : (fd i : ℕ) → get_or k.ofile fd none ≡ some i → 0 < uses i k.ofile + held i
  in_use fd i h = omega (arith, uses-some i fd k.ofile h)

  outside : (fd : ℕ) → leb nofile fd ≡ true → get_or k.ofile fd none ≡ none
  outside fd e = get_or-outside k.ofile fd (omega (arith, c.width, leb→le nofile fd e))

  fd_file_at : (fd : ℕ) → fd_file fd k ≡ done (get_or k.ofile fd none, k)
  unfolding fd_file code
  fd_file_at fd = elim (Bool-cases (leb nofile fd)) [
    | inl e ↦ rw e (ap (λ r. done (r, k)) (sym (outside fd e)))
    | inr e ↦ rw e refl
  ]

  -- With a free descriptor.
  dup_open_free :
      (fd i d : ℕ)
      → get_or k.ofile fd none ≡ some i
      → first_fd 0 k.ofile ≡ some d
      → (gs : List File) × (dup_open (some i) k
          ≡ done (some d, record k { files = gs; ofile = set k.ofile d (some i) }))
        × IsCounted held gs (set k.ofile d (some i))
  unfolding dup_open dup_fd
  dup_open_free fd i d h e =
      let (l, free, lowest) = first_fd_lem k.ofile d e in
      let (gs, run, c') = filedup-IsCounted held k.files k.ofile i (in_use fd i h) c in
      let u = put_fd d (some i) k in
      (
        gs,
        bind_done (fdalloc i) (dup_fd i) (fdalloc_free i k d e)
            ∙ then_done (dup_file i) (pure (some d)) (dup_file_at i u gs run)
            ∙ returns (some d) (record u { files = gs }),
        IsCounted-put held gs k.ofile i d l free c',
      )

  pub sys_dup_free :
      (fd i d : ℕ)
      → get_or k.ofile fd none ≡ some i
      → first_fd 0 k.ofile ≡ some d
      → (gs : List File) × (sys_dup fd k
          ≡ done (some d, record k { files = gs; ofile = set k.ofile d (some i) }))
        × IsCounted held gs (set k.ofile d (some i))
  unfolding sys_dup
  sys_dup_free fd i d h e =
      let (gs, run, c') = dup_open_free fd i d h e in
      (gs, bind_done (fd_file fd) dup_open (fd_file_at fd) ∙ ap (λ r. dup_open r k) h ∙ run, c')

  dup_open-IsCounted :
      (fd : ℕ) (r : Option ℕ)
      → get_or k.ofile fd none ≡ r
      → (a : Option ℕ) × (t : Kernel) × (dup_open r k ≡ done (a, t))
        × IsCounted held t.files t.ofile
        × Duplicates fd k a t
  unfolding dup_open dup_fd
  dup_open-IsCounted fd none h = (none, k, returns none k, c, refl)
  dup_open-IsCounted fd (some i) h = elim (Option-cases (first_fd 0 k.ofile)) [
    | inl e ↦
        (none, k, bind_done (fdalloc i) (dup_fd i) (fdalloc_full i k e) ∙ returns none k, c, refl)
    | inr (d, e) ↦
        let (l, free, lowest) = first_fd_lem k.ofile d e in
        let (gs, run, c') = dup_open_free fd i d h e in
        (
          some d,
          record k { files = gs; ofile = set k.ofile d (some i) },
          run,
          c',
          (free, lowest, ap (set k.ofile d) (sym h)),
        )
  ]

  -- Where the counts of the open files are right, sys_dup returns: the lowest free descriptor,
  -- which names the same file now while every other is as before, or an error, with nothing
  -- changed; the counts are right again.
  pub sys_dup-IsCounted :
      (fd : ℕ)
      → (a : Option ℕ) × (t : Kernel) × (sys_dup fd k ≡ done (a, t))
        × IsCounted held t.files t.ofile
        × Duplicates fd k a t
  unfolding sys_dup
  sys_dup-IsCounted fd =
      let (a, t, run, c', rest) = dup_open-IsCounted fd (get_or k.ofile fd none) refl in
      (a, t, bind_done (fd_file fd) dup_open (fd_file_at fd) ∙ run, c', rest)

  close_open_at :
      (fd i : ℕ) (gs : List File) (d : Closing)
      → fileclose i k.files ≡ some (gs, d)
      → close_open fd (some i) k
        ≡ (finish_close d >> pure true) (record k { files = gs; ofile = set k.ofile fd none })
  unfolding close_open
  close_open_at fd i gs d run =
      let u = put_fd fd none k in
      then_done (modify (put_fd fd none)) (close_file i >> pure true) (modifies (put_fd fd none) k)
      ∙ then_same (close_file i) (finish_close d) (pure true) (close_file_at i u gs d run)

  pub sys_close-IsCounted :
      (fd i : ℕ)
      → get_or k.ofile fd none ≡ some i
      → (f : File) × (gs : List File) × (get_elem? k.files i ≡ some f)
        × IsCounted held gs (set k.ofile fd none)
        × (sys_close fd k
            ≡ (finish_close (closing_after (uses i (set k.ofile fd none) + held i) f) >> pure true)
                (record k { files = gs; ofile = set k.ofile fd none }))
  unfolding sys_close
  sys_close-IsCounted fd i h =
      let l = get_or-inside k.ofile fd i h in
      let (f, at) = get_elem?-found k.files i (c.named i (in_use fd i h)) in
      let c' = IsCounted-clear held k.files k.ofile i fd l h c in
      let (g, run, c'') = fileclose-IsCounted held k.files (set k.ofile fd none) i f at c' in
      (
        f,
        set k.files i g,
        at,
        c'',
        bind_done (fd_file fd) (close_open fd) (fd_file_at fd)
            ∙ ap (λ r. close_open fd r k) h
            ∙ close_open_at fd i (set k.files i g) (closing f) run
            ∙ ap
                (λ d.
                  (finish_close d >> pure true)
                    (record k { files = set k.files i g; ofile = set k.ofile fd none }))
                (closing-left f (uses i (set k.ofile fd none) + held i)
                  (c'.counts i f at ∙ omega (arith, plus_same held i))),
      )

  -- close of a descriptor whose file is named elsewhere too closes nothing underneath.
  pub sys_close_held :
      (fd i : ℕ)
      → get_or k.ofile fd none ≡ some i
      → 0 < held i
      → (gs : List File) × (sys_close fd k
          ≡ done (true, record k { files = gs; ofile = set k.ofile fd none }))
        × IsCounted held gs (set k.ofile fd none)
  unfolding finish_close code
  sys_close_held fd i h l =
      let (f, gs, at, c', run) = sys_close-IsCounted fd i h in
      let n = uses i (set k.ofile fd none) + held i in
      let left : (n == 0) ≡ false = ground (arith, l) in
      let nothing_left : closing_after n f ≡ nothing = rw left refl in
      let u = record k { files = gs; ofile = set k.ofile fd none } in
      (gs, run ∙ ap (λ d. (finish_close d >> pure true) u) nothing_left, c')
