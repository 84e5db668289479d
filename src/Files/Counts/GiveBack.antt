-- ===== src/Files/Counts/GiveBack.antt =====
-- lab6/xv6-public/sysfile.c, sys_pipe: the ends that it gives back where a descriptor is missing.
use cs333_os_labs.FileTable.{File, close_pipe, last_close}
use cs333_os_labs.Files.{Kernel, close_end, close_file, finish_close, in_machine, put_pipe}
use cs333_os_labs.Files.Calls.{give_back}
use cs333_os_labs.Files.Counts.{IsCounted, plus}
use cs333_os_labs.Files.Counts.Ends.{IsEnd}
use cs333_os_labs.Files.Counts.Steps.{close_file_at}
use cs333_os_labs.Files.Counts.Table.{IsCounted-swap, closing, fileclose-IsCounted}
use cs333_os_labs.Kalloc.{M, Machine, bad_page, frame_of, junk_page, kfree, push_free, update}
use cs333_os_labs.Kalloc.FreeList.{kfree_unreferenced}
use cs333_os_labs.Pipe.{Pipe, pipe_init, pipeclose}
use cs333_os_labs.Prelude.{
  Bool, List, ap, arith, false, get_elem?-set_ne, none, refl, set, true, ℕ, ◌∙◌, ◌∷◌, ◌≡◌, ◌≢◌,
}
use cs333_os_labs.Prelude.Outcome.{code, done, pure, returns, then_done, ◌>>◌}

half_closed : List ℕ → Pipe
half_closed page = record { buf = page; nread = 0; nwrite = 0; readopen = false; writeopen = true }

close_reading :
    (p : ℕ) (b : List ℕ) (k : Kernel)
    → k.pipes p ≡ pipe_init b
    → close_end p false k ≡ done (tt, put_pipe p (half_closed b) k)
unfolding close_end pipeclose pipe_init half_closed code
close_reading p b k e = rw e refl

in_machine_done :
    {A : Type 0} (m : M A) (k : Kernel) {a : A} {s : Machine}
    → m k.mem ≡ done (a, s)
    → in_machine m k ≡ done (a, record k { mem = s })
unfolding in_machine
in_machine_done m k e = rw (in_machine, e) refl

close_writing :
    (p : ℕ) (b : List ℕ) (k : Kernel)
    → k.pipes p ≡ half_closed b
    → bad_page k.mem.kend p ≡ false
    → k.mem.cnt (frame_of p) ≡ 0
    → (t : Kernel) × (close_end p true k ≡ done (tt, t))
      × (t.files ≡ k.files)
      × (t.ofile ≡ k.ofile)
      × (t.mem.freelist ≡ p ∷ k.mem.freelist)
unfolding close_end pipeclose half_closed code push_free junk_page
close_writing p b k e good zero_count = (
  record k {
    pipes = update k.pipes p (record (half_closed b) { writeopen = false });
    mem = push_free p (junk_page p k.mem);
  },
  rw e (
      in_machine_done (kfree p) (put_pipe p (record (half_closed b) { writeopen = false }) k)
        (kfree_unreferenced p k.mem good zero_count)),
  refl,
  refl,
  refl,
)

-- fileclose of an end of a pipe.
close_pipe_end :
    (held : ℕ → ℕ) (i p : ℕ) (w : Bool) (k : Kernel)
    → IsEnd k.files i p w
    → IsCounted (plus i held) k.files k.ofile
    → (g : File) × (close_file i k ≡ close_end p w (record k { files = set k.files i g }))
      × IsCounted held (set k.files i g) k.ofile
unfolding finish_close last_close
close_pipe_end held i p w k e c =
    let (g, run, c') = fileclose-IsCounted held k.files k.ofile i e.file e.at c in
    let gs = set k.files i g in
    let last : closing e.file ≡ close_pipe p w = rw (e.once, e.a_pipe, e.page, e.writes) refl in
    (
      g,
      close_file_at i k gs (closing e.file) run
          ∙ ap (λ d. finish_close d (record k { files = gs })) last,
      c',
    )

IsEnd-apart :
    (fs : List File) (i j p : ℕ) (g : File)
    → i ≢ j
    → IsEnd fs j p true
    → IsEnd (set fs i g) j p true
IsEnd-apart fs i j p g apart e = record {
  file = e.file;
  at = get_elem?-set_ne fs g apart ∙ e.at;
  once = e.once;
  a_pipe = e.a_pipe;
  page = e.page;
  reads = e.reads;
  writes = e.writes;
}

module _ (held : ℕ → ℕ) (k : Kernel) (f0 f1 p : ℕ) (b : List ℕ) (apart : f0 ≢ f1)
    (c : IsCounted (plus f1 (plus f0 held)) k.files k.ofile) (fresh : k.pipes p ≡ pipe_init b)
    (good : bad_page k.mem.kend p ≡ false) (zero_count : k.mem.cnt (frame_of p) ≡ 0)
    (r : IsEnd k.files f0 p false) (w : IsEnd k.files f1 p true) where
  -- The two ends of a new pipe, given back.
  pub give_back-undoes :
      (t : Kernel) × (give_back f0 f1 k ≡ done (none, t))
      × IsCounted held t.files t.ofile
      × (t.ofile ≡ k.ofile)
      × (t.mem.freelist ≡ p ∷ k.mem.freelist)
  unfolding give_back
  give_back-undoes =
      let c' = IsCounted-swap held f0 f1 k.files k.ofile c in
      let (g, run, d) = close_pipe_end (plus f1 held) f0 p false k r c' in
      let u = put_pipe p (half_closed b) (record k { files = set k.files f0 g }) in
      let first = close_reading p b (record k { files = set k.files f0 g }) fresh in
      let w' = IsEnd-apart k.files f0 f1 p g apart w in
      let (h, run', d') = close_pipe_end held f1 p true u w' d in
      let v = record u { files = set u.files f1 h } in
      let half : v.pipes p ≡ half_closed b = ground arith in
      let (t, last, e, eo, em) = close_writing p b v half good zero_count in
      (
        t,
        then_done (close_file f0) (close_file f1 >> pure none) (run ∙ first)
            ∙ then_done (close_file f1) (pure none) (run' ∙ last)
            ∙ returns none t,
        rw (e, eo) d',
        eo,
        em,
      )
