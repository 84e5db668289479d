-- ===== src/Files/Counts/Ends.antt =====
-- lab6/xv6-public/pipe.c, pipealloc: its two files and its page, and how it gives them back.
use cs333_os_labs.FileTable.{File, fd_none, fd_pipe, last_close, nothing}
use cs333_os_labs.Files.{Kernel, close_file, edit_file, finish_close, pipe_ends, put_pipe}
use cs333_os_labs.Files.Counts.{IsCounted, get_elem?-inside, plus}
use cs333_os_labs.Files.Counts.Steps.{close_file_at, edit_file_at}
use cs333_os_labs.Files.Counts.Table.{IsCounted-fill, closing, fileclose-IsCounted}
use cs333_os_labs.Kalloc.{Machine, uint_mod, update}
use cs333_os_labs.Pipe.{pipe_init}
use cs333_os_labs.Prelude.{
  Bool, Bool-cases, List, Option, ap, arith, false, get_elem?, get_elem?-set_ne, get_elem?-set_self,
  inl, inr, none, not, refl, set, some, sym, true, ℕ, ◌%◌, ◌+◌, ◌-◌, ◌==◌, ◌∙◌, ◌∷◌, ◌≡◌, ◌≢◌,
}
use cs333_os_labs.Prelude.Outcome.{code, done}

-- An end of the pipe in the page `p`, referenced once.
pub record IsEnd (fs : List File) (i p : ℕ) (writable : Bool) : Type 0 where
  pub file : File
  pub at : get_elem? fs i ≡ some file
  pub once : file.ref ≡ 1
  pub a_pipe : file.kind ≡ fd_pipe
  pub page : file.pipe ≡ p
  pub reads : file.readable ≡ not writable
  pub writes : file.writable ≡ writable

-- The memory after kalloc has returned its first free page.
abbrev pub without_first : List ℕ → Machine → Machine
without_first rest s = record s {
  freelist = rest;
  freepg_cnt = (s.freepg_cnt + uint_mod - 1) % uint_mod;
}

pub record IsPiped (held : ℕ → ℕ) (k t : Kernel) (f0 f1 p : ℕ) : Type 0 where
  pub counted : IsCounted (plus f1 (plus f0 held)) t.files t.ofile
  pub apart : f0 ≢ f1
  pub same_ofile : t.ofile ≡ k.ofile
  pub rest : List ℕ
  pub taken : k.mem.freelist ≡ p ∷ rest
  pub same_mem : t.mem ≡ without_first rest k.mem
  pub fresh : t.pipes p ≡ pipe_init (k.pipes p).buf
  pub reading : IsEnd t.files f0 p false
  pub writing : IsEnd t.files f1 p true

-- Nothing is left of a call that fails.
pub record IsUndone (held : ℕ → ℕ) (k t : Kernel) : Type 0 where
  pub counted : IsCounted held t.files t.ofile
  pub same_ofile : t.ofile ≡ k.ofile
  pub same_free : t.mem.freelist ≡ k.mem.freelist

-- What pipealloc leaves behind; where it gives nothing, `Short` is why.
abbrev pub Allocates : Type 0 → (ℕ → ℕ) → Kernel → Option (ℕ × ℕ) → Kernel → Type 0
Allocates Short held k none t = Short × IsUndone held k t
Allocates Short held k (some (f0, f1)) t = (p : ℕ) × IsPiped held k t f0 f1 p

closing_blank : (f : File) → f.kind ≡ fd_none → closing f ≡ nothing
unfolding last_close
closing_blank f e = elim (Bool-cases (f.ref == 1)) [ inl z ↦ rw (z, e) refl | inr z ↦ rw z refl ]

-- fileclose of a file that has no pipe and no inode.
pub close_blank :
    (held : ℕ → ℕ) (i : ℕ) (k : Kernel) (f : File)
    → get_elem? k.files i ≡ some f
    → f.kind ≡ fd_none
    → IsCounted (plus i held) k.files k.ofile
    → (g : File) × (close_file i k ≡ done (tt, record k { files = set k.files i g }))
      × IsCounted held (set k.files i g) k.ofile
unfolding finish_close code
close_blank held i k f at e c =
    let (g, run, c') = fileclose-IsCounted held k.files k.ofile i f at c in
    let gs = set k.files i g in
    (
      g,
      close_file_at i k gs (closing f) run
          ∙ ap (λ d. finish_close d (record k { files = gs })) (closing_blank f e),
      c',
    )

abbrev pipe_end : ℕ → Bool → File → File
pipe_end p w f = record f { kind = fd_pipe; readable = not w; writable = w; pipe = p }

module _ (held : ℕ → ℕ) (k : Kernel) (f0 f1 : ℕ) (a0 a1 : File)
    (at0 : get_elem? k.files f0 ≡ some a0) (at1 : get_elem? k.files f1 ≡ some a1)
    (once0 : a0.ref ≡ 1) (once1 : a1.ref ≡ 1) (apart : f0 ≢ f1)
    (c : IsCounted (plus f1 (plus f0 held)) k.files k.ofile) where
  at1-after : (p : ℕ) → get_elem? (set k.files f0 (pipe_end p false a0)) f1 ≡ some a1
  at1-after p = get_elem?-set_ne k.files (pipe_end p false a0) apart ∙ at1

  abbrev pub filled : ℕ → List File
  filled p = set (set k.files f0 (pipe_end p false a0)) f1 (pipe_end p true a1)

  abbrev pub with_ends : ℕ → Kernel
  with_ends p = record k { pipes = update k.pipes p (pipe_init (k.pipes p).buf); files = filled p }

  pub pipe_ends_at : (p : ℕ) → pipe_ends p f0 f1 k ≡ done (tt, with_ends p)
  unfolding pipe_ends code
  pipe_ends_at p =
      let u = put_pipe p (pipe_init (k.pipes p).buf) k in
      let v = record u { files = set k.files f0 (pipe_end p false a0) } in
      ap (λ t. done (tt, edit_file f1 (pipe_end p true) t))
        (edit_file_at f0 u a0 (pipe_end p false) at0)
      ∙ ap (λ t. done (tt, t)) (edit_file_at f1 v a1 (pipe_end p true) (at1-after p))

  pub filled-IsCounted : (p : ℕ) → IsCounted (plus f1 (plus f0 held)) (filled p) k.ofile
  filled-IsCounted p =
      let b0 = pipe_end p false a0 in
      let d =
        IsCounted-fill (plus f1 (plus f0 held)) k.files k.ofile f0 a0 b0 at0 refl
          (omega (arith, once0)) c in
      IsCounted-fill (plus f1 (plus f0 held)) (set k.files f0 b0) k.ofile f1 a1 (pipe_end p true a1)
        (at1-after p) refl (omega (arith, once1)) d

  pub filled_reading : (p : ℕ) → IsEnd (filled p) f0 p false
  filled_reading p = record {
    file = pipe_end p false a0;
    at =
        get_elem?-set_ne (set k.files f0 (pipe_end p false a0)) (pipe_end p true a1)
          (λ e. apart (sym e))
        ∙ get_elem?-set_self k.files f0 (pipe_end p false a0) (get_elem?-inside k.files f0 a0 at0);
    once = once0;
    a_pipe = refl;
    page = refl;
    reads = refl;
    writes = refl;
  }

  pub filled_writing : (p : ℕ) → IsEnd (filled p) f1 p true
  filled_writing p = record {
    file = pipe_end p true a1;
    at =
        get_elem?-set_self (set k.files f0 (pipe_end p false a0)) f1 (pipe_end p true a1)
          (get_elem?-inside (set k.files f0 (pipe_end p false a0)) f1 a1 (at1-after p));
    once = once1;
    a_pipe = refl;
    page = refl;
    reads = refl;
    writes = refl;
  }
