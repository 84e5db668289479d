-- ===== src/Files/Counts/OpenCall.antt =====
-- lab6/xv6-public/sysfile.c, sys_open: the file and the descriptor of the inode that was found.
use cs333_os_labs.FileTable.{File, fd_inode, fd_none, filealloc}
use cs333_os_labs.Files.{Kernel, alloc_file, close_file, edit_file, in_volume}
use cs333_os_labs.Files.Calls.{
  fdalloc, first_fd, o_rdwr, o_wronly, open_fd, open_file, open_inode, open_path, opened, put_fd,
  sys_open,
}
use cs333_os_labs.Files.Counts.{IsCounted, IsCounted-put, get_elem?-inside, plus}
use cs333_os_labs.Files.Counts.Ends.{close_blank}
use cs333_os_labs.Files.Counts.Lacks.{Taken}
use cs333_os_labs.Files.Counts.Steps.{
  alloc_file_at, edit_file_at, fdalloc_free, fdalloc_full, first_fd_lem, no_first_fd,
}
use cs333_os_labs.Files.Counts.Table.{Fresh, IsCounted-fill, filealloc-Fresh}
use cs333_os_labs.Files.Write.{in_volume_done}
use cs333_os_labs.Fs.{Volume}
use cs333_os_labs.Fs.Content.{iunlockput}
use cs333_os_labs.Fs.Inodes.{iunlock}
use cs333_os_labs.Fs.Transfer.{Devsw}
use cs333_os_labs.Prelude.{
  All, List, Option, ap, arith, get_elem?, get_elem?-set_self, get_or, inl, inr, none, not, refl,
  set, some, subst, sym, ℕ, ◌<◌, ◌||◌, ◌∙◌, ◌≡◌, ◌⊎◌,
}
use cs333_os_labs.Prelude.Outcome.{bind_done, done, modifies, modify, returns, then_done}

-- A new file of the inode `ip`, at its start, with the rights of the mode.
pub record IsOpenFile (mode ip : ℕ) (f : File) : Type 0 where
  pub an_inode : f.kind ≡ fd_inode
  pub inode : f.ip ≡ ip
  pub start : f.off ≡ 0
  pub once : f.ref ≡ 1
  pub reads : f.readable ≡ not (o_wronly mode)
  pub writes : f.writable ≡ (o_wronly mode || o_rdwr mode)

-- A descriptor that was free names a new file, or nothing is left of the call, and `Short` is why.
abbrev pub GivesFile :
    Type 0 → (ℕ → ℕ) → ℕ → ℕ → Volume → Volume → Kernel → Option ℕ → Kernel → Type 0
GivesFile Short held mode ip v w k none t =
    IsCounted held t.files t.ofile × (t.ofile ≡ k.ofile) × (t.volume ≡ w) × Short
GivesFile Short held mode ip v w k (some d) t =
    IsCounted held t.files t.ofile
    × (get_or k.ofile d none ≡ none)
    × (t.volume ≡ v)
    × ((i : ℕ) × (f : File) × (t.ofile ≡ set k.ofile d (some i))
        × (get_elem? t.files i ≡ some f)
        × IsOpenFile mode ip f)

-- An open fails where every file or every descriptor is in use.
abbrev pub FileLacks : Kernel → Type 0
FileLacks k = All (λ f. 0 < f.ref) k.files ⊎ Taken k.ofile

abbrev pub OpensFile : (ℕ → ℕ) → ℕ → ℕ → Volume → Volume → Kernel → Option ℕ → Kernel → Type 0
OpensFile held mode ip v w k b t = GivesFile (FileLacks k) held mode ip v w k b t

module _ (held : ℕ → ℕ) (devsw : Devsw) (me mode ip : ℕ) (k : Kernel) (v w : Volume)
    (unlocks : iunlock ip k.volume ≡ done (tt, v))
    (puts : iunlockput ip k.volume ≡ done (tt, w)) where
  open_fd-GivesFile :
      {Short : Type 0} (i : ℕ) (a : File) (r : Option ℕ)
      → get_elem? k.files i ≡ some a
      → a.ref ≡ 1
      → a.kind ≡ fd_none
      → IsCounted (plus i held) k.files k.ofile
      → first_fd 0 k.ofile ≡ r
      → (Taken k.ofile → Short)
      → (b : Option ℕ) × (t : Kernel) × (open_file devsw me ip mode (some i) k ≡ done (b, t))
        × GivesFile Short held mode ip v w k b t
  unfolding open_file open_fd
  open_fd-GivesFile i a none at once blank c e short =
      let (g, run, c') = close_blank held i k a at blank c in
      let u = record k { files = set k.files i g } in
      (
        none,
        record u { volume = w },
        bind_done (fdalloc i) _ (fdalloc_full i k e)
            ∙ then_done (close_file i) _ run
            ∙ then_done (in_volume (iunlockput ip)) _ (in_volume_done (iunlockput ip) u puts)
            ∙ returns none (record u { volume = w }),
        (c', refl, refl, short (no_first_fd k.ofile e)),
      )
  open_fd-GivesFile i a (some d) at once blank c e short =
      let (l, free, low) = first_fd_lem k.ofile d e in
      let u = put_fd d (some i) k in
      let u' = record u { volume = v } in
      let g = opened ip mode a in
      let t = record u' { files = set k.files i g } in
      let filled =
        IsCounted-fill (plus i held) k.files k.ofile i a g at refl (omega (arith, once)) c in
      (
        some d,
        t,
        bind_done (fdalloc i) _ (fdalloc_free i k d e)
            ∙ then_done (in_volume (iunlock ip)) _ (in_volume_done (iunlock ip) u unlocks)
            ∙ then_done (modify (edit_file i (opened ip mode))) _ (
                modifies (edit_file i (opened ip mode)) u'
                ∙ ap (λ s. done (tt, s)) (edit_file_at i u' a (opened ip mode) at))
            ∙ returns (some d) t,
        (
          IsCounted-put held (set k.files i g) k.ofile i d l free filled,
          free,
          refl,
          (
            i,
            g,
            refl,
            get_elem?-set_self k.files i g (get_elem?-inside k.files i a at),
            record {
              an_inode = refl;
              inode = refl;
              start = refl;
              once = once;
              reads = refl;
              writes = refl;
            },
          ),
        ),
      )

-- Only the descriptors before the call matter to what it leaves behind.
GivesFile-same :
    (Short : Type 0) (held : ℕ → ℕ) (mode ip : ℕ) (v w : Volume) (k k' : Kernel) (b : Option ℕ)
    (t : Kernel)
    → k.ofile ≡ k'.ofile
    → GivesFile Short held mode ip v w k b t
    → GivesFile Short held mode ip v w k' b t
GivesFile-same Short held mode ip v w k k' none t e (c, o, u, short) = (c, o ∙ e, u, short)
GivesFile-same Short held mode ip v w k k' (some d) t e (c, free, u, (i, f, o, at, rest)) = (
  c,
  sym (ap (λ ds. get_or ds d none) e) ∙ free,
  u,
  (i, f, o ∙ ap (λ ds. set ds d (some i)) e, at, rest),
)

module _ (held : ℕ → ℕ) (devsw : Devsw) (me mode ip : ℕ) (k : Kernel) (v w : Volume)
    (unlocks : iunlock ip k.volume ≡ done (tt, v))
    (puts : iunlockput ip k.volume ≡ done (tt, w)) where
  after_alloc :
      (r : Option ℕ × List File)
      → filealloc 0 k.files ≡ r
      → IsCounted held k.files k.ofile
      → Fresh held k.files k.ofile r
      → (b : Option ℕ) × (t : Kernel) × (open_inode devsw me mode (some ip) k ≡ done (b, t))
        × OpensFile held mode ip v w k b t
  unfolding open_inode open_file
  after_alloc (none, gs) e c (unchanged, used) =
      let u = record k { files = gs } in
      let c' = subst (λ fs. IsCounted held fs k.ofile) (sym unchanged) c in
      (
        none,
        record u { volume = w },
        bind_done alloc_file _ (alloc_file_at 0 k none gs e)
            ∙ then_done (in_volume (iunlockput ip)) _ (in_volume_done (iunlockput ip) u puts)
            ∙ returns none (record u { volume = w }),
        (c', refl, refl, inl used),
      )
  after_alloc (some i, gs) e c (f, at, free, blank, made, d) =
      let g = record f { ref = 1 } in
      let hs = set k.files i g in
      let u = record k { files = hs } in
      let at' = get_elem?-set_self k.files i g (get_elem?-inside k.files i f at) in
      let (b, t, run, opens) =
        open_fd-GivesFile held devsw me mode ip u v w unlocks puts i g (first_fd 0 k.ofile) at' refl
          blank d refl inr in
      (
        b,
        t,
        bind_done alloc_file _ (alloc_file_at 0 k (some i) hs (e ∙ ap (λ fs. (some i, fs)) made))
            ∙ run,
        GivesFile-same _ held mode ip v w u k b t refl opens,
      )

-- Where the counts of the open files are right, and open_path has found or created an inode and
-- left it locked so that it can be unlocked and put, sys_open returns. Where it gives a
-- descriptor, this was free, and names a new file of the inode at offset 0 with the rights of the
-- mode, referenced once, and the inode is unlocked; it fails only where every file is referenced
-- or every descriptor is in use, and then the descriptors are as before and the inode is put. The
-- counts are right again in both cases.
pub sys_open-OpensFile :
    (held : ℕ → ℕ) (devsw : Devsw) (me cwd mode ip : ℕ) (path : List ℕ) (k : Kernel)
    (u v w : Volume)
    → open_path devsw me cwd path mode k.volume ≡ done (some ip, u)
    → iunlock ip u ≡ done (tt, v)
    → iunlockput ip u ≡ done (tt, w)
    → IsCounted held k.files k.ofile
    → (b : Option ℕ) × (t : Kernel) × (sys_open devsw me cwd path mode k ≡ done (b, t))
      × OpensFile held mode ip v w k b t
unfolding sys_open
sys_open-OpensFile held devsw me cwd mode ip path k u v w finds unlocks puts c =
    let k' = record k { volume = u } in
    let (b, t, run, opens) =
      after_alloc held devsw me mode ip k' v w unlocks puts (filealloc 0 k.files) refl c
        (filealloc-Fresh held k.files k.ofile c) in
    (
      b,
      t,
      bind_done (in_volume (open_path devsw me cwd path mode)) _
            (in_volume_done (open_path devsw me cwd path mode) k finds)
          ∙ run,
      GivesFile-same _ held mode ip v w k' k b t refl opens,
    )
