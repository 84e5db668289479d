-- ===== src/Sh/Wiring.antt =====
-- lab6/xv6-public/sh.c, the PIPE case of runcmd: what each of the two children does with its
-- descriptors before it runs its side. `p0` and `p1` are the descriptors that pipe has given.
use cs333_os_labs.FileTable.{File}
use cs333_os_labs.Files.{C, Kernel}
use cs333_os_labs.Files.Calls.{first_fd, sys_close, sys_dup}
use cs333_os_labs.Files.Counts.{IsCounted}
use cs333_os_labs.Files.Counts.Descriptors.{sys_close_held, sys_dup_free}
use cs333_os_labs.Prelude.{
  List, Option, get_or, get_or-set_ne, none, refl, set, some, suc, ℕ, ◌<◌, ◌∙◌, ◌∷◌, ◌≡◌, ◌≢◌,
}
use cs333_os_labs.Prelude.Outcome.{bind_done, done, pure, returns, ◌>>=◌}

unfoldable pub wire_left : ℕ → ℕ → C (Option ℕ)
wire_left p0 p1 = do a ← sys_close 1; d ← sys_dup p1; b ← sys_close p0; c ← sys_close p1; pure d

unfoldable pub wire_right : ℕ → ℕ → C (Option ℕ)
wire_right p0 p1 = do a ← sys_close 0; d ← sys_dup p0; b ← sys_close p0; c ← sys_close p1; pure d

-- The descriptors 0, 1, and those from 2 on.
abbrev pub with_fds : Option ℕ → Option ℕ → List (Option ℕ) → Kernel → Kernel
with_fds a x ds k = record k { ofile = a ∷ x ∷ ds }

-- The call returns in a state that differs in these descriptors and in the table of files alone,
-- whose counts are right.
abbrev pub Wires : (ℕ → ℕ) → C (Option ℕ) → ℕ → List (Option ℕ) → Kernel → Type 0
Wires held m d es k =
    (gs : List File) × (m k ≡ done (some d, record k { files = gs; ofile = es }))
    × IsCounted held gs es

-- Without the two descriptors of the pipe.
abbrev pub without_ends : List (Option ℕ) → ℕ → ℕ → List (Option ℕ)
without_ends ds q0 q1 = set (set ds q0 none) q1 none

first_fd_zero : (x : Option ℕ) (ds : List (Option ℕ)) → first_fd 0 (none ∷ x ∷ ds) ≡ some 0
unfolding first_fd
first_fd_zero x ds = refl

first_fd_one : (a : ℕ) (ds : List (Option ℕ)) → first_fd 0 (some a ∷ none ∷ ds) ≡ some 1
unfolding first_fd
first_fd_one a ds = refl

module _ (held : ℕ → ℕ) (k : Kernel) (a x : ℕ) (ds : List (Option ℕ)) (q0 q1 i j : ℕ)
    (c : IsCounted held k.files (some a ∷ some x ∷ ds)) (apart : q0 ≢ q1)
    (reading : get_or ds q0 none ≡ some i) (writing : get_or ds q1 none ≡ some j)
    (parent_a : 0 < held a) (parent_x : 0 < held x) (parent_i : 0 < held i)
    (parent_j : 0 < held j) where
  -- The two calls of close at the end.
  close_both :
      (b y : ℕ) (fs : List File) (d : ℕ)
      → IsCounted held fs (some b ∷ some y ∷ ds)
      → Wires held
          (do r ← sys_close (suc (suc q0)); s ← sys_close (suc (suc q1)); pure (some d))
          d
          (some b ∷ some y ∷ without_ends ds q0 q1)
          (record k { files = fs; ofile = some b ∷ some y ∷ ds })
  close_both b y fs d c' =
      let k1 = record k { files = fs; ofile = some b ∷ some y ∷ ds } in
      let (gs, run, c1) = sys_close_held held k1 c' (suc (suc q0)) i reading parent_i in
      let k2 = record k { files = gs; ofile = some b ∷ some y ∷ set ds q0 none } in
      let still = get_or-set_ne ds q0 q1 none none apart ∙ writing in
      let (hs, run', c2) = sys_close_held held k2 c1 (suc (suc q1)) j still parent_j in
      (
        hs,
        bind_done (sys_close (suc (suc q0))) _ run
            ∙ bind_done (sys_close (suc (suc q1))) _ run'
            ∙ returns (some d)
                (record k { files = hs; ofile = some b ∷ some y ∷ without_ends ds q0 q1 }),
        c2,
      )

  wire_left_lem :
      Wires held
        (wire_left (suc (suc q0)) (suc (suc q1)))
        1
        (some a ∷ some j ∷ without_ends ds q0 q1)
        (with_fds (some a) (some x) ds k)
  unfolding wire_left
  wire_left_lem =
      let k0 = with_fds (some a) (some x) ds k in
      let (f1, run1, c1) = sys_close_held held k0 c 1 x refl parent_x in
      let k1 = record k { files = f1; ofile = some a ∷ none ∷ ds } in
      let (f2, run2, c2) = sys_dup_free held k1 c1 (suc (suc q1)) j 1 writing (first_fd_one a ds) in
      let (gs, run, c3) = close_both a j f2 1 c2 in
      (gs, bind_done (sys_close 1) _ run1 ∙ bind_done (sys_dup (suc (suc q1))) _ run2 ∙ run, c3)

  wire_right_lem :
      Wires held
        (wire_right (suc (suc q0)) (suc (suc q1)))
        0
        (some i ∷ some x ∷ without_ends ds q0 q1)
        (with_fds (some a) (some x) ds k)
  unfolding wire_right
  wire_right_lem =
      let k0 = with_fds (some a) (some x) ds k in
      let (f1, run1, c1) = sys_close_held held k0 c 0 a refl parent_a in
      let k1 = record k { files = f1; ofile = none ∷ some x ∷ ds } in
      let (f2, run2, c2) =
        sys_dup_free held k1 c1 (suc (suc q0)) i 0 reading (first_fd_zero (some x) ds) in
      let (gs, run, c3) = close_both i x f2 0 c2 in
      (gs, bind_done (sys_close 0) _ run1 ∙ bind_done (sys_dup (suc (suc q0))) _ run2 ∙ run, c3)

  -- The two children that the shell starts for a pipe, where the descriptors 0 and 1 are open,
  -- the two of the pipe stand at different places from 2 on, the counts of the open files are
  -- right, and the shell has all these files open too: the calls of each return, in a state that
  -- differs only in the table of files, whose counts are right again, and in the descriptors. The
  -- left child then writes to the pipe at 1, the right one reads from it at 0, and the two
  -- descriptors of the pipe are free in both, while every other is as before.
  pub pipe_children :
      Wires held
        (wire_left (suc (suc q0)) (suc (suc q1)))
        1
        (some a ∷ some j ∷ without_ends ds q0 q1)
        (with_fds (some a) (some x) ds k)
      × Wires held
          (wire_right (suc (suc q0)) (suc (suc q1)))
          0
          (some i ∷ some x ∷ without_ends ds q0 q1)
          (with_fds (some a) (some x) ds k)
  pipe_children = (wire_left_lem, wire_right_lem)
