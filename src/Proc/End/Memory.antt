-- ===== src/Proc/End/Memory.antt =====
-- lab6/xv6-public/proc.c, exit and wait: the allocator's invariant and the sizes of processes.
use cs333_os_labs.Kalloc.{kfree}
use cs333_os_labs.Kalloc.FreeList.{kfree-IsSound}
use cs333_os_labs.Prelude.{All, Bool-cases, List, Option, [], arith, inl, inr, none, some, ℕ, ◌∷◌}
use cs333_os_labs.Prelude.Outcome.{Stop}
use cs333_os_labs.Prelude.Outcome.Keeps.{
  Keeps, Keeps-bind, Keeps-branch, Keeps-halt, Keeps-modify, Keeps-pure, Keeps-read, Keeps-require,
  Keeps-then,
}
use cs333_os_labs.Proc.End.{
  blocked, chan_of, exit, exit_table, failed, reap, reap_child, reaped, wait_more, wait_on,
  wait_round,
}
use cs333_os_labs.Proc.Life.{FileOps, close_files, put_cwd}
use cs333_os_labs.Proc.Life.Memory.{
  All-edit_at, FilesKeep, IsSmall, IsSoundSystem, edit-Keeps, in_files-Keeps, in_memory-Keeps,
  load_proc-Keeps,
}
use cs333_os_labs.Proc.Table.{
  Chan, Proc, Scan, found, has_zombie, no_children, proc_chan, reparent, scan_children, waiting,
  wakeup1,
}
use cs333_os_labs.Vm.Space.{freevm}
use cs333_os_labs.Vm.Space.Sound.{freevm-IsSound}

wakeup1-IsSmall : (c : Chan) (ps : List Proc) → All IsSmall ps → All IsSmall (wakeup1 c ps)
unfolding wakeup1
wakeup1-IsSmall c [] h = tt
wakeup1-IsSmall c (p ∷ ps) h = (ground (arith, h.0), wakeup1-IsSmall c ps h.1)

reparent-IsSmall :
    (me init : ℕ) (ps : List Proc) → All IsSmall ps → All IsSmall (reparent me init ps)
unfolding reparent
reparent-IsSmall me init [] h = tt
reparent-IsSmall me init (p ∷ ps) h = (ground (arith, h.0), reparent-IsSmall me init ps h.1)

exit_table-IsSmall :
    (me init : ℕ) (parent : Option ℕ) (ps : List Proc)
    → All IsSmall ps
    → All IsSmall (exit_table me init parent ps)
unfolding exit_table
exit_table-IsSmall me init parent ps h =
    let woken = wakeup1-IsSmall (chan_of parent) ps h in
    let handed = reparent-IsSmall me init (wakeup1 (chan_of parent) ps) woken in
    All-edit_at IsSmall _ (λ p k. k) me _
      (elim (Bool-cases (has_zombie me (wakeup1 (chan_of parent) ps))) [
        | inl e ↦ rw e (wakeup1-IsSmall (proc_chan init) _ handed)
        | inr e ↦ rw e handed
      ])

module _ {F : Type 0} where
  reap_child-Keeps : (i : ℕ) → Keeps IsSoundSystem (reap_child {F = F} i)
  unfolding reap_child
  reap_child-Keeps i = load_proc-Keeps _ i λ q small.
      Keeps-then (in_memory-Keeps (kfree q.kstack) (kfree-IsSound q.kstack)) (
        Keeps-then (edit-Keeps i (λ p. record p { kstack = 0 }) (λ p h. h)) (
          Keeps-then (in_memory-Keeps (freevm q.pgdir) (freevm-IsSound q.pgdir))
            (Keeps-then (edit-Keeps i reap (λ p h. h)) (Keeps-pure (reaped q.pid)))))

  wait_more-Keeps : (me : ℕ) → Keeps IsSoundSystem (wait_more {F = F} me)
  unfolding wait_more
  wait_more-Keeps me = load_proc-Keeps _ me λ p small.
      Keeps-branch (λ _. Keeps-pure failed)
        (λ _. Keeps-then (edit-Keeps me _ (λ q h. h)) (Keeps-pure blocked))

  wait_on-Keeps : (me : ℕ) (scan : Scan) → Keeps IsSoundSystem (wait_on {F = F} me scan)
  unfolding wait_on
  wait_on-Keeps me (found i) = reap_child-Keeps i
  wait_on-Keeps me waiting = wait_more-Keeps me
  wait_on-Keeps me no_children = Keeps-pure failed

  -- A round of wait: it ends, and the system is sound again where it returns.
  wait_round-IsSoundSystem : (me : ℕ) → Keeps IsSoundSystem (wait_round {F = F} me)
  unfolding wait_round
  wait_round-IsSoundSystem me =
      Keeps-bind (Keeps-read (λ s. scan_children me 0 s.procs)) λ scan. wait_on-Keeps me scan

  module _ (ops : FileOps F) (files : FilesKeep ops) where
    close_files-Keeps : (fs : List (Option ℕ)) → Keeps IsSoundSystem (close_files ops fs)
    unfolding close_files
    close_files-Keeps [] = Keeps-pure tt
    close_files-Keeps (none ∷ fs) = close_files-Keeps fs
    close_files-Keeps (some f ∷ fs) =
        Keeps-then (in_files-Keeps (ops.fileclose f) (files.close_keeps f)) (close_files-Keeps fs)

    put_cwd-Keeps : (o : Option ℕ) → Keeps IsSoundSystem (put_cwd ops o)
    unfolding put_cwd
    put_cwd-Keeps none = Keeps-halt _ Stop.null_inode (λ e. cc)
    put_cwd-Keeps (some ip) = in_files-Keeps (ops.iput ip) (files.iput_keeps ip)

    pub exit-Keeps : (me : ℕ) → Keeps IsSoundSystem (exit ops me)
    unfolding exit
    exit-Keeps me = Keeps-bind (Keeps-read (λ s. s.initproc)) λ init.
        Keeps-then (Keeps-require _ Stop.init_exits (λ e. cc)) (
          load_proc-Keeps _ me λ p small. Keeps-then (close_files-Keeps p.ofile) (
            Keeps-then (edit-Keeps me _ (λ q h. h)) (
              Keeps-then (put_cwd-Keeps p.cwd) (
                Keeps-then (edit-Keeps me _ (λ q h. h)) (
                  Keeps-modify _ (λ s sound.
                    (sound.0, exit_table-IsSmall me s.initproc p.parent s.procs sound.1)))))))
