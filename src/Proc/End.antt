-- ===== src/Proc/End.antt =====
-- lab6/xv6-public/proc.c, exit, wait and userinit.
pub mod Orphans
pub mod Memory
pub mod Waits
use cs333_os_labs.Kalloc.{kfree, pgsize}
use cs333_os_labs.Prelude.{List, Option, [], false, if◌then◌else◌, none, not, some, ℕ, ◌==◌, ◌∷◌}
use cs333_os_labs.Prelude.Outcome.{Stop, branch, halt, modify, pure, read, require, ◌>>=◌, ◌>>◌}
use cs333_os_labs.Proc.Life.{
  FileOps, K, allocproc, close_files, edit, in_files, in_memory, load_proc, put_cwd,
}
use cs333_os_labs.Proc.Table.{
  Chan, Proc, Scan, Trapframe, edit_at, found, has_zombie, no_chan, no_children, proc_chan,
  reparent, runnable, scan_children, sleeping, unused, waiting, wakeup1, zero_frame, zombie,
}
use cs333_os_labs.Proc.Table.Scans.{slot}
use cs333_os_labs.Vm.Space.{freevm, inituvm}
use cs333_os_labs.Vm.Table.{setupkvm}

abbrev pub chan_of : Option ℕ → Chan
chan_of none = no_chan
chan_of (some q) = proc_chan q

-- What `exit` does to the table under `ptable.lock`. Waking `init` touches no parent and no zombie,
-- so it is done once, after the loop, if the loop would do it at all.
unfoldable pub exit_table : ℕ → ℕ → Option ℕ → List Proc → List Proc
exit_table me init parent ps =
    let woken = wakeup1 (chan_of parent) ps in
    let handed = reparent me init woken in
    let told = if has_zombie me woken then wakeup1 (proc_chan init) handed else handed in
    edit_at me (λ p. record p { state = zombie }) told

abbrev clear_name : List ℕ → List ℕ
clear_name [] = []
clear_name (c ∷ cs) = 0 ∷ cs

-- What `wait` leaves of a zombie; `pgdir` keeps its dangling value.
abbrev pub reap : Proc → Proc
reap p = record p {
  kstack = 0;
  pid = 0;
  parent = none;
  name = clear_name p.name;
  killed = false;
  state = unused;
}

pub data WaitResult : Type 0 where
  reaped : ℕ → WaitResult
  failed blocked : WaitResult

module _ {F : Type 0} where
  unfoldable pub reap_child : ℕ → K F WaitResult
  reap_child i = do
    q ← load_proc i
    in_memory (kfree q.kstack)
    modify (edit i (λ p. record p { kstack = 0 }))
    in_memory (freevm q.pgdir)
    modify (edit i reap)
    pure (reaped q.pid)

  -- `sleep(proc, &ptable.lock)` up to the switch to the scheduler.
  unfoldable pub wait_more : ℕ → K F WaitResult
  wait_more me = do
    p ← load_proc me
    branch p.killed (pure failed) (do
      modify (edit me (λ q. record q { chan = proc_chan me; state = sleeping }))
      pure blocked)

  unfoldable pub wait_on : ℕ → Scan → K F WaitResult
  wait_on me (found i) = reap_child i
  wait_on me waiting = wait_more me
  wait_on me no_children = pure failed

  -- One round of the loop of `wait`; after `blocked` it goes round again when woken.
  unfoldable pub wait_round : ℕ → K F WaitResult
  wait_round me = do scan ← read (λ s. scan_children me 0 s.procs); wait_on me scan

abbrev clear_files : List (Option ℕ) → List (Option ℕ)
clear_files [] = []
clear_files (f ∷ fs) = none ∷ clear_files fs

module _ {F : Type 0} (ops : FileOps F) where
  -- `exit`, up to the switch to the scheduler, from which it does not come back.
  unfoldable pub exit : ℕ → K F (Unit {0})
  exit me = do
    init ← read (λ s. s.initproc)
    require (not (me == init)) Stop.init_exits
    p ← load_proc me
    close_files ops p.ofile
    modify (edit me (λ q. record q { ofile = clear_files q.ofile }))
    put_cwd ops p.cwd
    modify (edit me (λ q. record q { cwd = none }))
    modify (λ s. record s { procs = exit_table me s.initproc p.parent s.procs })

  -- `(SEG_UCODE << 3) | DPL_USER`, `(SEG_UDATA << 3) | DPL_USER` and `FL_IF`
  abbrev user_frame : Trapframe
  user_frame = record zero_frame {
    cs = 0x23;
    ds = 0x2b;
    es = 0x2b;
    ss = 0x2b;
    eflags = 0x200;
    esp = pgsize;
  }

  -- "initcode"
  abbrev initcode_name : List ℕ
  initcode_name = b'i' ∷ b'n' ∷ b'i' ∷ b't' ∷ b'c' ∷ b'o' ∷ b'd' ∷ b'e' ∷ []

  unfoldable pub init_space : ℕ → List ℕ → Option ℕ → K F (Unit {0})
  init_space i image none = halt Stop.no_kernel_map
  init_space i image (some d) = do
    modify (edit i (λ p. record p { pgdir = d }))
    in_memory (inituvm d image)
    modify (edit i (λ p. record p { sz = pgsize; tf = user_frame; name = initcode_name }))
    ip ← in_files (ops.root)
    modify (edit i (λ p. record p { cwd = ip; state = runnable }))

  unfoldable pub init_slot : List ℕ → Option ℕ → K F (Unit {0})
  init_slot image none = halt Stop.null_pte
  init_slot image (some i) = do
    modify (λ s. record s { initproc = i })
    d ← in_memory setupkvm
    init_space i image d

  -- The first process; `image` is the linked-in `initcode`.
  unfoldable pub userinit : List ℕ → K F (Unit {0})
  userinit image = do slot ← allocproc; init_slot image slot
