-- ===== src/Tests/Processes.antt =====
-- The process table and both schedulers on concrete tables.
use cs333_os_labs.Proc.End.Waits.{Waits, wait_round_lem}
use cs333_os_labs.Kalloc.FreeList.{IsSound}
use cs333_os_labs.Kalloc.{Machine, zero_pte}
use cs333_os_labs.Fs.Transfer.{Devsw}
use cs333_os_labs.Prelude.{
  All, List, Option, [], arith, false, none, refl, true, some, ℕ, ◌∷◌, ◌≡◌, ◌⊎◌,
}
use cs333_os_labs.Prelude.Outcome.Keeps.{Keeps}
use cs333_os_labs.Proc.End.{exit_table, wait_round}
use cs333_os_labs.Proc.End.Orphans.{exit_table_no_orphans}
use cs333_os_labs.Proc.Life.{System}
use cs333_os_labs.Proc.Table.{
  Proc, ProcState, is_child, no_chan, runnable, running, sleeping, unused, zero_frame, zombie,
}
use cs333_os_labs.Sched.{Task, pick}
use cs333_os_labs.Sched.Choice.{IsReadySlot, NoneAbove, is_ready, pick_lem}

abbrev process : ProcState → ℕ → Option ℕ → Proc
process state pid parent = record {
  sz = 4096;
  pgdir = 0;
  kstack = 0;
  state = state;
  pid = pid;
  parent = parent;
  tf = zero_frame;
  context_eip = 0;
  chan = no_chan;
  killed = false;
  ofile = [];
  cwd = none;
  name = [];
}

-- init, a shell, and two children of the shell.
abbrev table : List Proc
table =
    process sleeping 1 none
    ∷ process running 2 (some 0)
    ∷ process runnable 3 (some 1)
    ∷ process zombie 4 (some 1)
    ∷ process unused 0 none
    ∷ []

exit_table_no_orphans_example : All (λ p. is_child 1 p ≡ false) (exit_table 1 0 (some 0) table)
exit_table_no_orphans_example = exit_table_no_orphans 1 0 (some 0) table (omega arith)

abbrev tasks : List Task
tasks =
    record { state = runnable; priority = 3; pgdir = 4096 }
    ∷ record { state = sleeping; priority = 9; pgdir = 8192 }
    ∷ record { state = runnable; priority = 5; pgdir = 12288 }
    ∷ []

pick_lem_example :
    (IsReadySlot 0 tasks (pick none tasks) (pick none tasks).f
      × NoneAbove (pick none tasks).maxp tasks)
    ⊎ (All (λ p. is_ready p ≡ false) tasks × ((pick none tasks).f ≡ none))
pick_lem_example = pick_lem none tasks

abbrev no_devices : Devsw
no_devices major = none

-- The memory of a kernel: frame 512, the directory of the zombie, has no entry, and frame 768 is its
-- stack.
abbrev memory : Machine
memory = record {
  kend = 0x80100000;
  kdata = 0x80108000;
  use_lock = true;
  freelist = [];
  freepg_cnt = 0;
  cnt = λ f. 0;
  bytes = λ f off. 0;
  entry = λ f i. zero_pte;
}

memory-IsSound : IsSound memory
memory-IsSound = record { counted = refl; linked = omega arith; valid = tt }

abbrev dead_child : Proc
dead_child = record (process zombie 4 (some 0)) { pgdir = 0x80200000; kstack = 0x80300000 }

-- init waits for its child.
abbrev system : System (Unit {0})
system = record {
  mem = memory;
  procs = process running 1 none ∷ dead_child ∷ [];
  nextpid = 5;
  initproc = 0;
  files = tt;
}

wait_round_lem_example : Waits 0 (process running 1 none) system (wait_round 0 system)
wait_round_lem_example = wait_round_lem 0 (process running 1 none) system refl memory-IsSound
