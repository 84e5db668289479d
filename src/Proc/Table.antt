-- ===== src/Proc/Table.antt =====
-- lab6/xv6-public/proc.h and the loops over `ptable.proc` of proc.c. A process is named by its
-- index in the table.
pub mod Scans
pub mod Handover
use cs333_os_labs.Prelude.{
  Bool, List, Option, [], false, if◌then◌else◌, none, some, suc, true, zero, ℕ, ◌&&◌, ◌+◌, ◌==◌,
  ◌||◌, ◌∷◌,
}

pub data ProcState : Type 0 where
  unused embryo sleeping runnable running zombie : ProcState

-- What a process sleeps on: the address of a slot of the table, or any other address.
pub data Chan : Type 0 where
  no_chan : Chan
  proc_chan : ℕ → Chan
  addr_chan : ℕ → Chan

abbrev pub chan_eq : Chan → Chan → Bool
chan_eq no_chan no_chan = true
chan_eq (proc_chan i) (proc_chan j) = i == j
chan_eq (addr_chan i) (addr_chan j) = i == j
chan_eq _ _ = false

-- The registers that the modelled code reads or writes; the others only move with the record.
pub record Trapframe : Type 0 where
  pub eax : ℕ
  pub eip : ℕ
  pub esp : ℕ
  pub eflags : ℕ
  pub cs : ℕ
  pub ds : ℕ
  pub es : ℕ
  pub ss : ℕ
  pub trapno : ℕ
  pub err : ℕ

abbrev pub zero_frame : Trapframe
zero_frame = record {
  eax = 0;
  eip = 0;
  esp = 0;
  eflags = 0;
  cs = 0;
  ds = 0;
  es = 0;
  ss = 0;
  trapno = 0;
  err = 0;
}

pub record Proc : Type 0 where
  pub sz : ℕ
  pub pgdir : ℕ
  pub kstack : ℕ
  pub state : ProcState
  pub pid : ℕ
  pub parent : Option ℕ
  pub tf : Trapframe
  pub context_eip : ℕ
  pub chan : Chan
  pub killed : Bool
  pub ofile : List (Option ℕ)
  pub cwd : Option ℕ
  pub name : List ℕ

abbrev pub nproc : ℕ
nproc = 64

abbrev pub nofile : ℕ
nofile = 16

abbrev pub state_eq : ProcState → ProcState → Bool
state_eq unused unused = true
state_eq embryo embryo = true
state_eq sleeping sleeping = true
state_eq runnable runnable = true
state_eq running running = true
state_eq zombie zombie = true
state_eq _ _ = false

abbrev pub is_child : ℕ → Proc → Bool
is_child me p = elim p.parent [ none ↦ false | some q ↦ q == me ]

-- The loop of `allocproc`: the first free slot, counted from `i`.
unfoldable pub find_unused : ℕ → List Proc → Option ℕ
find_unused i [] = none
find_unused i (p ∷ ps) = if state_eq p.state unused then some i else find_unused (i + 1) ps

abbrev pub wake : Chan → Proc → Proc
wake chan p =
    if state_eq p.state sleeping && chan_eq p.chan chan then record p { state = runnable } else p

-- The scan of `scheduler`: the first runnable slot, counted from `i`.
unfoldable pub next_runnable : ℕ → List Proc → Option ℕ
next_runnable i [] = none
next_runnable i (p ∷ ps) = if state_eq p.state runnable then some i else next_runnable (i + 1) ps

-- `wakeup1`
unfoldable pub wakeup1 : Chan → List Proc → List Proc
wakeup1 chan [] = []
wakeup1 chan (p ∷ ps) = wake chan p ∷ wakeup1 chan ps

-- The loop of `exit` that hands the children of `me` to `init`: the new table, and whether `init`
-- has to be woken because one of them is a zombie.
unfoldable pub reparent : ℕ → ℕ → List Proc → List Proc
reparent me init [] = []
reparent me init (p ∷ ps) =
    (if is_child me p then record p { parent = some init } else p) ∷ reparent me init ps

unfoldable pub has_zombie : ℕ → List Proc → Bool
has_zombie me [] = false
has_zombie me (p ∷ ps) = (is_child me p && state_eq p.state zombie) || has_zombie me ps

pub data Scan : Type 0 where
  found : ℕ → Scan
  waiting no_children : Scan

abbrev pub had_child : Bool → Scan → Scan
had_child b (found i) = found i
had_child b waiting = waiting
had_child b no_children = if b then waiting else no_children

-- The scan of `wait`: the first zombie child of `me`, or whether there are children at all.
unfoldable pub scan_children : ℕ → ℕ → List Proc → Scan
scan_children me i [] = no_children
scan_children me i (p ∷ ps) =
    if is_child me p && state_eq p.state zombie
    then found i
    else had_child (is_child me p) (scan_children me (i + 1) ps)

abbrev mark_killed : Proc → Proc
mark_killed p = record p {
  killed = true;
  state = if state_eq p.state sleeping then runnable else p.state;
}

-- The loop of `kill`: false where no process has the pid.
unfoldable pub kill : ℕ → List Proc → List Proc × Bool
kill pid [] = ([], false)
kill pid (p ∷ ps) =
    let (qs, hit) = kill pid ps in
    if p.pid == pid then (mark_killed p ∷ ps, true) else (p ∷ qs, hit)

abbrev pub edit_at : ℕ → (Proc → Proc) → List Proc → List Proc
edit_at i f [] = []
edit_at zero f (p ∷ ps) = f p ∷ ps
edit_at (suc i) f (p ∷ ps) = p ∷ edit_at i f ps
