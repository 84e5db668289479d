-- ===== src/Sched.antt =====
-- lab5/xv6-public/proc.c and proc.h: the priority scheduler. A process is named by its slot; of its
-- fields only those are kept that the scheduler and the priority calls use.
pub mod Choice
use cs333_os_labs.Kalloc.{uint_mod}
use cs333_os_labs.Prelude.{
  Bool, List, Option, [], false, get_elem?, if◌then◌else◌, ltb, none, not, some, suc, true, zero, ℕ,
  ◌%◌, ◌+◌, ◌==◌, ◌^◌, ◌∷◌,
}
use cs333_os_labs.Prelude.Outcome.{Outcome, Stop, halt, modify, require, stop, ◌>>◌}
use cs333_os_labs.Proc.Table.{ProcState, runnable, running, state_eq}

pub record Task : Type 0 where
  pub state : ProcState
  pub priority : ℕ  -- the bit pattern of an int
  pub pgdir : ℕ

-- `a < b` on the ints with these bit patterns.
abbrev pub int_lt : ℕ → ℕ → Bool
int_lt a b = ltb ((a + 2 ^ 31) % uint_mod) ((b + 2 ^ 31) % uint_mod)

-- The locals of `scheduler`: `f` is `none` until it is first assigned, and otherwise keeps what an
-- earlier pass left there.
pub record Pick : Type 0 where
  pub f : Option ℕ
  pub maxp : ℕ
  pub first : Bool

abbrev pub choose : ℕ → Task → Pick
choose i p = record { f = some i; maxp = p.priority; first = false }

-- The body of the loop over the table.
unfoldable pub consider : ℕ → Task → Pick → Pick
consider i p k =
    if not (state_eq p.state runnable)
    then k
    else if k.first
    then choose i p
    else if int_lt k.maxp p.priority
    then choose i p
    else k

unfoldable pub scan : ℕ → List Task → Pick → Pick
scan i [] k = k
scan i (p ∷ ps) k = scan (i + 1) ps (consider i p k)

-- One pass of `scheduler`, from the `f` that the pass before left.
unfoldable pub pick : Option ℕ → List Task → Pick
pick f ps = scan 0 ps (record { f = f; maxp = 0; first = true })

abbrev pub edit_task : ℕ → (Task → Task) → List Task → List Task
edit_task i g [] = []
edit_task zero g (p ∷ ps) = g p ∷ ps
edit_task (suc i) g (p ∷ ps) = p ∷ edit_task i g ps

-- `switchuvm` panics on a process without a page directory; its loading of registers does not show.
unfoldable pub switchuvm : Option Task → List Task → Outcome (Unit {0} × List Task)
switchuvm none = halt Stop.out_of_bounds
switchuvm (some p) = require (not (p.pgdir == 0)) Stop.no_pgdir

-- What `scheduler` does with `f`: it switches to that process, whatever its state. `none` stands for
-- the use of `f` before it is assigned, a pointer to no process.
unfoldable pub run_pick : Option ℕ → List Task → Outcome (Unit {0} × List Task)
run_pick none ps = stop Stop.out_of_bounds
run_pick (some i) ps =
    (switchuvm (get_elem? ps i) >> modify (edit_task i (λ p. record p { state = running }))) ps

unfoldable pub scheduler : Option ℕ → List Task → Outcome (Unit {0} × List Task)
scheduler f ps = run_pick (pick f ps).f ps

-- `setprio`, of the running process `me`.
unfoldable pub setprio : ℕ → ℕ → List Task → List Task
setprio me prio = edit_task me (λ p. record p { priority = prio })

-- `getprio`
unfoldable pub getprio : ℕ → List Task → Option ℕ
getprio me [] = none
getprio zero (p ∷ ps) = some p.priority
getprio (suc me) (p ∷ ps) = getprio me ps

-- The priorities that `userinit` and `fork` give.
unfoldable pub first_priority : Task → Task
first_priority p = record p { priority = 1 }

unfoldable pub inherit : Task → Task → Task
inherit parent child = record child { priority = parent.priority }
