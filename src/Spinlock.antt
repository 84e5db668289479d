-- ===== src/Spinlock.antt =====
-- lab6/xv6-public/spinlock.c: spin locks and the nesting of disabled interrupts. A CPU is named by
-- its number; one attempt of the `xchg` loop of `acquire` is one step.
pub mod Laws
use mathlib.Core.Option
use cs333_os_labs.Prelude.{
  Bool, Option, false, if◌then◌else◌, none, not, some, true, ℕ, ◌&&◌, ◌+◌, ◌-◌, ◌==◌,
}

-- The interrupt state of a CPU: `ncli`, `intena` and the interrupt flag of `eflags`.
pub record Cpu : Type 0 where
  pub ncli : ℕ
  pub intena : Bool
  pub iflag : Bool

pub record Lock : Type 0 where
  pub locked : Bool
  pub cpu : Option ℕ

unfoldable pub initlock : Lock
initlock = record { locked = false; cpu = none }

unfoldable pub pushcli : Cpu → Cpu
pushcli c = record c {
  ncli = c.ncli + 1;
  intena = if c.ncli == 0 then c.iflag else c.intena;
  iflag = false;
}

-- `none` where `popcli` panics.
unfoldable pub popcli : Cpu → Option Cpu
popcli c =
    if c.iflag
    then none
    else if c.ncli == 0
    then none
    else some (record c { ncli = c.ncli - 1; iflag = c.ncli - 1 == 0 && c.intena })

abbrev owned_by : ℕ → Option ℕ → Bool
owned_by me none = false
owned_by me (some c) = c == me

unfoldable pub holding : ℕ → Lock → Bool
holding me lk = lk.locked && owned_by me lk.cpu

pub data Acquire : Type 0 where
  acquire_panic : Acquire
  spins acquired : Lock → Cpu → Acquire

-- `acquire` up to the first `xchg`: it takes the lock or has to try again.
unfoldable pub acquire : ℕ → Lock → Cpu → Acquire
acquire me lk c =
    if holding me lk
    then acquire_panic
    else if lk.locked
    then spins lk (pushcli c)
    else acquired (record { locked = true; cpu = some me }) (pushcli c)

-- `none` where `release` panics.
unfoldable pub release : ℕ → Lock → Cpu → Option (Lock × Cpu)
release me lk c =
    if not (holding me lk)
    then none
    else Option.map (λ d. (record { locked = false; cpu = none }, d)) (popcli c)
