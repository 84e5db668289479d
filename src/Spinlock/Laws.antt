-- ===== src/Spinlock/Laws.antt =====
-- lab6/xv6-public/spinlock.c: acquire and release together.
use cs333_os_labs.Prelude.{arith, false, none, some, true, ℕ, ◌&&◌, ◌-◌, ◌<◌, ◌==◌, ◌≡◌, ◌≢◌}
use cs333_os_labs.Spinlock.{
  Cpu, Lock, acquire, acquire_panic, acquired, holding, popcli, pushcli, release, spins,
}

-- A lock that is free has no owner.
abbrev pub IsLock : Lock → Type 0
IsLock lk = lk.locked ≡ false → lk.cpu ≡ none

-- A CPU's state between calls: interrupts are off while pushcli calls are pending.
abbrev pub IsCpu : Cpu → Type 0
IsCpu c = 0 < c.ncli → c.iflag ≡ false

-- Who takes a lock, where a free lock has no owner and interrupts are off while pushcli calls are
-- pending, can give it back, and the lock, the nesting and the interrupt flag are then as they
-- were.
release-acquire :
    (me : ℕ) (lk lk' : Lock) (c c' : Cpu)
    → IsLock lk
    → IsCpu c
    → acquire me lk c ≡ acquired lk' c'
    → (d : Cpu) × (release me lk' c' ≡ some (lk, d)) × (d.ncli ≡ c.ncli) × (d.iflag ≡ c.iflag)
unfolding acquire release pushcli popcli holding
release-acquire me lk lk' c c' free cpu h = (
  record c' { ncli = c'.ncli - 1; iflag = c'.ncli - 1 == 0 && c'.intena },
  ground (arith, free),
  ground (arith, cpu),
  ground (arith, cpu),
)

-- While one CPU holds the lock, another one that acquires it spins with interrupts off and leaves
-- the lock alone, and its release panics; the holder itself panics on a second acquire.
held_lock :
    (me other : ℕ) (lk : Lock) (c : Cpu)
    → holding me lk ≡ true
    → other ≢ me
    → (acquire other lk c ≡ spins lk (pushcli c))
      × (release other lk c ≡ none)
      × (acquire me lk c ≡ acquire_panic)
unfolding acquire release holding
held_lock me other lk c h ne = (ground arith, ground arith, ground arith)
