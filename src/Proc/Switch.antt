-- ===== src/Proc/Switch.antt =====
-- lab6/xv6-public/proc.c, scheduler, sched, yield, sleep, wakeup and kill, each up to the switch of
-- contexts, which the model takes as the end of the step.
use cs333_os_labs.Prelude.{Bool, Option, drop, none, not, some, ℕ, ◌==◌}
use cs333_os_labs.Prelude.Outcome.{Stop, done, modify, pure, read, require, ◌>>=◌, ◌>>◌}
use cs333_os_labs.Proc.Life.{K, edit, load_proc}
use cs333_os_labs.Proc.Table.{
  Chan, kill, next_runnable, no_chan, runnable, running, sleeping, state_eq, wakeup1,
}

module _ {F : Type 0} where
  -- `sched` checks that the process has given up its state; the checks of locks and interrupts
  -- concern the CPU and are left out.
  unfoldable pub sched : ℕ → K F (Unit {0})
  sched me = do p ← load_proc me; require (not (state_eq p.state running)) Stop.bad_sched

  unfoldable pub yield : ℕ → K F (Unit {0})
  yield me = do modify (edit me (λ p. record p { state = runnable })); sched me

  unfoldable pub sleep : ℕ → Chan → K F (Unit {0})
  sleep me chan = do modify (edit me (λ p. record p { chan = chan; state = sleeping })); sched me

  -- The rest of `sleep`, when the process runs again.
  unfoldable pub awake : ℕ → K F (Unit {0})
  awake me = modify (edit me (λ p. record p { chan = no_chan }))

  unfoldable pub wakeup : Chan → K F (Unit {0})
  wakeup chan = modify (λ s. record s { procs = wakeup1 chan s.procs })

  unfoldable pub switch_to : Option ℕ → K F (Option ℕ)
  switch_to none = pure none
  switch_to (some i) = do
    p ← load_proc i
    require (not (p.pgdir == 0)) Stop.no_pgdir
    modify (edit i (λ q. record q { state = running }))
    pure (some i)

  -- The loop of `scheduler` from slot `i` on, up to the next switch to a process. After process `j`
  -- has run, it goes on from `j + 1`; at the end of the table, from 0.
  unfoldable pub schedule : ℕ → K F (Option ℕ)
  schedule i = do j ← read (λ s. next_runnable i (drop i s.procs)); switch_to j

  -- `kill`: false where it returns -1.
  unfoldable pub sys_kill : ℕ → K F Bool
  sys_kill pid s = let (ps, hit) = kill pid s.procs in done (hit, record s { procs = ps })
