-- ===== src/Proc/End/Orphans.antt =====
-- lab6/xv6-public/proc.c, exit: what becomes of the children, the parent and the process itself.
use cs333_os_labs.Prelude.{All, Bool-cases, List, Option, arith, false, inl, inr, ℕ, ◌≡◌, ◌≢◌}
use cs333_os_labs.Proc.End.{chan_of, exit_table}
use cs333_os_labs.Proc.Table.{Proc, has_zombie, is_child, proc_chan, wakeup1}
use cs333_os_labs.Proc.Table.Handover.{edit_keeps_parents, reparent_none, wakeup1_keeps_parents}

-- When a process other than init exits, no process has it for a parent afterwards.
pub exit_table_no_orphans :
    (me init : ℕ) (parent : Option ℕ) (ps : List Proc)
    → me ≢ init
    → All (λ p. is_child me p ≡ false) (exit_table me init parent ps)
unfolding exit_table
exit_table_no_orphans me init parent ps h =
    let handed = reparent_none me init (wakeup1 (chan_of parent) ps) (ground arith) in
    edit_keeps_parents me me _ (elim (Bool-cases (has_zombie me (wakeup1 (chan_of parent) ps))) [
      | inl e ↦ rw e (wakeup1_keeps_parents me (proc_chan init) _ handed)
      | inr e ↦ rw e handed
    ])
