-- ===== src/Proc/Table/Handover.antt =====
-- lab6/xv6-public/proc.c: waking, killing, and the handing over of children.
use cs333_os_labs.Prelude.{
  All, Bool, Bool-cases, List, [], arith, false, inl, inr, refl, suc, true, zero, ℕ, ◌&&◌, ◌==◌,
  ◌||◌, ◌∷◌, ◌≡◌, ◌≢◌, ◌⊎◌,
}
use cs333_os_labs.Proc.Table.{
  Chan, Proc, chan_eq, edit_at, is_child, kill, mark_killed, reparent, sleeping, state_eq, wakeup1,
  zombie,
}

-- After wakeup1, no process sleeps on the channel.
pub wakeup1_wakes :
    (c : Chan) (ps : List Proc)
    → All (λ p. (state_eq p.state sleeping && chan_eq p.chan c) ≡ false) (wakeup1 c ps)
unfolding wakeup1
wakeup1_wakes c [] = tt
wakeup1_wakes c (p ∷ ps) = (ground arith, wakeup1_wakes c ps)

-- kill fails exactly when no process has the pid, and then leaves the table as it was.
pub kill_missing :
    (pid : ℕ) (ps : List Proc) → All (λ p. (p.pid == pid) ≡ false) ps → kill pid ps ≡ (ps, false)
unfolding kill
kill_missing pid [] h = refl
kill_missing pid (p ∷ ps) h = ground (arith, kill_missing pid ps h.1)

abbrev pub any_pid : ℕ → List Proc → Bool
any_pid pid [] = false
any_pid pid (p ∷ ps) = (p.pid == pid) || any_pid pid ps

-- The slots of a table, before and after, one beside the other.
abbrev pub Slotwise : (Proc → Proc → Type 0) → List Proc → List Proc → Type 0
Slotwise R [] [] = Unit
Slotwise R [] (q ∷ qs) = ⊥
Slotwise R (p ∷ ps) [] = ⊥
Slotwise R (p ∷ ps) (q ∷ qs) = R p q × Slotwise R ps qs

Slotwise-refl :
    (R : Proc → Proc → Type 0) → ((p : Proc) → R p p) → (ps : List Proc) → Slotwise R ps ps
Slotwise-refl R h [] = tt
Slotwise-refl R h (p ∷ ps) = (h p, Slotwise-refl R h ps)

-- What kill may do to a slot: nothing, or mark a process with this pid as killed, runnable if it
-- was asleep.
abbrev pub MayKill : ℕ → Proc → Proc → Type 0
MayKill pid p q =
    (q ≡ p)
    ⊎ ((p.pid ≡ pid)
        × (q.killed ≡ true)
        × (q.state ≢ sleeping)
        × (q ≡ record p { killed = true; state = q.state }))

mark_killed-MayKill : (pid : ℕ) (p : Proc) → (p.pid == pid) ≡ true → MayKill pid p (mark_killed p)
mark_killed-MayKill pid p h = inr (ground arith, refl, ground arith, refl)

-- kill succeeds exactly when some process has the pid; it changes at most slots with this pid,
-- which it marks as killed and leaves not asleep, with all other fields kept.
kill_lem :
    (pid : ℕ) (ps : List Proc)
    → ((kill pid ps).1 ≡ any_pid pid ps) × Slotwise (MayKill pid) ps (kill pid ps).0
unfolding kill
kill_lem pid [] = (refl, tt)
kill_lem pid (p ∷ ps) = elim (Bool-cases (p.pid == pid)) [
  | inl e ↦
      rw e (refl, (mark_killed-MayKill pid p e, Slotwise-refl (MayKill pid) (λ q. inl refl) ps))
  | inr e ↦ rw e ((kill_lem pid ps).0, (inl refl, (kill_lem pid ps).1))
]

pub reparent_none :
    (me init : ℕ) (ps : List Proc)
    → (init == me) ≡ false
    → All (λ p. is_child me p ≡ false) (reparent me init ps)
unfolding reparent
reparent_none me init [] h = tt
reparent_none me init (p ∷ ps) h = (ground arith, reparent_none me init ps h)

pub wakeup1_keeps_parents :
    (me : ℕ) (c : Chan) (ps : List Proc)
    → All (λ p. is_child me p ≡ false) ps
    → All (λ p. is_child me p ≡ false) (wakeup1 c ps)
unfolding wakeup1
wakeup1_keeps_parents me c [] h = tt
wakeup1_keeps_parents me c (p ∷ ps) h = (ground arith, wakeup1_keeps_parents me c ps h.1)

pub edit_keeps_parents :
    (me i : ℕ) (ps : List Proc)
    → All (λ p. is_child me p ≡ false) ps
    → All (λ p. is_child me p ≡ false) (edit_at i (λ p. record p { state = zombie }) ps)
edit_keeps_parents me i [] h = tt
edit_keeps_parents me zero (p ∷ ps) h = h
edit_keeps_parents me (suc i) (p ∷ ps) h = (h.0, edit_keeps_parents me i ps h.1)
