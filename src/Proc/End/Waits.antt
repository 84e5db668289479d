-- ===== src/Proc/End/Waits.antt =====
-- lab6/xv6-public/proc.c, wait: what a round of it does, whatever it finds in the table.
use cs333_os_labs.Kalloc.{M, Machine, kfree}
use cs333_os_labs.Kalloc.FreeList.{IsSound, kfree-IsSound}
use cs333_os_labs.Prelude.{
  All, subst, some-injective, ap, ◌⊎◌, Bool-cases, List, Option, arith, false, get_elem?, inl, inr,
  none, refl, some, suc, zero, sym, true, ℕ, ◌-◌, ◌∙◌, ◌∷◌, ◌≡◌, ◌≢◌, [],
}
use cs333_os_labs.Prelude.Outcome.{Outcome, Stop, code, done, stop, ◌>>◌}
use cs333_os_labs.Prelude.Outcome.{
  bind_done, then_done, returns, modifies, branch_yes, branch_no, modify,
}
use cs333_os_labs.Prelude.Outcome.Keeps.{Returns}
use cs333_os_labs.Vm.Space.Sound.{freevm-IsSound}
use cs333_os_labs.Proc.End.{
  WaitResult, blocked, failed, reap, reap_child, reaped, wait_more, wait_on, wait_round,
}
use cs333_os_labs.Proc.Life.{System, edit, in_memory, load_proc}
use cs333_os_labs.Proc.Table.{
  Proc, Scan, edit_at, found, has_zombie, is_child, no_children, proc_chan, scan_children, sleeping,
  unused, waiting, zombie,
}
use cs333_os_labs.Proc.Table.Scans.{FindsChild, Has, has_child, has_zombie_none, scan_children_lem}
use cs333_os_labs.Vm.Space.{freevm}

-- A zombie child of `me` is taken out of the table: its stack and its address space are given back,
-- and its slot is free.
pub record IsReaped {F : Type 0} (me pid : ℕ) (s t : System F) : Type 0 where
  pub i : ℕ
  pub child : Proc
  pub at : get_elem? s.procs i ≡ some child
  pub is_its_child : is_child me child ≡ true
  pub dead : child.state ≡ zombie
  pub same_pid : pid ≡ child.pid
  pub memory : (kfree child.kstack >> freevm child.pgdir) s.mem ≡ done (tt, t.mem)
  pub left : Proc
  pub left_at : get_elem? t.procs i ≡ some left
  pub free_slot : left.state ≡ unused
  pub no_stack : left.kstack ≡ 0
  pub no_pid : left.pid ≡ 0
  pub no_parent : left.parent ≡ none
  pub others : (j : ℕ) → i ≢ j → get_elem? t.procs j ≡ get_elem? s.procs j
  pub sound : IsSound t.mem
  pub same_files : t.files ≡ s.files

-- The memory of a zombie child of `me` cannot be given back.
pub record IsStuck {F : Type 0} (me : ℕ) (e : Stop) (s : System F) : Type 0 where
  pub i : ℕ
  pub child : Proc
  pub at : get_elem? s.procs i ≡ some child
  pub is_its_child : is_child me child ≡ true
  pub dead : child.state ≡ zombie
  pub fails : (kfree child.kstack >> freevm child.pgdir) s.mem ≡ stop e
  pub ends : e ≢ Stop.out_of_fuel

abbrev pub asleep_on_itself : {F : Type 0} → ℕ → System F → System F
asleep_on_itself me s = edit me (λ q. record q { chan = proc_chan me; state = sleeping }) s

-- How a round of the process `p` in the slot `me` ends.
abbrev pub Waits : {F : Type 0} → ℕ → Proc → System F → Outcome (WaitResult × System F) → Type 0
Waits me p s (stop e) = IsStuck me e s
Waits me p s (done (reaped pid, t)) = IsReaped me pid s t
Waits me p s (done (failed, t)) =
    (t ≡ s) × (has_zombie me s.procs ≡ false) × ((has_child me s.procs ≡ false) ⊎ (p.killed ≡ true))
Waits me p s (done (blocked, t)) =
    (t ≡ asleep_on_itself me s)
    × (has_zombie me s.procs ≡ false)
    × (has_child me s.procs ≡ true)
    × (p.killed ≡ false)

edit_at-edit_at :
    (f g : Proc → Proc) (i : ℕ) (ps : List Proc)
    → ((q : Proc) → g (f q) ≡ g q)
    → edit_at i g (edit_at i f ps) ≡ edit_at i g ps
edit_at-edit_at f g i [] h = refl
edit_at-edit_at f g zero (p ∷ ps) h = ap (λ q. q ∷ ps) (h p)
edit_at-edit_at f g (suc i) (p ∷ ps) h = ap (λ qs. p ∷ qs) (edit_at-edit_at f g i ps h)

get_elem?-edit_self :
    (f : Proc → Proc) (i : ℕ) (ps : List Proc) (p : Proc)
    → get_elem? ps i ≡ some p
    → get_elem? (edit_at i f ps) i ≡ some (f p)
get_elem?-edit_self f i [] p e = cc
get_elem?-edit_self f zero (q ∷ ps) p e = ap (λ r. some (f r)) (some-injective q p e)
get_elem?-edit_self f (suc i) (q ∷ ps) p e = get_elem?-edit_self f i ps p e

get_elem?-edit_ne :
    (f : Proc → Proc) (i j : ℕ) (ps : List Proc)
    → i ≢ j
    → get_elem? (edit_at i f ps) j ≡ get_elem? ps j
get_elem?-edit_ne f i j [] n = refl
get_elem?-edit_ne f zero zero (q ∷ ps) n = absurd (n refl)
get_elem?-edit_ne f zero (suc j) (q ∷ ps) n = refl
get_elem?-edit_ne f (suc i) zero (q ∷ ps) n = refl
get_elem?-edit_ne f (suc i) (suc j) (q ∷ ps) n = get_elem?-edit_ne f i j ps (λ e. n (ap suc e))

no_child : (me : ℕ) (ps : List Proc) → All (λ q. is_child me q ≡ false) ps → has_child me ps ≡ false
no_child me [] h = refl
no_child me (q ∷ ps) h = ground (arith, h.0, no_child me ps h.1)

module _ {F : Type 0} where
  in_memory_done :
      (m : M (Unit {0})) (s : System F) (t : Machine)
      → m s.mem ≡ done (tt, t)
      → in_memory m s ≡ done (tt, record s { mem = t })
  unfolding in_memory
  in_memory_done m s t e = rw (e, in_memory) refl

  in_memory_stop :
      (m : M (Unit {0})) (s : System F) (x : Stop) → m s.mem ≡ stop x → in_memory m s ≡ stop x
  unfolding in_memory
  in_memory_stop m s x e = rw (e, in_memory) refl

  load_done :
      (i : ℕ) (s : System F) (p : Proc) → get_elem? s.procs i ≡ some p → load_proc i s ≡ done (p, s)
  unfolding load_proc
  load_done i s p e = rw (e, load_proc) refl

then_stop :
    {S B : Type 0} (m : S → Outcome (Unit {0} × S)) (n : S → Outcome (B × S)) (s : S) (x : Stop)
    → m s ≡ stop x
    → (m >> n) s ≡ stop x
unfolding code
then_stop m n s x e = rw (e, ◌>>◌) refl

module _ {F : Type 0} (me i : ℕ) (p q : Proc) (s : System F) (at : get_elem? s.procs i ≡ some q)
    (child : is_child me q ≡ true) (dead : q.state ≡ zombie) (sound : IsSound s.mem) where
  abbrev cleared : Machine → System F
  cleared u = edit i (λ r. record r { kstack = 0 }) (record s { mem = u })

  reap_done :
      (u v : Machine)
      → kfree q.kstack s.mem ≡ done (tt, u)
      → freevm q.pgdir u ≡ done (tt, v)
      → reap_child i s ≡ done (reaped q.pid, edit i reap (record (cleared u) { mem = v }))
  unfolding reap_child
  reap_done u v k f =
      bind_done (load_proc i) _ (load_done i s q at)
      ∙ then_done (in_memory (kfree q.kstack)) _ (in_memory_done (kfree q.kstack) s u k)
      ∙ then_done (modify (edit i (λ r. record r { kstack = 0 }))) _
          (modifies (edit i (λ r. record r { kstack = 0 })) (record s { mem = u }))
      ∙ then_done (in_memory (freevm q.pgdir)) _ (in_memory_done (freevm q.pgdir) (cleared u) v f)
      ∙ then_done (modify (edit i reap)) _ (modifies (edit i reap) (record (cleared u) { mem = v }))
      ∙ returns (reaped q.pid) (edit i reap (record (cleared u) { mem = v }))

  reap_stop_vm :
      (u : Machine) (e : Stop)
      → kfree q.kstack s.mem ≡ done (tt, u)
      → freevm q.pgdir u ≡ stop e
      → reap_child i s ≡ stop e
  unfolding reap_child
  reap_stop_vm u e k f =
      bind_done (load_proc i) _ (load_done i s q at)
      ∙ then_done (in_memory (kfree q.kstack)) _ (in_memory_done (kfree q.kstack) s u k)
      ∙ then_done (modify (edit i (λ r. record r { kstack = 0 }))) _
          (modifies (edit i (λ r. record r { kstack = 0 })) (record s { mem = u }))
      ∙ then_stop (in_memory (freevm q.pgdir)) _ (cleared u) e
          (in_memory_stop (freevm q.pgdir) (cleared u) e f)

  reap_stop_stack : (e : Stop) → kfree q.kstack s.mem ≡ stop e → reap_child i s ≡ stop e
  unfolding reap_child
  reap_stop_stack e k =
      bind_done (load_proc i) _ (load_done i s q at)
      ∙ then_stop (in_memory (kfree q.kstack)) _ s e (in_memory_stop (kfree q.kstack) s e k)

  after_stack :
      (u : Machine) (o : Outcome (Unit {0} × Machine))
      → kfree q.kstack s.mem ≡ done (tt, u)
      → freevm q.pgdir u ≡ o
      → Returns IsSound o
      → Waits me p s (reap_child i s)
  after_stack u (stop e) k f r = subst (Waits me p s) (sym (reap_stop_vm u e k f)) (record {
    i = i;
    child = q;
    at = at;
    is_its_child = child;
    dead = dead;
    fails = then_done (kfree q.kstack) (freevm q.pgdir) k ∙ f;
    ends = r;
  })
  after_stack u (done (a, v)) k f r = subst (Waits me p s) (sym (reap_done u v k f)) (record {
    i = i;
    child = q;
    at = at;
    is_its_child = child;
    dead = dead;
    same_pid = refl;
    memory = then_done (kfree q.kstack) (freevm q.pgdir) k ∙ f;
    left = reap q;
    left_at =
        ap (λ ps. get_elem? ps i)
          (edit_at-edit_at (λ r. record r { kstack = 0 }) reap i s.procs (λ r. refl))
        ∙ get_elem?-edit_self reap i s.procs q at;
    free_slot = refl;
    no_stack = refl;
    no_pid = refl;
    no_parent = refl;
    others = λ j n.
        ap (λ ps. get_elem? ps j)
          (edit_at-edit_at (λ r. record r { kstack = 0 }) reap i s.procs (λ r. refl))
        ∙ get_elem?-edit_ne reap i j s.procs n;
    sound = r;
    same_files = refl;
  })

  reap_child-Waits :
      (o : Outcome (Unit {0} × Machine))
      → kfree q.kstack s.mem ≡ o
      → Returns IsSound o
      → Waits me p s (reap_child i s)
  reap_child-Waits (stop e) k r = subst (Waits me p s) (sym (reap_stop_stack e k)) (record {
    i = i;
    child = q;
    at = at;
    is_its_child = child;
    dead = dead;
    fails = then_stop (kfree q.kstack) (freevm q.pgdir) s.mem e k;
    ends = r;
  })
  reap_child-Waits (done (a, u)) k r =
      after_stack u (freevm q.pgdir u) k refl ((freevm-IsSound q.pgdir).run u r)

module _ {F : Type 0} (me : ℕ) (p : Proc) (s : System F) (here : get_elem? s.procs me ≡ some p)
    (sound : IsSound s.mem) where
  killed_more : p.killed ≡ true → wait_more me s ≡ done (failed, s)
  unfolding wait_more
  killed_more k =
      bind_done (load_proc me) _ (load_done me s p here)
      ∙ branch_yes p.killed _ _ s k
      ∙ returns failed s

  sleeps_more : p.killed ≡ false → wait_more me s ≡ done (blocked, asleep_on_itself me s)
  unfolding wait_more
  sleeps_more k =
      bind_done (load_proc me) _ (load_done me s p here)
      ∙ branch_no p.killed _ _ s k
      ∙ then_done (modify (asleep_on_itself me)) _ (modifies (asleep_on_itself me) s)
      ∙ returns blocked (asleep_on_itself me s)

  wait_more-Waits :
      has_zombie me s.procs ≡ false → has_child me s.procs ≡ true → Waits me p s (wait_more me s)
  wait_more-Waits z c = elim (Bool-cases p.killed) [
    | inl k ↦ subst (Waits me p s) (sym (killed_more k)) (refl, z, inr k)
    | inr k ↦ subst (Waits me p s) (sym (sleeps_more k)) (refl, z, c, k)
  ]

  found_child :
      (i : ℕ) (o : Option Proc)
      → get_elem? s.procs i ≡ o
      → Has (λ q. (is_child me q ≡ true) × (q.state ≡ zombie)) o
      → Waits me p s (reap_child i s)
  found_child i none e h = absurd h
  found_child i (some q) e (child, dead) =
      reap_child-Waits me i p q s e child dead sound (kfree q.kstack s.mem) refl
        ((kfree-IsSound q.kstack).run s.mem sound)

  after_scan : (r : Scan) → FindsChild me 0 s.procs r → Waits me p s (wait_on me r s)
  unfolding wait_on code
  after_scan (found i) (l, h) =
      found_child i (get_elem? s.procs (i - 0)) (ap (get_elem? s.procs) (omega arith)) h
  after_scan waiting (z, c) = wait_more-Waits z c
  after_scan no_children h = (refl, has_zombie_none me s.procs h, inl (no_child me s.procs h))

-- A round of wait by a process of the table, where the allocator invariant holds, has one of four
-- ends. It reaps: the child is a zombie, its pid is returned, its stack and its address space
-- went through kfree and freevm, its slot is free, without a stack, a pid or a parent, the other
-- slots and the files are as before, and the invariant holds again. It fails with nothing
-- changed, where it has no zombie child and either no child or been killed. It sleeps on itself
-- with nothing else changed, where it has children, none a zombie, and was not killed. Or kfree
-- or freevm of a zombie child stops, which is not for want of rounds.
pub wait_round_lem :
    {F : Type 0} (me : ℕ) (p : Proc) (s : System F)
    → get_elem? s.procs me ≡ some p
    → IsSound s.mem
    → Waits me p s (wait_round me s)
unfolding wait_round code
wait_round_lem me p s here sound =
    after_scan me p s here sound (scan_children me 0 s.procs) (scan_children_lem me 0 s.procs)
