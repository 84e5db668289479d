-- ===== src/Proc/Life/Memory.antt =====
-- lab6/xv6-public/proc.c, allocproc and fork: the allocator's invariant and the sizes of processes.
-- Every process of the table stays below the kernel's base.
use cs333_os_labs.Kalloc.{M, Machine, kalloc, kernbase, kfree}
use cs333_os_labs.Kalloc.FreeList.{IsSound, kalloc-IsSound, kfree-IsSound}
use cs333_os_labs.Prelude.{
  All, List, Option, [], drop, get_elem?, none, some, suc, zero, ℕ, ◌∷◌, ◌≤◌,
}
use cs333_os_labs.Prelude.Outcome.{Outcome, Stop, code, done, modify, stop, ◌>>=◌}
use cs333_os_labs.Prelude.Outcome.Keeps.{
  Keeps, Keeps-bind, Keeps-halt, Keeps-modify, Keeps-pure, Keeps-read, Keeps-then, Returns,
}
use cs333_os_labs.Proc.Life.{
  FileCall, FileOps, K, System, allocproc, claim_slot, drop_child, dup_cwd, dup_files, edit,
  finish_fork, fork, fork_child, fork_space, give_kstack, in_files, in_memory, load_proc,
}
use cs333_os_labs.Proc.Table.{Proc, edit_at, find_unused}
use cs333_os_labs.Vm.Fork.{copyuvm}
use cs333_os_labs.Vm.Fork.Sound.{copyuvm-IsSound}

abbrev pub IsSmall : Proc → Type 0
IsSmall p = p.sz ≤ kernbase

abbrev pub IsSoundBelow : {F : Type 0} → Machine × F → Type 0
IsSoundBelow (s, f) = IsSound s

-- File operations that keep the allocator's invariant, and whose loops end.
pub record FilesKeep {F : Type 0} (ops : FileOps F) : Type 0 where
  pub dup_keeps : (n : ℕ) → Keeps IsSoundBelow (ops.filedup n)
  pub idup_keeps : (n : ℕ) → Keeps IsSoundBelow (ops.idup n)
  pub close_keeps : (n : ℕ) → Keeps IsSoundBelow (ops.fileclose n)
  pub iput_keeps : (n : ℕ) → Keeps IsSoundBelow (ops.iput n)

pub All-edit_at :
    (P : Proc → Type 0) (f : Proc → Proc)
    → ((p : Proc) → P p → P (f p))
    → (i : ℕ) (ps : List Proc) → All P ps
    → All P (edit_at i f ps)
All-edit_at P f h i [] k = tt
All-edit_at P f h zero (p ∷ ps) k = (h p k.0, k.1)
All-edit_at P f h (suc i) (p ∷ ps) k = (k.0, All-edit_at P f h i ps k.1)

abbrev AllOption : Option Proc → Type 0
AllOption none = Unit
AllOption (some p) = IsSmall p

small_at : (i : ℕ) (ps : List Proc) → All IsSmall ps → AllOption (get_elem? ps i)
small_at i [] h = tt
small_at zero (p ∷ ps) h = h.0
small_at (suc i) (p ∷ ps) h = small_at i ps h.1

module _ {F : Type 0} where
  abbrev pub IsSoundSystem : System F → Type 0
  IsSoundSystem s = IsSound s.mem × All IsSmall s.procs

  in_memory_case :
      {A : Type 0} (o : Outcome (A × Machine)) (s : System F)
      → Returns IsSound o
      → All IsSmall s.procs
      → Returns IsSoundSystem
          (elim o [ done (a, t) ↦ done (a, record s { mem = t }) | stop e ↦ stop e ])
  in_memory_case (done (a, t)) s h k = (h, k)
  in_memory_case (stop e) s h k = h

  pub in_memory-Keeps :
      {A : Type 0} (m : M A) → Keeps IsSound m → Keeps IsSoundSystem (in_memory {F = F} m)
  unfolding in_memory
  in_memory-Keeps m h = record {
    run = λ s sound. in_memory_case (m s.mem) s (h.run s.mem sound.0) sound.1;
  }

  in_files_case :
      {A : Type 0} (o : Outcome (A × (Machine × F))) (s : System F)
      → Returns IsSoundBelow o
      → All IsSmall s.procs
      → Returns IsSoundSystem (elim o [
        | done (a, (t, f)) ↦ done (a, record s { mem = t; files = f })
        | stop e ↦ stop e
      ])
  in_files_case (done (a, (t, f))) s h k = (h, k)
  in_files_case (stop e) s h k = h

  pub in_files-Keeps :
      {A : Type 0} (m : FileCall F A) → Keeps IsSoundBelow m → Keeps IsSoundSystem (in_files m)
  unfolding in_files
  in_files-Keeps m h = record {
    run = λ s sound. in_files_case (m (s.mem, s.files)) s (h.run (s.mem, s.files) sound.0) sound.1;
  }

  load_case :
      {B : Type 0} (f : Proc → K F B) (o : Option Proc) (s : System F)
      → ((p : Proc) → IsSmall p → Keeps IsSoundSystem (f p))
      → AllOption o
      → IsSoundSystem s
      → Returns IsSoundSystem
          (elim (elim o as (λ _. Outcome (Proc × System F)) [
            | some p ↦ done (p, s)
            | none ↦ stop Stop.out_of_bounds
          ]) [ done (p, t) ↦ f p t | stop e ↦ stop e ])
  load_case f none s h k sound = λ e. cc
  load_case f (some p) s h k sound = (h p k).run s sound

  -- What follows the reading of a slot may use that the process is small.
  pub load_proc-Keeps :
      {B : Type 0} (f : Proc → K F B) (i : ℕ)
      → ((p : Proc) → IsSmall p → Keeps IsSoundSystem (f p))
      → Keeps IsSoundSystem (load_proc i >>= f)
  unfolding load_proc code
  load_proc-Keeps f i h = record {
    run = λ s sound. load_case f (get_elem? s.procs i) s h (small_at i s.procs sound.1) sound;
  }

  pub edit-Keeps :
      (i : ℕ) (f : Proc → Proc)
      → ((p : Proc) → IsSmall p → IsSmall (f p))
      → Keeps IsSoundSystem (modify (edit {F = F} i f))
  edit-Keeps i f h =
      Keeps-modify (edit i f) (λ s sound. (sound.0, All-edit_at IsSmall f h i s.procs sound.1))

  give_kstack-Keeps : (i : ℕ) (v : Option ℕ) → Keeps IsSoundSystem (give_kstack {F = F} i v)
  unfolding give_kstack
  give_kstack-Keeps i none = Keeps-then (edit-Keeps i _ (λ p h. h)) (Keeps-pure none)
  give_kstack-Keeps i (some v) = Keeps-then (edit-Keeps i _ (λ p h. h)) (Keeps-pure (some i))

  claim_slot-Keeps : (o : Option ℕ) → Keeps IsSoundSystem (claim_slot {F = F} o)
  unfolding claim_slot
  claim_slot-Keeps none = Keeps-pure none
  claim_slot-Keeps (some i) =
      Keeps-then
        (Keeps-modify _ (λ s sound. (sound.0, All-edit_at IsSmall _ (λ p h. h) i s.procs sound.1)))
        (Keeps-bind (in_memory-Keeps kalloc kalloc-IsSound) (give_kstack-Keeps i))

  pub allocproc-IsSoundSystem : Keeps IsSoundSystem (allocproc {F = F})
  unfolding allocproc
  allocproc-IsSoundSystem = Keeps-bind (Keeps-read (λ s. find_unused 0 s.procs)) claim_slot-Keeps

  drop_child-Keeps : (ops : FileOps F) (np : ℕ) → Keeps IsSoundSystem (drop_child ops np)
  unfolding drop_child
  drop_child-Keeps ops np = load_proc-Keeps _ np λ q small.
      Keeps-then (in_memory-Keeps (kfree q.kstack) (kfree-IsSound q.kstack))
        (Keeps-then (edit-Keeps np _ (λ p h. h)) (Keeps-pure none))

  module _ (ops : FileOps F) (files : FilesKeep ops) where
    dup_files-Keeps : (fs os : List (Option ℕ)) → Keeps IsSoundSystem (dup_files ops fs os)
    unfolding dup_files
    dup_files-Keeps [] os = Keeps-pure os
    dup_files-Keeps (none ∷ fs) os =
        Keeps-bind (dup_files-Keeps fs (drop 1 os)) (λ rest. Keeps-pure _)
    dup_files-Keeps (some f ∷ fs) os =
        Keeps-bind (in_files-Keeps (ops.filedup f) (files.dup_keeps f))
          λ g. Keeps-bind (dup_files-Keeps fs (drop 1 os)) (λ rest. Keeps-pure _)

    dup_cwd-Keeps : (o : Option ℕ) → Keeps IsSoundSystem (dup_cwd ops o)
    unfolding dup_cwd
    dup_cwd-Keeps none = Keeps-halt _ Stop.null_inode (λ e. cc)
    dup_cwd-Keeps (some ip) =
        Keeps-bind (in_files-Keeps (ops.idup ip) (files.idup_keeps ip)) (λ ip'. Keeps-pure _)

    finish_fork-Keeps : (me np d : ℕ) → Keeps IsSoundSystem (finish_fork ops me np d)
    unfolding finish_fork
    finish_fork-Keeps me np d = load_proc-Keeps _ me λ p small.
        Keeps-then (edit-Keeps np _ (λ q h. small)) (
          load_proc-Keeps _ np λ c _. Keeps-bind (dup_files-Keeps p.ofile c.ofile) λ fs.
            Keeps-then (edit-Keeps np _ (λ q h. h)) (
              Keeps-bind (dup_cwd-Keeps p.cwd) λ ip.
                Keeps-then (edit-Keeps np _ (λ q h. h))
                  (load_proc-Keeps _ np (λ q _. Keeps-pure _))))

    fork_space-Keeps : (me np : ℕ) (d : Option ℕ) → Keeps IsSoundSystem (fork_space ops me np d)
    unfolding fork_space
    fork_space-Keeps me np none = drop_child-Keeps ops np
    fork_space-Keeps me np (some d) = finish_fork-Keeps me np d

    fork_child-Keeps : (me : ℕ) (np : Option ℕ) → Keeps IsSoundSystem (fork_child ops me np)
    unfolding fork_child
    fork_child-Keeps me none = Keeps-pure none
    fork_child-Keeps me (some np) = load_proc-Keeps _ me λ p small.
        Keeps-bind (in_memory-Keeps (copyuvm p.pgdir p.sz) (copyuvm-IsSound p.pgdir p.sz small))
          (fork_space-Keeps me np)

    pub fork-Keeps : (me : ℕ) → Keeps IsSoundSystem (fork ops me)
    unfolding fork
    fork-Keeps me = Keeps-bind allocproc-IsSoundSystem (fork_child-Keeps me)
