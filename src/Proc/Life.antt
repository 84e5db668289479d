-- ===== src/Proc/Life.antt =====
-- lab6/xv6-public/proc.c, allocproc, growproc and fork, and the parts of exit that go to other
-- components. The open files and the inodes are an interface, `FileOps`, which Proc/Files fills
-- with the code of file.c, pipe.c and fs.c; the kernel's memory is that of `Vm`. Each function runs
-- with `ptable.lock` held where it touches the table, so the model takes it as one step; where a
-- process blocks, the function returns and says so.
pub mod Memory
use cs333_os_labs.Kalloc.{M, Machine, kalloc, kfree, uint_mod}
use cs333_os_labs.Prelude.{
  Bool, List, Option, [], drop, false, get_elem?, get_or, if◌then◌else◌, ltb, none, some, true, ℕ,
  ◌%◌, ◌+◌, ◌==◌, ◌^◌, ◌∷◌,
}
use cs333_os_labs.Prelude.Outcome.{
  Outcome, Stop, branch, done, halt, modify, pure, read, stop, ◌>>=◌, ◌>>◌,
}
use cs333_os_labs.Proc.Table.{Proc, edit_at, embryo, find_unused, runnable, unused}
use cs333_os_labs.Proc.Table.Scans.{slot}
use cs333_os_labs.Vm.Fork.{copyuvm}
use cs333_os_labs.Vm.Space.{allocuvm, deallocuvm}

-- A call of file.c or fs.c: it works on the state `F` of these, and on the memory, from which it
-- may take pages and to which it may give them back.
abbrev pub FileCall : Type 0 → Type 0 → Type 0
FileCall F A = Machine × F → Outcome (A × (Machine × F))

-- What proc.c calls of file.c and fs.c.
pub record FileOps (F : Type 0) : Type 0 where
  pub filedup : ℕ → FileCall F ℕ
  pub fileclose : ℕ → FileCall F (Unit {0})
  pub idup : ℕ → FileCall F ℕ
  pub iput : ℕ → FileCall F (Unit {0})  -- between begin_op and end_op
  pub root : FileCall F (Option ℕ)  -- namei("/")

pub record System (F : Type 0) : Type 0 where
  pub mem : Machine
  pub procs : List Proc
  pub nextpid : ℕ
  pub initproc : ℕ
  pub files : F

-- `sizeof(struct trapframe)`, the return address and `sizeof(struct context)` below the top of the
-- kernel stack do not show in the model: the frame and `eip` are fields of the process. 1 stands
-- for the address of `forkret`.
abbrev pub forkret : ℕ
forkret = 1

abbrev give_stack : ℕ → Proc → Proc
give_stack v p = record p { kstack = v; context_eip = forkret }

abbrev nonzero : ℕ → Option ℕ
nonzero a = if a == 0 then none else some a

abbrev pub K : Type 0 → Type 0 → Type 0
K F A = System F → Outcome (A × System F)

module _ {F : Type 0} where
  -- Memory and file operations as steps of the whole system.
  unfoldable pub in_memory : {A : Type 0} → M A → K F A
  in_memory m s = elim (m s.mem) [ done (a, t) ↦ done (a, record s { mem = t }) | stop e ↦ stop e ]

  unfoldable pub in_files : {A : Type 0} → FileCall F A → K F A
  in_files m s = elim (m (s.mem, s.files)) [
    | done (a, (t, f)) ↦ done (a, record s { mem = t; files = f })
    | stop e ↦ stop e
  ]

  abbrev pub edit : ℕ → (Proc → Proc) → System F → System F
  edit i f s = record s { procs = edit_at i f s.procs }

  -- A pointer into the table that is no slot of it.
  unfoldable pub load_proc : ℕ → K F Proc
  load_proc i s = elim (get_elem? s.procs i) [
    | some p ↦ done (p, s)
    | none ↦ stop Stop.out_of_bounds
  ]

  unfoldable pub give_kstack : ℕ → Option ℕ → K F (Option ℕ)
  give_kstack i none = do modify (edit i (λ p. record p { kstack = 0; state = unused })); pure none
  give_kstack i (some v) = do modify (edit i (give_stack v)); pure (some i)

  unfoldable pub claim_slot : Option ℕ → K F (Option ℕ)
  claim_slot none = pure none
  claim_slot (some i) = do
    modify (λ s. record s {
      procs = edit_at i (λ p. record p { state = embryo; pid = s.nextpid }) s.procs;
      nextpid = (s.nextpid + 1) % uint_mod;
    })
    v ← in_memory kalloc
    give_kstack i v

  unfoldable pub allocproc : K F (Option ℕ)
  allocproc = do slot ← read (λ s. find_unused 0 s.procs); claim_slot slot

  unfoldable pub set_size : ℕ → Option ℕ → K F Bool
  set_size me none = pure false
  set_size me (some sz) = do modify (edit me (λ p. record p { sz = sz })); pure true

  -- `growproc`: `n` is the bit pattern of an int; false where it returns -1.
  unfoldable pub growproc : ℕ → ℕ → K F Bool
  growproc me n = do
    p ← load_proc me
    sz ← branch (n == 0) (pure (some p.sz)) (
        branch (ltb n (2 ^ 31))
          (do a ← in_memory (allocuvm p.pgdir p.sz ((p.sz + n) % uint_mod)); pure (nonzero a))
          (do a ← in_memory (deallocuvm p.pgdir p.sz ((p.sz + n) % uint_mod)); pure (nonzero a)))
    set_size me sz

module _ {F : Type 0} (ops : FileOps F) where
  open ops use {filedup, fileclose, idup, iput}

  -- The loop of `fork` over the open files; `os` are the child's entries, which stay where the
  -- parent has no file.
  unfoldable pub dup_files : List (Option ℕ) → List (Option ℕ) → K F (List (Option ℕ))
  dup_files [] os = pure os
  dup_files (none ∷ fs) os = do rest ← dup_files fs (drop 1 os); pure (get_or os 0 none ∷ rest)
  dup_files (some f ∷ fs) os = do
    g ← in_files (filedup f)
    rest ← dup_files fs (drop 1 os)
    pure (some g ∷ rest)

  unfoldable pub dup_cwd : Option ℕ → K F (Option ℕ)
  dup_cwd none = halt Stop.null_inode
  dup_cwd (some ip) = do ip' ← in_files (idup ip); pure (some ip')

  -- `fork` once the child has its slot and its address space: the pid that the parent gets.
  unfoldable pub finish_fork : ℕ → ℕ → ℕ → K F (Option ℕ)
  finish_fork me np d = do
    p ← load_proc me
    modify (
        edit np (λ q. record q {
          pgdir = d;
          sz = p.sz;
          parent = some me;
          tf = record (p.tf) { eax = 0 };
        }))
    c ← load_proc np
    fs ← dup_files p.ofile c.ofile
    modify (edit np (λ q. record q { ofile = fs }))
    ip ← dup_cwd p.cwd
    modify (edit np (λ q. record q { cwd = ip; name = p.name; state = runnable }))
    q ← load_proc np
    pure (some q.pid)

  unfoldable pub drop_child : ℕ → K F (Option ℕ)
  drop_child np = do
    q ← load_proc np
    in_memory (kfree q.kstack)
    modify (edit np (λ q. record q { kstack = 0; pgdir = 0; state = unused }))
    pure none

  unfoldable pub fork_space : ℕ → ℕ → Option ℕ → K F (Option ℕ)
  fork_space me np none = drop_child np
  fork_space me np (some d) = finish_fork me np d

  unfoldable pub fork_child : ℕ → Option ℕ → K F (Option ℕ)
  fork_child me none = pure none
  fork_child me (some np) = do
    p ← load_proc me
    d ← in_memory (copyuvm p.pgdir p.sz)
    fork_space me np d

  -- `none` where `fork` returns -1.
  unfoldable pub fork : ℕ → K F (Option ℕ)
  fork me = do np ← allocproc; fork_child me np

  -- The loop of `exit` over the open files.
  unfoldable pub close_files : List (Option ℕ) → K F (Unit {0})
  close_files [] = pure tt
  close_files (none ∷ fs) = close_files fs
  close_files (some f ∷ fs) = do in_files (fileclose f); close_files fs

  unfoldable pub put_cwd : Option ℕ → K F (Unit {0})
  put_cwd none = halt Stop.null_inode
  put_cwd (some ip) = in_files (iput ip)
