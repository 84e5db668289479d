-- ===== src/Lib.antt =====
-- Verification of the operating system labs: the teaching kernel as it stands in lab6/xv6-public,
-- with copy-on-write fork, the priority scheduler of lab5/xv6-public, the threaded server of lab4 and
-- the client shell of lab3.
--
-- The parts, and the files that model them:
--   * Kalloc: lab6/xv6-public/kalloc.c, the free list of physical pages and the reference counts
--     `rtable`, with the address macros of memlayout.h and mmu.h. `Machine` is the state of
--     `kmem` and `rtable` together with physical memory; kalloc, kfree, incr_rtable, decr_rtable,
--     isone_rtable and freerange are functions of the same names. A page is named by its kernel
--     address, a frame by its number; a page is seen as bytes or as page table entries.
--   * Vm: lab6/xv6-public/vm.c over Kalloc. Vm/Table has walkpgdir, mappages and setupkvm, Vm/Space
--     inituvm, allocuvm, deallocuvm, freevm and clearpteu, Vm/Fork copyuvm, copyuvm_cow, uva2ka
--     and copyout. A page table entry is a record of its frame and its flags.
--   * Proc: lab6/xv6-public/proc.c and proc.h. Proc/Table has the loops over `ptable.proc`, Proc/Life
--     allocproc, growproc and fork, Proc/End exit, wait and userinit, Proc/Switch the scheduler,
--     sleep, wakeup and kill. A process is named by its slot; `System` joins the table to the memory
--     of Vm and to the files, which are the interface `FileOps`; Proc/Files fills it with the code of
--     Files and Fs, on the same memory.
--   * Sched: lab5/xv6-public/proc.c, the scheduler that runs a process of the highest priority, with
--     the panic of switchuvm of vm.c, setprio, and getprio of sysproc.c.
--   * Pipe: lab6/xv6-public/pipe.c, the ring buffer behind a pipe.
--   * FileTable: lab6/xv6-public/file.c, the table of open files and its reference counts.
--   * Memory: lab6/xv6-public/string.c, over a memory of bytes by address.
--   * Log: lab6/xv6-public/log.c, the redo log, over a disk and a buffer cache whose blocks hold values
--     of any type; the list of disk writes is kept, so that a crash is a prefix of it.
--   * Bio: lab6/xv6-public/bio.c and sleeplock.c, the list of cached blocks in the order of their use.
--   * Spinlock: lab6/xv6-public/spinlock.c, spin locks and the nesting of disabled interrupts.
--   * Syscall: lab6/xv6-public/syscall.c and part of sysproc.c, the arguments of system calls, over
--     the memory of a process.
--   * Fs: lab6/xv6-public/fs.c and fs.h. Fs/Blocks has the bitmap, Fs/Inodes the inode cache, Fs/Content
--     bmap, itrunc and iput, Fs/Transfer readi and writei, Fs/Directory dirlookup and dirlink, Fs/Paths
--     skipelem and namex, Fs/Calls the calls of sysfile.c that change directories. `Volume` is the
--     disk, as the log and the buffer cache show it, with the inode cache; a log_write is a change
--     of it. The table of devices is a parameter. One process runs: where it would sleep on an
--     inode it stops with `sleeps_locked`.
--   * Files: lab6/xv6-public/file.c, pipe.c and sysfile.c, the open files of one process over Pipe,
--     FileTable, Fs and Kalloc. `Kernel` has the table of files, the descriptors, the pipes by the
--     address of their page, the memory and the volume. Files has fileclose with what it closes,
--     fileread, filewrite, filestat and pipealloc, Files/Calls the calls on descriptors once their
--     arguments are fetched. What other processes refer to is the argument `held` of the counts.
--   * Grep: lab6/xv6-public/grep.c, the matcher and the loop over the input.
--   * Server: lab4/server-mt.cpp, the queue between the main thread and the workers. A state has the
--     statement that each thread is at; `step` is the step of one thread, and `Reaches` a sequence of
--     steps. `enqueue` and `dequeue` are one step each, so the runs in which main, which takes no lock
--     for an unbounded queue, races with a worker inside of them are not modelled. Where accept, or a
--     read or open of a worker, fails, the server exits, and a run is one up to there.
--   * Shell: lab3/src/client-shell.c, the words of a line and the choice of the command.
--   * Sh: lab6/xv6-public/sh.c, the parser of the shell, on the bytes of the line that are left. Sh/Print
--     writes a command out as a line. Sh/Wiring has the calls on descriptors that the
--     children of a pipe make, over Files.
--   * Prelude: shared names, lists and tests on native numbers; Prelude/Outcome is the sequencing
--     of steps that may panic, Prelude/Outcome/Keeps invariants along it.
--   * Tests: concrete states, and the theorems at these.
--
-- Kernel code is a function from a state to an outcome: a result with the new state, or `stop` with
-- the reason. `panic`, an index outside of an array and a null pointer are reasons. A function that
-- holds a lock from its start to its end is one step; where a process sleeps, the function returns
-- and says what is left to do. Machine words are native numbers with `% 2 ^ 32` where the code wraps.
--
-- Loops over lists and over counters are structural. The other loops run on a number of rounds, and
-- give `Stop.out_of_fuel` when it is used up. mappages has the number of pages from its first
-- address to its last, allocuvm, deallocuvm and copyuvm the size in pages and two, freerange its end
-- in pages and one, copyout a round for each byte; each round moves on by a page at least, or by a
-- byte. The statements below say for which arguments they are enough. strlen looks at as many bytes
-- as it is told. readi and writei have a round for each byte, dirlookup and dirlink two more than the
-- directory has entries, namex one more than the path has bytes, and the inner loop of grep one more
-- than the buffer has bytes. filewrite has a round for each byte and one more, the parser of the
-- shell a round and a nested call for each byte of the line and one more.
--
-- Not modelled: the TLB, the segment registers and the other device registers; output; traps and
-- exec; loaduvm, procdump, getcallerpcs, pinit, initlog, fileinit, iinit and readsb; mkfs.c; the
-- rest of runcmd of the shell, and the user programs other than grep; the copies of bytes between
-- the kernel and a process in calls on descriptors; sockets, and the programs of labs 2 to 4 that
-- are calls of the host system throughout. The other files of lab5 are those of lab6 without
-- copy-on-write. The checks of locks and interrupts in `sched` are left out, for locks are
-- modelled apart, in Spinlock.
pub mod Prelude
pub mod Kalloc
pub mod Vm
pub mod Proc
pub mod Sched
pub mod Bio
pub mod Pipe
pub mod Memory
pub mod Log
pub mod FileTable
pub mod Spinlock
pub mod Syscall
pub mod Fs
pub mod Files
pub mod Grep
pub mod Server
pub mod Shell
pub mod Sh
pub mod Tests
