-- ===== src/Tests/Buffers.antt =====
-- Pipes, the byte routines and the arguments of system calls on concrete data.
use cs333_os_labs.Memory.{Mem, memmove}
use cs333_os_labs.Memory.Move.{memmove_lem, moved}
use cs333_os_labs.Memory.Strings.{Terminated}
use cs333_os_labs.Pipe.{Pipe, piperead, pipewrite}
use cs333_os_labs.Pipe.Queue.{IsValid, ReadsPipe, Writes, piperead_lem, pipewrite_lem}
use cs333_os_labs.Prelude.{
  [], arith, false, if◌then◌else◌, leb, ltb, refl, replicate, true, ◌&&◌, ◌++◌, ◌+◌, ◌<◌, ◌==◌, ◌∷◌,
  ◌≡◌, ◌≤◌,
}
use cs333_os_labs.Syscall.{argint, argptr, check_ptr, fetchint}
use cs333_os_labs.Syscall.Bounds.{argptr_within}

-- A pipe about to wrap around: two bytes are in it, in the last places of the buffer.
abbrev two_bytes : Pipe
two_bytes = record {
  buf = replicate 510 0 ++ (7 ∷ 8 ∷ []);
  nread = 510;
  nwrite = 512;
  readopen = true;
  writeopen = true;
}

two_bytes-IsValid : IsValid two_bytes
two_bytes-IsValid = record {
  storage = refl;
  read_word = omega arith;
  write_word = omega arith;
  bounded = omega arith;
}

pipewrite_lem_example : Writes (1 ∷ 2 ∷ []) two_bytes (pipewrite false (1 ∷ 2 ∷ []) two_bytes)
pipewrite_lem_example = pipewrite_lem false (1 ∷ 2 ∷ []) two_bytes two_bytes-IsValid

piperead_lem_example : ReadsPipe false 5 two_bytes (piperead false 5 two_bytes)
piperead_lem_example = piperead_lem false 5 two_bytes two_bytes-IsValid

-- The bytes "ab" and a NUL at 10.
abbrev text : Mem
text a = if a == 10 then 97 else if a == 11 then 98 else if a == 12 then 0 else 120

memmove_lem_example : memmove 11 10 3 text 12 ≡ moved 11 10 3 text 12
memmove_lem_example = memmove_lem 11 10 3 12 text

text-Terminated : Terminated 10 8 text
text-Terminated = (2, omega arith, refl)

-- The second word of the stack at 32 is the address 10; the process ends at 64.
abbrev stack : Mem
stack a = if a == 36 then 10 else if leb 36 a && ltb a 40 then 0 else text a

argptr_within_example : (10 < 64) × (10 + 20 ≤ 64)
unfolding argptr check_ptr argint fetchint
argptr_within_example = argptr_within 64 32 0 20 10 stack (omega arith) refl
