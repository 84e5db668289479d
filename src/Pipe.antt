-- ===== src/Pipe.antt =====
-- lab6/xv6-public/pipe.c: the pipe buffer. A call runs under the pipe's lock up to its end or to a
-- `sleep`; where it sleeps, the result says what is left to do, and the caller goes on from there
-- when it is woken.
pub mod Queue
use cs333_os_labs.Kalloc.{uint_mod}
use cs333_os_labs.Prelude.{
  Bool, List, [], false, get_or, if◌then◌else◌, not, set, suc, true, zero, ℕ, ◌%◌, ◌&&◌, ◌+◌, ◌==◌,
  ◌||◌, ◌∷◌,
}

-- The two channels of a pipe, `&p->nread` and `&p->nwrite`.
pub data End : Type 0 where
  nread_chan nwrite_chan : End

pub record Pipe : Type 0 where
  pub buf : List ℕ
  pub nread : ℕ
  pub nwrite : ℕ
  pub readopen : Bool
  pub writeopen : Bool

abbrev pub pipesize : ℕ
pipesize = 512

-- What `pipealloc` writes into the page that it gets; `page` is the page's old content.
unfoldable pub pipe_init : List ℕ → Pipe
pipe_init page = record { buf = page; nread = 0; nwrite = 0; readopen = true; writeopen = true }

-- `pipeclose`: the pipe, the channel that it wakes, and whether the page is freed.
unfoldable pub pipeclose : Bool → Pipe → Pipe × End × Bool
pipeclose writable p =
    if writable
    then (record p { writeopen = false }, nread_chan, not p.readopen)
    else (record p { readopen = false }, nwrite_chan, not p.writeopen)

abbrev pub is_full : Pipe → Bool
is_full p = p.nwrite == (p.nread + pipesize) % uint_mod

-- `p->data[p->nwrite++ % PIPESIZE] = x`
abbrev pub put : ℕ → Pipe → Pipe
put x p = record p { buf = set p.buf (p.nwrite % pipesize) x; nwrite = (p.nwrite + 1) % uint_mod }

-- `write_sleeping rest`: readers were woken, and `rest` is still to be written.
pub data Written : Type 0 where
  all_written write_failed : Written
  write_sleeping : List ℕ → Written

-- The loop of `pipewrite` over the bytes from `addr[i]` on. Every way out of it but the failure
-- wakes the readers.
unfoldable pub pipewrite : Bool → List ℕ → Pipe → Pipe × Written
pipewrite killed [] p = (p, all_written)
pipewrite killed (x ∷ xs) p =
    let rest = pipewrite killed xs (put x p) in
    if is_full p
    then if not p.readopen || killed then (p, write_failed) else (p, write_sleeping (x ∷ xs))
    else rest

pub data ReadResult : Type 0 where
  bytes : List ℕ → ReadResult
  read_failed read_sleeping : ReadResult

-- The copying loop of `piperead`, for at most `n` bytes.
unfoldable pub copy_out : ℕ → Pipe → List ℕ × Pipe
copy_out zero p = ([], p)
copy_out (suc n) p =
    let (xs, q) = copy_out n (record p { nread = (p.nread + 1) % uint_mod }) in
    if p.nread == p.nwrite then ([], p) else (get_or p.buf (p.nread % pipesize) 0 ∷ xs, q)

-- `piperead`, one round of its waiting loop. A read that returns bytes wakes the writers.
unfoldable pub piperead : Bool → ℕ → Pipe → Pipe × ReadResult
piperead killed n p =
    if p.nread == p.nwrite && p.writeopen
    then (p, if killed then read_failed else read_sleeping)
    else (let (xs, q) = copy_out n p in (q, bytes xs))
