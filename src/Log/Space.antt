-- ===== src/Log/Space.antt =====
-- lab6/xv6-public/log.c: the space of the log, in begin_op and log_write.
use cs333_os_labs.Log.{Log, begin_op, contains, log_write, logged, logsize, maxopblocks}
use cs333_os_labs.Prelude.{
  List, [], arith, false, if◌then◌else◌, length, length-append, some, true, ℕ, ◌*◌, ◌++◌, ◌+◌, ◌<◌,
  ◌==◌, ◌||◌, ◌∷◌, ◌≡◌, ◌≢◌, ◌≤◌,
}

-- The blocks that are logged and those that the running operations may still log fit the log.
abbrev pub Fits : Log → Type 0
Fits l = length l.lh + l.outstanding * maxopblocks ≤ logsize

-- begin_op admits an operation only if no commit is going on and the log has room for ten blocks
-- of it beside those logged and those of the operations that run, of which there are then at most
-- three.
begin_op-Fits :
    (l l' : Log) → begin_op l ≡ some l' → Fits l' × (l'.outstanding ≤ 3) × (l.committing ≡ false)
unfolding begin_op
begin_op-Fits l l' h = ground arith

contains-append : (b c : ℕ) (bs : List ℕ) → contains c (bs ++ (b ∷ [])) ≡ (contains c bs || b == c)
contains-append b c [] = ground arith
contains-append b c (x ∷ bs) = ground (arith, contains-append b c bs)

-- Where log_write succeeds, the block is in the header afterwards, every other block is in it as
-- before, the header grows by one block at most and only by a block that it lacked, and it stays
-- within the size of the log.
log_write_lem :
    (b : ℕ) (l l' : Log)
    → log_write b l ≡ logged l'
    → (contains b l'.lh ≡ true)
      × ((c : ℕ) → c ≢ b → contains c l'.lh ≡ contains c l.lh)
      × (length l'.lh ≡ (if contains b l.lh then length l.lh else length l.lh + 1))
      × (length l'.lh ≤ logsize)
      × (length l'.lh < l.size)
unfolding log_write
log_write_lem b l l' h = (
  ground (arith, contains-append b b l.lh),
  λ c ne. ground (arith, contains-append b c l.lh),
  ground (arith, length-append l.lh (b ∷ [])),
  ground (arith, length-append l.lh (b ∷ [])),
  ground (arith, length-append l.lh (b ∷ [])),
)
