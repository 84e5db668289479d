-- ===== src/Bio.antt =====
-- lab6/xv6-public/bio.c and sleeplock.c: the list of cached disk blocks and the sleep locks of its
-- buffers. The list is in the order of `bcache.head.next`, the most recently used buffer first; a
-- buffer is named by its place in it. A buffer's data is not kept.
pub mod Cache
use mathlib.Core.Option
use cs333_os_labs.Kalloc.{uint_mod}
use cs333_os_labs.Prelude.{
  Bool, List, Option, [], false, if◌then◌else◌, none, not, replicate, set, some, suc, true, zero, ℕ,
  ◌%◌, ◌&&◌, ◌+◌, ◌-◌, ◌==◌, ◌∷◌,
}

pub record SleepLock : Type 0 where
  pub locked : Bool
  pub pid : ℕ

abbrev pub unlocked : SleepLock
unlocked = record { locked = false; pid = 0 }

-- One round of `acquiresleep`: `none` where the caller sleeps.
unfoldable pub acquiresleep : ℕ → SleepLock → Option SleepLock
acquiresleep me lk = if lk.locked then none else some (record { locked = true; pid = me })

unfoldable pub releasesleep : SleepLock → SleepLock
releasesleep lk = unlocked

unfoldable pub holdingsleep : SleepLock → Bool
holdingsleep lk = lk.locked

pub record Buf : Type 0 where
  pub valid : Bool
  pub dirty : Bool
  pub dev : ℕ
  pub blockno : ℕ
  pub lock : SleepLock
  pub refcnt : ℕ

abbrev pub nbuf : ℕ
nbuf = 30

abbrev empty_buf : Buf
empty_buf = record {
  valid = false;
  dirty = false;
  dev = 0;
  blockno = 0;
  lock = unlocked;
  refcnt = 0;
}

unfoldable pub binit : List Buf
binit = replicate nbuf empty_buf

abbrev pub caches : ℕ → ℕ → Buf → Bool
caches dev blockno b = b.dev == dev && b.blockno == blockno

-- The first loop of `bget`.
unfoldable pub find_cached : ℕ → ℕ → List Buf → Option (ℕ × List Buf)
find_cached dev blockno [] = none
find_cached dev blockno (b ∷ bs) =
    let later = find_cached dev blockno bs in
    if caches dev blockno b
    then some (0, record b { refcnt = (b.refcnt + 1) % uint_mod } ∷ bs)
    else Option.map (λ r. (suc r.0, b ∷ r.1)) later

abbrev pub is_free : Buf → Bool
is_free b = b.refcnt == 0 && not b.dirty

abbrev pub take_over : ℕ → ℕ → Buf → Buf
take_over dev blockno b = record b {
  dev = dev;
  blockno = blockno;
  valid = false;
  dirty = false;
  refcnt = 1;
}

-- Where the rest of the list has no buffer to recycle, the one in front is looked at.
abbrev pub recycle_front : ℕ → ℕ → Buf → List Buf → Option (ℕ × List Buf) → Option (ℕ × List Buf)
recycle_front dev blockno b bs (some r) = some (suc r.0, b ∷ r.1)
recycle_front dev blockno b bs none =
    if is_free b then some (0, take_over dev blockno b ∷ bs) else none

-- The second loop of `bget`, from the end of the list to its head.
unfoldable pub recycle : ℕ → ℕ → List Buf → Option (ℕ × List Buf)
recycle dev blockno [] = none
recycle dev blockno (b ∷ bs) = recycle_front dev blockno b bs (recycle dev blockno bs)

abbrev pub or_recycle : Option (ℕ × List Buf) → Option (ℕ × List Buf) → Option (ℕ × List Buf)
or_recycle (some r) other = some r
or_recycle none other = other

-- `bget` up to `acquiresleep`: `none` where it panics.
unfoldable pub bget : ℕ → ℕ → List Buf → Option (ℕ × List Buf)
bget dev blockno bs = or_recycle (find_cached dev blockno bs) (recycle dev blockno bs)

-- The list without its buffer `i`, and that buffer.
unfoldable pub unlink : ℕ → List Buf → Option (Buf × List Buf)
unlink i [] = none
unlink zero (b ∷ bs) = some (b, bs)
unlink (suc i) (b ∷ bs) = Option.map (λ r. (r.0, b ∷ r.1)) (unlink i bs)

abbrev pub dropped : Buf → Buf
dropped b = record b { lock = releasesleep b.lock; refcnt = (b.refcnt + uint_mod - 1) % uint_mod }

-- What `brelse` does with the buffer `i` of `bs`, which is `b`; `rest` are the others.
abbrev pub release_buf : ℕ → List Buf → Option (Buf × List Buf) → Option (List Buf)
release_buf i bs none = none
release_buf i bs (some (b, rest)) =
    if not (holdingsleep b.lock)
    then none
    else if (dropped b).refcnt == 0
    then some (dropped b ∷ rest)
    else some (set bs i (dropped b))

-- `brelse`: `none` where it panics.
unfoldable pub brelse : ℕ → List Buf → Option (List Buf)
brelse i bs = release_buf i bs (unlink i bs)
