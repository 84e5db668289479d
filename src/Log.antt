-- ===== src/Log.antt =====
-- lab6/xv6-public/log.c: the redo log of the file system. A block's content is a value of `B`; the
-- header block of the log is the list of block numbers that it holds, so `lh.n` is the list's
-- length. The buffer cache gives a block as it was last written or modified, and the disk's block
-- if it is not cached. `trace` lists the writes that reached the disk, in order.
pub mod Commit
pub mod Crash
pub mod Space
use cs333_os_labs.Prelude.{
  Bool, List, Option, [], false, if◌then◌else◌, leb, length, ltb, none, some, true, ℕ, ◌*◌, ◌++◌,
  ◌+◌, ◌-◌, ◌==◌, ◌||◌, ◌∷◌,
}

pub record Disk (B : Type 0) : Type 0 where
  pub head : List ℕ
  pub blocks : ℕ → B

pub data DiskWrite (B : Type 0) : Type 0 where
  to_block : ℕ → B → DiskWrite B
  to_head : List ℕ → DiskWrite B

pub record Store (B : Type 0) : Type 0 where
  pub cache : ℕ → Option B
  pub disk : Disk B
  pub trace : List (DiskWrite B)

pub record Log : Type 0 where
  pub start : ℕ
  pub size : ℕ
  pub outstanding : ℕ
  pub committing : Bool
  pub lh : List ℕ

abbrev pub maxopblocks : ℕ
maxopblocks = 10

abbrev pub logsize : ℕ
logsize = maxopblocks * 3

abbrev pub put_at {ℓ} : {A : Type ℓ} → (ℕ → A) → ℕ → A → ℕ → A
put_at f k v j = if k == j then v else f j

module _ {B : Type 0} where
  abbrev pub apply_write : DiskWrite B → Disk B → Disk B
  apply_write (to_block b v) d = record d { blocks = put_at d.blocks b v }
  apply_write (to_head bs) d = record d { head = bs }

  abbrev or_disk : Option B → B → B
  or_disk none v = v
  or_disk (some v) w = v

  -- What `bread(dev, b)->data` holds.
  abbrev pub bread : ℕ → Store B → B
  bread b s = or_disk (s.cache b) (s.disk.blocks b)

  -- `bwrite` of a buffer whose data has become `v`.
  abbrev pub bwrite : ℕ → B → Store B → Store B
  bwrite b v s = record {
    cache = put_at s.cache b (some v);
    disk = apply_write (to_block b v) s.disk;
    trace = s.trace ++ (to_block b v ∷ []);
  }

  unfoldable pub write_head : List ℕ → Store B → Store B
  write_head lh s = record s {
    disk = apply_write (to_head lh) s.disk;
    trace = s.trace ++ (to_head lh ∷ []);
  }

  -- The loops of `write_log` and `install_trans`, from `tail` on.
  unfoldable pub write_log : ℕ → ℕ → List ℕ → Store B → Store B
  write_log start tail [] s = s
  write_log start tail (b ∷ bs) s =
      write_log start (tail + 1) bs (bwrite (start + tail + 1) (bread b s) s)

  unfoldable pub install_trans : ℕ → ℕ → List ℕ → Store B → Store B
  install_trans start tail [] s = s
  install_trans start tail (b ∷ bs) s =
      install_trans start (tail + 1) bs (bwrite b (bread (start + tail + 1) s) s)

  -- `commit`, for the blocks `lh` of the transaction.
  unfoldable pub commit : ℕ → List ℕ → Store B → Store B
  commit start lh s =
      if ltb 0 (length lh)
      then write_head [] (install_trans start 0 lh (write_head lh (write_log start 0 lh s)))
      else s

  -- The state after a crash: what is on the disk, and nothing in the cache.
  abbrev pub reboot : Disk B → Store B
  reboot d = record { cache = λ b. none; disk = d; trace = [] }

  -- `recover_from_log`
  unfoldable pub recover_from_log : ℕ → Store B → Store B
  recover_from_log start s = write_head [] (install_trans start 0 s.disk.head s)

-- What `begin_op` does in one round: it goes on, or sleeps on the log.
unfoldable pub begin_op : Log → Option Log
begin_op l =
    if l.committing
    then none
    else if ltb logsize (length l.lh + (l.outstanding + 1) * maxopblocks)
    then none
    else some (record l { outstanding = l.outstanding + 1 })

pub data EndOp : Type 0 where
  committing_panic : EndOp
  commits : Log → EndOp
  wakes : Log → EndOp

-- The part of `end_op` under the lock: whether this call has to commit. `outstanding` is positive,
-- for the call follows a `begin_op`.
unfoldable pub end_op : Log → EndOp
end_op l =
    if l.committing
    then committing_panic
    else if l.outstanding - 1 == 0
    then commits (record l { outstanding = 0; committing = true })
    else wakes (record l { outstanding = l.outstanding - 1 })

-- The end of `end_op` after `commit`, which empties the header.
unfoldable pub finish_commit : Log → Log
finish_commit l = record l { lh = []; committing = false }

abbrev pub contains : ℕ → List ℕ → Bool
contains b [] = false
contains b (c ∷ cs) = c == b || contains b cs

pub data LogWrite : Type 0 where
  too_big outside_trans : LogWrite
  logged : Log → LogWrite

-- `log_write` of block `b`; the buffer is marked dirty by the caller's store.
unfoldable pub log_write : ℕ → Log → LogWrite
log_write b l =
    if leb logsize (length l.lh) || leb l.size (length l.lh + 1)
    then too_big
    else if l.outstanding == 0
    then outside_trans
    else logged (record l { lh = if contains b l.lh then l.lh else l.lh ++ (b ∷ []) })
