-- ===== src/Tests/Storage.antt =====
-- The log and the buffer cache on a small disk, whose blocks hold numbers.
use cs333_os_labs.Bio.{Buf, bget}
use cs333_os_labs.Bio.Cache.{Gets, bget_lem}
use cs333_os_labs.Log.{Store, bread, commit}
use cs333_os_labs.Log.Commit.{IsHome, apply_all, commit-trace, commit_writes}
use cs333_os_labs.Log.Crash.{Recovers, commit_crash}
use cs333_os_labs.Prelude.{
  All, List, Option, [], arith, false, if◌then◌else◌, inr, length, none, refl, some, take, true, ℕ,
  ◌+◌, ◌++◌, ◌≡◌, ◌==◌, ◌∷◌, ◌≤◌,
}

-- The log starts at block 2 and ends at block 5; the operation has written blocks 7 and 9.
abbrev blocks : ℕ → ℕ
blocks b = b + 100

abbrev cached : ℕ → Option ℕ
cached b = if b == 7 then some 1 else if b == 9 then some 2 else none

abbrev store : Store ℕ
store = record { cache = cached; disk = record { head = []; blocks = blocks }; trace = [] }

abbrev content : ℕ → ℕ
content c = bread c store

abbrev written : List ℕ
written = 7 ∷ 9 ∷ []

two_fit : 2 + length written ≤ 5
two_fit = omega arith

homes : All (IsHome 2 5 content) written
homes = (inr (omega arith), (inr (omega arith), tt))

commit_crash_example :
    Recovers 2 5 content store.disk.blocks written two_fit homes
      (apply_all (take 3 (commit 2 written store).trace) store.disk)
commit_crash_example = commit_crash 2 5 7 (9 ∷ []) store two_fit homes refl refl 3

commit-trace_example :
    (commit 2 written store).trace ≡ store.trace ++ commit_writes 2 5 content written
commit-trace_example = commit-trace 2 5 content 7 (9 ∷ []) store two_fit homes (refl, (refl, tt))

abbrev buffer : ℕ → ℕ → Buf
buffer blockno refcnt = record {
  valid = true;
  dirty = false;
  dev = 1;
  blockno = blockno;
  lock = record { locked = false; pid = 0 };
  refcnt = refcnt;
}

abbrev buffers : List Buf
buffers = buffer 7 0 ∷ buffer 8 0 ∷ buffer 9 1 ∷ []

bget_lem_example : Gets 1 12 buffers (bget 1 12 buffers)
bget_lem_example = bget_lem 1 12 buffers
