-- ===== src/Fs/Blocks.antt =====
-- lab6/xv6-public/fs.c: bzero, balloc and bfree.
pub mod Allocation
use cs333_os_labs.Fs.{V}
use cs333_os_labs.Kalloc.{update}
use cs333_os_labs.Prelude.{Bool, Option, false, if◌then◌else◌, none, some, suc, true, zero, ℕ, ◌+◌}
use cs333_os_labs.Prelude.Outcome.{Stop, halt, modify, pure, read, require, ◌>>=◌, ◌>>◌}

unfoldable pub bzero : ℕ → V (Unit {0})
bzero b = modify (λ v. record v { bytes = update v.bytes b (λ _. 0) })

-- The two loops of `balloc` visit the bits of the blocks 0, 1, …, in this order; `n` are left.
unfoldable pub find_unused_block : ℕ → ℕ → (ℕ → Bool) → Option ℕ
find_unused_block zero b used = none
find_unused_block (suc n) b used =
    let rest = find_unused_block n (b + 1) used in if used b then rest else some b

unfoldable pub take_block : Option ℕ → V ℕ
take_block none = halt Stop.no_blocks
take_block (some b) = do modify (λ v. record v { used = update v.used b true }); bzero b; pure b

unfoldable pub balloc : V ℕ
balloc = do b ← read (λ v. find_unused_block v.sb.size 0 v.used); take_block b

unfoldable pub bfree : ℕ → V (Unit {0})
bfree b = do
  u ← read (λ v. v.used b)
  require u Stop.frees_free_block
  modify (λ v. record v { used = update v.used b false })
