-- ===== src/Kalloc.antt =====
-- lab6/xv6-public/kalloc.c: the physical page allocator and the reference counts of
-- copy-on-write fork, and the address macros of memlayout.h and mmu.h.
pub mod FreeList
pub mod Range
use cs333_os_labs.Prelude.{
  Bool, List, Option, [], false, if◌then◌else◌, leb, ltb, none, not, some, suc, true, zero, ℕ, ◌%◌,
  ◌*◌, ◌+◌, ◌-◌, ◌/◌, ◌==◌, ◌^◌, ◌||◌, ◌∷◌,
}
use cs333_os_labs.Prelude.Outcome.{
  Outcome, Stop, branch, done, halt, modify, pure, read, require, ◌>>=◌, ◌>>◌,
}

abbrev pub uint_mod : ℕ
uint_mod = 2 ^ 32

abbrev pub pgsize : ℕ
pgsize = 4096

abbrev pub kernbase : ℕ
kernbase = 0x80000000

abbrev pub phystop : ℕ
phystop = 0xE000000

-- `N_FRAMES`, the length of `rtable.cnt`.
abbrev pub n_frames : ℕ
n_frames = phystop / pgsize

abbrev pub v2p : ℕ → ℕ
v2p a = (a + uint_mod - kernbase) % uint_mod

abbrev pub p2v : ℕ → ℕ
p2v a = (a + kernbase) % uint_mod

-- `V2P(va) >> PGSHIFT`, the number of the physical page behind a kernel address.
abbrev pub frame_of : ℕ → ℕ
frame_of va = v2p va / pgsize

abbrev pub pg_round_up : ℕ → ℕ
pg_round_up a = (a + pgsize - 1) % uint_mod / pgsize * pgsize

abbrev pub pg_round_down : ℕ → ℕ
pg_round_down a = a / pgsize * pgsize

-- `pte_t` and `pde_t`: the address field and the flag bits that the code tests. `other` holds the
-- flag bits 3 to 11.
pub record Pte : Type 0 where
  pub frame : ℕ
  pub present : Bool
  pub writable : Bool
  pub user : Bool
  pub other : ℕ

abbrev pub zero_pte : Pte
zero_pte = record { frame = 0; present = false; writable = false; user = false; other = 0 }

-- The word that `memset(v, 1, PGSIZE)` leaves in a page.
abbrev pub junk_pte : Pte
junk_pte = record { frame = 0x1010; present = true; writable = false; user = false; other = 0x20 }

-- The state of `kmem` and `rtable`, and physical memory. A page is seen as bytes or as page table
-- entries; `memset` and `memmove` of a whole page act on both views.
pub record Machine : Type 0 where
  pub kend : ℕ  -- the linker's `end`
  pub kdata : ℕ  -- the linker's `data`
  pub use_lock : Bool
  pub freelist : List ℕ
  pub freepg_cnt : ℕ
  pub cnt : ℕ → ℕ
  pub bytes : ℕ → ℕ → ℕ
  pub entry : ℕ → ℕ → Pte

abbrev pub M : Type 0 → Type 0
M A = Machine → Outcome (A × Machine)

abbrev pub update {ℓ} : {A : Type ℓ} → (ℕ → A) → ℕ → A → ℕ → A
update f k v j = if k == j then v else f j

unfoldable init_rtable : Machine → Machine
init_rtable s = record s { cnt = λ _. 0 }

unfoldable pub incr_rtable : ℕ → M (Unit {0})
incr_rtable va = do
  require (ltb (frame_of va) n_frames) Stop.out_of_bounds
  modify (λ s. record s { cnt = update s.cnt (frame_of va) ((s.cnt (frame_of va) + 1) % uint_mod) })

unfoldable pub decr_rtable : ℕ → M (Unit {0})
decr_rtable va = do
  require (ltb (frame_of va) n_frames) Stop.out_of_bounds
  modify (λ s. record s {
    cnt = update s.cnt (frame_of va) ((s.cnt (frame_of va) + uint_mod - 1) % uint_mod);
  })

unfoldable pub pref_count : ℕ → M ℕ
pref_count va = do
  require (ltb (frame_of va) n_frames) Stop.out_of_bounds
  read (λ s. s.cnt (frame_of va))

unfoldable pub iszero_rtable : ℕ → M Bool
iszero_rtable va = do c ← pref_count va; pure (c == 0)

unfoldable pub isone_rtable : ℕ → M Bool
isone_rtable va = do c ← pref_count va; pure (c == 1)

-- `memset` of a whole page with 0, and with 1.
unfoldable pub zero_page : ℕ → Machine → Machine
zero_page va s = record s {
  bytes = update s.bytes (frame_of va) (λ _. 0);
  entry = update s.entry (frame_of va) (λ _. zero_pte);
}

unfoldable pub junk_page : ℕ → Machine → Machine
junk_page va s = record s {
  bytes = update s.bytes (frame_of va) (λ _. 1);
  entry = update s.entry (frame_of va) (λ _. junk_pte);
}

-- The link that a free page holds in its first word is kept in the list, not in the page.
unfoldable pub push_free : ℕ → Machine → Machine
push_free v s = record s { freelist = v ∷ s.freelist; freepg_cnt = (s.freepg_cnt + 1) % uint_mod }

-- The test at the head of `kfree`.
unfoldable pub bad_page : ℕ → ℕ → Bool
bad_page kend v = not (v % pgsize == 0) || ltb v kend || leb phystop (v2p v)

unfoldable pub kfree : ℕ → M (Unit {0})
kfree v = do
  bad ← read (λ s. bad_page s.kend v)
  require (not bad) Stop.bad_kfree
  z ← iszero_rtable v
  branch z (modify (λ s. push_free v (junk_page v s))) (pure tt)

unfoldable pub kalloc : M (Option ℕ)
kalloc s = elim s.freelist [
  | [] ↦ done (none, s)
  | r ∷ rest ↦
      done (
        some r,
        record s { freelist = rest; freepg_cnt = (s.freepg_cnt + uint_mod - 1) % uint_mod },
      )
]

unfoldable pub count_freepg : M ℕ
count_freepg s = done (s.freepg_cnt, s)

-- The loop of `freerange`, a round for each page.
unfoldable pub freerange_loop : ℕ → ℕ → ℕ → M (Unit {0})
freerange_loop zero p vend = halt Stop.out_of_fuel
freerange_loop (suc fuel) p vend =
    let rest = freerange_loop fuel ((p + pgsize) % uint_mod) vend in
    branch (leb ((p + pgsize) % uint_mod) vend) (do kfree p; rest) (pure tt)

-- `vend / PGSIZE + 1` rounds are enough (`Kalloc.Range`).
unfoldable pub freerange : ℕ → ℕ → M (Unit {0})
freerange vstart vend = freerange_loop (vend / pgsize + 1) (pg_round_up vstart) vend

unfoldable kinit1 : ℕ → ℕ → M (Unit {0})
kinit1 vstart vend = do modify (λ s. record s { use_lock = false }); freerange vstart vend

unfoldable kinit2 : ℕ → ℕ → M (Unit {0})
kinit2 vstart vend = do freerange vstart vend; modify (λ s. record s { use_lock = true })
