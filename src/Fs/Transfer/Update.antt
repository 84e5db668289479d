-- ===== src/Fs/Transfer/Update.antt =====
-- lab6/xv6-public/fs.c, writei: how a write changes the array of bytes.
use cs333_os_labs.Fs.{Inode, Volume, bsize}
use cs333_os_labs.Fs.Content.Blockmap.{IsAllocated, block_at, bmap_present}
use cs333_os_labs.Fs.Transfer.{overwrite, write_loop}
use cs333_os_labs.Fs.Transfer.Array.{content}
use cs333_os_labs.Kalloc.{update}
use cs333_os_labs.Prelude.{
  List, [], ap, arith, drop, false, get_elem?, get_or, get_or-drop, get_or-take, if◌then◌else◌, leb,
  length, length-drop, length-take, ltb, some, suc, sym, take, true, zero, ℕ, ◌%◌, ◌&&◌, ◌*◌, ◌+◌,
  ◌-◌, ◌/◌, ◌<◌, ◌∙◌, ◌∷◌, ◌≡◌, ◌≢◌, ◌≤◌,
}
use cs333_os_labs.Prelude.Outcome.{code, done}
use Prim.Native.Nat.{min}
use native.Mathlib.Decide.{ℕ_discrete}

-- The array after the bytes `xs` have been put at `off`.
abbrev pub with_bytes : ℕ → List ℕ → (ℕ → ℕ) → ℕ → ℕ
with_bytes off xs c pos =
    if leb off pos && ltb pos (off + length xs) then get_or xs (pos - off) 0 else c pos

-- The disk after a round of writei.
abbrev written : (ℕ → ℕ → ℕ) → List ℕ → ℕ → List ℕ → ℕ → ℕ → ℕ
written β addrs off xs =
    let b = block_at β addrs (off / bsize) in update β b (overwrite (off % bsize) xs (β b))

module _ (β : ℕ → ℕ → ℕ) (addrs : List ℕ) (n off : ℕ) (xs : List ℕ) (h : IsAllocated β addrs n)
    (inside : off / bsize < n) where
  block_at-written : (a : ℕ) → block_at (written β addrs off xs) addrs a ≡ block_at β addrs a
  block_at-written a = ground (arith, h.apart (off / bsize) inside)

  written-IsAllocated : IsAllocated (written β addrs off xs) addrs n
  written-IsAllocated = record {
    in_range = h.in_range;
    present = λ a l. rw (block_at-written a) (h.present a l);
    indirect = h.indirect;
    distinct = λ a b l m ne. rw (block_at-written a, block_at-written b) (h.distinct a b l m ne);
    apart = λ a l. rw (block_at-written a) (h.apart a l);
  }

  content-written :
      length xs ≤ bsize - off % bsize
      → (pos : ℕ) → pos < n * bsize
      → content (written β addrs off xs) addrs pos ≡ with_bytes off xs (content β addrs) pos
  content-written short pos l = elim (ℕ_discrete (pos / bsize) (off / bsize)) [
    | yes e ↦ here e
    | no ne ↦ there ne
  ]
    where
      here :
          pos / bsize ≡ off / bsize
          → content (written β addrs off xs) addrs pos ≡ with_bytes off xs (content β addrs) pos
      here e =
          let k : leb off pos ≡ true → pos % bsize - off % bsize ≡ pos - off =
            λ t. ground (arith, e, t) in
          ground (arith, block_at-written (pos / bsize), e)

      there :
          pos / bsize ≢ off / bsize
          → content (written β addrs off xs) addrs pos ≡ with_bytes off xs (content β addrs) pos
      there ne =
          let other : block_at β addrs (off / bsize) ≢ block_at β addrs (pos / bsize) =
            λ e. h.distinct (pos / bsize) (off / bsize) (omega arith) inside ne (sym e) in
          let out : (leb off pos && ltb pos (off + length xs)) ≡ false = ground arith in
          rw (block_at-written (pos / bsize), out) (ground (arith, other))

with_bytes-split :
    (off m : ℕ) (xs : List ℕ) (c : ℕ → ℕ) (pos : ℕ)
    → m ≤ length xs
    → with_bytes (off + m) (drop m xs) (with_bytes off (take m xs) c) pos ≡ with_bytes off xs c pos
with_bytes-split off m xs c pos h = ground (
  arith,
  length-take m xs,
  length-drop m xs,
  get_or-take m (pos - off) xs 0,
  get_or-drop m (pos - (off + m)) xs 0,
  ap (λ k. get_or xs k 0) same_place,
)
  where
    same_place : m + (pos - (off + m)) ≡ (if leb (off + m) pos then pos - off else m)
    same_place = ground arith

-- What a loop of writes does to the disk: the array gets the bytes, and the file stays allocated.
pub record Writes (β γ : ℕ → ℕ → ℕ) (addrs : List ℕ) (n off : ℕ) (xs : List ℕ) : Type 0 where
  pub allocated : IsAllocated γ addrs n
  pub array :
      (pos : ℕ) → pos < n * bsize → content γ addrs pos ≡ with_bytes off xs (content β addrs) pos

pub Writes-nothing :
    (β : ℕ → ℕ → ℕ) (addrs : List ℕ) (n off : ℕ) → IsAllocated β addrs n → Writes β β addrs n off []
Writes-nothing β addrs n off h = record { allocated = h; array = λ pos l. ground arith }

-- A write in two parts.
pub Writes-join :
    (β γ δ : ℕ → ℕ → ℕ) (addrs : List ℕ) (n off m : ℕ) (xs : List ℕ)
    → m ≤ length xs
    → Writes β γ addrs n off (take m xs)
    → Writes γ δ addrs n (off + m) (drop m xs)
    → Writes β δ addrs n off xs
Writes-join β γ δ addrs n off m xs l first rest = record {
  allocated = rest.allocated;
  array = λ pos s.
      rest.array pos s
      ∙ ap
          (λ (a : ℕ).
            if leb (off + m) pos && ltb pos (off + m + length (drop m xs))
            then get_or (drop m xs) (pos - (off + m)) 0
            else a)
          (first.array pos s)
      ∙ with_bytes-split off m xs (content β addrs) pos l;
}

Writes-round :
    (β γ : ℕ → ℕ → ℕ) (addrs : List ℕ) (n off m : ℕ) (xs : List ℕ)
    → IsAllocated β addrs n
    → off / bsize < n
    → m ≤ length xs
    → m ≤ bsize - off % bsize
    → Writes (written β addrs off (take m xs)) γ addrs n (off + m) (drop m xs)
    → Writes β γ addrs n off xs
Writes-round β γ addrs n off m xs h inside l r =
    Writes-join β (written β addrs off (take m xs)) γ addrs n off m xs l record {
      allocated = written-IsAllocated β addrs n off (take m xs) h inside;
      array = content-written β addrs n off (take m xs) h inside (omega (arith, length-take m xs));
    }

module _ (i n : ℕ) (x : Inode) where
  pub write_loop_lem :
      (fuel off : ℕ) (xs : List ℕ) (v : Volume)
      → get_elem? v.icache i ≡ some x
      → IsAllocated v.bytes x.copy.addrs n
      → length xs ≤ fuel
      → off + length xs ≤ n * bsize
      → (γ : ℕ → ℕ → ℕ) × (write_loop fuel i off xs v
          ≡ done (off + length xs, record v { bytes = γ }))
        × Writes v.bytes γ x.copy.addrs n off xs
  unfolding write_loop code
  write_loop_lem zero off [] v at h l e =
      (v.bytes, ground arith, Writes-nothing v.bytes x.copy.addrs n off h)
  write_loop_lem (suc fuel) off [] v at h l e =
      (v.bytes, ground arith, Writes-nothing v.bytes x.copy.addrs n off h)
  write_loop_lem zero off (y ∷ ys) v at h l e = absurd (omega arith)
  write_loop_lem (suc fuel) off (y ∷ ys) v at h l e =
      let xs = y ∷ ys in
      let m = min (length xs) (bsize - off % bsize) in
      let here = bmap_present i (off / bsize) n v x at h (omega arith) in
      let β = written v.bytes x.copy.addrs off (take m xs) in
      let kept = written-IsAllocated v.bytes x.copy.addrs n off (take m xs) h (omega arith) in
      let (γ, run, w) =
        write_loop_lem fuel (off + m) (drop m xs) (record v { bytes = β }) at kept
          (omega (arith, length-drop m xs)) (omega (arith, length-drop m xs)) in
      (
        γ,
        ground (arith, here, run, length-drop m xs),
        Writes-round v.bytes γ x.copy.addrs n off m xs h (omega arith) (omega arith) (omega arith)
            w,
      )
