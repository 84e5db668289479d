-- ===== src/Log/Commit.antt =====
-- lab6/xv6-public/log.c: the disk writes of a commit, in their order.
use cs333_os_labs.Log.{
  Disk, DiskWrite, Store, apply_write, bread, bwrite, commit, install_trans, to_block, to_head,
  write_head, write_log,
}
use cs333_os_labs.Prelude.{
  All, List, [], ap, arith, length, refl, sym, ℕ, ◌++◌, ◌+◌, ◌<◌, ◌∙◌, ◌∷◌, ◌≡◌, ◌≢◌, ◌≤◌, ◌⊎◌,
}
use mathlib.Core.List.{append-nil, append_assoc}

abbrev pub apply_all : {B : Type 0} → List (DiskWrite B) → Disk B → Disk B
apply_all [] d = d
apply_all (w ∷ ws) d = apply_all ws (apply_write w d)

-- `start` is the block of the log's header, `last` the last block of the log, and `v` the content
-- that a commit gives to a block.
module _ {B : Type 0} (start last : ℕ) (v : ℕ → B) where
  abbrev pub log_writes : ℕ → List ℕ → List (DiskWrite B)
  log_writes tail [] = []
  log_writes tail (b ∷ bs) = to_block (start + tail + 1) (v b) ∷ log_writes (tail + 1) bs

  abbrev pub install_writes : List ℕ → List (DiskWrite B)
  install_writes [] = []
  install_writes (b ∷ bs) = to_block b (v b) ∷ install_writes bs

  abbrev pub commit_writes : List ℕ → List (DiskWrite B)
  commit_writes bs = log_writes 0 bs ++ (to_head bs ∷ (install_writes bs ++ (to_head [] ∷ [])))

  -- A block outside the log.
  abbrev pub IsHome : ℕ → Type 0
  IsHome b = (b < start) ⊎ (last < b)

  -- The log holds the contents of the blocks.
  abbrev pub Holds : ℕ → List ℕ → Store B → Type 0
  Holds tail [] s = Unit
  Holds tail (b ∷ bs) s = (bread (start + tail + 1) s ≡ v b) × Holds (tail + 1) bs s

  pub bread-bwrite_ne : (a b : ℕ) (x : B) (s : Store B) → b ≢ a → bread a (bwrite b x s) ≡ bread a s
  bread-bwrite_ne a b x s h = ground arith

  Agree-bwrite :
      (bs : List ℕ) (tail : ℕ) (x : B) (s : Store B)
      → start + tail + 1 ≤ last
      → All IsHome bs
      → All (λ b. bread b s ≡ v b) bs
      → All (λ b. bread b (bwrite (start + tail + 1) x s) ≡ v b) bs
  Agree-bwrite [] tail x s l h k = tt
  Agree-bwrite (b ∷ bs) tail x s l h k = (
    bread-bwrite_ne b (start + tail + 1) x s (not_log b (h.0)) ∙ k.0,
    Agree-bwrite bs tail x s l h.1 k.1,
  )
    where
      not_log : (c : ℕ) → IsHome c → start + tail + 1 ≢ c
      not_log c hc = omega arith

  pub Holds-bwrite :
      (bs : List ℕ) (tail b : ℕ) (x : B) (s : Store B)
      → start + tail + length bs ≤ last
      → IsHome b
      → Holds tail bs s
      → Holds tail bs (bwrite b x s)
  Holds-bwrite [] tail b x s l h k = tt
  Holds-bwrite (c ∷ bs) tail b x s l h k = (
    bread-bwrite_ne (start + tail + 1) b x s (omega arith) ∙ k.0,
    Holds-bwrite bs (tail + 1) b x s (omega arith) h k.1,
  )

  -- What `write_log` does: its writes, the log's content, and no change below its part of the log.
  abbrev Logs : ℕ → List ℕ → Store B → Store B → Type 0
  Logs tail bs s t =
      (t.trace ≡ s.trace ++ log_writes tail bs)
      × Holds tail bs t
      × ((a : ℕ) → a ≤ start + tail → bread a t ≡ bread a s)

  write_log_lem :
      (bs : List ℕ) (tail : ℕ) (s : Store B)
      → start + tail + length bs ≤ last
      → All IsHome bs
      → All (λ b. bread b s ≡ v b) bs
      → Logs tail bs s (write_log start tail bs s)
  unfolding write_log
  write_log_lem [] tail s l h k = (sym (append-nil s.trace), tt, λ a below. refl)
  write_log_lem (b ∷ bs) tail s l h k =
      let s' = bwrite (start + tail + 1) (bread b s) s in
      let (traced, holds, low) =
        write_log_lem bs (tail + 1) s' (omega arith) h.1
          (Agree-bwrite bs tail (bread b s) s (omega arith) h.1 k.1) in
      (
        traced
            ∙ append_assoc s.trace (to_block (start + tail + 1) (bread b s) ∷ [])
                (log_writes (tail + 1) bs)
            ∙ ap (λ x. s.trace ++ (to_block (start + tail + 1) x ∷ log_writes (tail + 1) bs)) k.0,
        (low (start + tail + 1) (omega arith) ∙ written (start + tail + 1) b ∙ k.0, holds),
        λ a below.
            low a (omega arith) ∙ bread-bwrite_ne a (start + tail + 1) (bread b s) s (omega arith),
      )
    where
      written : (a c : ℕ) → bread a (bwrite a (bread c s) s) ≡ bread c s
      written a c = ground arith

  install_trans_trace :
      (bs : List ℕ) (tail : ℕ) (s : Store B)
      → start + tail + length bs ≤ last
      → All IsHome bs
      → Holds tail bs s
      → (install_trans start tail bs s).trace ≡ s.trace ++ install_writes bs
  unfolding install_trans
  install_trans_trace [] tail s l h k = sym (append-nil s.trace)
  install_trans_trace (b ∷ bs) tail s l h k =
      let x = bread (start + tail + 1) s in
      install_trans_trace bs (tail + 1) (bwrite b x s) (omega arith) h.1
        (Holds-bwrite bs (tail + 1) b x s (omega arith) h.0 k.1)
      ∙ append_assoc s.trace (to_block b x ∷ []) (install_writes bs)
      ∙ ap (λ y. s.trace ++ (to_block b y ∷ install_writes bs)) k.0

  Holds-write_head :
      (bs lh : List ℕ) (tail : ℕ) (s : Store B) → Holds tail bs s → Holds tail bs (write_head lh s)
  unfolding write_head
  Holds-write_head [] lh tail s k = tt
  Holds-write_head (b ∷ bs) lh tail s k = (k.0, Holds-write_head bs lh (tail + 1) s k.1)

  commit_nonempty :
      (b : ℕ) (bs : List ℕ) (s : Store B)
      → commit start (b ∷ bs) s
        ≡ write_head []
            (install_trans start 0 (b ∷ bs) (write_head (b ∷ bs) (write_log start 0 (b ∷ bs) s)))
  unfolding commit
  commit_nonempty b bs s = ground arith

  -- A commit of at least one block, whose blocks lie outside the log and fit into it, writes the
  -- log, then the header, then the blocks at home, then the empty header, with the contents that
  -- the cache has for them, and nothing else.
  pub commit-trace :
      (b : ℕ) (bs : List ℕ) (s : Store B)
      → start + length (b ∷ bs) ≤ last
      → All IsHome (b ∷ bs)
      → All (λ c. bread c s ≡ v c) (b ∷ bs)
      → (commit start (b ∷ bs) s).trace ≡ s.trace ++ commit_writes (b ∷ bs)
  unfolding write_head
  commit-trace b bs s l h k =
      let lh = b ∷ bs in
      let (log_trace, holds, low) = write_log_lem lh 0 s (omega arith) h k in
      ap (λ (t : Store B). t.trace) (commit_nonempty b bs s)
      ∙ ap (λ x. x ++ (to_head [] ∷ []))
          (install_trans_trace lh 0 (write_head lh (write_log start 0 lh s)) (omega arith) h
              (Holds-write_head lh lh 0 _ holds)
            ∙ ap (λ x. (x ++ (to_head lh ∷ [])) ++ install_writes lh) log_trace)
      ∙ regroup s.trace (log_writes 0 lh) (install_writes lh) (to_head lh) (to_head [])
    where
      regroup :
          (xs ls is : List (DiskWrite B)) (w e : DiskWrite B)
          → (((xs ++ ls) ++ (w ∷ [])) ++ is) ++ (e ∷ []) ≡ xs ++ (ls ++ (w ∷ (is ++ (e ∷ []))))
      regroup xs ls is w e = simp append_assoc
