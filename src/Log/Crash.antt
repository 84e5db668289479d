-- ===== src/Log/Crash.antt =====
-- lab6/xv6-public/log.c: a crash at any point of a commit, and the recovery from it.
use cs333_os_labs.Log.{
  Disk, DiskWrite, Store, apply_write, bread, bwrite, commit, contains, install_trans, put_at,
  reboot, recover_from_log, to_block, to_head, write_head,
}
use cs333_os_labs.Log.Commit.{
  Holds, Holds-bwrite, IsHome, apply_all, commit-trace, commit_writes, install_writes, log_writes,
}
use cs333_os_labs.Prelude.{
  All, List, [], ap, arith, false, if◌then◌else◌, inl, inr, length, refl, subst, suc, sym, take,
  true, zero, ℕ, ◌++◌, ◌+◌, ◌∙◌, ◌∷◌, ◌≡◌, ◌≢◌, ◌≤◌, ◌⊎◌,
}

-- `Q` holds of every disk that a list of writes goes through.
abbrev AllDisks : {B : Type 0} → (Disk B → Type 0) → List (DiskWrite B) → Disk B → Type 0
AllDisks Q [] d = Q d
AllDisks Q (w ∷ ws) d = Q d × AllDisks Q ws (apply_write w d)

AllDisks-append :
    {B : Type 0} (Q : Disk B → Type 0) (xs ys : List (DiskWrite B)) (d : Disk B)
    → AllDisks Q xs d
    → AllDisks Q ys (apply_all xs d)
    → AllDisks Q (xs ++ ys) d
AllDisks-append Q [] ys d h k = k
AllDisks-append Q (x ∷ xs) ys d h k = (h.0, AllDisks-append Q xs ys (apply_write x d) h.1 k)

AllDisks-take :
    {B : Type 0} (Q : Disk B → Type 0) (n : ℕ) (ws : List (DiskWrite B)) (d : Disk B)
    → AllDisks Q ws d
    → Q (apply_all (take n ws) d)
AllDisks-take Q zero [] d h = h
AllDisks-take Q zero (w ∷ ws) d h = h.0
AllDisks-take Q (suc n) [] d h = h
AllDisks-take Q (suc n) (w ∷ ws) d h = AllDisks-take Q n ws (apply_write w d) h.1

module _ {B : Type 0} (start last : ℕ) (v : ℕ → B) (old : ℕ → B) (bs : List ℕ)
    (fits : start + length bs ≤ last) (homes : All (IsHome start last v) bs) where
  -- The content of a block once the transaction is done.
  abbrev pub new : ℕ → B
  new a = if contains a bs then v a else old a

  abbrev pub SameHome : (ℕ → B) → Disk B → Type 0
  SameHome f d = (a : ℕ) → IsHome start last v a → d.blocks a ≡ f a

  -- After recovery the log is empty, and the blocks are all as before the transaction or all as
  -- after it.
  abbrev pub Recovers : Disk B → Type 0
  Recovers d =
      let r = recover_from_log start (reboot d) in
      (r.disk.head ≡ []) × (SameHome old r.disk ⊎ SameHome new r.disk)

  -- Before the header is written: the log is empty and the blocks are the old ones.
  abbrev Before : Disk B → Type 0
  Before d = (d.head ≡ []) × SameHome old d

  Before-Recovers : (d : Disk B) → Before d → Recovers d
  unfolding recover_from_log write_head install_trans
  Before-Recovers d (empty, kept) = rw empty (refl, inl kept)

  Before-log_writes :
      (cs : List ℕ) (tail : ℕ) (d : Disk B)
      → start + tail + length cs ≤ last
      → Before d
      → AllDisks Recovers (log_writes start last v tail cs) d
        × Before (apply_all (log_writes start last v tail cs) d)
  Before-log_writes [] tail d l h = (Before-Recovers d h, h)
  Before-log_writes (c ∷ cs) tail d l h =
      let (all, after) = Before-log_writes cs (tail + 1) d' (omega arith) (h.0, keeps) in
      ((Before-Recovers d h, all), after)
    where
      d' : Disk B
      d' = apply_write (to_block (start + tail + 1) (v c)) d

      keeps : SameHome old d'
      keeps a home = ground (arith, h.1 a home)

  -- The log of the disk holds the contents of the blocks `cs` from `tail` on.
  abbrev OnDisk : ℕ → List ℕ → Disk B → Type 0
  OnDisk tail cs d = Holds start last v tail cs (reboot d)

  log_writes_low :
      (cs : List ℕ) (tail a : ℕ) (d : Disk B)
      → a ≤ start + tail
      → (apply_all (log_writes start last v tail cs) d).blocks a ≡ d.blocks a
  log_writes_low [] tail a d l = refl
  log_writes_low (c ∷ cs) tail a d l =
      log_writes_low cs (tail + 1) a (apply_write (to_block (start + tail + 1) (v c)) d)
        (omega arith)
      ∙ ground arith

  log_writes-OnDisk :
      (cs : List ℕ) (tail : ℕ) (d : Disk B)
      → OnDisk tail cs (apply_all (log_writes start last v tail cs) d)
  log_writes-OnDisk [] tail d = tt
  log_writes-OnDisk (c ∷ cs) tail d = (
    log_writes_low cs (tail + 1) (start + tail + 1) d' (omega arith) ∙ ground arith,
    log_writes-OnDisk cs (tail + 1) d',
  )
    where
      d' : Disk B
      d' = apply_write (to_block (start + tail + 1) (v c)) d

  -- `install_trans` gives the blocks the contents that the log holds for them.
  install_trans-blocks :
      (cs : List ℕ) (tail : ℕ) (s : Store B)
      → start + tail + length cs ≤ last
      → All (IsHome start last v) cs
      → Holds start last v tail cs s
      → let t = install_trans start tail cs s in
        (t.disk.head ≡ s.disk.head)
        × ((a : ℕ) → t.disk.blocks a ≡ (if contains a cs then v a else s.disk.blocks a))
  unfolding install_trans
  install_trans-blocks [] tail s l h k = (refl, λ a. refl)
  install_trans-blocks (c ∷ cs) tail s l h k =
      let x = bread (start + tail + 1) s in
      let (head, blocks) =
        install_trans-blocks cs (tail + 1) (bwrite c x s) (omega arith) h.1
          (Holds-bwrite start last v cs (tail + 1) c x s (omega arith) h.0 k.1) in
      (head, λ a. ground (arith, blocks a, k.0))

  -- Once the header is written: the log holds all, and blocks outside the transaction are old.
  abbrev Committed : Disk B → Type 0
  Committed d =
      (d.head ≡ bs)
      × OnDisk 0 bs d
      × ((a : ℕ) → IsHome start last v a → contains a bs ≡ false → d.blocks a ≡ old a)

  Committed-Recovers : (d : Disk B) → Committed d → Recovers d
  unfolding recover_from_log write_head
  Committed-Recovers d (head, holds, rest) =
      let (same_head, blocks) = install_trans-blocks bs 0 (reboot d) (omega arith) homes holds in
      rw head (refl, inr (λ a home. ground (arith, blocks a, rest a home)))

  OnDisk-home :
      (cs : List ℕ) (tail c : ℕ) (x : B) (d : Disk B)
      → start + tail + length cs ≤ last
      → IsHome start last v c
      → OnDisk tail cs d
      → OnDisk tail cs (apply_write (to_block c x) d)
  OnDisk-home [] tail c x d l h k = tt
  OnDisk-home (b ∷ cs) tail c x d l h k =
      (not_here (omega arith) ∙ k.0, OnDisk-home cs (tail + 1) c x d (omega arith) h k.1)
    where
      not_here :
          c ≢ start + tail + 1
          → put_at d.blocks c x (start + tail + 1) ≡ d.blocks (start + tail + 1)
      not_here ne = ground arith

  Committed-install_writes :
      (cs : List ℕ) (d : Disk B)
      → All (IsHome start last v) cs
      → ((a : ℕ) → contains a cs ≡ true → contains a bs ≡ true)
      → Committed d
      → AllDisks Recovers (install_writes start last v cs) d
        × Committed (apply_all (install_writes start last v cs) d)
  Committed-install_writes [] d h sub k = (Committed-Recovers d k, k)
  Committed-install_writes (c ∷ cs) d h sub (head, holds, rest) =
      let (all, after) =
        Committed-install_writes cs d' h.1 (λ a e. sub a (ground (arith, e)))
          (head, held, others) in
      ((Committed-Recovers d (head, holds, rest), all), after)
    where
      d' : Disk B
      d' = apply_write (to_block c (v c)) d

      held : OnDisk 0 bs d'
      held = OnDisk-home bs 0 c (v c) d (omega arith) h.0 holds

      others : (a : ℕ) → IsHome start last v a → contains a bs ≡ false → d'.blocks a ≡ old a
      others a home out = ground (arith, rest a home out, sub c (ground arith))

  install_writes-blocks :
      (cs : List ℕ) (d : Disk B) (a : ℕ)
      → (apply_all (install_writes start last v cs) d).blocks a
        ≡ (if contains a cs then v a else d.blocks a)
  install_writes-blocks [] d a = refl
  install_writes-blocks (c ∷ cs) d a =
      install_writes-blocks cs (apply_write (to_block c (v c)) d) a ∙ ground arith

  finished-Recovers : (d : Disk B) → SameHome new d → Recovers (apply_write (to_head []) d)
  unfolding recover_from_log write_head install_trans
  finished-Recovers d h = (refl, inr h)

  install_writes-new :
      (d : Disk B) → Committed d → SameHome new (apply_all (install_writes start last v bs) d)
  install_writes-new d (head, holds, rest) a home =
      install_writes-blocks bs d a ∙ ground (arith, rest a home)

  commit_writes-Recovers :
      (d : Disk B) → Before d → AllDisks Recovers (commit_writes start last v bs) d
  commit_writes-Recovers d before =
      AllDisks-append Recovers (log_writes start last v 0 bs) _ d phase.0 (
        Before-Recovers logged_disk phase.1,
        AllDisks-append Recovers (install_writes start last v bs) _ headed install.0 (
          Committed-Recovers (apply_all (install_writes start last v bs) headed) install.1,
          finished-Recovers (apply_all (install_writes start last v bs) headed)
              (install_writes-new headed committed),
        ),
      )
    where
      phase :
          AllDisks Recovers (log_writes start last v 0 bs) d
          × Before (apply_all (log_writes start last v 0 bs) d)
      phase = Before-log_writes bs 0 d (omega arith) before

      logged_disk : Disk B
      logged_disk = apply_all (log_writes start last v 0 bs) d

      headed : Disk B
      headed = apply_write (to_head bs) logged_disk

      head-OnDisk :
          (cs : List ℕ) (tail : ℕ) (e : Disk B)
          → OnDisk tail cs e
          → OnDisk tail cs (apply_write (to_head bs) e)
      head-OnDisk [] tail e h = tt
      head-OnDisk (c ∷ cs) tail e h = (h.0, head-OnDisk cs (tail + 1) e h.1)

      committed : Committed headed
      committed = (
        refl,
        head-OnDisk bs 0 logged_disk (log_writes-OnDisk bs 0 d),
        λ a home out. phase.1.1 a home,
      )

      install :
          AllDisks Recovers (install_writes start last v bs) headed
          × Committed (apply_all (install_writes start last v bs) headed)
      install = Committed-install_writes bs headed homes (λ a e. e) committed

  crash-Recovers :
      (d : Disk B)
      → d.head ≡ []
      → SameHome old d
      → (n : ℕ) → Recovers (apply_all (take n (commit_writes start last v bs)) d)
  crash-Recovers d empty kept n =
      AllDisks-take Recovers n (commit_writes start last v bs) d
        (commit_writes-Recovers d (empty, kept))

-- Whatever number of the disk writes that a commit makes has reached the disk when the machine
-- stops, if the commit started with an empty log on the disk and its blocks lie outside the log
-- and fit into it: the recovery leaves an empty log, and either all blocks outside the log as
-- they were on the disk before the commit, or all of them as the commit means them to be.
pub commit_crash :
    {B : Type 0} (start last b : ℕ) (bs : List ℕ) (s : Store B)
    (fits : start + length (b ∷ bs) ≤ last)
    (homes : All (IsHome start last (λ c. bread c s)) (b ∷ bs))
    → s.trace ≡ []
    → s.disk.head ≡ []
    → (n : ℕ)
    → Recovers start last
        (λ c. bread c s)
        s.disk.blocks
        (b ∷ bs)
        fits
        homes
        (apply_all (take n (commit start (b ∷ bs) s).trace) s.disk)
commit_crash {B} start last b bs s fits homes fresh empty n =
    subst
      (λ ws. Recovers start last v s.disk.blocks (b ∷ bs) fits homes (apply_all (take n ws) s.disk))
      (sym writes)
      (crash-Recovers start last v s.disk.blocks (b ∷ bs) fits homes s.disk empty (λ a home. refl)
        n)
  where
    v : ℕ → B
    v c = bread c s

    cached : (cs : List ℕ) → All (λ c. bread c s ≡ v c) cs
    cached [] = tt
    cached (c ∷ cs) = (refl, cached cs)

    writes : (commit start (b ∷ bs) s).trace ≡ commit_writes start last v (b ∷ bs)
    writes =
        commit-trace start last v b bs s fits homes (cached (b ∷ bs))
        ∙ ap (λ x. x ++ commit_writes start last v (b ∷ bs)) fresh
