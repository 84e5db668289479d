-- ===== src/Files/Write.antt =====
-- lab6/xv6-public/file.c, filewrite of an inode, with ilock, writei and iunlock of fs.c.
pub mod Chunks
pub mod ReadBack
use cs333_os_labs.Bio.{acquiresleep, holdingsleep, releasesleep, unlocked}
use cs333_os_labs.FileTable.{File}
use cs333_os_labs.Files.{Kernel, advance, in_volume, load_file, write_chunk}
use cs333_os_labs.Files.Counts.Steps.{edit_file_at}
use cs333_os_labs.Fs.{Inode, V, Volume, bsize, t_dev}
use cs333_os_labs.Fs.Content.Blockmap.{IsAllocated}
use cs333_os_labs.Fs.Inodes.{edit_inode, ilock, iunlock, load_inode, lock_with, read_inode}
use cs333_os_labs.Fs.Transfer.{Devsw, writei}
use cs333_os_labs.Fs.Transfer.File.{get_elem?-edit_nth, grown, writei_lem}
use cs333_os_labs.Fs.Transfer.Update.{Writes}
use cs333_os_labs.Kalloc.{uint_mod}
use cs333_os_labs.Prelude.{
  List, ap, arith, get_elem?, length, refl, set, some, sym, true, ℕ, ◌%◌, ◌*◌, ◌+◌, ◌<◌, ◌∙◌, ◌≡◌,
  ◌≢◌, ◌≤◌,
}
use cs333_os_labs.Prelude.Outcome.{bind_done, code, done, returns, then_done}

-- The file `f` of the slot `i` is open on the inode `x`, whose first `n` blocks are allocated.
pub record IsOpenOn (i n : ℕ) (k : Kernel) (f : File) (x : Inode) : Type 0 where
  pub at_file : get_elem? k.files i ≡ some f
  pub at_inode : get_elem? k.volume.icache f.ip ≡ some x
  pub referenced : 0 < x.ref
  pub valid : x.valid ≡ true
  pub free : x.lock ≡ unlocked
  pub plain : x.copy.type ≢ t_dev
  pub allocated : IsAllocated k.volume.bytes x.copy.addrs n
  pub sized : x.copy.size ≤ n * bsize
  pub inside : f.off ≤ x.copy.size

abbrev pub locked_by : ℕ → Inode → Inode
locked_by me x = record x { lock = record { locked = true; pid = me } }

pub in_volume_done :
    {A : Type 0} (m : V A) (k : Kernel) {a : A} {v : Volume}
    → m k.volume ≡ done (a, v)
    → in_volume m k ≡ done (a, record k { volume = v })
unfolding in_volume
in_volume_done m k e = rw (in_volume, e) refl

pub ilock_free :
    (me ip : ℕ) (v : Volume) (x : Inode)
    → get_elem? v.icache ip ≡ some x
    → 0 < x.ref
    → x.valid ≡ true
    → x.lock ≡ unlocked
    → ilock me ip v
      ≡ done (tt, edit_inode ip (λ y. record y { lock = record { locked = true; pid = me } }) v)
unfolding ilock load_inode lock_with read_inode acquiresleep code
ilock_free me ip v x at r valid free = ground (arith, at, valid, free)

pub iunlock_held :
    (ip : ℕ) (v : Volume) (x : Inode)
    → get_elem? v.icache ip ≡ some x
    → 0 < x.ref
    → x.lock.locked ≡ true
    → iunlock ip v ≡ done (tt, edit_inode ip (λ y. record y { lock = unlocked }) v)
unfolding iunlock load_inode holdingsleep releasesleep code
iunlock_held ip v x at r held = ground (arith, at, held)

module _ (devsw : Devsw) (me i : ℕ) (k : Kernel) (f : File)
    (at : get_elem? k.files i ≡ some f) where
  pub load_file_at :
      (v : Volume) → load_file i (record k { volume = v }) ≡ done (f, record k { volume = v })
  unfolding load_file
  load_file_at v = rw (load_file, at) refl

  pub advanced :
      (m : ℕ) (v : Volume)
      → f.off + m < uint_mod
      → advance i (some m) (record k { volume = v })
        ≡ done (tt, record k { volume = v; files = set k.files i (record f { off = f.off + m }) })
  unfolding advance code
  advanced m v small =
      let e : (f.off + m) % uint_mod ≡ f.off + m = omega arith in
      ap (λ t. done (tt, t)) (edit_file_at i (record k { volume = v }) f _ at)
      ∙ ap (λ a. done (tt, record k { volume = v; files = set k.files i (record f { off = a }) })) e

  write_chunk_run :
      (xs : List ℕ) (m : ℕ) (v w u : Volume)
      → ilock me f.ip k.volume ≡ done (tt, v)
      → writei devsw f.ip f.off xs v ≡ done (some m, w)
      → iunlock f.ip w ≡ done (tt, u)
      → f.off + m < uint_mod
      → write_chunk devsw me i f.ip xs k
        ≡ done
            (some m, record k { volume = u; files = set k.files i (record f { off = f.off + m }) })
  unfolding write_chunk
  write_chunk_run xs m v w u locks writes unlocks small =
      let l = record k { volume = w; files = set k.files i (record f { off = f.off + m }) } in
      then_done (in_volume (ilock me f.ip)) _ (in_volume_done (ilock me f.ip) k locks)
      ∙ bind_done (load_file i) _ (load_file_at v)
      ∙ bind_done (in_volume (writei devsw f.ip f.off xs)) _
          (in_volume_done (writei devsw f.ip f.off xs) (record k { volume = v }) writes)
      ∙ then_done (advance i (some m)) _ (advanced m w small)
      ∙ then_done (in_volume (iunlock f.ip)) _ (in_volume_done (iunlock f.ip) l unlocks)
      ∙ returns (some m) (record l { volume = u })

-- What a write of `xs` through the file leaves behind.
pub record Wrote (i n : ℕ) (xs : List ℕ) (k : Kernel) (f : File) (x : Inode) (t : Kernel)
    : Type 0 where
  pub array : Writes k.volume.bytes t.volume.bytes x.copy.addrs n f.off xs
  pub files : t.files ≡ set k.files i (record f { off = f.off + length xs })
  pub inode : get_elem? t.volume.icache f.ip ≡ some (grown x (length xs) (f.off + length xs))

module _ (devsw : Devsw) (me i n : ℕ) (k : Kernel) (f : File) (x : Inode) (h : IsOpenOn i n k f x)
    (small : n * bsize < uint_mod) where
  pub write_chunk_lem :
      (xs : List ℕ)
      → f.off + length xs ≤ n * bsize
      → (t : Kernel) × (write_chunk devsw me i f.ip xs k ≡ done (some (length xs), t))
        × Wrote i n xs k f x t
  unfolding write_chunk
  write_chunk_lem xs fits =
      let ip = f.ip in
      let lock = λ (y : Inode). locked_by me y in
      let v0 = edit_inode ip lock k.volume in
      let at0 = get_elem?-edit_nth ip lock k.volume.icache x h.at_inode in
      let (w, run, there, r) =
        writei_lem devsw ip n v0 (lock x) at0 h.plain h.allocated h.sized f.off xs h.inside fits in
      let y = grown (lock x) (length xs) (f.off + length xs) in
      let v1 = edit_inode ip (λ z. record z { lock = unlocked }) w in
      let at1 = get_elem?-edit_nth ip (λ z. record z { lock = unlocked }) w.icache y there in
      let g = record f { off = f.off + length xs } in
      let free = h.free in
      let same : record y { lock = unlocked } ≡ grown x (length xs) (f.off + length xs) =
        ap (λ a. record (grown x (length xs) (f.off + length xs)) { lock = a }) (sym free) in
      (
        record k { volume = v1; files = set k.files i g },
        write_chunk_run devsw me i k f h.at_file xs (length xs) v0 w v1
            (ilock_free me ip k.volume x h.at_inode h.referenced h.valid h.free) run
            (iunlock_held ip w y there h.referenced refl) (omega (arith, small)),
        record { array = r; files = refl; inode = at1 ∙ ap some same },
      )
