-- ===== src/Files/Write/Chunks.antt =====
-- lab6/xv6-public/file.c, the loop of filewrite over the chunks of a write.
use cs333_os_labs.FileTable.{File, fd_inode}
use cs333_os_labs.Files.{
  Kernel, chunk_done, chunk_loop, filewrite, load_file, max_chunk, write_chunk, write_kind,
}
use cs333_os_labs.Files.Counts.{get_elem?-inside}
use cs333_os_labs.Files.Write.{IsOpenOn, Wrote, write_chunk_lem}
use cs333_os_labs.Fs.{Inode, bsize}
use cs333_os_labs.Fs.Transfer.{Devsw}
use cs333_os_labs.Fs.Transfer.File.{grown}
use cs333_os_labs.Fs.Transfer.Update.{Writes, Writes-join, Writes-nothing}
use cs333_os_labs.Kalloc.{uint_mod}
use cs333_os_labs.Pipe.{all_written}
use cs333_os_labs.Prelude.{
  ==_iff, List, [], ap, arith, drop, false, get_elem?, get_elem?-set_self, length, length-drop,
  length-take, refl, set, some, some-injective, subst, suc, sym, take, true, zero, ℕ, ◌*◌, ◌+◌, ◌<◌,
  ◌==◌, ◌∙◌, ◌∷◌, ◌≡◌, ◌≤◌,
}
use cs333_os_labs.Prelude.Outcome.{bind_done, branch_no, branch_yes, done, returns, ◌>>=◌}
use Prim.Native.Nat.{min}

set-same : {A : Type 0} (xs : List A) (i : ℕ) (a : A) → get_elem? xs i ≡ some a → set xs i a ≡ xs
set-same [] i a h = refl
set-same (x ∷ xs) zero a h = ap (λ y. y ∷ xs) (sym (some-injective x a h))
set-same (x ∷ xs) (suc i) a h = ap (λ ys. x ∷ ys) (set-same xs i a h)

set-set : {A : Type 0} (xs : List A) (i : ℕ) (a b : A) → set (set xs i a) i b ≡ set xs i b
set-set [] i a b = refl
set-set (x ∷ xs) zero a b = refl
set-set (x ∷ xs) (suc i) a b = ap (λ ys. x ∷ ys) (set-set xs i a b)

module _ (i n : ℕ) (k : Kernel) (f : File) (x : Inode) (h : IsOpenOn i n k f x) where
  Wrote-nothing : Wrote i n [] k f x k
  Wrote-nothing =
      let e : f.off + 0 ≡ f.off = omega arith in
      record {
        array = Writes-nothing k.volume.bytes x.copy.addrs n f.off h.allocated;
        files =
            sym (set-same k.files i f h.at_file)
            ∙ ap (λ a. set k.files i (record f { off = a })) (sym e);
        inode = h.at_inode;
      }

  module _ (m : ℕ) (xs : List ℕ) (l : m ≤ length xs) (t : Kernel)
      (w : Wrote i n (take m xs) k f x t) where
    abbrev moved : File
    moved = record f { off = f.off + length (take m xs) }

    abbrev longer : Inode
    longer = grown x (length (take m xs)) (f.off + length (take m xs))

    -- The rest of the bytes may be written after the first of them.
    next-IsOpenOn : f.off + length xs ≤ n * bsize → IsOpenOn i n t moved longer
    next-IsOpenOn fits = record {
      at_file =
          ap (λ fs. get_elem? fs i) w.files
          ∙ get_elem?-set_self k.files i moved (get_elem?-inside k.files i f h.at_file);
      at_inode = w.inode;
      referenced = h.referenced;
      valid = h.valid;
      free = h.free;
      plain = h.plain;
      allocated = w.array.allocated;
      sized = ground (arith, h.sized, fits, length-take m xs, l);
      inside = ground (arith, h.inside);
    }

    Wrote-join : (u : Kernel) → Wrote i n (drop m xs) t moved longer u → Wrote i n xs k f x u
    Wrote-join u r =
        let a = length-take m xs in
        let b = length-drop m xs in
        let e : f.off + length (take m xs) ≡ f.off + m = omega (arith, a, l) in
        let whole : f.off + length (take m xs) + length (drop m xs) ≡ f.off + length xs =
          omega (arith, a, b, l) in
        record {
          array =
              Writes-join k.volume.bytes t.volume.bytes u.volume.bytes x.copy.addrs n f.off m xs l
                w.array
                (subst (λ o. Writes t.volume.bytes u.volume.bytes x.copy.addrs n o (drop m xs)) e
                  r.array);
          files =
              r.files
              ∙ ap (λ fs. set fs i (record moved { off = moved.off + length (drop m xs) })) w.files
              ∙ set-set k.files i moved (record moved { off = moved.off + length (drop m xs) })
              ∙ ap (λ o. set k.files i (record f { off = o })) whole;
          inode =
              r.inode
              ∙ ap (λ s. some (record x { copy = record (x.copy) { size = s } }))
                  (ground (arith, a, b, l));
        }

module _ (devsw : Devsw) (me i n : ℕ) (small : n * bsize < uint_mod) where
  chunk_loop_step :
      (fuel ip m : ℕ) (xs : List ℕ) (k : Kernel)
      → (length xs == 0) ≡ false
      → min (length xs) max_chunk ≡ m
      → chunk_loop devsw me (suc fuel) i ip xs k
        ≡ (write_chunk devsw me i ip (take m xs)
              >>= chunk_done m (chunk_loop devsw me fuel i ip (drop m xs)))
            k
  unfolding chunk_loop
  chunk_loop_step fuel ip m xs k e same = rw (sym same) (branch_no (length xs == 0) _ _ k e)

  chunk_loop_lem :
      (fuel : ℕ) (xs : List ℕ) (k : Kernel) (f : File) (x : Inode)
      → IsOpenOn i n k f x
      → length xs < fuel
      → f.off + length xs ≤ n * bsize
      → (t : Kernel) × (chunk_loop devsw me fuel i f.ip xs k ≡ done (all_written, t))
        × Wrote i n xs k f x t
  unfolding chunk_loop chunk_done
  chunk_loop_lem zero xs k f x h l fits = absurd (omega arith)
  chunk_loop_lem (suc fuel) [] k f x h l fits =
      (k, branch_yes true _ _ k refl ∙ returns all_written k, Wrote-nothing i n k f x h)
  chunk_loop_lem (suc fuel) (y ∷ ys) k f x h l fits =
      let xs = y ∷ ys in
      let m = min (length xs) max_chunk in
      let some_bytes : m ≤ length xs = omega arith in
      let a : length (take m xs) ≡ m = length-take m xs ∙ omega arith in
      let (t, run, w) = write_chunk_lem devsw me i n k f x h small (take m xs) (omega (arith, a)) in
      let next = next-IsOpenOn i n k f x h m xs some_bytes t w fits in
      let (u, rest, r) =
        chunk_loop_lem fuel (drop m xs) t (moved i n k f x h m xs some_bytes t w)
          (longer i n k f x h m xs some_bytes t w) next (omega (arith, length-drop m xs))
          (omega (arith, a, length-drop m xs)) in
      (
        u,
        chunk_loop_step fuel f.ip m xs k (ground arith) refl
            ∙ bind_done (write_chunk devsw me i f.ip (take m xs)) _ run
            ∙ branch_yes (length (take m xs) == m) _ _ t ((==_iff (length (take m xs)) m).1 a)
            ∙ rest,
        Wrote-join i n k f x h m xs some_bytes t w u r,
      )

  -- filewrite of a plain file that is open for writing, whose inode is referenced, read in and
  -- unlocked, of bytes that end inside of the blocks that it has allocated, from an offset of at
  -- most its size, returns with all of them written, however many chunks that takes: the array of
  -- the file has the bytes from the old offset on and is as before elsewhere in these blocks, the
  -- offset is moved past them, no other open file changes, the size of the inode is the old one
  -- or the new offset, where bytes were written up to beyond it, and the inode is unlocked again.
  pub filewrite_lem :
      (xs : List ℕ) (k : Kernel) (f : File) (x : Inode)
      → IsOpenOn i n k f x
      → f.kind ≡ fd_inode
      → f.writable ≡ true
      → f.off + length xs ≤ n * bsize
      → (t : Kernel) × (filewrite devsw me i xs k ≡ done (all_written, t)) × Wrote i n xs k f x t
  unfolding filewrite write_kind load_file
  filewrite_lem xs k f x h plain open_ fits =
      let (t, run, w) = chunk_loop_lem (length xs + 1) xs k f x h (omega arith) fits in
      let found : load_file i k ≡ done (f, k) = rw (load_file, h.at_file) refl in
      (
        t,
        bind_done (load_file i) _ found
            ∙ branch_yes f.writable _ _ k open_
            ∙ ap (λ c. write_kind devsw me i xs f c k) plain
            ∙ run,
        w,
      )
