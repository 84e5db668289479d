-- ===== src/Pipe/Queue.antt =====
-- lab6/xv6-public/pipe.c: the bytes in a pipe, in their order.
use cs333_os_labs.Kalloc.{uint_mod}
use cs333_os_labs.Pipe.{
  Pipe, ReadResult, Written, all_written, bytes, copy_out, is_full, piperead, pipesize, pipewrite,
  put, read_failed, read_sleeping, write_failed, write_sleeping,
}
use cs333_os_labs.Prelude.{
  ==_iff, ==_ne, Bool, Bool-cases, List, [], ap, arith, false, get_or, get_or-set_ne,
  get_or-set_self, if◌then◌else◌, inl, inr, length, length-set, not, refl, set, suc, sym, true,
  zero, ℕ, ◌%◌, ◌&&◌, ◌++◌, ◌+◌, ◌-◌, ◌<◌, ◌==◌, ◌||◌, ◌∙◌, ◌∷◌, ◌≡◌, ◌≢◌, ◌≤◌,
}
use Prim.Native.Nat.{min}
use mathlib.Core.List.{append-nil, append_assoc}

-- The number of bytes in the pipe.
abbrev pub level : Pipe → ℕ
level p = (p.nwrite + uint_mod - p.nread) % uint_mod

pub record IsValid (p : Pipe) : Type 0 where
  pub storage : length p.buf ≡ pipesize
  pub read_word : p.nread < uint_mod
  pub write_word : p.nwrite < uint_mod
  pub bounded : level p ≤ pipesize

-- The `n` bytes from counter `r` on.
abbrev pub window : List ℕ → ℕ → ℕ → List ℕ
window d r zero = []
window d r (suc n) = get_or d (r % pipesize) 0 ∷ window d ((r + 1) % uint_mod) n

-- The bytes in the pipe, oldest first.
abbrev pub contents : Pipe → List ℕ
contents p = window p.buf p.nread (level p)

-- Writing at the end of a window that does not fill the buffer adds a byte to it.
window_put :
    (d : List ℕ) (x n r w : ℕ)
    → length d ≡ pipesize
    → r < uint_mod
    → n < pipesize
    → w ≡ (r + n) % uint_mod
    → window (set d (w % pipesize) x) r (suc n) ≡ window d r n ++ (x ∷ [])
window_put d x zero r w len small room e =
    let same : w ≡ r = omega arith in
    rw same (rw (get_or-set_self d (r % pipesize) x 0 (omega arith)))
window_put d x (suc n) r w len small room e =
    rw
      (get_or-set_ne d (w % pipesize) (r % pipesize) x 0
        (λ (q : w % pipesize ≡ r % pipesize). omega arith))
      (ap (λ ys. get_or d (r % pipesize) 0 ∷ ys)
        (window_put d x n ((r + 1) % uint_mod) w len (omega arith) (omega arith) (omega arith)))

level-put : (x : ℕ) (p : Pipe) → IsValid p → is_full p ≡ false → level (put x p) ≡ suc (level p)
level-put x p v room = omega (arith, ==_ne p.nwrite ((p.nread + pipesize) % uint_mod) room)

room_below : (p : Pipe) → IsValid p → is_full p ≡ false → level p < pipesize
room_below p v room = omega (arith, ==_ne p.nwrite ((p.nread + pipesize) % uint_mod) room)

put-IsValid : (x : ℕ) (p : Pipe) → IsValid p → is_full p ≡ false → IsValid (put x p)
put-IsValid x p v room = record {
  storage = length-set p.buf (p.nwrite % pipesize) x ∙ v.storage;
  read_word = v.read_word;
  write_word = omega arith;
  bounded = omega (arith, level-put x p v room, room_below p v room);
}

contents-put :
    (x : ℕ) (p : Pipe) → IsValid p → is_full p ≡ false → contents (put x p) ≡ contents p ++ (x ∷ [])
contents-put x p v room =
    ap (window (set p.buf (p.nwrite % pipesize) x) p.nread) (level-put x p v room)
    ∙ window_put p.buf x (level p) p.nread p.nwrite v.storage v.read_word (room_below p v room) (
        let b : level p ≤ pipesize = v.bounded in
        let r : p.nread < uint_mod = v.read_word in
        let w : p.nwrite < uint_mod = v.write_word in omega arith)

-- What is left of `xs` after a write.
abbrev pub Unwritten : Written → List ℕ → List ℕ → Type 0
Unwritten all_written xs added = xs ≡ added
Unwritten write_failed xs added = (rest : List ℕ) × (xs ≡ added ++ rest)
Unwritten (write_sleeping rest) xs added = xs ≡ added ++ rest

abbrev pub Writes : List ℕ → Pipe → Pipe × Written → Type 0
Writes xs p (q, r) =
    (added : List ℕ) × IsValid q × (contents q ≡ contents p ++ added) × Unwritten r xs added

Unwritten-cons :
    (r : Written) (x : ℕ) (xs added : List ℕ)
    → Unwritten r xs added
    → Unwritten r (x ∷ xs) (x ∷ added)
Unwritten-cons all_written x xs added h = ap (λ ys. x ∷ ys) h
Unwritten-cons write_failed x xs added (rest, h) = (rest, ap (λ ys. x ∷ ys) h)
Unwritten-cons (write_sleeping rest) x xs added h = ap (λ ys. x ∷ ys) h

Writes-cons :
    (x : ℕ) (xs : List ℕ) (p : Pipe) (o : Pipe × Written)
    → IsValid p
    → is_full p ≡ false
    → Writes xs (put x p) o
    → Writes (x ∷ xs) p o
Writes-cons x xs p (q, r) v room (added, vq, same, left) = (
  x ∷ added,
  vq,
  same
      ∙ ap (λ ys. ys ++ added) (contents-put x p v room)
      ∙ append_assoc (contents p) (x ∷ []) added,
  Unwritten-cons r x xs added left,
)

Writes-nothing_failed : (xs : List ℕ) (p : Pipe) → IsValid p → Writes xs p (p, write_failed)
Writes-nothing_failed xs p v = ([], v, sym (append-nil (contents p)), (xs, refl))

Writes-nothing_sleeping : (xs : List ℕ) (p : Pipe) → IsValid p → Writes xs p (p, write_sleeping xs)
Writes-nothing_sleeping xs p v = ([], v, sym (append-nil (contents p)), refl)

-- A write to a valid pipe leaves it valid and adds a part of its bytes at the end of the queue,
-- in order, across the wrap-around of the counters: all of them if it returns, and if it sleeps,
-- all but those that it still has to write.
pub pipewrite_lem :
    (killed : Bool) (xs : List ℕ) (p : Pipe) → IsValid p → Writes xs p (pipewrite killed xs p)
unfolding pipewrite
pipewrite_lem killed [] p v = ([], v, sym (append-nil (contents p)), refl)
pipewrite_lem killed (x ∷ xs) p v = elim (Bool-cases (is_full p)) [
  | inr room ↦
      rw room
        (Writes-cons x xs p _ v room (pipewrite_lem killed xs (put x p) (put-IsValid x p v room)))
  | inl full ↦ elim (Bool-cases (not p.readopen || killed)) [
    | inl gone ↦ rw (full, gone) (Writes-nothing_failed (x ∷ xs) p v)
    | inr open_end ↦ rw (full, open_end) (Writes-nothing_sleeping (x ∷ xs) p v)
  ]
]

-- A write sleeps only at a full pipe whose read end is open, and with bytes left to write.
abbrev pub SleepsFull : Pipe × Written → Type 0
SleepsFull (q, all_written) = Unit
SleepsFull (q, write_failed) = is_full q ≡ true
SleepsFull (q, write_sleeping rest) = (is_full q ≡ true) × (q.readopen ≡ true) × (rest ≢ [])

-- A write sleeps only at a full pipe whose read end is open and with bytes left to write, and
-- fails only at a full pipe.
pub pipewrite_sleeps : (killed : Bool) (xs : List ℕ) (p : Pipe) → SleepsFull (pipewrite killed xs p)
unfolding pipewrite
pipewrite_sleeps killed [] p = tt
pipewrite_sleeps killed (x ∷ xs) p = elim (Bool-cases (is_full p)) [
  | inr room ↦ rw room (pipewrite_sleeps killed xs (put x p))
  | inl full ↦ elim (Bool-cases (not p.readopen || killed)) [
    | inl gone ↦ rw (full, gone) full
    | inr open_end ↦ rw (full, open_end) (full, ground arith, λ e. cc)
  ]
]

abbrev take_one : Pipe → Pipe
take_one p = record p { nread = (p.nread + 1) % uint_mod }

level-take : (p : Pipe) → IsValid p → p.nread ≢ p.nwrite → level p ≡ suc (level (take_one p))
level-take p v h = omega arith

empty_level : (p : Pipe) → IsValid p → p.nread ≡ p.nwrite → level p ≡ 0
empty_level p v h = omega arith

take_one-IsValid : (p : Pipe) → IsValid p → p.nread ≢ p.nwrite → IsValid (take_one p)
take_one-IsValid p v h = record {
  storage = v.storage;
  read_word = omega arith;
  write_word = v.write_word;
  bounded = omega (arith, level-take p v h);
}

contents-take :
    (p : Pipe)
    → IsValid p
    → p.nread ≢ p.nwrite
    → contents p ≡ get_or p.buf (p.nread % pipesize) 0 ∷ contents (take_one p)
contents-take p v h = ap (window p.buf p.nread) (level-take p v h)

-- A read takes bytes off the front of the pipe, in order; `n` of them unless the pipe is empty
-- before.
abbrev pub Reads : ℕ → Pipe → List ℕ × Pipe → Type 0
Reads n p (xs, q) = IsValid q × (contents p ≡ xs ++ contents q) × (length xs ≡ min n (level p))

Reads-cons :
    (n : ℕ) (p : Pipe) (o : List ℕ × Pipe)
    → IsValid p
    → p.nread ≢ p.nwrite
    → Reads n (take_one p) o
    → Reads (suc n) p (get_or p.buf (p.nread % pipesize) 0 ∷ o.0, o.1)
Reads-cons n p (xs, q) v h (vq, same, count) = (
  vq,
  contents-take p v h ∙ ap (λ ys. get_or p.buf (p.nread % pipesize) 0 ∷ ys) same,
  omega (arith, level-take p v h),
)

Reads-empty : (n : ℕ) (p : Pipe) → IsValid p → level p ≡ 0 → Reads n p ([], p)
Reads-empty n p v e = (v, refl, omega arith)

pub copy_out_lem : (n : ℕ) (p : Pipe) → IsValid p → Reads n p (copy_out n p)
unfolding copy_out
copy_out_lem zero p v = (v, refl, omega arith)
copy_out_lem (suc n) p v = elim (Bool-cases (p.nread == p.nwrite)) [
  | inl e ↦ rw e (Reads-empty (suc n) p v (empty_level p v ((==_iff p.nread p.nwrite).0 e)))
  | inr e ↦
      let ne = ==_ne p.nread p.nwrite e in
      rw e (Reads-cons n p _ v ne (copy_out_lem n (take_one p) (take_one-IsValid p v ne)))
]

-- What a read gives: the oldest bytes, and none of them only at an empty pipe with no writer; it
-- sleeps or fails only at an empty pipe that a writer has open, which it leaves as it is.
abbrev pub ReadsPipe : Bool → ℕ → Pipe → Pipe × ReadResult → Type 0
ReadsPipe killed n p (q, bytes xs) =
    Reads n p (xs, q) × (xs ≡ [] → 0 < n → (level p ≡ 0) × (p.writeopen ≡ false))
ReadsPipe killed n p (q, read_failed) = (q ≡ p) × (level p ≡ 0) × (killed ≡ true)
ReadsPipe killed n p (q, read_sleeping) =
    (q ≡ p) × (level p ≡ 0) × (killed ≡ false) × (p.writeopen ≡ true)

same_counters : (p : Pipe) → IsValid p → level p ≡ 0 → p.nread ≡ p.nwrite
same_counters p v h = omega arith

waits :
    (killed : Bool) (n : ℕ) (p : Pipe)
    → IsValid p
    → (p.nread == p.nwrite && p.writeopen) ≡ true
    → ReadsPipe killed n p (p, if killed then read_failed else read_sleeping)
waits true n p v e = (refl, empty_level p v (ground arith), refl)
waits false n p v e = (refl, empty_level p v (ground arith), refl, ground arith)

no_bytes :
    (n : ℕ) (p : Pipe) (xs : List ℕ) (q : Pipe)
    → Reads n p (xs, q)
    → (p.nread == p.nwrite && p.writeopen) ≡ false
    → IsValid p
    → xs ≡ []
    → 0 < n
    → (level p ≡ 0) × (p.writeopen ≡ false)
no_bytes n p xs q (vq, same, count) h v e pos =
    let none_left : level p ≡ 0 = omega (arith, ap length e) in
    (none_left, ground (arith, same_counters p v none_left))

-- A read from a valid pipe takes the oldest bytes of the queue, in order, as many as it asks for
-- if there are that many, and, asked for one at least, none only from an empty pipe without a
-- writer; it sleeps or fails only at an empty pipe, which it leaves as it is, and sleeps only if
-- a writer has it open.
pub piperead_lem :
    (killed : Bool) (n : ℕ) (p : Pipe) → IsValid p → ReadsPipe killed n p (piperead killed n p)
unfolding piperead
piperead_lem killed n p v = elim (Bool-cases (p.nread == p.nwrite && p.writeopen)) [
  | inl e ↦ rw e (waits killed n p v e)
  | inr e ↦
      rw e (
        copy_out_lem n p v,
        no_bytes n p (copy_out n p).0 (copy_out n p).1 (copy_out_lem n p v) e v,
      )
]
