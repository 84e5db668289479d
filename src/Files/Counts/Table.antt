-- ===== src/Files/Counts/Table.antt =====
-- lab6/xv6-public/file.c: filealloc, filedup and fileclose on a table whose counts are right.
use mathlib.Core.Option
use cs333_os_labs.FileTable.{
  Closing, File, fd_none, filealloc, fileclose, filedup, last_close, nothing,
}
use cs333_os_labs.FileTable.References.{Allocates, filealloc_lem}
use cs333_os_labs.Files.Counts.{IsCounted, get_elem?-found, get_elem?-inside, plus, uses}
use cs333_os_labs.Prelude.{
  All, Bool-cases, List, Option, [], ap, arith, false, get_elem?, get_elem?-set_ne,
  get_elem?-set_self, if◌then◌else◌, inl, inr, length, length-set, ltb, none, refl, set, some,
  some-injective, subst, suc, sym, true, zero, ℕ, ◌+◌, ◌-◌, ◌<◌, ◌==◌, ◌∙◌, ◌∷◌, ◌≡◌, ◌≢◌,
}
use native.Mathlib.Decide.{ℕ_discrete}

abbrev let_go : File → File
let_go f =
    if ltb 0 (f.ref - 1) then record f { ref = f.ref - 1 } else record f { ref = 0; kind = fd_none }

-- What the close of a reference to `f` closes underneath.
abbrev pub closing : File → Closing
closing f = if f.ref == 1 then last_close f else nothing

-- What it closes where `n` references are left.
abbrev pub closing_after : ℕ → File → Closing
closing_after n f = if n == 0 then last_close f else nothing

pub closing-left : (f : File) (n : ℕ) → f.ref ≡ n + 1 → closing f ≡ closing_after n f
closing-left f n e = elim (Bool-cases (n == 0)) [
  | inl z ↦ let o : (f.ref == 1) ≡ true = ground (arith, e, z) in rw (o, z) refl
  | inr z ↦ let o : (f.ref == 1) ≡ false = ground (arith, e, z) in rw (o, z) refl
]

filedup_at :
    (i : ℕ) (fs : List File) (f : File)
    → get_elem? fs i ≡ some f
    → 0 < f.ref
    → filedup i fs ≡ some (set fs i (record f { ref = f.ref + 1 }))
unfolding filedup
filedup_at i [] f at h = cc
filedup_at zero (g ∷ fs) f at h = let e = some-injective g f at in rw e (ground arith)
filedup_at (suc i) (g ∷ fs) f at h = ap (Option.map (λ rest. g ∷ rest)) (filedup_at i fs f at h)

fileclose_at :
    (i : ℕ) (fs : List File) (f : File)
    → get_elem? fs i ≡ some f
    → 0 < f.ref
    → fileclose i fs ≡ some (set fs i (let_go f), closing f)
unfolding fileclose
fileclose_at i [] f at h = cc
fileclose_at zero (g ∷ fs) f at h = let e = some-injective g f at in rw e (ground arith)
fileclose_at (suc i) (g ∷ fs) f at h =
    ap (Option.map (λ r. (g ∷ r.0, r.1))) (fileclose_at i fs f at h)

module _ (held held' : ℕ → ℕ) (fs : List File) (ds : List (Option ℕ)) (i : ℕ) (f g : File)
    (at : get_elem? fs i ≡ some f) where
  -- A new file in one place of the table.
  IsCounted-set :
      ((j : ℕ) → i ≢ j → held' j ≡ held j)
      → g.ref ≡ uses i ds + held' i
      → (g.ref ≡ 0 → g.kind ≡ fd_none)
      → IsCounted held fs ds
      → IsCounted held' (set fs i g) ds
  IsCounted-set same count rest c = record {
    width = c.width;
    counts = λ j h e. elim (ℕ_discrete i j) [
      | yes k ↦ here j h k (subst (λ a. get_elem? (set fs i g) a ≡ some h) (sym k) e)
      | no k ↦
          c.counts j h (sym (get_elem?-set_ne fs g k) ∙ e)
          ∙ ap (λ a. uses j ds + a) (sym (same j k))
    ];
    named = λ j h. elim (ℕ_discrete i j) [
      | yes k ↦ omega (arith, k, inside, length-set fs i g)
      | no k ↦ omega (arith, c.named j (omega (arith, same j k)), length-set fs i g)
    ];
    idle = λ j h e z. elim (ℕ_discrete i j) [
      | yes k ↦ idle j h (subst (λ a. get_elem? (set fs i g) a ≡ some h) (sym k) e) z
      | no k ↦ c.idle j h (sym (get_elem?-set_ne fs g k) ∙ e) z
    ];
  }
    where
      inside : i < length fs
      inside = get_elem?-inside fs i f at

      now : (h : File) → get_elem? (set fs i g) i ≡ some h → g ≡ h
      now h e = some-injective g h (sym (get_elem?-set_self fs i g inside) ∙ e)

      here :
          (j : ℕ) (h : File)
          → i ≡ j
          → get_elem? (set fs i g) i ≡ some h
          → h.ref ≡ uses j ds + held' j
      here j h k e =
          subst (λ a. h.ref ≡ uses a ds + held' a) k
            (subst (λ (a : File). a.ref ≡ uses i ds + held' i) (now h e) count)

      idle : (j : ℕ) (h : File) → get_elem? (set fs i g) i ≡ some h → h.ref ≡ 0 → h.kind ≡ fd_none
      idle j h e = subst (λ (a : File). a.ref ≡ 0 → a.kind ≡ fd_none) (now h e) rest

plus_ne : (held : ℕ → ℕ) (i j : ℕ) → i ≢ j → plus i held j ≡ held j
plus_ne held i j h = ground arith

pub plus_same : (held : ℕ → ℕ) (i : ℕ) → plus i held i ≡ held i + 1
plus_same held i = ground arith

module _ (held : ℕ → ℕ) (fs : List File) (ds : List (Option ℕ)) where
  -- filedup of a file that something names.
  pub filedup-IsCounted :
      (i : ℕ)
      → 0 < uses i ds + held i
      → IsCounted held fs ds
      → (gs : List File) × (filedup i fs ≡ some gs) × IsCounted (plus i held) gs ds
  filedup-IsCounted i h c =
      let (f, at) = get_elem?-found fs i (c.named i h) in
      let e = c.counts i f at in
      let g = record f { ref = f.ref + 1 } in
      (
        set fs i g,
        filedup_at i fs f at (omega (arith, e)),
        IsCounted-set held (plus i held) fs ds i f g at (plus_ne held i)
            (omega (arith, e, plus_same held i)) (λ z. absurd (omega (arith, z))) c,
      )

  -- fileclose of a reference from outside of the descriptors.
  pub fileclose-IsCounted :
      (i : ℕ) (f : File)
      → get_elem? fs i ≡ some f
      → IsCounted (plus i held) fs ds
      → (g : File) × (fileclose i fs ≡ some (set fs i g, closing f))
        × IsCounted held (set fs i g) ds
  fileclose-IsCounted i f at c =
      let e = c.counts i f at in
      let k = plus_same held i in
      (
        let_go f,
        fileclose_at i fs f at (omega (arith, e, k)),
        IsCounted-set (plus i held) held fs ds i f (let_go f) at (λ j n. sym (plus_ne held i j n))
            (ground (arith, e, k)) (λ z. ground (arith, e, k, z)) c,
      )

  -- filealloc gives away a file that has no pipe and no inode, and the reference to it, unless
  -- every file is referenced.
  abbrev pub Fresh : Option ℕ × List File → Type 0
  Fresh (none, gs) = (gs ≡ fs) × All (λ f. 0 < f.ref) fs
  Fresh (some i, gs) =
      (f : File) × (get_elem? fs i ≡ some f)
      × (f.ref ≡ 0)
      × (f.kind ≡ fd_none)
      × (gs ≡ set fs i (record f { ref = 1 }))
      × IsCounted (plus i held) (set fs i (record f { ref = 1 })) ds

  slot_given : (r : Option ℕ × List File) → IsCounted held fs ds → Allocates 0 fs r → Fresh r
  slot_given (none, gs) c used = used
  slot_given (some i, gs) c (l, (f, at, free, e)) =
      let z : i - 0 ≡ i = omega arith in
      let at' = sym (ap (get_elem? fs) z) ∙ at in
      let g = record f { ref = 1 } in
      let count = c.counts i f at' in
      (
        f,
        at',
        free,
        c.idle i f at' free,
        e ∙ ap (λ j. set fs j g) z,
        IsCounted-set held (plus i held) fs ds i f g at' (plus_ne held i)
            (omega (arith, count, free, plus_same held i)) (λ z. absurd (omega (arith, z))) c,
      )

  pub filealloc-Fresh : IsCounted held fs ds → Fresh (filealloc 0 fs)
  filealloc-Fresh c = slot_given (filealloc 0 fs) c (filealloc_lem 0 fs)

  -- A file in use is filled in.
  pub IsCounted-fill :
      (i : ℕ) (f g : File)
      → get_elem? fs i ≡ some f
      → g.ref ≡ f.ref
      → 0 < f.ref
      → IsCounted held fs ds
      → IsCounted held (set fs i g) ds
  IsCounted-fill i f g at e h c =
      IsCounted-set held held fs ds i f g at (λ j n. refl) (e ∙ c.counts i f at)
        (λ z. absurd (omega (arith, z, e))) c

-- The order of two references does not matter.
pub IsCounted-swap :
    (held : ℕ → ℕ) (i j : ℕ) (fs : List File) (ds : List (Option ℕ))
    → IsCounted (plus j (plus i held)) fs ds
    → IsCounted (plus i (plus j held)) fs ds
IsCounted-swap held i j fs ds c = record {
  width = c.width;
  counts = λ a f at. c.counts a f at ∙ omega arith;
  named = λ a h. c.named a (omega arith);
  idle = c.idle;
}
