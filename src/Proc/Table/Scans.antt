-- ===== src/Proc/Table/Scans.antt =====
-- lab6/xv6-public/proc.c: what the loops over the process table find.
use cs333_os_labs.Prelude.{
  All, Bool, Bool-cases, List, Option, [], arith, false, get_elem?, inl, inr, none, refl, some, suc,
  true, ℕ, ◌&&◌, ◌+◌, ◌-◌, ◌||◌, ◌∷◌, ◌≡◌, ◌≤◌,
}
use cs333_os_labs.Proc.Table.{
  Proc, ProcState, Scan, find_unused, found, had_child, has_zombie, is_child, next_runnable,
  no_children, runnable, scan_children, state_eq, unused, waiting, zombie,
}

-- Slot `i` of a table whose first slot has the number `base`.
abbrev pub slot : ℕ → ℕ → List Proc → Option Proc
slot base i ps = get_elem? ps (i - base)

abbrev pub Has : (Proc → Type 0) → Option Proc → Type 0
Has P none = ⊥
Has P (some p) = P p

-- The loop of allocproc finds a free slot if there is one, and otherwise every slot is in use.
abbrev pub FindsUnused : ℕ → List Proc → Option ℕ → Type 0
FindsUnused base ps none = All (λ p. state_eq p.state unused ≡ false) ps
FindsUnused base ps (some i) = (base ≤ i) × Has (λ p. p.state ≡ unused) (slot base i ps)

slot_cons :
    (base i : ℕ) (p : Proc) (ps : List Proc)
    → base + 1 ≤ i
    → slot base i (p ∷ ps) ≡ slot (base + 1) i ps
slot_cons base i p ps h = let e : i - base ≡ suc (i - (base + 1)) = omega arith in rw e

slot_here : (base : ℕ) (p : Proc) (ps : List Proc) → slot base base (p ∷ ps) ≡ some p
slot_here base p ps = let e : base - base ≡ 0 = omega arith in rw e

state_eq_lem : (a b : ProcState) → state_eq a b ≡ true → a ≡ b
state_eq_lem a b h = ground arith

find_unused_cons :
    (base : ℕ) (p : Proc) (ps : List Proc) (r : Option ℕ)
    → state_eq p.state unused ≡ false
    → FindsUnused (base + 1) ps r
    → FindsUnused base (p ∷ ps) r
find_unused_cons base p ps none h r = (h, r)
find_unused_cons base p ps (some i) h (le, has) = (omega arith, rw (slot_cons base i p ps le) has)

-- The loop of allocproc finds a free slot if there is one, and otherwise every slot is in use.
pub find_unused_lem : (base : ℕ) (ps : List Proc) → FindsUnused base ps (find_unused base ps)
unfolding find_unused
find_unused_lem base [] = tt
find_unused_lem base (p ∷ ps) = elim (Bool-cases (state_eq p.state unused)) [
  | inl e ↦ rw (e, slot_here base p ps) (omega arith, state_eq_lem p.state unused e)
  | inr e ↦ rw e (find_unused_cons base p ps _ e (find_unused_lem (base + 1) ps))
]

abbrev pub has_child : ℕ → List Proc → Bool
has_child me [] = false
has_child me (p ∷ ps) = is_child me p || has_child me ps

pub has_zombie_none :
    (me : ℕ) (ps : List Proc) → All (λ p. is_child me p ≡ false) ps → has_zombie me ps ≡ false
unfolding has_zombie
has_zombie_none me [] h = refl
has_zombie_none me (p ∷ ps) h = ground (arith, has_zombie_none me ps h.1)

-- The scan of wait: a zombie child, or children none of which is a zombie, or no child at all.
abbrev pub FindsChild : ℕ → ℕ → List Proc → Scan → Type 0
FindsChild me base ps (found i) =
    (base ≤ i) × Has (λ p. (is_child me p ≡ true) × (p.state ≡ zombie)) (slot base i ps)
FindsChild me base ps waiting = (has_zombie me ps ≡ false) × (has_child me ps ≡ true)
FindsChild me base ps no_children = All (λ p. is_child me p ≡ false) ps

scan_cons :
    (me base : ℕ) (p : Proc) (ps : List Proc) (r : Scan)
    → (is_child me p && state_eq p.state zombie) ≡ false
    → FindsChild me (base + 1) ps r
    → FindsChild me base (p ∷ ps) (had_child (is_child me p) r)
unfolding has_zombie
scan_cons me base p ps (found i) h (le, has) = (omega arith, rw (slot_cons base i p ps le) has)
scan_cons me base p ps waiting h r = ground arith
scan_cons me base p ps no_children h r = elim (Bool-cases (is_child me p)) [
  | inl e ↦ rw e (ground (arith, has_zombie_none me ps r), ground arith)
  | inr e ↦ rw e (e, r)
]

-- The scan that wait makes of the table is right in each of its three answers: the slot of a
-- zombie child, or that there are children none of which is a zombie, or that there is no child.
pub scan_children_lem :
    (me base : ℕ) (ps : List Proc) → FindsChild me base ps (scan_children me base ps)
unfolding scan_children
scan_children_lem me base [] = tt
scan_children_lem me base (p ∷ ps) = elim (Bool-cases (is_child me p && state_eq p.state zombie)) [
  | inl e ↦
      rw (e, slot_here base p ps)
        (omega arith, (ground arith, state_eq_lem p.state zombie (ground arith)))
  | inr e ↦ rw e (scan_cons me base p ps _ e (scan_children_lem me (base + 1) ps))
]

abbrev pub FindsRunnable : ℕ → List Proc → Option ℕ → Type 0
FindsRunnable base ps none = All (λ p. state_eq p.state runnable ≡ false) ps
FindsRunnable base ps (some i) = (base ≤ i) × Has (λ p. p.state ≡ runnable) (slot base i ps)

runnable_cons :
    (base : ℕ) (p : Proc) (ps : List Proc) (r : Option ℕ)
    → state_eq p.state runnable ≡ false
    → FindsRunnable (base + 1) ps r
    → FindsRunnable base (p ∷ ps) r
runnable_cons base p ps none h r = (h, r)
runnable_cons base p ps (some i) h (le, has) = (omega arith, rw (slot_cons base i p ps le) has)

-- The round-robin scheduler chooses a runnable process of the table, and none only if none is
-- runnable.
next_runnable_lem : (base : ℕ) (ps : List Proc) → FindsRunnable base ps (next_runnable base ps)
unfolding next_runnable
next_runnable_lem base [] = tt
next_runnable_lem base (p ∷ ps) = elim (Bool-cases (state_eq p.state runnable)) [
  | inl e ↦ rw (e, slot_here base p ps) (omega arith, state_eq_lem p.state runnable e)
  | inr e ↦ rw e (runnable_cons base p ps _ e (next_runnable_lem (base + 1) ps))
]
