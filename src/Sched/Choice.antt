-- ===== src/Sched/Choice.antt =====
-- lab5/xv6-public/proc.c, scheduler: the process that a pass chooses.
use cs333_os_labs.Prelude.{
  All, Bool, Bool-cases, List, Option, [], ap, arith, false, get_elem?, inl, inr, none, refl, some,
  subst, suc, sym, true, ℕ, ◌&&◌, ◌+◌, ◌-◌, ◌∷◌, ◌≡◌, ◌≤◌, ◌⊎◌,
}
use cs333_os_labs.Proc.Table.{runnable, state_eq}
use cs333_os_labs.Sched.{Pick, Task, choose, consider, int_lt, pick, scan}

abbrev pub slot : ℕ → ℕ → List Task → Option Task
slot base i ps = get_elem? ps (i - base)

abbrev pub HasTask : (Task → Type 0) → Option Task → Type 0
HasTask P none = ⊥
HasTask P (some p) = P p

abbrev pub is_ready : Task → Bool
is_ready p = state_eq p.state runnable

-- No runnable process of the table has a priority above `m`.
abbrev pub NoneAbove : ℕ → List Task → Type 0
NoneAbove m ps = All (λ p. (is_ready p && int_lt m p.priority) ≡ false) ps

-- The pick is a slot of the table with a runnable process, and records its priority.
abbrev pub IsReadySlot : ℕ → List Task → Pick → Option ℕ → Type 0
IsReadySlot base ps k none = ⊥
IsReadySlot base ps k (some i) =
    (base ≤ i) × HasTask (λ p. (is_ready p ≡ true) × (p.priority ≡ k.maxp)) (slot base i ps)

slot_cons :
    (base i : ℕ) (p : Task) (ps : List Task)
    → base + 1 ≤ i
    → slot base i (p ∷ ps) ≡ slot (base + 1) i ps
slot_cons base i p ps h = let e : i - base ≡ suc (i - (base + 1)) = omega arith in rw e

IsReadySlot-cons :
    (base : ℕ) (p : Task) (ps : List Task) (k : Pick) (r : Option ℕ)
    → IsReadySlot (base + 1) ps k r
    → IsReadySlot base (p ∷ ps) k r
IsReadySlot-cons base p ps k none h = h
IsReadySlot-cons base p ps k (some i) (le, has) = (omega arith, rw (slot_cons base i p ps le) has)

IsReadySlot-here :
    (base : ℕ) (p : Task) (ps : List Task)
    → is_ready p ≡ true
    → IsReadySlot base (p ∷ ps) (choose base p) (some base)
IsReadySlot-here base p ps h =
    let e : base - base ≡ 0 = omega arith in (omega arith, rw e (h, refl))

-- A scan that has a candidate keeps it unless a process of higher priority follows.
abbrev Improves : ℕ → List Task → Pick → Pick → Type 0
Improves base ps k r =
    NoneAbove r.maxp ps × (int_lt r.maxp k.maxp ≡ false) × ((r ≡ k) ⊎ IsReadySlot base ps r r.f)

int_lt_trans : (a b c : ℕ) → int_lt a b ≡ false → int_lt b c ≡ false → int_lt a c ≡ false
int_lt_trans a b c h k = ground arith

int_lt_asym : (a b : ℕ) → int_lt a b ≡ true → int_lt b a ≡ false
int_lt_asym a b h = ground arith

int_lt_irrefl : (a : ℕ) → int_lt a a ≡ false
int_lt_irrefl a = ground arith

not_above :
    (p : Task) (m : ℕ) → int_lt m p.priority ≡ false → (is_ready p && int_lt m p.priority) ≡ false
not_above p m h = ground arith

idle_not_above :
    (p : Task) (m : ℕ) → is_ready p ≡ false → (is_ready p && int_lt m p.priority) ≡ false
idle_not_above p m h = ground arith

scan_keeps :
    (base : ℕ) (p : Task) (ps : List Task) (k r : Pick)
    → (is_ready p && int_lt r.maxp p.priority) ≡ false
    → Improves (base + 1) ps k r
    → Improves base (p ∷ ps) k r
scan_keeps base p ps k r h (above, best, inl same) = ((h, above), best, inl same)
scan_keeps base p ps k r h (above, best, inr there) =
    ((h, above), best, inr (IsReadySlot-cons base p ps r r.f there))

scan_takes :
    (base : ℕ) (p : Task) (ps : List Task) (k r : Pick)
    → is_ready p ≡ true
    → int_lt k.maxp p.priority ≡ true
    → Improves (base + 1) ps (choose base p) r
    → Improves base (p ∷ ps) k r
scan_takes base p ps k r ready higher (above, best, inl same) = (
  (not_above p r.maxp best, above),
  int_lt_trans r.maxp p.priority k.maxp best (int_lt_asym k.maxp p.priority higher),
  inr (rw same (IsReadySlot-here base p ps ready)),
)
scan_takes base p ps k r ready higher (above, best, inr there) = (
  (not_above p r.maxp best, above),
  int_lt_trans r.maxp p.priority k.maxp best (int_lt_asym k.maxp p.priority higher),
  inr (IsReadySlot-cons base p ps r r.f there),
)

consider_idle : (i : ℕ) (p : Task) (k : Pick) → is_ready p ≡ false → consider i p k ≡ k
unfolding consider
consider_idle i p k h = ground arith

consider_first :
    (i : ℕ) (p : Task) (k : Pick) → is_ready p ≡ true → k.first ≡ true → consider i p k ≡ choose i p
unfolding consider
consider_first i p k h e = ground arith

consider_higher :
    (i : ℕ) (p : Task) (k : Pick)
    → is_ready p ≡ true
    → k.first ≡ false
    → int_lt k.maxp p.priority ≡ true
    → consider i p k ≡ choose i p
unfolding consider
consider_higher i p k h e l = ground arith

consider_lower :
    (i : ℕ) (p : Task) (k : Pick)
    → k.first ≡ false
    → int_lt k.maxp p.priority ≡ false
    → consider i p k ≡ k
unfolding consider
consider_lower i p k e l = ground arith

scan-Improves :
    (base : ℕ) (ps : List Task) (k : Pick) → k.first ≡ false → Improves base ps k (scan base ps k)
unfolding scan
scan-Improves base [] k h = (tt, int_lt_irrefl k.maxp, inl refl)
scan-Improves base (p ∷ ps) k h =
    let next = λ (c : Pick). Improves base (p ∷ ps) k (scan (base + 1) ps c) in
    elim (Bool-cases (is_ready p)) [
      | inr idle ↦ subst next (sym (consider_idle base p k idle)) (
          scan_keeps base p ps k (scan (base + 1) ps k) (idle_not_above p _ idle)
            (scan-Improves (base + 1) ps k h))
      | inl ready ↦ elim (Bool-cases (int_lt k.maxp p.priority)) [
        | inl higher ↦ subst next (sym (consider_higher base p k ready h higher)) (
            scan_takes base p ps k (scan (base + 1) ps (choose base p)) ready higher
              (scan-Improves (base + 1) ps (choose base p) refl))
        | inr lower ↦ subst next (sym (consider_lower base p k h lower)) (
            scan_keeps base p ps k (scan (base + 1) ps k)
              (not_above p _ (
                int_lt_trans (scan (base + 1) ps k).maxp k.maxp p.priority
                  (scan-Improves (base + 1) ps k h).1 lower))
              (scan-Improves (base + 1) ps k h))
      ]
    ]

-- What a pass finds: it picks a runnable process that no runnable one outranks, or nothing is
-- runnable and the pick is the one that it started from.
abbrev pub Picked : ℕ → List Task → Pick → Pick → Type 0
Picked base ps k r =
    (IsReadySlot base ps r r.f × NoneAbove r.maxp ps) ⊎ (All (λ p. is_ready p ≡ false) ps × (r ≡ k))

Picked-first :
    (base : ℕ) (p : Task) (ps : List Task) (k r : Pick)
    → is_ready p ≡ true
    → Improves (base + 1) ps (choose base p) r
    → Picked base (p ∷ ps) k r
Picked-first base p ps k r ready (above, best, inl same) =
    inl (rw same (IsReadySlot-here base p ps ready), (not_above p r.maxp best, above))
Picked-first base p ps k r ready (above, best, inr there) =
    inl (IsReadySlot-cons base p ps r r.f there, (not_above p r.maxp best, above))

Picked-later :
    (base : ℕ) (p : Task) (ps : List Task) (k r : Pick)
    → is_ready p ≡ false
    → Picked (base + 1) ps k r
    → Picked base (p ∷ ps) k r
Picked-later base p ps k r idle (inl (here, above)) =
    inl (IsReadySlot-cons base p ps r r.f here, (idle_not_above p r.maxp idle, above))
Picked-later base p ps k r idle (inr (none_ready, same)) = inr ((idle, none_ready), same)

scan_lem :
    (base : ℕ) (ps : List Task) (k : Pick) → k.first ≡ true → Picked base ps k (scan base ps k)
unfolding scan
scan_lem base [] k h = inr (tt, refl)
scan_lem base (p ∷ ps) k h =
    let next = λ (c : Pick). Picked base (p ∷ ps) k (scan (base + 1) ps c) in
    elim (Bool-cases (is_ready p)) [
      | inr idle ↦
          subst next (sym (consider_idle base p k idle))
            (Picked-later base p ps k _ idle (scan_lem (base + 1) ps k h))
      | inl ready ↦
          subst next (sym (consider_first base p k ready h))
            (Picked-first base p ps k _ ready (scan-Improves (base + 1) ps (choose base p) refl))
    ]

-- A pass of the priority scheduler over any table: if some process is runnable, the pick is a
-- runnable process such that no runnable process has a higher priority; if none is, it is the `f`
-- that the pass before left.
pub pick_lem :
    (f : Option ℕ) (ps : List Task)
    → (IsReadySlot 0 ps (pick f ps) (pick f ps).f × NoneAbove (pick f ps).maxp ps)
      ⊎ (All (λ p. is_ready p ≡ false) ps × ((pick f ps).f ≡ f))
unfolding pick
pick_lem f ps = elim (scan_lem 0 ps (record { f = f; maxp = 0; first = true }) refl) [
  | inl h ↦ inl h
  | inr (idle, same) ↦ inr (idle, ap (λ k. k.f) same)
]
