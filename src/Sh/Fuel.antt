-- ===== src/Sh/Fuel.antt =====
-- lab6/xv6-public/sh.c: the bytes of the line that the steps of the parser leave.
pub mod Parsers
use cs333_os_labs.Prelude.{
  Bool, Bool-cases, List, [], arith, false, inl, inr, length, refl, subst, sym, true, ℕ, ◌-◌, ◌<◌,
  ◌==◌, ◌||◌, ◌∷◌, ◌≡◌, ◌≢◌, ◌≤◌, ◌⊎◌,
}
use cs333_os_labs.Prelude.Outcome.{
  Outcome, Stop, bind_done, branch, code, done, pure, require, stop, ◌>>=◌, ◌>>◌,
}
use cs333_os_labs.Sh.{
  P, after_greater, gettoken, occurs, peek, skip_white, starts_in, symbols, token_at, whitespace,
  word_at,
}

-- The code does not run out of fuel, and leaves at most `b` bytes where it returns.
abbrev pub Leaves : {A : Type 0} → ℕ → Outcome (A × List ℕ) → Type 0
Leaves b (done (a, s)) = length s ≤ b
Leaves b (stop e) = e ≢ Stop.out_of_fuel

Leaves-cases :
    {A B : Type 0} (b c : ℕ) (o : Outcome (A × List ℕ)) (f : A → P B)
    → Leaves b o
    → ((a : A) (s : List ℕ) → length s ≤ b → Leaves c (f a s))
    → Leaves c (elim o [ done (a, s) ↦ f a s | stop e ↦ stop e ])
Leaves-cases b c (done (a, s)) f h k = k a s h
Leaves-cases b c (stop e) f h k = h

pub Leaves-bind :
    {A B : Type 0} (b c : ℕ) (m : P A) (f : A → P B) (s : List ℕ)
    → Leaves b (m s)
    → ((a : A) (t : List ℕ) → length t ≤ b → Leaves c (f a t))
    → Leaves c ((m >>= f) s)
unfolding code
Leaves-bind b c m f s h k = Leaves-cases b c (m s) f h k

pub Leaves-require :
    {B : Type 0} (b : ℕ) (t : Bool) (e : Stop) (m : P B) (s : List ℕ)
    → e ≢ Stop.out_of_fuel
    → Leaves b (m s)
    → Leaves b ((require t e >> m) s)
unfolding code
Leaves-require b true e m s h k = k
Leaves-require b false e m s h k = h

length-skip_white : (s : List ℕ) → length (skip_white s) ≤ length s
unfolding skip_white
length-skip_white [] = omega arith
length-skip_white (c ∷ s) = elim (Bool-cases (occurs c whitespace)) [
  | inl e ↦ rw e (omega (arith, length-skip_white s))
  | inr e ↦ rw e (omega arith)
]

length-word_at : (s : List ℕ) → length (word_at s).1 ≤ length s
unfolding word_at
length-word_at [] = omega arith
length-word_at (c ∷ s) = elim (Bool-cases (occurs c whitespace || occurs c symbols)) [
  | inl e ↦ rw e (omega arith)
  | inr e ↦ rw e (omega (arith, length-word_at s))
]

-- No blank is at the front.
abbrev IsTrimmed : List ℕ → Type 0
IsTrimmed [] = Unit
IsTrimmed (c ∷ s) = occurs c whitespace ≡ false

skip_white-IsTrimmed : (s : List ℕ) → IsTrimmed (skip_white s)
unfolding skip_white
skip_white-IsTrimmed [] = tt
skip_white-IsTrimmed (c ∷ s) = elim (Bool-cases (occurs c whitespace)) [
  | inl e ↦ rw e (skip_white-IsTrimmed s)
  | inr e ↦ rw e e
]

length-after_greater : (s : List ℕ) → length (after_greater s).2 ≤ length s
unfolding after_greater
length-after_greater [] = omega arith
length-after_greater (c ∷ s) = elim (Bool-cases (c == b'>')) [
  | inl e ↦ rw e (omega arith)
  | inr e ↦ rw e (omega arith)
]

length-word_at_first :
    (c : ℕ) (s : List ℕ)
    → (occurs c whitespace || occurs c symbols) ≡ false
    → length (word_at (c ∷ s)).1 ≤ length s
unfolding word_at
length-word_at_first c s e = rw e (length-word_at s)

length-token_at : (s : List ℕ) → IsTrimmed s → length (token_at s).2 ≤ length s - 1
unfolding token_at
length-token_at [] h = omega arith
length-token_at (c ∷ s) h = elim (Bool-cases (c == b'>')) [
  | inl e ↦ rw e (omega (arith, length-after_greater s))
  | inr e ↦ elim (Bool-cases (occurs c symbols)) [
    | inl d ↦ rw (e, d) (omega arith)
    | inr d ↦ rw (e, d) (omega (arith, length-word_at_first c s (rw (h, d) refl)))
  ]
]

pub gettoken-Leaves : (b : ℕ) (s : List ℕ) → length s ≤ b → Leaves b (gettoken s)
unfolding gettoken
gettoken-Leaves b s h = omega (
  arith,
  length-skip_white s,
  length-token_at (skip_white s) (skip_white-IsTrimmed s),
  length-skip_white (token_at (skip_white s)).2,
)

-- Of a line that is not at its end, gettoken consumes a byte at least.
gettoken_consumes :
    (b : ℕ) (s : List ℕ) → 0 < length (skip_white s) → length s ≤ b → Leaves (b - 1) (gettoken s)
unfolding gettoken
gettoken_consumes b s l h = omega (
  arith,
  length-skip_white s,
  length-token_at (skip_white s) (skip_white-IsTrimmed s),
  length-skip_white (token_at (skip_white s)).2,
)

starts_in_some : (toks s : List ℕ) → starts_in toks s ≡ true → 0 < length s
unfolding starts_in
starts_in_some toks [] h = cc
starts_in_some toks (c ∷ s) h = omega arith

skip_white_trimmed : (s : List ℕ) → IsTrimmed s → skip_white s ≡ s
unfolding skip_white
skip_white_trimmed [] h = refl
skip_white_trimmed (c ∷ s) h = rw h refl

skip_white_twice : (s : List ℕ) → skip_white (skip_white s) ≡ skip_white s
skip_white_twice s = skip_white_trimmed (skip_white s) (skip_white-IsTrimmed s)

pub Leaves-branch :
    {B : Type 0} (c : ℕ) (t : Bool) (m n : P B) (s : List ℕ)
    → (t ≡ true → Leaves c (m s))
    → (t ≡ false → Leaves c (n s))
    → Leaves c (branch t m n s)
unfolding code
Leaves-branch c true m n s h k = h refl
Leaves-branch c false m n s h k = k refl

-- After peek has seen one of its tokens, gettoken consumes a byte at least.
pub peek-gettoken :
    {B : Type 0} (b c : ℕ) (toks s : List ℕ) (f : ℕ × List ℕ → P B) (g : P B)
    → length s ≤ b
    → ((tok : ℕ × List ℕ) (t : List ℕ) → length t < b → Leaves c (f tok t))
    → ((t : List ℕ) → length t ≤ b → Leaves c (g t))
    → Leaves c ((peek toks >>= λ more. branch more (gettoken >>= f) g) s)
unfolding peek code
peek-gettoken b c toks s f g h k l =
    let t = skip_white s in
    let shorter = length-skip_white s in
    Leaves-branch c (starts_in toks t) (gettoken >>= f) g t
      (λ e.
        let some_left = starts_in_some toks t e in
        Leaves-bind (b - 1) c gettoken f t
          (gettoken_consumes b t (rw (skip_white_twice s) some_left) (omega arith))
          (λ tok u r. k tok u (omega arith)))
      (λ e. l t (omega arith))

-- The same where the parser panics unless it is there.
pub peek-require-gettoken :
    {B : Type 0} (b c : ℕ) (toks s : List ℕ) (e : Stop) (f : ℕ × List ℕ → P B)
    → e ≢ Stop.out_of_fuel
    → length s ≤ b
    → ((tok : ℕ × List ℕ) (t : List ℕ) → length t < b → Leaves c (f tok t))
    → Leaves c ((peek toks >>= λ there. require there e >> (gettoken >>= f)) s)
unfolding peek code
peek-require-gettoken b c toks s e f ne h k =
    let t = skip_white s in
    let shorter = length-skip_white s in
    let next : starts_in toks t ≡ true → Leaves c ((gettoken >>= f) t) = λ d.
      let some_left = starts_in_some toks t d in
      Leaves-bind (b - 1) c gettoken f t
        (gettoken_consumes b t (rw (skip_white_twice s) some_left) (omega arith))
        (λ tok u r. k tok u (omega arith)) in
    elim (Bool-cases (starts_in toks t)) [
      | inl d ↦ subst (λ x. Leaves c ((require x e >> (gettoken >>= f)) t)) (sym d) (next d)
      | inr d ↦ subst (λ x. Leaves c ((require x e >> (gettoken >>= f)) t)) (sym d) ne
    ]

pub peek-Leaves : (b : ℕ) (toks s : List ℕ) → length s ≤ b → Leaves b (peek toks s)
unfolding peek
peek-Leaves b toks s h = omega (arith, length-skip_white s)

pub pure-Leaves : {A : Type 0} (b : ℕ) (a : A) (s : List ℕ) → length s ≤ b → Leaves b (pure a s)
unfolding code
pure-Leaves b a s h = h

pub Leaves-more :
    {A : Type 0} (b c : ℕ) (o : Outcome (A × List ℕ)) → b ≤ c → Leaves b o → Leaves c o
Leaves-more b c (done (a, s)) h l = omega (arith, h, l)
Leaves-more b c (stop e) h l = l

pub gettoken_end : (s : List ℕ) → skip_white s ≡ [] → gettoken s ≡ done ((0, []), [])
unfolding gettoken token_at skip_white
gettoken_end s e = rw e refl

nil-cases : (s : List ℕ) → (s ≡ []) ⊎ (0 < length s)
nil-cases [] = inl refl
nil-cases (c ∷ s) = inr (omega arith)

-- gettoken returns 0 at the end of the line, and consumes a byte anywhere else.
pub gettoken-bind :
    {B : Type 0} (b c : ℕ) (s : List ℕ) (f : ℕ × List ℕ → P B)
    → length s ≤ b
    → Leaves c (f (0, []) [])
    → ((tok : ℕ × List ℕ) (t : List ℕ) → length t < b → Leaves c (f tok t))
    → Leaves c ((gettoken >>= f) s)
gettoken-bind b c s f h k l = elim (nil-cases (skip_white s)) [
  | inl e ↦ subst (Leaves c) (sym (bind_done gettoken f (gettoken_end s e))) k
  | inr e ↦
      Leaves-bind (b - 1) c gettoken f s (gettoken_consumes b s e h)
        (λ tok t r. l tok t (omega (arith, length-skip_white s)))
]

pub skip_white_nothing : skip_white [] ≡ []
unfolding skip_white
skip_white_nothing = refl
