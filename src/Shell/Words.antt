-- ===== src/Shell/Words.antt =====
-- lab3/src/client-shell.c, tokenize: the words of a line.
use cs333_os_labs.Fs.Paths.Elements.{cons_head, nonempty}
use cs333_os_labs.Prelude.{
  Bool, Bool-cases, List, [], ap, arith, if◌then◌else◌, inl, inr, leb, length, length-append, ltb,
  refl, some, subst, sym, true, ℕ, ◌&&◌, ◌++◌, ◌+◌, ◌<◌, ◌∙◌, ◌∷◌, ◌≡◌,
}
use cs333_os_labs.Shell.{add_token, is_blank, max_num_tokens, max_token_size, token_loop, tokenize}
use mathlib.Core.List.{append-nil, append_assoc}

-- The fields of a line between its blanks.
abbrev pub blank_fields : List ℕ → List (List ℕ)
blank_fields [] = [] ∷ []
blank_fields (c ∷ cs) = if is_blank c then [] ∷ blank_fields cs else cons_head c (blank_fields cs)

-- The words of a line: its fields that are not empty.
abbrev pub words : List ℕ → List (List ℕ)
words line = nonempty (blank_fields line)

-- No word is too long for `token`.
abbrev pub all_short : List (List ℕ) → Bool
all_short [] = true
all_short (f ∷ fs) = ltb (length f) max_token_size && all_short fs

-- The fields when the bytes `token` come first.
abbrev prefixed : List ℕ → List (List ℕ) → List (List ℕ)
prefixed token [] = token ∷ []
prefixed token (f ∷ fs) = (token ++ f) ∷ fs

nonempty-add :
    (token : List ℕ) (fs tokens : List (List ℕ))
    → tokens ++ nonempty (token ∷ fs) ≡ add_token token tokens ++ nonempty fs
nonempty-add [] fs tokens = refl
nonempty-add (c ∷ token) fs tokens = sym (append_assoc tokens ((c ∷ token) ∷ []) (nonempty fs))

prefixed-cons :
    (token : List ℕ) (c : ℕ) (fs : List (List ℕ))
    → prefixed (token ++ c ∷ []) fs ≡ prefixed token (cons_head c fs)
prefixed-cons token c [] = refl
prefixed-cons token c (f ∷ fs) = ap (λ x. x ∷ fs) (append_assoc token (c ∷ []) f)

prefixed_nil : (fs : List (List ℕ)) → nonempty (prefixed [] fs) ≡ nonempty fs
prefixed_nil [] = refl
prefixed_nil (f ∷ fs) = refl

length-add_token :
    (token : List ℕ) (tokens : List (List ℕ))
    → length (add_token token tokens) ≡ length tokens + length (nonempty (token ∷ []))
length-add_token [] tokens = omega arith
length-add_token (c ∷ token) tokens = omega (arith, length-append tokens ((c ∷ token) ∷ []))

length-nonempty :
    (token : List ℕ) (fs : List (List ℕ))
    → length (nonempty (token ∷ fs)) ≡ length (nonempty (token ∷ [])) + length (nonempty fs)
length-nonempty [] fs = omega arith
length-nonempty (c ∷ token) fs = omega arith

short_first :
    (token : List ℕ) (fs : List (List ℕ))
    → all_short (nonempty (token ∷ fs)) ≡ true
    → (ltb (length token) max_token_size ≡ true) × (all_short (nonempty fs) ≡ true)
short_first [] fs e = (refl, e)
short_first (c ∷ token) fs e = (ground (arith, e), ground (arith, e))

short_prefix :
    (token : List ℕ) (c : ℕ) (fs : List (List ℕ))
    → all_short (nonempty (prefixed token (cons_head c fs))) ≡ true
    → ltb (length token) max_token_size ≡ true
short_prefix token c [] e =
    let (a, b) = short_first (token ++ c ∷ []) [] e in
    ground (arith, a, length-append token (c ∷ []))
short_prefix token c (f ∷ fs) e =
    let (a, b) = short_first (token ++ c ∷ f) fs e in ground (arith, a, length-append token (c ∷ f))

token_loop_lem :
    (line token : List ℕ) (tokens : List (List ℕ))
    → all_short (nonempty (prefixed token (blank_fields line))) ≡ true
    → length tokens + length (nonempty (prefixed token (blank_fields line))) < max_num_tokens
    → token_loop (line ++ 10 ∷ []) token tokens
      ≡ some (tokens ++ nonempty (prefixed token (blank_fields line)))
unfolding token_loop
token_loop_lem [] token tokens e l =
    let same : nonempty ((token ++ []) ∷ []) ≡ nonempty (token ∷ []) =
      ap (λ t. nonempty (t ∷ [])) (append-nil token) in
    let (a, b) = short_first token [] (subst (λ fs. all_short fs ≡ true) same e) in
    let room : ltb (length (add_token token tokens)) max_num_tokens ≡ true =
      ground (arith, l, ap length same, length-add_token token tokens) in
    let fits : leb (length (add_token token tokens)) max_num_tokens ≡ true = ground (arith, room) in
    rw (a, fits, room, same)
      (ap some (sym (nonempty-add token [] tokens ∙ append-nil (add_token token tokens))))
token_loop_lem (c ∷ line) token tokens e l = elim (Bool-cases (is_blank c)) [
  | inl b ↦
      let rest = blank_fields line in
      let split : nonempty (prefixed token (blank_fields (c ∷ line))) ≡ nonempty (token ∷ rest) =
        rw b (ap (λ t. nonempty (t ∷ rest)) (append-nil token)) in
      let (a, short) = short_first token rest (subst (λ fs. all_short fs ≡ true) split e) in
      let size = length-add_token token tokens in
      let sum = length-nonempty token rest in
      let all = ap length split in
      let fits : leb (length (add_token token tokens)) max_num_tokens ≡ true =
        ground (arith, l, size, sum, all) in
      let run : token_loop (c ∷ line ++ 10 ∷ []) token tokens
          ≡ token_loop (line ++ 10 ∷ []) [] (add_token token tokens) =
        rw (a, b, fits) refl in
      let next =
        token_loop_lem line [] (add_token token tokens)
          (subst (λ fs. all_short fs ≡ true) (sym (prefixed_nil rest)) short)
          (omega (arith, l, size, sum, all, ap length (prefixed_nil rest))) in
      run
      ∙ next
      ∙ ap some (
          ap (λ fs. add_token token tokens ++ fs) (prefixed_nil rest)
          ∙ sym (nonempty-add token rest tokens)
          ∙ ap (λ fs. tokens ++ fs) (sym split))
  | inr b ↦
      let rest = blank_fields line in
      let same : nonempty (prefixed token (blank_fields (c ∷ line)))
          ≡ nonempty (prefixed token (cons_head c rest)) =
        rw b refl in
      let join = same ∙ ap nonempty (sym (prefixed-cons token c rest)) in
      let a = short_prefix token c rest (subst (λ fs. all_short fs ≡ true) same e) in
      let run : token_loop (c ∷ line ++ 10 ∷ []) token tokens
          ≡ token_loop (line ++ 10 ∷ []) (token ++ c ∷ []) tokens =
        rw (a, b) refl in
      let next =
        token_loop_lem line (token ++ c ∷ []) tokens (subst (λ fs. all_short fs ≡ true) join e)
          (omega (arith, l, ap length join)) in
      run ∙ next ∙ ap (λ fs. some (tokens ++ fs)) (sym join)
]

-- tokenize of a line that ends with a newline gives the non-empty fields of the line between its
-- blanks, in order, where each is shorter than MAX_TOKEN_SIZE and there are fewer than
-- MAX_NUM_TOKENS.
pub tokenize_lem :
    (line : List ℕ)
    → all_short (words line) ≡ true
    → length (words line) < max_num_tokens
    → tokenize (line ++ 10 ∷ []) ≡ some (words line)
unfolding tokenize
tokenize_lem line e l =
    let same = prefixed_nil (blank_fields line) in
    token_loop_lem line [] [] (subst (λ fs. all_short fs ≡ true) (sym same) e)
      (omega (arith, l, ap length same))
    ∙ ap some same
