-- ===== src/Assembly/Expressions/Fuel.antt =====
-- The expression parser never runs out of fuel.
use vibe_pio.Base.{
  ℕ, zero, suc, ◌+◌, ◌-◌, ◌*◌, ◌≤◌, ◌≡◌, ◌≢◌, ◌⊎◌, refl, ap, arith, Bool, true, false, ltb, List,
  [], ◌∷◌, length, Option, none, some, if◌then◌else◌, if_both, Result, ok, err, ◌>>=◌, ◌>>◌,
  Bool-cases, inl, inr, out_of_fuel, assembly_error, raise_if, overflow_error, Fuelled,
  Fuelled-bind, if-Fuelled,
}
use vibe_pio.Text.{String, is_space, str_eq}
use vibe_pio.Assembly.Integers.{
  ℤ, pos, negsuc, quot_ℤ, shl_ℤ, shr_ℤ, ◌-ℤ◌, ◌*ℤ◌, is_zero, neg, complement,
}
use vibe_pio.Assembly.Expressions.{
  Symbols, Parsed, expr_tokens, token_length, token_then, token_at, tokens_from, operand, known,
  int_of, symbol, precedence, apply_op, bound, binds, closed, primary, binary, operations,
  eval_expr,
}

-- It has fuel to the end, and what it returns leaves at most `n` tokens.
abbrev Leaves : ℕ → Parsed → Type 0
Leaves n (ok (v, toks)) = length toks ≤ n
Leaves n (err e) = e ≢ out_of_fuel

Leaves-bind :
    (k n : ℕ) (r : Parsed) (f : ℤ × List String → Parsed)
    → Leaves k r
    → ((v : ℤ) (toks : List String) → length toks ≤ k → Leaves n (f (v, toks)))
    → Leaves n (r >>= f)
Leaves-bind k n (err e) f fuelled h = fuelled
Leaves-bind k n (ok (v, toks)) f left h = h v toks left

Leaves-value :
    (n : ℕ) (r : Result ℤ) (f : ℤ → Parsed)
    → Fuelled r
    → ((v : ℤ) → Leaves n (f v))
    → Leaves n (r >>= f)
Leaves-value n (err e) f fuelled h = fuelled
Leaves-value n (ok v) f left h = h v

Leaves-weaken : (k n : ℕ) (r : Parsed) → k ≤ n → Leaves k r → Leaves n r
Leaves-weaken k n (err e) h l = l
Leaves-weaken k n (ok (v, toks)) h l = omega arith

known-Leaves :
    (toks : List String) (n : Option ℕ) (v : Option ℤ) → Leaves (length toks) (known toks n v)
known-Leaves toks (some n) v = omega arith
known-Leaves toks none (some v) = omega arith
known-Leaves toks none none = λ h. cc

in_range-Fuelled : (b : Bool) (z : ℤ) → Fuelled (if b then ok z else err overflow_error)
in_range-Fuelled b z = if_both (Fuelled {A = ℤ}) b tt (λ h. cc)

quot-Fuelled : (a b : ℤ) → Fuelled (quot_ℤ a b)
unfolding quot_ℤ
quot-Fuelled a (pos zero) = λ h. cc
quot-Fuelled (pos a) (pos (suc b)) = in_range-Fuelled _ _
quot-Fuelled (pos a) (negsuc b) = in_range-Fuelled _ _
quot-Fuelled (negsuc a) (pos (suc b)) = in_range-Fuelled _ _
quot-Fuelled (negsuc a) (negsuc b) = in_range-Fuelled _ _

shl-Fuelled : (a b : ℤ) → Fuelled (shl_ℤ a b)
unfolding shl_ℤ
shl-Fuelled a (negsuc n) = λ h. cc
shl-Fuelled (pos a) (pos n) = tt
shl-Fuelled (negsuc a) (pos n) = tt

shr-Fuelled : (a b : ℤ) → Fuelled (shr_ℤ a b)
unfolding shr_ℤ
shr-Fuelled a (negsuc n) = λ h. cc
shr-Fuelled (pos a) (pos n) = tt
shr-Fuelled (negsuc a) (pos n) = tt

raise-Fuelled : (b : Bool) (r : Result ℤ) → Fuelled r → Fuelled (raise_if b assembly_error >> r)
raise-Fuelled true r h = λ e. cc
raise-Fuelled false r h = h

map-Fuelled : (r : Result ℤ) (f : ℤ → ℤ) → Fuelled r → Fuelled (r >>= λ v. ok (f v))
map-Fuelled (ok v) f h = tt
map-Fuelled (err e) f h = h

apply_op-Fuelled : (op : String) (v w : ℤ) → Fuelled (apply_op op v w)
unfolding apply_op
apply_op-Fuelled op v w = if-Fuelled (str_eq op "+") _ _ tt (
    if-Fuelled (str_eq op "-") _ _ tt (
      if-Fuelled (str_eq op "*") _ _ tt (
        if-Fuelled (str_eq op "/") _ _ (raise-Fuelled (is_zero w) (quot_ℤ v w) (quot-Fuelled v w)) (
          if-Fuelled (str_eq op "%") _ _
            (map-Fuelled (quot_ℤ v w) (λ q. v -ℤ (w *ℤ q)) (quot-Fuelled v w))
            (if-Fuelled (str_eq op "<<") _ _ (shl-Fuelled v w) (
              if-Fuelled (str_eq op ">>") _ _ (shr-Fuelled v w)
                (if-Fuelled (str_eq op "&") _ _ tt (if-Fuelled (str_eq op "|") _ _ tt tt))))))))

operand-Leaves :
    (syms : Symbols) (tok : String) (toks : List String)
    → Leaves (length toks) (operand syms tok toks)
unfolding operand
operand-Leaves syms tok toks = known-Leaves toks (int_of tok) (symbol syms tok)

closed-Leaves : (v : ℤ) (toks : List String) → Leaves (length toks) (closed (v, toks))
closed-Leaves v [] = λ h. cc
closed-Leaves v (t ∷ toks) =
    if_both (Leaves (suc (length toks))) (str_eq t ")") (omega arith) (λ h. cc)

bound-cases :
    (p : ℕ) (op : String) (toks : List String) (o : Option ℕ)
    → (bound p op toks o ≡ none) ⊎ ((q : ℕ) × (bound p op toks o ≡ some (op, q, toks)))
bound-cases p op toks none = inl refl
bound-cases p op toks (some q) = elim (Bool-cases (ltb q p)) [
  | inl loose ↦ inl (rw loose refl)
  | inr tight ↦ inr (q, rw tight refl)
]

-- A text that begins with an operator that binds, or one that does not.
binds-cases :
    (p : ℕ) (toks : List String)
    → (binds p toks ≡ none)
      ⊎ ((op : String) × (q : ℕ) × (later : List String) × (binds p toks ≡ some (op, q, later))
          × (toks ≡ op ∷ later))
binds-cases p [] = inl refl
binds-cases p (op ∷ toks) = elim (bound-cases p op toks (precedence op)) [
  | inl stop ↦ inl stop
  | inr (q, go) ↦ inr (op, q, toks, go, refl)
]

neg-Leaves : (n : ℕ) (f : ℤ → ℤ) (r : Parsed) → Leaves n r → Leaves n (r >>= λ x. ok (f x.0, x.1))
neg-Leaves n f (err e) h = h
neg-Leaves n f (ok (v, toks)) h = h

either_left :
    (n : ℕ) (b : Bool) (x y : Parsed) → Leaves n x → Leaves n y → Leaves n (if b then x else y)
either_left n b x y p q = if_both (Leaves n) b {yes = x} {no = y} p q

-- The number of tokens behind the first.
abbrev behind_first : List String → ℕ
behind_first [] = 0
behind_first (t ∷ toks) = length toks

behind_first-le : (toks : List String) → behind_first toks ≤ length toks
behind_first-le [] = omega arith
behind_first-le (t ∷ toks) = omega arith

mutual
  unfolding primary binary operations

  primary-Leaves :
      (f : ℕ) (syms : Symbols) (toks : List String)
      → 2 * length toks + 1 ≤ f
      → Leaves (behind_first toks) (primary f syms toks)
  primary-Leaves zero syms toks h = absurd (omega arith)
  primary-Leaves (suc f) syms [] h = λ e. cc
  primary-Leaves (suc f) syms (tok ∷ toks) h =
      let n = length toks in
      let inner =
        Leaves-weaken (behind_first toks) n (primary f syms toks) (behind_first-le toks)
          (primary-Leaves f syms toks (omega arith)) in
      either_left n (str_eq tok "(") _ _
        (Leaves-bind (behind_first toks) n (binary f syms 0 toks) closed
          (binary-Leaves f syms 0 toks (omega arith))
          (λ v ts k.
            Leaves-weaken (length ts) n (closed (v, ts)) (omega (arith, behind_first-le toks))
              (closed-Leaves v ts)))
        (either_left n (str_eq tok "-") _ _ (neg-Leaves n neg (primary f syms toks) inner) (
          either_left n (str_eq tok "~") _ _ (neg-Leaves n complement (primary f syms toks) inner)
            (either_left n (str_eq tok "+") _ _ inner (operand-Leaves syms tok toks))))

  binary-Leaves :
      (f : ℕ) (syms : Symbols) (p : ℕ) (toks : List String)
      → 2 * length toks + 2 ≤ f
      → Leaves (behind_first toks) (binary f syms p toks)
  binary-Leaves zero syms p toks h = absurd (omega arith)
  binary-Leaves (suc zero) syms p [] h = absurd (omega arith)
  binary-Leaves (suc (suc f)) syms p [] h = λ e. cc
  binary-Leaves (suc f) syms p (t ∷ toks) h =
      Leaves-bind (length toks) (length toks) (primary f syms (t ∷ toks))
        (λ r. operations f syms p r.0 r.1) (primary-Leaves f syms (t ∷ toks) (omega arith))
        (λ v ts k.
          Leaves-weaken (length ts) (length toks) (operations f syms p v ts) k
            (operations-Leaves f syms p v ts (omega arith)))

  operations-Leaves :
      (f : ℕ) (syms : Symbols) (p : ℕ) (v : ℤ) (toks : List String)
      → 2 * length toks + 2 ≤ f
      → Leaves (length toks) (operations f syms p v toks)
  operations-Leaves zero syms p v toks h = absurd (omega arith)
  operations-Leaves (suc f) syms p v toks h = elim (binds-cases p toks) [
    | inl stop ↦ rw stop (omega arith)
    | inr (op, q, later, go, e) ↦
        let n = length later in
        let fewer = behind_first-le later in
        let one_less : length toks ≡ suc n = ap length e in
        rw go (
          Leaves-bind (behind_first later) (length toks) (binary f syms (q + 1) later) _
            (binary-Leaves f syms (q + 1) later (omega arith))
            (λ w ts k.
              Leaves-value (length toks) (apply_op op v w) _ (apply_op-Fuelled op v w) (λ u.
                Leaves-weaken (length ts) (length toks) (operations f syms p u ts) (omega arith)
                  (operations-Leaves f syms p u ts (omega arith)))))
  ]

token_then-Fuelled :
    (t : Option String) (rest : Result (List String)) → Fuelled rest → Fuelled (token_then t rest)
token_then-Fuelled none rest h = λ e. cc
token_then-Fuelled (some t) rest h = Fuelled-bind rest (λ later. ok (t ∷ later)) h (λ l _. tt)

tokens-Fuelled : (k : ℕ) (s : String) → Fuelled (tokens_from k s)
unfolding tokens_from
tokens-Fuelled k String.[] = tt
tokens-Fuelled (suc k) (String.◌∷◌ c s) = tokens-Fuelled k s
tokens-Fuelled zero (String.◌∷◌ c s) =
    let rest = tokens-Fuelled (token_length (token_at c s) - 1) s in
    if_both (Fuelled {A = List String}) (is_space c) rest (token_then-Fuelled (token_at c s) _ rest)

Leaves-Fuelled : (n : ℕ) (r : Parsed) → Leaves n r → Fuelled r
Leaves-Fuelled n (ok p) h = tt
Leaves-Fuelled n (err e) h = h

pub eval_expr-Fuelled : (text : String) (syms : Symbols) → Fuelled (eval_expr text syms)
unfolding eval_expr expr_tokens
eval_expr-Fuelled text syms = Fuelled-bind (tokens_from 0 text) _ (tokens-Fuelled 0 text) (λ toks _.
    let parsed = binary (2 * length toks + 2) syms 0 toks in
    Fuelled-bind parsed (λ r. ok r.0)
      (Leaves-Fuelled (behind_first toks) parsed
        (binary-Leaves (2 * length toks + 2) syms 0 toks (omega arith)))
      (λ r _. tt))
