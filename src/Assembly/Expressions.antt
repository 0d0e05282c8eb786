-- ===== src/Assembly/Expressions.antt =====
-- `_expr_tokens`, `_ExprParser` and `eval_expr` of tools/pio_model/asm.py, on ASCII texts.
pub mod Fuel
use Prim.Native.Char.{Char, code}
use vibe_pio.Base.{
  ℕ, zero, suc, ◌+◌, ◌-◌, ◌*◌, ◌==◌, ◌&&◌, ◌||◌, not, Bool, true, false, ltb, leb, List, [], ◌∷◌,
  length, if◌then◌else◌, Option, none, some, Result, ok, err, ◌>>=◌, ◌>>◌, raise_if, assembly_error,
  out_of_fuel,
}
use vibe_pio.Text.{
  String, ◌<>◌, str_eq, starts_with, is_empty, is_space, is_digit, is_alpha, is_word, span,
  contains, drop_chars, chars,
}
use vibe_pio.Assembly.Integers.{
  ℤ, pos, negsuc, is_zero, neg, ◌+ℤ◌, ◌-ℤ◌, ◌*ℤ◌, complement, and_ℤ, or_ℤ, xor_ℤ, shl_ℤ, shr_ℤ,
  quot_ℤ,
}

-- `dict[str, int]`; an update stands in front of what it replaces.
abbrev pub Symbols : Type 0
Symbols = List (String × ℤ)

unfoldable pub symbol : Symbols → String → Option ℤ
symbol [] name = none
symbol ((k, v) ∷ m) name = if str_eq k name then some v else symbol m name

abbrev pub is_hex : Char → Bool
is_hex c =
    is_digit c || leb b'a' (code c) && leb (code c) b'f' || leb b'A' (code c) && leb (code c) b'F'

abbrev pub is_binary : Char → Bool
is_binary c = (code c == b'0') || (code c == b'1')

abbrev starts_name : Char → Bool
starts_name c = is_alpha c || (code c == b'_') || (code c == b'.')

abbrev in_name : Char → Bool
in_name c = is_word c || (code c == b'.')

abbrev one_of : Char → String → Bool
one_of c s = contains s (String.◌∷◌ c String.[])

-- `0[xX]` or `0[bB]` with the digits behind it, where there are any.
abbrev prefixed : Char → Bool → (Char → Bool) → String → Option String
prefixed x marked test digits =
    let run = (span test digits).0 in
    if marked && not (is_empty run) then some ("0" <> String.◌∷◌ x run) else none

abbrev first_of : Option String → Option String → Option String
first_of none later = later
first_of (some t) later = some t

abbrev run_if : Bool → String → Option String
run_if true t = some t
run_if false t = none

based : Char → String → Option String
based c String.[] = none
based c (String.◌∷◌ x s) =
    if code c == b'0'
    then first_of (prefixed x (one_of x "xX") is_hex s) (prefixed x (one_of x "bB") is_binary s)
    else none

-- `_TOK_RE` at a text that begins with `c`: the token.
unfoldable pub token_at : Char → String → Option String
unfolding span based contains starts_with
token_at c s =
    let whole = String.◌∷◌ c s in
    first_of (based c s) (
      first_of (run_if (is_digit c) (span is_digit whole).0) (
        first_of (run_if (starts_name c) (span in_name whole).0) (
          first_of (run_if (starts_with whole "<<") "<<") (
            first_of (run_if (starts_with whole ">>") ">>")
              (run_if (one_of c "()+-*/%&|^~") (String.◌∷◌ c String.[]))))))

abbrev token_length : Option String → ℕ
token_length none = 0
token_length (some t) = chars t

abbrev token_then : Option String → Result (List String) → Result (List String)
token_then none rest = err assembly_error
token_then (some t) rest = do later ← rest; ok (t ∷ later)

-- The loop of `_expr_tokens`, `k` characters before the next `pos`.
tokens_from : ℕ → String → Result (List String)
tokens_from k String.[] = ok []
tokens_from (suc k) (String.◌∷◌ c s) = tokens_from k s
tokens_from zero (String.◌∷◌ c s) =
    let rest = tokens_from (token_length (token_at c s) - 1) s in
    if is_space c then rest else token_then (token_at c s) rest

unfoldable pub expr_tokens : String → Result (List String)
unfolding tokens_from token_at chars
expr_tokens s = tokens_from 0 s

digit_value : Char → ℕ
digit_value c =
    if leb (code c) b'9'
    then code c - b'0'
    else if leb b'a' (code c)
    then code c + 10 - b'a'
    else code c + 10 - b'A'

number_from : ℕ → ℕ → String → ℕ
number_from base n String.[] = n
number_from base n (String.◌∷◌ c s) = number_from base (n * base + digit_value c) s

-- `int(tok, 0)` of a token; `none` where it raises. A decimal number has no leading zeros.
unfoldable pub int_of : String → Option ℕ
unfolding number_from digit_value drop_chars span starts_with
int_of t =
    if starts_with t "0x" || starts_with t "0X"
    then some (number_from 16 0 (drop_chars 2 t))
    else if starts_with t "0b" || starts_with t "0B"
    then some (number_from 2 0 (drop_chars 2 t))
    else if is_empty t || not (is_empty (span is_digit t).1)
    then none
    else if starts_with t "0" && not (number_from 10 0 t == 0)
    then none
    else some (number_from 10 0 t)

-- `_PREC`
unfoldable pub precedence : String → Option ℕ
precedence op =
    if str_eq op "|"
    then some 1
    else if str_eq op "^"
    then some 2
    else if str_eq op "&"
    then some 3
    else if str_eq op "<<" || str_eq op ">>"
    then some 4
    else if str_eq op "+" || str_eq op "-"
    then some 5
    else if str_eq op "*" || str_eq op "/" || str_eq op "%"
    then some 6
    else none

-- `v op= rhs`
unfoldable pub apply_op : String → ℤ → ℤ → Result ℤ
apply_op op v rhs =
    if str_eq op "+"
    then ok (v +ℤ rhs)
    else if str_eq op "-"
    then ok (v -ℤ rhs)
    else if str_eq op "*"
    then ok (v *ℤ rhs)
    else if str_eq op "/"
    then (raise_if (is_zero rhs) assembly_error >> quot_ℤ v rhs)
    else if str_eq op "%"
    then (do q ← quot_ℤ v rhs; ok (v -ℤ (rhs *ℤ q)))
    else if str_eq op "<<"
    then shl_ℤ v rhs
    else if str_eq op ">>"
    then shr_ℤ v rhs
    else if str_eq op "&"
    then ok (and_ℤ v rhs)
    else if str_eq op "|"
    then ok (or_ℤ v rhs)
    else ok (xor_ℤ v rhs)

-- A value with the tokens that are left.
abbrev pub Parsed : Type 0
Parsed = Result (ℤ × List String)

-- The value of a token: an integer, or else what a symbol stands for.
abbrev pub known : List String → Option ℕ → Option ℤ → Parsed
known toks (some n) v = ok (pos n, toks)
known toks none (some v) = ok (v, toks)
known toks none none = err assembly_error

-- A token that is no operator and no parenthesis.
unfoldable pub operand : Symbols → String → List String → Parsed
unfolding int_of symbol
operand sym tok toks = known toks (int_of tok) (symbol sym tok)

-- `if self.take() != ")": raise`
abbrev closed : ℤ × List String → Parsed
closed (v, []) = err assembly_error
closed (v, t ∷ toks) = if str_eq t ")" then ok (v, toks) else err assembly_error

abbrev bound : ℕ → String → List String → Option ℕ → Option (String × ℕ × List String)
bound min_prec op toks none = none
bound min_prec op toks (some p) = if ltb p min_prec then none else some (op, p, toks)

-- The operator in front, where it binds at least as tightly as `min_prec`.
abbrev binds : ℕ → List String → Option (String × ℕ × List String)
binds min_prec [] = none
binds min_prec (op ∷ toks) = bound min_prec op toks (precedence op)

-- The body of the loop of `binary`, with the calls that it makes.
abbrev operate :
    (ℕ → List String → Parsed)
    → (ℤ → List String → Parsed)
    → ℤ
    → List String
    → Option (String × ℕ × List String)
    → Parsed
operate right next v toks none = ok (v, toks)
operate right next v toks (some (op, p, later)) = do
  r ← right (p + 1) later
  w ← apply_op op v r.0
  next w r.1

-- The parser, on fuel; `eval_expr` gives two for each token.
mutual
  primary : ℕ → Symbols → List String → Parsed
  primary zero sym toks = err out_of_fuel
  primary (suc f) sym [] = err assembly_error
  primary (suc f) sym (tok ∷ toks) =
      let group = binary f sym 0 toks >>= closed in
      let inner = primary f sym toks in
      if str_eq tok "("
      then group
      else if str_eq tok "-"
      then (do r ← inner; ok (neg r.0, r.1))
      else if str_eq tok "~"
      then (do r ← inner; ok (complement r.0, r.1))
      else if str_eq tok "+"
      then inner
      else operand sym tok toks

  binary : ℕ → Symbols → ℕ → List String → Parsed
  binary zero sym min_prec toks = err out_of_fuel
  binary (suc f) sym min_prec toks = do r ← primary f sym toks; operations f sym min_prec r.0 r.1

  -- The loop of `binary`.
  operations : ℕ → Symbols → ℕ → ℤ → List String → Parsed
  operations zero sym min_prec v toks = err out_of_fuel
  operations (suc f) sym min_prec v toks =
      operate (binary f sym) (operations f sym min_prec) v toks (binds min_prec toks)

-- Tokens behind the expression are not read.
unfoldable pub eval_expr : String → Symbols → Result ℤ
unfolding expr_tokens primary binary operations
eval_expr text sym = do toks ← expr_tokens text; r ← binary (2 * length toks + 2) sym 0 toks; ok r.0
