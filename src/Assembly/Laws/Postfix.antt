-- ===== src/Assembly/Laws/Postfix.antt =====
-- The loop over the postfixes takes what the disassembler appends off a text.
use text.Mathlib.TextEquality.{eq_iff}
use text.Mathlib.TextLemmas.{append-nil}
use vibe_pio.Base.{
  ℕ, zero, suc, ◌==◌, ◌<◌, ◌≡◌, refl, sym, ap, ap₂, ◌∙◌, arith, ◌&&◌, not, Bool, true, false,
  if◌then◌else◌, Option, none, some, Result, ok, err, each_below, each_below-lookup, both_true,
  ==_iff,
}
use vibe_pio.Text.{String, ◌<>◌, str_eq, decimal, strip, chars}
use vibe_pio.Disassembly.{text_if}
use vibe_pio.Assembly.Integers.{ℤ, pos, negsuc}
use vibe_pio.Assembly.Expressions.{Symbols, eval_expr, operand}
use vibe_pio.Assembly.Postfixes.{
  delay_at, delay_search, side_at, side_search, Postfixed, take_postfixes, postfixes,
}
use vibe_pio.Assembly.Laws.Searches.{
  begins, ends, no_bracket, no_side, bracket_first, i_first, before_delay, before_side,
  inside_after, delay_search-append, side_search-append, begins-append, ends-append, strip-filled,
  strip_space,
}

abbrev pub side_part : Bool → ℕ → String
side_part ss v = text_if ss (" side " <> decimal v)

abbrev pub delay_part : ℕ → String
delay_part n = text_if (not (n == 0)) (" [" <> (decimal n <> "]"))

abbrev finds : Option (String × String) → String → String → Bool
finds none a b = false
finds (some (x, y)) a b = str_eq x a && str_eq y b

abbrev finds_none : Option (String × String) → Bool
finds_none none = true
finds_none (some p) = false

finds_lem : (r : Option (String × String)) (a b : String) → finds r a b ≡ true → r ≡ some (a, b)
finds_lem none a b h = cc
finds_lem (some (x, y)) a b h =
    let (p, q) = both_true (str_eq x a) (str_eq y b) h in
    ap₂ (λ s t. some (s, t)) ((eq_iff x a).0 p) ((eq_iff y b).0 q)

finds_none_lem : (r : Option (String × String)) → finds_none r ≡ true → r ≡ none
finds_none_lem none h = refl
finds_none_lem (some p) h = cc

delay_test : Bool → ℕ → ℕ → Bool
delay_test ss v n =
    let u = side_part ss v <> delay_part n in
    not (bracket_first u)
    && (if n == 0
        then finds_none (delay_search u)
        else finds (delay_search u) (side_part ss v) (decimal n))

delay_check : (ss : Bool) → each_below 32 (λ v. each_below 32 (delay_test ss v)) ≡ true
unfolding each_below delay_test delay_search delay_at decimal
delay_check true = refl
delay_check false = refl

abbrev side_test : Bool → ℕ → Bool
side_test b v =
    let u = side_part true v in
    finds (side_search b u) (decimal v) " " && (ends u && not (i_first u))

side_check : (b : Bool) → each_below 32 (side_test b) ≡ true
unfolding each_below side_search side_at decimal ends
side_check true = refl
side_check false = refl

abbrev is_pos : Result ℤ → ℕ → Bool
is_pos (ok (pos n)) v = n == v
is_pos (ok (negsuc n)) v = false
is_pos (err e) v = false

is_pos-ok : (r : Result ℤ) (v : ℕ) → is_pos r v ≡ true → r ≡ ok (pos v)
is_pos-ok (ok (pos n)) v h = ap (λ m. ok (pos m)) ((==_iff n v).0 h)
is_pos-ok (ok (negsuc n)) v h = cc
is_pos-ok (err e) v h = cc

value_check : (syms : Symbols) → each_below 32 (λ v. is_pos (eval_expr (decimal v) syms) v) ≡ true
unfolding each_below decimal eval_expr operand
value_check syms = refl

-- A numeral below 32 is evaluated to its number, whatever the symbols are.
eval_expr-decimal : (syms : Symbols) (v : ℕ) → v < 32 → eval_expr (decimal v) syms ≡ ok (pos v)
eval_expr-decimal syms v h =
    is_pos-ok (eval_expr (decimal v) syms) v
      (each_below-lookup 32 (λ v. is_pos (eval_expr (decimal v) syms) v) v (value_check syms) h)

then_true : (b x y : Bool) → (if b then x else y) ≡ true → b ≡ true → x ≡ true
then_true b x y h k = ground arith

else_true : (b x y : Bool) → (if b then x else y) ≡ true → b ≡ false → y ≡ true
else_true b x y h k = ground arith

not-true : (b : Bool) → not b ≡ true → b ≡ false
not-true b h = ground arith

module _ (ss : Bool) (v n : ℕ) (small_v : v < 32) (small_n : n < 32) where
  abbrev tail_text : String
  tail_text = side_part ss v <> delay_part n

  tested : delay_test ss v n ≡ true
  tested =
      let row =
        each_below-lookup 32 (λ v. each_below 32 (delay_test ss v)) v (delay_check ss) small_v in
      each_below-lookup 32 (delay_test ss v) n row small_n

  tail-bracket : bracket_first tail_text ≡ false
  unfolding delay_test
  tail-bracket = not-true (bracket_first tail_text) (both_true _ _ tested).0

  delay_none : (n == 0) ≡ true → delay_search tail_text ≡ none
  unfolding delay_test
  delay_none zero_n =
      finds_none_lem (delay_search tail_text)
        (then_true (n == 0) _ _ (both_true _ _ tested).1 zero_n)

  delay_found : (n == 0) ≡ false → delay_search tail_text ≡ some (side_part ss v, decimal n)
  unfolding delay_test
  delay_found filled =
      finds_lem (delay_search tail_text) (side_part ss v) (decimal n)
        (else_true (n == 0) _ _ (both_true _ _ tested).1 filled)

module _ (t : String) (starts : begins t ≡ true) (stops : ends t ≡ true)
    (brackets : no_bracket t ≡ true) (sides : no_side t ≡ true) (syms : Symbols) where
  no_delay_here : delay_search t ≡ none
  unfolding delay_search
  no_delay_here = ap delay_search (sym (append-nil t)) ∙ delay_search-append t "" brackets refl

  no_side_here : side_search false t ≡ none
  unfolding side_search
  no_side_here =
      ap (side_search false) (sym (append-nil t)) ∙ side_search-append false t "" sides refl

  abbrev pub taken : String → ℕ → ℕ → Bool → Postfixed
  taken line n v ss = record { line = line; delay = pos n; side_val = pos v; side_present = ss }

  -- A line without postfixes ends the loop.
  take_none :
      (f n v : ℕ) (ss : Bool) → take_postfixes (suc f) syms (taken t n v ss) ≡ ok (taken t n v ss)
  unfolding take_postfixes
  take_none f n v ss = rw (no_delay_here, no_side_here) refl

  module _ (v : ℕ) (small_v : v < 32) where
    side_tested : (b : Bool) → side_test b v ≡ true
    side_tested b = each_below-lookup 32 (side_test b) v (side_check b) small_v

    side_found : side_search false (t <> side_part true v) ≡ some (decimal v, t <> " ")
    side_found =
        let b = inside_after false t in
        let (found, shape) = both_true _ _ (side_tested b) in
        side_search-append false t (side_part true v) sides
          (not-true (i_first (side_part true v)) (both_true _ _ shape).1)
        ∙ ap (before_side t) (finds_lem (side_search b (side_part true v)) (decimal v) " " found)

    side_ends : ends (side_part true v) ≡ true
    side_ends = (both_true _ _ (both_true _ _ (side_tested true)).1).0

    no_delay_behind : (ss : Bool) → delay_search (t <> side_part ss v) ≡ none
    no_delay_behind ss =
        let u = side_part ss v in
        let nothing : delay_search u ≡ none =
          ap delay_search (sym (append-nil u)) ∙ delay_none ss v 0 small_v (omega arith) refl in
        let open_bracket : bracket_first u ≡ false =
          ap bracket_first (sym (append-nil u)) ∙ tail-bracket ss v 0 small_v (omega arith) in
        delay_search-append t u brackets open_bracket ∙ ap (before_delay t) nothing

    -- The round that takes `side`, if there is one.
    take_side :
        (f n : ℕ) (ss : Bool)
        → take_postfixes (suc (suc f)) syms (taken (t <> side_part ss v) n 0 false)
          ≡ ok (taken t n (if ss then v else 0) ss)
    unfolding take_postfixes
    take_side f n false = rw append-nil (take_none (suc f) n 0 false)
    take_side f n true =
        rw (no_delay_behind true, side_found)
          (rw (eval_expr-decimal syms v small_v)
            (rw (strip_space t starts stops) (take_none f n v true)))

    side_line : (ss : Bool) → strip (t <> side_part ss v) ≡ t <> side_part ss v
    side_line true =
        strip-filled (t <> side_part true v) (begins-append t (side_part true v) starts)
          (ends-append t (side_part true v) side_ends)
    side_line false = rw append-nil (strip-filled t starts stops)

    -- The loop gives back the text, the delay and the side-set of a line that the disassembler
    -- wrote.
    pub postfixes_lem :
        (n : ℕ) (ss : Bool)
        → n < 32
        → postfixes (t <> (side_part ss v <> delay_part n)) syms
          ≡ ok (taken t n (if ss then v else 0) ss)
    unfolding postfixes take_postfixes
    postfixes_lem zero ss small_n =
        rw (append-nil (side_part ss v)) (take_side (suc (chars (t <> side_part ss v))) 0 ss)
    postfixes_lem (suc n) ss small_n =
        let u = side_part ss v <> delay_part (suc n) in
        let found =
          delay_search-append t u brackets (tail-bracket ss v (suc n) small_v small_n)
          ∙ ap (before_delay t) (delay_found ss v (suc n) small_v small_n (ground arith)) in
        rw found (
          rw (eval_expr-decimal syms (suc n) small_n)
            (rw (side_line ss) (take_side (chars (t <> u)) (suc n) ss)))
