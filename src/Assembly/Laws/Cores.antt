-- ===== src/Assembly/Laws/Cores.antt =====
-- Every legal instruction without its postfix, by evaluation: its text assembles to its word, and
-- holds nothing that reads as a postfix.
use vibe_pio.Base.{
  Error, reserved_encoding, key_error, value_error, index_error, assertion_error, assembly_error,
  zero_division, overflow_error, out_of_fuel, each_below, each_below-lookup, both_true, dict_get,
  ==_iff, Bool-cases, inl, inr, subst, sym, ◌∙◌, ap, ℕ, ◌+◌, ◌*◌, ◌/◌, ◌%◌, ◌==◌, ◌<◌, ◌≡◌, refl,
  arith, ◌&&◌, ◌||◌, Bool, true, false, Result, ok, err,
}
use vibe_pio.Text.{
  String, decimal, lower, lstrip_by, rstrip_by, span, drop_chars, chars, contains, contains_word,
  split_words,
}
use vibe_pio.Encoding.Split.{split, SideSet, split_sideset, sideset_fields, encode}
use vibe_pio.Encoding.Decode.{
  Decoded, decode, blank, decode_class, decode_wait, decode_in, decode_pp, decode_mov, decode_irq,
  decode_set,
}
use vibe_pio.Encoding.Encode.{
  encode_jmp, encode_wait, encode_in, encode_out, encode_push, encode_pull, encode_put, encode_get,
  encode_mov, encode_irq, encode_set,
}
use vibe_pio.Disassembly.{
  core_text, jmp_text, wait_text, in_text, out_text, push_pull_text, aux_text, mov_text, irq_text,
  set_text, mode_name, op_text,
}
use vibe_pio.Assembly.Laws.Searches.{begins, ends, no_bracket, no_side}
use vibe_pio.Assembly.Laws.Named.{decoded, decoded-Alike, named_alike}
use vibe_pio.Assembly.Integers.{low_word}
use vibe_pio.Assembly.Expressions.{
  Symbols, eval_expr, expr_tokens, operand, int_of, precedence, token_at,
}
use vibe_pio.Assembly.Operands.{
  encode_core, encode_jmp_core, encode_wait_core, encode_mov_core, encode_irq_core, opnd, split2,
  rxfifo_index,
}
use vibe_pio.Assembly.Instruction.{assemble_core, space_commas}

abbrev pub is_clean : String → Bool
is_clean t = begins t && (ends t && (no_bracket t && no_side t))

abbrev is_ok : Result ℕ → ℕ → Bool
is_ok (ok v) w = v == w
is_ok (err e) w = false

abbrev is_reserved : Error → Bool
is_reserved reserved_encoding = true
is_reserved key_error = false
is_reserved value_error = false
is_reserved index_error = false
is_reserved assertion_error = false
is_reserved assembly_error = false
is_reserved zero_division = false
is_reserved overflow_error = false
is_reserved out_of_fuel = false

abbrev good_text : Symbols → Result String → ℕ → Bool
good_text sym (err e) w = is_reserved e
good_text sym (ok t) w = is_clean t && is_ok (assemble_core sym t) w

abbrev good_core : Symbols → Result Decoded → ℕ → ℕ → Bool
good_core sym (err e) named w = true
good_core sym (ok d) named w = d.illegal || good_text sym (core_text named d) w

abbrev pub core_word : ℕ → ℕ
core_word k = k / 256 * 8192 + k % 256

check : Symbols → ℕ → Bool
check sym k =
    good_core sym (decode (core_word k) false 0) (core_word k) (core_word k)
    && good_core sym (decode (core_word k) false 0) (core_word k + 256) (core_word k)

cores_check : (sym : Symbols) → each_below 2048 (check sym) ≡ true
unfolding each_below check no_bracket no_side ends decode split split_sideset sideset_fields blank
    decode_class decode_wait decode_in decode_pp decode_mov decode_irq decode_set core_text jmp_text
    wait_text in_text out_text push_pull_text aux_text mov_text irq_text set_text decimal mode_name
    op_text assemble_core space_commas encode_core encode_jmp_core encode_wait_core encode_mov_core
    encode_irq_core opnd split2 rxfifo_index eval_expr expr_tokens operand int_of precedence
    token_at low_word dict_get encode encode_jmp encode_wait encode_in encode_out encode_push
    encode_pull encode_put encode_get encode_mov encode_irq encode_set lower lstrip_by rstrip_by
    span drop_chars chars contains contains_word split_words
cores_check sym = refl

-- The word without its delay/side-set field.
abbrev pub bare : ℕ → ℕ
bare w = w / 8192 * 8192 + w % 256

-- A text that assembles to a word and shows no postfix.
pub record IsCore (syms : Symbols) (t : String) (w : ℕ) : Type 0 where
  pub assembles : assemble_core syms t ≡ ok w
  pub clean : is_clean t ≡ true

is_ok-ok : (r : Result ℕ) (w : ℕ) → is_ok r w ≡ true → r ≡ ok w
is_ok-ok (ok v) w h = ap ok ((==_iff v w).0 h)
is_ok-ok (err e) w h = cc

is_reserved-eq : (e : Error) → is_reserved e ≡ true → e ≡ reserved_encoding
is_reserved-eq reserved_encoding h = refl
is_reserved-eq key_error h = cc
is_reserved-eq value_error h = cc
is_reserved-eq index_error h = cc
is_reserved-eq assertion_error h = cc
is_reserved-eq assembly_error h = cc
is_reserved-eq zero_division h = cc
is_reserved-eq overflow_error h = cc
is_reserved-eq out_of_fuel h = cc

-- A text that assembles to a word, or the one error.
pub data Outcome (syms : Symbols) (r : Result String) (w : ℕ) : Type 0 where
  refused : r ≡ err reserved_encoding → Outcome syms r w
  written : (t : String) → r ≡ ok t → IsCore syms t w → Outcome syms r w

good_text-Outcome :
    (syms : Symbols) (r : Result String) (w : ℕ) → good_text syms r w ≡ true → Outcome syms r w
good_text-Outcome syms (err e) w h = refused (ap err (is_reserved-eq e h))
good_text-Outcome syms (ok u) w h =
    let (c, a) = both_true (is_clean u) (is_ok (assemble_core syms u) w) h in
    written u refl (record { assembles = is_ok-ok (assemble_core syms u) w a; clean = c })

or_true : (a b : Bool) → (a || b) ≡ true → a ≡ false → b ≡ true
or_true a b h k = ground arith

good_core-Outcome :
    (syms : Symbols) (d : Decoded) (n w : ℕ)
    → good_core syms (ok d) n w ≡ true
    → d.illegal ≡ false
    → Outcome syms (core_text n d) w
good_core-Outcome syms d n w h legal =
    good_text-Outcome syms (core_text n d) w
      (or_true d.illegal (good_text syms (core_text n d) w) h legal)

abbrev pub plain_side : ℕ → SideSet
plain_side v = sideset_fields (split v).ds false 0

pub decode_plain : (v : ℕ) → decode v false 0 ≡ ok (decoded v (plain_side v))
unfolding decode decoded split split_sideset
decode_plain v = refl

-- The text of a legal word, where it has one, assembles to the word without its field.
pub core_text-Outcome :
    (syms : Symbols) (w : ℕ) (s : SideSet)
    → w < 65536
    → (decoded w s).illegal ≡ false
    → Outcome syms (core_text w (decoded w s)) (bare w)
unfolding check
core_text-Outcome syms w s small legal =
    let i = w / 8192 * 256 + w % 256 in
    let v = core_word i in
    let at_v : v ≡ bare w = omega arith in
    let alike = λ (n : ℕ). decoded-Alike v w n (plain_side v) s (omega arith) (omega arith) in
    let (at_bare, at_delayed) =
      both_true (good_core syms (decode v false 0) v v)
        (good_core syms (decode v false 0) (v + 256) v)
        (each_below-lookup 2048 (check syms) i (cores_check syms) (omega arith)) in
    let finish =
      λ (n : ℕ) (good : good_core syms (decode v false 0) n v ≡ true)
          (named : (w % 65536 == 0xa042) ≡ (n % 65536 == 0xa042)).
        subst (λ (r : Result String). Outcome syms r (bare w))
          ((alike n).0 ∙ sym (named_alike w n (decoded w s) named))
          (subst (Outcome syms (core_text n (decoded v (plain_side v)))) at_v (
            good_core-Outcome syms (decoded v (plain_side v)) n v (rw (decode_plain v) at good)
              ((alike n).1 ∙ legal))) in
    elim (Bool-cases (w / 256 % 32 == 0)) [
      | inl bare ↦ finish v at_bare (ground arith)
      | inr delayed ↦ finish (v + 256) at_delayed (ground arith)
    ]
