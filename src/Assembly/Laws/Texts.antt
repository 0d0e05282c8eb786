-- ===== src/Assembly/Laws/Texts.antt =====
-- Which words have a text.
use vibe_pio.Base.{
  ℕ, ◌+◌, ◌*◌, ◌/◌, ◌%◌, ◌^◌, ◌<◌, ◌==◌, ◌&&◌, ◌||◌, ◌≡◌, ◌↔◌, refl, sym, ◌∙◌, ap, arith, not, Bool,
  true, false, low_bits, shr, Result, ok, err, ◌>>=◌, ◌>>◌, raise_if, each_below, each_below-lookup,
  both_true, ok-injective, >>=-eq-ok, raise_if-passed, subst, reserved_encoding, Bool-cases, inl,
  inr, dict_get,
}
use vibe_pio.Text.{String, ◌<>◌, decimal}
use vibe_pio.Encoding.Split.{SideSet, split, split_sideset, sideset_fields, pack_ds}
use vibe_pio.Encoding.Decode.{
  Decoded, decode, blank, decode_class, decode_wait, decode_in, decode_pp, decode_mov, decode_irq,
  decode_set,
}
use vibe_pio.Disassembly.{
  core_text, jmp_text, wait_text, in_text, out_text, push_pull_text, aux_text, mov_text, irq_text,
  set_text, mode_name, op_text, postfix, disassemble,
}
use vibe_pio.Assembly.Laws.Named.{decoded, decoded-Alike, named_alike}
use vibe_pio.Assembly.Laws.Cores.{core_word, plain_side, decode_plain, bare}

-- The words that decode as legal and are reserved all the same are the FIFO moves with one of the
-- bits 6 and 5 and the IRQ words with bit 7.
abbrev pub has_text : ℕ → Bool
has_text w =
    not ((w / 8192 == 4) && ((w / 16 % 2 == 1) && not (w / 32 % 4 == 0)))
    && not ((w / 8192 == 6) && (w / 128 % 2 == 1))

abbrev is_text : Result String → Bool
is_text (ok t) = true
is_text (err e) = false

abbrev agree : Bool → Bool → Bool
agree true b = b
agree false b = not b

abbrev texted : Result Decoded → ℕ → ℕ → Bool
texted (err e) n w = true
texted (ok d) n w = d.illegal || agree (has_text w) (is_text (core_text n d))

check : ℕ → Bool
check k =
    texted (decode (core_word k) false 0) (core_word k) (core_word k)
    && texted (decode (core_word k) false 0) (core_word k + 256) (core_word k)

texts_check : each_below 2048 check ≡ true
unfolding each_below check decode split split_sideset sideset_fields blank decode_class decode_wait
    decode_in decode_pp decode_mov decode_irq decode_set core_text jmp_text wait_text in_text
    out_text push_pull_text aux_text mov_text irq_text set_text decimal mode_name op_text dict_get
texts_check = refl

agree-eq : (a b c : Bool) → (a || agree b c) ≡ true → a ≡ false → c ≡ b
agree-eq a b c h k = ground arith

bare-has_text : (w : ℕ) → w < 65536 → has_text (bare w) ≡ has_text w
bare-has_text w small =
    let top : bare w / 8192 ≡ w / 8192 = omega arith in
    let bit4 : bare w / 16 % 2 ≡ w / 16 % 2 = omega arith in
    let bits : bare w / 32 % 4 ≡ w / 32 % 4 = omega arith in
    let bit7 : bare w / 128 % 2 ≡ w / 128 % 2 = omega arith in rw (top, bit4, bits, bit7) refl

core_text-is_text :
    (w : ℕ) (s : SideSet)
    → w < 65536
    → (decoded w s).illegal ≡ false
    → is_text (core_text w (decoded w s)) ≡ has_text w
unfolding check
core_text-is_text w s small legal =
    let i = w / 8192 * 256 + w % 256 in
    let v = core_word i in
    let at_v : v ≡ bare w = omega arith in
    let has_v : has_text v ≡ has_text w = ap has_text at_v ∙ bare-has_text w small in
    let alike = λ (n : ℕ). decoded-Alike v w n (plain_side v) s (omega arith) (omega arith) in
    let (at_bare, at_delayed) =
      both_true (texted (decode v false 0) v v) (texted (decode v false 0) (v + 256) v)
        (each_below-lookup 2048 check i texts_check (omega arith)) in
    let finish =
      λ (n : ℕ) (good : texted (decode v false 0) n v ≡ true)
          (named : (w % 65536 == 0xa042) ≡ (n % 65536 == 0xa042)).
        subst (λ (r : Result String). is_text r ≡ has_text w)
          ((alike n).0 ∙ sym (named_alike w n (decoded w s) named))
          (agree-eq (decoded v (plain_side v)).illegal (has_text v)
              (is_text (core_text n (decoded v (plain_side v)))) (rw (decode_plain v) at good)
              ((alike n).1 ∙ legal)
            ∙ has_v) in
    elim (Bool-cases (w / 256 % 32 == 0)) [
      | inl bare ↦ finish v at_bare (ground arith)
      | inr delayed ↦ finish (v + 256) at_delayed (ground arith)
    ]

text_of_core :
    (r : Result String) (tail : String)
    → is_text r ≡ true
    → (text : String) × ((r >>= λ core. ok (core <> tail)) ≡ ok text)
text_of_core (ok t) tail h = (t <> tail, refl)
text_of_core (err e) tail h = cc

-- The end of `disassemble`: two checks, and the text.
abbrev checked : Bool → Result ℕ → ℕ → Result String → String → Result String
checked illegal pack ds core tail = do
  raise_if illegal reserved_encoding
  repack ← pack
  raise_if (not (repack == ds)) reserved_encoding
  c ← core
  ok (c <> tail)

checked-completes :
    (illegal : Bool) (pack : Result ℕ) (ds : ℕ) (core : Result String) (tail : String)
    → ((text : String) × (checked illegal pack ds core tail ≡ ok text))
      ↔ ((illegal ≡ false) × (pack ≡ ok ds) × (is_text core ≡ true))
checked-completes illegal pack ds core tail = (
  λ (text, h).
      let (legal, h1) = raise_if-passed illegal reserved_encoding _ h in
      let (repack, packs, h2) = >>=-eq-ok pack _ h1 in
      let (same, h3) = raise_if-passed (not (repack == ds)) reserved_encoding _ h2 in
      let (c, is_c, h4) = >>=-eq-ok core _ h3 in
      let equal : repack ≡ ds = ground arith in (legal, packs ∙ ap ok equal, ap is_text is_c),
  λ (legal, packs, texts).
      let same : (ds == ds) ≡ true = ground arith in
      rw (legal, packs) (rw same (text_of_core core tail texts)),
)

-- A 16-bit word that decodes has a text exactly when it decodes as legal, packing the delay and
-- the side-set that were read gives its own field back, and it is neither a FIFO move with bit 5
-- or 6 set nor an IRQ word with bit 7 set.
pub disassemble-completes :
    (word : ℕ) (en : Bool) (count : ℕ) (d : Decoded)
    → word < 2 ^ 16
    → decode word en count ≡ ok d
    → ((text : String) × (disassemble word en count ≡ ok text)) ↔ (
        (d.illegal ≡ false)
        × (pack_ds d.delay d.ss_val en count d.ss_valid ≡ ok (low_bits (shr word 8) 5))
        × (has_text word ≡ true))
unfolding disassemble decode decoded split
disassemble-completes word en count d small e =
    let ds = low_bits (shr word 8) 5 in
    let (s, es, ed) = >>=-eq-ok (split_sideset ds en count) (λ s. ok (decoded word s)) e in
    let d_eq : decoded word s ≡ d = ok-injective ed in
    let pack = pack_ds d.delay d.ss_val en count d.ss_valid in
    let texts : d.illegal ≡ false → is_text (core_text word d) ≡ has_text word = λ legal.
      subst (λ x. is_text (core_text word x) ≡ has_text word) d_eq
        (core_text-is_text word s small (ap (λ (x : Decoded). x.illegal) d_eq ∙ legal)) in
    let ends = checked-completes d.illegal pack ds (core_text word d) (postfix d) in
    simp (e) (
      λ done. let (legal, packs, t) = ends.0 done in (legal, packs, sym (texts legal) ∙ t),
      λ (legal, packs, has). ends.1 (legal, packs, texts legal ∙ has),
    )
