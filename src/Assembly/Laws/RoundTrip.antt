-- ===== src/Assembly/Laws/RoundTrip.antt =====
-- `assemble_instruction` reads back what `disassemble` writes.
use vibe_pio.Base.{
  bit_or_above, ◌^◌, ◌≤◌, shl, ◌>>◌, raise_if, raise_if-passed, reserved_encoding, ℕ, zero, suc,
  ◌+◌, ◌*◌, ◌/◌, ◌%◌, ◌==◌, ◌<◌, ◌≡◌, refl, sym, ap, subst, ◌∙◌, arith, not, Bool, true, false,
  if◌then◌else◌, Result, ok, err, >>=-eq-ok, ok-injective, low_bits, shr, bit_or_fields, bit_or,
  both_true, ◌>>=◌,
}
use vibe_pio.Text.{String, ◌<>◌}
use vibe_pio.Encoding.Split.{SideSet, split, split_sideset, pack_ds, pack_fields}
use vibe_pio.Encoding.SideSets.{split_sideset-Fits}
use vibe_pio.Encoding.Decode.{
  Decoded, decode, decode_class, blank, decode_wait, decode_in, decode_pp, decode_mov, decode_irq,
  decode_set,
}
use vibe_pio.Disassembly.{core_text, postfix, disassemble}
use vibe_pio.Assembly.Integers.{low_word}
use vibe_pio.Assembly.Expressions.{Symbols}
use vibe_pio.Assembly.Program.{Program, sideset_count, side_en}
use vibe_pio.Assembly.Instruction.{pack_postfixes, assemble_line, assemble_instruction}
use vibe_pio.Assembly.Laws.Named.{decoded}
use vibe_pio.Assembly.Laws.Cores.{IsCore, bare, refused, written, core_text-Outcome}
use vibe_pio.Assembly.Laws.Postfix.{postfixes_lem}

record Keeps (d : Decoded) (s : SideSet) : Type 0 where
  delay : d.delay ≡ s.delay
  ss_valid : d.ss_valid ≡ s.ss_valid
  ss_val : d.ss_val ≡ s.ss_val

-- The branches of the decoder leave the side-set alone.
decoded-Keeps : (w : ℕ) (s : SideSet) → Keeps (decoded w s) s
unfolding decoded decode_class blank decode_wait decode_in decode_pp decode_mov decode_irq
    decode_set
decoded-Keeps w s = ground arith

-- What a completed disassembly has found.
record Written (w : ℕ) (en : Bool) (count : ℕ) (text : String) : Type 0 where
  side : SideSet
  core : String
  split_side : split_sideset (low_bits (shr w 8) 5) en count ≡ ok side
  legal : (decoded w side).illegal ≡ false
  repacked :
      pack_ds (decoded w side).delay (decoded w side).ss_val en count (decoded w side).ss_valid
      ≡ ok (low_bits (shr w 8) 5)
  written_core : core_text w (decoded w side) ≡ ok core
  whole : core <> postfix (decoded w side) ≡ text

-- `disassemble` behind its decoder.
abbrev text_of : ℕ → Bool → ℕ → Decoded → Result String
text_of w en count d = do
  raise_if d.illegal reserved_encoding
  repack ← pack_ds d.delay d.ss_val en count d.ss_valid
  raise_if (not (repack == low_bits (shr w 8) 5)) reserved_encoding
  core ← core_text w d
  ok (core <> postfix d)

Written-behind :
    (w : ℕ) (en : Bool) (count : ℕ) (text : String) (s : SideSet)
    → split_sideset (low_bits (shr w 8) 5) en count ≡ ok s
    → text_of w en count (decoded w s) ≡ ok text
    → Written w en count text
Written-behind w en count text s es h =
    let d = decoded w s in
    let (legal, h1) = raise_if-passed d.illegal _ _ h in
    let (repack, er, h2) = >>=-eq-ok (pack_ds d.delay d.ss_val en count d.ss_valid) _ h1 in
    let (same, h3) = raise_if-passed (not (repack == low_bits (shr w 8) 5)) _ _ h2 in
    let (core, ec, h4) = >>=-eq-ok (core_text w d) _ h3 in
    let equal : repack ≡ low_bits (shr w 8) 5 = ground arith in
    record {
      side = s;
      core = core;
      split_side = es;
      legal = legal;
      repacked = er ∙ ap ok equal;
      written_core = ec;
      whole = ok-injective h4;
    }

Written-of :
    (w : ℕ) (en : Bool) (count : ℕ) (text : String)
    → disassemble w en count ≡ ok text
    → Written w en count text
unfolding disassemble decode decoded split
Written-of w en count text h =
    let (d, e, h1) = >>=-eq-ok (decode w en count) (text_of w en count) h in
    let (s, es, ed) =
      >>=-eq-ok (split_sideset (low_bits (shr w 8) 5) en count) (λ s. ok (decoded w s)) e in
    Written-behind w en count text s es
      (subst (λ x. text_of w en count x ≡ ok text) (sym (ok-injective ed)) h1)

-- Without a `side` the value does not matter.
pack-side_value :
    (delay v : ℕ) (en : Bool) (count : ℕ) (ss : Bool)
    → pack_ds delay (if ss then v else 0) en count ss ≡ pack_ds delay v en count ss
unfolding pack_ds pack_fields
pack-side_value delay v en count true = refl
pack-side_value delay v en count false = refl

word_whole : (w : ℕ) → w < 65536 → low_bits (bit_or (bare w) (shl (low_bits (shr w 8) 5) 8)) 16 ≡ w
word_whole w small =
    let ds = w / 256 % 32 in
    let split_bare : bare w ≡ w / 8192 * 32 * 2 ^ 8 + w % 256 = omega arith in
    rw (split_bare, bit_or_above 8 (w / 8192 * 32) (w % 256) ds (omega arith))
      (rw (bit_or_fields 5 (w / 8192) ds (omega arith)) (omega arith))

five_bits : (k n : ℕ) → k ≤ 5 → n < 2 ^ k → n < 32
five_bits zero n h e = omega arith
five_bits (suc zero) n h e = omega arith
five_bits (suc (suc zero)) n h e = omega arith
five_bits (suc (suc (suc zero))) n h e = omega arith
five_bits (suc (suc (suc (suc zero)))) n h e = omega arith
five_bits (suc (suc (suc (suc (suc zero))))) n h e = omega arith
five_bits (suc (suc (suc (suc (suc (suc k)))))) n h e = absurd (omega arith)

core_text-IsCore :
    (syms : Symbols) (w : ℕ) (s : SideSet) (t : String)
    → w < 65536
    → (decoded w s).illegal ≡ false
    → core_text w (decoded w s) ≡ ok t
    → IsCore syms t (bare w)
core_text-IsCore syms w s t small legal k = elim (core_text-Outcome syms w s small legal) [
  | refused e ↦ let clash : err reserved_encoding ≡ ok t = sym e ∙ k in cc
  | written u e core ↦ subst (λ x. IsCore syms x (bare w)) (ok-injective (sym e ∙ k)) core
]

-- An assembler with that side-set takes the postfixes off and packs them to the word's field.
line_back :
    (w : ℕ) (en : Bool) (count : ℕ) (text : String) (syms : Symbols)
    → w < 65536
    → Written w en count text
    → assemble_line en count syms text ≡ ok w
unfolding assemble_line pack_postfixes low_word postfix
line_back w en count text syms small h =
    let s = h.side in
    let d = decoded w s in
    let keeps = decoded-Keeps w s in
    let fits = split_sideset-Fits (low_bits (shr w 8) 5) en count (omega arith) h.split_side in
    let val_five : d.ss_val < 32 =
      let five = five_bits s.ss_bits s.ss_val (omega arith) fits.val_fits in omega arith in
    let delay_five : d.delay < 32 = omega arith in
    let core = core_text-IsCore syms w s h.core small h.legal h.written_core in
    let (starts, c1) = both_true _ _ core.clean in
    let (stops, c2) = both_true _ _ c1 in
    let (brackets, sides) = both_true _ _ c2 in
    let taken =
      postfixes_lem h.core starts stops brackets sides syms d.ss_val val_five d.delay d.ss_valid
        delay_five in
    let packs = pack-side_value d.delay d.ss_val en count d.ss_valid ∙ h.repacked in
    rw (← h.whole) (rw taken (rw packs (rw core.assembles (ap ok (word_whole w small)))))

-- Whatever a word of 16 bits disassembles to, under any side-set configuration, a program with
-- that configuration assembles to the word again, whatever its symbols are.
pub assemble_instruction-disassemble :
    (word : ℕ) (text : String) (prog : Program) (syms : Symbols)
    → word < 2 ^ 16
    → disassemble word (side_en prog) (low_word (sideset_count prog)) ≡ ok text
    → assemble_instruction text prog syms ≡ ok word
unfolding assemble_instruction
assemble_instruction-disassemble word text prog syms small h =
    let count = low_word (sideset_count prog) in
    line_back word (side_en prog) count text syms small
      (Written-of word (side_en prog) count text h)
