-- ===== src/Encoding/Bundle.antt =====
-- What holds of every bundle that `decode` returns: one strobe, operands of that class in range.
use vibe_pio.Encoding.Tables.{c_jmp, c_wait, c_in, c_out, c_pp, c_mov, c_irq}
use vibe_pio.Base.{
  true, some, if_both, Bool-cases, ◌==◌, ℕ, ◌+◌, ◌^◌, ◌<◌, ◌≤◌, ◌≡◌, ◌↔◌, Bool, arith, bool_int,
  low_bits, ok, err, >>=-eq-ok, ok-injective, reserved_encoding, subst, map-RaisesWhen, lt_or_le,
  inl, inr, RaisesWhen, raises, completes,
}
use vibe_pio.Encoding.Split.{has_bit, SideSet, Fields, split, split_sideset}
use vibe_pio.Encoding.SideSets.{split_sideset-Fits, split_sideset-ok, split_sideset_raises}
use vibe_pio.Encoding.Decode.{
  Decoded, get, bit_count, blank, decode_wait, decode_in, decode_pp, decode_mov, decode_irq,
  decode_set, decode_class, decode,
}

-- `decode` raises exactly at a side-set count above 5; every other input decodes.
pub decode_raises :
    (word : ℕ) (en : Bool) (cnt : ℕ)
    → (decode word en cnt ≡ err reserved_encoding) ↔ (5 < low_bits cnt 3)
unfolding decode split_sideset
decode_raises word en cnt = ground arith

-- decode raises the error of a reserved encoding at a side-set count above 5, and completes at
-- every other.
pub decode-RaisesWhen :
    (word : ℕ) (en : Bool) (cnt : ℕ)
    → RaisesWhen (decode word en cnt) reserved_encoding (5 < low_bits cnt 3)
unfolding decode
decode-RaisesWhen word en cnt =
    map-RaisesWhen (split_sideset (split word).ds en cnt) _ (elim (lt_or_le 5 (low_bits cnt 3)) [
      | inl h ↦ raises h ((split_sideset_raises (split word).ds en cnt).1 h)
      | inr h ↦ completes (λ k. omega arith) _ (split_sideset-ok (split word).ds en cnt h)
    ])

abbrev pub strobes : Decoded → ℕ
strobes d =
    bool_int d.is_jmp
    + bool_int d.is_wait
    + bool_int d.is_in
    + bool_int d.is_out
    + bool_int d.is_push
    + bool_int d.is_pull
    + bool_int d.is_put
    + bool_int d.is_get
    + bool_int d.is_mov
    + bool_int d.is_irq
    + bool_int d.is_set

-- The ranges of the operands, absent ones at the defaults with which the model reads them.
pub record InRange (d : Decoded) : Type 0 where
  pub one_strobe : strobes d ≡ 1
  pub word_fits : d.word < 2 ^ 16
  pub delay_fits : d.delay < 32
  pub val_fits : d.ss_val < 2 ^ d.ss_bits
  pub bits_fit : d.ss_bits ≤ 5
  pub addr_fits : get d.jmp_addr 0 < 32
  pub in_fits : get d.in_count 0 ≤ 32
  pub out_fits : get d.out_count 0 ≤ 32
  pub aux_fits : get d.aux_index 0 < 4
  pub set_fits : get d.set_data 0 < 32
  pub irq_fits : get d.irq_index 0 < 8
  pub cls_fits : d.cls < 8
  pub jmp_cond_fits : get d.jmp_cond 0 < 8
  pub wait_pol_fits : get d.wait_pol 1 < 2
  pub wait_src_fits : get d.wait_src 0 < 4
  pub wait_index_fits : get d.wait_index 0 < 32
  pub in_src_fits : get d.in_src 0 < 8
  pub out_dst_fits : get d.out_dst 0 < 8
  pub aux_idxi_fits : get d.aux_idxi 0 < 2
  pub push_iff_fits : get d.push_iff 0 < 2
  pub push_blk_fits : get d.push_blk 1 < 2
  pub pull_ife_fits : get d.pull_ife 0 < 2
  pub pull_blk_fits : get d.pull_blk 1 < 2
  pub mov_dst_fits : get d.mov_dst 0 < 8
  pub mov_src_fits : get d.mov_src 0 < 8
  pub mov_op_fits : get d.mov_op 0 < 4
  pub irq_clr_fits : get d.irq_clr 0 < 2
  pub irq_wait_fits : get d.irq_wait 0 < 2
  pub irq_idxmode_fits : get d.irq_idxmode 0 < 4
  pub set_dst_fits : get d.set_dst 0 < 8

module _ (word : ℕ) (f : Fields) (s : SideSet) where
  module _ (h0 : f.cls < 8) (h1 : f.arg1 < 8) (h2 : f.arg2 < 32) (h3 : s.delay < 32)
      (h4 : s.ss_val < 2 ^ s.ss_bits) (h5 : s.ss_bits ≤ 5) where
    jmp-InRange : InRange (record (blank word f.cls s) {
      is_jmp = true;
      jmp_cond = some f.arg1;
      jmp_addr = some f.arg2;
    })
    unfolding blank
    jmp-InRange = ground arith

    wait-InRange : InRange (decode_wait (blank word f.cls s) f.arg1 f.arg2)
    unfolding blank decode_wait
    wait-InRange = ground arith

    in-InRange : InRange (decode_in (blank word f.cls s) f.arg1 f.arg2)
    unfolding blank decode_in
    in-InRange = ground arith

    out-InRange : InRange (record (blank word f.cls s) {
      is_out = true;
      out_dst = some f.arg1;
      out_count = some (bit_count f.arg2);
    })
    unfolding blank
    out-InRange = ground arith

    pp-InRange : InRange (decode_pp (blank word f.cls s) word f.arg2)
    unfolding blank decode_pp
    pp-InRange =
        if_both InRange (has_bit f.arg2 4)
          (elim (Bool-cases (has_bit word 7)) [
            | inl get ↦ rw get (ground arith)
            | inr put ↦ rw put (ground arith)
          ])
          (elim (Bool-cases (has_bit word 7)) [
            | inl pull ↦ rw pull (ground arith)
            | inr push ↦ rw push (ground arith)
          ])

    mov-InRange : InRange (decode_mov (blank word f.cls s) word f.arg1 f.arg2)
    unfolding blank decode_mov
    mov-InRange = ground arith

    irq-InRange : InRange (decode_irq (blank word f.cls s) word f.arg2)
    unfolding blank decode_irq
    irq-InRange = ground arith

    set-InRange : InRange (decode_set (blank word f.cls s) f.arg1 f.arg2)
    unfolding blank decode_set
    set-InRange = ground arith

    decode_class-InRange : InRange (decode_class (blank word f.cls s) word f)
    unfolding decode_class
    decode_class-InRange = if_both InRange (f.cls == c_jmp) jmp-InRange (
        if_both InRange (f.cls == c_wait) wait-InRange (
          if_both InRange (f.cls == c_in) in-InRange (
            if_both InRange (f.cls == c_out) out-InRange (
              if_both InRange (f.cls == c_pp) pp-InRange (
                if_both InRange (f.cls == c_mov) mov-InRange
                  (if_both InRange (f.cls == c_irq) irq-InRange set-InRange))))))

-- Every bundle that decode returns has exactly one class strobe, a 16-bit word, a class below 8, a
-- delay below 32, a side-set value that fits its at most five bits, and each operand in the range
-- of the bits that it is read from: conditions, sources, destinations, operations, indices, index
-- modes, addresses, data, flags, and bit counts of at most 32. An operand that the class does not
-- have counts as the default with which it is looked up, 0 or, for the polarity of WAIT and the
-- block flags, 1.
pub decode-InRange :
    (word : ℕ) (en : Bool) (cnt : ℕ) {d : Decoded} → decode word en cnt ≡ ok d → InRange d
unfolding decode split
decode-InRange word en cnt {d} h =
    let (s, e, h') = >>=-eq-ok (split_sideset (split word).ds en cnt) _ h in
    let fits = split_sideset-Fits (split word).ds en cnt (omega arith) e in
    subst InRange (ok-injective h') (
      decode_class-InRange word (split word) s (omega arith) (omega arith) (omega arith)
        fits.delay_five fits.val_fits (omega (arith, fits.bits_fit, fits.total_fits)))
