-- ===== src/Encoding/RoundTrip.antt =====
-- `decode` reads from an encoder's word what was encoded.
use Prim.Native.String.{String}
use vibe_pio.Base.{
  ℕ, ◌+◌, ◌%◌, ◌<◌, ◌≤◌, ◌≡◌, ◌≢◌, ◌∙◌, ap, sym, refl, subst, Bool, false, arith, low_bits, ok,
  >>=-eq-ok, ok-injective, dict_get, Dict, All, dict_get-All, Option, none, some, bit_or_fields,
  bool_int, bit_or, shl,
}
use vibe_pio.Encoding.Split.{SideSet, sideset_fields, encode}
use vibe_pio.Encoding.Decode.{
  Decoded, blank, decode_class, decode, decode_wait, decode_in, decode_pp, decode_mov, decode_irq,
  decode_set,
}
use vibe_pio.Encoding.Tables.{jmp_conds, in_srcs, out_dsts, movd_dsts, movs_srcs, set_dsts}
use vibe_pio.Encoding.Encode.{
  encode_jmp, encode_wait, encode_in, encode_out, encode_push, encode_pull, encode_put, encode_get,
  encode_mov, encode_irq, encode_set, Mode, mode_code, mov_code, aux_arg2,
}
use vibe_pio.Encoding.Fields.{encode_sum, split-encode}
use vibe_pio.Encoding.SideSets.{split_sideset-ok}
use vibe_pio.Encoding.Calls.{Call, issue, IsLegal, Reads}

abbrev CodeBelow : ℕ → Option ℕ → Type 0
CodeBelow skip none = Unit
CodeBelow skip (some c) = (c < 8) × (c ≢ skip)

mov_code-ok : (o : Option ℕ) {c : ℕ} → mov_code o ≡ ok c → o ≡ some c
mov_code-ok none h = cc
mov_code-ok (some c) h = ap some (ok-injective h)

-- A code that the table gives is below 8, and is not `skip`.
table_code :
    (skip : ℕ) (m : Dict (Option ℕ)) (k : Option String) (o : Option ℕ) {c : ℕ}
    → All (λ e. CodeBelow skip e.1) m
    → dict_get m k ≡ ok o
    → mov_code o ≡ ok c
    → (dict_get m k ≡ ok (some c)) × (c < 8) × (c ≢ skip)
table_code skip m k o {c} a e h =
    let p = mov_code-ok o h in
    let b : CodeBelow skip (some c) =
      subst (CodeBelow skip) p (dict_get-All (CodeBelow skip) m k a e) in
    (e ∙ ap ok p, b.0, b.1)

aux_some : (i : ℕ) → aux_arg2 (some i) ≡ 24 + i % 4
aux_some i = ground (arith, bit_or_fields 3 1 (i % 4), bit_or_fields 4 1 (8 + i % 4))

module _ (en : Bool) (cnt : ℕ) (in_range : low_bits cnt 3 ≤ 5) where
  -- The side-set that a word with delay/side-set field `ds` decodes with.
  abbrev side_of : ℕ → SideSet
  side_of ds = sideset_fields (ds % 32) en (low_bits cnt 3)

  abbrev decoded_as : ℕ → ℕ → ℕ → ℕ → Decoded
  decoded_as clz arg1 arg2 ds =
      let w = encode clz arg1 arg2 ds in
      decode_class (blank w (clz % 8) (side_of ds)) w
        (record { cls = clz % 8; ds = ds % 32; arg1 = arg1 % 8; arg2 = arg2 % 32 })

  decode-encode :
      (clz arg1 arg2 ds : ℕ)
      → decode (encode clz arg1 arg2 ds) en cnt ≡ ok (decoded_as clz arg1 arg2 ds)
  unfolding decode
  decode-encode clz arg1 arg2 ds =
      rw (split-encode clz arg1 arg2 ds, split_sideset-ok (ds % 32) en cnt in_range)

  decode_at :
      (clz arg1 arg2 ds : ℕ) {w : ℕ}
      → ok (encode clz arg1 arg2 ds) ≡ ok w
      → decode w en cnt ≡ ok (decoded_as clz arg1 arg2 ds)
  decode_at clz arg1 arg2 ds h =
      ap (λ v. decode v en cnt) (sym (ok-injective h)) ∙ decode-encode clz arg1 arg2 ds

  -- What the theorem says of one call.
  pub record Decodes (k : Call) (ds w : ℕ) : Type 0 where
    pub d : Decoded
    pub returns : decode w en cnt ≡ ok d
    pub legal : d.illegal ≡ false
    pub reads : Reads k d
    pub delay_read : d.delay ≡ (side_of ds).delay
    pub ss_read :
        (d.ss_valid ≡ (side_of ds).ss_valid)
        × (d.ss_val ≡ (side_of ds).ss_val)
        × (d.ss_bits ≡ (side_of ds).ss_bits)

  jmp_case :
      (cond : Option String) (addr : ℕ) (ds : ℕ) {w : ℕ}
      → issue (Call.jmp cond addr) ds ≡ ok w
      → Decodes (Call.jmp cond addr) ds w
  unfolding issue encode_jmp blank decode_class
  jmp_case cond addr ds h =
      let (code, e, h') = >>=-eq-ok (dict_get jmp_conds cond) _ h in
      let small = dict_get-All (λ v. v < 8) jmp_conds cond (omega arith) e in
      record {
        d = decoded_as 0 code addr ds;
        returns = decode_at 0 code addr ds h';
        legal = ground (arith, small);
        reads = (ground (arith, small), ground (arith, small), (code, e, ground (arith, small)));
        delay_read = ground arith;
        ss_read = ground arith;
      }

  wait_case :
      (pol : Bool) (src index : ℕ) (ds : ℕ) {w : ℕ}
      → IsLegal (Call.wait pol src index)
      → issue (Call.wait pol src index) ds ≡ ok w
      → Decodes (Call.wait pol src index) ds w
  unfolding issue encode_wait blank decode_class decode_wait
  wait_case pol src index ds lg h = record {
    d = decoded_as 1 (bit_or (shl (bool_int pol) 2) src) index ds;
    returns = decode_at 1 (bit_or (shl (bool_int pol) 2) src) index ds h;
    legal = ground (arith, bit_or_fields 2 (bool_int pol) src);
    reads = (
      ground (arith, bit_or_fields 2 (bool_int pol) src),
      ground (arith, bit_or_fields 2 (bool_int pol) src),
      ground (arith, bit_or_fields 2 (bool_int pol) src),
      ground (arith, bit_or_fields 2 (bool_int pol) src),
    );
    delay_read = ground arith;
    ss_read = ground arith;
  }

  in_case :
      (src : String) (count : ℕ) (ds : ℕ) {w : ℕ}
      → issue (Call.shift_in src count) ds ≡ ok w
      → Decodes (Call.shift_in src count) ds w
  unfolding issue encode_in blank decode_class decode_in
  in_case src count ds h =
      let (code, e, h') = >>=-eq-ok (dict_get in_srcs (some src)) _ h in
      let small =
        dict_get-All (λ v. (v < 8) × (v ≢ 4) × (v ≢ 5)) in_srcs (some src) (omega arith) e in
      record {
        d = decoded_as 2 code (low_bits count 5) ds;
        returns = decode_at 2 code (low_bits count 5) ds h';
        legal = ground (arith, small);
        reads = (ground (arith, small), ground (arith, small), (code, e, ground (arith, small)));
        delay_read = ground arith;
        ss_read = ground arith;
      }

  out_case :
      (dst : String) (count : ℕ) (ds : ℕ) {w : ℕ}
      → issue (Call.shift_out dst count) ds ≡ ok w
      → Decodes (Call.shift_out dst count) ds w
  unfolding issue encode_out blank decode_class
  out_case dst count ds h =
      let (code, e, h') = >>=-eq-ok (dict_get out_dsts (some dst)) _ h in
      let small = dict_get-All (λ v. v < 8) out_dsts (some dst) (omega arith) e in
      record {
        d = decoded_as 3 code (low_bits count 5) ds;
        returns = decode_at 3 code (low_bits count 5) ds h';
        legal = ground (arith, small);
        reads = (ground (arith, small), ground (arith, small), (code, e, ground (arith, small)));
        delay_read = ground arith;
        ss_read = ground arith;
      }

  push_case :
      (iffull block : Bool) (ds : ℕ) {w : ℕ}
      → issue (Call.push iffull block) ds ≡ ok w
      → Decodes (Call.push iffull block) ds w
  unfolding issue encode_push blank decode_class decode_pp
  push_case iffull block ds h = record {
    d = decoded_as 4 (bit_or (bool_int block) (shl (bool_int iffull) 1)) 0 ds;
    returns = decode_at 4 (bit_or (bool_int block) (shl (bool_int iffull) 1)) 0 ds h;
    legal = ground (arith, encode_sum 4 (bit_or (bool_int block) (shl (bool_int iffull) 1)) 0 ds);
    reads = (
      ground (arith, encode_sum 4 (bit_or (bool_int block) (shl (bool_int iffull) 1)) 0 ds),
      ground (arith, encode_sum 4 (bit_or (bool_int block) (shl (bool_int iffull) 1)) 0 ds),
      ground (arith, encode_sum 4 (bit_or (bool_int block) (shl (bool_int iffull) 1)) 0 ds),
    );
    delay_read = ground arith;
    ss_read = ground arith;
  }

  pull_case :
      (ifempty block : Bool) (ds : ℕ) {w : ℕ}
      → issue (Call.pull ifempty block) ds ≡ ok w
      → Decodes (Call.pull ifempty block) ds w
  unfolding issue encode_pull blank decode_class decode_pp
  pull_case ifempty block ds h = record {
    d = decoded_as 4 (bit_or (bit_or 4 (bool_int block)) (shl (bool_int ifempty) 1)) 0 ds;
    returns = decode_at 4 (bit_or (bit_or 4 (bool_int block)) (shl (bool_int ifempty) 1)) 0 ds h;
    legal =
        ground (
          arith,
          encode_sum 4 (bit_or (bit_or 4 (bool_int block)) (shl (bool_int ifempty) 1)) 0 ds,
        );
    reads = (
      ground (
        arith,
        encode_sum 4 (bit_or (bit_or 4 (bool_int block)) (shl (bool_int ifempty) 1)) 0 ds,
      ),
      ground (
        arith,
        encode_sum 4 (bit_or (bit_or 4 (bool_int block)) (shl (bool_int ifempty) 1)) 0 ds,
      ),
      ground (
        arith,
        encode_sum 4 (bit_or (bit_or 4 (bool_int block)) (shl (bool_int ifempty) 1)) 0 ds,
      ),
    );
    delay_read = ground arith;
    ss_read = ground arith;
  }

  put_case :
      (index : Option ℕ) (ds : ℕ) {w : ℕ}
      → issue (Call.put index) ds ≡ ok w
      → Decodes (Call.put index) ds w
  unfolding issue encode_put blank decode_class decode_pp
  put_case none ds h = record {
    d = decoded_as 4 0 (aux_arg2 none) ds;
    returns = decode_at 4 0 (aux_arg2 none) ds h;
    legal = ground (arith, encode_sum 4 0 16 ds);
    reads = (
      ground (arith, encode_sum 4 0 16 ds),
      ground (arith, encode_sum 4 0 16 ds),
      ground (arith, encode_sum 4 0 16 ds),
    );
    delay_read = ground arith;
    ss_read = ground arith;
  }
  put_case (some i) ds h = record {
    d = decoded_as 4 0 (aux_arg2 (some i)) ds;
    returns = decode_at 4 0 (aux_arg2 (some i)) ds h;
    legal = ground (arith, aux_some i, encode_sum 4 0 (aux_arg2 (some i)) ds);
    reads = (
      ground (arith, aux_some i, encode_sum 4 0 (aux_arg2 (some i)) ds),
      ground (arith, aux_some i, encode_sum 4 0 (aux_arg2 (some i)) ds),
      ground (arith, aux_some i, encode_sum 4 0 (aux_arg2 (some i)) ds),
    );
    delay_read = ground arith;
    ss_read = ground arith;
  }

  get_case :
      (index : Option ℕ) (ds : ℕ) {w : ℕ}
      → issue (Call.get index) ds ≡ ok w
      → Decodes (Call.get index) ds w
  unfolding issue encode_get blank decode_class decode_pp
  get_case none ds h = record {
    d = decoded_as 4 4 (aux_arg2 none) ds;
    returns = decode_at 4 4 (aux_arg2 none) ds h;
    legal = ground (arith, encode_sum 4 4 16 ds);
    reads = (
      ground (arith, encode_sum 4 4 16 ds),
      ground (arith, encode_sum 4 4 16 ds),
      ground (arith, encode_sum 4 4 16 ds),
    );
    delay_read = ground arith;
    ss_read = ground arith;
  }
  get_case (some i) ds h = record {
    d = decoded_as 4 4 (aux_arg2 (some i)) ds;
    returns = decode_at 4 4 (aux_arg2 (some i)) ds h;
    legal = ground (arith, aux_some i, encode_sum 4 4 (aux_arg2 (some i)) ds);
    reads = (
      ground (arith, aux_some i, encode_sum 4 4 (aux_arg2 (some i)) ds),
      ground (arith, aux_some i, encode_sum 4 4 (aux_arg2 (some i)) ds),
      ground (arith, aux_some i, encode_sum 4 4 (aux_arg2 (some i)) ds),
    );
    delay_read = ground arith;
    ss_read = ground arith;
  }

  mov_case :
      (dst src : String) (op : ℕ) (ds : ℕ) {w : ℕ}
      → IsLegal (Call.mov dst src op)
      → issue (Call.mov dst src op) ds ≡ ok w
      → Decodes (Call.mov dst src op) ds w
  unfolding issue encode_mov blank decode_class decode_mov
  mov_case dst src op ds {w} lg h =
      let (x, ed, hd) = >>=-eq-ok (dict_get movd_dsts (some dst)) _ h in
      let (y, es, hs) = >>=-eq-ok (dict_get movs_srcs (some src)) _ hd in
      let (a, ex, ha) = >>=-eq-ok (mov_code x) _ hs in
      let (b, ey, h') = >>=-eq-ok (mov_code y) _ ha in
      let (dst_is, dst_small, _) = table_code 8 movd_dsts (some dst) x (omega arith) ed ex in
      let (src_is, src_small, src_legal) =
        table_code 4 movs_srcs (some src) y (omega arith) es ey in
      let arg2 = bit_or (shl (low_bits op 2) 3) b in
      let sum = encode_sum 5 a arg2 ds in
      let low = bit_or_fields 3 (op % 4) b src_small in
      record {
        d = decoded_as 5 a arg2 ds;
        returns = decode_at 5 a arg2 ds h';
        legal = ground arith;
        reads = (refl, ground arith, (a, dst_is, ground arith), (b, src_is, ground arith));
        delay_read = ground arith;
        ss_read = ground arith;
      }

  irq_case :
      (clr hold : Bool) (mode : Mode) (index : ℕ) (ds : ℕ) {w : ℕ}
      → IsLegal (Call.irq clr hold mode index)
      → issue (Call.irq clr hold mode index) ds ≡ ok w
      → Decodes (Call.irq clr hold mode index) ds w
  unfolding issue encode_irq blank decode_class decode_irq
  irq_case clr hold mode index ds lg h =
      let (m, e, h') = >>=-eq-ok (mode_code mode) _ h in
      let a1 = bit_or (shl (bool_int clr) 1) (bool_int hold) in
      let a2 = bit_or (shl (low_bits m 2) 3) (low_bits index 3) in
      let sum = encode_sum 6 a1 a2 ds in
      let low = bit_or_fields 3 (m % 4) (index % 8) (omega arith) in
      record {
        d = decoded_as 6 a1 a2 ds;
        returns = decode_at 6 a1 a2 ds h';
        legal = ground arith;
        reads = (refl, ground arith, ground arith, ground arith, (m, e, ground arith));
        delay_read = ground arith;
        ss_read = ground arith;
      }

  set_case :
      (dst : String) (value : ℕ) (ds : ℕ) {w : ℕ}
      → issue (Call.set dst value) ds ≡ ok w
      → Decodes (Call.set dst value) ds w
  unfolding issue encode_set blank decode_class decode_set
  set_case dst value ds h =
      let (code, e, h') = >>=-eq-ok (dict_get set_dsts (some dst)) _ h in
      let small =
        dict_get-All (λ v. v < 8 × (v ≢ 3) × (v ≢ 5) × (v ≢ 6) × (v ≢ 7)) set_dsts (some dst)
          (omega arith) e in
      record {
        d = decoded_as 7 code value ds;
        returns = decode_at 7 code value ds h';
        legal = ground (arith, small);
        reads = (ground (arith, small), ground (arith, small), (code, e, ground (arith, small)));
        delay_read = ground arith;
        ss_read = ground arith;
      }

  -- For a SIDESET_COUNT of at most 5, whatever an encoder returns for a call outside the reserved
  -- encodings decodes as legal, with the strobe of that form, the operands encoded, each cut to
  -- its width, and the delay and side-set of the field that was given.
  pub decode-issue : (k : Call) (ds : ℕ) {w : ℕ} → IsLegal k → issue k ds ≡ ok w → Decodes k ds w
  decode-issue (Call.jmp cond addr) ds lg h = jmp_case cond addr ds h
  decode-issue (Call.wait pol src index) ds lg h = wait_case pol src index ds lg h
  decode-issue (Call.shift_in src count) ds lg h = in_case src count ds h
  decode-issue (Call.shift_out dst count) ds lg h = out_case dst count ds h
  decode-issue (Call.push iffull block) ds lg h = push_case iffull block ds h
  decode-issue (Call.pull ifempty block) ds lg h = pull_case ifempty block ds h
  decode-issue (Call.put index) ds lg h = put_case index ds h
  decode-issue (Call.get index) ds lg h = get_case index ds h
  decode-issue (Call.mov dst src op) ds lg h = mov_case dst src op ds lg h
  decode-issue (Call.irq clr hold mode index) ds lg h = irq_case clr hold mode index ds lg h
  decode-issue (Call.set dst value) ds lg h = set_case dst value ds h
