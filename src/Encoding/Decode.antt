-- ===== src/Encoding/Decode.antt =====
-- `Decoded` and `decode` of tools/pio_model/encoding.py. An absent key of the dictionary is `none`.
use vibe_pio.Base.{
  ℕ, Bool, true, false, not, ◌&&◌, ◌||◌, ◌==◌, if◌then◌else◌, shr, low_bits, Result, ok, ◌>>=◌,
  Option, none, some,
}
use vibe_pio.Encoding.Split.{Fields, SideSet, split, split_sideset, bit, has_bit}
use vibe_pio.Encoding.Tables.{c_jmp, c_wait, c_in, c_out, c_pp, c_mov, c_irq, wsrc_jmppin}

pub record Decoded : Type 0 where
  pub word : ℕ
  pub cls : ℕ
  pub delay : ℕ
  pub ss_valid : Bool
  pub ss_val : ℕ
  pub ss_bits : ℕ
  pub illegal : Bool
  pub is_jmp : Bool
  pub is_wait : Bool
  pub is_in : Bool
  pub is_out : Bool
  pub is_push : Bool
  pub is_pull : Bool
  pub is_put : Bool
  pub is_get : Bool
  pub is_mov : Bool
  pub is_irq : Bool
  pub is_set : Bool
  pub jmp_cond : Option ℕ
  pub jmp_addr : Option ℕ
  pub wait_pol : Option ℕ
  pub wait_src : Option ℕ
  pub wait_index : Option ℕ
  pub in_src : Option ℕ
  pub in_count : Option ℕ
  pub out_dst : Option ℕ
  pub out_count : Option ℕ
  pub aux_idxi : Option ℕ
  pub aux_index : Option ℕ
  pub push_iff : Option ℕ
  pub push_blk : Option ℕ
  pub pull_ife : Option ℕ
  pub pull_blk : Option ℕ
  pub mov_dst : Option ℕ
  pub mov_src : Option ℕ
  pub mov_op : Option ℕ
  pub irq_clr : Option ℕ
  pub irq_wait : Option ℕ
  pub irq_idxmode : Option ℕ
  pub irq_index : Option ℕ
  pub set_dst : Option ℕ
  pub set_data : Option ℕ

-- `d.get(key, default)`
abbrev pub get : Option ℕ → ℕ → ℕ
get none default = default
get (some v) default = v

-- The dictionary as `decode` first builds it.
unfoldable pub blank : ℕ → ℕ → SideSet → Decoded
blank word cls s = record {
  word = low_bits word 16;
  cls = cls;
  delay = s.delay;
  ss_valid = s.ss_valid;
  ss_val = s.ss_val;
  ss_bits = s.ss_bits;
  illegal = false;
  is_jmp = false;
  is_wait = false;
  is_in = false;
  is_out = false;
  is_push = false;
  is_pull = false;
  is_put = false;
  is_get = false;
  is_mov = false;
  is_irq = false;
  is_set = false;
  jmp_cond = none;
  jmp_addr = none;
  wait_pol = none;
  wait_src = none;
  wait_index = none;
  in_src = none;
  in_count = none;
  out_dst = none;
  out_count = none;
  aux_idxi = none;
  aux_index = none;
  push_iff = none;
  push_blk = none;
  pull_ife = none;
  pull_blk = none;
  mov_dst = none;
  mov_src = none;
  mov_op = none;
  irq_clr = none;
  irq_wait = none;
  irq_idxmode = none;
  irq_index = none;
  set_dst = none;
  set_data = none;
}

-- A bit count of 0 means 32.
abbrev pub bit_count : ℕ → ℕ
bit_count n = if n == 0 then 32 else n

-- The branches of `decode` on the class, each over the dictionary so far.
unfoldable pub decode_wait : Decoded → ℕ → ℕ → Decoded
decode_wait d arg1 arg2 = record d {
  is_wait = true;
  wait_pol = some (low_bits (shr arg1 2) 1);
  wait_src = some (low_bits arg1 2);
  wait_index = some arg2;
  illegal = (low_bits arg1 2 == wsrc_jmppin) && not (low_bits (shr arg2 2) 3 == 0);
}

unfoldable pub decode_in : Decoded → ℕ → ℕ → Decoded
decode_in d arg1 arg2 = record d {
  is_in = true;
  in_src = some arg1;
  illegal = arg1 == 4 || arg1 == 5;
  in_count = some (bit_count arg2);
}

-- The class shared by PUSH, PULL and the FIFO-aux PUT and GET.
unfoldable pub decode_pp : Decoded → ℕ → ℕ → Decoded
decode_pp d word arg2 =
    let idxi = low_bits (shr arg2 3) 1 in
    if has_bit arg2 4
    then record d {
      is_get = has_bit word 7;
      is_put = not (has_bit word 7);
      aux_idxi = some idxi;
      aux_index = some (low_bits arg2 2);
      illegal = has_bit arg2 2 || ((idxi == 0) && not (low_bits arg2 2 == 0));
    }
    else record d {
      is_pull = has_bit word 7;
      is_push = not (has_bit word 7);
      illegal = not (arg2 == 0);
      push_iff = some (bit word 6);
      push_blk = some (bit word 5);
      pull_ife = some (bit word 6);
      pull_blk = some (bit word 5);
    }

unfoldable pub decode_mov : Decoded → ℕ → ℕ → ℕ → Decoded
decode_mov d word arg1 arg2 = record d {
  is_mov = true;
  mov_dst = some arg1;
  mov_src = some (low_bits word 3);
  mov_op = some (low_bits (shr arg2 3) 2);
  illegal = low_bits (shr arg2 3) 2 == 3 || low_bits word 3 == 4;
}

unfoldable pub decode_irq : Decoded → ℕ → ℕ → Decoded
decode_irq d word arg2 = record d {
  is_irq = true;
  irq_clr = some (bit word 6);
  irq_wait = some (bit word 5);
  irq_idxmode = some (low_bits (shr arg2 3) 2);
  irq_index = some (low_bits arg2 3);
  illegal = has_bit word 6 && has_bit word 5;
}

unfoldable pub decode_set : Decoded → ℕ → ℕ → Decoded
decode_set d arg1 arg2 = record d {
  is_set = true;
  set_dst = some arg1;
  set_data = some arg2;
  illegal = arg1 == 3 || arg1 == 5 || arg1 == 6 || arg1 == 7;
}

-- The chain of tests on the class.
unfoldable pub decode_class : Decoded → ℕ → Fields → Decoded
decode_class d word f =
    if f.cls == c_jmp
    then record d { is_jmp = true; jmp_cond = some f.arg1; jmp_addr = some f.arg2 }
    else if f.cls == c_wait
    then decode_wait d f.arg1 f.arg2
    else if f.cls == c_in
    then decode_in d f.arg1 f.arg2
    else if f.cls == c_out
    then record d { is_out = true; out_dst = some f.arg1; out_count = some (bit_count f.arg2) }
    else if f.cls == c_pp
    then decode_pp d word f.arg2
    else if f.cls == c_mov
    then decode_mov d word f.arg1 f.arg2
    else if f.cls == c_irq
    then decode_irq d word f.arg2
    else decode_set d f.arg1 f.arg2

unfoldable pub decode : ℕ → Bool → ℕ → Result Decoded
decode word side_en sideset_count = do
  let f = split word
  s ← split_sideset f.ds side_en sideset_count
  ok (decode_class (blank word f.cls s) word f)
