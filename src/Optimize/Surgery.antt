-- ===== src/Optimize/Surgery.antt =====
-- The word surgery of tools/hyperopt.py: packing a delay, and deleting a word with relocation.
use vibe_pio.Base.{
  ℕ, ◌+◌, ◌-◌, ◌==◌, ◌&&◌, ◌||◌, not, Bool, true, false, ltb, leb, shr, shl, low_bits, and_not,
  bit_and, bit_or, List, [], ◌∷◌, map, length, get_or, Option, none, some, if◌then◌else◌, Result,
  ok, ◌>>=◌,
}
use vibe_pio.Encoding.Tables.{
  c_jmp, jc_xdec, jc_ydec, mop_none, movd_x, movd_y, movd_pc, movd_exec, outd_pc, outd_exec,
}
use vibe_pio.Optimize.Candidate.{
  Candidate, SeedCtx, delay_mask, decode_in_ctx, top_of, bottom_of, with_wrap, is_in, entry_is,
}

-- `_set_delay` by the mask that it reads: `word & ~(m << 8) & 0xFFFF | (delay & m) << 8`.
unfoldable pub put_delay : ℕ → ℕ → ℕ → ℕ
put_delay m word delay = bit_or (low_bits (and_not word (shl m 8)) 16) (shl (bit_and delay m) 8)

unfoldable pub set_delay : SeedCtx → ℕ → ℕ → ℕ
set_delay ctx word delay = put_delay (delay_mask ctx) word delay

abbrev pub is_jmp_word : ℕ → Bool
is_jmp_word w = low_bits (shr w 13) 3 == c_jmp

-- The set as a list.
unfoldable pub jmp_targets : List ℕ → List ℕ
jmp_targets [] = []
jmp_targets (w ∷ ws) = if is_jmp_word w then low_bits w 5 ∷ jmp_targets ws else jmp_targets ws

-- A jump past the cut at `k` shifts down.
abbrev pub shift_jmp : ℕ → ℕ → ℕ
shift_jmp k w =
    if is_jmp_word w && ltb k (low_bits w 5) then bit_or (and_not w 0x1f) (low_bits w 5 - 1) else w

-- The comprehension over `enumerate(words)`, with the index of the first word.
unfoldable pub cut : ℕ → ℕ → List ℕ → List ℕ
cut k j [] = []
cut k j (w ∷ ws) = if j == k then cut k (j + 1) ws else shift_jmp k w ∷ cut k (j + 1) ws

abbrev pub shift_pc : ℕ → ℕ → ℕ
shift_pc k pc = if ltb k pc then pc - 1 else pc

abbrev pub shift_reloc : ℕ → Option ℕ → Option ℕ
shift_reloc k none = none
shift_reloc k (some r) = if r == k then none else if ltb r k then some r else some (r - 1)

unfoldable pub delete_word : SeedCtx → Candidate → ℕ → Result (Option Candidate)
delete_word ctx cand k =
    let et = top_of cand.execctrl in
    let eb = bottom_of cand.execctrl in
    let deleted : Candidate = record {
      words = cut k 0 cand.words;
      execctrl = with_wrap cand.execctrl (shift_pc k et) (shift_pc k eb);
      reloc = map (shift_reloc k) cand.reloc;
      trail = cand.trail;
    } in
    let past_entry : Result (Option Candidate) = (do
      entered ← entry_is ctx.entry cand.reloc k
      ok (if entered then none else some deleted)) in
    if is_in k (jmp_targets cand.words) || (k == et || k == eb) then ok none else past_entry

abbrev pub succ : Candidate → ℕ → ℕ
succ cand i = if i == top_of cand.execctrl then bottom_of cand.execctrl else low_bits (i + 1) 5

-- `d.get(key) == v`
abbrev pub has : Option ℕ → ℕ → Bool
has none v = false
has (some x) v = x == v

-- The dead value bits of a clean field.
abbrev pub clean_ds : SeedCtx → ℕ → Bool
clean_ds ctx w = leb (low_bits (shr w 8) 5) (delay_mask ctx)

abbrev pub same : Option ℕ → Option ℕ → Bool
same none none = true
same (some x) (some y) = x == y
same none (some y) = false
same (some x) none = false

unfoldable pub tick_burner : SeedCtx → List ℕ → ℕ → Result (Option ℕ)
tick_burner ctx words i = do
  let w = get_or words i 0
  d ← decode_in_ctx ctx w
  let is_nop =
      d.is_mov
      && has d.mov_op mop_none
      && (has d.mov_dst movd_x || has d.mov_dst movd_y)
      && same d.mov_src d.mov_dst
  let is_next =
      d.is_jmp
      && not (has d.jmp_cond jc_xdec || has d.jmp_cond jc_ydec)
      && has d.jmp_addr (low_bits (i + 1) 5)
      && ltb (i + 1) (length words)
  ok (
      if d.illegal || d.ss_valid
      then none
      else if not (clean_ds ctx w)
      then none
      else if is_nop || is_next
      then some d.delay
      else none)

unfoldable pub can_absorb : SeedCtx → Candidate → ℕ → ℕ → Result Bool
can_absorb ctx cand i extra = do
  d ← decode_in_ctx ctx (get_or cand.words i 0)
  ok (
      if d.illegal || d.is_jmp
      then false
      else if d.is_out && (has d.out_dst outd_pc || has d.out_dst outd_exec)
      then false
      else if d.is_mov && (has d.mov_dst movd_pc || has d.mov_dst movd_exec)
      then false
      else leb (d.delay + extra) (delay_mask ctx))

unfoldable pub no_side_clean : SeedCtx → ℕ → Result Bool
no_side_clean ctx w = do
  d ← decode_in_ctx ctx w
  ok (not d.illegal && not d.ss_valid && clean_ds ctx w)
