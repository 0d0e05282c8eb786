-- ===== src/Optimize/NotFold.antt =====
-- `_t_reader`, `_t_writer` and `rw_mov_not_fold` of tools/hyperopt.py.
use vibe_pio.Base.{
  ℕ, zero, suc, ◌+◌, ◌-◌, ◌==◌, ◌&&◌, ◌||◌, not, Bool, true, false, shr, shl, low_bits, bit_or,
  List, [], length, get_or, set, Option, none, some, if◌then◌else◌, Result, ok, ◌>>=◌,
}
use vibe_pio.Encoding.Decode.{Decoded, decode, get}
use vibe_pio.Encoding.Tables.{
  jc_notx, jc_xdec, jc_xney, jc_noty, jc_ydec, ins_x, ins_y, movs_x, movs_y, movd_x, movd_y,
  mop_inv,
}
use vibe_pio.Optimize.Candidate.{Candidate, SeedCtx, decode_in_ctx, bottom_of, is_in, entry_is}
use vibe_pio.Optimize.Surgery.{set_delay, jmp_targets, delete_word, succ, has, same, can_absorb}
use vibe_pio.Optimize.Rewrites.{noted}

-- `E.decode(w)`: no side-set, which never raises.
unfoldable pub t_reader : ℕ → ℕ → Result Bool
t_reader w t = do
  d ← decode w false 0
  let in_x = t == movd_x
  let reads =
      (d.is_mov && has d.mov_src (if in_x then movs_x else movs_y))
      || (d.is_in && has d.in_src (if in_x then ins_x else ins_y))
  let jumps =
      has d.jmp_cond (if in_x then jc_notx else jc_noty)
      || (has d.jmp_cond (if in_x then jc_xdec else jc_ydec) || has d.jmp_cond jc_xney)
  ok (reads || (d.is_jmp && jumps))

unfoldable pub t_writer : ℕ → ℕ → Result Bool
t_writer w t = do
  d ← decode w false 0
  ok (
      if d.is_mov
      then has d.mov_dst t
      else if d.is_out || d.is_set
      then has d.out_dst t || has d.set_dst t
      else (t == movd_x) && d.is_pull)

-- The inner loop: whether it ran to its end, so that its `else` is entered.
unfoldable pub unread : List ℕ → ℕ → ℕ → ℕ → Result Bool
unread words t zero j = ok true
unread words t (suc left) j = do
  reader ← t_reader (get_or words j 0) t
  writer ← t_writer (get_or words j 0) t
  later ← unread words t left (j + 1)
  ok (if reader || writer then false else later)

-- The pair `mov t, ~s; mov u, ~t` at the words of decodings `d1` and `d2`: its `t` and `s`.
abbrev pub pair_of : Decoded → Decoded → ℕ → Option (ℕ × Option ℕ)
pair_of d1 d2 w1 =
    let t = get d1.mov_dst 0 in
    if not d1.is_mov
      || d1.illegal
      || d2.illegal
      || not (has d1.mov_op mop_inv)
      || not (has d1.mov_dst movd_x || has d1.mov_dst movd_y)
      || same d1.mov_src d1.mov_dst
      || not (low_bits (shr w1 8) 5 == 0)
    then none
    else if not d2.is_mov || not (has d2.mov_op mop_inv) || not (has d2.mov_src t)
    then none
    else some (t, d1.mov_src)

-- The body of the loop behind the test of the pair.
unfoldable pub fold_pair :
    SeedCtx → Candidate → ℕ → Option (ℕ × Option ℕ) → Result (Option Candidate)
fold_pair ctx cand i none = ok none
fold_pair ctx cand i (some (t, s)) = do
  let ws = cand.words
  let targets = jmp_targets ws
  let eb = bottom_of cand.execctrl
  let rewrite : Result (Option Candidate) = do
    before ← decode_in_ctx ctx (get_or ws (i - 1) 0)
    let base = set ws (i - 1) (set_delay ctx (get_or ws (i - 1) 0) (before.delay + 1))
    let moved = bit_or (shl (shr (low_bits (get_or ws (i + 1) 0) 16) 6) 6) (get s 0)
    delete_word ctx (record cand { words = set base (i + 1) moved }) i
  let dead : Result (Option Candidate) = do
    at_first ← entry_is ctx.entry cand.reloc i
    at_second ← entry_is ctx.entry cand.reloc (i + 1)
    ends ← unread ws t (length ws - (i + 2)) (i + 2)
    if at_first || at_second then ok none else if ends then rewrite else ok none
  fits ← can_absorb ctx cand (i - 1) 1
  let entered = is_in i targets || is_in (i + 1) targets || ((i == eb) || (i + 1 == eb))
  if not fits || not (succ cand (i - 1) == i) || entered then ok none else dead

-- The outer loop, with `left` rounds to go.
unfoldable pub mov_not_from : SeedCtx → Candidate → ℕ → ℕ → Result (List Candidate)
mov_not_from ctx cand zero i = ok []
mov_not_from ctx cand (suc left) i = do
  let w1 = get_or cand.words i 0
  let later = mov_not_from ctx cand left (i + 1)
  d1 ← decode_in_ctx ctx w1
  d2 ← decode_in_ctx ctx (get_or cand.words (i + 1) 0)
  next ← fold_pair ctx cand i (pair_of d1 d2 w1)
  elim next [ none ↦ later | some c ↦ ok (noted cand.trail "mov_not_fold" i (some c)) ]

unfoldable pub rw_mov_not_fold : SeedCtx → Candidate → Result (List Candidate)
rw_mov_not_fold ctx cand = mov_not_from ctx cand (length cand.words - 2) 1
