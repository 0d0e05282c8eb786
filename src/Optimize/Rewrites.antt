-- ===== src/Optimize/Rewrites.antt =====
-- The rewrites of tools/hyperopt.py that fold ticks, use the wrap and delete dead words, but for
-- `rw_mov_not_fold`. The source tests in this order, and so raises on the same words.
use vibe_pio.Base.{
  ℕ, zero, suc, ◌+◌, ◌-◌, ◌==◌, ◌&&◌, ◌||◌, not, Bool, false, ltb, leb, List, [], ◌∷◌, ◌++◌, map,
  length, get_or, set, Option, none, some, if◌then◌else◌, Result, ok, ◌>>=◌,
}
use Prim.Native.String.{String}
use vibe_pio.Encoding.Decode.{get}
use vibe_pio.Encoding.Tables.{jc_always}
use vibe_pio.Optimize.Candidate.{
  Candidate, SeedCtx, decode_in_ctx, top_of, with_wrap, is_in, is_pc, item, entry_is,
}
use vibe_pio.Optimize.Surgery.{
  set_delay, jmp_targets, delete_word, succ, has, tick_burner, can_absorb, no_side_clean,
}

-- The candidate with one more rewrite on its trail, if there is a candidate.
abbrev pub noted : List (String × ℕ) → String → ℕ → Option Candidate → List Candidate
noted trail rewrite site none = []
noted trail rewrite site (some c) = record c { trail = trail ++ (rewrite, site) ∷ [] } ∷ []

-- The body of the loop of `rw_fold_tick` behind its first test.
unfoldable pub fold_burn : SeedCtx → Candidate → ℕ → Option ℕ → Result (List Candidate)
fold_burn ctx cand i none = ok []
fold_burn ctx cand i (some burn) = do
  let fold : Result (List Candidate) = do
    before ← decode_in_ctx ctx (get_or cand.words (i - 1) 0)
    let packed = set_delay ctx (get_or cand.words (i - 1) 0) (before.delay + 1 + burn)
    next ← delete_word ctx (record cand { words = set cand.words (i - 1) packed }) i
    ok (noted cand.trail "fold_tick" i next)
  fits ← can_absorb ctx cand (i - 1) (1 + burn)
  if fits && (succ cand (i - 1) == i) then fold else ok []

-- The loop over `range(1, len(words))`, with `left` rounds to go.
unfoldable pub fold_tick_from : SeedCtx → Candidate → ℕ → ℕ → Result (List Candidate)
fold_tick_from ctx cand zero i = ok []
fold_tick_from ctx cand (suc left) i = do
  burn ← tick_burner ctx cand.words i
  here ← fold_burn ctx cand i burn
  later ← fold_tick_from ctx cand left (i + 1)
  ok (here ++ later)

unfoldable pub rw_fold_tick : SeedCtx → Candidate → Result (List Candidate)
rw_fold_tick ctx cand = fold_tick_from ctx cand (length cand.words - 1) 1

-- The index, the target and the decoding of the last word.
pub record Backjmp : Type 0 where
  pub index : ℕ
  pub target : ℕ
  pub delay : ℕ

unfoldable pub terminal_backjmp : SeedCtx → Candidate → Result (Option Backjmp)
terminal_backjmp ctx cand =
    let k = length cand.words - 1 in
    let w = get_or cand.words k 0 in
    let decoded : Result (Option Backjmp) = (do
      d ← decode_in_ctx ctx w
      clean ← no_side_clean ctx w
      let target = get d.jmp_addr 0
      ok (
          if not d.is_jmp || (d.illegal || not (has d.jmp_cond jc_always))
          then none
          else if leb k target || not clean
          then none
          else some (record { index = k; target = target; delay = d.delay }))) in
    if ltb k 1 || not (top_of cand.execctrl == k) then ok none else decoded

unfoldable pub wrap_entry_ok : SeedCtx → Candidate → ℕ → Result Bool
wrap_entry_ok ctx cand k =
    let by_entry : Result Bool = (do entered ← entry_is ctx.entry cand.reloc k; ok (not entered)) in
    if is_in k (jmp_targets cand.words) then ok false else by_entry

abbrev pub drop_reloc : ℕ → Option ℕ → Option ℕ
drop_reloc k r = if is_pc r k then none else r

-- `words[:-1]`
unfoldable pub init : List ℕ → List ℕ
init [] = []
init (w ∷ []) = []
init (w ∷ (v ∷ ws)) = w ∷ init (v ∷ ws)

-- The candidate without its last word, the jump, whose target is the wrap's.
unfoldable pub wrapped : Candidate → List ℕ → Backjmp → String → Candidate
wrapped cand words hit rewrite = record {
  words = init words;
  execctrl = with_wrap cand.execctrl (hit.index - 1) hit.target;
  reloc = map (drop_reloc hit.index) cand.reloc;
  trail = cand.trail ++ (rewrite, hit.index) ∷ [];
}

unfoldable pub wrap_fold_hit : SeedCtx → Candidate → Option Backjmp → Result (List Candidate)
wrap_fold_hit ctx cand none = ok []
wrap_fold_hit ctx cand (some hit) = do
  let k = hit.index
  let w = get_or cand.words (k - 1) 0
  let fold : Result (List Candidate) = do
    before ← decode_in_ctx ctx w
    let words = set cand.words (k - 1) (set_delay ctx w (before.delay + 1 + hit.delay))
    ok (wrapped cand words hit "wrap_fold" ∷ [])
  let enter : Result (List Candidate) = do
    free ← wrap_entry_ok ctx cand k
    if free then fold else ok []
  fits ← can_absorb ctx cand (k - 1) (1 + hit.delay)
  if not fits || not (succ cand (k - 1) == k) then ok [] else enter

unfoldable pub rw_wrap_fold : SeedCtx → Candidate → Result (List Candidate)
rw_wrap_fold ctx cand = do hit ← terminal_backjmp ctx cand; wrap_fold_hit ctx cand hit

unfoldable pub wrap_speed_hit : SeedCtx → Candidate → Option Backjmp → Result (List Candidate)
wrap_speed_hit ctx cand none = ok []
wrap_speed_hit ctx cand (some hit) = do
  let k = hit.index
  let speed : Result (List Candidate) = do
    fits ← can_absorb ctx cand (k - 1) (1 + hit.delay)
    ok (
        if fits && (succ cand (k - 1) == k)
        then []
        else wrapped cand cand.words hit "wrap_speed" ∷ [])
  free ← wrap_entry_ok ctx cand k
  if not free then ok [] else speed

unfoldable pub rw_wrap_speed : SeedCtx → Candidate → Result (List Candidate)
rw_wrap_speed ctx cand = do hit ← terminal_backjmp ctx cand; wrap_speed_hit ctx cand hit

-- `{cand.reloc[o] for o in ctx.visited}`
unfoldable pub live_pcs : List (Option ℕ) → List ℕ → Result (List (Option ℕ))
live_pcs reloc [] = ok []
live_pcs reloc (o ∷ os) = do r ← item reloc o; rs ← live_pcs reloc os; ok (r ∷ rs)

unfoldable pub is_live : ℕ → List (Option ℕ) → Bool
is_live j [] = false
is_live j (r ∷ rs) = is_pc r j || is_live j rs

-- The loop of `rw_dce` from word `j` on: the first word that can go is deleted.
unfoldable pub dce_from : SeedCtx → Candidate → List (Option ℕ) → ℕ → ℕ → Result (List Candidate)
dce_from ctx cand live zero j = ok []
dce_from ctx cand live (suc left) j =
    let later = dce_from ctx cand live left (j + 1) in
    let delete : Result (List Candidate) = (do
      next ← delete_word ctx cand j
      elim next [ none ↦ later | some c ↦ ok (noted cand.trail "dce" j (some c)) ]) in
    if is_live j live || is_in j (jmp_targets cand.words) then later else delete

unfoldable pub rw_dce : SeedCtx → Candidate → Result (List Candidate)
rw_dce ctx cand =
    let search : Result (List Candidate) = (do
      live ← live_pcs cand.reloc ctx.visited
      dce_from ctx cand live (length cand.words) 0) in
    if ctx.has_dyn_pc then ok [] else search
