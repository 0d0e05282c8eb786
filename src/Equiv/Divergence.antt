-- ===== src/Equiv/Divergence.antt =====
-- `_first_diff_bit`, `_culprit_pcs`, `decode_first_divergence` and `prefilter` of
-- tools/hyperequiv.py.
use vibe_pio.Base.{
  bit_length, ℕ, zero, suc, ◌+◌, ◌-◌, ◌*◌, ◌==◌, ◌&&◌, not, leb, max, bit_xor, List, [], ◌∷◌,
  length, Option, none, some, Bool, true, false, if◌then◌else◌, Result, ok, err, assertion_error,
  ◌>>=◌,
}
use vibe_pio.Trace.Format.{Rec, observed, read, rec_eq, clk_of, normalize}
use vibe_pio.Equiv.Pair.{ProgPair, ec_mask, prologue_clks}
use vibe_pio.Equiv.Stimulus.{Rng, random_free_stimulus}
use vibe_pio.Equiv.Lockstep.{run_pair_models}

-- Any number of digits is at most the number itself.
unfoldable pub first_diff_bit : ℕ → ℕ → Option ℕ
first_diff_bit x y = let d = bit_xor x y in if d == 0 then none else some (bit_length d d - 1)

pub data Kind : Type 0 where
  trace_length gpio_out gpio_oe intr rdata : Kind

-- Without the name of its source, which is only printed.
pub record Divergence : Type 0 where
  pub clk : ℕ
  pub kind : Kind
  pub pin : Option ℕ
  pub val_a : ℕ
  pub val_b : ℕ
  pub addr : Option ℕ
  pub culprits : Option (ℕ × ℕ)

unfoldable pub nth : List (ℕ × ℕ) → ℕ → Option (ℕ × ℕ)
nth [] i = none
nth (p ∷ ps) zero = some p
nth (p ∷ ps) (suc i) = nth ps i

abbrev pub is_rdata : Kind → Bool
is_rdata rdata = true
is_rdata trace_length = false
is_rdata gpio_out = false
is_rdata gpio_oe = false
is_rdata intr = false

unfoldable pub culprit_pcs : List (ℕ × ℕ) → ℕ → Kind → Option (ℕ × ℕ)
culprit_pcs pcs clk kind = nth pcs (if not (is_rdata kind) && leb 1 clk then clk - 1 else clk)

unfoldable pub pin_divergence : List (ℕ × ℕ) → ℕ → Kind → ℕ → ℕ → Divergence
pin_divergence pcs clk kind fa fb = record {
  clk = clk;
  kind = kind;
  pin = first_diff_bit fa fb;
  val_a = fa;
  val_b = fb;
  addr = none;
  culprits = culprit_pcs pcs clk kind;
}

-- The divergence of two records that are not equal.
unfoldable pub rec_divergence : List (ℕ × ℕ) → Rec → Rec → Result Divergence
rec_divergence pcs (observed clk out oe int) (observed clk' out' oe' int') =
    if not (out == out')
    then ok (pin_divergence pcs clk gpio_out out out')
    else if not (oe == oe')
    then ok (pin_divergence pcs clk gpio_oe oe oe')
    else if not (int == int')
    then ok (pin_divergence pcs clk intr int int')
    else err assertion_error
rec_divergence pcs (observed _ _ _ _) (read _ _ _) = err assertion_error
rec_divergence pcs (read _ _ _) (observed _ _ _ _) = err assertion_error
rec_divergence pcs (read clk addr value) (read clk' addr' value') = ok (record {
  clk = clk;
  kind = rdata;
  pin = none;
  val_a = value;
  val_b = value';
  addr = some addr;
  culprits = culprit_pcs pcs clk rdata;
})

-- One trace ended before the other; the values are the lengths of the whole traces.
unfoldable pub length_divergence : List (ℕ × ℕ) → ℕ → ℕ → ℕ → Divergence
length_divergence pcs clk len_a len_b = record {
  clk = clk;
  kind = trace_length;
  pin = none;
  val_a = len_a;
  val_b = len_b;
  addr = none;
  culprits = culprit_pcs pcs clk trace_length;
}

-- The loop, from record `i` on.
unfoldable pub first_from : List (ℕ × ℕ) → ℕ → List Rec → List Rec → Result (Option Divergence)
first_from pcs i [] [] = ok none
first_from pcs i (a ∷ as') [] =
    ok (some (length_divergence pcs (clk_of a) (i + length (a ∷ as')) i))
first_from pcs i [] (b ∷ bs) = ok (some (length_divergence pcs (clk_of b) i (i + length (b ∷ bs))))
first_from pcs i (a ∷ as') (b ∷ bs) =
    let later = first_from pcs (i + 1) as' bs in
    let found : Result (Option Divergence) = (do d ← rec_divergence pcs a b; ok (some d)) in
    if rec_eq a b then later else found

unfoldable pub decode_first_divergence :
    List Rec → List Rec → List (ℕ × ℕ) → ℕ → Result (Option Divergence)
decode_first_divergence recs_a recs_b pcs mask =
    first_from pcs 0 (normalize recs_a mask) (normalize recs_b mask)

-- The loop over the rounds, with `left` to go; `rngs` gives the generator of a seed.
unfoldable pub rounds_from : ProgPair → (ℕ → Rng) → ℕ → ℕ → ℕ → ℕ → Result (Option Divergence)
rounds_from pair rngs n seed zero r = ok none
rounds_from pair rngs n seed (suc left) r = do
  l ← run_pair_models pair (random_free_stimulus (rngs (seed * 1000 + r)) n)
  let later = rounds_from pair rngs n seed left (r + 1)
  div ← decode_first_divergence l.recs_a l.recs_b l.pcs (ec_mask pair)
  elim div [ none ↦ later | some d ↦ ok (some d) ]

unfoldable pub prefilter : ProgPair → (ℕ → Rng) → ℕ → ℕ → ℕ → Result (Option Divergence)
prefilter pair rngs horizon rounds seed =
    rounds_from pair rngs (max 8 (horizon - prologue_clks pair)) seed rounds 0
