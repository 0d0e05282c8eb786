-- ===== src/Optimize/Candidate.antt =====
-- `Candidate` and `SeedCtx` of tools/hyperopt.py, and the decoding under a seed's side-set.
use vibe_pio.Base.{
  ℕ, zero, suc, ◌-◌, ◌==◌, ◌||◌, Bool, false, shr, shl, low_bits, and_not, bit_or, List, [], ◌∷◌,
  Option, none, some, Result, ok, err, ◌>>=◌, index_error,
}
use Prim.Native.String.{String}
use vibe_pio.Encoding.Decode.{Decoded, decode}
use vibe_pio.Trace.Format.{Rec}
use vibe_pio.Stim.Schedule.{Schedule}

-- `reloc` holds `none` where the source has -1.
pub record Candidate : Type 0 where
  pub words : List ℕ
  pub execctrl : ℕ
  pub reloc : List (Option ℕ)
  pub trail : List (String × ℕ)

-- The source's sets and the measured trace are lists. Its `name` is only printed.
pub record SeedCtx : Type 0 where
  pub words : List ℕ
  pub execctrl : ℕ
  pub sched : Schedule
  pub entry : Option ℕ
  pub side_en : Bool
  pub ss_total : ℕ
  pub has_dyn_pc : Bool
  pub visited : List ℕ
  pub trace : List Rec
  pub period : Option ℕ

-- At an `ss_total` above 5 the source raises; each of its calls decodes a word of the seed first,
-- which raises there too.
abbrev pub delay_mask : SeedCtx → ℕ
delay_mask ctx = shl 1 (5 - ctx.ss_total) - 1

abbrev pub decode_in_ctx : SeedCtx → ℕ → Result Decoded
decode_in_ctx ctx word = decode word ctx.side_en ctx.ss_total

-- `(ec >> 12) & 0x1F` and `(ec >> 7) & 0x1F`
abbrev pub top_of : ℕ → ℕ
top_of ec = low_bits (shr ec 12) 5

abbrev pub bottom_of : ℕ → ℕ
bottom_of ec = low_bits (shr ec 7) 5

abbrev pub wrap_bits : ℕ
wrap_bits = bit_or (shl 0x1f 12) (shl 0x1f 7)

-- `(ec & ~WRAP_BITS) | (top << 12) | (bottom << 7)`
unfoldable pub with_wrap : ℕ → ℕ → ℕ → ℕ
with_wrap ec top bottom = bit_or (bit_or (and_not ec wrap_bits) (shl top 12)) (shl bottom 7)

-- `xs[i]`, for `i` not negative.
unfoldable pub item {ℓ} : {A : Type ℓ} → List A → ℕ → Result A
item [] i = err index_error
item (x ∷ xs) zero = ok x
item (x ∷ xs) (suc i) = item xs i

unfoldable pub is_in : ℕ → List ℕ → Bool
is_in v [] = false
is_in v (x ∷ xs) = v == x || is_in v xs

-- `r == k`, which -1 never is.
abbrev pub is_pc : Option ℕ → ℕ → Bool
is_pc none k = false
is_pc (some r) k = r == k

-- `ctx.entry is not None and cand.reloc[ctx.entry] == k`
unfoldable pub entry_is : Option ℕ → List (Option ℕ) → ℕ → Result Bool
entry_is none reloc k = ok false
entry_is (some entry) reloc k = do r ← item reloc entry; ok (is_pc r k)
