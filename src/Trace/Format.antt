-- ===== src/Trace/Format.antt =====
-- The trace records of tools/pio_model/tracefmt.py with `_classify`, `normalize` and `compare`; the
-- text form, its reading and its writing are left out.
use vibe_pio.Base.{
  ℕ, ◌+◌, ◌-◌, ◌%◌, Bool, false, ◌&&◌, ◌==◌, leb, if◌then◌else◌, shr, low_bits, bit_and, List, [],
  ◌∷◌, Option, none, some,
}

-- `Rec`
pub data Rec : Type 0 where
  observed : ℕ → ℕ → ℕ → ℕ → Rec
  read : ℕ → ℕ → ℕ → Rec

abbrev pub rec_eq : Rec → Rec → Bool
rec_eq (observed clk out oe intr) (observed clk' out' oe' intr') =
    (clk == clk') && ((out == out') && ((oe == oe') && (intr == intr')))
rec_eq (read clk addr rdata) (read clk' addr' rdata') =
    (clk == clk') && ((addr == addr') && (rdata == rdata'))
rec_eq (observed _ _ _ _) (read _ _ _) = false
rec_eq (read _ _ _) (observed _ _ _ _) = false

abbrev pub clk_of : Rec → ℕ
clk_of (observed clk _ _ _) = clk
clk_of (read clk _ _) = clk

pub data Treatment : Type 0 where
  drop mask31 keep : Treatment

unfoldable pub classify : ℕ → Treatment
classify addr =
    let widx = low_bits (shr addr 2) 7 in
    let sm_reg = (widx - 50) % 6 in
    if leb 50 widx && leb widx 73
    then (if sm_reg == 3
        then drop
        else if sm_reg == 4
        then drop
        else if sm_reg == 1
        then mask31
        else keep)
    else keep

abbrev pub treated : Treatment → ℕ → ℕ → ℕ → ℕ → List Rec → List Rec
treated drop ec_mask clk addr rdata rest = rest
treated mask31 ec_mask clk addr rdata rest = read clk addr (bit_and rdata ec_mask) ∷ rest
treated keep ec_mask clk addr rdata rest = read clk addr rdata ∷ rest

unfoldable pub normalize : List Rec → ℕ → List Rec
normalize [] ec_mask = []
normalize (observed clk out oe intr ∷ recs) ec_mask =
    observed clk out oe intr ∷ normalize recs ec_mask
normalize (read clk addr rdata ∷ recs) ec_mask =
    treated (classify addr) ec_mask clk addr rdata (normalize recs ec_mask)

-- `TraceMismatch`, with the record index and the cycle that its message names.
pub record Mismatch : Type 0 where
  pub at_record : ℕ
  pub at_clk : ℕ
  pub model_rec : Option Rec
  pub rtl_rec : Option Rec

-- The loop of `compare` from record `i` on; nothing where it raises nothing.
unfoldable pub diverge : ℕ → List Rec → List Rec → Option Mismatch
diverge i [] [] = none
diverge i (a ∷ xs) [] =
    some (record { at_record = i; at_clk = clk_of a; model_rec = some a; rtl_rec = none })
diverge i [] (b ∷ ys) =
    some (record { at_record = i; at_clk = clk_of b; model_rec = none; rtl_rec = some b })
diverge i (a ∷ xs) (b ∷ ys) =
    let rest = diverge (i + 1) xs ys in
    if rec_eq a b
    then rest
    else some (record { at_record = i; at_clk = clk_of a; model_rec = some a; rtl_rec = some b })

unfoldable pub compare : List Rec → List Rec → Option Mismatch
compare model_recs rtl_recs =
    diverge 0 (normalize model_recs 0x7FFFFFFF) (normalize rtl_recs 0x7FFFFFFF)
