-- ===== src/Synth/Windows.antt =====
-- `run_lengths`, `check_square` and `check_uart` of tools/hypersynth.py. An error is a value with
-- the numbers of its message.
use vibe_pio.Base.{
  ℕ, zero, suc, ◌+◌, ◌-◌, ◌*◌, ◌/◌, ◌%◌, ◌==◌, ◌&&◌, ◌||◌, not, Bool, true, false, ltb, leb, shl,
  List, [], ◌∷◌, ◌++◌, map, foldl, length, get_or, replicate, Option, none, some, if◌then◌else◌,
}

pub record Run : Type 0 where
  pub level : ℕ
  pub len : ℕ

-- The body of the loop: the last run grows, or a new one begins.
unfoldable pub grow : List Run → ℕ → List Run
grow [] b = record { level = b; len = 1 } ∷ []
grow (last ∷ []) b =
    if last.level == b
    then record { level = b; len = last.len + 1 } ∷ []
    else last ∷ record { level = b; len = 1 } ∷ []
grow (first ∷ (next ∷ runs)) b = first ∷ grow (next ∷ runs) b

-- `raw & 1`
abbrev pub low : ℕ → ℕ
low raw = raw % 2

unfoldable pub run_lengths : List ℕ → List Run
run_lengths bits = foldl grow [] (map low bits)

pub record SquareError : Type 0 where
  pub index : ℕ
  pub run : Run

unfoldable pub square_errors : ℕ → ℕ → List Run → List SquareError
square_errors half i [] = []
square_errors half i (r ∷ rs) =
    let later = square_errors half (i + 1) rs in
    if leb half r.len && leb r.len half then later else record { index = i; run = r } ∷ later

abbrev pub tail : List Run → List Run
tail [] = []
tail (r ∷ rs) = rs

unfoldable pub check_square : List ℕ → ℕ → List SquareError
check_square bits half = square_errors half 1 (tail (run_lengths bits))

pub data UartError : Type 0 where
  no_anchor no_start_edge bad_stop low_after_stop : UartError
  not_multiple : ℕ → ℕ → UartError
  short_tail : ℕ → ℕ → UartError
  incomplete : ℕ → UartError
  bad_parity : ℕ → ℕ → UartError
  bad_payload : ℕ → UartError

-- `runs[start + 1 :]`, where there is a start.
unfoldable pub after_anchor : List Run → Option (List Run)
after_anchor [] = none
after_anchor (r ∷ rs) = if r.level == 1 then some rs else after_anchor rs

-- The loop over `body[:-1]`, with the last run.
pub data Body : Type 0 where
  no_runs : Body
  misfit : ℕ → ℕ → Body
  slots : List ℕ → Run → Body

abbrev pub put_before : List ℕ → Body → Body
put_before here no_runs = no_runs
put_before here (misfit i len) = misfit i len
put_before here (slots later last) = slots (here ++ later) last

unfoldable pub read_body : ℕ → ℕ → List Run → Body
read_body bit i [] = no_runs
read_body bit i (r ∷ []) = slots [] r
read_body bit i (r ∷ (s ∷ rs)) =
    let later = read_body bit (i + 1) (s ∷ rs) in
    if not (r.len % bit == 0)
    then misfit i r.len
    else put_before (replicate (r.len / bit) r.level) later

abbrev pub stop_pos : ℕ
stop_pos = 10

-- `any(s == 0 for s in ...)`
unfoldable pub any_low : List ℕ → Bool
any_low [] = false
any_low (s ∷ ss) = (s == 0) || any_low ss

unfoldable pub drop : ℕ → List ℕ → List ℕ
drop zero xs = xs
drop (suc n) [] = []
drop (suc n) (x ∷ xs) = drop n xs

-- `sum(slots[1 + i] << i for i in range(8))`
unfoldable pub frame_data : List ℕ → ℕ
frame_data ss =
    let bit_at = λ (i : ℕ). shl (get_or ss (1 + i) 0) i in
    bit_at 0 + bit_at 1 + bit_at 2 + bit_at 3 + bit_at 4 + bit_at 5 + bit_at 6 + bit_at 7

-- `data.bit_count() & 1`, of eight slots that are each 0 or 1.
unfoldable pub even_parity : List ℕ → ℕ
even_parity ss =
    let bit_at = λ (i : ℕ). get_or ss (1 + i) 0 in
    (bit_at 0 + bit_at 1 + bit_at 2 + bit_at 3 + bit_at 4 + bit_at 5 + bit_at 6 + bit_at 7) % 2

abbrev pub error_if : Bool → UartError → List UartError
error_if true e = e ∷ []
error_if false e = []

-- The checks of eleven slots or more.
unfoldable pub check_slots : List ℕ → ℕ → List UartError × Option ℕ
check_slots ss payload =
    let value = frame_data ss in
    (
      error_if (not (get_or ss stop_pos 0 == 1)) bad_stop
          ++ (error_if (any_low (drop (stop_pos + 1) ss)) low_after_stop
              ++ (error_if (not (get_or ss 9 0 == even_parity ss))
                    (bad_parity (get_or ss 9 0) value)
                  ++ error_if (not (value == payload)) (bad_payload value))),
      some value,
    )

unfoldable pub check_length : List ℕ → ℕ → List UartError × Option ℕ
check_length ss payload =
    if ltb (length ss) (stop_pos + 1)
    then (incomplete (length ss) ∷ [], none)
    else check_slots ss payload

-- What the final run adds to the slots.
unfoldable pub check_body : ℕ → ℕ → Body → List UartError × Option ℕ
check_body bit payload no_runs = (no_start_edge ∷ [], none)
check_body bit payload (misfit i len) = (not_multiple i len ∷ [], none)
check_body bit payload (slots ss last) =
    let k = stop_pos + 1 - length ss in
    if (last.level == 1) && leb (length ss) stop_pos
    then (if ltb (last.len + 1) (k * bit)
        then (short_tail last.len k ∷ [], none)
        else check_length (ss ++ replicate k 1) payload)
    else check_length (if last.level == 0 then ss ++ 0 ∷ [] else ss) payload

abbrev pub check_runs : ℕ → ℕ → Option (List Run) → List UartError × Option ℕ
check_runs bit payload none = (no_anchor ∷ [], none)
check_runs bit payload (some body) = check_body bit payload (read_body bit 0 body)

-- `bit` is above 0 in every call.
unfoldable pub check_uart : List ℕ → ℕ → ℕ → List UartError × Option ℕ
check_uart bits bit payload = check_runs bit payload (after_anchor (run_lengths bits))
