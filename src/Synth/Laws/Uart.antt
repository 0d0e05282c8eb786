-- ===== src/Synth/Laws/Uart.antt =====
-- `check_uart` accepts the waveform of a frame.
use vibe_pio.Base.{
  length-append, ℕ, zero, suc, ◌+◌, ◌-◌, ◌*◌, ◌%◌, ◌<◌, ◌≡◌, ◌∙◌, refl, sym, ap, ap₂, subst, arith,
  List, [], ◌∷◌, ◌++◌, map, foldl, replicate, length, some,
}
use native.Mathlib.Nat.{mul-mod_left, mul-div_cancel, mod-mod}
use mathlib.Core.List.{append_assoc, append-nil}
use vibe_pio.Encoding.Split.{bit}
use vibe_pio.Synth.Windows.{
  Run, grow, low, run_lengths, after_anchor, slots, read_body, put_before, any_low, drop,
  frame_data, even_parity, check_slots, check_length, check_body, check_runs, check_uart,
}
use vibe_pio.Synth.Laws.Stretch.{
  uart_slots, stretch, uart_wave, scaled, stretch-expand, grow-last, foldl-Differs, AreRuns-scaled,
  stretch-append, stretch-replicate, Differs-scaled,
}
use vibe_pio.Synth.Laws.RunLengths.{expand, replicate_add, Differs, AreRuns, run_lengths_lem}

read_body-scaled :
    (n i : ℕ) (first : List Run) (last : Run)
    → 0 < n
    → read_body n i (map (scaled n) first ++ last ∷ []) ≡ slots (expand first) last
unfolding read_body expand
read_body-scaled n i [] last h = refl
read_body-scaled n i (r ∷ []) last h = rw (mul-mod_left r.len n, mul-div_cancel r.len h) refl
read_body-scaled n i (r ∷ (s ∷ rs)) last h =
    rw (mul-mod_left r.len n, mul-div_cancel r.len h)
      (ap (put_before (replicate r.len r.level)) (read_body-scaled n (i + 1) (s ∷ rs) last h))

length-replicate : (n v : ℕ) → length (replicate n v) ≡ n
length-replicate zero v = refl
length-replicate (suc n) v = ap suc (length-replicate n v)

value : (p : ℕ) → p < 256 → frame_data (uart_slots p) ≡ p
unfolding frame_data uart_slots
value p h = omega arith

check_frame : (p : ℕ) → p < 256 → check_length (uart_slots p) p ≡ ([], some p)
unfolding check_length check_slots uart_slots frame_data even_parity any_low drop
check_frame p h = ground (arith, value p)

low_slots : (p : ℕ) → map low (uart_slots p) ≡ uart_slots p
unfolding uart_slots
low_slots p = simp (mod-mod) refl

slots_length : (p : ℕ) → length (uart_slots p) ≡ 11
unfolding uart_slots
slots_length p = refl

expand-append : (xs ys : List Run) → expand (xs ++ ys) ≡ expand xs ++ expand ys
unfolding expand
expand-append [] ys = refl
expand-append (r ∷ rs) ys =
    ap (λ l. replicate r.len r.level ++ l) (expand-append rs ys)
    ∙ sym (append_assoc (replicate r.len r.level) (expand rs) (expand ys))

-- The runs of the slots of a frame: the last is high, and the first is not.
frame_runs :
    (p : ℕ)
    → (first : List Run) × (n : ℕ) × (run_lengths (uart_slots p)
        ≡ first ++ record { level = 1; len = suc n } ∷ [])
      × Differs 1 (run_lengths (uart_slots p))
unfolding run_lengths uart_slots grow
frame_runs p =
    let line =
      low (bit p 0)
      ∷ low (bit p 1)
      ∷ low (bit p 2)
      ∷ low (bit p 3)
      ∷ low (bit p 4)
      ∷ low (bit p 5)
      ∷ low (bit p 6)
      ∷ low (bit p 7)
      ∷ low ((bit p 0 + bit p 1 + bit p 2 + bit p 3 + bit p 4 + bit p 5 + bit p 6 + bit p 7) % 2)
      ∷ [] in
    let before = foldl grow (record { level = 0; len = 1 } ∷ []) line in
    let (first, n, e) = grow-last before 1 in
    (
      first,
      n,
      e,
      foldl-Differs (line ++ 1 ∷ []) (record { level = 0; len = 1 }) [] 1 (λ wrong. ground arith),
    )

-- The line before the anchor is passed over.
anchored :
    (lead idle : ℕ) (body : List Run)
    → AreRuns (record { level = 1; len = idle } ∷ body)
    → after_anchor
        (run_lengths (replicate lead 0 ++ expand (record { level = 1; len = idle } ∷ body)))
      ≡ some body
unfolding after_anchor expand
anchored zero idle body h =
    ap after_anchor ((run_lengths_lem []).2 (record { level = 1; len = idle } ∷ body) h)
anchored (suc m) idle body h = ap after_anchor (
    (run_lengths_lem []).2
      (record { level = 0; len = suc m } ∷ record { level = 1; len = idle } ∷ body)
      (omega arith, omega arith, λ wrong. ground arith, h))

module _ (n payload extra : ℕ) (slot_pos : 0 < n) (fits : payload < 256) where
  -- The final run, as long as its slots and the idle line behind them.
  abbrev final : ℕ → Run
  final k = record { level = 1; len = suc k * n + extra }

  slots_split :
      (first : List Run) (k : ℕ)
      → run_lengths (uart_slots payload) ≡ first ++ record { level = 1; len = suc k } ∷ []
      → uart_slots payload ≡ expand first ++ replicate (suc k) 1
  unfolding expand
  slots_split first k e =
      sym (low_slots payload)
      ∙ sym (run_lengths_lem (uart_slots payload)).0
      ∙ ap expand e
      ∙ expand-append first (record { level = 1; len = suc k } ∷ [])
      ∙ ap (λ l. expand first ++ l) (append-nil (replicate (suc k) 1))

  expand-final :
      (first : List Run) (k : ℕ)
      → run_lengths (uart_slots payload) ≡ first ++ record { level = 1; len = suc k } ∷ []
      → expand (map (scaled n) first ++ final k ∷ [])
        ≡ stretch n (uart_slots payload) ++ replicate extra 1
  unfolding expand
  expand-final first k e =
      expand-append (map (scaled n) first) (final k ∷ [])
      ∙ ap₂ (λ a b. a ++ b) (sym (stretch-expand n first))
          (append-nil (replicate (suc k * n + extra) 1) ∙ replicate_add (suc k * n) extra 1)
      ∙ sym (append_assoc (stretch n (expand first)) (replicate (suc k * n) 1) (replicate extra 1))
      ∙ ap (λ l. (stretch n (expand first) ++ l) ++ replicate extra 1)
          (sym (stretch-replicate n (suc k) 1))
      ∙ ap (λ l. l ++ replicate extra 1)
          (sym (stretch-append n (expand first) (replicate (suc k) 1))
            ∙ ap (stretch n) (sym (slots_split first k e)))

  check_final :
      (first : List Run) (k : ℕ)
      → run_lengths (uart_slots payload) ≡ first ++ record { level = 1; len = suc k } ∷ []
      → check_body n payload (slots (expand first) (final k)) ≡ ([], some payload)
  unfolding check_body
  check_final first k e =
      let split = slots_split first k e in
      let count : length (expand first) + suc k ≡ 11 = omega (
        arith,
        eleven,
        ap length split,
        length-append (expand first) (replicate (suc k) 1),
        length-replicate (suc k) 1,
      ) in
      let missing : 11 - length (expand first) ≡ suc k = omega arith in
      let result : check_length (expand first ++ replicate (suc k) 1) payload ≡ ([], some payload) =
        ap (λ l. check_length l payload) (sym split) ∙ check_frame payload fits in
      rw missing (ground (arith, result))
    where
      eleven : length (uart_slots payload) ≡ 11
      eleven = slots_length payload

  -- The runs of the line behind the anchor.
  check_line :
      (lead idle : ℕ)
      → 0 < idle
      → check_uart (uart_wave lead idle extra n payload) n payload ≡ ([], some payload)
  unfolding check_uart uart_wave after_anchor expand
  check_line lead idle idle_pos =
      let (first, k, e, high) = frame_runs payload in
      let body = map (scaled n) first ++ final k ∷ [] in
      let runs = record { level = 1; len = idle } ∷ body in
      let are : AreRuns runs = (
        idle_pos,
        omega arith,
        Differs-scaled n (suc k) (suc k * n + extra) 1 1 first (subst (Differs 1) e high),
        AreRuns-scaled n (suc k) (suc k * n + extra) 1 first slot_pos (grind arith)
            (subst AreRuns e (run_lengths_lem (uart_slots payload)).1),
      ) in
      let wave : expand runs
          ≡ replicate idle 1 ++ (stretch n (uart_slots payload) ++ replicate extra 1) =
        ap (λ l. replicate idle 1 ++ l) (expand-final first k e) in
      ap (λ line. check_runs n payload (after_anchor (run_lengths (replicate lead 0 ++ line))))
        (sym wave)
      ∙ ap (check_runs n payload) (anchored lead idle body are)
      ∙ ap (check_body n payload) (read_body-scaled n 0 first (final k) slot_pos)
      ∙ check_final first k e

-- A line that is low for any time, idles high, sends start bit, eight data bits from the lowest,
-- even parity and stop bit at the exact slot length, and then stays high for any time, is accepted
-- by check_uart with no error and decodes to the payload, whatever runs the data makes.
pub check_uart-frame :
    (lead idle extra n payload : ℕ)
    → 0 < idle
    → 0 < n
    → payload < 256
    → check_uart (uart_wave lead idle extra n payload) n payload ≡ ([], some payload)
check_uart-frame lead idle extra n payload idle_pos slot_pos fits =
    check_line n payload extra slot_pos fits lead idle idle_pos
