-- ===== src/Synth/Laws/Stretch.antt =====
-- The waveform of a UART frame, and the runs of a waveform whose slots are stretched.
use vibe_pio.Base.{
  ℕ, zero, suc, ◌+◌, ◌*◌, ◌%◌, ◌<◌, ◌≡◌, ◌≢◌, ◌∙◌, refl, sym, ap, ap₂, subst, arith, ◌==◌, List, [],
  ◌∷◌, ◌++◌, map, foldl, replicate, Bool-cases, inl, inr,
}
use mathlib.Core.List.{append_assoc}
use vibe_pio.Encoding.Split.{bit}
use vibe_pio.Synth.Windows.{Run, grow}
use vibe_pio.Synth.Laws.RunLengths.{expand, replicate_add, Differs, AreRuns}

-- The slots of a frame: start, eight data bits from the lowest, even parity, stop.
unfoldable pub uart_slots : ℕ → List ℕ
uart_slots p =
    0
    ∷ bit p 0
    ∷ bit p 1
    ∷ bit p 2
    ∷ bit p 3
    ∷ bit p 4
    ∷ bit p 5
    ∷ bit p 6
    ∷ bit p 7
    ∷ ((bit p 0 + bit p 1 + bit p 2 + bit p 3 + bit p 4 + bit p 5 + bit p 6 + bit p 7) % 2)
    ∷ 1
    ∷ []

-- Each slot for `n` cycles.
unfoldable pub stretch : ℕ → List ℕ → List ℕ
stretch n [] = []
stretch n (s ∷ ss) = replicate n s ++ stretch n ss

-- A line that is low for `lead` cycles, idles for `idle`, sends the frame and is high for `extra`
-- cycles more.
unfoldable pub uart_wave : ℕ → ℕ → ℕ → ℕ → ℕ → List ℕ
uart_wave lead idle extra n payload =
    replicate lead 0 ++ (replicate idle 1 ++ (stretch n (uart_slots payload) ++ replicate extra 1))

abbrev pub scaled : ℕ → Run → Run
scaled n r = record r { len = r.len * n }

pub stretch-append : (n : ℕ) (xs ys : List ℕ) → stretch n (xs ++ ys) ≡ stretch n xs ++ stretch n ys
unfolding stretch
stretch-append n [] ys = refl
stretch-append n (x ∷ xs) ys =
    ap (λ l. replicate n x ++ l) (stretch-append n xs ys)
    ∙ sym (append_assoc (replicate n x) (stretch n xs) (stretch n ys))

pub stretch-replicate : (n k l : ℕ) → stretch n (replicate k l) ≡ replicate (k * n) l
unfolding stretch
stretch-replicate n zero l = ap (λ (j : ℕ). replicate j l) {x = 0} (omega arith)
stretch-replicate n (suc k) l =
    ap (λ rest. replicate n l ++ rest) (stretch-replicate n k l)
    ∙ sym (replicate_add n (k * n) l)
    ∙ ap (λ (j : ℕ). replicate j l) (omega arith)

pub stretch-expand : (n : ℕ) (rs : List Run) → stretch n (expand rs) ≡ expand (map (scaled n) rs)
unfolding expand stretch
stretch-expand n [] = refl
stretch-expand n (r ∷ rs) =
    stretch-append n (replicate r.len r.level) (expand rs)
    ∙ ap₂ (λ a b. a ++ b) (stretch-replicate n r.len r.level) (stretch-expand n rs)

-- The last run of a loop that ended with `b`.
pub grow-last :
    (runs : List Run) (b : ℕ)
    → (first : List Run) × (n : ℕ) × (grow runs b ≡ first ++ record { level = b; len = suc n } ∷ [])
unfolding grow
grow-last [] b = ([], 0, refl)
grow-last (r ∷ []) b = elim (Bool-cases (r.level == b)) [
  | inl same ↦
      ([], r.len, rw same (ap (λ (k : ℕ). record { level = b; len = k } ∷ []) (omega arith)))
  | inr other ↦ (r ∷ [], 0, rw other refl)
]
grow-last (r ∷ (s ∷ rs)) b =
    let (first, n, e) = grow-last (s ∷ rs) b in (r ∷ first, n, ap (λ l. r ∷ l) e)

-- A loop keeps the level of the first run.
grow-head :
    (first : Run) (runs : List Run) (b : ℕ)
    → (n : ℕ) × (rest : List Run) × (grow (first ∷ runs) b
        ≡ record { level = first.level; len = n } ∷ rest)
unfolding grow
grow-head first [] b = elim (Bool-cases (first.level == b)) [
  | inl same ↦ (
    first.len + 1,
    [],
    rw same (ap (λ (l : ℕ). record { level = l; len = first.len + 1 } ∷ []) (ground arith)),
  )
  | inr other ↦ (first.len, record { level = b; len = 1 } ∷ [], rw other refl)
]
grow-head first (next ∷ runs) b = (first.len, grow (next ∷ runs) b, refl)

pub foldl-Differs :
    (bits : List ℕ) (first : Run) (runs : List Run) (l : ℕ)
    → l ≢ first.level
    → Differs l (foldl grow (first ∷ runs) bits)
foldl-Differs [] first runs l h = h
foldl-Differs (b ∷ bits) first runs l h =
    let (n, rest, e) = grow-head first runs b in
    subst (λ (rs : List Run). Differs l (foldl grow rs bits)) (sym e)
      (foldl-Differs bits (record { level = first.level; len = n }) rest l h)

-- Scaled runs, of which the last is exchanged for another of its level, are runs.
pub Differs-scaled :
    (n k k' b l : ℕ) (first : List Run)
    → Differs l (first ++ record { level = b; len = k } ∷ [])
    → Differs l (map (scaled n) first ++ record { level = b; len = k' } ∷ [])
Differs-scaled n k k' b l [] h = h
Differs-scaled n k k' b l (r ∷ rs) h = h

pub AreRuns-scaled :
    (n k k' b : ℕ) (first : List Run)
    → 0 < n
    → 0 < k'
    → AreRuns (first ++ record { level = b; len = k } ∷ [])
    → AreRuns (map (scaled n) first ++ record { level = b; len = k' } ∷ [])
AreRuns-scaled n k k' b [] h h' a = (h', a.1, tt, tt)
AreRuns-scaled n k k' b (r ∷ rs) h h' a =
    (grind arith, a.1, Differs-scaled n k k' b r.level rs a.2, AreRuns-scaled n k k' b rs h h' a.3)
