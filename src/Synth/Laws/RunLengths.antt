-- ===== src/Synth/Laws/RunLengths.antt =====
-- Run lengths and waveforms determine each other.
use vibe_pio.Base.{
  ℕ, zero, suc, ◌+◌, ◌<◌, ◌≡◌, ◌≢◌, ◌∙◌, refl, sym, ap, ap₂, arith, ◌==◌, List, [], ◌∷◌, ◌++◌, map,
  map-append, foldl, replicate, Bool-cases, inl, inr,
}
use mathlib.Core.List.{append_assoc, append-nil}
use vibe_pio.Synth.Windows.{Run, grow, low, run_lengths}

-- The waveform of runs.
unfoldable pub expand : List Run → List ℕ
expand [] = []
expand (r ∷ rs) = replicate r.len r.level ++ expand rs

pub replicate_add : (m n v : ℕ) → replicate (m + n) v ≡ replicate m v ++ replicate n v
replicate_add zero n v = ap (λ (k : ℕ). replicate k v) {y = n} (omega arith)
replicate_add (suc m) n v =
    ap (λ (k : ℕ). replicate k v) {y = suc (m + n)} (omega arith)
    ∙ ap (λ l. v ∷ l) (replicate_add m n v)

expand-grow : (runs : List Run) (b : ℕ) → expand (grow runs b) ≡ expand runs ++ b ∷ []
unfolding expand grow
expand-grow [] b = refl
expand-grow (last ∷ []) b = elim (Bool-cases (last.level == b)) [
  | inl same ↦
      let e : last.level ≡ b = ground arith in
      rw same (
        append-nil _
        ∙ replicate_add last.len 1 b
        ∙ ap (λ (l : ℕ). replicate last.len l ++ b ∷ []) (sym e)
        ∙ ap (λ l. l ++ b ∷ []) (sym (append-nil (replicate last.len last.level))))
  | inr other ↦ rw other (sym (append_assoc (replicate last.len last.level) [] (b ∷ [])))
]
expand-grow (first ∷ (next ∷ runs)) b =
    ap (λ l. replicate first.len first.level ++ l) (expand-grow (next ∷ runs) b)
    ∙ sym (append_assoc (replicate first.len first.level) (expand (next ∷ runs)) (b ∷ []))

expand-foldl :
    (bits : List ℕ) (runs : List Run) → expand (foldl grow runs bits) ≡ expand runs ++ bits
expand-foldl [] runs = sym (append-nil (expand runs))
expand-foldl (b ∷ bits) runs =
    expand-foldl bits (grow runs b)
    ∙ ap (λ l. l ++ bits) (expand-grow runs b)
    ∙ append_assoc (expand runs) (b ∷ []) bits

-- The next run, where there is one, is at another level.
abbrev pub Differs : ℕ → List Run → Type 0
Differs l [] = Unit
Differs l (r ∷ rs) = l ≢ r.level

-- Levels that alternate, and runs of a length above 0.
abbrev pub AreRuns : List Run → Type 0
AreRuns [] = Unit
AreRuns (r ∷ rs) = (0 < r.len) × (r.level < 2) × Differs r.level rs × AreRuns rs

grow-first :
    (first : Run) (runs : List Run) (b : ℕ)
    → b < 2
    → AreRuns (first ∷ runs)
    → AreRuns (grow (first ∷ runs) b)
      × ((l : ℕ) → l ≢ first.level → Differs l (grow (first ∷ runs) b))
unfolding grow
grow-first first [] b small h = elim (Bool-cases (first.level == b)) [
  | inl same ↦
      let e : first.level ≡ b = ground arith in
      rw same ((omega arith, small, tt, tt), λ l n. λ eq. n (eq ∙ sym e))
  | inr other ↦ rw other ((h.0, h.1, λ e. ground arith, (omega arith, small, tt, tt)), λ l n. n)
]
grow-first first (next ∷ runs) b small h =
    let (later, apart) = grow-first next runs b small h.3 in
    ((h.0, h.1, apart first.level h.2, later), λ l n. n)

AreRuns-foldl :
    (bits : List ℕ) (runs : List Run) → AreRuns runs → AreRuns (foldl grow runs (map low bits))
unfolding grow
AreRuns-foldl [] runs h = h
AreRuns-foldl (b ∷ bits) [] h =
    AreRuns-foldl bits (record { level = low b; len = 1 } ∷ []) (omega arith, omega arith, tt, tt)
AreRuns-foldl (b ∷ bits) (r ∷ rs) h =
    AreRuns-foldl bits (grow (r ∷ rs) (low b)) (grow-first r rs (low b) (omega arith) h).0

grow-append :
    (before : List Run) (r : Run) (b : ℕ) → grow (before ++ r ∷ []) b ≡ before ++ grow (r ∷ []) b
unfolding grow
grow-append [] r b = refl
grow-append (x ∷ []) r b = refl
grow-append (x ∷ (y ∷ ys)) r b = ap (λ l. x ∷ l) (grow-append (y ∷ ys) r b)

grow_same :
    (n l : ℕ) → grow (record { level = l; len = n } ∷ []) l ≡ record { level = l; len = n + 1 } ∷ []
unfolding grow
grow_same n l = ground arith

grow_other :
    (r : Run) (l : ℕ) → r.level ≢ l → grow (r ∷ []) l ≡ r ∷ record { level = l; len = 1 } ∷ []
unfolding grow
grow_other r l n = ground arith

-- More of the level of the last run.
more_of_run :
    (m n l : ℕ) (before : List Run)
    → foldl grow (before ++ record { level = l; len = n } ∷ []) (replicate m l)
      ≡ before ++ record { level = l; len = n + m } ∷ []
more_of_run zero n l before =
    ap (λ (k : ℕ). before ++ record { level = l; len = k } ∷ []) (omega arith)
more_of_run (suc m) n l before =
    ap (λ runs. foldl grow runs (replicate m l))
      (grow-append before (record { level = l; len = n }) l
        ∙ ap (λ runs. before ++ runs) (grow_same n l))
    ∙ more_of_run m (n + 1) l before
    ∙ ap (λ (k : ℕ). before ++ record { level = l; len = k } ∷ []) (omega arith)

-- A whole run at another level.
whole_run :
    (before : List Run) (r : Run) (n l : ℕ)
    → r.level ≢ l
    → 0 < n
    → foldl grow (before ++ r ∷ []) (replicate n l)
      ≡ (before ++ r ∷ []) ++ record { level = l; len = n } ∷ []
whole_run before r zero l d h = absurd (omega arith)
whole_run before r (suc m) l d h =
    ap (λ runs. foldl grow runs (replicate m l))
      (grow-append before r l
        ∙ ap (λ runs. before ++ runs) (grow_other r l d)
        ∙ sym (append_assoc before (r ∷ []) (record { level = l; len = 1 } ∷ [])))
    ∙ more_of_run m 1 l (before ++ r ∷ [])
    ∙ ap (λ (k : ℕ). (before ++ r ∷ []) ++ record { level = l; len = k } ∷ []) (omega arith)

foldl-append :
    (xs ys : List ℕ) (runs : List Run)
    → foldl grow runs (xs ++ ys) ≡ foldl grow (foldl grow runs xs) ys
foldl-append [] ys runs = refl
foldl-append (x ∷ xs) ys runs = foldl-append xs ys (grow runs x)

-- The loop over the waveform of further runs adds them.
further_runs :
    (rs before : List Run) (r : Run)
    → AreRuns (r ∷ rs)
    → foldl grow (before ++ r ∷ []) (expand rs) ≡ before ++ r ∷ rs
unfolding expand
further_runs [] before r h = refl
further_runs (s ∷ ss) before r h =
    foldl-append (replicate s.len s.level) (expand ss) (before ++ r ∷ [])
    ∙ ap (λ runs. foldl grow runs (expand ss)) (whole_run before r s.len s.level h.2 h.3.0)
    ∙ further_runs ss (before ++ r ∷ []) s h.3
    ∙ append_assoc before (r ∷ []) (s ∷ ss)

low-replicate : (n l : ℕ) → l < 2 → map low (replicate n l) ≡ replicate n l
low-replicate zero l h = refl
low-replicate (suc n) l h = ap₂ (λ x xs. x ∷ xs) (omega arith) (low-replicate n l h)

low-expand : (rs : List Run) → AreRuns rs → map low (expand rs) ≡ expand rs
unfolding expand
low-expand [] h = refl
low-expand (r ∷ rs) h =
    map-append low (replicate r.len r.level) (expand rs)
    ∙ ap₂ (λ xs ys. xs ++ ys) (low-replicate r.len r.level h.1) (low-expand rs h.3)

first_run : (n l : ℕ) → 0 < n → foldl grow [] (replicate n l) ≡ record { level = l; len = n } ∷ []
unfolding grow
first_run zero l h = absurd (omega arith)
first_run (suc m) l h =
    more_of_run m 1 l [] ∙ ap (λ (k : ℕ). record { level = l; len = k } ∷ []) (omega arith)

-- The runs of a waveform expand to its low bits, have lengths above 0 and levels that alternate,
-- and any runs of that form, with levels 0 and 1, are the runs of their expansion.
pub run_lengths_lem :
    (bits : List ℕ)
    → (expand (run_lengths bits) ≡ map low bits)
      × AreRuns (run_lengths bits)
      × ((rs : List Run) → AreRuns rs → run_lengths (expand rs) ≡ rs)
unfolding run_lengths expand
run_lengths_lem bits = (expand-foldl (map low bits) [], AreRuns-foldl bits [] tt, back)
  where
    back : (rs : List Run) → AreRuns rs → foldl grow [] (map low (expand rs)) ≡ rs
    back [] h = refl
    back (r ∷ rs) h =
        ap (foldl grow []) (low-expand (r ∷ rs) h)
        ∙ foldl-append (replicate r.len r.level) (expand rs) []
        ∙ ap (λ runs. foldl grow runs (expand rs)) (first_run r.len r.level h.0)
        ∙ further_runs rs [] r h
