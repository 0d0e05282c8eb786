-- ===== src/Equiv/Laws/First.antt =====
-- When `decode_first_divergence` finds nothing.
use vibe_pio.Base.{
  ℕ, ◌+◌, ◌≡◌, ◌≢◌, ◌↔◌, refl, ap₂, List, [], ◌∷◌, none, some, Bool-cases, inl, inr, Result, ok,
  err, ◌>>=◌,
}
use vibe_pio.Trace.Format.{Rec, rec_eq, normalize}
use vibe_pio.Trace.Laws.{rec_eq_refl, rec_eq_sound}
use vibe_pio.Equiv.Divergence.{Divergence, rec_divergence, first_from, decode_first_divergence}

pub first_from_refl :
    (pcs : List (ℕ × ℕ)) (i : ℕ) (recs : List Rec) → first_from pcs i recs recs ≡ ok none
unfolding first_from
first_from_refl pcs i [] = refl
first_from_refl pcs i (r ∷ rs) = rw (rec_eq_refl r) (first_from_refl pcs (i + 1) rs)

some-not-none : {d : Divergence} → ok (some d) ≡ ok none → ⊥
some-not-none h = cc

found_some : (r : Result Divergence) → (r >>= λ d. ok (some d)) ≢ ok none
found_some (ok d) h = some-not-none h
found_some (err e) h = cc

first_from_sound :
    (pcs : List (ℕ × ℕ)) (i : ℕ) (xs ys : List Rec) → first_from pcs i xs ys ≡ ok none → xs ≡ ys
unfolding first_from
first_from_sound pcs i [] [] h = refl
first_from_sound pcs i (x ∷ xs) [] h = absurd (some-not-none h)
first_from_sound pcs i [] (y ∷ ys) h = absurd (some-not-none h)
first_from_sound pcs i (x ∷ xs) (y ∷ ys) h = elim (Bool-cases (rec_eq x y)) [
  | inl e ↦ ap₂ (λ a l. a ∷ l) (rec_eq_sound x y e) (first_from_sound pcs (i + 1) xs ys (rw e at h))
  | inr n ↦ absurd (found_some (rec_divergence pcs x y) (rw n at h))
]

-- decode_first_divergence reports no divergence exactly when the two traces are the same after
-- normalisation with its mask.
pub decode_first_divergence-none :
    (recs_a recs_b : List Rec) (pcs : List (ℕ × ℕ)) (mask : ℕ)
    → (decode_first_divergence recs_a recs_b pcs mask ≡ ok none)
      ↔ (normalize recs_a mask ≡ normalize recs_b mask)
unfolding decode_first_divergence
decode_first_divergence-none recs_a recs_b pcs mask = (
  first_from_sound pcs 0 (normalize recs_a mask) (normalize recs_b mask),
  λ h. rw h (first_from_refl pcs 0 (normalize recs_b mask)),
)
