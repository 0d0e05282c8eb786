-- ===== src/Trace/Laws.antt =====
-- When two traces compare equal.
use vibe_pio.Base.{
  ℕ, ◌+◌, ◌≡◌, ◌↔◌, inl, inr, refl, true, arith, List, [], ◌∷◌, none, some, Bool-cases,
}
use vibe_pio.Trace.Format.{Rec, observed, read, rec_eq, normalize, diverge, compare, Mismatch}

pub rec_eq_refl : (a : Rec) → rec_eq a a ≡ true
rec_eq_refl (observed clk out oe intr) = ground arith
rec_eq_refl (read clk addr rdata) = ground arith

pub rec_eq_sound : (a b : Rec) → rec_eq a b ≡ true → a ≡ b
rec_eq_sound (observed clk out oe intr) (observed clk' out' oe' intr') h = ground arith
rec_eq_sound (read clk addr rdata) (read clk' addr' rdata') h = ground arith
rec_eq_sound (observed _ _ _ _) (read _ _ _) h = cc
rec_eq_sound (read _ _ _) (observed _ _ _ _) h = cc

diverge_refl : (i : ℕ) (xs : List Rec) → diverge i xs xs ≡ none
unfolding diverge
diverge_refl i [] = refl
diverge_refl i (a ∷ xs) = rw (rec_eq_refl a) (diverge_refl (i + 1) xs)

diverge_sound : (i : ℕ) (xs ys : List Rec) → diverge i xs ys ≡ none → xs ≡ ys
unfolding diverge
diverge_sound i [] [] h = refl
diverge_sound i (a ∷ xs) [] h = cc
diverge_sound i [] (b ∷ ys) h = cc
diverge_sound i (a ∷ xs) (b ∷ ys) h = elim (Bool-cases (rec_eq a b)) [
  | inl e ↦
      let tails = diverge_sound (i + 1) xs ys (rw e at h) in let heads = rec_eq_sound a b e in cc
  | inr n ↦ absurd (differs (rw n at h))
]
  where
    differs : {m : Mismatch} → some m ≡ none → ⊥
    differs e = cc

-- compare reports no divergence exactly when the two traces are the same after normalisation.
pub compare_iff :
    (model_recs rtl_recs : List Rec)
    → (compare model_recs rtl_recs ≡ none)
      ↔ (normalize model_recs 0x7FFFFFFF ≡ normalize rtl_recs 0x7FFFFFFF)
unfolding compare
compare_iff model_recs rtl_recs = (
  diverge_sound 0 (normalize model_recs 0x7FFFFFFF) (normalize rtl_recs 0x7FFFFFFF),
  λ h. rw h (diverge_refl 0 (normalize rtl_recs 0x7FFFFFFF)),
)
