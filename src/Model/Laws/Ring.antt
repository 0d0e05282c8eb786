-- ===== src/Model/Laws/Ring.antt =====
-- A memory of eight words read round as a queue.
use vibe_pio.Base.{
  ℕ, zero, suc, ◌+◌, ◌%◌, ◌<◌, ◌≤◌, ◌≡◌, refl, ap, ◌∙◌, List, [], ◌∷◌, ◌++◌, arith, length, get_or,
  set, get_or-set_self, get_or-set_ne,
}

module _ (mem : List ℕ) where
  -- The `n` words from slot `h` on.
  abbrev pub window : ℕ → ℕ → List ℕ
  window h zero = []
  window h (suc n) = get_or mem h 0 ∷ window ((h + 1) % 8) n

  pub window_snoc :
      (h n : ℕ) → h < 8 → window h (suc n) ≡ window h n ++ (get_or mem ((h + n) % 8) 0 ∷ [])
  window_snoc h zero p = let e : h ≡ (h + 0) % 8 = omega arith in ap (λ k. get_or mem k 0 ∷ []) e
  window_snoc h (suc n) p =
      let e : ((h + 1) % 8 + n) % 8 ≡ (h + suc n) % 8 = omega arith in
      ap (λ t. get_or mem h 0 ∷ t)
        (window_snoc ((h + 1) % 8) n (omega arith)
          ∙ ap (λ k. window ((h + 1) % 8) n ++ (get_or mem k 0 ∷ [])) e)

  pub length-window : (first held : ℕ) → length (window first held) ≡ held
  length-window first (suc held) =
      let others = length-window ((first + 1) % 8) held in ap suc others
  length-window first zero = refl

-- A write to a slot at distance `m` from the head changes none of the `n ≤ m` words before it.
pub window-set_beyond :
    (mem : List ℕ) (v h n m i : ℕ)
    → h < 8
    → n ≤ m
    → m < 8
    → i ≡ (h + m) % 8
    → window (set mem i v) h n ≡ window mem h n
window-set_beyond mem v h zero m i a b c e = refl
window-set_beyond mem v h (suc n) zero i a b c e = absurd (omega arith)
window-set_beyond mem v h (suc n) (suc m) i a b c e = ground (
  arith,
  get_or-set_ne mem i h v 0,
  window-set_beyond mem v ((h + 1) % 8) n m i (omega arith) (omega arith) (omega arith)
      (omega arith),
)

-- A write just past the window extends it.
pub window-push :
    (mem : List ℕ) (v h n i : ℕ)
    → length mem ≡ 8
    → h < 8
    → n < 8
    → i ≡ (h + n) % 8
    → window (set mem i v) h (suc n) ≡ window mem h n ++ (v ∷ [])
window-push mem v h n i l a b e = ground (
  arith,
  window_snoc (set mem i v) h n a,
  window-set_beyond mem v h n n i a (omega arith) b e,
  get_or-set_self mem i v 0 (omega arith),
)
