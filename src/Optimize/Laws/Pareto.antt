-- ===== src/Optimize/Laws/Pareto.antt =====
-- The front of `pareto_front`.
use vibe_pio.Base.{
  ℕ, zero, suc, ◌≤◌, ◌<◌, ◌≡◌, ◌⊎◌, inl, inr, refl, sym, ap, ◌∙◌, arith, Bool, true, false, List,
  [], ◌∷◌, if◌then◌else◌, Bool-cases,
}
use mathlib.Core.List.{Memᴰ}
use mathlib.Core.List.Memᴰ
use vibe_pio.Optimize.Pareto.{Evaluated, dom, dominated, front_of, pareto_front}

dom_irrefl : (x : Evaluated) → dom x x ≡ false
unfolding dom
dom_irrefl x = ground arith

dom_trans : (x y z : Evaluated) → dom x y ≡ true → dom y z ≡ true → dom x z ≡ true
unfolding dom
dom_trans x y z h g = ground arith

front_of-mem :
    (evs es : List Evaluated) (e : Evaluated)
    → Memᴰ e (front_of evs es)
    → Memᴰ e es × (dominated evs e ≡ false)
unfolding front_of
front_of-mem evs [] e m = absurd (Memᴰ.not-nil m)
front_of-mem evs (x ∷ xs) e m = elim (Bool-cases (dominated evs x)) [
  | inl out ↦ let (there, best) = front_of-mem evs xs e (rw out at m) in (Memᴰ.tail there, best)
  | inr kept ↦ elim (Memᴰ.cases_cons (rw kept at m)) [
    | inl same ↦ (Memᴰ.head same, ap (dominated evs) same ∙ kept)
    | inr later ↦ let (there, best) = front_of-mem evs xs e later in (Memᴰ.tail there, best)
  ]
]

mem-front_of :
    (evs es : List Evaluated) (e : Evaluated)
    → Memᴰ e es
    → dominated evs e ≡ false
    → Memᴰ e (front_of evs es)
unfolding front_of
mem-front_of evs [] e m best = absurd (Memᴰ.not-nil m)
mem-front_of evs (x ∷ xs) e m best = elim (Bool-cases (dominated evs x)) [
  | inl out ↦ elim (Memᴰ.cases_cons m) [
    | inl same ↦
        let wrong = ap (dominated evs) same in absurd (both (dominated evs e) best (wrong ∙ out))
    | inr later ↦ rw out (mem-front_of evs xs e later best)
  ]
  | inr kept ↦ elim (Memᴰ.cases_cons m) [
    | inl same ↦ rw kept (Memᴰ.head same)
    | inr later ↦ rw kept (Memᴰ.tail (mem-front_of evs xs e later best))
  ]
]
  where
    both : (b : Bool) → b ≡ false → b ≡ true → ⊥
    both b f t = cc

dominator :
    (evs : List Evaluated) (e : Evaluated)
    → dominated evs e ≡ true
    → (o : Evaluated) × Memᴰ o evs × (dom o e ≡ true)
unfolding dominated
dominator [] e h = cc
dominator (o ∷ os) e h = elim (Bool-cases (dom o e)) [
  | inl here ↦ (o, Memᴰ.head refl, here)
  | inr no_o ↦ let (p, m, d) = dominator os e (rw no_o at h) in (p, Memᴰ.tail m, d)
]

undominated :
    (evs : List Evaluated) (o e : Evaluated)
    → Memᴰ o evs
    → dominated evs e ≡ false
    → dom o e ≡ false
unfolding dominated
undominated [] o e m h = absurd (Memᴰ.not-nil m)
undominated (x ∷ xs) o e m h = elim (Memᴰ.cases_cons m) [
  | inl same ↦ ap (λ (y : Evaluated). dom y e) same ∙ ground arith
  | inr later ↦ undominated xs o e later (ground arith)
]

-- How many candidates dominate one.
count : List Evaluated → Evaluated → ℕ
count [] e = 0
count (o ∷ os) e = if dom o e then suc (count os e) else count os e

count-le : (es : List Evaluated) (x y : Evaluated) → dom x y ≡ true → count es x ≤ count es y
unfolding count
count-le [] x y h = omega arith
count-le (o ∷ os) x y h = ground (arith, dom_trans o x y, count-le os x y h)

count-lt :
    (es : List Evaluated) (x y : Evaluated) → Memᴰ x es → dom x y ≡ true → count es x < count es y
unfolding count
count-lt [] x y m h = absurd (Memᴰ.not-nil m)
count-lt (o ∷ os) x y m h = elim (Memᴰ.cases_cons m) [
  | inl same ↦
      let at_x : dom o x ≡ false = ap (λ (z : Evaluated). dom z x) (sym same) ∙ dom_irrefl x in
      let at_y : dom o y ≡ true = ap (λ (z : Evaluated). dom z y) (sym same) ∙ h in
      ground (arith, count-le os x y h)
  | inr later ↦ ground (arith, dom_trans o x y, count-lt os x y later h)
]

-- Every candidate is in the front, or one of the front dominates it.
covered :
    (evs : List Evaluated) (fuel : ℕ) (e : Evaluated)
    → count evs e < fuel
    → Memᴰ e evs
    → Memᴰ e (pareto_front evs) ⊎ ((o : Evaluated) × Memᴰ o (pareto_front evs) × (dom o e ≡ true))
unfolding pareto_front
covered evs zero e h m = absurd (omega arith)
covered evs (suc fuel) e h m = elim (Bool-cases (dominated evs e)) [
  | inr best ↦ inl (mem-front_of evs evs e m best)
  | inl worse ↦
      let (o, there, d) = dominator evs e worse in
      elim (covered evs fuel o (omega (arith, count-lt evs o e there d)) there) [
        | inl front ↦ inr (o, front, d)
        | inr (better, front, d') ↦ inr (better, front, dom_trans better o e d' d)
      ]
]

-- Of a list of candidates, every member of its front is in the list and dominated by none of it,
-- and every candidate of the list is in the front or dominated by a member of the front.
pub pareto_front_lem :
    (evs : List Evaluated) (e : Evaluated)
    → Memᴰ e evs
    → ((o : Evaluated)
        → Memᴰ o (pareto_front evs)
        → Memᴰ o evs × ((p : Evaluated) → Memᴰ p evs → dom p o ≡ false))
      × (Memᴰ e (pareto_front evs)
          ⊎ ((o : Evaluated) × Memᴰ o (pareto_front evs) × (dom o e ≡ true)))
unfolding pareto_front
pareto_front_lem evs e m = (
  λ o front.
      let (there, best) = front_of-mem evs evs o front in
      (there, λ p among. undominated evs p o among best),
  covered evs (suc (count evs e)) e (omega arith) m,
)
