-- ===== src/Model/Laws/Divider.antt =====
-- The fractional clock divider: over any run the ticks come at exactly the configured rate.
use vibe_pio.Base.{
  ℕ, suc, ◌+◌, ◌*◌, ◌<◌, ◌≡◌, refl, ap, ◌∙◌, Bool, true, false, not, ◌&&◌, ◌==◌, bool_int, arith,
}
use vibe_pio.Model.Slice.{Slice}
use vibe_pio.Model.Config.{clkdiv_int, clkdiv_frac}
use vibe_pio.Model.Comb.Tick.{int_eff, frac_eff, divider}
use vibe_pio.Model.Comb.Bundle.{Comb}
use vibe_pio.Model.Edge.Control.{EdgeIn, divider_edge}

-- 1 in a stretched period.
abbrev pub stretch : Slice → ℕ
stretch s = bool_int (s.stretch_r && not (clkdiv_int s == 0))

-- The divider is inside its period.
pub record InPeriod (s : Slice) : Type 0 where
  pub counts : s.count_r < int_eff s + stretch s
  pub phase_in : s.phase_r < 256

-- `n` cycles of an enabled divider that is not restarted, in which it comes to `k` terminal counts.
pub data DivRun (s : Slice) : ℕ → ℕ → Slice → Type 0 where
  start : DivRun s 0 0 s
  cycle :
      {k n : ℕ} {t : Slice}
      → DivRun s k n t
      → (c : Comb) (i : EdgeIn) → c.div ≡ divider t true
      → i.sm_en ≡ true
      → i.clkdiv_restart ≡ false
      → DivRun s (k + bool_int c.div.terminal) (suc n) (divider_edge c i t)

same_config : (c : Comb) (i : EdgeIn) (t : Slice) → (divider_edge c i t).clkdiv_r ≡ t.clkdiv_r
unfolding divider_edge
same_config c i t = ground arith

-- The state after one cycle, by whether the count is terminal.
record Cycled (t u : Slice) (ticked : Bool) : Type 0 where
  int_same : int_eff u ≡ int_eff t
  frac_same : frac_eff u ≡ frac_eff t
  period : InPeriod u
  balance :
      256 * (1 + t.count_r + stretch u) + u.phase_r
      ≡ 256 * (bool_int ticked * int_eff t + u.count_r + stretch t)
        + bool_int ticked * frac_eff t
        + t.phase_r

cycle-Cycled :
    (c : Comb) (i : EdgeIn) (t : Slice)
    → InPeriod t
    → c.div ≡ divider t true
    → i.sm_en ≡ true
    → i.clkdiv_restart ≡ false
    → Cycled t (divider_edge c i t) c.div.terminal
unfolding divider divider_edge int_eff frac_eff clkdiv_int clkdiv_frac
cycle-Cycled c i t p e en nr = ground arith

-- Adding one cycle's balance to that of the run.
rate_step :
    (ticked : Bool) (n k i f i' f' c0 s0 p0 ct st pt cu su pu : ℕ)
    → 256 * (n + c0 + st) + pt ≡ k * (256 * i + f) + 256 * (ct + s0) + p0
    → 256 * (1 + ct + su) + pu ≡ 256 * (bool_int ticked * i' + cu + st) + bool_int ticked * f' + pt
    → i' ≡ i
    → f' ≡ f
    → 256 * (suc n + c0 + su) + pu ≡ (k + bool_int ticked) * (256 * i + f) + 256 * (cu + s0) + p0
rate_step true n k i f i' f' c0 s0 p0 ct st pt cu su pu h b ei ef =
    omega (arith, ap (λ (x : ℕ). k * x) ei, ap (λ (x : ℕ). k * x) ef)
rate_step false n k i f i' f' c0 s0 p0 ct st pt cu su pu h b ei ef = omega arith

-- In n cycles an enabled divider that is not restarted and starts inside a period comes to k
-- terminal counts with 256 n = k (256 INT + FRAC), but for the counts and phases at the two ends,
-- and it stays inside its period.
pub DivRun_rate :
    {s t : Slice} {k n : ℕ}
    → InPeriod s
    → DivRun s k n t
    → (256 * (n + s.count_r + stretch t) + t.phase_r
        ≡ k * (256 * int_eff s + frac_eff s) + 256 * (t.count_r + stretch s) + s.phase_r)
      × (int_eff t ≡ int_eff s)
      × (frac_eff t ≡ frac_eff s)
      × InPeriod t
DivRun_rate p start = (omega arith, refl, refl, p)
DivRun_rate {s} p (cycle {k} {n} {t} r c i e en nr) =
    let (rate, int_same, frac_same, inside) = DivRun_rate p r in
    let next = cycle-Cycled c i t inside e en nr in
    let u = divider_edge c i t in
    (
      rate_step c.div.terminal n k (int_eff s) (frac_eff s) (int_eff t) (frac_eff t) s.count_r
          (stretch s) s.phase_r t.count_r (stretch t) t.phase_r u.count_r (stretch u) u.phase_r rate
          next.balance int_same frac_same,
      next.int_same ∙ int_same,
      next.frac_same ∙ frac_same,
      next.period,
    )
