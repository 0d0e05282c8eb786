-- ===== src/Equiv/Laws/Traffic.antt =====
-- The random stimulus writes no configuration.
use vibe_pio.Base.{
  ℕ, zero, suc, ◌+◌, ◌<◌, ◌≡◌, refl, ap, arith, All, All-get_or, length, if_both, ltb, shr,
  low_bits,
}
use vibe_pio.Stim.Addresses.{op_wr}
use vibe_pio.Equiv.Lockstep.{FreeStim}
use vibe_pio.Equiv.Stimulus.{
  Rng, BusOp, waddrs, wweights, bus_op, stimulus_from, random_free_stimulus,
}
use vibe_pio.Equiv.Laws.Completes.{StimLegal}

-- A write goes below the registers of the state machines.
abbrev IsTraffic : ℕ → ℕ → Type 0
IsTraffic op addr = op ≡ op_wr → low_bits (shr addr 2) 7 < 50

module _ (rng : Rng) where
  bus_op-IsTraffic : (n : ℕ) → IsTraffic (bus_op rng n).op (bus_op rng n).addr
  unfolding bus_op
  bus_op-IsTraffic n =
      if_both (λ (b : BusOp). IsTraffic b.op b.addr) (ltb (rng.random n) 64)
        (λ _.
          All-get_or (λ a. low_bits (shr a 2) 7 < 50) waddrs (rng.choices (n + 1) wweights) 0
            (omega arith) (omega arith))
        (if_both (λ (b : BusOp). IsTraffic b.op b.addr) (ltb (rng.random n) 79)
          (λ wrong. omega arith) (λ wrong. omega arith))

  stimulus_from-legal : (left n : ℕ) (old : FreeStim) → All StimLegal (stimulus_from rng left n old)
  unfolding stimulus_from
  stimulus_from-legal zero n old = tt
  stimulus_from-legal (suc left) n old = (
    λ k small op at_k. absurd (omega (arith, bus_op-IsTraffic n op)),
    stimulus_from-legal left _ _,
  )

  stimulus_from-length :
      (left n : ℕ) (old : FreeStim) → length (stimulus_from rng left n old) ≡ left
  unfolding stimulus_from
  stimulus_from-length zero n old = refl
  stimulus_from-length (suc left) n old = ap suc (stimulus_from-length left _ _)

  -- The stimulus.
  pub random_free_stimulus-legal :
      (n : ℕ)
      → All StimLegal (random_free_stimulus rng n) × (length (random_free_stimulus rng n) ≡ n)
  unfolding random_free_stimulus
  random_free_stimulus-legal n = (stimulus_from-legal n 0 _, stimulus_from-length n 0 _)
