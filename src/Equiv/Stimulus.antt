-- ===== src/Equiv/Stimulus.antt =====
-- `random_free_stimulus` of tools/hyperequiv.py with its tables. Python's generator is a parameter:
-- what its n-th call gives.
use vibe_pio.Base.{
  ℕ, zero, suc, ◌+◌, ◌*◌, ◌==◌, ltb, shl, bit_xor, List, [], ◌∷◌, length, get_or, if◌then◌else◌,
}
use vibe_pio.Stim.Addresses.{
  a_fstat, a_fdebug, a_flevel, a_txf0, a_rxf0, a_irq, a_irq_force, a_isb, a_padout, a_padoe,
  a_imem0, a_sm0, op_none, op_wr, op_rd,
}
use vibe_pio.Equiv.Lockstep.{FreeStim}

-- `random()` in whole hundredths, which decide its comparisons here, and the index that `choice`
-- takes in a list of a length and `choices` among weights.
pub record Rng : Type 0 where
  pub random : ℕ → ℕ
  pub getrandbits : ℕ → ℕ → ℕ
  pub randrange : ℕ → ℕ → ℕ
  pub choice : ℕ → ℕ → ℕ
  pub choices : ℕ → List ℕ → ℕ

abbrev pub pool : List ℕ
pool =
    a_fstat
    ∷ a_fdebug
    ∷ a_flevel
    ∷ a_rxf0
    ∷ a_irq
    ∷ a_padout
    ∷ a_padoe
    ∷ (a_sm0 + 4 * 0)
    ∷ (a_sm0 + 4 * 1)
    ∷ (a_sm0 + 4 * 2)
    ∷ (a_sm0 + 4 * 3)
    ∷ (a_sm0 + 4 * 4)
    ∷ (a_sm0 + 4 * 5)
    ∷ (a_imem0 + 4 * 2)
    ∷ []

-- The addresses and the weights of `TRAFFIC_WRITES`.
abbrev pub waddrs : List ℕ
waddrs = a_txf0 ∷ a_fdebug ∷ a_irq ∷ a_irq_force ∷ a_isb ∷ []

abbrev pub wweights : List ℕ
wweights = 34 ∷ 8 ∷ 8 ∷ 8 ∷ 6 ∷ []

-- `op`, `addr` and `wdata`, with the number of the next call.
pub record BusOp : Type 0 where
  pub op : ℕ
  pub addr : ℕ
  pub wdata : ℕ
  pub calls : ℕ

-- A drifting value, with the number of the next call.
pub record Drift : Type 0 where
  pub value : ℕ
  pub calls : ℕ

module _ (rng : Rng) where
  unfoldable pub traffic_data : ℕ → ℕ → ℕ
  traffic_data n addr =
      if addr == a_txf0
      then rng.getrandbits n 32
      else if addr == a_fdebug
      then shl 1 (rng.randrange n 32)
      else shl 1 (rng.randrange n 8)

  unfoldable pub bus_op : ℕ → BusOp
  unfolding traffic_data
  bus_op n =
      let chance = rng.random n in
      let addr = get_or waddrs (rng.choices (n + 1) wweights) 0 in
      if ltb chance 64
      then record { op = op_wr; addr = addr; wdata = traffic_data (n + 2) addr; calls = n + 3 }
      else if ltb chance 79
      then record {
        op = op_rd;
        addr = get_or pool (rng.choice (n + 1) (length pool)) 0;
        wdata = 0;
        calls = n + 2;
      }
      else record { op = op_none; addr = 0; wdata = 0; calls = n + 1 }

  unfoldable pub drift_gpio : ℕ → ℕ → Drift
  drift_gpio n gpio =
      if ltb (rng.random n) 10
      then record {
        value =
            if ltb (rng.random (n + 1)) 30
            then rng.getrandbits (n + 2) 32
            else bit_xor gpio (shl 1 (rng.randrange (n + 2) 32));
        calls = n + 3;
      }
      else record { value = gpio; calls = n + 1 }

  unfoldable pub drift_byte : ℕ → ℕ → Drift
  drift_byte n old =
      if ltb (rng.random n) 4
      then record { value = rng.getrandbits (n + 1) 8; calls = n + 2 }
      else record { value = old; calls = n + 1 }

  -- The loop, with `left` cycles to go, from the cycle before.
  unfoldable pub stimulus_from : ℕ → ℕ → FreeStim → List FreeStim
  unfolding bus_op drift_gpio drift_byte
  stimulus_from zero n old = []
  stimulus_from (suc left) n old =
      let bus = bus_op n in
      let gpio = drift_gpio bus.calls old.gpio in
      let nbs = drift_byte gpio.calls old.nbs in
      let nbc = drift_byte nbs.calls old.nbc in
      let iprev = drift_byte nbc.calls old.iprev in
      let inext = drift_byte iprev.calls old.inext in
      let st : FreeStim = record {
        op = bus.op;
        addr = bus.addr;
        wdata = bus.wdata;
        gpio = gpio.value;
        nbs = nbs.value;
        nbc = nbc.value;
        iprev = iprev.value;
        inext = inext.value;
      } in
      st ∷ stimulus_from left inext.calls st

  unfoldable pub random_free_stimulus : ℕ → List FreeStim
  unfolding stimulus_from
  random_free_stimulus n =
      stimulus_from n 0
        (record { op = 0; addr = 0; wdata = 0; gpio = 0; nbs = 0; nbc = 0; iprev = 0; inext = 0 })
