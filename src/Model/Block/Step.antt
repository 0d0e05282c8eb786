-- ===== src/Model/Block/Step.antt =====
-- `PIOBlockModel.step`: one clk cycle, with its observables.
use vibe_pio.Base.{
  ℕ, Bool, ◌&&◌, ◌==◌, if◌then◌else◌, low_bits, set, Result, ok, ◌>>=◌, Option, none, some, Four,
  each, at,
}
use vibe_pio.Model.Comb.Bundle.{Comb}
use vibe_pio.Model.Edge.{edge}
use vibe_pio.Model.Block.Registers.{Block}
use vibe_pio.Model.Block.Bus.{StepIn, Bus, bus_decode, edge_in}
use vibe_pio.Model.Block.Input.{run_combs, sm_en}
use vibe_pio.Model.Block.Flags.{flags_next, early_view}
use vibe_pio.Model.Block.Pads.{pads_next, sticky_next}
use vibe_pio.Model.Block.Read.{intr, rdata}

-- `Observables`
pub record Observables : Type 0 where
  pub gpio_out : ℕ
  pub gpio_oe : ℕ
  pub intr : ℕ
  pub rdata : Option ℕ
  pub read : Bool
  pub addr : ℕ

-- The flag view and the bundles of the cycle.
pub record Cycle : Type 0 where
  pub flags_now : ℕ
  pub combs : Four Comb

unfoldable pub cycle : Block → StepIn → Bus → Result Cycle
cycle b i bus = do
  first ← run_combs b i b.flags_r
  let early = early_view b i bus first
  let again : Result Cycle = do
    combs ← run_combs b i early
    ok (record { flags_now = early; combs = combs })
  if b.mut.irq_same_cycle then again else ok (record { flags_now = b.flags_r; combs = first })

unfoldable pub observe : Block → StepIn → Bus → ℕ → Observables
observe b i bus flags_now = record {
  gpio_out = b.gpio_lvl_r;
  gpio_oe = b.gpio_oe_r;
  intr = intr b flags_now;
  rdata = if bus.reg_read then some (rdata b bus flags_now) else none;
  read = bus.reg_read;
  addr = i.addr;
}

-- The edge update: the block's registers, then each state machine's groups.
unfoldable pub block_edge : Block → StepIn → Bus → Four Comb → Block
block_edge b i bus combs =
    let pads = pads_next b combs in
    record b {
      imem =
          if bus.reg_write && bus.imem_hit
          then set b.imem bus.imem_addr (low_bits bus.wdata 16)
          else b.imem;
      ctrl_r = if bus.reg_write && (bus.widx == 0) then low_bits bus.wdata 4 else b.ctrl_r;
      isb_r = if bus.reg_write && (bus.widx == 14) then bus.wdata else b.isb_r;
      flags_r = flags_next b i bus combs;
      sync2_r = b.sync1_r;
      sync1_r = low_bits i.gpio_in 32;
      gpio_lvl_r = pads.lvl;
      gpio_oe_r = pads.oe;
      stickies = each (λ n. sticky_next (at combs n) (at b.stickies n));
      sms = each (λ n. edge (at combs n) (edge_in bus (sm_en b n) n) (at b.sms n));
    }

unfoldable pub step : Block → StepIn → Result (Block × Observables)
step b i = do
  let bus = bus_decode i
  now ← cycle b i bus
  ok (block_edge b i bus now.combs, observe b i bus now.flags_now)
