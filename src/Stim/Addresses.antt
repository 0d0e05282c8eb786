-- ===== src/Stim/Addresses.antt =====
-- The register addresses and bus operations of tools/pio_model/stim.py, named as there.
use vibe_pio.Base.{ℕ, ◌+◌, ◌*◌, low_bits, List, [], ◌∷◌}

abbrev pub a_ctrl : ℕ
a_ctrl = 0x000

abbrev pub a_fstat : ℕ
a_fstat = 0x004

abbrev pub a_fdebug : ℕ
a_fdebug = 0x008

abbrev pub a_flevel : ℕ
a_flevel = 0x00c

abbrev pub a_txf0 : ℕ
a_txf0 = 0x010

abbrev pub a_rxf0 : ℕ
a_rxf0 = 0x020

abbrev pub a_irq : ℕ
a_irq = 0x030

abbrev pub a_irq_force : ℕ
a_irq_force = 0x034

abbrev pub a_isb : ℕ
a_isb = 0x038

abbrev pub a_padout : ℕ
a_padout = 0x03c

abbrev pub a_padoe : ℕ
a_padoe = 0x040

abbrev pub a_cfginfo : ℕ
a_cfginfo = 0x044

abbrev pub a_imem0 : ℕ
a_imem0 = 0x048

abbrev pub a_sm0 : ℕ
a_sm0 = 0x0c8

abbrev pub a_putget0 : ℕ
a_putget0 = 0x128

abbrev pub sm_addr : ℕ → ℕ → ℕ
sm_addr sm reg = a_sm0 + 0x18 * low_bits sm 2 + 4 * low_bits reg 3

abbrev pub op_none : ℕ
op_none = 0

abbrev pub op_wr : ℕ
op_wr = 1

abbrev pub op_rd : ℕ
op_rd = 2

abbrev pub read_pool : List ℕ
read_pool =
    a_fstat
    ∷ a_fdebug
    ∷ a_flevel
    ∷ a_rxf0
    ∷ (a_rxf0 + 4)
    ∷ (a_rxf0 + 8)
    ∷ a_irq
    ∷ a_isb
    ∷ a_padout
    ∷ a_padoe
    ∷ a_cfginfo
    ∷ (a_sm0 + 0)
    ∷ (a_sm0 + 1)
    ∷ (a_sm0 + 2)
    ∷ (a_sm0 + 3)
    ∷ (a_sm0 + 4)
    ∷ (a_sm0 + 5)
    ∷ sm_addr 1 0
    ∷ sm_addr 1 1
    ∷ sm_addr 1 5
    ∷ sm_addr 2 0
    ∷ sm_addr 2 2
    ∷ sm_addr 3 1
    ∷ sm_addr 3 5
    ∷ a_putget0
    ∷ (a_putget0 + 4)
    ∷ (a_putget0 + 0x10)
    ∷ []
