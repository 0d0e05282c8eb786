-- ===== src/Encoding/Tables.antt =====
-- The constants and name tables of tools/pio_model/encoding.py, named as there. A key `none` is
-- Python's `None`, and so is a value `none`.
use vibe_pio.Base.{ℕ, [], ◌∷◌, Option, none, some, Dict}

-- Instruction classes.
abbrev pub c_jmp : ℕ
c_jmp = 0

abbrev pub c_wait : ℕ
c_wait = 1

abbrev pub c_in : ℕ
c_in = 2

abbrev pub c_out : ℕ
c_out = 3

abbrev pub c_pp : ℕ
c_pp = 4

abbrev pub c_mov : ℕ
c_mov = 5

abbrev pub c_irq : ℕ
c_irq = 6

abbrev pub c_set : ℕ
c_set = 7

-- JMP conditions.
abbrev pub jc_always : ℕ
jc_always = 0

abbrev pub jc_notx : ℕ
jc_notx = 1

abbrev pub jc_xdec : ℕ
jc_xdec = 2

abbrev pub jc_noty : ℕ
jc_noty = 3

abbrev pub jc_ydec : ℕ
jc_ydec = 4

abbrev pub jc_xney : ℕ
jc_xney = 5

abbrev pub jc_pin : ℕ
jc_pin = 6

abbrev pub jc_notosre : ℕ
jc_notosre = 7

abbrev pub jmp_conds : Dict ℕ
jmp_conds =
    (none, jc_always)
    ∷ (some "always", jc_always)
    ∷ (some "!x", jc_notx)
    ∷ (some "x--", jc_xdec)
    ∷ (some "!y", jc_noty)
    ∷ (some "y--", jc_ydec)
    ∷ (some "x != y", jc_xney)
    ∷ (some "pin", jc_pin)
    ∷ (some "!osre", jc_notosre)
    ∷ []

-- WAIT sources.
abbrev pub wsrc_gpio : ℕ
wsrc_gpio = 0

abbrev pub wsrc_pin : ℕ
wsrc_pin = 1

abbrev pub wsrc_irq : ℕ
wsrc_irq = 2

abbrev pub wsrc_jmppin : ℕ
wsrc_jmppin = 3

-- IN sources.
abbrev pub ins_pins : ℕ
ins_pins = 0

abbrev pub ins_x : ℕ
ins_x = 1

abbrev pub ins_y : ℕ
ins_y = 2

abbrev pub ins_null : ℕ
ins_null = 3

abbrev pub ins_isr : ℕ
ins_isr = 6

abbrev pub ins_osr : ℕ
ins_osr = 7

abbrev pub in_srcs : Dict ℕ
in_srcs =
    (some "pins", ins_pins)
    ∷ (some "x", ins_x)
    ∷ (some "y", ins_y)
    ∷ (some "null", ins_null)
    ∷ (some "isr", ins_isr)
    ∷ (some "osr", ins_osr)
    ∷ []

-- OUT destinations.
abbrev pub outd_pins : ℕ
outd_pins = 0

abbrev pub outd_x : ℕ
outd_x = 1

abbrev pub outd_y : ℕ
outd_y = 2

abbrev pub outd_null : ℕ
outd_null = 3

abbrev pub outd_pindirs : ℕ
outd_pindirs = 4

abbrev pub outd_pc : ℕ
outd_pc = 5

abbrev pub outd_isr : ℕ
outd_isr = 6

abbrev pub outd_exec : ℕ
outd_exec = 7

abbrev pub out_dsts : Dict ℕ
out_dsts =
    (some "pins", outd_pins)
    ∷ (some "x", outd_x)
    ∷ (some "y", outd_y)
    ∷ (some "null", outd_null)
    ∷ (some "pindirs", outd_pindirs)
    ∷ (some "pc", outd_pc)
    ∷ (some "isr", outd_isr)
    ∷ (some "exec", outd_exec)
    ∷ []

-- MOV destinations, sources and operations.
abbrev pub movd_pins : ℕ
movd_pins = 0

abbrev pub movd_x : ℕ
movd_x = 1

abbrev pub movd_y : ℕ
movd_y = 2

abbrev pub movd_pindirs : ℕ
movd_pindirs = 3

abbrev pub movd_exec : ℕ
movd_exec = 4

abbrev pub movd_pc : ℕ
movd_pc = 5

abbrev pub movd_isr : ℕ
movd_isr = 6

abbrev pub movd_osr : ℕ
movd_osr = 7

abbrev pub movs_pins : ℕ
movs_pins = 0

abbrev pub movs_x : ℕ
movs_x = 1

abbrev pub movs_y : ℕ
movs_y = 2

abbrev pub movs_null : ℕ
movs_null = 3

abbrev pub movs_status : ℕ
movs_status = 5

abbrev pub movs_isr : ℕ
movs_isr = 6

abbrev pub movs_osr : ℕ
movs_osr = 7

abbrev pub movd_dsts : Dict (Option ℕ)
movd_dsts =
    (some "pins", some movd_pins)
    ∷ (some "x", some movd_x)
    ∷ (some "y", some movd_y)
    ∷ (some "pindirs", some movd_pindirs)
    ∷ (some "exec", some movd_exec)
    ∷ (some "pc", some movd_pc)
    ∷ (some "isr", some movd_isr)
    ∷ (some "osr", some movd_osr)
    ∷ (some "rxfifo", none)
    ∷ []

abbrev pub movs_srcs : Dict (Option ℕ)
movs_srcs =
    (some "pins", some movs_pins)
    ∷ (some "x", some movs_x)
    ∷ (some "y", some movs_y)
    ∷ (some "null", some movs_null)
    ∷ (some "status", some movs_status)
    ∷ (some "isr", some movs_isr)
    ∷ (some "osr", some movs_osr)
    ∷ (some "rxfifo", none)
    ∷ []

abbrev pub mop_none : ℕ
mop_none = 0

abbrev pub mop_inv : ℕ
mop_inv = 1

abbrev pub mop_rev : ℕ
mop_rev = 2

-- SET destinations.
abbrev pub setd_pins : ℕ
setd_pins = 0

abbrev pub setd_x : ℕ
setd_x = 1

abbrev pub setd_y : ℕ
setd_y = 2

abbrev pub setd_pindirs : ℕ
setd_pindirs = 4

abbrev pub set_dsts : Dict ℕ
set_dsts =
    (some "pins", setd_pins)
    ∷ (some "x", setd_x)
    ∷ (some "y", setd_y)
    ∷ (some "pindirs", setd_pindirs)
    ∷ []

-- Index modes of IRQ and WAIT IRQ.
abbrev pub idx_this : ℕ
idx_this = 0

abbrev pub idx_prev : ℕ
idx_prev = 1

abbrev pub idx_rel : ℕ
idx_rel = 2

abbrev pub idx_next : ℕ
idx_next = 3

abbrev pub idx_modes : Dict ℕ
idx_modes =
    (none, idx_this)
    ∷ (some "", idx_this)
    ∷ (some "prev", idx_prev)
    ∷ (some "rel", idx_rel)
    ∷ (some "next", idx_next)
    ∷ []
