-- ===== src/Stim/Laws/Image.antt =====
-- The memory image of a schedule determines its cycles.
use vibe_pio.Base.{
  ℕ, ◌+◌, ◌*◌, ◌^◌, ◌<◌, ◌≡◌, ◌∙◌, refl, sym, ap₂, arith, shl, low_bits, bit_or, bit_or_fields,
  List, [], ◌∷◌, All,
}
use vibe_pio.Stim.Schedule.{StimCycle, Schedule, cycle_words, cycles_words, to_mem}

-- A bus address of nine bits, and flag bytes.
abbrev pub FieldsFit : StimCycle → Type 0
FieldsFit c = (c.addr < 512) × (c.nb_clr < 256) × (c.irq_next < 256)

head_eq : {x y : ℕ} {xs ys : List ℕ} → x ∷ xs ≡ y ∷ ys → x ≡ y
head_eq h = cc

tail_eq : {x y : ℕ} {xs ys : List ℕ} → x ∷ xs ≡ y ∷ ys → xs ≡ ys
tail_eq h = cc

-- Two fields in one word.
two_fields :
    (width high low high' low' : ℕ)
    → low < 2 ^ width
    → low' < 2 ^ width
    → bit_or (shl high width) low ≡ bit_or (shl high' width) low'
    → high * 2 ^ width + low ≡ high' * 2 ^ width + low'
two_fields width high low high' low' h h' e =
    sym (bit_or_fields width high low h) ∙ e ∙ bit_or_fields width high' low' h'

cycles_words-injective :
    (cs cs' : List StimCycle)
    → All FieldsFit cs
    → All FieldsFit cs'
    → cycles_words cs ≡ cycles_words cs'
    → cs ≡ cs'
unfolding cycles_words cycle_words
cycles_words-injective [] [] h h' e = refl
cycles_words-injective [] (c ∷ cs) h h' e = cc
cycles_words-injective (c ∷ cs) [] h h' e = cc
cycles_words-injective (c ∷ cs) (d ∷ ds) h h' e =
    let e1 = tail_eq e in
    let e2 = tail_eq e1 in
    let e3 = tail_eq e2 in
    let e4 = tail_eq e3 in
    let e5 = tail_eq e4 in
    let rest = cycles_words-injective cs ds h.1 h'.1 (tail_eq e5) in
    let bus =
      two_fields 9 c.op (low_bits c.addr 9) d.op (low_bits d.addr 9) (omega arith) (omega arith)
        (head_eq e2) in
    let block =
      two_fields 8 c.nb_set c.nb_clr d.nb_set d.nb_clr (omega arith) (omega arith) (head_eq e4) in
    let views =
      two_fields 8 c.irq_prev c.irq_next d.irq_prev d.irq_next (omega arith) (omega arith)
        (head_eq e5) in
    ap₂ (λ a l. a ∷ l) (same (head_eq e) (head_eq e1) (head_eq e3) bus block views) rest
  where
    same :
        c.gpio ≡ d.gpio
        → c.lb ≡ d.lb
        → c.wdata ≡ d.wdata
        → c.op * 2 ^ 9 + low_bits c.addr 9 ≡ d.op * 2 ^ 9 + low_bits d.addr 9
        → c.nb_set * 2 ^ 8 + c.nb_clr ≡ d.nb_set * 2 ^ 8 + d.nb_clr
        → c.irq_prev * 2 ^ 8 + c.irq_next ≡ d.irq_prev * 2 ^ 8 + d.irq_next
        → c ≡ d
    same a b w bus block views = ground arith

-- Two schedules with the same memory image have the same cycles, where bus addresses are below 512
-- and the flag bytes nb_clr and irq_next below 256.
pub to_mem-injective :
    (s s' : Schedule)
    → All FieldsFit s.cycles
    → All FieldsFit s'.cycles
    → to_mem s ≡ to_mem s'
    → s.cycles ≡ s'.cycles
unfolding to_mem
to_mem-injective s s' h h' e = cycles_words-injective s.cycles s'.cycles h h' (tail_eq e)
