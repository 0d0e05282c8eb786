-- ===== src/Assembly/Laws/Named.antt =====
-- What the text of an instruction without its postfix depends on.
use vibe_pio.Base.{ℕ, zero, suc, ◌/◌, ◌%◌, ◌==◌, ◌<◌, ◌≡◌, refl, arith, Bool-cases, inl, inr}
use vibe_pio.Encoding.Split.{has_bit, SideSet, split}
use vibe_pio.Encoding.Decode.{
  Decoded, blank, decode_class, decode_wait, decode_in, decode_pp, decode_mov, decode_irq,
  decode_set,
}
use vibe_pio.Disassembly.{
  core_text, jmp_text, wait_text, in_text, out_text, push_pull_text, aux_text, mov_text, irq_text,
  set_text,
}

-- Words of one class with one low byte, in their bits that the decoder reads.
record IsTwin (v w : ℕ) : Type 0 where
  cls : v / 8192 % 8 ≡ w / 8192 % 8
  arg1 : v / 32 % 8 ≡ w / 32 % 8
  arg2 : v % 32 ≡ w % 32
  bit7 : v / 128 % 2 ≡ w / 128 % 2
  bit6 : v / 64 % 2 ≡ w / 64 % 2
  bit5 : v / 32 % 2 ≡ w / 32 % 2
  low3 : v % 8 ≡ w % 8
  word5 : v % 65536 % 32 ≡ w % 65536 % 32
  word8 : v % 65536 / 32 % 8 ≡ w % 65536 / 32 % 8
  word7 : v % 65536 / 128 % 2 ≡ w % 65536 / 128 % 2

is_twin : (v w : ℕ) → v / 8192 % 8 ≡ w / 8192 % 8 → v % 256 ≡ w % 256 → IsTwin v w
is_twin v w h k = omega arith

unfoldable pub decoded : ℕ → SideSet → Decoded
unfolding split
decoded w s = decode_class (blank w (split w).cls s) w (split w)

-- The same text, and legal or not alike.
abbrev pub Alike : ℕ → ℕ → ℕ → SideSet → SideSet → Type 0
Alike n v w s t =
    (core_text n (decoded v s) ≡ core_text n (decoded w t))
    × ((decoded v s).illegal ≡ (decoded w t).illegal)

module _ (v w n : ℕ) (s t : SideSet) (e : IsTwin v w) where
  jmp-Alike : v / 8192 % 8 ≡ 0 → w / 8192 % 8 ≡ 0 → Alike n v w s t
  unfolding decoded decode_class core_text blank jmp_text
  jmp-Alike a b = rw (a, b) (rw (e.arg1, e.arg2) (refl, refl))

  wait-Alike : v / 8192 % 8 ≡ 1 → w / 8192 % 8 ≡ 1 → Alike n v w s t
  unfolding decoded decode_class core_text blank decode_wait wait_text
  wait-Alike a b = rw (a, b) (rw (e.arg1, e.arg2) (refl, refl))

  in-Alike : v / 8192 % 8 ≡ 2 → w / 8192 % 8 ≡ 2 → Alike n v w s t
  unfolding decoded decode_class core_text blank decode_in in_text
  in-Alike a b = rw (a, b) (rw (e.arg1, e.word5) (refl, refl))

  out-Alike : v / 8192 % 8 ≡ 3 → w / 8192 % 8 ≡ 3 → Alike n v w s t
  unfolding decoded decode_class core_text blank out_text
  out-Alike a b = rw (a, b) (rw (e.arg1, e.word5) (refl, refl))

  pp-Alike : v / 8192 % 8 ≡ 4 → w / 8192 % 8 ≡ 4 → Alike n v w s t
  unfolding decoded decode_class core_text blank decode_pp push_pull_text aux_text
  pp-Alike a b =
      rw (a, b)
        (rw (e.arg2, e.bit7, e.bit6, e.bit5)
          (elim (Bool-cases (has_bit (w % 32) 4)) [
            | inl aux ↦ rw aux (elim (Bool-cases (has_bit w 7)) [
              | inl get ↦ rw get (rw e.word8 (refl, refl))
              | inr put ↦ rw put (rw e.word8 (refl, refl))
            ])
            | inr plain ↦ rw plain (elim (Bool-cases (has_bit w 7)) [
              | inl pull ↦ rw pull (refl, refl)
              | inr push ↦ rw push (refl, refl)
            ])
          ]))

  mov-Alike : v / 8192 % 8 ≡ 5 → w / 8192 % 8 ≡ 5 → Alike n v w s t
  unfolding decoded decode_class core_text blank decode_mov mov_text
  mov-Alike a b = rw (a, b) (rw (e.arg1, e.arg2, e.low3) (refl, refl))

  irq-Alike : v / 8192 % 8 ≡ 6 → w / 8192 % 8 ≡ 6 → Alike n v w s t
  unfolding decoded decode_class core_text blank decode_irq irq_text
  irq-Alike a b = rw (a, b) (rw (e.arg2, e.bit6, e.bit5, e.word7) (refl, refl))

  set-Alike : v / 8192 % 8 ≡ 7 → w / 8192 % 8 ≡ 7 → Alike n v w s t
  unfolding decoded decode_class core_text blank decode_set set_text
  set-Alike a b = rw (a, b) (rw (e.arg1, e.arg2) (refl, refl))

eight_cases :
    (c : ℕ) → c < 8 → (P : ℕ → Type 0) → P 0 → P 1 → P 2 → P 3 → P 4 → P 5 → P 6 → P 7 → P c
eight_cases zero h P a b c d e f g i = a
eight_cases (suc zero) h P a b c d e f g i = b
eight_cases (suc (suc zero)) h P a b c d e f g i = c
eight_cases (suc (suc (suc zero))) h P a b c d e f g i = d
eight_cases (suc (suc (suc (suc zero)))) h P a b c d e f g i = e
eight_cases (suc (suc (suc (suc (suc zero))))) h P a b c d e f g i = f
eight_cases (suc (suc (suc (suc (suc (suc zero)))))) h P a b c d e f g i = g
eight_cases (suc (suc (suc (suc (suc (suc (suc zero))))))) h P a b c d e f g i = i
eight_cases (suc (suc (suc (suc (suc (suc (suc (suc n)))))))) h P a b c d e f g i =
    absurd (omega arith)

-- The text and the legality depend on the class and the low byte only, and on the whole word where
-- it is asked for NOP.
pub decoded-Alike :
    (v w n : ℕ) (s t : SideSet) → v / 8192 % 8 ≡ w / 8192 % 8 → v % 256 ≡ w % 256 → Alike n v w s t
decoded-Alike v w n s t h k =
    let e = is_twin v w h k in
    eight_cases (w / 8192 % 8) (omega arith)
      (λ c. v / 8192 % 8 ≡ c → w / 8192 % 8 ≡ c → Alike n v w s t) (jmp-Alike v w n s t e)
      (wait-Alike v w n s t e) (in-Alike v w n s t e) (out-Alike v w n s t e) (pp-Alike v w n s t e)
      (mov-Alike v w n s t e) (irq-Alike v w n s t e) (set-Alike v w n s t e) h refl

-- Two names with the same answer to whether the word is that of NOP.
pub named_alike :
    (n n' : ℕ) (d : Decoded)
    → (n % 65536 == 0xa042) ≡ (n' % 65536 == 0xa042)
    → core_text n d ≡ core_text n' d
unfolding core_text mov_text
named_alike n n' d e = rw e refl
