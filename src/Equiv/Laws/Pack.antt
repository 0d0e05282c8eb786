-- ===== src/Equiv/Laws/Pack.antt =====
-- The words of the packed vector are the packed words: `pack_words` of tools/hyperequiv.py and
-- `words_of` of tools/hypersynth.py.
use vibe_pio.Base.{
  ℕ, zero, suc, ◌+◌, ◌-◌, ◌*◌, ◌/◌, ◌%◌, ◌^◌, ◌≤◌, ◌<◌, ◌≡◌, ◌∙◌, refl, sym, ap, ap₂, arith, shl,
  bit_or, bit_or_fields, bit_or_comm, two_pow_add, two_pow_pos, mul_lt, List, [], ◌∷◌, ◌++◌, All,
  length, replicate, ok,
}
use native.Mathlib.Nat.{div-div-eq-div-mul, mul_comm}
use vibe_pio.Equiv.Pair.{pack_from, pack_words}
use vibe_pio.Synth.Replay.{words_from, words_of}

-- The vector of words, as a number in base 2 ^ 16.
value : List ℕ → ℕ
value [] = 0
value (w ∷ ws) = w + 65536 * value ws

pow_next : (i : ℕ) → 2 ^ (16 * (i + 1)) ≡ 2 ^ (16 * i) * 65536
pow_next i = ap (λ (k : ℕ). 2 ^ k) {y = 16 * i + 16} (omega arith) ∙ two_pow_add (16 * i) 16

pack_from_value :
    (ws : List ℕ) (i v : ℕ)
    → v < 2 ^ (16 * i)
    → All (λ w. w < 65536) ws
    → pack_from i v ws ≡ v + 2 ^ (16 * i) * value ws
unfolding pack_from value
pack_from_value [] i v h small = omega arith
pack_from_value (w ∷ ws) i v h small =
    let put : bit_or v (shl w (16 * i)) ≡ w * 2 ^ (16 * i) + v =
      bit_or_comm v (shl w (16 * i)) ∙ bit_or_fields (16 * i) w v h in
    let below = mul_lt 65536 (2 ^ (16 * i)) (omega arith) (two_pow_pos (16 * i)) w v small.0 h in
    rw put (
      pack_from_value ws (i + 1) (w * 2 ^ (16 * i) + v) (omega (arith, pow_next i, below)) small.1
      ∙ omega (arith, ap (λ (power : ℕ). power * value ws) (pow_next i)))

-- The words from the next on are those of the vector without its first.
words_from_next : (v left i : ℕ) → words_from v left (i + 1) ≡ words_from (v / 65536) left i
unfolding words_from
words_from_next v zero i = refl
words_from_next v (suc left) i =
    ap₂ (λ (a : ℕ) l. a % 65536 ∷ l)
      (ap (λ (power : ℕ). v / power) (pow_next i ∙ mul_comm (2 ^ (16 * i)) 65536)
        ∙ sym (div-div-eq-div-mul v 65536 (2 ^ (16 * i))))
      (words_from_next v left (i + 1))

words_from_value :
    (ws : List ℕ) (left : ℕ)
    → length ws ≤ left
    → All (λ w. w < 65536) ws
    → words_from (value ws) left 0 ≡ ws ++ replicate (left - length ws) 0
unfolding words_from value
words_from_value [] zero room small = refl
words_from_value [] (suc left) room small =
    ap (λ l. 0 ∷ l) (words_from_next 0 left 0 ∙ words_from_value [] left (omega arith) tt)
    ∙ ap (λ (k : ℕ). replicate k 0) {x = suc (left - 0)} (omega arith)
words_from_value (w ∷ ws) zero room small = absurd (omega arith)
words_from_value (w ∷ ws) (suc left) room small =
    let v = w + 65536 * value ws in
    let rest : v / 65536 ≡ value ws = omega arith in
    ap₂ (λ a l. a ∷ l) (omega arith)
      (words_from_next v left 0
        ∙ ap (λ (t : ℕ). words_from t left 0) rest
        ∙ words_from_value ws left (omega arith) small.1
        ∙ ap (λ (k : ℕ). ws ++ replicate k 0) {x = left - length ws} (omega arith))

-- At most 32 words of 16 bits are packed with no error, and words_of reads from the vector those
-- words and then words of 0 up to 32.
pub words_of-pack_words :
    (ws : List ℕ)
    → length ws ≤ 32
    → All (λ w. w < 2 ^ 16) ws
    → (v : ℕ) × (pack_words ws ≡ ok v) × (words_of v ≡ ws ++ replicate (32 - length ws) 0)
unfolding pack_words words_of
words_of-pack_words ws room small = (
  pack_from 0 0 ws,
  ground arith,
  ap (λ (v : ℕ). words_from v 32 0) (pack_from_value ws 0 0 (omega arith) small ∙ omega arith)
      ∙ words_from_value ws 32 room small,
)
