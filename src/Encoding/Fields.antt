-- ===== src/Encoding/Fields.antt =====
-- The four fields of a word and `encode` are inverse to one another.
use vibe_pio.Base.{ℕ, ◌+◌, ◌*◌, ◌%◌, ◌^◌, ◌<◌, ◌≡◌, arith, bit_or_fields}
use vibe_pio.Encoding.Split.{split, encode}

-- The word as a sum of its fields.
pub encode_sum :
    (clz arg1 arg2 ds : ℕ)
    → encode clz arg1 arg2 ds ≡ clz % 8 * 8192 + ds % 32 * 256 + arg1 % 8 * 32 + arg2 % 32
unfolding encode
encode_sum clz arg1 arg2 ds = ground (
  arith,
  bit_or_fields 13 clz (ds % 32 * 256) (omega arith),
  bit_or_fields 8 (clz * 32 + ds % 32) (arg1 % 8 * 32) (omega arith),
  bit_or_fields 5 (clz * 256 + ds % 32 * 8 + arg1 % 8) (arg2 % 32) (omega arith),
)

-- split reads back what encode packed, each field cut to its width.
pub split-encode :
    (clz arg1 arg2 ds : ℕ)
    → split (encode clz arg1 arg2 ds)
      ≡ record { cls = clz % 8; ds = ds % 32; arg1 = arg1 % 8; arg2 = arg2 % 32 }
unfolding split
split-encode clz arg1 arg2 ds = rw encode_sum (ground arith)

-- Packing the fields of a 16-bit word gives the word back.
encode-split :
    (word : ℕ) → word < 2 ^ 16 → let f = split word in encode f.cls f.arg1 f.arg2 f.ds ≡ word
unfolding split
encode-split word h = rw encode_sum (omega arith)

pub encode-lt : (clz arg1 arg2 ds : ℕ) → encode clz arg1 arg2 ds < 2 ^ 16
encode-lt clz arg1 arg2 ds = rw encode_sum (omega arith)
