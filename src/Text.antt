-- ===== src/Text.antt =====
-- Python's texts, of ASCII characters: what `str.strip`, `split`, `lower`, `replace`, the f-strings
-- and the classes \s and \w of regular expressions do there.
pub mod Lengths
use Prim.Native.Char.{Char, code}
use Prim.Native.String.{char_at}
use vibe_pio.Base.{
  ℕ, zero, suc, ◌-◌, ◌/◌, ◌%◌, ◌==◌, ◌&&◌, ◌||◌, not, leb, ltb, Bool, true, false, List, [], ◌∷◌,
  if◌then◌else◌,
}
pub use Prim.Native.String.{String}
pub use Prim.Native.String.{◌++◌ as ◌<>◌}
pub use text.Mathlib.Text.{◌==◌ as str_eq}

-- `s.startswith(t)`
unfoldable pub starts_with : String → String → Bool
starts_with s String.[] = true
starts_with String.[] (String.◌∷◌ d t) = false
starts_with (String.◌∷◌ c s) (String.◌∷◌ d t) = (code c == code d) && starts_with s t

abbrev pub is_empty : String → Bool
is_empty String.[] = true
is_empty (String.◌∷◌ c s) = false

-- \s
abbrev pub is_space : Char → Bool
is_space c = leb 9 (code c) && leb (code c) 13 || leb 28 (code c) && leb (code c) 32

abbrev pub is_digit : Char → Bool
is_digit c = leb b'0' (code c) && leb (code c) b'9'

abbrev pub is_alpha : Char → Bool
is_alpha c = leb b'A' (code c) && leb (code c) b'Z' || leb b'a' (code c) && leb (code c) b'z'

-- \w
abbrev pub is_word : Char → Bool
is_word c = is_digit c || is_alpha c || (code c == b'_')

abbrev lower_char : Char → Char
lower_char c =
    if leb b'A' (code c) && leb (code c) b'Z'
    then char_at "abcdefghijklmnopqrstuvwxyz" (code c - b'A')
    else c

unfoldable pub lower : String → String
lower String.[] = String.[]
lower (String.◌∷◌ c s) = String.◌∷◌ (lower_char c) (lower s)

-- `s.lstrip(…)` and `s.rstrip(…)`, of the characters that pass a test.
unfoldable pub lstrip_by : (Char → Bool) → String → String
lstrip_by test String.[] = String.[]
lstrip_by test (String.◌∷◌ c s) = if test c then lstrip_by test s else String.◌∷◌ c s

-- A character in front of a stripped text.
abbrev pub kept : (Char → Bool) → Char → String → String
kept test c s = if is_empty s && test c then String.[] else String.◌∷◌ c s

unfoldable pub rstrip_by : (Char → Bool) → String → String
rstrip_by test String.[] = String.[]
rstrip_by test (String.◌∷◌ c s) = kept test c (rstrip_by test s)

abbrev pub strip_by : (Char → Bool) → String → String
strip_by test s = rstrip_by test (lstrip_by test s)

abbrev pub strip : String → String
strip s = strip_by is_space s

-- The longest run of characters that pass a test, and the text behind it.
unfoldable pub span : (Char → Bool) → String → String × String
span test String.[] = (String.[], String.[])
span test (String.◌∷◌ c s) =
    let (run, rest) = span test s in
    if test c then (String.◌∷◌ c run, rest) else (String.[], String.◌∷◌ c s)

-- `s[n:]`
unfoldable pub drop_chars : ℕ → String → String
drop_chars zero s = s
drop_chars (suc n) String.[] = String.[]
drop_chars (suc n) (String.◌∷◌ c s) = drop_chars n s

unfoldable pub chars : String → ℕ
chars String.[] = 0
chars (String.◌∷◌ c s) = suc (chars s)

-- The word that a text begins with, and the words behind it.
abbrev flush : String × List String → List String
flush (w, ws) = if is_empty w then ws else w ∷ ws

pieces : String → String × List String
pieces String.[] = (String.[], [])
pieces (String.◌∷◌ c s) =
    let (w, ws) = pieces s in
    if is_space c then (String.[], flush (w, ws)) else (String.◌∷◌ c w, ws)

-- `s.split()`
unfoldable pub split_words : String → List String
unfolding pieces
split_words s = flush (pieces s)

-- `t in s`
unfoldable pub contains : String → String → Bool
unfolding starts_with
contains String.[] t = starts_with String.[] t
contains (String.◌∷◌ c s) t = starts_with (String.◌∷◌ c s) t || contains s t

abbrev word_first : String → Bool
word_first String.[] = false
word_first (String.◌∷◌ c s) = is_word c

-- The pattern \bt\b found in a text, for a `t` of word characters; `inside` says that a word character
-- stands before it.
contains_word_from : Bool → String → String → Bool
contains_word_from inside String.[] t = false
contains_word_from inside (String.◌∷◌ c s) t =
    not inside
      && starts_with (String.◌∷◌ c s) t
      && not (word_first (drop_chars (chars t) (String.◌∷◌ c s)))
    || contains_word_from (is_word c) s t

unfoldable pub contains_word : String → String → Bool
unfolding contains_word_from starts_with drop_chars chars
contains_word s t = contains_word_from false s t

abbrev digit_text : ℕ → String
digit_text d = String.◌∷◌ (char_at "0123456789abcdef" d) String.[]

-- The digits of a number below `base ^ fuel`, without leading zeros.
digits : ℕ → ℕ → ℕ → String
digits base zero n = String.[]
digits base (suc fuel) n =
    let front = digits base fuel (n / base) in
    if ltb n base then digit_text n else front <> digit_text (n % base)

-- `f"{n}"`; no number has more digits than `n` + 1.
unfoldable pub decimal : ℕ → String
unfolding digits
decimal n = digits 10 (suc n) n
