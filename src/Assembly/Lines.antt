-- ===== src/Assembly/Lines.antt =====
-- The lines of a source text: `splitlines`, `_strip_comment` and `_LABEL_RE` of
-- tools/pio_model/asm.py, on ASCII texts.
pub mod Fuel
use Prim.Native.Char.{Char, code}
use vibe_pio.Base.{
  ◌==◌, ◌&&◌, ◌||◌, not, Bool, true, false, leb, List, [], ◌∷◌, if◌then◌else◌, Option, none, some,
}
use vibe_pio.Text.{String, starts_with, is_space, is_alpha, is_word, lstrip_by, span, drop_chars}

abbrev is_break : Char → Bool
is_break c = leb 10 (code c) && leb (code c) 13 || leb 28 (code c) && leb (code c) 30

-- A character in front of the first line.
abbrev glue : Char → List String → List String
glue c [] = String.◌∷◌ c String.[] ∷ []
glue c (l ∷ ls) = String.◌∷◌ c l ∷ ls

-- `text.splitlines()`; a carriage return before a newline is a part of that break.
unfoldable pub split_lines : String → List String
split_lines String.[] = []
split_lines (String.◌∷◌ c s) =
    let rest = split_lines s in
    if (code c == 13) && starts_with s "\n"
    then rest
    else if is_break c
    then String.[] ∷ rest
    else glue c rest

-- Where the scan of a line stands: the mark of a block comment is passed character by character.
pub data Scanned : Type 0 where
  outside opening inside closing : Scanned

abbrev scan_next : Scanned → String → Scanned
scan_next outside s = if starts_with s "/*" then opening else outside
scan_next opening s = inside
scan_next inside s = if starts_with s "*/" then closing else inside
scan_next closing s = outside

abbrev keeps : Scanned → String → Bool
keeps outside s = not (starts_with s "/*")
keeps opening s = false
keeps inside s = false
keeps closing s = false

abbrev ends_line : Scanned → Char → String → Bool
ends_line outside c s = starts_with s "//" || (code c == b';')
ends_line opening c s = false
ends_line inside c s = false
ends_line closing c s = false

-- The loop of `_strip_comment`.
strip_from : Scanned → String → String
strip_from m String.[] = String.[]
strip_from m (String.◌∷◌ c s) =
    let whole = String.◌∷◌ c s in
    let rest = strip_from (scan_next m whole) s in
    if ends_line m c whole then String.[] else if keeps m whole then String.◌∷◌ c rest else rest

unfoldable pub strip_comment : String → String
unfolding strip_from starts_with
strip_comment line = strip_from outside line

-- What `_LABEL_RE` matches: whether it is public, its name, and the text behind the colon.
pub record Label : Type 0 where
  pub is_public : Bool
  pub name : String
  pub rest : String

abbrev after_colon : Bool → String → String → Option Label
after_colon pub_mark name String.[] = none
after_colon pub_mark name (String.◌∷◌ c s) =
    if code c == b':' then some (record { is_public = pub_mark; name = name; rest = s }) else none

named : Bool → String → Option Label
named pub_mark String.[] = none
named pub_mark (String.◌∷◌ c s) =
    let (name, r) = span is_word (String.◌∷◌ c s) in
    if is_alpha c || (code c == b'_')
    then after_colon pub_mark name (lstrip_by is_space r)
    else none

abbrev space_first : String → Bool
space_first String.[] = false
space_first (String.◌∷◌ c s) = is_space c

abbrev or_plain : Option Label → Option Label → Option Label
or_plain none plain = plain
or_plain (some l) plain = some l

unfoldable pub label_at : String → Option Label
unfolding named span lstrip_by drop_chars starts_with
label_at s =
    let r = drop_chars 6 s in
    or_plain
      (if (starts_with s "public" || starts_with s "PUBLIC") && space_first r
        then named true (lstrip_by is_space r)
        else none)
      (named false s)
