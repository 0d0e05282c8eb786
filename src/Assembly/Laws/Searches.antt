-- ===== src/Assembly/Laws/Searches.antt =====
-- The searches for postfixes pass over a text that shows none.
use Prim.Native.Char.{Char, code}
use text.Mathlib.TextLemmas.{nil-append, cons-append}
use vibe_pio.Base.{
  both_true, ◌==◌, ◌≡◌, refl, sym, ap, ◌∙◌, arith, ◌&&◌, not, Bool, true, false, if◌then◌else◌,
  Option, none, some, Bool-cases, inl, inr, if_both,
}
use vibe_pio.Text.{String, ◌<>◌, is_empty, is_space, is_word, lstrip_by, rstrip_by, strip, kept}
use vibe_pio.Assembly.Postfixes.{
  delay_at, delay_here, delay_search, side_at, side_here, side_search,
}

abbrev pub bracket_first : String → Bool
bracket_first String.[] = false
bracket_first (String.◌∷◌ c s) = code c == b'['

abbrev pub i_first : String → Bool
i_first String.[] = false
i_first (String.◌∷◌ c s) = code c == b'i'

-- No bracket stands behind a space.
unfoldable pub no_bracket : String → Bool
no_bracket String.[] = true
no_bracket (String.◌∷◌ c s) = not (is_space c && bracket_first s) && no_bracket s

-- No `i` stands behind an `s`.
unfoldable pub no_side : String → Bool
no_side String.[] = true
no_side (String.◌∷◌ c s) = not ((code c == b's') && i_first s) && no_side s

-- There is a first, or a last, character, and it is no space.
abbrev pub begins : String → Bool
begins String.[] = false
begins (String.◌∷◌ c s) = not (is_space c)

unfoldable pub ends : String → Bool
ends String.[] = false
ends (String.◌∷◌ c s) = if is_empty s then not (is_space c) else ends s

-- A text in front of what a search finds.
abbrev pub before_delay : String → Option (String × String) → Option (String × String)
before_delay t none = none
before_delay t (some (before, group)) = some (t <> before, group)

delay_at-none : (r : String) → bracket_first r ≡ false → delay_at r ≡ none
unfolding delay_at
delay_at-none String.[] h = refl
delay_at-none (String.◌∷◌ c s) h = rw h refl

bracket_first-append :
    (s u : String)
    → bracket_first s ≡ false
    → bracket_first u ≡ false
    → bracket_first (s <> u) ≡ false
bracket_first-append String.[] u h k = rw nil-append k
bracket_first-append (String.◌∷◌ c s) u h k = rw cons-append h

before_delay-nil : (r : Option (String × String)) → r ≡ before_delay "" r
before_delay-nil none = refl
before_delay-nil (some (b, g)) = ap (λ (x : String). some (x, g)) (sym (nil-append b))

before_delay-cons :
    (c : Char) (s : String) (r : Option (String × String))
    → delay_here c none (before_delay s r) ≡ before_delay (String.◌∷◌ c s) r
before_delay-cons c s none = refl
before_delay-cons c s (some (b, g)) = ap (λ (x : String). some (x, g)) (sym (cons-append c s b))

none_here :
    (c : Char) (s u : String)
    → not (is_space c && bracket_first s) ≡ true
    → bracket_first u ≡ false
    → (if is_space c then delay_at (s <> u) else none) ≡ none
none_here c s u h k = elim (Bool-cases (is_space c)) [
  | inl space ↦ rw space (delay_at-none (s <> u) (bracket_first-append s u (ground arith) k))
  | inr other ↦ rw other refl
]

pub delay_search-append :
    (t u : String)
    → no_bracket t ≡ true
    → bracket_first u ≡ false
    → delay_search (t <> u) ≡ before_delay t (delay_search u)
unfolding no_bracket delay_search
delay_search-append String.[] u h k = rw nil-append (before_delay-nil (delay_search u))
delay_search-append (String.◌∷◌ c s) u h k =
    let (here, later) = both_true (not (is_space c && bracket_first s)) (no_bracket s) h in
    ap delay_search (cons-append c s u)
    ∙ ap (λ o. delay_here c o (delay_search (s <> u))) (none_here c s u here k)
    ∙ ap (delay_here c none) (delay_search-append s u later k)
    ∙ before_delay-cons c s (delay_search u)

abbrev pub before_side : String → Option (String × String) → Option (String × String)
before_side t none = none
before_side t (some (group, line)) = some (group, t <> line)

before_side-nil : (r : Option (String × String)) → r ≡ before_side "" r
before_side-nil none = refl
before_side-nil (some (g, b)) = ap (λ (x : String). some (g, x)) (sym (nil-append b))

before_side-cons :
    (c : Char) (s : String) (r : Option (String × String))
    → side_here c none (before_side s r) ≡ before_side (String.◌∷◌ c s) r
before_side-cons c s none = refl
before_side-cons c s (some (g, b)) = ap (λ (x : String). some (g, x)) (sym (cons-append c s b))

side_at-none :
    (c : Char) (s : String)
    → not ((code c == b's') && i_first s) ≡ true
    → side_at (String.◌∷◌ c s) ≡ none
unfolding side_at
side_at-none c String.[] h = elim (Bool-cases (code c == b's')) [
  | inl e ↦ rw e refl
  | inr n ↦ rw n refl
]
side_at-none c (String.◌∷◌ d s) h = elim (Bool-cases (code c == b's')) [
  | inl e ↦ let no_i : (code d == b'i') ≡ false = ground arith in rw (e, no_i) refl
  | inr n ↦ rw n refl
]

i_first-append : (s u : String) → i_first u ≡ false → i_first (s <> u) ≡ i_first s
i_first-append String.[] u k = rw nil-append k
i_first-append (String.◌∷◌ c s) u k = rw cons-append refl

-- Whether a word character stands before what follows a text.
pub inside_after : Bool → String → Bool
inside_after inside String.[] = inside
inside_after inside (String.◌∷◌ c s) = inside_after (is_word c) s

pub side_search-append :
    (inside : Bool) (t u : String)
    → no_side t ≡ true
    → i_first u ≡ false
    → side_search inside (t <> u) ≡ before_side t (side_search (inside_after inside t) u)
unfolding no_side side_search inside_after
side_search-append inside String.[] u h k = rw nil-append (before_side-nil (side_search inside u))
side_search-append inside (String.◌∷◌ c s) u h k =
    let (here, later) = both_true (not ((code c == b's') && i_first s)) (no_side s) h in
    let not_here = side_at-none c (s <> u) (rw (i_first-append s u k) here) in
    let skipped : (if inside then none else side_at (String.◌∷◌ c (s <> u))) ≡ none =
      rw not_here (if_both (λ (o : Option (String × String)). o ≡ none) inside refl refl) in
    ap (side_search inside) (cons-append c s u)
    ∙ ap (λ o. side_here c o (side_search (is_word c) (s <> u))) skipped
    ∙ ap (side_here c none) (side_search-append (is_word c) s u later k)
    ∙ before_side-cons c s (side_search (inside_after (is_word c) s) u)

pub begins-append : (t u : String) → begins t ≡ true → begins (t <> u) ≡ true
begins-append String.[] u h = cc
begins-append (String.◌∷◌ c s) u h = rw cons-append h

ends-not_empty : (s u : String) → ends u ≡ true → is_empty (s <> u) ≡ false
unfolding ends
ends-not_empty String.[] String.[] h = cc
ends-not_empty String.[] (String.◌∷◌ c u) h = rw nil-append refl
ends-not_empty (String.◌∷◌ c s) u h = rw cons-append refl

pub ends-append : (t u : String) → ends u ≡ true → ends (t <> u) ≡ true
unfolding ends
ends-append String.[] u h = rw nil-append h
ends-append (String.◌∷◌ c s) u h = rw cons-append (rw (ends-not_empty s u h) (ends-append s u h))

lstrip-begins : (t : String) → begins t ≡ true → lstrip_by is_space t ≡ t
unfolding lstrip_by
lstrip-begins String.[] h = refl
lstrip-begins (String.◌∷◌ c s) h = let filled : is_space c ≡ false = ground arith in rw filled refl

kept_filled :
    (c : Char) (s : String)
    → (if is_empty s then not (is_space c) else ends s) ≡ true
    → kept is_space c s ≡ String.◌∷◌ c s
kept_filled c String.[] h = let filled : is_space c ≡ false = ground arith in rw filled refl
kept_filled c (String.◌∷◌ d s) h = refl

rstrip-ends : (t : String) → ends t ≡ true → rstrip_by is_space t ≡ t
unfolding ends rstrip_by
rstrip-ends String.[] h = refl
rstrip-ends (String.◌∷◌ c String.[]) h = kept_filled c "" h
rstrip-ends (String.◌∷◌ c (String.◌∷◌ d s)) h =
    ap (kept is_space c) (rstrip-ends (String.◌∷◌ d s) h)

pub strip-filled : (t : String) → begins t ≡ true → ends t ≡ true → strip t ≡ t
strip-filled t b e = ap (rstrip_by is_space) (lstrip-begins t b) ∙ rstrip-ends t e

rstrip_space : (t : String) → ends t ≡ true → rstrip_by is_space (t <> " ") ≡ t
unfolding ends rstrip_by
rstrip_space String.[] h = cc
rstrip_space (String.◌∷◌ c String.[]) h = rw cons-append (kept_filled c "" h)
rstrip_space (String.◌∷◌ c (String.◌∷◌ d s)) h =
    ap (rstrip_by is_space) (cons-append c (String.◌∷◌ d s) " ")
    ∙ ap (kept is_space c) (rstrip_space (String.◌∷◌ d s) h)

-- Stripping takes a space behind a text away.
pub strip_space : (t : String) → begins t ≡ true → ends t ≡ true → strip (t <> " ") ≡ t
strip_space t b e =
    ap (rstrip_by is_space) (lstrip-begins (t <> " ") (begins-append t " " b)) ∙ rstrip_space t e
