-- ===== src/Text/Lengths.antt =====
-- How long the texts are that the methods of Python's texts leave.
use Prim.Native.Char.{Char}
use vibe_pio.Base.{ℕ, zero, suc, ◌+◌, ◌≤◌, ◌≡◌, refl, arith, Bool, if_both, ◌&&◌}
use vibe_pio.Text.{String, is_empty, is_space, lstrip_by, rstrip_by, strip, span, drop_chars, chars}

pub chars-lstrip_by : (test : Char → Bool) (s : String) → chars (lstrip_by test s) ≤ chars s
unfolding lstrip_by chars
chars-lstrip_by test String.[] = omega arith
chars-lstrip_by test (String.◌∷◌ c s) =
    let shorter = chars-lstrip_by test s in
    if_both (λ x. chars x ≤ suc (chars s)) (test c) (omega arith) (omega arith)

pub chars-rstrip_by : (test : Char → Bool) (s : String) → chars (rstrip_by test s) ≤ chars s
unfolding rstrip_by chars
chars-rstrip_by test String.[] = omega arith
chars-rstrip_by test (String.◌∷◌ c s) =
    let shorter = chars-rstrip_by test s in
    if_both (λ x. chars x ≤ suc (chars s)) (is_empty (rstrip_by test s) && test c) (omega arith)
      (omega arith)

pub chars-strip : (s : String) → chars (strip s) ≤ chars s
chars-strip s =
    let right = chars-rstrip_by is_space (lstrip_by is_space s) in
    let left = chars-lstrip_by is_space s in omega arith

pub chars-span :
    (test : Char → Bool) (s : String) → chars (span test s).0 + chars (span test s).1 ≡ chars s
unfolding span chars
chars-span test String.[] = refl
chars-span test (String.◌∷◌ c s) =
    let whole = chars-span test s in
    if_both (λ (p : String × String). chars p.0 + chars p.1 ≡ suc (chars s)) (test c) (omega arith)
      (omega arith)

pub chars-drop_chars : (n : ℕ) (s : String) → chars (drop_chars n s) ≤ chars s
unfolding drop_chars chars
chars-drop_chars zero s = omega arith
chars-drop_chars (suc n) String.[] = omega arith
chars-drop_chars (suc n) (String.◌∷◌ c s) = let shorter = chars-drop_chars n s in omega arith
