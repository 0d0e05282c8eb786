-- ===== src/Assembly/Directives/Fuel.antt =====
-- No directive runs out of fuel.
use vibe_pio.Base.{
  ℕ, zero, suc, ◌||◌, Bool, true, false, List, [], ◌∷◌, Option, none, some, ok, err, assembly_error,
  Fuelled, Fuelled-bind, if-Fuelled, raise_if-Fuelled,
}
use vibe_pio.Text.{String, str_eq, starts_with, is_empty, lower, strip, drop_chars, split_words}
use vibe_pio.Assembly.Integers.{ℤ, pos, neg}
use vibe_pio.Assembly.Expressions.{eval_expr}
use vibe_pio.Assembly.Expressions.Fuel.{eval_expr-Fuelled}
use vibe_pio.Assembly.Program.{Program}
use vibe_pio.Assembly.Directives.{
  decimal_from, signed, int_of_text, cut_word, word_at, side_options, side_set, define_symbol,
  define, directive,
}

signed-Fuelled : (f : ℕ → ℤ) (n : Option ℕ) → Fuelled (signed f n)
signed-Fuelled f none = λ h. cc
signed-Fuelled f (some n) = tt

pub int_of_text-Fuelled : (text : String) → Fuelled (int_of_text text)
unfolding int_of_text
int_of_text-Fuelled text =
    let s = strip text in
    if-Fuelled (starts_with s "-") _ _
      (signed-Fuelled (λ n. neg (pos n)) (decimal_from false 0 (drop_chars 1 s)))
      (if-Fuelled (starts_with s "+") _ _
        (signed-Fuelled pos (decimal_from false 0 (drop_chars 1 s)))
        (signed-Fuelled pos (decimal_from false 0 s)))

pub word_at-Fuelled : (n : ℕ) (ws : List String) → Fuelled (word_at n ws)
word_at-Fuelled n [] = λ h. cc
word_at-Fuelled zero (w ∷ ws) = tt
word_at-Fuelled (suc n) (w ∷ ws) = word_at-Fuelled n ws

side_options-Fuelled : (opts : List String) (prog : Program) → Fuelled (side_options opts prog)
unfolding side_options
side_options-Fuelled [] prog = tt
side_options-Fuelled (opt ∷ opts) prog =
    Fuelled-bind _ (side_options opts)
      (if-Fuelled (str_eq opt "opt") (ok (record prog { sideset_opt = true })) _ tt (
        if-Fuelled (str_eq opt "pindirs") (ok (record prog { sideset_pindirs = true }))
          (err assembly_error) tt (λ h. cc)))
      (λ p _. side_options-Fuelled opts p)

side_set-Fuelled : (parts : List String) (prog : Program) → Fuelled (side_set parts prog)
unfolding side_set
side_set-Fuelled [] prog = λ h. cc
side_set-Fuelled (bits ∷ opts) prog =
    Fuelled-bind (eval_expr bits []) _ (eval_expr-Fuelled bits [])
      (λ v _. side_options-Fuelled opts (record prog { sideset_bits = some v }))

define_symbol-Fuelled :
    (is_public : Bool) (name expr : String) (prog : Program)
    → Fuelled (define_symbol is_public name expr prog)
unfolding define_symbol
define_symbol-Fuelled is_public name expr prog =
    raise_if-Fuelled (is_empty name || is_empty expr) assembly_error _ (λ h. cc)
      (Fuelled-bind (eval_expr expr prog.symbols) _ (eval_expr-Fuelled expr prog.symbols)
        (λ v _. tt))

define-Fuelled : (arg : String) (prog : Program) → Fuelled (define arg prog)
unfolding define
define-Fuelled arg prog =
    let outer = cut_word arg in
    let inner = cut_word outer.1 in
    if-Fuelled (str_eq (lower outer.0) "public") _ _
      (define_symbol-Fuelled true inner.0 inner.1 prog)
      (define_symbol-Fuelled false outer.0 outer.1 prog)

pub directive-Fuelled : (d arg : String) (prog : Program) → Fuelled (directive d arg prog)
unfolding directive
directive-Fuelled d arg prog =
    if-Fuelled (str_eq d ".pio_version") _ _
      (Fuelled-bind (int_of_text arg) _ (int_of_text-Fuelled arg) (λ v _. tt))
      (if-Fuelled (str_eq d ".origin") _ _
        (Fuelled-bind (eval_expr arg []) _ (eval_expr-Fuelled arg []) (λ v _. tt))
        (if-Fuelled (str_eq d ".wrap_target") _ _ tt (
          if-Fuelled (str_eq d ".wrap") _ _ tt (
            if-Fuelled (str_eq d ".side_set") _ _ (side_set-Fuelled (split_words arg) prog) (
              if-Fuelled (str_eq d ".define") _ _ (define-Fuelled arg prog)
                (if-Fuelled (str_eq d ".lang_opt") (ok prog) (err assembly_error) tt (λ h. cc)))))))
