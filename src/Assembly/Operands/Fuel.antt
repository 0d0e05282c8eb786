-- ===== src/Assembly/Operands/Fuel.antt =====
-- No branch of the encoding of an instruction runs out of fuel.
use vibe_pio.Base.{
  ℕ, ◌||◌, true, List, [], ◌∷◌, Option, none, some, Result, ok, ◌>>=◌, assembly_error, Dict,
  dict_get, Fuelled, Fuelled-bind, if-Fuelled, raise_if-Fuelled, bit_or, shl, not,
}
use vibe_pio.Text.{String, str_eq, is_empty, strip_by, lower, strip, split_words, span}
use vibe_pio.Encoding.Tables.{
  jmp_conds, in_srcs, out_dsts, movd_dsts, movs_srcs, set_dsts, idx_modes, mop_none,
}
use vibe_pio.Encoding.Encode.{
  encode_jmp, encode_in, encode_out, mov_code, encode_mov, encode_irq, encode_set, encode_wait,
}
use vibe_pio.Assembly.Integers.{low_word}
use vibe_pio.Assembly.Expressions.{Symbols, eval_expr}
use vibe_pio.Assembly.Expressions.Fuel.{eval_expr-Fuelled}
use vibe_pio.Assembly.Operands.{
  is_comma, not_comma, opnd, halves, split2, pick_cond, cond_texts, encode_jmp_core, is_mode, Words,
  no_words, wait_words, wait_src_code, wait_parts, encode_wait_core, pair_core, aux_value,
  mov_operator, mov_operands, or_zero, encode_mov_core, irq_value, irq_words, irq_index,
  encode_irq_core, encode_core, rxfifo_index,
}

dict_get-Fuelled {ℓ} : {V : Type ℓ} (m : Dict V) (k : Option String) → Fuelled (dict_get m k)
unfolding dict_get
dict_get-Fuelled [] k = λ h. cc
dict_get-Fuelled ((j, v) ∷ m) k = if-Fuelled _ (ok v) (dict_get m k) tt (dict_get-Fuelled m k)

eval-Fuelled {ℓ} :
    {A : Type ℓ} (text : String) (syms : Symbols) (f : ℕ → A)
    → Fuelled (eval_expr text syms >>= λ v. ok (f (low_word v)))
eval-Fuelled text syms f =
    Fuelled-bind (eval_expr text syms) _ (eval_expr-Fuelled text syms) (λ v _. tt)

opnd-Fuelled : (syms : Symbols) (rest : String) → Fuelled (opnd syms rest)
unfolding opnd
opnd-Fuelled syms rest = eval-Fuelled _ syms (λ n. n)

halves-Fuelled : (p : String × String) → Fuelled (halves p)
halves-Fuelled (a, String.[]) = λ h. cc
halves-Fuelled (a, String.◌∷◌ c b) = tt

split2-Fuelled : (rest : String) → Fuelled (split2 rest)
unfolding split2
split2-Fuelled rest = halves-Fuelled (span not_comma rest)

jmp-Fuelled : (syms : Symbols) (rest : String) → Fuelled (encode_jmp_core syms rest)
unfolding encode_jmp_core encode_jmp
jmp-Fuelled syms rest =
    let picked = pick_cond cond_texts rest in
    Fuelled-bind (opnd syms picked.1) _ (opnd-Fuelled syms picked.1) (λ addr _.
      Fuelled-bind (dict_get jmp_conds picked.0) _ (dict_get-Fuelled jmp_conds picked.0)
        (λ code _. tt))

pair-Fuelled :
    (encoder : String → ℕ → ℕ → Result ℕ)
    → ((name : String) (v : ℕ) → Fuelled (encoder name v 0))
    → (syms : Symbols) (rest : String) → Fuelled (pair_core encoder syms rest)
pair-Fuelled encoder h syms rest =
    Fuelled-bind (split2 rest) _ (split2-Fuelled rest)
      (λ ab _. Fuelled-bind (opnd syms ab.1) _ (opnd-Fuelled syms ab.1) (λ v _. h (lower ab.0) v))

in-Fuelled : (name : String) (v : ℕ) → Fuelled (encode_in name v 0)
unfolding encode_in
in-Fuelled name v =
    Fuelled-bind (dict_get in_srcs (some name)) _ (dict_get-Fuelled in_srcs (some name)) (λ c _. tt)

out-Fuelled : (name : String) (v : ℕ) → Fuelled (encode_out name v 0)
unfolding encode_out
out-Fuelled name v =
    Fuelled-bind (dict_get out_dsts (some name)) _ (dict_get-Fuelled out_dsts (some name))
      (λ c _. tt)

set-Fuelled : (name : String) (v : ℕ) → Fuelled (encode_set name v 0)
unfolding encode_set
set-Fuelled name v =
    Fuelled-bind (dict_get set_dsts (some name)) _ (dict_get-Fuelled set_dsts (some name))
      (λ c _. tt)

wait_words-Fuelled :
    (syms : Symbols) (w : Words) (ts : List String) → Fuelled (wait_words syms w ts)
unfolding wait_words
wait_words-Fuelled syms w [] = tt
wait_words-Fuelled syms w (t ∷ ts) =
    let tl = strip_by is_comma t in
    Fuelled-bind _ (λ w'. wait_words syms w' ts)
      (if-Fuelled (is_mode tl) (ok (record w { mode = some tl })) _ tt
        (eval-Fuelled tl syms (λ n. record w { idx = some n })))
      (λ w' _. wait_words-Fuelled syms w' ts)

wait_src-Fuelled : (src : String) → Fuelled (wait_src_code src)
unfolding wait_src_code
wait_src-Fuelled src = if-Fuelled (str_eq src "gpio") _ _ tt (
    if-Fuelled (str_eq src "pin") _ _ tt
      (if-Fuelled (str_eq src "irq") _ _ tt (if-Fuelled (str_eq src "jmppin") _ _ tt (λ h. cc))))

wait_parts-Fuelled : (syms : Symbols) (ts : List String) → Fuelled (wait_parts syms ts)
unfolding wait_parts
wait_parts-Fuelled syms [] = λ h. cc
wait_parts-Fuelled syms (pol ∷ []) = λ h. cc
wait_parts-Fuelled syms (pol ∷ (source ∷ ts)) =
    let src = lower (strip_by is_comma source) in
    Fuelled-bind (wait_words syms no_words ts) _ (wait_words-Fuelled syms no_words ts) (λ w _.
      Fuelled-bind (wait_src_code src) _ (wait_src-Fuelled src) (λ c _.
        Fuelled-bind _ (λ index. ok (encode_wait (str_eq pol "1") c index 0))
          (if-Fuelled (str_eq src "irq")
            (dict_get idx_modes w.mode >>= λ m. ok (bit_or (shl m 3) (or_zero w.idx)))
            (ok (or_zero w.idx))
            (Fuelled-bind (dict_get idx_modes w.mode) _ (dict_get-Fuelled idx_modes w.mode)
              (λ m _. tt))
            tt)
          (λ i _. tt)))

wait-Fuelled : (syms : Symbols) (rest : String) → Fuelled (encode_wait_core syms rest)
unfolding encode_wait_core
wait-Fuelled syms rest = wait_parts-Fuelled syms (split_words rest)

aux_value-Fuelled : (syms : Symbols) (group : String) → Fuelled (aux_value syms group)
unfolding aux_value
aux_value-Fuelled syms group =
    let idx = strip group in
    if-Fuelled (is_empty idx || str_eq (lower idx) "y") (ok none) _ tt (eval-Fuelled idx syms some)

mov_code-Fuelled : (code : Option ℕ) → Fuelled (mov_code code)
mov_code-Fuelled none = λ h. cc
mov_code-Fuelled (some c) = tt

encode_mov-Fuelled : (dst src : String) (op ds : ℕ) → Fuelled (encode_mov dst src op ds)
unfolding encode_mov
encode_mov-Fuelled dst src op ds =
    Fuelled-bind (dict_get movd_dsts (some dst)) _ (dict_get-Fuelled movd_dsts (some dst)) (λ d _.
      Fuelled-bind (dict_get movs_srcs (some src)) _ (dict_get-Fuelled movs_srcs (some src)) (λ s _.
        Fuelled-bind (mov_code d) _ (mov_code-Fuelled d)
          (λ dc _. Fuelled-bind (mov_code s) _ (mov_code-Fuelled s) (λ sc _. tt))))

mov_operands-Fuelled :
    (syms : Symbols) (dst src : String) (to from : Option String)
    → Fuelled (mov_operands syms dst src to from)
unfolding mov_operands
mov_operands-Fuelled syms dst src (some group) from =
    Fuelled-bind (aux_value syms group) _ (aux_value-Fuelled syms group) (λ i _. tt)
mov_operands-Fuelled syms dst src none (some group) =
    Fuelled-bind (aux_value syms group) _ (aux_value-Fuelled syms group) (λ i _. tt)
mov_operands-Fuelled syms dst src none none =
    let operator = mov_operator src in
    encode_mov-Fuelled (lower dst) (strip (lower operator.1)) operator.0 0

mov-Fuelled : (syms : Symbols) (rest : String) → Fuelled (encode_mov_core syms rest)
unfolding encode_mov_core
mov-Fuelled syms rest =
    Fuelled-bind (split2 rest) _ (split2-Fuelled rest)
      (λ ab _. mov_operands-Fuelled syms ab.0 ab.1 (rxfifo_index ab.0) (rxfifo_index ab.1))

irq_value-Fuelled :
    (syms : Symbols) (tl : String) (w : Words) (idx : Option ℕ) → Fuelled (irq_value syms tl w idx)
irq_value-Fuelled syms tl w (some n) = tt
irq_value-Fuelled syms tl w none = eval-Fuelled tl syms (λ n. record w { idx = some n })

irq_words-Fuelled : (syms : Symbols) (w : Words) (ts : List String) → Fuelled (irq_words syms w ts)
unfolding irq_words
irq_words-Fuelled syms w [] = tt
irq_words-Fuelled syms w (t ∷ ts) =
    let tl = strip_by is_comma t in
    Fuelled-bind _ (λ w'. irq_words syms w' ts)
      (if-Fuelled (str_eq tl "clear") (ok (record w { clr = true })) _ tt (
        if-Fuelled (str_eq tl "wait") (ok (record w { wait = true })) _ tt (
          if-Fuelled (str_eq tl "nowait" || str_eq tl "set") (ok w) _ tt (
            if-Fuelled (is_mode tl) (ok (record w { mode = some tl })) _ tt
              (irq_value-Fuelled syms tl w w.idx)))))
      (λ w' _. irq_words-Fuelled syms w' ts)

irq_index-Fuelled : (idx : Option ℕ) → Fuelled (irq_index idx)
irq_index-Fuelled none = λ h. cc
irq_index-Fuelled (some n) = tt

irq-Fuelled : (syms : Symbols) (rest : String) → Fuelled (encode_irq_core syms rest)
unfolding encode_irq_core encode_irq
irq-Fuelled syms rest =
    let ts = split_words rest in
    Fuelled-bind (irq_words syms no_words ts) _ (irq_words-Fuelled syms no_words ts) (λ w _.
      Fuelled-bind (irq_index w.idx) _ (irq_index-Fuelled w.idx) (λ idx _.
        Fuelled-bind (dict_get idx_modes w.mode) _ (dict_get-Fuelled idx_modes w.mode) (λ m _. tt)))

pub encode_core-Fuelled : (syms : Symbols) (mn rest : String) → Fuelled (encode_core syms mn rest)
unfolding encode_core
encode_core-Fuelled syms mn rest =
    if-Fuelled (str_eq mn "nop") _ _
      (raise_if-Fuelled (not (is_empty rest)) assembly_error _ (λ h. cc)
        (encode_mov-Fuelled "y" "y" mop_none 0))
      (if-Fuelled (str_eq mn "jmp") _ _ (jmp-Fuelled syms rest) (
        if-Fuelled (str_eq mn "wait") _ _ (wait-Fuelled syms rest) (
          if-Fuelled (str_eq mn "in") _ _ (pair-Fuelled encode_in in-Fuelled syms rest) (
            if-Fuelled (str_eq mn "out") _ _ (pair-Fuelled encode_out out-Fuelled syms rest) (
              if-Fuelled (str_eq mn "push") _ _ tt (
                if-Fuelled (str_eq mn "pull") _ _ tt (
                  if-Fuelled (str_eq mn "mov") _ _ (mov-Fuelled syms rest) (
                    if-Fuelled (str_eq mn "irq") _ _ (irq-Fuelled syms rest) (
                      if-Fuelled (str_eq mn "set") _ _
                        (pair-Fuelled encode_set set-Fuelled syms rest) (λ h. cc))))))))))
