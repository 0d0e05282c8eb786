-- ===== src/Assembly/Laws/Refusals.antt =====
-- The one error of the disassembler.
use vibe_pio.Base.{
  ◌≤◌, ltb, ℕ, ◌^◌, ◌==◌, ◌<◌, ◌≡◌, refl, sym, ◌∙◌, arith, not, Bool, true, false, low_bits, shr,
  Error, Result, ok, err, [], ◌>>=◌, ◌>>◌, raise_if, ok-injective, >>=-eq-ok, subst, ap,
  reserved_encoding,
}
use vibe_pio.Text.{String, ◌<>◌}
use vibe_pio.Encoding.Split.{sideset_fields, SideSet, split, split_sideset, pack_ds, pack_fields}
use vibe_pio.Encoding.SideSets.{split_sideset-Fits}
use vibe_pio.Encoding.Decode.{Decoded, decode}
use vibe_pio.Disassembly.{core_text, postfix, disassemble}
use vibe_pio.Assembly.Laws.Named.{decoded}
use vibe_pio.Assembly.Laws.Cores.{refused, written, core_text-Outcome}

-- Nothing but a reserved encoding is raised.
abbrev OnlyReserved {ℓ} : {A : Type ℓ} → Result A → Type ℓ
OnlyReserved r = (e : Error) → r ≡ err e → e ≡ reserved_encoding

err-injective {ℓ} : {A : Type ℓ} {d e : Error} → ◌≡◌ {A = Result A} (err d) (err e) → d ≡ e
err-injective {d = d} h = ap (λ r. elim r [ ok _ ↦ d | err x ↦ x ]) h

ok_only {ℓ} : {A : Type ℓ} (a : A) → OnlyReserved (ok a)
ok_only a e h = cc

bind_only {ℓ κ} :
    {A : Type ℓ} {B : Type κ} (m : Result A) (f : A → Result B)
    → OnlyReserved m
    → ((a : A) → m ≡ ok a → OnlyReserved (f a))
    → OnlyReserved (m >>= f)
bind_only (ok a) f k h = h a refl
bind_only (err d) f k h = λ e p. k e (ap err (err-injective p))

guard_only {ℓ} :
    {B : Type ℓ} (test : Bool) (rest : Result B)
    → (test ≡ false → OnlyReserved rest)
    → OnlyReserved (raise_if test reserved_encoding >> rest)
guard_only true rest h = λ e p. sym (err-injective p)
guard_only false rest h = h refl

split_sideset_only : (ds : ℕ) (en : Bool) (count : ℕ) → OnlyReserved (split_sideset ds en count)
unfolding split_sideset
split_sideset_only ds en count =
    let side = sideset_fields ds en (low_bits count 3) in
    guard_only (ltb 5 (low_bits count 3)) (ok side) (λ _. ok_only side)

pack_ds_only :
    (delay v : ℕ) (en : Bool) (count : ℕ) (ss : Bool)
    → low_bits count 3 ≤ 5
    → OnlyReserved (pack_ds delay v en count ss)
unfolding pack_ds pack_fields
pack_ds_only delay v en count ss few e h = ground arith

core_only :
    (w : ℕ) (s : SideSet)
    → w < 65536
    → (decoded w s).illegal ≡ false
    → OnlyReserved (core_text w (decoded w s))
core_only w s small legal e h = elim (core_text-Outcome [] w s small legal) [
  | refused r ↦ err-injective (sym h ∙ r)
  | written t r _ ↦ let clash : ok t ≡ err e = sym r ∙ h in cc
]

-- `disassemble` behind the reading of its side-set.
abbrev behind : ℕ → Bool → ℕ → Decoded → Result String
behind word en count d = do
  raise_if d.illegal reserved_encoding
  repack ← pack_ds d.delay d.ss_val en count d.ss_valid
  raise_if (not (repack == low_bits (shr word 8) 5)) reserved_encoding
  core ← core_text word d
  ok (core <> postfix d)

behind_only :
    (word : ℕ) (en : Bool) (count : ℕ) (s : SideSet)
    → word < 65536
    → low_bits count 3 ≤ 5
    → OnlyReserved (behind word en count (decoded word s))
behind_only word en count s small few =
    let d = decoded word s in
    guard_only d.illegal _ (λ legal.
      bind_only (pack_ds d.delay d.ss_val en count d.ss_valid) _
        (pack_ds_only d.delay d.ss_val en count d.ss_valid few)
        (λ repack _. guard_only (not (repack == low_bits (shr word 8) 5)) _ (λ _.
          bind_only (core_text word d) _ (core_only word s small legal) (λ core _. ok_only _))))

-- disassemble of a 16-bit word raises nothing but the error of a reserved encoding, whatever the
-- side-set configuration: no table lacks a key that it looks up.
pub disassemble-err :
    (word : ℕ) (en : Bool) (count : ℕ) (e : Error)
    → word < 2 ^ 16
    → disassemble word en count ≡ err e
    → e ≡ reserved_encoding
unfolding disassemble decode decoded split
disassemble-err word en count e small =
    let side = split_sideset (low_bits (shr word 8) 5) en count in
    bind_only (decode word en count) (behind word en count)
      (bind_only side (λ s. ok (decoded word s))
        (split_sideset_only (low_bits (shr word 8) 5) en count) (λ s _. ok_only _))
      (λ d e.
        let (s, es, same) = >>=-eq-ok side (λ s. ok (decoded word s)) e in
        subst (λ x. OnlyReserved (behind word en count x)) (ok-injective same)
          (behind_only word en count s small
            (split_sideset-Fits (low_bits (shr word 8) 5) en count (omega arith) es).total_fits))
      e
