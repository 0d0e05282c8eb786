-- ===== src/Base/Dictionary.antt =====
-- Python dictionaries as association lists: `d[k]` is the value of the first key that equals `k`.
use Prim.Native.String.{String}
use text.Mathlib.Text.{◌==◌ as str_eq}
use mathlib.Core.Path.{◌≡◌, subst}
use mathlib.Core.Bool.{Bool, true, false}
use mathlib.Core.List.{List, [], ◌∷◌}
use mathlib.Core.Option.{Option, none, some}
use vibe_pio.Base.Tests.{if◌then◌else◌, Bool-cases}
use vibe_pio.Base.Lists.{All}
use vibe_pio.Base.Errors.{Result, ok, err, key_error, ok-injective}
use mathlib.Core.Logic.{inl, inr}

abbrev pub Dict {ℓ} : Type ℓ → Type ℓ
Dict V = List (Option String × V)

abbrev pub key_eq : Option String → Option String → Bool
key_eq none none = true
key_eq (some a) (some b) = str_eq a b
key_eq none (some b) = false
key_eq (some a) none = false

module _ {ℓ} {V : Type ℓ} where
  unfoldable pub dict_get : Dict V → Option String → Result V
  dict_get [] k = err key_error
  dict_get ((j, v) ∷ m) k = if key_eq j k then ok v else dict_get m k

  -- What a lookup returns is a value of the dictionary.
  pub dict_get-All {κ} :
      (P : V → Type κ) (m : Dict V) (k : Option String) {v : V}
      → All (λ e. P e.1) m
      → dict_get m k ≡ ok v
      → P v
  unfolding dict_get
  dict_get-All P [] k a h = cc
  dict_get-All P ((j, x) ∷ m) k a h = elim (Bool-cases (key_eq j k)) [
    | inl e ↦ subst P (ok-injective (rw e at h)) a.0
    | inr e ↦ dict_get-All P m k a.1 (rw e at h)
  ]
