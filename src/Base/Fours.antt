-- ===== src/Base/Fours.antt =====
-- A Python list of exactly four elements, one for each state machine.
use Prim.Native.Nat.{ℕ}
use vibe_pio.Base.Tests.{◌==◌, if◌then◌else◌}
use vibe_pio.Base.Errors.{Result, ok, ◌>>=◌}

pub record Four {ℓ} (A : Type ℓ) : Type ℓ where
  pub e0 : A
  pub e1 : A
  pub e2 : A
  pub e3 : A

module _ {ℓ} {A : Type ℓ} where
  -- `xs[i]`, for `i` of at most 3.
  abbrev pub at : Four A → ℕ → A
  at f i = if i == 0 then f.e0 else if i == 1 then f.e1 else if i == 2 then f.e2 else f.e3

  -- `[f(i) for i in range(4)]`
  abbrev pub each : (ℕ → A) → Four A
  each f = record { e0 = f 0; e1 = f 1; e2 = f 2; e3 = f 3 }

  -- `for i, x in enumerate(xs): acc = f(acc, i, x)`
  abbrev pub fold_four {κ} : {B : Type κ} → (B → ℕ → A → B) → B → Four A → B
  fold_four f b xs = f (f (f (f b 0 xs.e0) 1 xs.e1) 2 xs.e2) 3 xs.e3

  -- A list of calls of which any may raise.
  abbrev pub all_ok : Four (Result A) → Result (Four A)
  all_ok f = do
    a ← f.e0
    b ← f.e1
    c ← f.e2
    d ← f.e3
    ok (record { e0 = a; e1 = b; e2 = c; e3 = d })
