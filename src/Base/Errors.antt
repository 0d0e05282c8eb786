-- ===== src/Base/Errors.antt =====
-- Python's exceptions as values.
use vibe_pio.Base.Tests.{if◌then◌else◌, if_both}
use mathlib.Core.Bool.{Bool, true, false}
use mathlib.Core.Logic.{◌≢◌, ◌↔◌, ◌⊎◌, inl, inr}
use mathlib.Core.Path.{◌≡◌, refl, ap, ◌∙◌}

pub data Error : Type 0 where
  reserved_encoding key_error value_error index_error assertion_error : Error
  assembly_error zero_division overflow_error out_of_fuel : Error

pub data Result {ℓ} (A : Type ℓ) : Type ℓ where
  err : Error → Result A
  ok : A → Result A

infixl 5 ◌>>=◌ ◌>>◌
abbrev pub ◌>>=◌ {ℓ κ} : {B : Type κ} {A : Type ℓ} → Result A → (A → Result B) → Result B
err raised >>= rest = err raised
ok result >>= rest = rest result

abbrev pub ◌>>◌ {κ} : {B : Type κ} → Result (Unit {0}) → Result B → Result B
err raised >> rest = err raised
ok tt >> rest = rest

-- `if b: raise e`
abbrev pub raise_if : Bool → Error → Result (Unit {0})
raise_if true e = err e
raise_if false e = ok tt

pub ok-injective {ℓ} : {A : Type ℓ} {a b : A} → ok a ≡ ok b → a ≡ b
ok-injective {a = a} h = ap (λ r. elim r [ ok x ↦ x | err _ ↦ a ]) h

-- Code that completed has completed each of its calls: the first call's result and the rest's.
pub >>=-eq-ok {ℓ κ} :
    {A : Type ℓ} {B : Type κ} (call : Result A) (rest : A → Result B) {result : B}
    → (call >>= rest) ≡ ok result
    → (first : A) × (call ≡ ok first) × (rest first ≡ ok result)
>>=-eq-ok (ok first) rest done = (first, refl, done)
>>=-eq-ok (err raised) rest done = cc

-- Code behind a check that completed.
pub raise_if-passed {ℓ} :
    {B : Type ℓ} (test : Bool) (e : Error) (rest : Result B) {result : B}
    → (raise_if test e >> rest) ≡ ok result
    → (test ≡ false) × (rest ≡ ok result)
raise_if-passed true e rest h = cc
raise_if-passed false e rest h = (refl, h)

-- Using a result does not change whether, and what, it raises.
pub >>=-ok-eq-err {ℓ κ} :
    {A : Type ℓ} {B : Type κ} (m : Result A) (f : A → B) (e : Error)
    → ((m >>= λ a. ok (f a)) ≡ err e) ↔ (m ≡ err e)
>>=-ok-eq-err (ok a) f e = (λ h. cc, λ h. cc)
>>=-ok-eq-err (err x) f e = (λ h. cc, λ h. cc)

-- `r` raises `e` exactly when `P`, and otherwise completes.
pub data RaisesWhen {ℓ} {A : Type ℓ} (r : Result A) (e : Error) (P : Type 0) : Type ℓ where
  raises : P → r ≡ err e → RaisesWhen r e P
  completes : ¬ P → (a : A) → r ≡ ok a → RaisesWhen r e P

pub >>=-RaisesWhen {ℓ κ} :
    {A : Type ℓ} {B : Type κ} (r : Result A) (f : A → Result B) {e : Error} {P Q : Type 0}
    → RaisesWhen r e P
    → ((a : A) → RaisesWhen (f a) e Q)
    → RaisesWhen (r >>= f) e (P ⊎ Q)
>>=-RaisesWhen r f (raises p h) k = raises (inl p) (ap (λ m. m >>= f) h)
>>=-RaisesWhen r f (completes n a h) k = elim (k a) [
  | raises q h' ↦ raises (inr q) (ap (λ m. m >>= f) h ∙ h')
  | completes n' b h' ↦
      completes (λ pq. elim pq [ inl p ↦ n p | inr q ↦ n' q ]) b (ap (λ m. m >>= f) h ∙ h')
]

-- The second call, where the first completed, raises under the same condition.
pub again-RaisesWhen {ℓ κ} :
    {A : Type ℓ} {B : Type κ} (r : Result A) (f : A → Result B) {e : Error} {P : Type 0}
    → RaisesWhen r e P
    → (¬ P → (a : A) → RaisesWhen (f a) e P)
    → RaisesWhen (r >>= f) e P
again-RaisesWhen r f (raises p h) k = raises p (ap (λ m. m >>= f) h)
again-RaisesWhen r f (completes n a h) k = elim (k n a) [
  | raises p _ ↦ absurd (n p)
  | completes _ b h' ↦ completes n b (ap (λ m. m >>= f) h ∙ h')
]

pub map-RaisesWhen {ℓ κ} :
    {A : Type ℓ} {B : Type κ} (r : Result A) (f : A → B) {e : Error} {P : Type 0}
    → RaisesWhen r e P
    → RaisesWhen (r >>= λ a. ok (f a)) e P
map-RaisesWhen r f w = again-RaisesWhen r (λ a. ok (f a)) w (λ n a. completes n (f a) refl)

pub RaisesWhen_weaken {ℓ} :
    {A : Type ℓ} {r : Result A} {e : Error} {P Q : Type 0}
    → P ↔ Q
    → RaisesWhen r e P
    → RaisesWhen r e Q
RaisesWhen_weaken w (raises p h) = raises (w.0 p) h
RaisesWhen_weaken w (completes n a h) = completes (λ q. n (w.1 q)) a h

-- It does not run out of fuel.
abbrev pub Fuelled {ℓ} : {A : Type ℓ} → Result A → Type 0
Fuelled (ok a) = Unit {0}
Fuelled (err e) = e ≢ out_of_fuel

pub Fuelled-bind {ℓ κ} :
    {A : Type ℓ} {B : Type κ} (r : Result A) (f : A → Result B)
    → Fuelled r
    → ((a : A) → r ≡ ok a → Fuelled (f a))
    → Fuelled (r >>= f)
Fuelled-bind (ok a) f p h = h a refl
Fuelled-bind (err e) f p h = p

pub Fuelled-ne {ℓ} : {A : Type ℓ} (r : Result A) → Fuelled r → r ≢ err out_of_fuel
Fuelled-ne (ok a) p h = cc
Fuelled-ne (err e) p h = p (cc)

pub raise_if-Fuelled {ℓ} :
    {B : Type ℓ} (test : Bool) (e : Error) (rest : Result B)
    → e ≢ out_of_fuel
    → Fuelled rest
    → Fuelled (raise_if test e >> rest)
raise_if-Fuelled true e rest other h = other
raise_if-Fuelled false e rest other h = h

pub if-Fuelled {ℓ} :
    {A : Type ℓ} (test : Bool) (a b : Result A)
    → Fuelled a
    → Fuelled b
    → Fuelled (if test then a else b)
if-Fuelled {A = A} test a b p q = if_both (Fuelled {A = A}) test {yes = a} {no = b} p q
