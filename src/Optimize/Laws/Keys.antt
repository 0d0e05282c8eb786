-- ===== src/Optimize/Laws/Keys.antt =====
-- The keys by which `search` tells candidates apart.
use vibe_pio.Base.{ℕ, ◌≡◌, refl, arith, true, false, ◌||◌, List, [], ◌∷◌, ◌++◌, All}
use vibe_pio.Optimize.Search.{Key, words_eq, key_eq, has_key}

words_eq_refl : (xs : List ℕ) → words_eq xs xs ≡ true
unfolding words_eq
words_eq_refl [] = refl
words_eq_refl (x ∷ xs) = ground (arith, words_eq_refl xs)

words_eq_sound : (xs ys : List ℕ) → words_eq xs ys ≡ true → xs ≡ ys
unfolding words_eq
words_eq_sound [] [] h = refl
words_eq_sound [] (y ∷ ys) h = cc
words_eq_sound (x ∷ xs) [] h = cc
words_eq_sound (x ∷ xs) (y ∷ ys) h = ground (arith, words_eq_sound xs ys)

pub key_eq_refl : (k : Key) → key_eq k k ≡ true
unfolding key_eq
key_eq_refl (words, ec) = ground (arith, words_eq_refl words)

pub key_eq_sound : (j k : Key) → key_eq j k ≡ true → j ≡ k
unfolding key_eq
key_eq_sound (words, ec) (words', ec') h = ground (arith, words_eq_sound words words')

pub has_key-append :
    (k : Key) (js ks : List Key) → has_key k (js ++ ks) ≡ (has_key k js || has_key k ks)
unfolding has_key
has_key-append k [] ks = refl
has_key-append k (j ∷ js) ks = ground (arith, has_key-append k js ks)

-- No key occurs twice.
abbrev pub Distinct : List Key → Type 0
Distinct [] = Unit
Distinct (k ∷ ks) = (has_key k ks ≡ false) × Distinct ks

pub Distinct-append :
    (k : Key) (ks : List Key) → has_key k ks ≡ false → Distinct ks → Distinct (ks ++ k ∷ [])
unfolding has_key
Distinct-append k [] n d = ground arith
Distinct-append k (j ∷ js) n d = (
  ground (arith, has_key-append j js (k ∷ []), flipped),
  Distinct-append k js (ground (arith)) d.1,
)
  where
    flipped : key_eq j k ≡ true → key_eq k j ≡ true
    flipped e = rw (key_eq_sound j k e) (key_eq_refl k)

-- What holds of a list and of one more element holds of both together.
pub All-append {ℓ κ} :
    {A : Type ℓ} (P : A → Type κ) (xs ys : List A) → All P xs → All P ys → All P (xs ++ ys)
All-append P [] ys h g = g
All-append P (x ∷ xs) ys h g = (h.0, All-append P xs ys h.1 g)
