-- ===== src/Optimize/Laws/Sweep.antt =====
-- What one round of the breadth-first loop of `search` keeps.
use vibe_pio.Base.{
  length-snoc, ℕ, ◌≤◌, ◌<◌, ◌≡◌, ◌∙◌, refl, sym, ap, arith, max, Bool, true, false, leb, List, [],
  ◌∷◌, ◌++◌, map, map-append, length, Bool-cases, inl, inr, All, Result, ok,
}
use mathlib.Core.List.{Memᴰ, append_assoc}
use vibe_pio.Optimize.Candidate.{Candidate}
use vibe_pio.Optimize.Search.{Key, key, has_key, Work, added, offer_all}
use vibe_pio.Optimize.Laws.Keys.{key_eq_refl, has_key-append, Distinct, Distinct-append, All-append}

-- The candidates that rewrites lead to from one.
pub data Derived (rewrites : Candidate → Result (List Candidate)) (c : Candidate)
    : Candidate → Type 0 where
  seed : Derived rewrites c c
  rewritten :
      {d e : Candidate} (found : List Candidate)
      → Derived rewrites c d
      → rewrites d ≡ ok found
      → Memᴰ e found
      → Derived rewrites c e

pub All-members {ℓ κ} :
    {A : Type ℓ} (P : A → Type κ) (xs : List A) → ((x : A) → Memᴰ x xs → P x) → All P xs
All-members P [] h = tt
All-members P (x ∷ xs) h = (h x (Memᴰ.head refl), All-members P xs (λ y m. h y (Memᴰ.tail m)))

abbrev pub Known : List Key → Candidate → Type 0
Known seen c = has_key (key c) seen ≡ true

module _ (P : Candidate → Type 0) (cap : ℕ) where
  -- The invariant, after the rewrites of `expanded` were offered.
  pub record IsWork (expanded : List Candidate) (s : Work) : Type 0 where
    pub split : s.states ≡ expanded ++ s.frontier
    pub keys : s.seen ≡ map key s.states
    pub distinct : Distinct s.seen
    pub derived : All P s.states
    pub bound : length s.states ≤ max 1 cap

  -- What a round leaves.
  pub record IsSwept (expanded found : List Candidate) (s : Work) (r : Work × Bool) : Type 0 where
    pub kept : IsWork expanded r.0
    pub more : (k : Key) → has_key k s.seen ≡ true → has_key k r.0.seen ≡ true
    pub known : r.1 ≡ false → All (Known r.0.seen) found

  added-IsWork :
      (expanded : List Candidate) (s : Work) (c : Candidate)
      → has_key (key c) s.seen ≡ false
      → length s.states < cap
      → P c
      → IsWork expanded s
      → IsWork expanded (added s c)
  added-IsWork expanded s c fresh room p w = record {
    split = ap (λ l. l ++ c ∷ []) w.split ∙ append_assoc expanded s.frontier (c ∷ []);
    keys = ap (λ l. l ++ key c ∷ []) w.keys ∙ sym (map-append key s.states (c ∷ []));
    distinct = Distinct-append (key c) s.seen fresh w.distinct;
    derived = All-append P s.states (c ∷ []) w.derived (p, tt);
    bound = omega (arith, length-snoc s.states c);
  }

  added-more :
      (s : Work) (c : Candidate) (k : Key)
      → has_key k s.seen ≡ true
      → has_key k (added s c).seen ≡ true
  added-more s c k h = ground (arith, has_key-append k s.seen (key c ∷ []))

  added-Known : (s : Work) (c : Candidate) → Known (added s c).seen c
  unfolding has_key
  added-Known s c = ground (arith, has_key-append (key c) s.seen (key c ∷ []), key_eq_refl (key c))

  pub offer_all-IsSwept :
      (expanded found : List Candidate) (s : Work)
      → IsWork expanded s
      → All P found
      → IsSwept expanded found s (offer_all cap s found)
  unfolding offer_all
  offer_all-IsSwept expanded [] s w p = record { kept = w; more = λ k h. h; known = λ _. tt }
  offer_all-IsSwept expanded (c ∷ cs) s w p = elim (Bool-cases (has_key (key c) s.seen)) [
    | inl old ↦
        let rest = offer_all-IsSwept expanded cs s w p.1 in
        rw old (record {
          kept = rest.kept;
          more = rest.more;
          known = λ e. (rest.more (key c) old, rest.known e);
        })
    | inr fresh ↦ elim (Bool-cases (leb cap (length s.states))) [
      | inl full ↦ rw (fresh, full) (record { kept = w; more = λ k h. h; known = λ e. cc })
      | inr room ↦
          let rest =
            offer_all-IsSwept expanded cs (added s c)
              (added-IsWork expanded s c fresh (ground arith) p.0 w) p.1 in
          rw (fresh, room)
            (record {
              kept = rest.kept;
              more = λ k h. rest.more k (added-more s c k h);
              known = λ e. (rest.more (key c) (added-Known s c), rest.known e);
            })
    ]
  ]
