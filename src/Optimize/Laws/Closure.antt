-- ===== src/Optimize/Laws/Closure.antt =====
-- The breadth-first loop of `search`: its invariant, its end, and what the fuel is enough for.
use vibe_pio.Base.{
  length-append, ℕ, zero, suc, ◌+◌, ◌≤◌, ◌≡◌, ◌≢◌, ◌⊎◌, ◌∙◌, refl, sym, ap, subst, arith, max, Bool,
  true, false, if◌then◌else◌, List, [], ◌∷◌, ◌++◌, length, Bool-cases, inl, inr, All, Result, ok,
  ◌>>=◌, >>=-eq-ok, ok-injective,
}
use mathlib.Core.List.{append_assoc, append-nil}
use vibe_pio.Optimize.Candidate.{Candidate}
use vibe_pio.Optimize.Search.{Key, key, Work, offer_all, Outcome, finished, out_of_fuel, closure}
use vibe_pio.Optimize.Laws.Keys.{All-append}
use vibe_pio.Optimize.Laws.Sweep.{
  Derived, rewritten, All-members, Known, IsWork, IsSwept, offer_all-IsSwept,
}

pub List-cases {ℓ} :
    {A : Type ℓ} (xs : List A) → (xs ≡ []) ⊎ ((x : A) × (rest : List A) × (xs ≡ x ∷ rest))
List-cases [] = inl refl
List-cases (x ∷ xs) = inr (x, xs, refl)

All-right {ℓ κ} : {A : Type ℓ} (P : A → Type κ) (xs ys : List A) → All P (xs ++ ys) → All P ys
All-right P [] ys h = h
All-right P (x ∷ xs) ys h = All-right P xs ys h.1

All-map {ℓ κ} :
    {A : Type ℓ} {P Q : A → Type κ} (xs : List A) → ((x : A) → P x → Q x) → All P xs → All Q xs
All-map [] f h = tt
All-map (x ∷ xs) f h = (f x h.0, All-map xs f h.1)

-- All that the rewrites make of the candidate is seen.
abbrev pub Explored : (Candidate → Result (List Candidate)) → List Key → Candidate → Type 0
Explored rewrites seen c = (found : List Candidate) → rewrites c ≡ ok found → All (Known seen) found

module _ (rewrites : Candidate → Result (List Candidate)) (root : Candidate) (cap : ℕ) where
  abbrev Invariant : List Candidate → Work → Type 0
  Invariant = IsWork (Derived rewrites root) cap

  -- The work of a loop that returned, and its flag.
  pub record IsClosed (t : Work) (capped : Bool) : Type 0 where
    pub expanded : List Candidate
    pub kept : IsWork (Derived rewrites root) cap expanded t
    pub explored : capped ≡ false → All (Explored rewrites t.seen) t.states

  abbrev Closes : Outcome → Type 0
  Closes (finished t capped) = IsClosed t capped
  Closes out_of_fuel = Unit {0}

  at_end :
      (expanded : List Candidate) (s : Work) {t : Work} {capped : Bool}
      → s.frontier ≡ []
      → Invariant expanded s
      → All (Explored rewrites s.seen) expanded
      → ok (finished s false) ≡ ok (finished t capped)
      → IsClosed t capped
  at_end expanded s {t} {capped} empty w e h =
      let states : s.states ≡ expanded =
        w.split ∙ ap (λ l. expanded ++ l) empty ∙ append-nil expanded in
      let final : IsClosed s false = record {
        expanded = expanded;
        kept = w;
        explored = λ _. subst (All (Explored rewrites s.seen)) (sym states) e;
      } in
      subst Closes (ok-injective h) final

  -- The state of the loop behind the pop of `cur`.
  popped :
      (expanded : List Candidate) (s : Work) (cur : Candidate) (rest : List Candidate)
      → s.frontier ≡ cur ∷ rest
      → Invariant expanded s
      → Invariant (expanded ++ cur ∷ []) (record s { frontier = rest })
  popped expanded s cur rest e w = record {
    split = w.split ∙ ap (λ l. expanded ++ l) e ∙ sym (append_assoc expanded (cur ∷ []) rest);
    keys = w.keys;
    distinct = w.distinct;
    derived = w.derived;
    bound = w.bound;
  }

  cur-Derived :
      (expanded : List Candidate) (s : Work) (cur : Candidate) (rest : List Candidate)
      → s.frontier ≡ cur ∷ rest
      → Invariant expanded s
      → Derived rewrites root cur
  cur-Derived expanded s cur rest e w =
      (subst (All (Derived rewrites root)) e (
        All-right (Derived rewrites root) expanded s.frontier
          (subst (All (Derived rewrites root)) w.split w.derived))).0

  round :
      (expanded : List Candidate) (s : Work) (cur : Candidate) (rest found : List Candidate)
      → s.frontier ≡ cur ∷ rest
      → rewrites cur ≡ ok found
      → Invariant expanded s
      → IsSwept
          (Derived rewrites root)
          cap
          (expanded ++ cur ∷ [])
          found
          (record s { frontier = rest })
          (offer_all cap (record s { frontier = rest }) found)
  round expanded s cur rest found e calls w =
      offer_all-IsSwept (Derived rewrites root) cap (expanded ++ cur ∷ []) found
        (record s { frontier = rest }) (popped expanded s cur rest e w)
        (All-members (Derived rewrites root) found
          (λ c m. rewritten found (cur-Derived expanded s cur rest e w) calls m))

  -- The loop behind the round that left `r`.
  abbrev after_round : ℕ → Work × Bool → Result Outcome
  after_round fuel r = if r.1 then ok (finished r.0 true) else closure rewrites cap fuel r.0

  closure-empty :
      (fuel : ℕ) (s : Work) → s.frontier ≡ [] → closure rewrites cap fuel s ≡ ok (finished s false)
  unfolding closure
  closure-empty zero s e = simp (e, closure)
  closure-empty (suc fuel) s e = simp (e, closure)

  closure-round :
      (fuel : ℕ) (s : Work) (cur : Candidate) (rest : List Candidate)
      → s.frontier ≡ cur ∷ rest
      → closure rewrites cap (suc fuel) s ≡ (
          rewrites cur >>= λ found.
          after_round fuel (offer_all cap (record s { frontier = rest }) found))
  unfolding closure
  closure-round fuel s cur rest e = simp (e, closure)

  closure-stuck :
      (s : Work) (cur : Candidate) (rest : List Candidate)
      → s.frontier ≡ cur ∷ rest
      → closure rewrites cap 0 s ≡ ok out_of_fuel
  unfolding closure
  closure-stuck s cur rest e = simp (e, closure)

  tripped_end :
      (expanded found : List Candidate) (s : Work) (r : Work × Bool) {t : Work} {capped : Bool}
      → IsSwept (Derived rewrites root) cap expanded found s r
      → ok (finished r.0 true) ≡ ok (finished t capped)
      → IsClosed t capped
  tripped_end expanded found s r swept h =
      let final : IsClosed r.0 true = record {
        expanded = expanded;
        kept = swept.kept;
        explored = λ no. cc;
      } in
      subst Closes (ok-injective h) final

  -- The candidates that were explored stay so.
  still-Explored :
      (expanded : List Candidate) (s : Work) (cur : Candidate) (rest found : List Candidate)
      (r : Work × Bool)
      → rewrites cur ≡ ok found
      → IsSwept
          (Derived rewrites root)
          cap
          (expanded ++ cur ∷ [])
          found
          (record s { frontier = rest })
          r
      → All (Explored rewrites s.seen) expanded
      → r.1 ≡ false
      → All (Explored rewrites r.0.seen) (expanded ++ cur ∷ [])
  still-Explored expanded s cur rest found r calls swept e going =
      All-append (Explored rewrites r.0.seen) expanded (cur ∷ [])
        (All-map expanded
          (λ c ex fs called. All-map fs (λ n k. swept.more (key n) k) (ex fs called)) e)
        (
          λ fs called.
              subst (All (Known r.0.seen)) (ok-injective (sym calls ∙ called)) (swept.known going),
          tt,
        )

  pub closure-IsClosed :
      (fuel : ℕ) (expanded : List Candidate) (s : Work) {t : Work} {capped : Bool}
      → Invariant expanded s
      → All (Explored rewrites s.seen) expanded
      → closure rewrites cap fuel s ≡ ok (finished t capped)
      → IsClosed t capped
  closure-IsClosed zero expanded s w e h = elim (List-cases s.frontier) [
    | inl empty ↦ at_end expanded s empty w e (sym (closure-empty 0 s empty) ∙ h)
    | inr (cur, rest, more) ↦ absurd (returned (sym (closure-stuck s cur rest more) ∙ h))
  ]
    where
      returned : {t : Work} {capped : Bool} → ok out_of_fuel ≡ ok (finished t capped) → ⊥
      returned h = cc
  closure-IsClosed (suc fuel) expanded s {t} {capped} w e h = elim (List-cases s.frontier) [
    | inl empty ↦ at_end expanded s empty w e (sym (closure-empty (suc fuel) s empty) ∙ h)
    | inr (cur, rest, more) ↦
        let (found, calls, h') =
          >>=-eq-ok (rewrites cur)
            (λ found. after_round fuel (offer_all cap (record s { frontier = rest }) found))
            (sym (closure-round fuel s cur rest more) ∙ h) in
        let swept = round expanded s cur rest found more calls w in
        let r = offer_all cap (record s { frontier = rest }) found in
        elim (Bool-cases r.1) [
          | inl tripped ↦
              tripped_end (expanded ++ cur ∷ []) found (record s { frontier = rest }) r swept
                (rw tripped at h')
          | inr going ↦
              closure-IsClosed fuel (expanded ++ cur ∷ []) r.0 swept.kept
                (still-Explored expanded s cur rest found r calls swept e going) (rw going at h')
        ]
  ]

  -- The loop ends within the fuel: every round explores one more state.
  pub closure-returns :
      (fuel : ℕ) (expanded : List Candidate) (s : Work)
      → Invariant expanded s
      → max 1 cap ≤ fuel + length expanded
      → closure rewrites cap fuel s ≢ ok out_of_fuel
  closure-returns zero expanded s w enough h = elim (List-cases s.frontier) [
    | inl empty ↦ finished_only (sym (closure-empty 0 s empty) ∙ h)
    | inr (cur, rest, more) ↦
        omega (arith, w.bound, ap length w.split, length-append expanded s.frontier, ap length more)
  ]
    where
      finished_only : {t : Work} {capped : Bool} → ok (finished t capped) ≡ ok out_of_fuel → ⊥
      finished_only h = cc
  closure-returns (suc fuel) expanded s w enough h = elim (List-cases s.frontier) [
    | inl empty ↦ finished_only (sym (closure-empty (suc fuel) s empty) ∙ h)
    | inr (cur, rest, more) ↦
        let next = record s { frontier = rest } in
        let (found, calls, h') =
          >>=-eq-ok (rewrites cur) (λ found. after_round fuel (offer_all cap next found))
            (sym (closure-round fuel s cur rest more) ∙ h) in
        let swept = round expanded s cur rest found more calls w in
        let r = offer_all cap next found in
        elim (Bool-cases r.1) [
          | inl tripped ↦ finished_only (rw tripped at h')
          | inr going ↦
              closure-returns fuel (expanded ++ cur ∷ []) r.0 swept.kept
                (omega (arith, length-append expanded (cur ∷ []))) (rw going at h')
        ]
  ]
    where
      finished_only : {t : Work} {capped : Bool} → ok (finished t capped) ≡ ok out_of_fuel → ⊥
      finished_only h = cc
