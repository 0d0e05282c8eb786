-- ===== src/Optimize/Laws/Search.antt =====
-- What `search` returns.
use vibe_pio.Base.{
  length-snoc, ℕ, zero, suc, ◌+◌, ◌≤◌, ◌<◌, ◌≡◌, ◌≢◌, ◌∙◌, refl, sym, ap, subst, arith, max, Bool,
  true, false, not, ◌&&◌, ◌==◌, leb, List, [], ◌∷◌, ◌++◌, map, map-append, length, get_or,
  Bool-cases, inl, inr, All, Result, ok, >>=-eq-ok, ok-injective, Option, none, some,
}
use vibe_pio.Optimize.Candidate.{Candidate, SeedCtx}
use vibe_pio.Optimize.Search.{
  Key, key, has_key, Work, Outcome, finished, out_of_fuel, closure, unseen, Walk, noted_state, walk,
  walks, SearchOpts, applicable, initial, start, finish, search,
}
use vibe_pio.Optimize.Laws.Keys.{Distinct, Distinct-append, All-append}
use vibe_pio.Optimize.Laws.Sweep.{Derived, seed, rewritten, All-members, IsWork}
use vibe_pio.Optimize.Laws.Closure.{
  List-cases, Explored, IsClosed, closure-IsClosed, closure-returns,
}

-- The seen keys are the states', none twice, and the states are derived.
record IsNoted (P : Candidate → Type 0) (limit : ℕ) (s : Work) : Type 0 where
  keys : s.seen ≡ map key s.states
  distinct : Distinct s.seen
  derived : All P s.states
  bound : length s.states ≤ max 1 limit

-- What `rng.choice` promises: an index of the list.
abbrev pub Draws : (ℕ → ℕ → ℕ) → Type 0
Draws draw = (n len : ℕ) → 0 < len → draw n len < len

-- A candidate that is derived and whose key is new.
abbrev IsFresh : (Candidate → Type 0) → List Key → Candidate → Type 0
IsFresh P seen c = P c × (has_key (key c) seen ≡ false)

unseen-IsFresh :
    (P : Candidate → Type 0) (seen : List Key) (cs : List Candidate)
    → All P cs
    → All (IsFresh P seen) (unseen seen cs)
unfolding unseen
unseen-IsFresh P seen [] p = tt
unseen-IsFresh P seen (c ∷ cs) p = elim (Bool-cases (has_key (key c) seen)) [
  | inl old ↦ rw old (unseen-IsFresh P seen cs p.1)
  | inr new ↦ rw new ((p.0, new), unseen-IsFresh P seen cs p.1)
]

-- An index in range reads an element of the list.
drawn {ℓ κ} :
    {A : Type ℓ} (P : A → Type κ) (xs : List A) (i : ℕ) (d : A)
    → i < length xs
    → All P xs
    → P (get_or xs i d)
drawn P [] i d h p = absurd (omega arith)
drawn P (x ∷ xs) zero d h p = p.0
drawn P (x ∷ xs) (suc i) d h p = drawn P xs i d (omega arith) p.1

module _ (draw : ℕ → ℕ → ℕ) (draws : Draws draw) (rewrites : Candidate → Result (List Candidate))
    (root : Candidate) (limit : ℕ) where
  abbrev P : Candidate → Type 0
  P = Derived rewrites root

  noted_state-IsNoted :
      (s : Work) (c : Candidate)
      → IsFresh P s.seen c
      → length s.states < limit
      → IsNoted P limit s
      → IsNoted P limit (noted_state s c)
  noted_state-IsNoted s c fresh room n = record {
    keys = ap (λ l. l ++ key c ∷ []) n.keys ∙ sym (map-append key s.states (c ∷ []));
    distinct = Distinct-append (key c) s.seen fresh.1 n.distinct;
    derived = All-append P s.states (c ∷ []) n.derived (fresh.0, tt);
    bound = omega (arith, length-snoc s.states c);
  }

  walk-IsNoted :
      (rounds : ℕ) (cur : Candidate) (v : Walk) {v' : Walk}
      → P cur
      → IsNoted P limit v.work
      → walk draw rewrites limit rounds cur v ≡ ok v'
      → IsNoted P limit v'.work
  unfolding walk
  walk-IsNoted zero cur v p n h = subst (λ (u : Walk). IsNoted P limit u.work) (ok-injective h) n
  walk-IsNoted (suc rounds) cur v p n h =
      let (found, calls, h') = >>=-eq-ok (rewrites cur) _ h in
      let fresh = unseen v.work.seen found in
      let candidates =
        unseen-IsFresh P v.work.seen found
          (All-members P found (λ c m. rewritten found p calls m)) in
      elim (List-cases fresh) [
        | inl none_left ↦
            subst (λ (u : Walk). IsNoted P limit u.work) (ok-injective (rw none_left at h')) n
        | inr (c, cs, e) ↦ elim (Bool-cases (leb limit (length v.work.states))) [
          | inl full ↦
              subst (λ (u : Walk). IsNoted P limit u.work) (ok-injective (rw (e, full) at h')) n
          | inr room ↦
              let next = get_or (c ∷ cs) (draw v.draws (length (c ∷ cs))) cur in
              let good : IsFresh P v.work.seen next =
                drawn (IsFresh P v.work.seen) (c ∷ cs) (draw v.draws (length (c ∷ cs))) cur
                  (draws v.draws (length (c ∷ cs)) (omega arith))
                  (subst (All (IsFresh P v.work.seen)) e candidates) in
              walk-IsNoted rounds next
                (record { work = noted_state v.work next; draws = v.draws + 1 }) good.0
                (noted_state-IsNoted v.work next good (ground arith) n) (rw (e, room) at h')
        ]
      ]

  walks-IsNoted :
      (tries : ℕ) (c : Candidate) (v : Walk) {v' : Walk}
      → P c
      → IsNoted P limit v.work
      → walks draw rewrites limit tries c v ≡ ok v'
      → IsNoted P limit v'.work
  unfolding walks
  walks-IsNoted zero c v p n h = subst (λ (u : Walk). IsNoted P limit u.work) (ok-injective h) n
  walks-IsNoted (suc tries) c v p n h =
      let (u, walked, h') = >>=-eq-ok (walk draw rewrites limit 8 c v) _ h in
      walks-IsNoted tries c u p (walk-IsNoted 8 c v p n walked) h'

module _ (ctx : SeedCtx) (opts : SearchOpts) where
  -- The rewrites that the options allow.
  abbrev pub Reachable : Candidate → Type 0
  Reachable = Derived (applicable ctx opts) (start ctx)

  initial-IsWork : IsWork Reachable opts.max_states [] (initial (start ctx))
  unfolding has_key
  initial-IsWork = record {
    split = refl;
    keys = refl;
    distinct = (refl, tt);
    derived = (seed, tt);
    bound = omega arith;
  }

  -- The walks of the search.
  abbrev walked : (ℕ → ℕ → ℕ) → Work → Result Walk
  walked draw s =
      walks draw (applicable ctx opts) (opts.max_states + opts.tries) opts.tries (start ctx)
        (record { work = s; draws = 0 })

  finish-some :
      (draw : ℕ → ℕ → ℕ) (out : Outcome) → out ≢ out_of_fuel → finish draw ctx opts out ≢ ok none
  unfolding finish
  finish-some draw out_of_fuel n h = n refl
  finish-some draw (finished s capped) n h = elim (Bool-cases (capped && not (opts.tries == 0))) [
    | inl past ↦
        let (v, _, h') = >>=-eq-ok (walked draw s) _ (rw past at h) in no_result (ok-injective h')
    | inr whole ↦ no_result (ok-injective (rw whole at h))
  ]
    where
      no_result : {r : List Candidate × Bool} → some r ≡ none → ⊥
      no_result h = cc

  -- The breadth-first loop of search never runs out of its fuel max_states + 1, whatever rounds
  -- its rewrites give: no search ends without a result or an error.
  pub search_terminates : (draw : ℕ → ℕ → ℕ) → search draw ctx opts ≢ ok none
  unfolding search
  search_terminates draw h =
      let fuel = suc opts.max_states in
      let first = initial (start ctx) in
      let (out, loop, h') =
        >>=-eq-ok (closure (applicable ctx opts) opts.max_states fuel first) _ h in
      finish-some draw out
        (λ empty.
          closure-returns (applicable ctx opts) (start ctx) opts.max_states fuel [] first
            initial-IsWork (omega arith) (loop ∙ ap ok empty))
        h'

  -- What the search promises of the states and the flag that it returns.
  pub record IsFound (states : List Candidate) (capped : Bool) : Type 0 where
    pub distinct : Distinct (map key states)
    pub reachable : All Reachable states
    pub bound : length states ≤ max 1 (opts.max_states + opts.tries)
    pub explored : capped ≡ false → All (Explored (applicable ctx opts) (map key states)) states

  abbrev Promised : Option (List Candidate × Bool) → Type 0
  Promised none = Unit {0}
  Promised (some (states, capped)) = IsFound states capped

  of_walks : (s : Work) → IsNoted Reachable (opts.max_states + opts.tries) s → IsFound s.states true
  of_walks s n = record {
    distinct = subst Distinct n.keys n.distinct;
    reachable = n.derived;
    bound = n.bound;
    explored = λ no. cc;
  }

  of_closure :
      (s : Work) (capped : Bool)
      → IsClosed (applicable ctx opts) (start ctx) opts.max_states s capped
      → IsFound s.states capped
  of_closure s capped c = record {
    distinct = subst Distinct c.kept.keys c.kept.distinct;
    reachable = c.kept.derived;
    bound = omega (arith, c.kept.bound);
    explored = λ e.
        subst (λ (seen : List Key). All (Explored (applicable ctx opts) seen) s.states) c.kept.keys
          (c.explored e);
  }

  finish-Promised :
      (draw : ℕ → ℕ → ℕ) (s : Work) (capped : Bool) {result : Option (List Candidate × Bool)}
      → Draws draw
      → IsClosed (applicable ctx opts) (start ctx) opts.max_states s capped
      → finish draw ctx opts (finished s capped) ≡ ok result
      → Promised result
  unfolding finish
  finish-Promised draw s true draws c h =
      let first : IsNoted Reachable (opts.max_states + opts.tries) s = record {
        keys = c.kept.keys;
        distinct = c.kept.distinct;
        derived = c.kept.derived;
        bound = omega (arith, c.kept.bound);
      } in
      elim (Bool-cases (opts.tries == 0)) [
        | inl none_tried ↦ subst Promised (ok-injective (rw none_tried at h)) (of_walks s first)
        | inr tried ↦
            let (v, e, h') = >>=-eq-ok (walked draw s) _ (rw tried at h) in
            subst Promised (ok-injective h') (
              of_walks v.work (
                walks-IsNoted draw draws (applicable ctx opts) (start ctx)
                  (opts.max_states + opts.tries) opts.tries (start ctx)
                  (record { work = s; draws = 0 }) seed first e))
      ]
  finish-Promised draw s false draws c h = subst Promised (ok-injective h) (of_closure s false c)

  -- With a generator that draws an index of the list it is given, the states that search returns
  -- have no key twice, are each reached from the seed by applicable rewrites, and number at most
  -- max_states + tries, or 1 where that is 0; with no cap tripped, all that the rewrites make of
  -- any of them has the key of one of them.
  pub search-IsFound :
      (draw : ℕ → ℕ → ℕ) {states : List Candidate} {capped : Bool}
      → Draws draw
      → search draw ctx opts ≡ ok (some (states, capped))
      → IsFound states capped
  unfolding search
  search-IsFound draw {states} {capped} draws h =
      let fuel = suc opts.max_states in
      let first = initial (start ctx) in
      let (out, loop, h') =
        >>=-eq-ok (closure (applicable ctx opts) opts.max_states fuel first) _ h in
      of_outcome out loop h'
    where
      of_outcome :
          (out : Outcome)
          → closure
              (applicable ctx opts)
              opts.max_states
              (suc opts.max_states)
              (initial (start ctx))
            ≡ ok out
          → finish draw ctx opts out ≡ ok (some (states, capped))
          → IsFound states capped
      of_outcome out_of_fuel loop h = absurd (
          closure-returns (applicable ctx opts) (start ctx) opts.max_states (suc opts.max_states) []
            (initial (start ctx)) initial-IsWork (omega arith) loop)
      of_outcome (finished s tripped) loop h =
          finish-Promised draw s tripped draws
            (closure-IsClosed (applicable ctx opts) (start ctx) opts.max_states
              (suc opts.max_states) [] (initial (start ctx)) initial-IsWork tt loop)
            h
