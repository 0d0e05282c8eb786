-- ===== src/Equiv/Laws/Same.antt =====
-- A program in lockstep with itself.
use vibe_pio.Base.{
  ℕ, zero, suc, ◌+◌, ◌*◌, ◌≤◌, ◌≡◌, ◌∙◌, refl, sym, ap, ap₂, subst, List, [], ◌∷◌, ◌++◌, none, ok,
  >>=-eq-ok, ok-injective,
}
use vibe_pio.Model.Block.Registers.{Block}
use vibe_pio.Trace.Format.{Rec, normalize}
use vibe_pio.Stim.Addresses.{a_imem0, a_sm0, a_ctrl}
use vibe_pio.Equiv.Pair.{ProgPair, ec_b, ec_mask, prog_len, word_at}
use vibe_pio.Equiv.Lockstep.{
  FreeStim, Lock, step_rec, both, write_stim, load_pair, free_phase, start_lock, run_pair_models,
}
use vibe_pio.Equiv.Divergence.{rounds_from, prefilter}
use vibe_pio.Equiv.Stimulus.{Rng, random_free_stimulus}
use vibe_pio.Equiv.Laws.Completes.{run_pair_models-completes}
use vibe_pio.Equiv.Laws.Traffic.{random_free_stimulus-legal}
use vibe_pio.Equiv.Laws.First.{decode_first_divergence-none}

-- The two sides agree.
record IsTwin (l : Lock) : Type 0 where
  models : l.ma ≡ l.mb
  recs : l.recs_a ≡ l.recs_b

both-IsTwin :
    (l : Lock) (sa sb : FreeStim) {l' : Lock}
    → sa ≡ sb
    → IsTwin l
    → both l sa sb ≡ ok l'
    → IsTwin l'
unfolding both
both-IsTwin l sa sb e t h =
    let (a, ra, h1) = >>=-eq-ok (step_rec l.ma l.clk sa) _ h in
    let (b, rb, h2) = >>=-eq-ok (step_rec l.mb l.clk sb) _ h1 in
    let same : a ≡ b =
      ok-injective (sym ra ∙ ap₂ (λ (m : Block) s. step_rec m l.clk s) t.models e ∙ rb) in
    subst IsTwin (ok-injective h2) (record {
      models = ap (λ (p : Block × List Rec). p.0) same;
      recs = ap₂ (λ (xs : List Rec) (p : Block × List Rec). xs ++ p.1) t.recs same;
    })

module _ (pair : ProgPair) (words : pair.words_a ≡ pair.words_b)
    (ec : pair.execctrl ≡ ec_b pair) where
  load_pair-IsTwin :
      (left i : ℕ) (l : Lock) {l' : Lock} → IsTwin l → load_pair pair left i l ≡ ok l' → IsTwin l'
  unfolding load_pair
  load_pair-IsTwin zero i l t h = subst IsTwin (ok-injective h) t
  load_pair-IsTwin (suc left) i l t h =
      let (next, e, h') =
        >>=-eq-ok
          (both l (write_stim (a_imem0 + 4 * i) (word_at pair.words_a i))
            (write_stim (a_imem0 + 4 * i) (word_at pair.words_b i)))
          _ h in
      load_pair-IsTwin left (i + 1) next
        (both-IsTwin l _ _ (ap (λ (ws : List ℕ). write_stim (a_imem0 + 4 * i) (word_at ws i)) words)
          t e)
        h'

  free_phase-IsTwin :
      (sts : List FreeStim) (l : Lock) {l' : Lock} → IsTwin l → free_phase sts l ≡ ok l' → IsTwin l'
  unfolding free_phase
  free_phase-IsTwin [] l t h = subst IsTwin (ok-injective h) t
  free_phase-IsTwin (st ∷ sts) l t h =
      let (next, e, h') = >>=-eq-ok (both l st st) _ h in
      free_phase-IsTwin sts next (both-IsTwin l st st refl t e) h'

  run_pair_models-IsTwin :
      (free : List FreeStim) {l : Lock} → run_pair_models pair free ≡ ok l → IsTwin l
  unfolding run_pair_models
  run_pair_models-IsTwin free h =
      let (loaded, e1, h1) = >>=-eq-ok (load_pair pair (prog_len pair) 0 start_lock) _ h in
      let (configured, e2, h2) =
        >>=-eq-ok
          (both loaded (write_stim (a_sm0 + 4 * 1) pair.execctrl)
            (write_stim (a_sm0 + 4 * 1) (ec_b pair)))
          _ h1 in
      let (enabled, e3, h3) =
        >>=-eq-ok (both configured (write_stim a_ctrl 1) (write_stim a_ctrl 1)) _ h2 in
      let first =
        load_pair-IsTwin (prog_len pair) 0 start_lock (record { models = refl; recs = refl }) e1 in
      let second = both-IsTwin loaded _ _ (ap (write_stim (a_sm0 + 4 * 1)) ec) first e2 in
      free_phase-IsTwin free enabled (both-IsTwin configured _ _ refl second e3) h3

  rounds-none :
      (rngs : ℕ → Rng) (n seed left r : ℕ)
      → prog_len pair ≤ 32
      → rounds_from pair rngs n seed left r ≡ ok none
  unfolding rounds_from
  rounds-none rngs n seed zero r room = refl
  rounds-none rngs n seed (suc left) r room =
      let free = random_free_stimulus (rngs (seed * 1000 + r)) n in
      let legal = random_free_stimulus-legal (rngs (seed * 1000 + r)) n in
      let (l, e) = run_pair_models-completes pair free room legal.0 in
      let twin = run_pair_models-IsTwin free e in
      let equal =
        (decode_first_divergence-none l.recs_a l.recs_b l.pcs (ec_mask pair)).1
          (ap (λ (recs : List Rec). normalize recs (ec_mask pair)) twin.recs) in
      rw e (rw equal (rounds-none rngs n seed left (r + 1) room))

-- For two sides with the same words, at most 32, and the same EXECCTRL, the filter completes and
-- finds no divergence, whatever the horizon, the number of rounds, the seed and the random
-- generator.
pub prefilter_same :
    (pair : ProgPair) (rngs : ℕ → Rng) (horizon rounds seed : ℕ)
    → pair.words_a ≡ pair.words_b
    → pair.execctrl ≡ ec_b pair
    → prog_len pair ≤ 32
    → prefilter pair rngs horizon rounds seed ≡ ok none
unfolding prefilter
prefilter_same pair rngs horizon rounds seed words ec room =
    rounds-none pair words ec rngs _ seed rounds 0 room
