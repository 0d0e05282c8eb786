-- ===== src/Optimize/Search.antt =====
-- The catalog and `search` of tools/hyperopt.py: the breadth-first closure under the rewrites, up
-- to a number of states, and the random walks past it. Python's generator is a parameter `draw`:
-- the index that `rng.choice` takes at its n-th call among so many candidates.
use vibe_pio.Base.{
  ℕ, zero, suc, ◌+◌, ◌==◌, ◌&&◌, ◌||◌, not, Bool, true, false, leb, List, [], ◌∷◌, ◌++◌, length,
  get_or, Option, none, some, if◌then◌else◌, Result, ok, ◌>>=◌,
}
use Prim.Native.String.{String}
use vibe_pio.Optimize.Candidate.{Candidate, SeedCtx}
use vibe_pio.Optimize.Rewrites.{rw_fold_tick, rw_wrap_fold, rw_wrap_speed, rw_dce}
use vibe_pio.Optimize.NotFold.{rw_mov_not_fold}
use vibe_pio.Optimize.Stalls.{rw_delay_absorb}

pub data Tag : Type 0 where
  trace_eq spec_only : Tag

-- The configuration overlay that a rewrite needs.
pub data Needs : Type 0 where
  no_overlay execctrl pinctrl shiftctrl : Needs

-- An entry without its citations.
pub record Rewrite : Type 0 where
  pub name : String
  pub tag : Tag
  pub needs : Needs
  pub apply : SeedCtx → Candidate → Result (List Candidate)

abbrev pub rw_sideset_fuse : SeedCtx → Candidate → Result (List Candidate)
rw_sideset_fuse ctx cand = ok []

abbrev pub rw_autopull : SeedCtx → Candidate → Result (List Candidate)
rw_autopull ctx cand = ok []

unfoldable pub catalog : List Rewrite
catalog =
    record { name = "fold_tick"; tag = trace_eq; needs = no_overlay; apply = rw_fold_tick }
    ∷ record { name = "wrap_fold"; tag = trace_eq; needs = execctrl; apply = rw_wrap_fold }
    ∷ record { name = "mov_not_fold"; tag = trace_eq; needs = no_overlay; apply = rw_mov_not_fold }
    ∷ record { name = "dce"; tag = trace_eq; needs = no_overlay; apply = rw_dce }
    ∷ record { name = "wrap_speed"; tag = spec_only; needs = execctrl; apply = rw_wrap_speed }
    ∷ record { name = "delay_absorb"; tag = spec_only; needs = no_overlay; apply = rw_delay_absorb }
    ∷ record { name = "sideset_fuse"; tag = spec_only; needs = pinctrl; apply = rw_sideset_fuse }
    ∷ record { name = "autopull"; tag = spec_only; needs = shiftctrl; apply = rw_autopull }
    ∷ []

-- Its seed of the generator is in the parameter `draw`.
pub record SearchOpts : Type 0 where
  pub include_spec : Bool
  pub max_states : ℕ
  pub tries : ℕ

-- The two tests that skip an entry.
abbrev pub is_searched : Bool → Tag → Needs → Bool
is_searched include_spec trace_eq no_overlay = true
is_searched include_spec trace_eq execctrl = true
is_searched include_spec spec_only no_overlay = include_spec
is_searched include_spec spec_only execctrl = include_spec
is_searched include_spec _ pinctrl = false
is_searched include_spec _ shiftctrl = false

unfoldable pub apply_all : SeedCtx → Candidate → Bool → List Rewrite → Result (List Candidate)
apply_all ctx cand include_spec [] = ok []
apply_all ctx cand include_spec (rw ∷ rws) = do
  here ← if is_searched include_spec rw.tag rw.needs then rw.apply ctx cand else ok []
  later ← apply_all ctx cand include_spec rws
  ok (here ++ later)

unfoldable pub applicable : SeedCtx → SearchOpts → Candidate → Result (List Candidate)
applicable ctx opts cand = apply_all ctx cand opts.include_spec catalog

abbrev pub Key : Type 0
Key = List ℕ × ℕ

abbrev pub key : Candidate → Key
key cand = (cand.words, cand.execctrl)

unfoldable pub words_eq : List ℕ → List ℕ → Bool
words_eq [] [] = true
words_eq (x ∷ xs) (y ∷ ys) = (x == y) && words_eq xs ys
words_eq [] (y ∷ ys) = false
words_eq (x ∷ xs) [] = false

unfoldable pub key_eq : Key → Key → Bool
key_eq (words, ec) (words', ec') = words_eq words words' && (ec == ec')

unfoldable pub has_key : Key → List Key → Bool
has_key k [] = false
has_key k (j ∷ js) = key_eq k j || has_key k js

-- `seen`, in the order of its insertions, `states` and `frontier`.
pub record Work : Type 0 where
  pub seen : List Key
  pub states : List Candidate
  pub frontier : List Candidate

-- The three updates for a new candidate.
abbrev pub added : Work → Candidate → Work
added s c = record {
  seen = s.seen ++ key c ∷ [];
  states = s.states ++ c ∷ [];
  frontier = s.frontier ++ c ∷ [];
}

-- The body of the `for` loop goes on over the rest, unless the cap trips.
unfoldable pub offer_all : ℕ → Work → List Candidate → Work × Bool
offer_all cap s [] = (s, false)
offer_all cap s (c ∷ cs) =
    let known = has_key (key c) s.seen in
    let later = offer_all cap (if known then s else added s c) cs in
    if not known && leb cap (length s.states) then (s, true) else later

pub data Outcome : Type 0 where
  finished : Work → Bool → Outcome
  out_of_fuel : Outcome

module _ (rewrites : Candidate → Result (List Candidate)) (cap : ℕ) where
  unfoldable pub closure : ℕ → Work → Result Outcome
  closure zero s = elim s.frontier [ [] ↦ ok (finished s false) | _ ∷ _ ↦ ok out_of_fuel ]
  closure (suc fuel) s = elim s.frontier [
    | [] ↦ ok (finished s false)
    | cur ∷ rest ↦ do
      found ← rewrites cur
      let (s', capped) = offer_all cap (record s { frontier = rest }) found
      let later = closure fuel s'
      if capped then ok (finished s' true) else later
  ]

-- `_cand(ctx.words, ctx.execctrl, tuple(range(len(ctx.words))), ())`
unfoldable pub range_from : ℕ → ℕ → List (Option ℕ)
range_from i zero = []
range_from i (suc n) = some i ∷ range_from (i + 1) n

unfoldable pub start : SeedCtx → Candidate
start ctx = record {
  words = ctx.words;
  execctrl = ctx.execctrl;
  reloc = range_from 0 (length ctx.words);
  trail = [];
}

abbrev pub initial : Candidate → Work
initial c = record { seen = key c ∷ []; states = c ∷ []; frontier = c ∷ [] }

-- The candidates of `nxts` that are not seen.
unfoldable pub unseen : List Key → List Candidate → List Candidate
unseen seen [] = []
unseen seen (c ∷ cs) = if has_key (key c) seen then unseen seen cs else c ∷ unseen seen cs

-- The states of the walks, with the number of draws so far.
pub record Walk : Type 0 where
  pub work : Work
  pub draws : ℕ

-- `seen.add(_key(cur))` and `states.append(cur)`
abbrev pub noted_state : Work → Candidate → Work
noted_state s c = record s { seen = s.seen ++ key c ∷ []; states = s.states ++ c ∷ [] }

-- The two `break`s of a round: nothing is left to draw from, or the walks' limit is met.
abbrev pub go_on : List Candidate → Bool → Walk → Walk → Result Walk → Result Walk
go_on [] full v drawn later = ok v
go_on (_ ∷ _) full v drawn later = if full then ok drawn else later

module _ (draw : ℕ → ℕ → ℕ) (rewrites : Candidate → Result (List Candidate)) (limit : ℕ) where
  -- The rounds of one walk from `cur`.
  unfoldable pub walk : ℕ → Candidate → Walk → Result Walk
  walk zero cur v = ok v
  walk (suc rounds) cur v = do
    found ← rewrites cur
    let fresh = unseen v.work.seen found
    let next = get_or fresh (draw v.draws (length fresh)) cur
    let drawn = record v { draws = v.draws + 1 }
    let later = walk rounds next (record drawn { work = noted_state v.work next })
    go_on fresh (leb limit (length v.work.states)) v drawn later

  unfoldable pub walks : ℕ → Candidate → Walk → Result Walk
  walks zero c v = ok v
  walks (suc tries) c v = do v' ← walk 8 c v; walks tries c v'

-- `(states, capped)`, or nothing on too little fuel.
unfoldable pub finish :
    (ℕ → ℕ → ℕ) → SeedCtx → SearchOpts → Outcome → Result (Option (List Candidate × Bool))
finish draw ctx opts out_of_fuel = ok none
finish draw ctx opts (finished s capped) =
    let past : Result (Option (List Candidate × Bool)) = (do
      v ←
          walks draw (applicable ctx opts) (opts.max_states + opts.tries) opts.tries (start ctx)
            (record { work = s; draws = 0 })
      ok (some (v.work.states, capped))) in
    if capped && not (opts.tries == 0) then past else ok (some (s.states, capped))

-- The `while` loop on the fuel `max_states + 1`.
unfoldable pub search : (ℕ → ℕ → ℕ) → SeedCtx → SearchOpts → Result (Option (List Candidate × Bool))
search draw ctx opts = do
  out ← closure (applicable ctx opts) opts.max_states (suc opts.max_states) (initial (start ctx))
  finish draw ctx opts out
