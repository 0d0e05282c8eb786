-- ===== src/Optimize/Pareto.antt =====
-- The screening and the choice among searched candidates of tools/hyperopt.py: `trace_period`,
-- `rebuild_schedule`, `screen`, `evaluate` and `pareto_front`.
use vibe_pio.Base.{
  ℕ, zero, suc, ◌+◌, ◌-◌, ◌*◌, ◌/◌, ◌==◌, ◌&&◌, ◌||◌, not, Bool, true, false, ltb, leb, low_bits,
  List, [], ◌∷◌, map, length, get_or, Option, none, some, if◌then◌else◌, Result, ok, ◌>>=◌,
}
use vibe_pio.Model.Slice.{no_mutations}
use vibe_pio.Trace.Format.{Rec, observed, read, Mismatch, compare}
use vibe_pio.Stim.Addresses.{a_imem0, a_sm0, op_wr}
use vibe_pio.Stim.Schedule.{StimCycle, Schedule, empty}
use vibe_pio.Stim.Run.{run_model_trace}
use vibe_pio.Optimize.Candidate.{Candidate, SeedCtx, item}

-- The observable payload of a G record.
pub record Payload : Type 0 where
  pub gpio : ℕ
  pub oe : ℕ
  pub intr : ℕ

abbrev pub payload_eq : Payload → Payload → Bool
payload_eq a b = (a.gpio == b.gpio) && ((a.oe == b.oe) && (a.intr == b.intr))

unfoldable pub payloads : List Rec → List Payload
payloads [] = []
payloads (observed clk out oe intr ∷ recs) =
    record { gpio = out; oe = oe; intr = intr } ∷ payloads recs
payloads (read clk addr rdata ∷ recs) = payloads recs

unfoldable pub drop {ℓ} : {A : Type ℓ} → ℕ → List A → List A
drop zero xs = xs
drop (suc n) [] = []
drop (suc n) (x ∷ xs) = drop n xs

-- `all(tail[i] == tail[i - p] ...)`: the list and itself without its first `p`, side by side.
unfoldable pub agree : List Payload → List Payload → Bool
agree (x ∷ xs) (y ∷ ys) = payload_eq x y && agree xs ys
agree [] ys = true
agree (x ∷ xs) [] = true

-- The loop over the periods from `p` on.
unfoldable pub period_from : List Payload → ℕ → ℕ → Option ℕ
period_from tail zero p = none
period_from tail (suc left) p =
    let later = period_from tail left (p + 1) in if agree (drop p tail) tail then some p else later

-- `trace_period` at its default `min_frac` of a half.
unfoldable pub trace_period : List Rec → Option ℕ
trace_period recs =
    let gs = payloads recs in
    let tail = drop (length gs / 2) gs in period_from tail (length tail / 2) 1

abbrev pub forced : Option (Option ℕ) → ℕ → ℕ
forced none wdata = wdata
forced (some none) wdata = wdata
forced (some (some pc)) wdata = low_bits pc 5

-- One cycle of `rebuild_schedule`; `entry_cur` is `none` where there is no force, and `some none`
-- for the source's negative value.
unfoldable pub rebuild_cycle : Candidate → Option (Option ℕ) → StimCycle → StimCycle
rebuild_cycle cand entry_cur c =
    if not (c.op == op_wr)
    then c
    else if leb a_imem0 c.addr && ltb c.addr (a_imem0 + 4 * 32)
    then record c { wdata = get_or cand.words ((c.addr - a_imem0) / 4) 0 }
    else if c.addr == a_sm0 + 4 * 1
    then record c { wdata = cand.execctrl }
    else if c.addr == a_sm0 + 4 * 4
    then record c { wdata = forced entry_cur c.wdata }
    else c

unfoldable pub rebuild_schedule : Schedule → Candidate → Option (Option ℕ) → Schedule
rebuild_schedule sched cand entry_cur = record empty {
  cycles = map (rebuild_cycle cand entry_cur) sched.cycles;
}

-- `_entry_cur`
unfoldable pub entry_cur : Option ℕ → List (Option ℕ) → Result (Option (Option ℕ))
entry_cur none reloc = ok none
entry_cur (some entry) reloc = do r ← item reloc entry; ok (some r)

-- The verdict, with the mismatch of which the source keeps the message.
pub data Screening : Type 0 where
  agrees deleted_entry : Screening
  diverges : Mismatch → Screening

abbrev pub verdict : Option Mismatch → Screening
verdict none = agrees
verdict (some m) = diverges m

unfoldable pub screen_at : SeedCtx → Candidate → Option (Option ℕ) → Result Screening
screen_at ctx cand (some none) = ok deleted_entry
screen_at ctx cand none = do
  recs ← run_model_trace (rebuild_schedule ctx.sched cand none) no_mutations
  ok (verdict (compare ctx.trace recs))
screen_at ctx cand (some (some pc)) = do
  recs ← run_model_trace (rebuild_schedule ctx.sched cand (some (some pc))) no_mutations
  ok (verdict (compare ctx.trace recs))

unfoldable pub screen : SeedCtx → Candidate → Result Screening
screen ctx cand = do cur ← entry_cur ctx.entry cand.reloc; screen_at ctx cand cur

pub record Evaluated : Type 0 where
  pub cand : Candidate
  pub screening : Screening
  pub period : Option ℕ

unfoldable pub evaluate : SeedCtx → Candidate → Result Evaluated
evaluate ctx cand = do
  cur ← entry_cur ctx.entry cand.reloc
  recs ← run_model_trace (rebuild_schedule ctx.sched cand cur) no_mutations
  screening ← screen ctx cand
  ok (record { cand = cand; screening = screening; period = trace_period recs })

-- `px <= py` and `px < py`, where no period is infinite.
abbrev pub period_le : Option ℕ → Option ℕ → Bool
period_le p none = true
period_le none (some y) = false
period_le (some x) (some y) = leb x y

abbrev pub period_lt : Option ℕ → Option ℕ → Bool
period_lt none q = false
period_lt (some x) none = true
period_lt (some x) (some y) = ltb x y

unfoldable pub dom : Evaluated → Evaluated → Bool
dom x y =
    let words = length x.cand.words in
    let words' = length y.cand.words in
    leb words words'
    && (period_le x.period y.period && (ltb words words' || period_lt x.period y.period))

-- `any(dom(o, e) for o in evs if o is not e)`: nothing dominates itself, so `o is not e` is left out.
unfoldable pub dominated : List Evaluated → Evaluated → Bool
dominated [] e = false
dominated (o ∷ os) e = dom o e || dominated os e

unfoldable pub front_of : List Evaluated → List Evaluated → List Evaluated
front_of evs [] = []
front_of evs (e ∷ es) = if dominated evs e then front_of evs es else e ∷ front_of evs es

unfoldable pub pareto_front : List Evaluated → List Evaluated
pareto_front evs = front_of evs evs
