-- ===== src/Tests/Tools.antt =====
-- Small schedules, programs and waveforms, and the theorems on the tools applied to them.
use vibe_pio.Base.{
  ◌↔◌, Option, ℕ, ◌+◌, ◌≡◌, ◌≢◌, ◌⊎◌, refl, arith, true, false, List, [], ◌∷◌, ◌++◌, map, replicate,
  none, some, ok,
}
use mathlib.Core.List.{Memᴰ}
use vibe_pio.Encoding.Split.{bit}
use vibe_pio.Model.Slice.{Slice, no_mutations, reset}
use vibe_pio.Model.Config.{
  sideset_count, set_count, out_count, in_base, sideset_base, set_base, out_base,
}
use vibe_pio.Model.Block.Registers.{block_reset}
use vibe_pio.Trace.Format.{Rec}
use vibe_pio.Stim.Words.{pctrl}
use vibe_pio.Stim.Schedule.{
  Schedule, empty, append, w, r, enable, to_mem, cycle_words, cycles_words,
}
use vibe_pio.Stim.Run.{fold_loopback, run_model_trace}
use vibe_pio.Stim.Laws.Loopback.{fold_loopback_lem}
use vibe_pio.Stim.Laws.Runs.{Runs, run_model_trace-completes, run_model_trace-Runs}
use vibe_pio.Stim.Laws.Image.{to_mem-injective}
use vibe_pio.Stim.Laws.Config.{pctrl_lem}
use vibe_pio.Optimize.Candidate.{Candidate, SeedCtx}
use vibe_pio.Optimize.Surgery.{set_delay}
use vibe_pio.Optimize.Search.{SearchOpts, search}
use vibe_pio.Optimize.Pareto.{agrees, Evaluated, dom, pareto_front}
use vibe_pio.Optimize.Laws.Search.{IsFound, search_terminates, search-IsFound}
use vibe_pio.Optimize.Laws.Pareto.{pareto_front_lem}
use vibe_pio.Optimize.Laws.Surgery.{set_delay_lem}
use vibe_pio.Synth.Windows.{Run, run_lengths, low, check_uart}
use vibe_pio.Synth.Replay.{words_of}
use vibe_pio.Synth.Laws.RunLengths.{expand, AreRuns, run_lengths_lem}
use vibe_pio.Synth.Laws.Stretch.{uart_wave}
use vibe_pio.Synth.Laws.Uart.{check_uart-frame}
use vibe_pio.Equiv.Pair.{ProgPair, ec_b, prog_len, pack_words}
use vibe_pio.Equiv.Stimulus.{Rng}
use vibe_pio.Equiv.Divergence.{prefilter}
use vibe_pio.Equiv.Counterexample.{Signal, read_strobe, write_strobe, addr, wd_a, wd_b, Sample}
use vibe_pio.Equiv.Laws.Same.{prefilter_same}
use vibe_pio.Equiv.Laws.Pack.{words_of-pack_words}

fold_loopback_lem_example : bit (fold_loopback (block_reset no_mutations) 5 4) 2 ≡ 0
unfolding block_reset
fold_loopback_lem_example = fold_loopback_lem (block_reset no_mutations) 5 4 2

-- A PINCTRL write and a read of FSTAT.
abbrev two_ops : Schedule
unfolding w r append
two_ops = r (w empty 0xdc 0x14000000) 4

run_model_trace-completes_example :
    (recs : List Rec) × (run_model_trace two_ops no_mutations ≡ ok recs)
unfolding two_ops
run_model_trace-completes_example =
    run_model_trace-completes two_ops no_mutations
      (λ n small op at_n. omega arith, (λ n small op at_n. omega arith, tt))

run_model_trace-Runs_example :
    (run_model_trace two_ops no_mutations ≡ ok run_model_trace-completes_example.0)
    ↔ Runs 0 (block_reset no_mutations) two_ops.cycles run_model_trace-completes_example.0
run_model_trace-Runs_example =
    run_model_trace-Runs two_ops no_mutations run_model_trace-completes_example.0

to_mem-injective_example : (w empty 0 1).cycles ≡ (enable empty 1).cycles
unfolding w enable append to_mem cycle_words cycles_words
to_mem-injective_example =
    to_mem-injective (w empty 0 1) (enable empty 1) (omega arith) (omega arith) refl

abbrev configured : Slice
unfolding reset
configured = record (reset 0 no_mutations) { pinctrl_r = pctrl 5 3 2 17 9 6 1 }

pctrl_lem_example :
    (sideset_count configured ≡ 5)
    × (set_count configured ≡ 3)
    × (out_count configured ≡ 2)
    × (in_base configured ≡ 17)
    × (sideset_base configured ≡ 9)
    × (set_base configured ≡ 6)
    × (out_base configured ≡ 1)
unfolding pctrl configured
pctrl_lem_example =
    pctrl_lem 5 3 2 17 9 6 1 configured (omega arith) (omega arith) (omega arith) (omega arith)
      (omega arith) (omega arith) (omega arith) refl

-- `set pins, 1; nop; set pins, 0`, which wraps behind its last word.
abbrev three_words : SeedCtx
three_words = record {
  words = 0xe001 ∷ 0xa042 ∷ 0xe000 ∷ [];
  execctrl = 0x2000;
  sched = empty;
  entry = none;
  side_en = false;
  ss_total = 0;
  has_dyn_pc = false;
  visited = 0 ∷ 1 ∷ 2 ∷ [];
  trace = [];
  period = none;
}

abbrev three_states : SearchOpts
three_states = record { include_spec = false; max_states = 3; tries = 1 }

abbrev first_index : ℕ → ℕ → ℕ
first_index n len = 0

-- The second word is folded into the first.
three_found :
    (states : List Candidate) × (search first_index three_words three_states
      ≡ ok (some (states, false)))
unfolding vibe_pio.Encoding.Decode.blank vibe_pio.Encoding.Decode.decode_wait
    vibe_pio.Encoding.Decode.decode_in vibe_pio.Encoding.Decode.decode_pp
    vibe_pio.Encoding.Decode.decode_mov vibe_pio.Encoding.Decode.decode_irq
    vibe_pio.Encoding.Decode.decode_set vibe_pio.Encoding.Decode.decode_class
    vibe_pio.Encoding.Decode.decode vibe_pio.Encoding.Split.split
    vibe_pio.Encoding.Split.sideset_fields vibe_pio.Encoding.Split.split_sideset
    vibe_pio.Optimize.Candidate.with_wrap vibe_pio.Optimize.Candidate.item
    vibe_pio.Optimize.Candidate.is_in vibe_pio.Optimize.Candidate.entry_is
    vibe_pio.Optimize.Surgery.put_delay vibe_pio.Optimize.Surgery.set_delay
    vibe_pio.Optimize.Surgery.jmp_targets vibe_pio.Optimize.Surgery.cut
    vibe_pio.Optimize.Surgery.delete_word vibe_pio.Optimize.Surgery.tick_burner
    vibe_pio.Optimize.Surgery.can_absorb vibe_pio.Optimize.Surgery.no_side_clean
    vibe_pio.Optimize.Rewrites.fold_burn vibe_pio.Optimize.Rewrites.fold_tick_from
    vibe_pio.Optimize.Rewrites.rw_fold_tick vibe_pio.Optimize.Rewrites.terminal_backjmp
    vibe_pio.Optimize.Rewrites.wrap_entry_ok vibe_pio.Optimize.Rewrites.init
    vibe_pio.Optimize.Rewrites.wrapped vibe_pio.Optimize.Rewrites.wrap_fold_hit
    vibe_pio.Optimize.Rewrites.rw_wrap_fold vibe_pio.Optimize.Rewrites.wrap_speed_hit
    vibe_pio.Optimize.Rewrites.rw_wrap_speed vibe_pio.Optimize.Rewrites.live_pcs
    vibe_pio.Optimize.Rewrites.is_live vibe_pio.Optimize.Rewrites.dce_from
    vibe_pio.Optimize.Rewrites.rw_dce vibe_pio.Optimize.NotFold.t_reader
    vibe_pio.Optimize.NotFold.t_writer vibe_pio.Optimize.NotFold.unread
    vibe_pio.Optimize.NotFold.fold_pair vibe_pio.Optimize.NotFold.mov_not_from
    vibe_pio.Optimize.NotFold.rw_mov_not_fold vibe_pio.Optimize.Stalls.rw_delay_absorb
    vibe_pio.Optimize.Search.catalog vibe_pio.Optimize.Search.apply_all
    vibe_pio.Optimize.Search.applicable vibe_pio.Optimize.Search.words_eq
    vibe_pio.Optimize.Search.key_eq vibe_pio.Optimize.Search.has_key
    vibe_pio.Optimize.Search.offer_all vibe_pio.Optimize.Search.closure
    vibe_pio.Optimize.Search.range_from vibe_pio.Optimize.Search.start
    vibe_pio.Optimize.Search.unseen vibe_pio.Optimize.Search.walk vibe_pio.Optimize.Search.walks
    vibe_pio.Optimize.Search.finish vibe_pio.Optimize.Search.search
three_found = (_, refl)

search-IsFound_example : IsFound three_words three_states three_found.0 false
search-IsFound_example =
    search-IsFound three_words three_states first_index (λ n len h. h) three_found.1

search_terminates_example : search first_index three_words three_states ≢ ok none
search_terminates_example = search_terminates three_words three_states first_index

set_delay_lem_example : bit (set_delay three_words 0xe001 3) 9 ≡ 1
set_delay_lem_example = set_delay_lem three_words 0xe001 3 9 (omega arith) (omega arith)

abbrev sized : List ℕ → ℕ → Evaluated
sized words period = record {
  cand = record { words = words; execctrl = 0; reloc = []; trail = [] };
  screening = agrees;
  period = some period;
}

abbrev three_sizes : List Evaluated
three_sizes = sized (1 ∷ []) 4 ∷ sized (1 ∷ 2 ∷ []) 4 ∷ sized (1 ∷ 2 ∷ []) 2 ∷ []

pareto_front_lem_example :
    ((o : Evaluated)
      → Memᴰ o (pareto_front three_sizes)
      → Memᴰ o three_sizes × ((p : Evaluated) → Memᴰ p three_sizes → dom p o ≡ false))
    × (Memᴰ (sized (1 ∷ 2 ∷ []) 4) (pareto_front three_sizes)
        ⊎ ((o : Evaluated) × Memᴰ o (pareto_front three_sizes)
            × (dom o (sized (1 ∷ 2 ∷ []) 4) ≡ true)))
pareto_front_lem_example =
    pareto_front_lem three_sizes (sized (1 ∷ 2 ∷ []) 4) (Memᴰ.tail (Memᴰ.head refl))

run_lengths_lem_example :
    (expand (run_lengths (3 ∷ 1 ∷ 0 ∷ [])) ≡ map low (3 ∷ 1 ∷ 0 ∷ []))
    × AreRuns (run_lengths (3 ∷ 1 ∷ 0 ∷ []))
    × ((rs : List Run) → AreRuns rs → run_lengths (expand rs) ≡ rs)
run_lengths_lem_example = run_lengths_lem (3 ∷ 1 ∷ 0 ∷ [])

check_uart-frame_example : check_uart (uart_wave 3 2 5 4 0x55) 4 0x55 ≡ ([], some 0x55)
check_uart-frame_example = check_uart-frame 3 2 5 4 0x55 (omega arith) (omega arith) (omega arith)

abbrev twins : ProgPair
twins = record {
  words_a = 0xe001 ∷ 0xe000 ∷ [];
  words_b = 0xe001 ∷ 0xe000 ∷ [];
  execctrl = 0x1000;
  execctrl_b = none;
}

-- A generator that makes every cycle a write.
abbrev writer : ℕ → Rng
writer seed = record {
  random = λ n. 0;
  getrandbits = λ n k. n + seed;
  randrange = λ n k. 0;
  choice = λ n len. 0;
  choices = λ n weights. 0;
}

prefilter_same_example : prefilter twins writer 20 2 1 ≡ ok none
unfolding ec_b prog_len
prefilter_same_example = prefilter_same twins writer 20 2 1 refl refl (omega arith)

words_of-pack_words_example :
    (v : ℕ) × (pack_words (0x80a0 ∷ 0xe101 ∷ []) ≡ ok v)
    × (words_of v ≡ (0x80a0 ∷ 0xe101 ∷ []) ++ replicate 30 0)
words_of-pack_words_example = words_of-pack_words (0x80a0 ∷ 0xe101 ∷ []) (omega arith) (omega arith)

-- A reset, a PINCTRL write with different data for the two sides, and a read of FSTAT.
abbrev no_signal : Signal → Option ℕ
no_signal name = none

abbrev written_signal : Signal → Option ℕ
written_signal write_strobe = some 1
written_signal addr = some 0xdc
written_signal wd_a = some 0x14000000
written_signal wd_b = some 0x18000000
written_signal _ = none

abbrev read_signal : Signal → Option ℕ
read_signal read_strobe = some 1
read_signal addr = some 4
read_signal _ = none

abbrev cex_samples : List Sample
cex_samples =
    record { step = 0; rst = 1; vals = no_signal }
    ∷ record { step = 1; rst = 0; vals = written_signal }
    ∷ record { step = 2; rst = 0; vals = read_signal }
    ∷ []
