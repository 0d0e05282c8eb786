-- ===== src/Lib.antt =====
-- Verification of the Python reference model of the PIO block (tools/pio_model), the cycle-accurate
-- counterpart of the RTL under rtl/. All paths are from the repository's root.
--
-- The program. `encoding.py` packs and decodes the 16-bit instruction words. `model.py` has one
-- `_SMSlice` for each of the four state machines, with a combinational section `comb` and an edge
-- update `edge`, and `PIOBlockModel`, whose `step` is one clk cycle: it decodes the bus operation,
-- runs the four `comb`, composes the IRQ flags and the pads, answers the read, and applies the edge
-- updates. Each `comb` calls `decode` on the word of its latch or of the instruction memory.
--
-- The files, against tools/pio_model/encoding.py:
--   Encoding/Split: `split`, `split_sideset`, `pack_ds`, `encode`
--   Encoding/Tables: the operand codes and the name tables
--   Encoding/Decode: `Decoded` and `decode`, one function for each class
--   Encoding/Encode: the eleven `encode_*`
--   Encoding/Fields, SideSets, Calls, RoundTrip, Bundle: the theorems about them; Calls describes a
--     call of an encoder and what a decoded bundle must say of it
-- and against tools/pio_model/model.py:
--   Model/Word: `_ror32`, `_rol32`, `_bitrev32`, `_place_mask`
--   Model/Slice: the registers of `_SMSlice`, their reset, the states, modes and deviations
--   Model/Config: the configuration properties, `fifo_mode`, `fifo_depths`, `rel_index`, `flag_rd`
--   Model/Comb/*: `comb`. Tick: divider, tick arbitration and decoding; View: thresholds, status,
--     JMP and WAIT conditions and the MOV value; Stall; Shift; Writes: PC, scratch registers and
--     EXEC latch; Dispatch: OSR, ISR and FIFO requests; Pins; Bundle: `_SMComb` and the whole method
--   Model/Edge/*: `edge`. Control: banks, divider, G1 to G3; Latch: G4 and G5; Data: shifter, FIFO and
--     debug stickies; Model/Edge puts them in the order of the source
--   Model/Block/*: `PIOBlockModel`. Registers: `reset`; Bus: address decode and write strobes; Input:
--     the synchronisers and `run_combs`; Flags; Pads; Read: the read mux; Step: `step`
--   Model/Laws/*: the theorems, with Queue the bounded queue that the FIFOs refine and Valid the
--     well-formedness of the registers
-- and against tools/pio_model/disasm.py and tools/pio_model/asm.py, which print a word and read it:
--   Text: Python's methods on ASCII texts
--   Disassembly: `disassemble`, one function for each class
--   Assembly/Integers, Expressions: Python's integers as the parser uses them, `_TOK_RE`,
--     `_expr_tokens`, `_ExprParser` and `eval_expr`
--   Assembly/Program, Postfixes, Operands, Instruction: `Program`, the loop over the delay and side
--     postfixes, `_encode_core` with `_opnd` and `_split2`, `assemble_instruction`
--   Assembly/Lines, Directives, Source: `_strip_comment`, `_LABEL_RE`, `_directive`, `_finish` and
--     `parse_text`
--   the Fuel below each of them, that its loops come to an end; Text/Lengths, how long texts get
--   Assembly/Laws/*: the theorems about both; Searches and Postfix follow the regular expressions,
--     Named and Cores read back the text of an operand and of an instruction, Texts says which words
--     have one
-- and against tools/pio_model/tracefmt.py:
--   Trace/Format: the records, `_classify`, `normalize` and `compare`; Trace/Laws: the theorem about them
-- and against tools/pio_model/stim.py and tools/pio_model/difftest.py:
--   Stim/Addresses, Words, Schedule: the register addresses, `pctrl`, `execctrl`, `shiftctrl`,
--     `clkdiv`, `Schedule` with `to_mem`, and `_sched_basic`
--   Stim/Run: `run_model_trace` with `_fold_loopback` and `_visited_pcs` of tools/hyperopt.py
--   Stim/Laws/*: the theorems; Legal says which schedules never meet a reserved SIDESET_COUNT,
--     Runs follows a run cycle by cycle
-- and against tools/hyperopt.py:
--   Optimize/Candidate, Surgery: `Candidate`, `SeedCtx`, `_set_delay`, `_delete_word` and the tests
--     on words; Rewrites, NotFold, Stalls: the rewrites; Search: the catalog and `search`; Pareto:
--     `trace_period`, `rebuild_schedule`, `screen`, `evaluate`, `pareto_front`; Seed: `load_seed`, `miter_prefilter`
--   Optimize/Laws/*: the theorems; Sweep and Closure follow the breadth-first loop
-- and against tools/hyperequiv.py and tools/hypersynth.py:
--   Equiv/Pair, Lockstep, Stimulus, Divergence, Counterexample: `ProgPair`, `pack_words`,
--     `run_pair_models`, `random_free_stimulus`, `decode_first_divergence`, `prefilter`, `decode_vcd`
--     and `replay_cex`; Equiv/Laws/*: the theorems, with Replay one side of a replay alone
--   Synth/Windows, Replay, Witness: `run_lengths`, `check_square`, `check_uart`, `prologue_steps`,
--     `timeline`, `words_of` and `replay_model`; Synth/Laws/*: the theorems, with Stretch the waveform of a UART frame
-- Base holds what these share: Python's shifts and masks on the natural numbers and their bits,
-- lists, dictionaries, exceptions as values, and lists of exactly four. Tests holds runs of the whole
-- block and the theorems at concrete inputs.
--
-- Correspondence. The state is a record and each update returns a new one; a method that the source
-- splits by comments is one function for each part. Numbers are naturals with the source's masks
-- written out; `- 1` under a mask adds 2 ^ w - 1 instead; the assembler's expressions are integers. A
-- flag-shaped 0 or 1 of the source is a Boolean. The four parallel sticky lists of the block are one
-- list of records. `ReservedEncoding`, `AsmError`, `KeyError`, `ValueError`, `IndexError`,
-- `ZeroDivisionError`, `OverflowError` and failed assertions are values of `Error`. Loops over lists
-- and ranges are structural recursion. Python's random generators are parameters: what each of their
-- calls gives, by its number.
--
-- Fuel. The `while` loop over a worklist in `search` runs on `max_states` + 1, and each of its rounds
-- explores one more of at most that many states. `_ExprParser` runs on two for each token and two
-- more, since each call reads a token or stands behind one that has. The loop over the postfixes of a
-- line runs on three more than its characters and the one over labels on one more, since each round
-- takes some off. The depth of Python's own stack has no bound here.
--
-- Not modelled: the texts of exceptions, the constructor's check of the names of deviations (they
-- are a record of Booleans), `lb_mask` (which `step` does not read), texts that are not ASCII, the
-- reading of a source file, the text form of traces with its reading and writing, the conformance
-- schedules and random scenarios of the stimulus generator (data for the testbench), the level
-- listings of tools/hyperopt.py, the canonical words and the extraction of a witness in
-- tools/hypersynth.py, in the three tools what runs solvers and simulators, reads their files, prints
-- reports or tests the tool itself, and every other file of the repository: the trace audit, servers
-- and generators, the SystemVerilog and the web pages.
pub mod Base
pub mod Encoding
pub mod Model
pub mod Text
pub mod Disassembly
pub mod Assembly
pub mod Trace
pub mod Stim
pub mod Optimize
pub mod Equiv
pub mod Synth
pub mod Tests
