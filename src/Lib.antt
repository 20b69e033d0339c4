-- ===== src/Lib.antt =====
-- A model of eous, which compares executables by digests of their code: the digest format and its
-- scores, the loading of PE and ELF files, the analysis of one file, and the pool of processes that
-- analyses many.
--
-- The parts, and how they interact. The command line calls `pool.analyse` with the files and
-- `report.analyse`; a worker process analyses one file at a time, the parent keeps the deadlines and
-- yields the analyses in the order of the files. An analysis loads the file (`loader.load`), refuses
-- it or passes its readable code to the extension module (native/src/lib.rs), whose digest texts
-- `digest.parse` reads back and `digest.compare` scores.
--
-- - Native.antt: the constants, the guards, the errors and the digest layout of native/src/lib.rs, where
--   what `digest_of` makes of the sections is a parameter, which Native/Summary.antt fills: the
--   `vocabulary` (Vocabulary), the loop of `disassemble` (Disassemble) that feeds `Shingles` (Shingles)
--   over all sections (Sections), the roots that are seen (Summary) and the `sketch` (Sketch) with
--   `permute` and `coefficients` (Permute). The decoder of iced-x86, the table of roots with the names
--   of the mnemonics, and the hash `h64` are parameters. Summary/Reads joins it with src/eous/digest.py.
-- - Digest.antt: `parse` of src/eous/digest.py. Digest/Slots.antt is `unpack`; Digest/Score.antt is
--   `score`, `_wilson_margin`, `compare` and `_containment`. The other children hold the proofs.
-- - Loader.antt: `Section` and `Binary` of src/eous/loader.py. Loader/PeSections.antt is
--   `_check_pe_sections`, Loader/Entropy.antt is `data_entropy`, Loader/Parsed.antt is `read_clr`,
--   `_load_pe` and `_load_elf` with their helpers, and Loader/Load.antt is `load`. Loader/Lief.antt
--   holds what they read of the lief library and of the file system, as parameters: a reading is a
--   value or any exception. Loads, Errors, Fits and PeSections/Safety
--   hold the proofs.
-- - Report.antt and Report/Analyse.antt: src/eous/report.py. Report/Total.antt, Digests and Emits hold
--   the proofs, and Report/Sketches.antt and Valid join them with the extension module and src/eous/digest.py.
-- - Pool.antt: the parent's side of src/eous/pool.py, as a function of a schedule, which gives for
--   each pass of the loop what the parent observes at each slot: what the pipe shows, what the clock
--   tells, and what `recv`, the sends and the starts of processes raise. Pool/Slots.antt, Passes, Invariant,
--   Runs and Analyse hold the proofs.
--   Pool/Shutdown.antt is the `finally` block; Shutdown/Left is what it finds, where the loop ends, is
--   left or raises, and its other children hold the proofs.
-- - Pool/Limits.antt and Pool/Work.antt: the worker's side of src/eous/pool.py, with `_limit_memory`,
--   `_limit_time`, `_size` and `_worker_count`; Pool/Jobs.antt is `limit_memory` of src/eous/_jobs.py with
--   the structures that it passes to the system. The loop is a function of the turns: what is received,
--   what the system answers and what sending raises. The children of Work and Jobs hold the proofs, of
--   which Work/Replies tells what a worker sends.
-- - Cli.antt and its children: src/eous/cli.py. A command is a function on a console, the lines written
--   to the two standard streams (Cli/Console.antt), which returns or raises. Run.antt is `_dispatch` and
--   `main`; Hash/Command.antt is `_run_hash` with Hash (the exit code), Expand (`_expand`) and Digests
--   (`_print_line`, `_read_digests`); Compare, Match and Cross are the other commands; Scores, Messages,
--   Readable, Fields and Json are what they share; Numbers is `_count` and `_percentage`. Cli/Env.antt holds what they take from outside: the
--   parsed arguments, the file system, Python's tables of characters, `repr`, `json.dumps`, the
--   iteration over the pool and the installed versions (`engines` of src/eous/toolchain.py is in
--   Scores). Cli/Analyses.antt is that iteration, `_analyse`, on the model of the pool, and
--   Run/Pooled joins the two, and Run/Whole these and the analysis. The deeper children hold the proofs.
-- - Prelude.antt and its children: exceptions as values (Outcome, Exception), texts as lists of
--   codes, the stable sort, and the interface of the doubles (Float), with the laws of IEEE 754
--   rounding that the proofs use. Prelude/Fixed.antt is an instance of it for the tests.
--
-- Bounds. Integers are Python's and have none; a cardinality is at most 2^53, so that a double holds
-- it. The yielding loop of the pool runs on as much fuel as there are entries to yield, of which each
-- turn takes one. The main loop runs over the schedule, of which each pass takes one
-- entry. The loop of `disassemble` has a turn of fuel for each byte, since each turn moves on by a byte
-- or more. The integers of the extension module have 8, 64 or 128 bits, and wrap where they are written
-- with a remainder; a number of keys, of roots or of repetitions does not get to 2^64.
--
-- Writing. `Stdout` tells what writing a line raises, of `print` and of the flush that `_print_line`
-- asks for; standard error takes what is written. `CLOSED_PIPE` is that of POSIX. What the pool
-- raises counts as raised before its first result. The pairs of cross are computed before the first
-- is written, of which only the lines and what is raised can be seen.
--
-- Not modelled. The starts of the first workers of the pool, which stand before its `try`, are taken to
-- succeed, and so are its `wait` and its joins. The reading of roots.json and the Python binding in
-- native/src/lib.rs, and the sharing of what `OnceLock` holds; the layout that ctypes gives the
-- structures; the parser that argparse builds, whose result is a parameter; the `reconfigure` of the
-- streams. NaN and infinities are left out of the doubles, since no operation of the program meets them.
pub mod Prelude
pub mod Native
pub mod Digest
pub mod Loader
pub mod Report
pub mod Pool
pub mod Cli
