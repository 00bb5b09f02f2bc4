-- ===== src/Lib.antt =====
-- FogHTTP Benchmark measures Python HTTP clients and saves each run as a JSON report. What a saved
-- report may be used for is decided by code without input or output, and this library models that
-- code and proves what its decisions guarantee.
--
-- The parts and how they interact:
-- * The decoder (foghttp_benchmark/report_schema/decoding.py) admits a parsed report. It infers the
--   suite, migrates legacy rows, checks the rows by the tables of the suite, checks the coverage of
--   resource metrics against the runs, and refuses two rows with one identity. `Schema` models it:
--   Schema/Fields (fields.py), Schema/Identity (identity.py), Schema/Tables, Schema/Optional and
--   Schema/Ordinary (ordinary.py), Schema/Resources (resources.py), and Schema/Layouts,
--   Schema/Metadata and Schema/Decoding (decoding.py).
-- * The validity gate (foghttp_benchmark/validity/) reads the rows and the metadata of an admitted
--   report and returns a summary: a status, its reasons, and whether the report may be compared.
--   `Validity` has a module for each file: Summary (models.py, the combination of statuses in
--   helpers.py and of summaries in classification.py), Helpers (helpers.py), Serialization,
--   Profiles (streaming_profiles.py), Resource, Proxy, Compatibility, Generic, Children, Lifecycle,
--   Attribution and Classification. `Evidence` has the fingerprints of
--   foghttp_benchmark/attribution_evidence.py that the attribution checks compare.
-- * The timing scopes (foghttp_benchmark/measurement_timing.py) say which interval a duration
--   measures; two reports are compared only within one scope. `Timing` models them.
-- * The comparison (foghttp_benchmark/compare/) loads two reports, refuses them unless they have one
--   suite, one timing scope and, for byte measurements, one provenance, matches the rows of a client
--   by identity, and summarizes ratios, wins, errors and resources. `Compare` has the checks of
--   analysis.py and the records of models.py; Compare/Fields, Compare/Rows, Compare/Streaming and
--   Compare/Loading model loading.py; Compare/Order, Compare/Ratios, Compare/Analysis, Compare/Wins
--   and Compare/Reports the rest of analysis.py, and Compare/Outcome its results.
-- * The load generator (foghttp_benchmark/load.py) sends the requests of one run. Its workers take
--   them from one queue, wait for the client and note latencies and errors, and their results are
--   merged. `Load` models a run as the moves of the workers in any order: `step` is one move of one
--   worker, `run_events` a sequence of them, and `run_load` the result once they have ended; the
--   records of foghttp_benchmark/models.py are in `Models`. An event names the worker that moves and
--   the answer it receives, so that the scheduler and the client are the environment. `Settling`
--   models the pause after a run (foghttp_benchmark/run_settling.py), and `Arguments` the checks of
--   the arguments (foghttp_benchmark/validation.py).
-- * The isolation of children (foghttp_benchmark/isolation/reports.py) loads the reports of child
--   processes, merges them and lets the suite finalize the merged rows. `Isolation` models it, with
--   the finalizer as any function.
-- * The streaming suite checks the windows of its timed batches
--   (foghttp_benchmark/streaming/attribution_window.py). `Windows` models the check of the workload
--   and `Windows/Histogram` the histograms of chunk sizes.
-- * The suites write error counts and resource metrics with foghttp_benchmark/statistics.py and
--   foghttp_benchmark/resource_metrics.py, which `Statistics` models in part.
-- * `Json` has the values of reports, `Runtime` what the Python runtime computes, `Prelude` the
--   shared helpers, and `Tests` the runs at concrete inputs.
--
-- How the source is modelled. Functions keep their names. A function that may raise returns a
-- `Result`: its value, or the class of the exception. The message of an exception and the path of
-- a field that serves the message alone are left out. A dict is the list of its entries in order,
-- with `get`, `in`, item assignment and `setdefault` as functions; rows that the source copies and
-- then assigns to are passed on as values. A mapping from a constant table is an association list.
-- An int is an integer without bounds; `require_integer` returns a natural number, since every
-- minimum is at least 0. A finite float is the whole multiple of 2 ^ -1074 that it is, so that
-- comparisons are exact; the sign of a zero is not kept. Conversion of an int to a float rounds
-- to 53 bits, half to even, and overflows as in Python. `==` on values follows Python (a bool is
-- a number, an int equals a float, dicts forget their order), except that a NaN in a container is
-- never equal to itself. `int(text)` is modelled for ASCII digits.
--
-- Parameters. The text of floats and containers, `json.dumps`, `float(text)` and SHA-256 are
-- fields of the record `Runtime`, which the definitions take as an instance argument. Float division,
-- logarithm, exponential, sum, median and mean are fields of `FloatMath` in Compare/Ratios, and the
-- files of child reports are those of `ReportFiles` in Isolation. Nothing is assumed of them.
--
-- Loops are recursions over lists, and every definition is total. The halvings in the rounding of
-- an int to a float run on fuel of 1024 steps; 971 are enough below 2 ^ 1024, and larger
-- numbers overflow before any. A run of the load generator has no fuel: its events are given.
--
-- In the load generator a move is atomic, as it is between two awaits; exceptions that are no
-- `Exception`, such as a cancellation, are left out. `sorted` is an insertion sort, which is stable
-- and agrees with Python's where no key is NaN.
--
-- Not modelled: the HTTP clients, servers and runners, the start of child processes, files, the
-- command line, rendering, profilers and provenance, the metadata of merged reports, the replayed segments of a
-- window, and the percentiles and variation of foghttp_benchmark/statistics.py, which compute with rounded floats.
pub mod Prelude
pub mod Json
pub mod Runtime
pub mod Schema
pub mod Validity
pub mod Evidence
pub mod Timing
pub mod Statistics
pub mod Compare
mod Tests
pub mod Load
pub mod Models
pub mod Settling
pub mod Arguments
pub mod Isolation
pub mod Windows
