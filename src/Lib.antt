-- ===== src/Lib.antt =====
-- CIRewind reconstructs, from retained evidence, which commit of a GitHub Action each historical
-- run executed, and makes every gap in the evidence visible. This library models its core and
-- proves what the rest of the program relies on.
--
-- The parts and their files (paths from the repository's root):
-- - Base: helpers. Go strings are lists of bytes (`Texts`), `int` and `int64` are signed numbers
--   (`Int`), `time.Time` is a count of nanoseconds (`Time`), `sort.Slice` is an insertion sort over
--   a strict total order (`Order`, `Sort`), the loop that drops repeats stands in `Unique`, and
--   slices in which no two elements have one key in `Apart`.
-- - Model: internal/model. `States` and `Vocabulary` are enums.go; `Texts`, `Paths`, `Ids` and
--   `Identities` are ids.go and the text checks of finding.go; `Times` is time.go; `Coverage` is
--   coverage.go, with `Coverage.Reconcile` for `ReconcileCoverage`; `Subjects`, `Exposures` and
--   `Finding` are finding.go, and `Finding` has `ValidateFindingCoverage` too; `Runtime` is
--   runtime.go. `Hex` and `Intervals` have the theorems on digests and on event times. Go maps are
--   lists, newest entry first; a nil slice or pointer is `none`; counts of coverage wrap at 2^64.
-- - Match: internal/match/derive.go. `Derive` has the function that turns the facts about one
--   subject into a finding state, and the check of its support.
-- - Exposure: internal/exposure/exposure.go. `Facts` has what each permission, secret flow, runner
--   and resource contributes, `Permissions` is `effectivePermissions` on values, `Stored` the same
--   on slices of arrays that are written in place, `Analyze` puts the contributions together and has
--   `HappensBefore`.
-- - Sanitize: internal/sanitize/text.go. `Terminal`, `Presentation`, `Display` and `Csv` have its
--   functions, `Runes` the decoding of UTF-8 and the classes of Unicode, and `Scan` their loops.
-- - Graph: internal/graph/graph.go. `Types` and `Rules` have the vocabularies and which nodes an edge
--   may join, `Normalize` is `NormalizeAndValidate` and its loops. Evidence ids and finding ids are
--   those of `Model`.
-- - Ledger: internal/ledger/ledger.go. `Writer` has the file and its buffer, `Operations` the calls,
--   `Json` the walk over a payload, and `Steps` the states that calls in any order can reach. The
--   operating system is a parameter (`Disk`) that may take fewer bytes or fail at any call, and so
--   is `json.Marshal` on a record; `bufio.Writer` is modelled with its size and its lasting error. A
--   payload is what encoding/json makes of it: the tree of its JSON text, or an error of `Marshal`,
--   of `Unmarshal` or of the `Marshal` of its record. Each call holds the lock, so calls do not
--   interleave.
-- - Github: the response types of internal/githubapi that collection reads.
-- - Collect: internal/collect. `Gaps` is coverage.go; `Windows`, `Partition`, `Enumerate` and
--   `Archive` are window.go; `Attempts` is attempts.go, with the service as `AttemptApi`. The
--   service of the enumeration is a parameter too (`RunWindowApi`): every call has its number, so
--   answers may change over time, fail, be cut short, or be cancelled. `Serves` is the hypothesis on
--   it: a search that succeeded and is whole has every run in its range, once or more often.
--
-- Loops and fuel: the `walk` of a window recurs with fuel; `Enumerate` gives one more than the
-- nanoseconds of its window, and each split shortens the window, so the walk always returns.
-- `stabilize` recurs on the passes that its budget leaves. The loops over a text in `Sanitize` have
-- a step for each of its bytes, and an iteration takes one at least; the loops that shorten a text
-- have one for each rune. Every other loop is on a list or on the attempts to go. An attempt number
-- is below the largest `int`, where the loop over the attempts would not end.
--
-- Limits: a time is at least 2^63 seconds before Go's zero time, where Go's own range ends, and a
-- subtraction that would leave that range stops there. Strings that are only shown to people are
-- kept as text and not inspected; of an error the model has the constant words, without the values
-- that are printed into them. JSON decoding, but for string enums, is not modelled. `ToLower` and
-- `ToUpper` change ASCII letters alone. Evidence lists are values. In internal/exposure the code
-- sorts and compacts them in place and appends into the capacity that this frees, which changes any
-- other slice on the same array: `Analyze` is the model of one call on an input whose evidence
-- slices share no array, and `Stored` has the slices of permissions.
--
-- Not modelled: the client and the parsers that feed collection (internal/githubapi but for its
-- types, internal/logparse, internal/workflow, internal/literalmatch, internal/resolve), incident
-- packs (internal/incident), the join of facts in internal/analyze, the paths and pictures of
-- internal/graph, stores and archives, and everything that only reads, writes or renders files.
pub mod Exposure
pub mod Sanitize
pub mod Graph
pub mod Ledger
pub mod Base
pub mod Model
pub mod Match
pub mod Github
pub mod Collect
