-- ===== src/Lib.antt =====
-- A verification library of codewizard-sherpa: the parts of src/codegenie that decide, keep and
-- check state, translated from their Python, with the theorems that make them correct.
--
-- The program collects facts about a repository by probes, picks a plugin for a task, and works on
-- a remediation whose states are kept as a chain of checkpoints; calls of a language model are
-- charged to a budget. The parts modelled are these.
--
-- * Budget (fallback/budget.py, budget_token.py): `LlmInvocationGuard` is the record of its fields.
--   `precharge`, `reconcile` and `running_total` take the guard and return their result with the
--   new guard, also where they raise. The constructor and the events are in Budget/State. The fresh
--   id and the time are arguments. Money is counted in whole multiples of one unit, which stands
--   for exact `Decimal` sums.
-- * Workflows/Ledger (workflows/vuln_ledger.py): the states, the table of legal transitions and the
--   validators of the module.
-- * Workflows/Checkpoints (workflows/checkpoints.py, in_memory_checkpoints.py, _replay.py): the
--   in-memory store as a dict of rows, with `append`, the reads and the tail of the chain. JSON,
--   BLAKE3 and the sanitizer are the fields of `Substrate`.
-- * Workflows/Replay (workflows/replay.py): the verifier, its verdicts and `hydrate_or_fail`, which
--   read the store. The formatting of numbers and texts is a parameter.
-- * Plugins/Scope (plugins/scope.py): parsing, text form, matching and specificity of scopes. Texts
--   are lists of code points.
-- * Plugins/Registry (plugins/registry.py; types of errors.py and manifest.py): the two dicts of the
--   registry, in the order of registration.
-- * Plugins/Chain and Plugins/Resolver (plugins/resolver.py): the lifting of manifests, the walk of
--   `extends` with its refusals, what it composes, and `resolve`. The resolver reads the registry.
-- * Coordinator (coordinator/coordinator.py): `_dispatch_one` as `begin`, the probe's run and
--   `finish`; Coordinator/Gather: `gather` with its three waves; Coordinator/Interleaving: the turns
--   that the dispatches of one wave may take under the semaphore, as a step relation. What a probe's
--   run comes to, the cache, the input snapshot, the validator and the sanitizer are parameters;
--   the last three may raise.
-- * Coordinator/Limits (coordinator/budget.py): the declared budget and the count of bytes.
--
-- * Parsers/Jsonc (parsers/jsonc.py): the four states of the comment stripper; Grammar has the texts
--   it is to read. Parsers/Depth (parsers/_depth.py): the walk that caps nesting, on a heap of
--   containers that may share and hold each other. Parsers/Loading (parsers/_io.py, safe_json.py,
--   safe_yaml.py, jsonc.py): the loaders, with the file system and the decoders as parameters.
-- * Events (plugins/events.py): the two sinks, the emitters and the replay of the event log. An
--   event is what the log reads of it; pydantic, JSON and the digest are the fields of `Codec`.
--   Events/Locking: the turns of several processes that emit to one file.
-- * Workflows/Sqlite (workflows/sqlite_checkpoints.py): the rows of each workflow's table and
--   `append`, beside the in-memory store.
-- * Probes (probes/registry.py): the registry of probe classes, its filter and its sorts.
-- * Fallback (fallback/tier.py, confidence_gate.py, attempt_anchor.py, anchor_writer.py;
--   transforms/trust_scorer.py in Fallback/Trust): the tier's run, the harvest of validated plans
--   and the audit anchors. The example store and its writer are the fields of `Library`; a write
--   that raises may have changed the store.
-- * Gc (plugins/cache_gc.py): Ttl has the lifetime read from the environment, Walking the walk over
--   the bundles with what other processes do to them, Collector the run, its event, the stamp and
--   the run that happens once a day. Times are nanoseconds, so the rounding of floats is left out,
--   as are the lock file and file modes.
--
-- Prelude has what they share: tests on numbers, lists, dicts, texts, integers, sorting, and the
-- outcome of a call that returns or raises.
--
-- Fuel: the walk of `extends` takes one more than the limit of depth, which is enough since each
-- call adds a name to those visited and the walk refuses at the limit. The walk of a decoded value
-- takes two more than its cap, since each call is one level deeper and it raises above the cap.
-- Every other loop is recursion on the list it goes over.
--
-- Not modelled: the probes themselves, subprocesses, log lines, file modes and paths, the command
-- line, the retrieval store, the recipe engines and the data catalogs, which are input and output
-- or the work of other packages; and the cache's store and the truncation of raw output. SQLite,
-- zstd, YAML and JSON are taken by what they document. Exceptions that a probe's `applies` or the
-- cache raises are left out of the coordinator, and so is the sampled memory use.
pub mod Prelude
pub mod Budget
pub mod Workflows
pub mod Plugins
pub mod Coordinator
pub mod Parsers
pub mod Events
pub mod Probes
pub mod Fallback
pub mod Gc
