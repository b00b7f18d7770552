-- ===== src/Workflows/Sqlite/Tests.antt =====
-- The SQLite store on a substrate whose texts are the ids of events, and the theorems of the module
-- beside this one on it.
use codewizard_sherpa.Prelude.{String, ◌≡◌, refl, some, none, [], if◌then◌else◌}
use codewizard_sherpa.Prelude.Dict
use codewizard_sherpa.Prelude.Texts.{codes, text_eq, remove_prefix}
use codewizard_sherpa.Prelude.Outcome.{err}
use codewizard_sherpa.Workflows.Ledger.{
  LedgerStateKind, needs_plan, plan_ready, patch_applied, TransitionEvent, null,
}
use codewizard_sherpa.Workflows.Checkpoints.{
  Substrate, assert_boundary, compute_chain_head, content_hash_bytes,
}
use codewizard_sherpa.Workflows.Sqlite.{
  SqliteStore, integrity_error, table_of, conflicts, insert, tail_of, sqlite_tail_chain_head,
  prepare, sqlite_append,
}
use codewizard_sherpa.Workflows.Sqlite.Refinement.{Refines, sqlite_append-Refines}

abbrev event : String → LedgerStateKind → LedgerStateKind → TransitionEvent
event id prior next = record {
  transition_id = id;
  prior_state_id = prior;
  next_state_id = next;
  triggering_outcome = null;
  evidence_digest = "d";
  chain_head = [];
  workflow_id = "w";
}

abbrev planned : TransitionEvent
planned = event "p" needs_plan plan_ready

abbrev patched : TransitionEvent
patched = event "q" plan_ready patch_applied

abbrev ids : Substrate
ids = record {
  model_dump_json = λ e. codes e.transition_id;
  model_validate_json = λ b.
      if text_eq b (codes "p")
      then some planned
      else if text_eq b (codes "q")
      then some patched
      else none;
  blake3_hexdigest = λ b. b;
  sanitize_for_persistence = λ b. b;
}

abbrev once : SqliteStore
once = (sqlite_append ids (codes "t") planned []).1

repeated_run : (sqlite_append ids (codes "u") planned once).0 ≡ err integrity_error
unfolding sqlite_append prepare assert_boundary compute_chain_head content_hash_bytes remove_prefix
    sqlite_tail_chain_head tail_of table_of insert conflicts Dict.get Dict.put
repeated_run = refl

sqlite_append-Refines_example :
    Refines ids (codes "u") planned once (sqlite_append ids (codes "u") planned once).0
sqlite_append-Refines_example = sqlite_append-Refines ids (codes "u") planned once
