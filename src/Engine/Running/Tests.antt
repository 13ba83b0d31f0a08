-- ===== src/Engine/Running/Tests.antt =====
-- internal/mirror/engine.go: a run of an engine whose second checkpoint emitter does not connect.
use gomm.Prelude.{◌≡◌, refl, true, [], ◌∷◌, nat_beq, bytes_beq, lookup, insert}
use gomm.Config.{bool_default}
use gomm.Policy.{new_policy}
use gomm.Offset.Reader.{live, read_to_end, apply_records}
use gomm.Mirror.Lifecycle.{source_start, checkpoint_start, heartbeat_start, discovery_start}
use gomm.Engine.{flow_key}
use gomm.Engine.Bootstrap.{boot_flow, bootstrap_offset_syncs}
use gomm.Engine.Tests.{made, good, us_eu}
use gomm.Engine.Running.{RunClients, checkpoint_start_failed, run}
use gomm.Engine.Running.Ending.{EndsSo, run-EndsSo}

abbrev clients : RunClients
clients = record {
  boots =
      (
        us_eu,
        record {
          admin_connects = true;
          reader_connects = true;
          polls = record { context = live; errors = 0; records = [] } ∷ [];
          writer_connects = true;
        },
      )
      ∷ [];
  consumer = λ n. good;
  producer = λ n. good;
  heartbeat = λ n. good;
  checkpoint_admin = λ n. record { builds_opts = true; connects = nat_beq n 0 };
  checkpoint_producer = λ n. good;
}

second_checkpoint_failed : (run clients made).1 ≡ checkpoint_start_failed
unfolding run bootstrap_offset_syncs boot_flow bool_default new_policy bytes_beq lookup insert
    flow_key read_to_end apply_records source_start checkpoint_start heartbeat_start discovery_start
second_checkpoint_failed = refl

run-EndsSo_example : EndsSo made (run clients made)
run-EndsSo_example = run-EndsSo clients made
