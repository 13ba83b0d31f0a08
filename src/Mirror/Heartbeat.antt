-- ===== src/Mirror/Heartbeat.antt =====
-- internal/mirror/heartbeat.go: the record that emitHeartbeat produces. Start and Stop are
-- Mirror.Lifecycle; the callback of Produce only logs and observes the latency.
mod Tests
use gomm.Prelude.{Bytes, Int64}
use gomm.Types.{Heartbeat}
use gomm.Types.Codec.{heartbeat_key, heartbeat_value}
use gomm.Policy.{ReplicationPolicy, heartbeats_topic}
use gomm.Offset.Writer.{Record}

-- At a time in milliseconds.
unfoldable pub heartbeat_record : ReplicationPolicy → Bytes → Bytes → Int64 → Record
heartbeat_record policy source target now =
    let beat : Heartbeat = record {
      source_cluster = source;
      target_cluster = target;
      timestamp = now;
    } in
    record {
      topic = heartbeats_topic policy;
      key = heartbeat_key beat;
      value = heartbeat_value beat;
    }
