-- ===== src/Engine/Bootstrap/Tests.antt =====
-- internal/mirror/engine.go: the offset syncs of the first of two flows are set up, the second has none.
use gomm.Prelude.{◌≡◌, refl, true, List, [], ◌∷◌, All, bytes_beq, bytes_beq_iff, lookup, insert}
use gomm.Config.{ReplicationConfig, bool_default}
use gomm.Policy.{new_policy}
use gomm.Offset.Reader.{live, read_to_end, apply_records}
use gomm.Engine.{Engine, flow_key}
use gomm.Engine.Tests.{prefixes, us_eu, eu_us, flows, two_clusters, made, made-built}
use gomm.Engine.Bootstrap.{
  BootClients, boot_goes_on, emits_syncs, boot_flow, bootstrap_offset_syncs, readyz,
}
use gomm.Engine.Bootstrap.Writers.{Served}
use gomm.Engine.Bootstrap.Readiness.{bootstrap-Served, readyz-unserved}

-- The topic is empty.
abbrev clients : BootClients
clients = record {
  admin_connects = true;
  reader_connects = true;
  polls = record { context = live; errors = 0; records = [] } ∷ [];
  writer_connects = true;
}

abbrev boots : List (ReplicationConfig × BootClients)
boots = (us_eu, clients) ∷ (eu_us, clients) ∷ []

abbrev after : Engine
after = (bootstrap_offset_syncs made boots).0

booted : bootstrap_offset_syncs made boots ≡ (after, boot_goes_on)
unfolding bootstrap_offset_syncs boot_flow bool_default new_policy bytes_beq lookup insert flow_key
    read_to_end apply_records
booted = refl

bootstrap-Served_example :
    All (λ (f : ReplicationConfig × BootClients). emits_syncs f.0 ≡ true → Served after f.0) boots
unfolding bool_default
bootstrap-Served_example =
    bootstrap-Served prefixes two_clusters flows made after boots made-built
      (((λ on. cc on), tt), (tt, tt)) booted

readyz-unserved_example : readyz after ≡ 503
unfolding bool_default flow_key insert lookup bytes_beq
readyz-unserved_example =
    readyz-unserved prefixes two_clusters flows made after boots eu_us 1 made-built booted refl (
      (λ on same. cc ((bytes_beq_iff (flow_key us_eu) (flow_key eu_us)).1 same)),
      ((λ on. cc on), tt),
    )
