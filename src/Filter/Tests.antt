-- ===== src/Filter/Tests.antt =====
-- internal/filter/topic.go with an engine that matches prefixes and refuses a lone bracket.
use gomm.Prelude.{
  ◌≡◌, ◌↔◌, refl, true, false, List, [], ◌∷◌, none, some, Bytes, bytes_beq, has_prefix, codes,
  if◌then◌else◌,
}
use gomm.Filter.{
  RegexpEngine, TopicFilter, GroupFilter, ConfigPropertyFilter, compile_patterns, new_topic_filter,
  topic_passes, property_passes, passes_lists,
}
use gomm.Filter.Decision.{Admits, topic_passes_iff}

abbrev prefixes : RegexpEngine
prefixes = record {
  Regexp = Bytes;
  compile = λ p. if bytes_beq p (codes "(") then none else some p;
  match_string = has_prefix;
}

abbrev wl : List Bytes
wl = codes "orders" ∷ []

abbrev bl : List Bytes
bl = codes "orders-test" ∷ []

abbrev topics : TopicFilter prefixes
topics = record { whitelist = wl; blacklist = bl }

abbrev groups : GroupFilter prefixes
groups = record { whitelist = wl; blacklist = bl }

abbrev properties : ConfigPropertyFilter prefixes
properties = record { whitelist = []; blacklist = bl }

decisions :
    (topic_passes prefixes topics (codes "orders-1") ≡ true)
    × (topic_passes prefixes topics (codes "orders-test-1") ≡ false)
    × (topic_passes prefixes topics (codes "__orders") ≡ false)
    × (property_passes prefixes properties (codes "retention.ms") ≡ true)
unfolding topic_passes property_passes has_prefix passes_lists
decisions = (refl, refl, refl, refl)

topic_passes_iff_example : (topic_passes prefixes topics (codes "orders-1") ≡ true) ↔ (
    (has_prefix (codes "__") (codes "orders-1") ≡ false)
    × (has_prefix (codes ".") (codes "orders-1") ≡ false)
    × Admits prefixes wl bl (codes "orders-1"))
topic_passes_iff_example =
    topic_passes_iff prefixes wl bl (codes "orders-1")
      (unfold new_topic_filter compile_patterns bytes_beq in refl)
