-- ===== src/Mirror/Discovery/Tests.antt =====
-- internal/mirror/topic_discovery.go: a round with a new topic, a grown topic and a copy.
use gomm.Prelude.{
  ◌≡◌, refl, Bool, true, List, [], ◌∷◌, none, some, All, Bytes, codes, bytes_beq, has_prefix,
  if◌then◌else◌, bytes_eq,
}
use gomm.Filter.{RegexpEngine}
use gomm.Policy.{default}
use gomm.Mirror.Discovery.{Topics, TopicDiscovery, refresh, Subscription, has_name, update_topics}
use gomm.Mirror.Discovery.Coverage.{IsDue, IsServed, refresh-AllDue, refresh-AllServed}
use gomm.Mirror.Discovery.Subscriptions.{InStep, update_topics-InStep}

abbrev prefixes : RegexpEngine
prefixes = record {
  Regexp = Bytes;
  compile = λ p. if bytes_beq p (codes "(") then none else some p;
  match_string = has_prefix;
}

abbrev from_us : TopicDiscovery prefixes
from_us = record {
  source_alias = codes "us";
  configs_synced = true;
  topic_filter = record { whitelist = []; blacklist = [] };
  policy = default (codes ".");
}

abbrev source : Topics
source = (codes "orders", 4) ∷ (codes "users", 6) ∷ (codes "eu.orders", 4) ∷ []

abbrev target : Topics
target = (codes "us.users", 2) ∷ (codes "orders", 4) ∷ []

abbrev creates : Bytes → Bool
creates name = true

refresh-AllDue_example :
    All
      (IsDue prefixes from_us creates target source)
      (refresh prefixes from_us creates (some source) (some target)).0
refresh-AllDue_example = refresh-AllDue prefixes from_us creates target source

refresh-AllServed_example :
    All
      (IsServed prefixes from_us creates target
        (refresh prefixes from_us creates (some source) (some target)).0)
      source
refresh-AllServed_example = refresh-AllServed prefixes from_us creates target source

abbrev no_topics : Subscription
no_topics = record { has_consumer = true; subscribed = []; consumed = [] }

abbrev offered : List Bytes
offered = codes "orders" ∷ codes "users" ∷ codes "orders" ∷ []

update_topics-InStep_example :
    InStep (update_topics no_topics offered)
    × (no_topics.has_consumer ≡ true
        → All (λ t. has_name t (update_topics no_topics offered).subscribed ≡ true) offered)
update_topics-InStep_example =
    update_topics-InStep no_topics offered (record { agree = λ t. refl; once = tt })
