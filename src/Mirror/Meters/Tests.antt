-- ===== src/Mirror/Meters/Tests.antt =====
-- internal/mirror/source.go: a flush that comes before the second record, on the metrics of New.
use gomm.Prelude.{
  ℕ, ◌+◌, ◌≡◌, Bool, true, false, List, [], ◌∷◌, none, length, nat_beq, nat_beq_iff, Bytes, codes,
}
use gomm.Policy.{new_default_policy}
use gomm.Metrics.{new_metrics}
use gomm.Mirror.Source.{SourceRecord}
use gomm.Mirror.Meters.{new_meters, meter_polls}
use gomm.Mirror.Meters.Panicking.{meter_polls-panics}

-- One sign for a number.
abbrev sign : ℕ → Bytes
sign n = (n + 59) ∷ []

abbrev as_many : List Bytes → List Bytes → Bool
as_many names values = nat_beq (length names) (length values)

abbrev order : ℕ → Bytes → SourceRecord
order p value = record {
  topic = codes "orders";
  partition = p;
  offset = 0;
  key = [];
  value = value;
  headers = [];
  timestamp = 0;
}

abbrev polls : List (Bool × List SourceRecord)
polls =
    (true, [])
    ∷ (false, order 0 (codes "ab") ∷ order 1 (codes "c") ∷ [])
    ∷ (true, order 0 (codes "d") ∷ [])
    ∷ []

meter_polls-panics_example :
    meter_polls sign
      (new_default_policy (codes "."))
      (codes "us")
      new_metrics
      as_many
      (codes "eu")
      polls
      new_meters
    ≡ none
meter_polls-panics_example =
    meter_polls-panics sign (new_default_policy (codes ".")) (codes "us") as_many
      (λ names values h. (nat_beq_iff (length names) (length values)).0 h) (codes "eu") polls
      (λ h. cc h)
