-- ===== src/Admin/Tests.antt =====
-- internal/admin/topic_sync.go: a config that differs, one that agrees and one of the target alone.
use gomm.Prelude.{
  ◌≡◌, refl, [], ◌∷◌, ◌++◌, none, some, arith, Bytes, codes, bytes_beq, bytes_eq, lookup,
}
use gomm.Admin.{Configs, is_allowed, sync_topic_configs}
use gomm.Admin.Convergence.{
  UniqueNames, or_else, wanted, configs_after, sync_topic_configs_converges,
}

abbrev source : Configs
source = (codes "retention", codes "7") ∷ (codes "cleanup", codes "compact") ∷ []

abbrev target : Configs
target =
    (codes "retention", codes "3")
    ∷ (codes "cleanup", codes "compact")
    ∷ (codes "quota", codes "9")
    ∷ []

-- Altered configs stand before those that were there.
lookup-appended :
    (configs held : Configs) (n : Bytes)
    → lookup n (configs ++ held) ≡ or_else (lookup n configs) (lookup n held)
unfolding lookup
lookup-appended [] held n = refl
lookup-appended ((name, value) ∷ more) held n = ground (arith, lookup-appended more held n)

source-UniqueNames : UniqueNames source
unfolding lookup bytes_beq
source-UniqueNames = (refl, (refl, tt))

sync_topic_configs_converges_example :
    lookup (codes "retention") (
      configs_after none target
        (λ configs held. configs ++ held)
        (sync_topic_configs none (some source) (some target)))
    ≡ wanted
        (is_allowed none (codes "retention"))
        (lookup (codes "retention") source)
        (lookup (codes "retention") target)
sync_topic_configs_converges_example =
    sync_topic_configs_converges none target (λ configs held. configs ++ held) lookup-appended
      source (codes "retention") source-UniqueNames
