-- ===== src/Admin.antt =====
-- internal/admin/topic_sync.go: SyncTopicConfigs. Configs are maps from names to values; what the
-- admin client answers is an argument, `none` its error.
pub mod Convergence
mod Tests
use gomm.Prelude.{
  Bool, true, false, not, ◌&&◌, List, [], ◌∷◌, Option, none, some, if◌then◌else◌, Bytes, bytes_beq,
  bytes_eq, lookup,
}

abbrev pub Configs : Type 0
Configs = List (Bytes × Bytes)

-- allowedProps: nil allows all; a map allows what it has as true.
abbrev pub is_allowed : Option (Bytes → Bool) → Bytes → Bool
is_allowed none name = true
is_allowed (some props) name = props name

-- tgtVal, exists := tgtConfigs[k]; !exists || tgtVal != v
abbrev pub differs : Option Bytes → Bytes → Bool
differs none value = true
differs (some held) value = not (bytes_beq held value)

-- The loop over the source's configs.
unfoldable pub to_apply : Option (Bytes → Bool) → Configs → Configs → Configs
to_apply allowed target [] = []
to_apply allowed target ((name, value) ∷ more) =
    let rest = to_apply allowed target more in
    if is_allowed allowed name && differs (lookup name target) value
    then (name, value) ∷ rest
    else rest

-- What SyncTopicConfigs asks AlterTopicConfigs for, if anything, or the error of a description.
pub data SyncStep : Type 0 where
  describe_failed nothing_to_apply : SyncStep
  alter : Configs → SyncStep

abbrev pub alter_unless_empty : Configs → SyncStep
alter_unless_empty [] = nothing_to_apply
alter_unless_empty (c ∷ cs) = alter (c ∷ cs)

unfoldable pub sync_topic_configs :
    Option (Bytes → Bool) → Option Configs → Option Configs → SyncStep
sync_topic_configs allowed none target = describe_failed
sync_topic_configs allowed (some source) none = describe_failed
sync_topic_configs allowed (some source) (some target) =
    alter_unless_empty (to_apply allowed target source)
