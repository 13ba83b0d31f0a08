-- ===== src/Admin/Convergence.antt =====
-- internal/admin/topic_sync.go: the target's configs after a round.
use mathlib.Core.Path.{subst}
use gomm.Prelude.{
  ◌≡◌, refl, ap, ◌∙◌, Bool, true, false, ◌&&◌, [], ◌∷◌, Option, none, some, arith, Bool-cases, inl,
  inr, if◌then◌else◌, Bytes, bytes_beq, bytes_beq_iff, bytes_eq, lookup,
}
use gomm.Admin.{
  Configs, is_allowed, differs, to_apply, SyncStep, describe_failed, nothing_to_apply, alter,
  alter_unless_empty, sync_topic_configs,
}

-- A Go map has one entry for a key.
abbrev pub UniqueNames : Configs → Type 0
UniqueNames [] = Unit {0}
UniqueNames ((name, value) ∷ more) = (lookup name more ≡ none) × UniqueNames more

-- The first map's value, or else the second's.
abbrev pub or_else : Option Bytes → Option Bytes → Option Bytes
or_else none other = other
or_else (some value) other = some value

-- The value that a name should have: the source's, if it is allowed and has one.
abbrev pub wanted : Bool → Option Bytes → Option Bytes → Option Bytes
wanted allowed source target = if allowed then or_else source target else target

-- What is applied under a name, from its value in the source.
abbrev applied : Bool → Option Bytes → Option Bytes → Option Bytes
applied allowed none target = none
applied allowed (some value) target = if allowed && differs target value then some value else none

module _ (allowed : Option (Bytes → Bool)) (target : Configs) where
  lookup-to_apply :
      (name : Bytes) (source : Configs)
      → UniqueNames source
      → lookup name (to_apply allowed target source)
        ≡ applied (is_allowed allowed name) (lookup name source) (lookup name target)
  unfolding to_apply lookup
  lookup-to_apply name [] h = refl
  lookup-to_apply name ((first, value) ∷ more) (h, k) = elim (Bool-cases (bytes_beq first name)) [
    | inl same ↦
        let e : first ≡ name = (bytes_beq_iff first name).0 same in
        subst
          (λ n.
            lookup n (to_apply allowed target ((first, value) ∷ more))
            ≡ applied (is_allowed allowed n) (lookup n ((first, value) ∷ more)) (lookup n target))
          e (ground (arith, bytes_beq_iff first first, lookup-to_apply first more k))
    | inr other ↦ ground (arith, other, lookup-to_apply name more k)
  ]

  -- What the target holds after a round, where AlterTopicConfigs succeeds.
  abbrev pub configs_after : (Configs → Configs → Configs) → SyncStep → Configs
  configs_after alter_configs describe_failed = target
  configs_after alter_configs nothing_to_apply = target
  configs_after alter_configs (alter configs) = alter_configs configs target

  after_alter :
      (alter_configs : Configs → Configs → Configs)
      → ((configs held : Configs) (n : Bytes)
          → lookup n (alter_configs configs held) ≡ or_else (lookup n configs) (lookup n held))
      → (name : Bytes) (configs : Configs)
      → lookup name (configs_after alter_configs (alter_unless_empty configs))
        ≡ or_else (lookup name configs) (lookup name target)
  unfolding lookup
  after_alter alter_configs sets name [] = refl
  after_alter alter_configs sets name (c ∷ cs) = sets (c ∷ cs) target name

  merge :
      (on : Bool) (source held : Option Bytes)
      → or_else (applied on source held) held ≡ wanted on source held
  merge on none held = ground arith
  merge false (some value) held = refl
  merge true (some value) none = refl
  merge true (some value) (some old) = ground (arith, bytes_beq_iff old value)

  -- Where altering configs sets the values that are listed and leaves the others, a round for which
  -- both descriptions could be had brings the target in line: a name that is allowed and set in the
  -- source has the source's value, and every other name has what it had.
  pub sync_topic_configs_converges :
      (alter_configs : Configs → Configs → Configs)
      → ((configs held : Configs) (n : Bytes)
          → lookup n (alter_configs configs held) ≡ or_else (lookup n configs) (lookup n held))
      → (source : Configs) (name : Bytes) → UniqueNames source
      → lookup name
          (configs_after alter_configs (sync_topic_configs allowed (some source) (some target)))
        ≡ wanted (is_allowed allowed name) (lookup name source) (lookup name target)
  unfolding sync_topic_configs
  sync_topic_configs_converges alter_configs sets source name h =
      after_alter alter_configs sets name (to_apply allowed target source)
      ∙ ap (λ o. or_else o (lookup name target)) (lookup-to_apply name source h)
      ∙ merge (is_allowed allowed name) (lookup name source) (lookup name target)
