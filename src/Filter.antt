-- ===== src/Filter.antt =====
-- internal/filter/topic.go: the filters of topics, consumer groups and config properties. Go's
-- regular expressions are a parameter: what compiles, and what a compiled pattern matches.
pub mod Decision
mod Tests
use mathlib.Core.Option
use gomm.Prelude.{
  Bool, true, false, ◌||◌, List, [], ◌∷◌, Option, none, some, if◌then◌else◌, Bytes, has_prefix,
  codes,
}

-- The package `regexp`: Compile, with its error left out, and MatchString.
pub record RegexpEngine : Type 1 where
  pub Regexp : Type 0
  pub compile : Bytes → Option Regexp
  pub match_string : Regexp → Bytes → Bool

pub record TopicFilter (engine : RegexpEngine) : Type 0 where
  pub whitelist : List (engine.Regexp)
  pub blacklist : List (engine.Regexp)

pub record GroupFilter (engine : RegexpEngine) : Type 0 where
  pub whitelist : List (engine.Regexp)
  pub blacklist : List (engine.Regexp)

pub record ConfigPropertyFilter (engine : RegexpEngine) : Type 0 where
  pub whitelist : List (engine.Regexp)
  pub blacklist : List (engine.Regexp)

infixl 5 ◌>>=◌
abbrev ◌>>=◌ {ℓ κ} : {A : Type ℓ} {B : Type κ} → Option A → (A → Option B) → Option B
none >>= f = none
some a >>= f = f a

module _ (engine : RegexpEngine) where
  open engine use {Regexp, compile, match_string}

  -- `none` is the error of the first pattern that does not compile.
  unfoldable pub compile_patterns : List Bytes → Option (List Regexp)
  compile_patterns [] = some []
  compile_patterns (p ∷ ps) = do
    re ← compile p
    compiled ← compile_patterns ps
    some (re ∷ compiled)

  unfoldable pub new_topic_filter : List Bytes → List Bytes → Option (TopicFilter engine)
  new_topic_filter whitelist blacklist = do
    wl ← compile_patterns whitelist
    bl ← compile_patterns blacklist
    some (record { whitelist = wl; blacklist = bl })

  unfoldable pub new_group_filter : List Bytes → List Bytes → Option (GroupFilter engine)
  new_group_filter whitelist blacklist = do
    wl ← compile_patterns whitelist
    bl ← compile_patterns blacklist
    some (record { whitelist = wl; blacklist = bl })

  unfoldable pub new_config_property_filter :
      List Bytes → List Bytes → Option (ConfigPropertyFilter engine)
  new_config_property_filter whitelist blacklist = do
    wl ← compile_patterns whitelist
    bl ← compile_patterns blacklist
    some (record { whitelist = wl; blacklist = bl })

  -- The loop over a list of patterns that returns at the first match.
  unfoldable pub matches_any : List Regexp → Bytes → Bool
  matches_any [] name = false
  matches_any (re ∷ rest) name = match_string re name || matches_any rest name

  -- The two loops: first the blacklist, then the whitelist, where an empty one admits all.
  unfoldable pub passes_lists : List Regexp → List Regexp → Bytes → Bool
  unfolding matches_any
  passes_lists [] blacklist name = if matches_any blacklist name then false else true
  passes_lists (re ∷ rest) blacklist name =
      if matches_any blacklist name then false else matches_any (re ∷ rest) name

  -- TopicFilter.ShouldReplicate.
  unfoldable pub topic_passes : TopicFilter engine → Bytes → Bool
  topic_passes tf topic =
      if has_prefix (codes "__") topic || has_prefix (codes ".") topic
      then false
      else passes_lists tf.whitelist tf.blacklist topic

  -- GroupFilter.ShouldReplicate.
  unfoldable pub group_passes : GroupFilter engine → Bytes → Bool
  group_passes gf group = passes_lists gf.whitelist gf.blacklist group

  -- ConfigPropertyFilter.ShouldReplicate.
  unfoldable pub property_passes : ConfigPropertyFilter engine → Bytes → Bool
  property_passes cf property = passes_lists cf.whitelist cf.blacklist property
