-- ===== src/Filter/Decision.antt =====
-- internal/filter/topic.go: what the filters decide, in terms of the configured patterns.
use mathlib.Core.List.{Memᴰ}
use mathlib.Core.Path.{subst}
use gomm.Prelude.{
  ◌≡◌, ◌≢◌, ◌⊎◌, ◌↔◌, inl, inr, refl, true, false, List, [], ◌∷◌, none, some, arith, Bool-cases,
  Option-cases, Bytes, has_prefix, codes,
}
use gomm.Filter.{
  RegexpEngine, TopicFilter, GroupFilter, ConfigPropertyFilter, compile_patterns, new_topic_filter,
  new_group_filter, new_config_property_filter, matches_any, passes_lists, topic_passes,
  group_passes, property_passes,
}

module _ (engine : RegexpEngine) where
  open engine use {Regexp, compile, match_string}

  -- One of the patterns compiles to an expression that matches the name.
  pub record Matched (patterns : List Bytes) (name : Bytes) : Type 0 where
    pub pattern_text : Bytes
    pub listed : Memᴰ pattern_text patterns
    pub regexp : Regexp
    pub compiled : compile pattern_text ≡ some regexp
    pub matching : match_string regexp name ≡ true

  -- What the lists of a configuration admit: nothing of the blacklist, and of the whitelist
  -- something, unless that is empty.
  abbrev pub Admits : List Bytes → List Bytes → Bytes → Type 0
  Admits whitelist blacklist name =
      (¬ Matched blacklist name) × ((whitelist ≡ []) ⊎ Matched whitelist name)

  -- The parts of a list that compiled.
  compile_patterns-cons :
      (p : Bytes) (ps : List Bytes) (l : List Regexp)
      → compile_patterns engine (p ∷ ps) ≡ some l
      → (re : Regexp) × (rest : List Regexp) × (compile p ≡ some re)
        × (compile_patterns engine ps ≡ some rest)
        × (l ≡ re ∷ rest)
  unfolding compile_patterns
  compile_patterns-cons p ps l h = ground arith

  found-Matched :
      (ps : List Bytes) (l : List Regexp) (name : Bytes)
      → compile_patterns engine ps ≡ some l
      → matches_any engine l name ≡ true
      → Matched ps name
  unfolding compile_patterns matches_any
  found-Matched [] l name h m = absurd (no_match (ground arith))
    where
      no_match : l ≡ [] → ⊥
      no_match e = ground arith
  found-Matched (p ∷ ps) l name h m =
      let (re, rest, cp, cps, e) = compile_patterns-cons p ps l h in
      elim (Bool-cases (match_string re name)) [
        | inl hit ↦ record {
          pattern_text = p;
          listed = Memᴰ.head refl;
          regexp = re;
          compiled = cp;
          matching = hit;
        }
        | inr miss ↦ later (found-Matched ps rest name cps (ground arith))
      ]
    where
      later : Matched ps name → Matched (p ∷ ps) name
      later r = record {
        pattern_text = r.pattern_text;
        listed = Memᴰ.tail r.listed;
        regexp = r.regexp;
        compiled = r.compiled;
        matching = r.matching;
      }

  listed-found :
      (ps : List Bytes) (l : List Regexp) (name p : Bytes) (re : Regexp)
      → compile_patterns engine ps ≡ some l
      → Memᴰ p ps
      → compile p ≡ some re
      → match_string re name ≡ true
      → matches_any engine l name ≡ true
  unfolding matches_any
  listed-found [] l name p re h r c m = elim r [ ]
  listed-found (q ∷ ps) l name p re h (Memᴰ.head e) c m =
      let (re', rest, cp, cps, eq) = compile_patterns-cons q ps l h in ground arith
  listed-found (q ∷ ps) l name p re h (Memᴰ.tail r) c m =
      let (re', rest, cp, cps, eq) = compile_patterns-cons q ps l h in
      ground (arith, listed-found ps rest name p re cps r c m)

  matches_any_iff :
      (ps : List Bytes) (l : List Regexp) (name : Bytes)
      → compile_patterns engine ps ≡ some l
      → (matches_any engine l name ≡ true) ↔ Matched ps name
  matches_any_iff ps l name h = (
    found-Matched ps l name h,
    λ r. listed-found ps l name r.pattern_text r.regexp h r.listed r.compiled r.matching,
  )

  compiled-nil : (ps : List Bytes) → compile_patterns engine ps ≡ some [] → ps ≡ []
  compiled-nil [] h = refl
  compiled-nil (p ∷ ps) h = let (re, rest, cp, cps, e) = compile_patterns-cons p ps [] h in cc

  passes_lists-true :
      (wl bl : List Regexp) (name : Bytes)
      → (passes_lists engine wl bl name ≡ true)
        ↔ ((matches_any engine bl name ≡ false) × ((wl ≡ []) ⊎ (matches_any engine wl name ≡ true)))
  unfolding passes_lists
  passes_lists-true [] bl name = ground arith
  passes_lists-true (re ∷ rest) bl name = ground arith

  passes_lists_iff :
      (whitelist blacklist : List Bytes) (wl bl : List Regexp) (name : Bytes)
      → compile_patterns engine whitelist ≡ some wl
      → compile_patterns engine blacklist ≡ some bl
      → (passes_lists engine wl bl name ≡ true) ↔ Admits whitelist blacklist name
  unfolding compile_patterns
  passes_lists_iff whitelist blacklist wl bl name hw hb =
      let parts = passes_lists-true wl bl name in
      let white = matches_any_iff whitelist wl name hw in
      let black = matches_any_iff blacklist bl name hb in
      (
        λ h. (
          λ r. cc ((parts.0 h).0, black.1 r),
          elim ((parts.0 h).1) [
            | inl e ↦ inl (
                compiled-nil whitelist
                  (subst (λ l. compile_patterns engine whitelist ≡ some l) e hw))
            | inr m ↦ inr (white.0 m)
          ],
        ),
        λ a. parts.1 (
          elim (Bool-cases (matches_any engine bl name)) [
            | inl hit ↦ absurd (a.0 (black.0 hit))
            | inr miss ↦ miss
          ],
          elim (a.1) [ inl e ↦ inl (none_compiled e) | inr m ↦ inr (white.1 m) ],
        ),
      )
    where
      none_compiled : whitelist ≡ [] → wl ≡ []
      none_compiled e = ground (arith, subst (λ ps. compile_patterns engine ps ≡ some wl) e hw)

  compiled_parts :
      (wp bp : List Bytes) {tf : TopicFilter engine}
      → new_topic_filter engine wp bp ≡ some tf
      → (compile_patterns engine wp ≡ some tf.whitelist)
        × (compile_patterns engine bp ≡ some tf.blacklist)
  unfolding new_topic_filter
  compiled_parts wp bp h = ground arith

  -- A topic filter that was built from two lists of patterns passes a topic exactly when it begins
  -- neither with two underscores nor with a dot, no blacklist pattern matches it, and the whitelist
  -- is empty or one of its patterns matches it.
  pub topic_passes_iff :
      (whitelist blacklist : List Bytes) (topic : Bytes) {tf : TopicFilter engine}
      → new_topic_filter engine whitelist blacklist ≡ some tf
      → (topic_passes engine tf topic ≡ true) ↔ (
          (has_prefix (codes "__") topic ≡ false)
          × (has_prefix (codes ".") topic ≡ false)
          × Admits whitelist blacklist topic)
  unfolding topic_passes
  topic_passes_iff whitelist blacklist topic {tf} h =
      let parts = compiled_parts whitelist blacklist h in
      let admits =
        passes_lists_iff whitelist blacklist tf.whitelist tf.blacklist topic parts.0 parts.1 in
      (
        λ e. (ground arith, ground arith, admits.0 (ground arith)),
        λ a. ground (arith, admits.1 a.2, a.0, a.1),
      )

  -- A group filter that was built from two lists of patterns passes a group exactly when no
  -- blacklist pattern matches it and the whitelist is empty or one of its patterns matches it.
  pub group_passes_iff :
      (whitelist blacklist : List Bytes) (group : Bytes) {gf : GroupFilter engine}
      → new_group_filter engine whitelist blacklist ≡ some gf
      → (group_passes engine gf group ≡ true) ↔ Admits whitelist blacklist group
  unfolding group_passes new_group_filter
  group_passes_iff whitelist blacklist group {gf} h =
      passes_lists_iff whitelist blacklist gf.whitelist gf.blacklist group (ground arith)
        (ground arith)

  -- So does the filter of config properties.
  pub property_passes_iff :
      (whitelist blacklist : List Bytes) (property : Bytes) {cf : ConfigPropertyFilter engine}
      → new_config_property_filter engine whitelist blacklist ≡ some cf
      → (property_passes engine cf property ≡ true) ↔ Admits whitelist blacklist property
  unfolding property_passes new_config_property_filter
  property_passes_iff whitelist blacklist property {cf} h =
      passes_lists_iff whitelist blacklist cf.whitelist cf.blacklist property (ground arith)
        (ground arith)

  compiles_all :
      (ps : List Bytes) {l : List Regexp} (p : Bytes)
      → compile_patterns engine ps ≡ some l
      → Memᴰ p ps
      → compile p ≢ none
  compiles_all [] p h m = elim m [ ]
  compiles_all (q ∷ ps) {l} p h (Memᴰ.head e) =
      let (re, rest, cp, cps, eq) = compile_patterns-cons q ps l h in λ n. ground arith
  compiles_all (q ∷ ps) {l} p h (Memᴰ.tail m) =
      let (re, rest, cp, cps, eq) = compile_patterns-cons q ps l h in compiles_all ps p cps m

  fails_some :
      (ps : List Bytes)
      → compile_patterns engine ps ≡ none
      → (p : Bytes) × Memᴰ p ps × (compile p ≡ none)
  unfolding compile_patterns
  fails_some [] h = cc
  fails_some (p ∷ ps) h = elim (Option-cases (compile p)) [
    | inl bad ↦ (p, Memᴰ.head refl, bad)
    | inr (re, good) ↦ later (fails_some ps (ground arith))
  ]
    where
      later :
          (q : Bytes) × Memᴰ q ps × (compile q ≡ none)
          → (q : Bytes) × Memᴰ q (p ∷ ps) × (compile q ≡ none)
      later (q, m, bad) = (q, Memᴰ.tail m, bad)

  -- A list of patterns is refused exactly when one of them does not compile.
  pub compile_patterns-none_iff :
      (ps : List Bytes)
      → (compile_patterns engine ps ≡ none) ↔ ((p : Bytes) × Memᴰ p ps × (compile p ≡ none))
  compile_patterns-none_iff ps =
      (fails_some ps, λ r. refused r (Option-cases (compile_patterns engine ps)))
    where
      refused :
          ((p : Bytes) × Memᴰ p ps × (compile p ≡ none))
          → (compile_patterns engine ps ≡ none)
            ⊎ ((l : List Regexp) × (compile_patterns engine ps ≡ some l))
          → compile_patterns engine ps ≡ none
      refused r (inl e) = e
      refused (p, m, bad) (inr (l, e)) = absurd (compiles_all ps p e m bad)
