-- ===== src/Mirror/Lifecycle/Ownership.antt =====
-- internal/mirror: the clients of a component are open exactly while it runs.
use gomm.Prelude.{
  ℕ, suc, ◌<◌, ◌≡◌, refl, ap, ◌∙◌, Bool, true, false, not, List, [], ◌∷◌, some, arith,
  if◌then◌else◌, All,
}
use gomm.Config.{ReplicationConfig, bool_default}
use gomm.Mirror.Lifecycle.{
  Clients, remove, close_client, Dialing, Pair, start_both, source_start, checkpoint_start,
  pair_stop, new_pair, already_running, disabled,
}

remove-below : (id : ℕ) (ids : List ℕ) → All (λ i. i < id) ids → remove id ids ≡ ids
remove-below id [] h = refl
remove-below id (i ∷ more) (low, h) = ground (arith, remove-below id more h)

-- The last id, and one before it, are removed from ids below.
remove-first : (id : ℕ) (ids : List ℕ) → All (λ i. i < id) ids → remove id (id ∷ ids) ≡ ids
remove-first id ids h = ground (arith, remove-below id ids h)

All-below : (a b : ℕ) (ids : List ℕ) → a < b → All (λ i. i < a) ids → All (λ i. i < b) ids
All-below a b [] h k = tt
All-below a b (i ∷ more) h (low, k) = (omega arith, All-below a b more h k)

remove-both :
    (a b : ℕ) (ids : List ℕ)
    → a < b
    → All (λ i. i < a) ids
    → remove b (remove a (b ∷ a ∷ ids)) ≡ ids
remove-both a b ids order h =
    let one : remove a (b ∷ a ∷ ids) ≡ b ∷ ids = ground (arith, remove-first a ids h) in
    ap (remove b) one ∙ remove-first b ids (All-below a b ids order h)

-- Beside the clients `others` of the rest of the program, the open clients are those of the
-- component, two if it runs and none if it does not, and it has a loop exactly if it runs.
abbrev pub PairOwns : List ℕ → Pair × Clients → Type 0
PairOwns others (c, w) =
    All (λ i. i < w.next_id) others
    × (c.running ≡ false → (w.opened ≡ others) × (c.loops ≡ 0))
    × (c.running ≡ true
        → (a : ℕ) × (b : ℕ) × (c.first ≡ some a)
          × (c.second ≡ some b)
          × (w.opened ≡ b ∷ a ∷ others)
          × All (λ i. i < a) others
          × (a < b)
          × (b < w.next_id)
          × (c.loops ≡ 1))

start_both-PairOwns :
    (others : List ℕ) (first second : Dialing) (c : Pair) (w : Clients)
    → c.running ≡ false
    → PairOwns others (c, w)
    → PairOwns others (start_both first second c w).0
start_both-PairOwns others first second c w idle (low, stopped, running) =
    by_dialing first.builds_opts first.connects second.builds_opts second.connects
  where
    here : w.opened ≡ others
    here = (stopped idle).0

    low_next : All (λ i. i < suc w.next_id) others
    low_next = All-below w.next_id (suc w.next_id) others (omega arith) low

    given_up : remove w.next_id (w.next_id ∷ w.opened) ≡ others
    given_up = ap (λ l. remove w.next_id (w.next_id ∷ l)) here ∙ remove-first w.next_id others low

    dialing : Bool → Bool → Dialing
    dialing builds connects = record { builds_opts = builds; connects = connects }

    by_dialing :
        (b₁ c₁ b₂ c₂ : Bool) → PairOwns others (start_both (dialing b₁ c₁) (dialing b₂ c₂) c w).0
    by_dialing false c₁ b₂ c₂ = (low, stopped, running)
    by_dialing true false b₂ c₂ = (low, stopped, running)
    by_dialing true true false c₂ =
        (low_next, λ h. (given_up, (stopped idle).1), λ h. absurd (cc (h, idle)))
    by_dialing true true true false =
        (low_next, λ h. (given_up, (stopped idle).1), λ h. absurd (cc (h, idle)))
    by_dialing true true true true = (
      All-below w.next_id (suc (suc w.next_id)) others (omega arith) low,
      λ h. cc h,
      λ h. (
        w.next_id,
        suc w.next_id,
        refl,
        refl,
        ap (λ l. suc w.next_id ∷ w.next_id ∷ l) here,
        low,
        omega arith,
        omega arith,
        ap suc (stopped idle).1,
      ),
    )

pair_stop-PairOwns :
    (others : List ℕ) (c : Pair) (w : Clients)
    → PairOwns others (c, w)
    → PairOwns others (pair_stop c w)
unfolding pair_stop
pair_stop-PairOwns others c w (low, stopped, running) = by_running c.running refl
  where
    by_running :
        (b : Bool)
        → c.running ≡ b
        → PairOwns others (
            if not b then (c, w) else (
              record c { running = false; loops = 0 },
              close_client c.second (close_client c.first w),
            ))
    by_running false e = (low, stopped, running)
    by_running true e =
        let (a, b, first, second, opened, low_a, order, below, loops) = running e in
        rw (first, second)
          (
            low,
            λ h.
                (ap (λ l. remove b (remove a l)) opened ∙ remove-both a b others order low_a, refl),
            λ h. cc h,
          )

-- The calls on a component; a component gets those of its own kind.
pub data PairCall : Type 0 where
  source_starts : Dialing → Dialing → PairCall
  checkpoint_starts : ReplicationConfig → Dialing → Dialing → PairCall
  stops : PairCall

unfoldable pub pair_call : Pair × Clients → PairCall → Pair × Clients
pair_call (c, w) (source_starts first second) = (source_start first second c w).0
pair_call (c, w) (checkpoint_starts cfg first second) = (checkpoint_start cfg first second c w).0
pair_call (c, w) stops = pair_stop c w

unfoldable pub pair_calls : Pair × Clients → List PairCall → Pair × Clients
pair_calls st [] = st
pair_calls st (c ∷ cs) = pair_calls (pair_call st c) cs

pair_call-PairOwns :
    (others : List ℕ) (st : Pair × Clients) (call : PairCall)
    → PairOwns others st
    → PairOwns others (pair_call st call)
unfolding pair_call source_start checkpoint_start
pair_call-PairOwns others (c, w) (source_starts first second) h = by_running c.running refl
  where
    by_running :
        (b : Bool)
        → c.running ≡ b
        → PairOwns others (if b then ((c, w), already_running) else start_both first second c w).0
    by_running true e = h
    by_running false e = start_both-PairOwns others first second c w e h
pair_call-PairOwns others (c, w) (checkpoint_starts cfg first second) h =
    by_running c.running (not (bool_default cfg.emit_checkpoints true)) refl
  where
    by_running :
        (b off : Bool)
        → c.running ≡ b
        → PairOwns others
            (if b
              then ((c, w), already_running)
              else if off
              then ((c, w), disabled)
              else start_both first second c w).0
    by_running true off e = h
    by_running false true e = h
    by_running false false e = start_both-PairOwns others first second c w e h
pair_call-PairOwns others (c, w) stops h = pair_stop-PairOwns others c w h

pair_calls-PairOwns_from :
    (others : List ℕ) (st : Pair × Clients) (calls : List PairCall)
    → PairOwns others st
    → PairOwns others (pair_calls st calls)
unfolding pair_calls
pair_calls-PairOwns_from others st [] h = h
pair_calls-PairOwns_from others st (c ∷ cs) h =
    pair_calls-PairOwns_from others (pair_call st c) cs (pair_call-PairOwns others st c h)

-- Of a new replicator or checkpoint emitter, whatever calls of Start and Stop it gets and whichever of
-- them fail on the way: it runs exactly one loop and has exactly its two clients open, a different
-- one each, while it runs, and no loop and no client otherwise. The clients of others, with older
-- ids, stay as they are.
pub pair_calls-PairOwns :
    (others : List ℕ) (next : ℕ) (calls : List PairCall)
    → All (λ i. i < next) others
    → PairOwns others (pair_calls (new_pair, record { next_id = next; opened = others }) calls)
pair_calls-PairOwns others next calls low =
    pair_calls-PairOwns_from others (new_pair, record { next_id = next; opened = others }) calls
      (low, λ h. (refl, refl), λ h. cc h)
