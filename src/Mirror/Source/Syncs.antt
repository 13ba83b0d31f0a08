-- ===== src/Mirror/Source/Syncs.antt =====
-- internal/mirror/source.go: which syncs the replication loop gives to the offset-sync store.
use mathlib.Core.Path.{subst}
use gomm.Prelude.{
  All-left, All-right, ℕ, ◌≡◌, refl, sym, ◌∙◌, Bool, true, List, [], ◌∷◌, ◌++◌, arith, All, Int64,
  IsInt64, Bytes,
}
use gomm.Types.{OffsetSync}
use gomm.Offset.Store.{handle_sync}
use gomm.Offset.Store.Contents.{Reached, handled}
use gomm.Mirror.Source.{
  SourceRecord, Delivery, acked, recovered, failed, SourceConfig, SourceState, sync_of_record,
  store_sync, write_sync, delivered, on_target, produce_all, commit_step, round, Round, rounds,
}
use gomm.Mirror.Source.Losses.{fetched_all}

-- The syncs handled so far, the latest first, after a list of deliveries: one for each that did not
-- fail.
abbrev pub syncs_after : List OffsetSync → List (SourceRecord × Delivery) → List OffsetSync
syncs_after l [] = l
syncs_after l ((r, acked downstream) ∷ more) = syncs_after (sync_of_record r downstream ∷ l) more
syncs_after l ((r, recovered downstream) ∷ more) =
    syncs_after (sync_of_record r downstream ∷ l) more
syncs_after l ((r, failed error) ∷ more) = syncs_after l more

syncs_after-append :
    (l : List OffsetSync) (xs ys : List (SourceRecord × Delivery))
    → syncs_after l (xs ++ ys) ≡ syncs_after (syncs_after l xs) ys
syncs_after-append l [] ys = refl
syncs_after-append l ((r, acked d) ∷ xs) ys = syncs_after-append (sync_of_record r d ∷ l) xs ys
syncs_after-append l ((r, recovered d) ∷ xs) ys = syncs_after-append (sync_of_record r d ∷ l) xs ys
syncs_after-append l ((r, failed e) ∷ xs) ys = syncs_after-append l xs ys

abbrev pub Int64Offset : SourceRecord × Delivery → Type 0
Int64Offset (r, d) = IsInt64 r.offset

module _ (format_int : ℕ → Bytes) (cfg : SourceConfig) (on : cfg.emits_syncs ≡ true) where
  stored :
      (st : SourceState) (r : SourceRecord) (d : Int64)
      → (store_sync format_int cfg r d st).sync_store
        ≡ handle_sync st.sync_store (sync_of_record r d)
  stored st r d = ground (arith, on)

  written_same :
      (st : SourceState) (r : SourceRecord) (d : Int64)
      → (write_sync format_int cfg r d st).sync_store ≡ st.sync_store
  written_same st r d = ground arith

  -- The state in which a record's callback runs.
  abbrev begun : SourceState → SourceRecord → Delivery → SourceState
  begun st r d = record st {
    polled = st.polled ++ ((r, d) ∷ []);
    produced = st.produced ++ on_target format_int cfg r d;
  }

  produce_all-Reached :
      (st : SourceState) (batch : List (SourceRecord × Delivery)) (l : List OffsetSync)
      → All Int64Offset batch
      → Reached l st.sync_store
      → Reached (syncs_after l batch) (produce_all format_int cfg st batch).sync_store
  unfolding produce_all delivered
  produce_all-Reached st [] l h r = r
  produce_all-Reached st ((r, acked d) ∷ more) l (h, hs) k =
      produce_all-Reached (delivered format_int cfg (begun st r (acked d)) r (acked d)) more
        (sync_of_record r d ∷ l) hs
        (subst (Reached (sync_of_record r d ∷ l))
          (sym (
            written_same (store_sync format_int cfg r d (begun st r (acked d))) r d
            ∙ stored (begun st r (acked d)) r d))
          (handled k (sync_of_record r d) h))
  produce_all-Reached st ((r, recovered d) ∷ more) l (h, hs) k =
      produce_all-Reached (delivered format_int cfg (begun st r (recovered d)) r (recovered d)) more
        (sync_of_record r d ∷ l) hs
        (subst (Reached (sync_of_record r d ∷ l)) (sym (stored (begun st r (recovered d)) r d))
          (handled k (sync_of_record r d) h))
  produce_all-Reached st ((r, failed e) ∷ more) l (h, hs) k =
      produce_all-Reached (delivered format_int cfg (begun st r (failed e)) r (failed e)) more l hs
        k

  commit_step-store :
      (now : ℕ) (commits : Bool) (st : SourceState)
      → (commit_step format_int cfg now commits st).sync_store ≡ st.sync_store
  unfolding commit_step
  commit_step-store now commits st = ground arith

  round-Reached :
      (now : ℕ) (commits : Bool) (batch : List (SourceRecord × Delivery)) (st : SourceState)
      (l : List OffsetSync)
      → All Int64Offset batch
      → Reached l st.sync_store
      → Reached (syncs_after l batch) (round format_int cfg now commits batch st).sync_store
  unfolding round
  round-Reached now commits [] st l h k = k
  round-Reached now commits (x ∷ xs) st l h k =
      subst (Reached (syncs_after l (x ∷ xs))) (sym (commit_step-store now commits _))
        (produce_all-Reached st (x ∷ xs) l h k)

  -- With the emission of offset syncs on, the rounds of the loop leave the store as a run of
  -- HandleSync does over one sync for each record that reached the target, in the order of polling:
  -- what is proved of the stores of such runs holds of the replicator's.
  pub rounds-Reached :
      (ps : List Round) (st : SourceState) (l : List OffsetSync)
      → All Int64Offset (fetched_all ps)
      → Reached l st.sync_store
      → Reached (syncs_after l (fetched_all ps)) (rounds format_int cfg ps st).sync_store
  unfolding rounds
  rounds-Reached [] st l h k = k
  rounds-Reached (p ∷ ps) st l h k =
      subst (λ m. Reached m (rounds format_int cfg (p ∷ ps) st).sync_store)
        (sym (syncs_after-append l p.fetched (fetched_all ps)))
        (rounds-Reached ps _ (syncs_after l p.fetched)
          (All-right Int64Offset p.fetched (fetched_all ps) h)
          (round-Reached p.now p.commits p.fetched st l
            (All-left Int64Offset p.fetched (fetched_all ps) h) k))
