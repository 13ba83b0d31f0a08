-- ===== src/Mirror/Source/Losses.antt =====
-- internal/mirror/source.go: which records reach the target or the dead-letter queue.
use gomm.Prelude.{
  ℕ, ◌+◌, ◌≡◌, refl, sym, ap, ◌∙◌, Bool, true, false, List, [], ◌∷◌, ◌++◌, Option, none, some,
  append_assoc, append-nil, arith, length, length-append, Bytes, if◌then◌else◌,
}
use gomm.Policy.{format_remote_topic}
use gomm.Mirror.Source.{
  Headers, SourceRecord, TargetRecord, Delivery, acked, recovered, failed, SourceConfig,
  SourceState, target_record, retry_record, delivered, on_target, produce_all, Round, dlq_headers,
}

-- The records whose delivery failed for good.
abbrev pub failed_of : List (SourceRecord × Delivery) → List SourceRecord
failed_of [] = []
failed_of ((r, acked downstream) ∷ more) = failed_of more
failed_of ((r, recovered downstream) ∷ more) = failed_of more
failed_of ((r, failed error) ∷ more) = r ∷ failed_of more

failed_of-append :
    (xs ys : List (SourceRecord × Delivery)) → failed_of (xs ++ ys) ≡ failed_of xs ++ failed_of ys
failed_of-append [] ys = refl
failed_of-append ((r, acked d) ∷ xs) ys = failed_of-append xs ys
failed_of-append ((r, recovered d) ∷ xs) ys = failed_of-append xs ys
failed_of-append ((r, failed e) ∷ xs) ys = ap (λ l. r ∷ l) (failed_of-append xs ys)

-- The records of the fetches, in order.
abbrev pub fetched_all : List Round → List (SourceRecord × Delivery)
fetched_all [] = []
fetched_all (p ∷ ps) = p.fetched ++ fetched_all ps

abbrev pub values_of : Headers → List Bytes
values_of [] = []
values_of ((name, value) ∷ more) = value ∷ values_of more

module _ (format_int : ℕ → Bytes) (cfg : SourceConfig) where
  -- A record of the target is the copy of one of the source, with a timestamp or without.
  pub record IsCopy (r : SourceRecord) (stamp : Option ℕ) (t : TargetRecord) : Type 0 where
    pub topic : t.topic ≡ format_remote_topic cfg.policy cfg.alias r.topic
    pub partition : t.partition ≡ r.partition
    pub key : t.key ≡ r.key
    pub value : t.value ≡ r.value
    pub headers : t.headers ≡ r.headers
    pub timestamp : t.timestamp ≡ stamp

  -- What the target gets of some fetched records: one copy of each whose delivery did not fail, in
  -- order, where that of a retry has lost its timestamp.
  pub data Copies : List (SourceRecord × Delivery) → List TargetRecord → Type 0 where
    no_more : Copies [] []
    sent :
        {r : SourceRecord} {o : ℕ} {t : TargetRecord} {more : List (SourceRecord × Delivery)}
        {ts : List TargetRecord}
        → IsCopy r (some r.timestamp) t
        → Copies more ts
        → Copies ((r, acked o) ∷ more) (t ∷ ts)
    resent :
        {r : SourceRecord} {o : ℕ} {t : TargetRecord} {more : List (SourceRecord × Delivery)}
        {ts : List TargetRecord}
        → IsCopy r none t
        → Copies more ts
        → Copies ((r, recovered o) ∷ more) (t ∷ ts)
    unsent :
        {r : SourceRecord} {error : Bytes} {more : List (SourceRecord × Delivery)}
        {ts : List TargetRecord}
        → Copies more ts
        → Copies ((r, failed error) ∷ more) ts

  -- What the dead-letter queue gets, if there is one: each record whose delivery failed, in order,
  -- with its topic, partition, offset and error in the headers before its own.
  pub data Letters : List (SourceRecord × Delivery) → List (SourceRecord × Headers) → Type 0 where
    no_letter : Letters [] []
    needless_ack :
        {r : SourceRecord} {o : ℕ} {more : List (SourceRecord × Delivery)}
        {ls : List (SourceRecord × Headers)}
        → Letters more ls
        → Letters ((r, acked o) ∷ more) ls
    needless_retry :
        {r : SourceRecord} {o : ℕ} {more : List (SourceRecord × Delivery)}
        {ls : List (SourceRecord × Headers)}
        → Letters more ls
        → Letters ((r, recovered o) ∷ more) ls
    buried :
        {r : SourceRecord} {error : Bytes} {headers : Headers}
        {more : List (SourceRecord × Delivery)} {ls : List (SourceRecord × Headers)}
        → cfg.has_dlq ≡ true
        → values_of headers
          ≡ r.topic ∷ format_int r.partition ∷ format_int r.offset ∷ error ∷ values_of r.headers
        → Letters more ls
        → Letters ((r, failed error) ∷ more) ((r, headers) ∷ ls)
    dropped :
        {r : SourceRecord} {error : Bytes} {more : List (SourceRecord × Delivery)}
        {ls : List (SourceRecord × Headers)}
        → cfg.has_dlq ≡ false
        → Letters more ls
        → Letters ((r, failed error) ∷ more) ls

  Copies-append :
      (xs ys : List (SourceRecord × Delivery)) (ts us : List TargetRecord)
      → Copies xs ts
      → Copies ys us
      → Copies (xs ++ ys) (ts ++ us)
  Copies-append xs ys ts us no_more k = k
  Copies-append xs ys ts us (sent c h) k = sent c (Copies-append _ ys _ us h k)
  Copies-append xs ys ts us (resent c h) k = resent c (Copies-append _ ys _ us h k)
  Copies-append xs ys ts us (unsent h) k = unsent (Copies-append _ ys ts us h k)

  Letters-append :
      (xs ys : List (SourceRecord × Delivery)) (ls ms : List (SourceRecord × Headers))
      → Letters xs ls
      → Letters ys ms
      → Letters (xs ++ ys) (ls ++ ms)
  Letters-append xs ys ls ms no_letter k = k
  Letters-append xs ys ls ms (needless_ack h) k = needless_ack (Letters-append _ ys ls ms h k)
  Letters-append xs ys ls ms (needless_retry h) k = needless_retry (Letters-append _ ys ls ms h k)
  Letters-append xs ys ls ms (buried on e h) k = buried on e (Letters-append _ ys _ ms h k)
  Letters-append xs ys ls ms (dropped off h) k = dropped off (Letters-append _ ys ls ms h k)

  -- What some fetched records add to a state, and what of it they leave alone.
  pub record Sent (st out : SourceState) (batch : List (SourceRecord × Delivery)) : Type 0 where
    pub grew : out.polled ≡ st.polled ++ batch
    pub same_committed : out.committed ≡ st.committed
    pub same_since : out.records_since_commit ≡ st.records_since_commit
    pub same_time : out.last_commit_time ≡ st.last_commit_time
    pub counted : out.produce_errors ≡ st.produce_errors + length (failed_of batch)
    pub arrived : (ts : List TargetRecord) × (out.produced ≡ st.produced ++ ts) × Copies batch ts
    pub queued :
        (ls : List (SourceRecord × Headers)) × (out.dead_letters ≡ st.dead_letters ++ ls)
        × Letters batch ls

  Sent-append :
      (st mid out : SourceState) (xs ys : List (SourceRecord × Delivery))
      → Sent st mid xs
      → Sent mid out ys
      → Sent st out (xs ++ ys)
  Sent-append st mid out xs ys h k =
      let (ts, e, c) = h.arrived in
      let (us, f, d) = k.arrived in
      let (ls, g, l) = h.queued in
      let (ms, i, m) = k.queued in
      record {
        grew = k.grew ∙ ap (λ t. t ++ ys) h.grew ∙ append_assoc st.polled xs ys;
        same_committed = k.same_committed ∙ h.same_committed;
        same_since = k.same_since ∙ h.same_since;
        same_time = k.same_time ∙ h.same_time;
        counted = omega (
          arith,
          k.counted,
          h.counted,
          ap length (failed_of-append xs ys),
          length-append (failed_of xs) (failed_of ys),
        );
        arrived = (
          ts ++ us,
          f ∙ ap (λ t. t ++ us) e ∙ append_assoc st.produced ts us,
          Copies-append xs ys ts us c d,
        );
        queued = (
          ls ++ ms,
          i ∙ ap (λ t. t ++ ms) g ∙ append_assoc st.dead_letters ls ms,
          Letters-append xs ys ls ms l m,
        );
      }

  -- The state of one record's callback.
  abbrev begun : SourceState → SourceRecord → Delivery → SourceState
  begun st r d = record st {
    polled = st.polled ++ ((r, d) ∷ []);
    produced = st.produced ++ on_target format_int cfg r d;
  }

  delivered-Sent :
      (st : SourceState) (r : SourceRecord) (d : Delivery)
      → Sent st (delivered format_int cfg (begun st r d) r d) ((r, d) ∷ [])
  unfolding delivered target_record retry_record dlq_headers
  delivered-Sent st r (acked o) = record {
    grew = ground arith;
    same_committed = ground arith;
    same_since = ground arith;
    same_time = ground arith;
    counted = ground arith;
    arrived = (
      target_record cfg r ∷ [],
      ground arith,
      sent
          (record {
            topic = refl;
            partition = refl;
            key = refl;
            value = refl;
            headers = refl;
            timestamp = refl;
          })
          no_more,
    );
    queued = ([], ground (arith, append-nil st.dead_letters), needless_ack no_letter);
  }
  delivered-Sent st r (recovered o) = record {
    grew = ground arith;
    same_committed = ground arith;
    same_since = ground arith;
    same_time = ground arith;
    counted = ground arith;
    arrived = (
      retry_record cfg r ∷ [],
      ground arith,
      resent
          (record {
            topic = refl;
            partition = refl;
            key = refl;
            value = refl;
            headers = refl;
            timestamp = refl;
          })
          no_more,
    );
    queued = ([], ground (arith, append-nil st.dead_letters), needless_retry no_letter);
  }
  delivered-Sent st r (failed error) = record {
    grew = refl;
    same_committed = refl;
    same_since = refl;
    same_time = refl;
    counted = refl;
    arrived = ([], refl, unsent no_more);
    queued = by_queue cfg.has_dlq refl;
  }
    where
      by_queue :
          (on : Bool)
          → cfg.has_dlq ≡ on
          → (ls : List (SourceRecord × Headers)) × ((if on
                then st.dead_letters ++ ((r, dlq_headers format_int r error) ∷ [])
                else st.dead_letters)
              ≡ st.dead_letters ++ ls)
            × Letters ((r, failed error) ∷ []) ls
      by_queue true on = ((r, dlq_headers format_int r error) ∷ [], refl, buried on refl no_letter)
      by_queue false off = ([], sym (append-nil st.dead_letters), dropped off no_letter)

  nothing-Sent : (st : SourceState) → Sent st st []
  nothing-Sent st = record {
    grew = sym (append-nil st.polled);
    same_committed = refl;
    same_since = refl;
    same_time = refl;
    counted = omega arith;
    arrived = ([], sym (append-nil st.produced), no_more);
    queued = ([], sym (append-nil st.dead_letters), no_letter);
  }

  pub produce_all-Sent :
      (st : SourceState) (batch : List (SourceRecord × Delivery))
      → Sent st (produce_all format_int cfg st batch) batch
  unfolding produce_all
  produce_all-Sent st [] = nothing-Sent st
  produce_all-Sent st ((r, d) ∷ more) =
      let next = delivered format_int cfg (begun st r d) r d in
      Sent-append st next (produce_all format_int cfg next more) ((r, d) ∷ []) more
        (delivered-Sent st r d) (produce_all-Sent next more)

  -- The records of the rounds are dealt with.
  abbrev pub Replicated : SourceState → SourceState → List (SourceRecord × Delivery) → Type 0
  Replicated st out all =
      (out.polled ≡ st.polled ++ all)
      × ((ts : List TargetRecord) × (out.produced ≡ st.produced ++ ts) × Copies all ts)
      × ((ls : List (SourceRecord × Headers)) × (out.dead_letters ≡ st.dead_letters ++ ls)
          × Letters all ls)
