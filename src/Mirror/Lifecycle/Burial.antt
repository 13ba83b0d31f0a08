-- ===== src/Mirror/Lifecycle/Burial.antt =====
-- internal/mirror/dlq.go: what a dead-letter queue hands to its producer before and after Close.
use gomm.Prelude.{
  ℕ, ◌≡◌, refl, sym, ap, ◌∙◌, Bool, true, false, List, [], ◌∷◌, ◌++◌, append_assoc, append-nil,
  arith, Bytes, if◌then◌else◌,
}
use gomm.Mirror.Source.{SourceRecord, Headers, dlq_headers}
use gomm.Mirror.Lifecycle.{Clients, remove, Dlq, dlq_send, dlq_close}

-- The calls on a queue: Send of a record with the text of its error, and Close.
pub data DlqCall : Type 0 where
  sends : SourceRecord → Bytes → DlqCall
  closes : DlqCall

module _ (format_int : ℕ → Bytes) where
  unfoldable pub dlq_call : Dlq × Clients → DlqCall → Dlq × Clients
  dlq_call (d, w) (sends r error) = (dlq_send format_int r error d, w)
  dlq_call (d, w) closes = dlq_close d w

  unfoldable pub dlq_calls : Dlq × Clients → List DlqCall → Dlq × Clients
  dlq_calls st [] = st
  dlq_calls st (c ∷ cs) = dlq_calls (dlq_call st c) cs

  -- The letters of the records that are sent before the first Close.
  abbrev pub sent_open : List DlqCall → List (Bytes × Bytes × Headers)
  sent_open [] = []
  sent_open (sends r error ∷ more) =
      (r.key, r.value, dlq_headers format_int r error) ∷ sent_open more
  sent_open (closes ∷ more) = []

  abbrev pub has_close : List DlqCall → Bool
  has_close [] = false
  has_close (sends r error ∷ more) = has_close more
  has_close (closes ∷ more) = true

  closed_dlq-Same :
      (d : Dlq) (w : Clients) (calls : List DlqCall)
      → d.closed ≡ true
      → dlq_calls (d, w) calls ≡ (d, w)
  unfolding dlq_calls dlq_call dlq_send dlq_close
  closed_dlq-Same d w [] shut = refl
  closed_dlq-Same d w (sends r error ∷ more) shut =
      ap (λ e. dlq_calls (e, w) more) (ground (arith, shut)) ∙ closed_dlq-Same d w more shut
  closed_dlq-Same d w (closes ∷ more) shut =
      ap (λ e. dlq_calls e more) (ground (arith, shut)) ∙ closed_dlq-Same d w more shut

  -- A queue that is open hands to its producer the letters of exactly the records that are sent before
  -- the first Close, in order, and drops those that are sent after it; its producer is closed if there is
  -- a Close, and stays as it is otherwise.
  pub dlq_calls-Handed :
      (d : Dlq) (w : Clients) (calls : List DlqCall)
      → d.closed ≡ false
      → ((dlq_calls (d, w) calls).0.handed ≡ d.handed ++ sent_open calls)
        × ((dlq_calls (d, w) calls).0.closed ≡ has_close calls)
        × ((dlq_calls (d, w) calls).1.opened
            ≡ (if has_close calls then remove d.producer w.opened else w.opened))
  unfolding dlq_calls dlq_call dlq_send dlq_close
  dlq_calls-Handed d w [] opened = (sym (append-nil d.handed), opened, refl)
  dlq_calls-Handed d w (sends r error ∷ more) opened =
      let next : Dlq = record d {
        handed = d.handed ++ ((r.key, r.value, dlq_headers format_int r error) ∷ []);
      } in
      let sent : dlq_send format_int r error d ≡ next = ground (arith, opened) in
      let (handed, shut, clients) = dlq_calls-Handed next w more opened in
      let same = ap (λ e. dlq_calls (e, w) more) sent in
      (
        ap (λ st. st.0.handed) same
            ∙ handed
            ∙ append_assoc d.handed ((r.key, r.value, dlq_headers format_int r error) ∷ [])
                (sent_open more),
        ap (λ st. st.0.closed) same ∙ shut,
        ap (λ st. st.1.opened) same ∙ clients,
      )
  dlq_calls-Handed d w (closes ∷ more) opened =
      let next : Dlq = record d { closed = true } in
      let after : Clients = record w { opened = remove d.producer w.opened } in
      let step : dlq_close d w ≡ (next, after) = ground (arith, opened) in
      let same = ap (λ st. dlq_calls st more) step ∙ closed_dlq-Same next after more refl in
      (
        ap (λ st. st.0.handed) same ∙ sym (append-nil d.handed),
        ap (λ st. st.0.closed) same,
        ap (λ st. st.1.opened) same,
      )
