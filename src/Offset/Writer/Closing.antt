-- ===== src/Offset/Writer/Closing.antt =====
-- internal/offset/sync_writer.go: a session of calls.
use gomm.Prelude.{◌≡◌, refl, ap, ◌∙◌, Bool, true, List, [], ◌∷◌, some, arith, if◌then◌else◌}
use gomm.Types.{OffsetSync}
use gomm.Offset.Writer.{SyncWriter, writer_closed, write, close}

-- A call of the writer, with the producer's answer.
pub data Call : Type 0 where
  write_call : OffsetSync → Bool → Call
  close_call : Call

unfoldable pub call : SyncWriter → Call → SyncWriter
call w (write_call sync acknowledged) = (write w sync acknowledged).0
call w close_call = close w

unfoldable pub session : SyncWriter → List Call → SyncWriter
session w [] = w
session w (c ∷ cs) = session (call w c) cs

-- The producer was closed once if the writer is closed, and never otherwise.
abbrev pub ClosedOnce : SyncWriter → Type 0
ClosedOnce w = w.producer_closes ≡ (if w.closed then 1 else 0)

call-ClosedOnce : (w : SyncWriter) (c : Call) → ClosedOnce w → ClosedOnce (call w c)
unfolding call write close
call-ClosedOnce w (write_call sync a) h = ground arith
call-ClosedOnce w close_call h = ground arith

-- However the calls follow one another, the producer is closed at most once: exactly when the
-- writer is closed.
pub session-ClosedOnce :
    (w : SyncWriter) (cs : List Call) → ClosedOnce w → ClosedOnce (session w cs)
unfolding session
session-ClosedOnce w [] h = h
session-ClosedOnce w (c ∷ cs) h = session-ClosedOnce (call w c) cs (call-ClosedOnce w c h)

closed-call : (w : SyncWriter) (c : Call) → w.closed ≡ true → call w c ≡ w
unfolding call write close
closed-call w (write_call sync a) h = ground arith
closed-call w close_call h = ground arith

closed-session_same : (w : SyncWriter) (cs : List Call) → w.closed ≡ true → session w cs ≡ w
unfolding session
closed-session_same w [] h = refl
closed-session_same w (c ∷ cs) h =
    ap (λ v. session v cs) (closed-call w c h) ∙ closed-session_same w cs h

-- Once closed, no call changes the writer: nothing more is handed to the producer. Each Write is
-- answered by the error.
pub closed-session :
    (w : SyncWriter) (cs : List Call) (sync : OffsetSync) (acknowledged : Bool)
    → w.closed ≡ true
    → (session w cs ≡ w) × ((write (session w cs) sync acknowledged).1 ≡ some writer_closed)
unfolding write
closed-session w cs sync a h = (closed-session_same w cs h, rw (closed-session_same w cs h, h))
