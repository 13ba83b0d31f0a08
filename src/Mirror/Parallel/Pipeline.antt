-- ===== src/Mirror/Parallel/Pipeline.antt =====
-- internal/mirror/parallel_source.go: catchUpPartitionPipelined with one fetch worker, which is what
-- a range of fewer than 1000 offsets per worker gets. The worker, the drainer and the closing of the
-- buffer take turns in any order; a turn in which a call would wait changes nothing. The worker can
-- fail at any turn while it has records to put. That a call waits again where its wake-up is lost is
-- in Mirror.Ring.Waking; here it is a call that gets no turn that changes something.
mod Tests
pub mod Flow
pub mod Worker
pub mod Drainer
pub mod Delivery
use gomm.Prelude.{
  ℕ, suc, ◌+◌, Bool, true, false, not, ◌&&◌, ◌||◌, List, [], ◌∷◌, Option, if◌then◌else◌, Int64,
  Bytes,
}
use gomm.Mirror.Ring.{
  OrderedRingBuffer, PutResult, stored, refused, blocked, new_ring_buffer, put, Drained,
  drain_batch, close,
}
use gomm.Mirror.Parallel.Draining.{
  Fetched, DrainConfig, DrainState, DrainStatus, draining, drain_done, new_drain_state, drain_round,
  finish_drain,
}

pub record Pipeline : Type 0 where
  pub ring : OrderedRingBuffer Fetched
  -- What the worker has yet to put; it has returned when nothing is left.
  pub to_put : List (Int64 × Fetched)
  pub drain : DrainState
  pub status : DrainStatus
  pub cancelled : Bool
  -- fetcherFailed.
  pub failed : Bool

abbrev pub new_pipeline : ℕ → Int64 → List (Int64 × Fetched) → Pipeline
new_pipeline capacity start to_put = record {
  ring = new_ring_buffer capacity start;
  to_put = to_put;
  drain = new_drain_state;
  status = draining;
  cancelled = false;
  failed = false;
}

-- The turns: of the worker, which may also be its failure, of the function that closes the buffer
-- when the worker has returned, of the drainer, with whether its counters are due, and the end of
-- the context.
pub data Turn : Type 0 where
  worker_turn worker_fails close_turn context_ends : Turn
  drainer_turn : Bool → Turn

-- A worker returns where Put refuses a record.
abbrev pub after_put :
    Pipeline → List (Int64 × Fetched) → OrderedRingBuffer Fetched × PutResult → Pipeline
after_put p more (ring, stored) = record p { ring = ring; to_put = more }
after_put p more (ring, refused) = record p { ring = ring; to_put = [] }
after_put p more (ring, blocked) = record p { ring = ring }

unfoldable pub worker_puts : Pipeline → List (Int64 × Fetched) → Pipeline
worker_puts p [] = p
worker_puts p ((offset, r) ∷ more) = after_put p more (put p.cancelled p.ring offset r)

-- A worker that fails returns an error, for which the buffer is closed by CloseWithError, which does
-- what Close does.
unfoldable pub fail_worker : Pipeline → List (Int64 × Fetched) → Pipeline
fail_worker p [] = p
fail_worker p (x ∷ more) = record p { ring = close p.ring; to_put = []; failed = true }

unfoldable pub close_when_fetched : Pipeline → List (Int64 × Fetched) → Pipeline
close_when_fetched p [] = record p { ring = close p.ring }
close_when_fetched p (x ∷ more) = p

module _ (format_int : ℕ → Bytes) (cfg : DrainConfig) where
  -- A round of the drainer, which leaves its loop also where the context has ended.
  abbrev pub drainer_takes :
      Bool → Pipeline → OrderedRingBuffer Fetched × Drained Fetched → Pipeline
  drainer_takes due p (ring, out) =
      let (next, status) = drain_round format_int cfg due p.drain out in
      record p { ring = ring; drain = next; status = status }

  unfoldable pub drainer_runs : Bool → Pipeline → DrainStatus → Pipeline
  drainer_runs due p draining = drainer_takes due p (drain_batch p.cancelled p.ring 512)
  drainer_runs due p other = p

  unfoldable pub take_turn : Pipeline → Turn → Pipeline
  take_turn p worker_turn = worker_puts p p.to_put
  take_turn p worker_fails = fail_worker p p.to_put
  take_turn p close_turn = close_when_fetched p p.to_put
  take_turn p context_ends = record p { cancelled = true }
  take_turn p (drainer_turn due) = drainer_runs due p p.status

  unfoldable pub take_turns : Pipeline → List Turn → Pipeline
  take_turns p [] = p
  take_turns p (t ∷ ts) = take_turns (take_turn p t) ts
