-- ===== src/Mirror/Ring/Waking.antt =====
-- internal/mirror/ring_buffer.go: the wait loop of DrainBatch in smaller steps. DrainBatch holds rb.mu
-- from its test until cond.Wait has put it among the waiters; Close and the end of Put change the
-- buffer and wake without rb.mu, so their steps may fall in between. The drainer is the only waiter.
use gomm.Prelude.{false, List, [], ◌∷◌, if◌then◌else◌, Int64}
use gomm.Mirror.Ring.{
  OrderedRingBuffer, Drained, waiting, slot_at, slot_index, is_empty, fill_slot, drain_batch, close,
}

-- Where the drainer is: before a test of the loop, after one that said to wait, in cond.Wait, or behind
-- the loop.
pub data DrainerPhase : Type 0 where
  testing told_to_wait asleep past : DrainerPhase

-- What happens: the drainer tests or enters cond.Wait, Close stores `closed`, Put stores a record in an
-- empty slot, or one of them signals or broadcasts.
pub data RingEvent (A : Type 0) : Type 0 where
  drainer_tests drainer_waits close_stores wakes : RingEvent A
  put_stores : Int64 → A → RingEvent A

pub record Waiting (A : Type 0) : Type 0 where
  pub ring : OrderedRingBuffer A
  pub drainer : DrainerPhase

abbrev pub enter : DrainerPhase → DrainerPhase
enter told_to_wait = asleep
enter other = other

-- A wake-up reaches who is in cond.Wait, and no one else.
abbrev pub wake : DrainerPhase → DrainerPhase
wake asleep = testing
wake other = other

-- A call that should wake the drainer: Close, or Put of the record that it waits for.
pub data Waker (A : Type 0) : Type 0 where
  closer : Waker A
  putter : A → Waker A

module _ {A : Type 0} where
  abbrev pub stores_of : OrderedRingBuffer A → Waker A → RingEvent A
  stores_of rb closer = close_stores
  stores_of rb (putter r) = put_stores rb.drain_offset r

  abbrev pub IsDrainers : RingEvent A → Type 0
  IsDrainers drainer_tests = Unit
  IsDrainers drainer_waits = Unit
  IsDrainers other = ⊥

module _ {A : Type 0} (max_batch : Int64) where
  abbrev pub phase_after : Drained A → DrainerPhase
  phase_after waiting = told_to_wait
  phase_after other = past

  abbrev pub test : DrainerPhase → OrderedRingBuffer A → DrainerPhase
  test testing rb = phase_after (drain_batch false rb max_batch).1
  test other rb = other

  unfoldable pub happens : RingEvent A → Waiting A → Waiting A
  happens drainer_tests s = record s { drainer = test s.drainer s.ring }
  happens drainer_waits s = record s { drainer = enter s.drainer }
  happens close_stores s = record s { ring = close s.ring }
  happens wakes s = record s { drainer = wake s.drainer }
  happens (put_stores offset r) s =
      if is_empty ((slot_at s.ring.slots (slot_index s.ring.capacity offset)).state)
      then record s { ring = fill_slot s.ring offset r }
      else s

  unfoldable pub all_happen : List (RingEvent A) → Waiting A → Waiting A
  all_happen [] s = s
  all_happen (e ∷ more) s = all_happen more (happens e s)
