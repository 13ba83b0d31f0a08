-- ===== src/Mirror/Ring.antt =====
-- internal/mirror/ring_buffer.go: the buffer between the fetchers and the drainer of a partition.
-- A call is one step on the buffer's state; a call that would wait on the condition variable gives
-- `blocked` and is made again by `resume_put` or `drain_batch` when it is woken. Whether it is woken is
-- not part of these steps: wake-ups can be lost, see Mirror.Ring.Waking. The records are of any type. `Capacity` and `DrainOffset` are the fields; `Close` and `CloseWithError` are one function.
pub mod Order
pub mod Session
pub mod Gaps
pub mod Exact
pub mod Waking
mod Tests
use gomm.Prelude.{
  ℕ, zero, suc, ◌+◌, ◌-◌, ◌%◌, ◌^◌, Bool, true, false, not, ◌&&◌, ◌||◌, List, [], ◌∷◌, Option, none,
  some, length, get_or, set, replicate, ltb, nat_beq, if◌then◌else◌, Int64, add64, le64,
}

-- The constants slotEmpty, slotFilled and slotTaken.
pub data SlotState : Type 0 where
  slot_empty slot_filled slot_taken : SlotState

abbrev pub is_empty : SlotState → Bool
is_empty slot_empty = true
is_empty slot_filled = false
is_empty slot_taken = false

abbrev pub is_filled : SlotState → Bool
is_filled slot_empty = false
is_filled slot_filled = true
is_filled slot_taken = false

-- `none` is the nil record pointer.
pub record RingSlot (A : Type 0) : Type 0 where
  pub state : SlotState
  pub held : Option A
  pub offset : Int64

pub record OrderedRingBuffer (A : Type 0) : Type 0 where
  pub slots : List (RingSlot A)
  pub capacity : ℕ
  pub drain_offset : Int64
  pub closed : Bool

-- What Put answers.
pub data PutResult : Type 0 where
  stored refused blocked : PutResult

module _ {A : Type 0} where
  abbrev pub empty_slot : RingSlot A
  empty_slot = record { state = slot_empty; held = none; offset = 0 }

  abbrev pub slot_at : List (RingSlot A) → ℕ → RingSlot A
  slot_at slots i = get_or slots i empty_slot

  unfoldable pub new_ring_buffer : ℕ → Int64 → OrderedRingBuffer A
  new_ring_buffer capacity start = record {
    slots = replicate capacity empty_slot;
    capacity = capacity;
    drain_offset = start;
    closed = false;
  }

-- slotIndex: Go's `%` has the sign of the dividend, so a negative remainder is lifted.
unfoldable pub slot_index : ℕ → Int64 → ℕ
slot_index capacity offset =
    if ltb offset (2 ^ 63)
    then offset % capacity
    else let m = (2 ^ 64 - offset) % capacity in if nat_beq m 0 then 0 else capacity - m

-- What DrainBatch answers: it waits, or returns nil and false, or a batch and true.
pub data Drained (A : Type 0) : Type 0 where
  waiting : Drained A
  ended : Drained A
  batch : List (Option A) → Drained A

abbrev pub batch_room : Int64 → ℕ
batch_room max_batch = if le64 max_batch 0 then 256 else max_batch

module _ {A : Type 0} where
  abbrev pub fill_slot : OrderedRingBuffer A → Int64 → A → OrderedRingBuffer A
  fill_slot rb offset r = record rb {
    slots =
        set rb.slots (slot_index rb.capacity offset)
          (record { state = slot_filled; held = some r; offset = offset });
  }

  -- Put from the loop that waits on: the slot is looked at again.
  unfoldable pub resume_put :
      Bool → OrderedRingBuffer A → Int64 → A → OrderedRingBuffer A × PutResult
  resume_put cancelled rb offset r =
      let free = is_empty ((slot_at rb.slots (slot_index rb.capacity offset)).state) in
      if not free && (not (rb.closed) && not cancelled)
      then (rb, blocked)
      else if rb.closed || cancelled
      then (rb, refused)
      else (fill_slot rb offset r, stored)

  -- Put: a free slot is filled at once, also in a buffer that is closed.
  unfoldable pub put : Bool → OrderedRingBuffer A → Int64 → A → OrderedRingBuffer A × PutResult
  put cancelled rb offset r =
      if is_empty ((slot_at rb.slots (slot_index rb.capacity offset)).state)
      then (fill_slot rb offset r, stored)
      else resume_put cancelled rb offset r

  -- The loop of DrainBatch, with the room left in the batch first: the records taken, in order, and
  -- the slots after it.
  unfoldable pub drain_loop :
      ℕ → ℕ → Int64 → List (RingSlot A) → List (Option A) × List (RingSlot A)
  drain_loop zero capacity offset slots = ([], slots)
  drain_loop (suc room) capacity offset slots =
      let i = slot_index capacity offset in
      let s = slot_at slots i in
      let (rest, after) =
        drain_loop room capacity (add64 offset 1)
          (set slots i (record { state = slot_empty; held = none; offset = s.offset })) in
      if is_filled (s.state) then (s.held ∷ rest, after) else ([], slots)

  -- The buffer after a batch.
  abbrev pub drained :
      OrderedRingBuffer A → List (Option A) × List (RingSlot A) → OrderedRingBuffer A
  drained rb (taken, after) = record rb {
    slots = after;
    drain_offset = add64 rb.drain_offset (length taken);
  }

  unfoldable pub drain_batch : Bool → OrderedRingBuffer A → Int64 → OrderedRingBuffer A × Drained A
  drain_batch cancelled rb max_batch =
      let ready = is_filled ((slot_at rb.slots (slot_index rb.capacity rb.drain_offset)).state) in
      let out = drain_loop (batch_room max_batch) rb.capacity rb.drain_offset rb.slots in
      if not ready && (not (rb.closed) && not cancelled)
      then (rb, waiting)
      else if (rb.closed && not ready) || cancelled
      then (rb, ended)
      else (drained rb out, batch out.0)

  unfoldable pub close : OrderedRingBuffer A → OrderedRingBuffer A
  close rb = record rb { closed = true }
