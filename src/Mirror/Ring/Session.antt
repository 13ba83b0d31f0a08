-- ===== src/Mirror/Ring/Session.antt =====
-- internal/mirror/ring_buffer.go: sequences of calls, and records that come too early.
use mathlib.Core.Path.{subst}
use native.Mathlib.Nat.{mod-lt}
use gomm.Prelude.{
  ℕ, zero, suc, ◌+◌, ◌%◌, ◌^◌, ◌≤◌, ◌<◌, ◌≡◌, refl, sym, ap, ◌∙◌, Bool, true, false, List, [], ◌∷◌,
  ◌++◌, Option, some, arith, length, get_or-set_self, Int64,
}
use gomm.Mirror.Ring.{
  slot_filled, is_empty, is_filled, RingSlot, OrderedRingBuffer, stored, empty_slot, slot_at,
  new_ring_buffer, slot_index, fill_slot, put, drain_loop, drain_batch, Drained, batch, waiting,
  ended, batch_room, close,
}
use gomm.Mirror.Ring.Order.{
  Window, InOrder, DrainedInOrder, put-Window, drain_batch-in_order, new_ring_buffer-Window,
  put-frame, slot_index-nonneg,
}

drain_loop-first :
    {A : Type 0} (room cap : ℕ) (off : Int64) (slots : List (RingSlot A))
    → 0 < room
    → is_filled ((slot_at slots (slot_index cap off)).state) ≡ true
    → (rest : List (Option A)) × ((drain_loop room cap off slots).0
        ≡ (slot_at slots (slot_index cap off)).held ∷ rest)
unfolding drain_loop
drain_loop-first zero cap off slots pos filled = absurd (omega arith)
drain_loop-first (suc room) cap off slots pos filled = rw filled (_, refl)

-- With the slot of the drain offset filled and a live context, DrainBatch neither waits nor ends:
-- it hands out a batch that begins with the record of that slot.
pub drain_batch-progress :
    {A : Type 0} (rb : OrderedRingBuffer A) (max_batch : Int64)
    → 0 < batch_room max_batch
    → is_filled ((slot_at rb.slots (slot_index rb.capacity rb.drain_offset)).state) ≡ true
    → (rest : List (Option A)) × ((drain_batch false rb max_batch).1
        ≡ batch ((slot_at rb.slots (slot_index rb.capacity rb.drain_offset)).held ∷ rest))
unfolding drain_batch
drain_batch-progress {A} rb max_batch room filled =
    let (rest, e) =
      drain_loop-first (batch_room max_batch) rb.capacity rb.drain_offset rb.slots room filled in
    (rest, ground (arith, e))

put-free :
    {A : Type 0} (cancelled : Bool) (rb : OrderedRingBuffer A) (offset : Int64) (r : A)
    → is_empty ((slot_at rb.slots (slot_index rb.capacity offset)).state) ≡ true
    → put cancelled rb offset r ≡ (fill_slot rb offset r, stored)
unfolding put
put-free cancelled rb offset r free = ground arith

-- A record whose offset is ahead of the drain offset by a whole number of capacities takes the
-- place of the record that is due: put while the due slot is empty, it is the first that the next
-- DrainBatch hands out.
pub put_ahead_overtakes :
    {A : Type 0} (cancelled : Bool) (rb : OrderedRingBuffer A) (offset : Int64) (r : A)
    (max_batch : Int64)
    → 0 < rb.capacity
    → length rb.slots ≡ rb.capacity
    → rb.drain_offset < offset
    → offset < 2 ^ 63
    → offset % rb.capacity ≡ rb.drain_offset % rb.capacity
    → is_empty ((slot_at rb.slots (rb.drain_offset % rb.capacity)).state) ≡ true
    → 0 < batch_room max_batch
    → (rest : List (Option A)) × ((drain_batch false (put cancelled rb offset r).0 max_batch).1
        ≡ batch (some r ∷ rest))
put_ahead_overtakes {A} cancelled rb offset r max_batch pos size ahead small same free room =
    let i : slot_index rb.capacity offset ≡ rb.drain_offset % rb.capacity =
      slot_index-nonneg rb.capacity offset small ∙ same in
    let d : slot_index rb.capacity rb.drain_offset ≡ rb.drain_offset % rb.capacity =
      slot_index-nonneg rb.capacity rb.drain_offset (omega arith) in
    let at : slot_at (fill_slot rb offset r).slots (slot_index rb.capacity rb.drain_offset)
        ≡ record { state = slot_filled; held = some r; offset = offset } =
      rw (i, d)
        (get_or-set_self rb.slots (rb.drain_offset % rb.capacity) _ empty_slot
          (omega (arith, mod-lt rb.drain_offset pos))) in
    let (rest, e) =
      drain_batch-progress (fill_slot rb offset r) max_batch room
        (ap (λ s. is_filled (s.state)) at) in
    (
      rest,
      ap (λ p. (drain_batch false p.0 max_batch).1) (put-free cancelled rb offset r (rw i free))
          ∙ e
          ∙ ap (λ s. batch (s.held ∷ rest)) at,
    )

-- The calls of a partition's fetchers and of its drainer, in the order in which they take effect.
pub data Call (A : Type 0) : Type 0 where
  put_call : Bool → Int64 → A → Call A
  drain_call : Bool → Int64 → Call A
  close_call : Call A

module _ {A : Type 0} where
  unfoldable pub handed_out : Drained A → List (Option A)
  handed_out waiting = []
  handed_out ended = []
  handed_out (batch out) = out

  unfoldable pub call : OrderedRingBuffer A → Call A → OrderedRingBuffer A × List (Option A)
  call rb (put_call cancelled offset r) = ((put cancelled rb offset r).0, [])
  call rb (drain_call cancelled max_batch) =
      let (rb', out) = drain_batch cancelled rb max_batch in (rb', handed_out out)
  call rb close_call = (close rb, [])

  -- The final buffer, and all that was handed out, in order.
  unfoldable pub session :
      OrderedRingBuffer A → List (Call A) → OrderedRingBuffer A × List (Option A)
  session rb [] = (rb, [])
  session rb (c ∷ cs) =
      let (rb', out) = call rb c in let (rb'', rest) = session rb' cs in (rb'', out ++ rest)

module _ {A : Type 0} (offset_of : A → ℕ) where
  -- A call that keeps within one capacity of the drain offset, and below 2^63.
  abbrev pub InReach : OrderedRingBuffer A → Call A → Type 0
  InReach rb (put_call cancelled offset r) =
      (rb.drain_offset ≤ offset)
      × (offset < rb.drain_offset + rb.capacity)
      × (offset < 2 ^ 63)
      × (offset_of r ≡ offset)
  InReach rb (drain_call cancelled max_batch) = rb.drain_offset + batch_room max_batch < 2 ^ 63
  InReach rb close_call = Unit {0}

  abbrev pub AllInReach : OrderedRingBuffer A → List (Call A) → Type 0
  AllInReach rb [] = Unit {0}
  AllInReach rb (c ∷ cs) = InReach rb c × AllInReach (call rb c).0 cs

  -- What a call keeps, and hands out.
  record Kept (rb : OrderedRingBuffer A) (result : OrderedRingBuffer A × List (Option A))
      : Type 0 where
    positive : 0 < result.0.capacity
    window : Window offset_of result.0.capacity result.0.drain_offset result.0.slots
    ordered : InOrder offset_of rb.drain_offset result.1
    moved : result.0.drain_offset ≡ rb.drain_offset + length result.1

  Kept-same :
      (rb : OrderedRingBuffer A)
      → 0 < rb.capacity
      → Window offset_of rb.capacity rb.drain_offset rb.slots
      → Kept rb (rb, [])
  Kept-same rb pos w = record { positive = pos; window = w; ordered = tt; moved = omega arith }

  Kept-drain :
      (rb : OrderedRingBuffer A) (room : ℕ) (result : OrderedRingBuffer A × Drained A)
      → 0 < rb.capacity
      → Window offset_of rb.capacity rb.drain_offset rb.slots
      → DrainedInOrder offset_of room rb result
      → Kept rb (result.0, handed_out result.1)
  unfolding handed_out
  Kept-drain rb room (rb', waiting) pos w e =
      subst (λ b. Kept rb (b, [])) (sym e) (Kept-same rb pos w)
  Kept-drain rb room (rb', ended) pos w e =
      subst (λ b. Kept rb (b, [])) (sym e) (Kept-same rb pos w)
  Kept-drain rb room (rb', batch out) pos w (ordered, fits, cap, moved, window) = record {
    positive = rw cap pos;
    window = window;
    ordered = ordered;
    moved = moved;
  }

  call-Kept :
      (rb : OrderedRingBuffer A) (c : Call A)
      → 0 < rb.capacity
      → Window offset_of rb.capacity rb.drain_offset rb.slots
      → InReach rb c
      → Kept rb (call rb c)
  unfolding call close
  call-Kept rb (put_call cancelled offset r) pos w (low, high, small, right) =
      let (cap, off) = put-frame cancelled rb offset r in
      record {
        positive = rw cap pos;
        window =
            rw (cap, off) (put-Window offset_of cancelled rb offset r w pos low high small right);
        ordered = tt;
        moved = omega arith;
      }
  call-Kept rb (drain_call cancelled max_batch) pos w small =
      Kept-drain rb (batch_room max_batch) (drain_batch cancelled rb max_batch) pos w
        (drain_batch-in_order offset_of cancelled rb max_batch w pos small)
  call-Kept rb close_call pos w h = record {
    positive = pos;
    window = w;
    ordered = tt;
    moved = omega arith;
  }

  InOrder-append :
      (off : ℕ) (xs ys : List (Option A))
      → InOrder offset_of off xs
      → InOrder offset_of (off + length xs) ys
      → InOrder offset_of off (xs ++ ys)
  InOrder-append off [] ys h k = subst (λ n. InOrder offset_of n ys) (omega arith) k
  InOrder-append off (x ∷ xs) ys h k = (
    h.0,
    InOrder-append (off + 1) xs ys h.1 (subst (λ n. InOrder offset_of n ys) (omega arith) k),
  )

  session-InOrder_from :
      (rb : OrderedRingBuffer A) (cs : List (Call A))
      → 0 < rb.capacity
      → Window offset_of rb.capacity rb.drain_offset rb.slots
      → AllInReach rb cs
      → InOrder offset_of rb.drain_offset (session rb cs).1
  unfolding session
  session-InOrder_from rb [] pos w h = tt
  session-InOrder_from rb (c ∷ cs) pos w h =
      let k = call-Kept rb c pos w h.0 in
      InOrder-append rb.drain_offset (call rb c).1 (session (call rb c).0 cs).1 k.ordered (
        subst (λ n. InOrder offset_of n (session (call rb c).0 cs).1) k.moved
          (session-InOrder_from (call rb c).0 cs k.positive k.window h.1))

  -- From a new buffer, whatever fetchers put within one capacity of the drain offset and however
  -- the calls interleave, all that the drainer gets are the records of consecutive offsets from the
  -- start offset on, in order, with none missing and none twice.
  pub session-InOrder :
      (capacity start : ℕ) (cs : List (Call A))
      → 0 < capacity
      → AllInReach (new_ring_buffer capacity start) cs
      → InOrder offset_of start (session (new_ring_buffer capacity start) cs).1
  unfolding new_ring_buffer
  session-InOrder capacity start cs pos h =
      session-InOrder_from (new_ring_buffer capacity start) cs pos
        (new_ring_buffer-Window offset_of capacity start) h
