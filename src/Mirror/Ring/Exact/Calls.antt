-- ===== src/Mirror/Ring/Exact/Calls.antt =====
-- internal/mirror/ring_buffer.go: the calls on a buffer whose records come one after the other.
use native.Mathlib.Nat.{add-mod_right}
use gomm.Prelude.{
  ℕ, zero, suc, ◌+◌, ◌%◌, ◌^◌, ◌≤◌, ◌<◌, ◌≡◌, refl, ap, ◌∙◌, ◌⊎◌, inl, inr, Bool, true, false, List,
  Option, arith, length, set, add64, ◌||◌, if◌then◌else◌, Int64,
}
use gomm.Mirror.Ring.{
  is_empty, is_filled, RingSlot, OrderedRingBuffer, slot_at, slot_index, drain_loop, fill_slot, put,
  resume_put, stored, refused, blocked, Drained, waiting, ended, batch, drain_batch, batch_room,
}
use gomm.Mirror.Ring.Order.{slot_index-nonneg}
use gomm.Mirror.Ring.Exact.{Holds, Holds-from, Holds-take, taken, run, is_filled-not}

module _ {A : Type 0} (log : ℕ → A) where
  -- What the drain loop makes of such a buffer: it takes the records that are there, as many as
  -- there is room for.
  pub record Took (cap off next room : ℕ) (out : List (Option A) × List (RingSlot A)) : Type 0 where
    pub count : ℕ
    pub batch_is : out.0 ≡ run log off count
    pub left : Holds log cap (off + count) next out.1
    pub all : (count ≡ room) ⊎ (off + count ≡ next)

  pub drain_loop-Took :
      (room cap off next : ℕ) (slots : List (RingSlot A))
      → 0 < cap
      → next < 2 ^ 63
      → Holds log cap off next slots
      → Took cap off next room (drain_loop room cap off slots)
  unfolding drain_loop
  drain_loop-Took zero cap off next slots pos small h = record {
    count = 0;
    batch_is = refl;
    left = Holds-from log slots (omega arith) h;
    all = inl refl;
  }
  drain_loop-Took (suc room) cap off next slots pos small h =
      let one : add64 off 1 ≡ suc off = omega (arith, h.low) in
      rw (slot_index-nonneg cap off (omega (arith, h.low)), one)
        (elim (order off next) [
          | inl some_left ↦
              let here = h.full off (omega arith) some_left in
              let emptied = set slots (off % cap) (taken log (slot_at slots (off % cap))) in
              let rest =
                drain_loop-Took room cap (suc off) next emptied pos small
                  (Holds-take log cap off next slots h some_left) in
              rw (ap (λ s. is_filled (s.state)) here) (record {
                count = suc rest.count;
                batch_is = cc (ap (λ s. s.held) here, rest.batch_is);
                left =
                    Holds-from log (drain_loop room cap (suc off) emptied).1 (omega arith)
                      rest.left;
                all = elim rest.all [ inl e ↦ inl (ap suc e) | inr e ↦ inr (omega arith) ];
              })
          | inr nothing ↦
              rw
                (is_filled-not (slot_at slots (off % cap)).state (h.free off nothing (omega arith)))
                (record {
                  count = 0;
                  batch_is = refl;
                  left = Holds-from log slots (omega arith) h;
                  all = inr (omega (arith, h.low));
                })
        ])
    where
      order : (a b : ℕ) → (a < b) ⊎ (b ≤ a)
      order a b = ground arith

  -- Put of the next record: it is stored, unless the buffer holds a whole capacity of records. Then
  -- it waits, or is refused where the buffer is closed or the context has ended.
  pub put-Holds :
      (cancelled : Bool) (rb : OrderedRingBuffer A) (next : ℕ)
      → Holds log rb.capacity rb.drain_offset next rb.slots
      → 0 < rb.capacity
      → next < 2 ^ 63
      → ((next < rb.drain_offset + rb.capacity)
          × (put cancelled rb next (log next) ≡ (fill_slot rb next (log next), stored)))
        ⊎ ((next ≡ rb.drain_offset + rb.capacity)
            × (put cancelled rb next (log next)
                ≡ (rb, if rb.closed || cancelled then refused else blocked)))
  unfolding put resume_put
  put-Holds cancelled rb next h pos small =
      rw (slot_index-nonneg rb.capacity next small) (elim (order next) [
        | inl room ↦ rw (h.free next (omega arith) room) (inl (room, refl))
        | inr full ↦
            let e : next ≡ rb.drain_offset + rb.capacity = omega (arith, h.high) in
            let same = ap (λ n. n % rb.capacity) e ∙ add-mod_right rb.drain_offset rb.capacity in
            let here = h.full rb.drain_offset (omega arith) (omega arith) in
            rw (same, ap (λ s. is_empty (s.state)) here) (inr (e, ground arith))
      ])
    where
      order : (n : ℕ) → (n < rb.drain_offset + rb.capacity) ⊎ (rb.drain_offset + rb.capacity ≤ n)
      order n = ground arith

  -- What DrainBatch does with such a buffer.
  pub data DrainsSo (rb : OrderedRingBuffer A) (next : ℕ) (cancelled : Bool) (room : ℕ)
      (result : OrderedRingBuffer A × Drained A) : Type 0 where
    stays :
        result ≡ (rb, if rb.closed || cancelled then ended else waiting)
        → (next ≡ rb.drain_offset) ⊎ (cancelled ≡ true)
        → DrainsSo rb next cancelled room result
    takes :
        (count : ℕ) (slots : List (RingSlot A))
        → result ≡ (
          record rb { slots = slots; drain_offset = rb.drain_offset + count },
          batch (run log rb.drain_offset count),
        )
        → Holds log rb.capacity (rb.drain_offset + count) next slots
        → 0 < count
        → DrainsSo rb next cancelled room result

  pub length-run : (off n : ℕ) → length (run log off n) ≡ n
  length-run off zero = refl
  length-run off (suc n) = ap suc (length-run (suc off) n)

  -- DrainBatch without a context that has ended: with the record of the drain offset there, it hands
  -- out the records in the buffer; else it waits, or ends where the buffer is closed.
  pub drain_batch-DrainsSo :
      (cancelled : Bool) (rb : OrderedRingBuffer A) (next : ℕ) (max_batch : Int64)
      → Holds log rb.capacity rb.drain_offset next rb.slots
      → 0 < rb.capacity
      → next < 2 ^ 63
      → 0 < batch_room max_batch
      → DrainsSo rb next cancelled (batch_room max_batch) (drain_batch cancelled rb max_batch)
  unfolding drain_batch
  drain_batch-DrainsSo true rb next max_batch h pos small room = stays (ground arith) (inr refl)
  drain_batch-DrainsSo false rb next max_batch h pos small room =
      elim (order rb.drain_offset next) [
        | inl some_left ↦
            let k =
              drain_loop-Took (batch_room max_batch) rb.capacity rb.drain_offset next rb.slots pos
                small h in
            let out = drain_loop (batch_room max_batch) rb.capacity rb.drain_offset rb.slots in
            let ready =
              ap (λ s. is_filled (s.state))
                (index ∙ h.full rb.drain_offset (omega arith) some_left) in
            let moved : add64 rb.drain_offset (length out.0) ≡ rb.drain_offset + k.count =
              omega (arith, ap length k.batch_is, length-run rb.drain_offset k.count, k.left.low) in
            takes k.count out.1 (ground (arith, ready, moved, k.batch_is)) k.left
              (ground (arith, k.all))
        | inr nothing ↦
            let gap =
              is_filled-not (slot_at rb.slots (rb.drain_offset % rb.capacity)).state
                (h.free rb.drain_offset nothing (omega arith)) in
            stays (ground (arith, ap (λ s. is_filled (s.state)) index ∙ gap))
              (inl (omega (arith, h.low)))
      ]
    where
      order : (a b : ℕ) → (a < b) ⊎ (b ≤ a)
      order a b = ground arith

      index :
          slot_at rb.slots (slot_index rb.capacity rb.drain_offset)
          ≡ slot_at rb.slots (rb.drain_offset % rb.capacity)
      index =
          ap (slot_at rb.slots)
            (slot_index-nonneg rb.capacity rb.drain_offset (omega (arith, h.low)))
