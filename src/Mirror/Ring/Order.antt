-- ===== src/Mirror/Ring/Order.antt =====
-- internal/mirror/ring_buffer.go: records within one capacity of the drain offset leave in offset
-- order.
use native.Mathlib.Nat.{mod-lt, div-add-mod, add-zero}
use native.Mathlib.Decide.{ℕ_discrete}
use mathlib.Core.Path.{subst}
use gomm.Prelude.{
  ℕ, zero, suc, ◌+◌, ◌%◌, ◌^◌, ◌≤◌, ◌<◌, ◌≡◌, ◌≢◌, refl, sym, ap, ◌∙◌, ◌⊎◌, inl, inr, Bool, true,
  List, [], ◌∷◌, Option, none, some, arith, Bool-cases, length, length-set, get_or-set_self,
  get_or-set_ne, get_or-replicate, length-replicate, set, Int64, add64,
}
use gomm.Mirror.Ring.{
  slot_empty, slot_filled, is_filled, RingSlot, OrderedRingBuffer, empty_slot, slot_at,
  new_ring_buffer, slot_index, fill_slot, resume_put, put, drain_loop, drain_batch, Drained, batch,
  waiting, ended, batch_room, drained,
}

pub slot_index-nonneg : (cap offset : ℕ) → offset < 2 ^ 63 → slot_index cap offset ≡ offset % cap
unfolding slot_index
slot_index-nonneg cap offset h = ground arith

-- In a range of one capacity a remainder names one offset.
pub mod_unique : (cap off o : ℕ) → 0 < cap → off ≤ o → o < off + cap → o % cap ≡ off % cap → o ≡ off
mod_unique cap off o pos low high e = grind (arith, div-add-mod o cap, div-add-mod off cap)

module _ {A : Type 0} where
  pub put-slots :
      (cancelled : Bool) (rb : OrderedRingBuffer A) (offset : Int64) (r : A)
      → ((put cancelled rb offset r).0 ≡ rb)
        ⊎ ((put cancelled rb offset r).0 ≡ fill_slot rb offset r)
  unfolding put resume_put
  put-slots cancelled rb offset r = ground arith

  pub put-frame :
      (cancelled : Bool) (rb : OrderedRingBuffer A) (offset : Int64) (r : A)
      → ((put cancelled rb offset r).0.capacity ≡ rb.capacity)
        × ((put cancelled rb offset r).0.drain_offset ≡ rb.drain_offset)
  unfolding put resume_put
  put-frame cancelled rb offset r = ground arith

module _ {A : Type 0} (offset_of : A → ℕ) where
  -- A filled slot holds the record of an offset in the window of one capacity from `off`, at the
  -- index of that offset.
  abbrev pub Fits : ℕ → ℕ → ℕ → RingSlot A → Type 0
  Fits cap off i s =
      is_filled (s.state) ≡ true
      → (off ≤ s.offset)
        × (s.offset < off + cap)
        × (s.offset % cap ≡ i)
        × ((r : A) × (s.held ≡ some r) × (offset_of r ≡ s.offset))

  pub record Window (cap off : ℕ) (slots : List (RingSlot A)) : Type 0 where
    pub size : length slots ≡ cap
    pub fits : (i : ℕ) → i < cap → Fits cap off i (slot_at slots i)

  abbrev taken : RingSlot A → RingSlot A
  taken s = record { state = slot_empty; held = none; offset = s.offset }

  Fits-next :
      (cap off i : ℕ) (s : RingSlot A) → off % cap ≢ i → Fits cap off i s → Fits cap (off + 1) i s
  Fits-next cap off i s ne f filled =
      let (low, high, place, (r, held, right)) = f filled in
      (later (ℕ_discrete off s.offset) place low, omega arith, place, (r, held, right))
    where
      later : Dec (off ≡ s.offset) → s.offset % cap ≡ i → off ≤ s.offset → off + 1 ≤ s.offset
      later (yes e) place low = absurd (ne (ap (λ o. o % cap) e ∙ place))
      later (no n) place low = omega arith

  -- A write keeps a window, if what is written fits.
  Window-set :
      (cap off to j : ℕ) (slots : List (RingSlot A)) (s : RingSlot A)
      → j < cap
      → length slots ≡ cap
      → Fits cap to j s
      → ((i : ℕ) → i < cap → j ≢ i → Fits cap to i (slot_at slots i))
      → Window cap to (set slots j s)
  Window-set cap off to j slots s hj size fs rest = record {
    size = omega (arith, length-set slots j s);
    fits = λ i h. elim (ℕ_discrete j i) [
      | yes e ↦ subst (Fits cap to i) (sym (get_or-set_at i e)) (subst (λ k. Fits cap to k s) e fs)
      | no ne ↦ subst (Fits cap to i) (sym (get_or-set_ne slots j i s empty_slot ne)) (rest i h ne)
    ];
  }
    where
      get_or-set_at : (i : ℕ) → j ≡ i → slot_at (set slots j s) i ≡ s
      get_or-set_at i e =
          subst (λ k. slot_at (set slots j s) k ≡ s) e
            (get_or-set_self slots j s empty_slot (omega arith))

  -- Taking the slot of the window's first offset moves the window on by one.
  taken-Window :
      (cap off : ℕ) (slots : List (RingSlot A))
      → 0 < cap
      → Window cap off slots
      → Window cap (off + 1) (set slots (off % cap) (taken (slot_at slots (off % cap))))
  taken-Window cap off slots pos w =
      Window-set cap off (off + 1) (off % cap) slots (taken (slot_at slots (off % cap)))
        (mod-lt off pos) w.size (λ filled. cc)
        (λ i h ne. Fits-next cap off i (slot_at slots i) ne (w.fits i h))

  Window-at :
      (cap k m : ℕ) (slots : List (RingSlot A)) → k ≡ m → Window cap k slots → Window cap m slots
  Window-at cap k m slots e w = subst (λ n. Window cap n slots) e w

  -- What the loop has done: consecutive offsets from `off` are in the batch, in order, and the
  -- window has moved past them.
  abbrev pub InOrder : ℕ → List (Option A) → Type 0
  InOrder off [] = Unit {0}
  InOrder off (o ∷ os) = ((r : A) × (o ≡ some r) × (offset_of r ≡ off)) × InOrder (off + 1) os

  record LoopDone (cap off room : ℕ) (out : List (Option A) × List (RingSlot A)) : Type 0 where
    ordered : InOrder off out.0
    window : Window cap (off + length out.0) out.1
    room_kept : length out.0 ≤ room

  drain_loop-LoopDone :
      (cap off room : ℕ) (slots : List (RingSlot A))
      → 0 < cap
      → off + room < 2 ^ 63
      → Window cap off slots
      → LoopDone cap off room (drain_loop room cap off slots)
  unfolding drain_loop
  drain_loop-LoopDone cap off zero slots pos small w = record {
    ordered = tt;
    window = rw add-zero w;
    room_kept = omega arith;
  }
  drain_loop-LoopDone cap off (suc room) slots pos small w =
      let here = slot_at slots (off % cap) in
      let next =
        drain_loop-LoopDone cap (off + 1) room (set slots (off % cap) (taken here)) pos
          (omega arith) (taken-Window cap off slots pos w) in
      let one : add64 off 1 ≡ off + 1 = omega arith in
      rw (slot_index-nonneg cap off (omega arith), one)
        (elim (Bool-cases (is_filled (here.state))) [
          | inl filled ↦ rw filled (record {
            ordered = (first filled, next.ordered);
            window = Window-at cap _ _ _ (omega arith) next.window;
            room_kept = omega (arith, next.room_kept);
          })
          | inr gap ↦
              rw gap (record { ordered = tt; window = rw add-zero w; room_kept = omega arith })
        ])
    where
      first :
          is_filled ((slot_at slots (off % cap)).state) ≡ true
          → (r : A) × ((slot_at slots (off % cap)).held ≡ some r) × (offset_of r ≡ off)
      first filled =
          let (low, high, place, (r, held, right)) = w.fits (off % cap) (mod-lt off pos) filled in
          (r, held, right ∙ mod_unique cap off _ pos low high place)

  pub new_ring_buffer-Window :
      (capacity start : ℕ) → Window capacity start (new_ring_buffer {A = A} capacity start).slots
  unfolding new_ring_buffer
  new_ring_buffer-Window capacity start = record {
    size = length-replicate capacity empty_slot;
    fits = λ i h filled. cc (
      ap (λ (s : RingSlot A). is_filled (s.state))
          (get_or-replicate capacity i empty_slot empty_slot h),
      filled,
    );
  }

  -- Put of a record within one capacity of the drain offset keeps the filled slots in the window,
  -- whatever it answers.
  pub put-Window :
      (cancelled : Bool) (rb : OrderedRingBuffer A) (offset : Int64) (r : A)
      → Window rb.capacity rb.drain_offset rb.slots
      → 0 < rb.capacity
      → rb.drain_offset ≤ offset
      → offset < rb.drain_offset + rb.capacity
      → offset < 2 ^ 63
      → offset_of r ≡ offset
      → Window rb.capacity rb.drain_offset (put cancelled rb offset r).0.slots
  put-Window cancelled rb offset r w pos low high small right =
      elim (put-slots cancelled rb offset r) [
        | inl same ↦ subst (λ b. Window rb.capacity rb.drain_offset (b.slots)) (sym same) w
        | inr new ↦ subst (λ b. Window rb.capacity rb.drain_offset (b.slots)) (sym new) written
      ]
    where
      written : Window rb.capacity rb.drain_offset (fill_slot rb offset r).slots
      written = rw (slot_index-nonneg rb.capacity offset small) (
          Window-set rb.capacity rb.drain_offset rb.drain_offset (offset % rb.capacity) rb.slots
            (record { state = slot_filled; held = some r; offset = offset }) (mod-lt offset pos)
            w.size (λ filled. (low, high, refl, (r, refl, right))) (λ i h ne. w.fits i h))

  -- What a call of DrainBatch may do: hand out consecutive records from the drain offset on and
  -- move the offset past them, or change nothing.
  abbrev pub DrainedInOrder : ℕ → OrderedRingBuffer A → OrderedRingBuffer A × Drained A → Type 0
  DrainedInOrder room rb (rb', waiting) = rb' ≡ rb
  DrainedInOrder room rb (rb', ended) = rb' ≡ rb
  DrainedInOrder room rb (rb', batch out) =
      InOrder rb.drain_offset out
      × (length out ≤ room)
      × (rb'.capacity ≡ rb.capacity)
      × (rb'.drain_offset ≡ rb.drain_offset + length out)
      × Window rb'.capacity rb'.drain_offset rb'.slots

  drain_batch-shape :
      (cancelled : Bool) (rb : OrderedRingBuffer A) (max_batch : Int64)
      → (drain_batch cancelled rb max_batch ≡ (rb, waiting))
        ⊎ (drain_batch cancelled rb max_batch ≡ (rb, ended))
        ⊎ (let out = drain_loop (batch_room max_batch) rb.capacity rb.drain_offset rb.slots in
            drain_batch cancelled rb max_batch ≡ (drained rb out, batch out.0))
  unfolding drain_batch
  drain_batch-shape cancelled rb max_batch = ground arith

  -- In a buffer whose filled slots are in the window of its drain offset, DrainBatch hands out, in
  -- order, the records of consecutive offsets from there on, at most as many as asked for, moves the
  -- drain offset past them and keeps the window; or it changes nothing.
  pub drain_batch-in_order :
      (cancelled : Bool) (rb : OrderedRingBuffer A) (max_batch : Int64)
      → Window rb.capacity rb.drain_offset rb.slots
      → 0 < rb.capacity
      → rb.drain_offset + batch_room max_batch < 2 ^ 63
      → DrainedInOrder (batch_room max_batch) rb (drain_batch cancelled rb max_batch)
  drain_batch-in_order cancelled rb max_batch w pos small =
      elim (drain_batch-shape cancelled rb max_batch) [
        | inl e ↦ settle e refl
        | inr (inl e) ↦ settle e refl
        | inr (inr e) ↦ settle e (
          done.ordered,
          done.room_kept,
          refl,
          no_wrap,
          Window-at rb.capacity _ _ out.1 (sym no_wrap) done.window,
        )
      ]
    where
      out : List (Option A) × List (RingSlot A)
      out = drain_loop (batch_room max_batch) rb.capacity rb.drain_offset rb.slots

      done : LoopDone rb.capacity rb.drain_offset (batch_room max_batch) out
      done =
          drain_loop-LoopDone rb.capacity rb.drain_offset (batch_room max_batch) rb.slots pos small
            w

      no_wrap : add64 rb.drain_offset (length out.0) ≡ rb.drain_offset + length out.0
      no_wrap = omega (arith, done.room_kept)

      settle :
          {result : OrderedRingBuffer A × Drained A}
          → drain_batch cancelled rb max_batch ≡ result
          → DrainedInOrder (batch_room max_batch) rb result
          → DrainedInOrder (batch_room max_batch) rb (drain_batch cancelled rb max_batch)
      settle e h = subst (DrainedInOrder (batch_room max_batch) rb) (sym e) h
