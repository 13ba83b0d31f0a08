-- ===== src/Mirror/Ring/Gaps.antt =====
-- internal/mirror/ring_buffer.go: an offset that is never put.
use mathlib.Core.Path.{subst}
use gomm.Prelude.{
  ℕ, ◌+◌, ◌%◌, ◌^◌, ◌<◌, ◌≡◌, ◌≢◌, refl, sym, ap, ◌∙◌, ◌⊎◌, inl, inr, Bool, false, List, [], ◌∷◌,
  ◌++◌, arith, get_or-set_ne, Int64,
}
use gomm.Mirror.Ring.{
  is_filled, RingSlot, OrderedRingBuffer, empty_slot, slot_at, slot_index, put, drain_batch,
  waiting, ended, close,
}
use gomm.Mirror.Ring.Order.{slot_index-nonneg, mod_unique, put-slots}
use gomm.Mirror.Ring.Session.{Call, put_call, drain_call, close_call, handed_out, call, session}

module _ {A : Type 0} where
  -- The calls put only offsets behind the due one, `d`, within one capacity.
  abbrev pub AllBehind : ℕ → ℕ → List (Call A) → Type 0
  AllBehind d cap [] = Unit {0}
  AllBehind d cap (put_call cancelled offset r ∷ cs) =
      (d < offset) × (offset < d + cap) × (offset < 2 ^ 63) × AllBehind d cap cs
  AllBehind d cap (drain_call cancelled max_batch ∷ cs) = AllBehind d cap cs
  AllBehind d cap (close_call ∷ cs) = AllBehind d cap cs

  -- The slot of the due offset holds nothing.
  record Starved (d cap : ℕ) (rb : OrderedRingBuffer A) : Type 0 where
    due : rb.drain_offset ≡ d
    same_capacity : rb.capacity ≡ cap
    gap : is_filled ((slot_at rb.slots (d % cap)).state) ≡ false

  put-Starved :
      (d cap : ℕ) (rb : OrderedRingBuffer A) (cancelled : Bool) (offset : Int64) (r : A)
      → 0 < cap
      → Starved d cap rb
      → d < offset
      → offset < d + cap
      → offset < 2 ^ 63
      → Starved d cap (put cancelled rb offset r).0
  put-Starved d cap rb cancelled offset r pos s low high small =
      elim (put-slots cancelled rb offset r) [
        | inl same ↦ subst (Starved d cap) (sym same) s
        | inr new ↦ subst (Starved d cap) (sym new) (record {
          due = s.due;
          same_capacity = s.same_capacity;
          gap =
              ap (λ (x : RingSlot A). is_filled (x.state))
                (get_or-set_ne rb.slots (slot_index rb.capacity offset) (d % cap) _ empty_slot
                  apart)
              ∙ s.gap;
        })
      ]
    where
      apart : slot_index rb.capacity offset ≢ d % cap
      apart e = omega (
        arith,
        mod_unique cap d offset pos (omega arith) high (
            sym (ap (λ c. slot_index c offset) s.same_capacity ∙ slot_index-nonneg cap offset small)
            ∙ e),
      )

  drain-Starved :
      (d cap : ℕ) (rb : OrderedRingBuffer A) (cancelled : Bool) (max_batch : Int64)
      → d < 2 ^ 63
      → Starved d cap rb
      → ((drain_batch cancelled rb max_batch).0 ≡ rb)
        × (handed_out (drain_batch cancelled rb max_batch).1 ≡ [])
  unfolding drain_batch handed_out
  drain-Starved d cap rb cancelled max_batch small s =
      let i : slot_index rb.capacity rb.drain_offset ≡ d % cap =
        ap (λ c. slot_index c rb.drain_offset) s.same_capacity
        ∙ ap (slot_index cap) s.due
        ∙ slot_index-nonneg cap d small in
      let not_ready : is_filled ((slot_at rb.slots (slot_index rb.capacity rb.drain_offset)).state)
          ≡ false =
        ap (λ j. is_filled ((slot_at rb.slots j).state)) i ∙ s.gap in
      let nothing : (drain_batch cancelled rb max_batch ≡ (rb, waiting))
          ⊎ (drain_batch cancelled rb max_batch ≡ (rb, ended)) =
        ground arith in
      elim nothing [
        | inl e ↦ (ap (λ p. p.0) e, ap (λ p. handed_out p.1) e)
        | inr e ↦ (ap (λ p. p.0) e, ap (λ p. handed_out p.1) e)
      ]

  session-Starved :
      (d cap : ℕ) (rb : OrderedRingBuffer A) (cs : List (Call A))
      → 0 < cap
      → d < 2 ^ 63
      → Starved d cap rb
      → AllBehind d cap cs
      → (session rb cs).1 ≡ []
  unfolding session call close
  session-Starved d cap rb [] pos small s h = refl
  session-Starved d cap rb (put_call cancelled offset r ∷ cs) pos small s (low, high, fits, h) =
      session-Starved d cap (put cancelled rb offset r).0 cs pos small
        (put-Starved d cap rb cancelled offset r pos s low high fits) h
  session-Starved d cap rb (drain_call cancelled max_batch ∷ cs) pos small s h =
      let (kept, nothing) = drain-Starved d cap rb cancelled max_batch small s in
      ap (λ l. l ++ (session (drain_batch cancelled rb max_batch).0 cs).1) nothing
      ∙ session-Starved d cap (drain_batch cancelled rb max_batch).0 cs pos small
          (subst (Starved d cap) (sym kept) s) h
  session-Starved d cap rb (close_call ∷ cs) pos small s h =
      session-Starved d cap (close rb) cs pos small
        (record { due = s.due; same_capacity = s.same_capacity; gap = s.gap }) h

  -- While the due offset is not put, the buffer hands out nothing: whatever later offsets are put
  -- within its capacity, however often it is drained, and also after it is closed, the records
  -- behind a gap never come out.
  pub gap_starves :
      (rb : OrderedRingBuffer A) (cs : List (Call A))
      → 0 < rb.capacity
      → rb.drain_offset < 2 ^ 63
      → is_filled ((slot_at rb.slots (rb.drain_offset % rb.capacity)).state) ≡ false
      → AllBehind rb.drain_offset rb.capacity cs
      → (session rb cs).1 ≡ []
  gap_starves rb cs pos small gap h =
      session-Starved rb.drain_offset rb.capacity rb cs pos small
        (record { due = refl; same_capacity = refl; gap = gap }) h
