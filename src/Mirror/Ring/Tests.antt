-- ===== src/Mirror/Ring/Tests.antt =====
-- internal/mirror/ring_buffer.go: runs on concrete buffers.
use gomm.Prelude.{ℕ, ◌≡◌, refl, false, List, [], ◌∷◌, arith}
use gomm.Mirror.Ring.{OrderedRingBuffer, new_ring_buffer, put, drain_batch, drain_loop, slot_index}
use gomm.Mirror.Ring.Order.{InOrder}
use gomm.Mirror.Ring.Gaps.{gap_starves}
use gomm.Mirror.Ring.Session.{
  Call, put_call, drain_call, close_call, session, call, session-InOrder,
}

-- A record is its offset.
abbrev same : ℕ → ℕ
same n = n

abbrev fresh : OrderedRingBuffer ℕ
fresh = new_ring_buffer 4 10

abbrev one_in : OrderedRingBuffer ℕ
one_in = (put false fresh 10 10).0

abbrev calls : List (Call ℕ)
calls =
    put_call false 11 11
    ∷ drain_call false 2
    ∷ put_call false 10 10
    ∷ drain_call false 0
    ∷ close_call
    ∷ []

session-InOrder_example : InOrder same 10 (session (new_ring_buffer 4 10) calls).1
unfolding new_ring_buffer put drain_batch drain_loop slot_index call
session-InOrder_example = session-InOrder same 4 10 calls (omega arith) (
  (omega arith, omega arith, omega arith, refl),
  (omega arith, ((omega arith, omega arith, omega arith, refl), (omega arith, (tt, tt)))),
)

abbrev behind_a_gap : List (Call ℕ)
behind_a_gap =
    put_call false 11 11
    ∷ put_call false 12 12
    ∷ drain_call false 8
    ∷ close_call
    ∷ drain_call false 8
    ∷ []

gap_starves_example : (session fresh behind_a_gap).1 ≡ []
unfolding new_ring_buffer
gap_starves_example =
    gap_starves fresh behind_a_gap (omega arith) (omega arith) refl
      (omega arith, omega arith, omega arith, (omega arith, omega arith, omega arith, tt))
