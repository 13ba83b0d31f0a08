-- ===== src/Mirror/Ring/Exact.antt =====
-- internal/mirror/ring_buffer.go: a buffer whose records come one after the other, as one fetcher
-- puts them.
pub mod Calls
use native.Mathlib.Nat.{mod-lt, add-mod_right, add-zero, zero-add, suc-add}
use native.Mathlib.Decide.{ℕ_discrete}
use mathlib.Core.Path.{subst}
use mathlib.Core.List.{map}
use gomm.Prelude.{
  ℕ, zero, suc, ◌+◌, ◌%◌, ◌^◌, ◌≤◌, ◌<◌, ◌≡◌, ◌≢◌, refl, sym, ap, ◌∙◌, ◌⊎◌, inl, inr, Bool, true,
  false, List, [], ◌∷◌, ◌++◌, Option, none, some, arith, length, length-set, get_or-set_self,
  get_or-set_ne, length-replicate, get_or-replicate, set, add64, ◌||◌, if◌then◌else◌, Int64,
}
use gomm.Mirror.Ring.{
  SlotState, slot_empty, slot_filled, slot_taken, is_empty, is_filled, RingSlot, OrderedRingBuffer,
  empty_slot, slot_at, new_ring_buffer, slot_index, drain_loop, fill_slot, put, resume_put, stored,
  refused, blocked, Drained, waiting, ended, batch, drain_batch, batch_room,
}
use gomm.Mirror.Ring.Order.{slot_index-nonneg, mod_unique}

-- Two offsets of one window of `cap` have different slots.
pub window_apart :
    (cap off o p : ℕ)
    → off ≤ o
    → o < off + cap
    → off ≤ p
    → p < off + cap
    → o ≢ p
    → o % cap ≢ p % cap
window_apart cap off o p low high low' high' ne e = elim (order o p) [
  | inl below ↦ ne (sym (mod_unique cap o p (omega arith) below (omega arith) (sym e)))
  | inr above ↦ ne (mod_unique cap p o (omega arith) above (omega arith) e)
]
  where
    order : (a b : ℕ) → (a ≤ b) ⊎ (b ≤ a)
    order a b = ground arith

pub is_filled-not : (s : SlotState) → is_empty s ≡ true → is_filled s ≡ false
is_filled-not slot_empty e = refl
is_filled-not slot_filled e = cc e
is_filled-not slot_taken e = refl

module _ {A : Type 0} (log : ℕ → A) where
  abbrev pub filled_with : ℕ → RingSlot A
  filled_with o = record { state = slot_filled; held = some (log o); offset = o }

  -- The slots hold exactly the records of the log from offset `off` up to `next`, in a window of
  -- `cap` from `off`; the others are empty.
  pub record Holds (cap off next : ℕ) (slots : List (RingSlot A)) : Type 0 where
    pub size : length slots ≡ cap
    pub low : off ≤ next
    pub high : next ≤ off + cap
    pub full : (o : ℕ) → off ≤ o → o < next → slot_at slots (o % cap) ≡ filled_with o
    pub free :
        (o : ℕ) → next ≤ o → o < off + cap → is_empty ((slot_at slots (o % cap)).state) ≡ true

  pub new_ring_buffer-Holds :
      (cap start : ℕ) → 0 < cap → Holds cap start start (new_ring_buffer {A = A} cap start).slots
  unfolding new_ring_buffer
  new_ring_buffer-Holds cap start pos = record {
    size = length-replicate cap empty_slot;
    low = omega arith;
    high = omega arith;
    full = λ o h k. absurd (omega arith);
    free = λ o h k.
        ap (λ (s : RingSlot A). is_empty (s.state))
          (get_or-replicate cap (o % cap) empty_slot empty_slot (mod-lt o pos));
  }

  -- Filling the slot of the next offset.
  pub Holds-fill :
      (cap off next : ℕ) (slots : List (RingSlot A))
      → Holds cap off next slots
      → next < off + cap
      → Holds cap off (suc next) (set slots (next % cap) (filled_with next))
  Holds-fill cap off next slots h room = record {
    size = omega (arith, length-set slots (next % cap) (filled_with next), h.size);
    low = omega (arith, h.low);
    high = omega arith;
    full = λ o low high. elim (ℕ_discrete next o) [
      | yes e ↦ subst (λ p. slot_at written (p % cap) ≡ filled_with p) e written_slot
      | no ne ↦ other o low (omega (arith, h.high)) ne ∙ h.full o low (omega arith)
    ];
    free = λ o low high.
        ap (λ s. is_empty (s.state)) (other o (omega (arith, h.low)) high (omega arith))
        ∙ h.free o (omega arith) high;
  }
    where
      written : List (RingSlot A)
      written = set slots (next % cap) (filled_with next)

      written_slot : slot_at written (next % cap) ≡ filled_with next
      written_slot =
          get_or-set_self slots (next % cap) (filled_with next) empty_slot
            (omega (arith, h.size, h.low, mod-lt next {m = cap} (omega (arith, h.low))))

      other :
          (o : ℕ)
          → off ≤ o
          → o < off + cap
          → next ≢ o
          → slot_at written (o % cap) ≡ slot_at slots (o % cap)
      other o low high ne =
          get_or-set_ne slots (next % cap) (o % cap) (filled_with next) empty_slot
            (window_apart cap off next o h.low room low high ne)

  abbrev pub taken : RingSlot A → RingSlot A
  taken s = record { state = slot_empty; held = none; offset = s.offset }

  -- Taking the record of the drain offset.
  pub Holds-take :
      (cap off next : ℕ) (slots : List (RingSlot A))
      → Holds cap off next slots
      → off < next
      → Holds cap (suc off) next (set slots (off % cap) (taken (slot_at slots (off % cap))))
  Holds-take cap off next slots h some_left = record {
    size = omega (arith, length-set slots (off % cap) (taken (slot_at slots (off % cap))), h.size);
    low = omega arith;
    high = omega (arith, h.high);
    full = λ o low high.
        other o (omega arith) (omega (arith, h.high)) (omega arith) ∙ h.full o (omega arith) high;
    free = λ o low high. elim (ℕ_discrete o (off + cap)) [
      | yes e ↦
          ap (λ j. is_empty ((slot_at emptied j).state))
            (ap (λ p. p % cap) e ∙ add-mod_right off cap)
          ∙ ap (λ (s : RingSlot A). is_empty (s.state)) emptied_slot
      | no ne ↦
          ap (λ s. is_empty (s.state)) (other o (omega arith) (omega arith) (omega arith))
          ∙ h.free o low (omega arith)
    ];
  }
    where
      positive : 0 < cap
      positive = omega (arith, h.high)

      emptied : List (RingSlot A)
      emptied = set slots (off % cap) (taken (slot_at slots (off % cap)))

      emptied_slot : slot_at emptied (off % cap) ≡ taken (slot_at slots (off % cap))
      emptied_slot =
          get_or-set_self slots (off % cap) (taken (slot_at slots (off % cap))) empty_slot
            (omega (arith, h.size, mod-lt off positive))

      other :
          (o : ℕ)
          → off ≤ o
          → o < off + cap
          → off ≢ o
          → slot_at emptied (o % cap) ≡ slot_at slots (o % cap)
      other o low high ne =
          get_or-set_ne slots (off % cap) (o % cap) (taken (slot_at slots (off % cap))) empty_slot
            (window_apart cap off off o (omega arith) (omega arith) low high ne)

  pub Holds-from :
      {cap off to next : ℕ} (slots : List (RingSlot A))
      → off ≡ to
      → Holds cap off next slots
      → Holds cap to next slots
  Holds-from {cap} {off} {to} {next} slots e h = subst (λ n. Holds cap n next slots) e h

  abbrev pub records : ℕ → ℕ → List A
  records off zero = []
  records off (suc n) = log off ∷ records (suc off) n

  pub records-append : (off m n : ℕ) → records off m ++ records (off + m) n ≡ records off (m + n)
  records-append off zero n = rw (add-zero, zero-add) refl
  records-append off (suc m) n =
      let same : off + suc m ≡ suc off + m = omega arith in
      rw (suc-add m n, same) (ap (λ t. log off ∷ t) (records-append (suc off) m n))

  pub length-records : (off n : ℕ) → length (records off n) ≡ n
  length-records off zero = refl
  length-records off (suc n) = ap suc (length-records (suc off) n)

  -- The records of the log from an offset on, as the buffer hands them out.
  abbrev pub run : ℕ → ℕ → List (Option A)
  run off n = map some (records off n)
