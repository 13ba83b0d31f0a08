-- ===== src/Mirror/Meters/Keys.antt =====
-- internal/mirror/source.go: the keys of the counters.
use gomm.Prelude.{
  ℕ, zero, suc, ◌+◌, ◌≡◌, ◌≢◌, refl, ap, ◌∙◌, true, false, [], ◌∷◌, ◌++◌, arith, length, get_or,
  take, drop, nat_beq, nat_beq_iff, length-append, take-append, All, Bytes, if◌then◌else◌,
}
use gomm.Mirror.Meters.{colon, split_loop, split_key, metrics_key}

abbrev pub NoColon : Bytes → Type 0
NoColon part = All (λ c. c ≢ colon) part

get_or-append_right :
    (xs ys : Bytes) (i j : ℕ) → i ≡ length xs + j → get_or (xs ++ ys) i 0 ≡ get_or ys j 0
get_or-append_right [] ys i j e = ap (λ n. get_or ys n 0) (omega arith)
get_or-append_right (x ∷ xs) ys zero j e = absurd (omega arith)
get_or-append_right (x ∷ xs) ys (suc i) j e = get_or-append_right xs ys i j (omega arith)

drop-suc_append : (xs ys : Bytes) (y : ℕ) → drop (suc (length xs)) (xs ++ (y ∷ ys)) ≡ ys
drop-suc_append [] ys y = refl
drop-suc_append (x ∷ xs) ys y = drop-suc_append xs ys y

get_or-NoColon : (part : Bytes) (j : ℕ) → NoColon part → nat_beq (get_or part j 0) colon ≡ false
get_or-NoColon [] j h = refl
get_or-NoColon (c ∷ part) zero (ne, h) = ground (arith, nat_beq_iff c colon)
get_or-NoColon (c ∷ part) (suc j) (ne, h) = get_or-NoColon part j h

split_loop-step :
    (key : Bytes) (i : ℕ)
    → split_loop key (suc i) ≡ (
        if nat_beq (get_or key i 0) colon then (take i key, drop (suc i) key) else split_loop key i)
unfolding split_loop
split_loop-step key i = refl

split_loop-at :
    (topic part : Bytes) (j n : ℕ)
    → NoColon part
    → n ≡ length topic + j
    → split_loop (metrics_key topic part) (suc n) ≡ (topic, part)
unfolding metrics_key
split_loop-at topic part zero n h e =
    let at : n ≡ length topic = omega arith in
    let c : nat_beq (get_or (topic ++ (colon ∷ part)) n 0) colon ≡ true =
      ap (λ b. nat_beq b colon) (get_or-append_right topic (colon ∷ part) n 0 e) in
    split_loop-step (topic ++ (colon ∷ part)) n
    ∙ rw (c, at)
        (ap (λ t. (t, drop (suc (length topic)) (topic ++ (colon ∷ part))))
            (take-append topic (colon ∷ part))
          ∙ ap (λ d. (topic, d)) (drop-suc_append topic part colon))
split_loop-at topic part (suc j) zero h e = absurd (omega arith)
split_loop-at topic part (suc j) (suc n) h e =
    let c : nat_beq (get_or (topic ++ (colon ∷ part)) (suc n) 0) colon ≡ false =
      ap (λ b. nat_beq b colon) (get_or-append_right topic (colon ∷ part) (suc n) (suc j) e)
      ∙ get_or-NoColon part j h in
    split_loop-step (topic ++ (colon ∷ part)) (suc n)
    ∙ rw c (split_loop-at topic part j n h (omega arith))

-- A key is taken apart into its topic and its partition.
pub split_key-metrics_key :
    (topic part : Bytes) → NoColon part → split_key (metrics_key topic part) ≡ (topic, part)
unfolding metrics_key
split_key-metrics_key topic part h =
    ap (split_loop (topic ++ (colon ∷ part))) (length-append topic (colon ∷ part) ∙ (omega arith))
    ∙ split_loop-at topic part (length part) (length topic + length part) h refl
