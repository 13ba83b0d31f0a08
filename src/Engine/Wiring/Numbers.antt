-- ===== src/Engine/Wiring/Numbers.antt =====
-- internal/mirror/engine.go: lists of numbers, and the number that a map has for a key.
use mathlib.Core.List.{map}
use gomm.Prelude.{
  ℕ, zero, suc, ◌+◌, ◌≡◌, refl, ap, ◌∙◌, List, [], ◌∷◌, ◌++◌, Option, some, arith, if◌then◌else◌,
  length, Bytes, ◌==◌, bytes_eq, nat_eq, get_or,
}

-- The numbers from `i` on.
abbrev pub count_up : ℕ → ℕ → List ℕ
count_up i zero = []
count_up i (suc n) = i ∷ count_up (suc i) n

pub count_up-snoc : (i n : ℕ) → count_up i n ++ ((i + n) ∷ []) ≡ count_up i (suc n)
count_up-snoc i zero = ap (λ j. j ∷ []) (omega arith)
count_up-snoc i (suc n) =
    ap (λ t. i ∷ t)
      (ap (λ j. count_up (suc i) n ++ (j ∷ [])) (omega arith) ∙ count_up-snoc (suc i) n)

pub map-snoc :
    {A B : Type 0} (f : A → B) (xs : List A) (x : A)
    → map f (xs ++ (x ∷ [])) ≡ map f xs ++ (f x ∷ [])
map-snoc f [] x = refl
map-snoc f (y ∷ xs) x = ap (λ t. f y ∷ t) (map-snoc f xs x)

pub length-map : {A B : Type 0} (f : A → B) (xs : List A) → length (map f xs) ≡ length xs
length-map f [] = refl
length-map f (x ∷ xs) = ap suc (length-map f xs)

pub length-count_up : (i n : ℕ) → length (count_up i n) ≡ n
length-count_up i zero = refl
length-count_up i (suc n) = ap suc (length-count_up (suc i) n)

-- The last place of a key in a list, counted from `i`; `found` where it has none.
abbrev pub last_index : Bytes → ℕ → List Bytes → Option ℕ → Option ℕ
last_index key i [] found = found
last_index key i (k ∷ ks) found = last_index key (suc i) ks (if k == key then some i else found)

pub last_index-snoc :
    (key : Bytes) (i : ℕ) (ks : List Bytes) (k : Bytes) (found : Option ℕ)
    → last_index key i (ks ++ (k ∷ [])) found
      ≡ (if k == key then some (i + length ks) else last_index key i ks found)
last_index-snoc key i [] k found = ap (λ j. if k == key then some j else found) (omega arith)
last_index-snoc key i (j ∷ ks) k found =
    last_index-snoc key (suc i) ks k (if j == key then some i else found)
    ∙ ap
        (λ n.
          if k == key
          then some n
          else last_index key (suc i) ks (if j == key then some i else found))
        (omega arith)

pub get_or-append_default :
    {A : Type 0} (xs : List A) (i : ℕ) (d : A) → get_or (xs ++ (d ∷ [])) i d ≡ get_or xs i d
get_or-append_default [] zero d = refl
get_or-append_default [] (suc i) d = refl
get_or-append_default (x ∷ xs) zero d = refl
get_or-append_default (x ∷ xs) (suc i) d = get_or-append_default xs i d
