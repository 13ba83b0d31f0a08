-- ===== src/Prelude/Equality.antt =====
-- Go's `==` on the comparable types of the program, as an interface with its law.
use Prim.Native.Nat.{ℕ}
use mathlib.Core.Path.{◌≡◌, refl}
use mathlib.Core.Logic.{◌↔◌}
use mathlib.Core.Bool.{Bool, true, false, ◌&&◌}
use mathlib.Core.List.{List, [], ◌∷◌}
use native.Mathlib.Omega.{arith}
use gomm.Prelude.Tests.{nat_beq, nat_beq_iff}

unfoldable pub bytes_beq : List ℕ → List ℕ → Bool
bytes_beq [] [] = true
bytes_beq [] (y ∷ ys) = false
bytes_beq (x ∷ xs) [] = false
bytes_beq (x ∷ xs) (y ∷ ys) = nat_beq x y && bytes_beq xs ys

pub bytes_beq_iff : (a b : List ℕ) → (bytes_beq a b ≡ true) ↔ (a ≡ b)
unfolding bytes_beq
bytes_beq_iff [] [] = (λ h. refl, λ h. refl)
bytes_beq_iff [] (y ∷ ys) = (λ h. cc, λ h. cc)
bytes_beq_iff (x ∷ xs) [] = (λ h. cc, λ h. cc)
bytes_beq_iff (x ∷ xs) (y ∷ ys) = ground (arith, bytes_beq_iff xs ys)

pub record Eq {ℓ} (K : Type ℓ) : Type ℓ where
  pub same : (left right : K) → Bool
  pub same_iff : (left right : K) → (same left right ≡ true) ↔ (left ≡ right)

instance abbrev pub bytes_eq : Eq (List ℕ)
bytes_eq = record { same = bytes_beq; same_iff = bytes_beq_iff }

infix 50 ◌==◌
abbrev pub ◌==◌ {ℓ} : {K : Type ℓ} ⦃comparable : Eq K⦄ → K → K → Bool
◌==◌ ⦃comparable⦄ left right = comparable.same left right

instance abbrev pub nat_eq : Eq ℕ
nat_eq = record { same = nat_beq; same_iff = nat_beq_iff }
