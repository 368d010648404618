-- ===== src/Common/Keys.antt =====
-- Equality of keys as an interface, with the instances that the components use.
use Prim.Native.Nat.{ℕ}
use Prim.Native.String.{String}
use mathlib.Core.Path.{◌≡◌, refl}
use mathlib.Core.Logic.{◌↔◌}
use mathlib.Core.Bool.{Bool, true, false, ◌&&◌}
use mathlib.Core.List.{List, [], ◌∷◌}
use native.Mathlib.Omega.{arith}
use text.Mathlib.Text.{◌==◌ as str_beq}
use text.Mathlib.TextEquality.{eq_iff}
use do_runtime.Common.Tests.{nat_beq, nat_beq_iff}

pub record KeyEq {ℓ} (A : Type ℓ) : Type ℓ where
  pub same : A → A → Bool
  pub same_iff : (x y : A) → (same x y ≡ true) ↔ (x ≡ y)

infix 50 ◌==◌
abbrev pub ◌==◌ {ℓ} : {A : Type ℓ} ⦃e : KeyEq A⦄ → A → A → Bool
◌==◌ ⦃e⦄ = e.same

instance abbrev pub nat_eq : KeyEq ℕ
nat_eq = record { same = nat_beq; same_iff = nat_beq_iff }

instance abbrev pub string_eq : KeyEq String
string_eq = record { same = str_beq; same_iff = eq_iff }

-- A byte string, and a number with a byte string.
abbrev pub bytes_beq : List ℕ → List ℕ → Bool
bytes_beq [] [] = true
bytes_beq [] (y ∷ ys) = false
bytes_beq (x ∷ xs) [] = false
bytes_beq (x ∷ xs) (y ∷ ys) = nat_beq x y && bytes_beq xs ys

bytes_beq_sound : (xs ys : List ℕ) → bytes_beq xs ys ≡ true → xs ≡ ys
bytes_beq_sound [] [] h = refl
bytes_beq_sound [] (y ∷ ys) h = cc
bytes_beq_sound (x ∷ xs) [] h = cc
bytes_beq_sound (x ∷ xs) (y ∷ ys) h = ground (arith, bytes_beq_sound xs ys)

bytes_beq_refl : (xs : List ℕ) → bytes_beq xs xs ≡ true
bytes_beq_refl [] = refl
bytes_beq_refl (x ∷ xs) = ground (arith, bytes_beq_refl xs)

pub bytes_beq_iff : (xs ys : List ℕ) → (bytes_beq xs ys ≡ true) ↔ (xs ≡ ys)
bytes_beq_iff xs ys = (bytes_beq_sound xs ys, λ e. rw (← e) (bytes_beq_refl xs))

instance abbrev pub bytes_eq : KeyEq (List ℕ)
bytes_eq = record { same = bytes_beq; same_iff = bytes_beq_iff }

abbrev pub child_beq : ℕ × List ℕ → ℕ × List ℕ → Bool
child_beq (p, k) (q, l) = nat_beq p q && bytes_beq k l

pub child_beq_iff : (a b : ℕ × List ℕ) → (child_beq a b ≡ true) ↔ (a ≡ b)
child_beq_iff (p, k) (q, l) = ground (arith, bytes_beq_iff k l)

instance abbrev pub child_eq : KeyEq (ℕ × List ℕ)
child_eq = record { same = child_beq; same_iff = child_beq_iff }
