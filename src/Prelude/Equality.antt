-- ===== src/Prelude/Equality.antt =====
-- Equality tests as an interface, with texts and numbers as instances, and membership by a test.
use Prim.Native.Nat.{ℕ}
use Prim.Native.String.{String}
use text.Mathlib.Text.{◌==◌ as str_eq}
use text.Mathlib.TextEquality.{eq_iff}
use mathlib.Core.Path.{◌≡◌, refl}
use mathlib.Core.Logic.{◌↔◌}
use mathlib.Core.Bool.{Bool, true, false, ◌||◌}
use mathlib.Core.List.{List, [], ◌∷◌, ◌++◌}
use native.Mathlib.Omega.{arith}
use agent_foundry.Prelude.Tests.{nat_beq, nat_beq_iff}

pub record DecEq {ℓ} (A : Type ℓ) : Type ℓ where
  pub test : A → A → Bool
  pub decides : (a b : A) → (test a b ≡ true) ↔ (a ≡ b)

infix 50 ◌==◌
abbrev pub ◌==◌ {ℓ} : {A : Type ℓ} ⦃e : DecEq A⦄ → A → A → Bool
◌==◌ ⦃e⦄ = e.test

instance abbrev pub eq_nat : DecEq ℕ
eq_nat = record { test = nat_beq; decides = nat_beq_iff }

instance abbrev pub eq_string : DecEq String
eq_string = record { test = str_eq; decides = eq_iff }

module _ {ℓ} {A : Type ℓ} ⦃e : DecEq A⦄ where
  pub ==_iff : (a b : A) → ((a == b) ≡ true) ↔ (a ≡ b)
  ==_iff = e.decides

  pub ==-refl : (a : A) → (a == a) ≡ true
  ==-refl a = (e.decides a a).1 refl

  -- `a in xs`, on a list or on a set that is held as a list.
  abbrev pub contains : A → List A → Bool
  contains a [] = false
  contains a (x ∷ xs) = x == a || contains a xs

  -- The members of a set are added once.
  abbrev pub Distinct : List A → Type 0
  Distinct [] = Unit
  Distinct (x ∷ xs) = (contains x xs ≡ false) × Distinct xs

module _ {ℓ} {A : Type ℓ} ⦃e : DecEq A⦄ where
  pub contains-append :
      (a : A) (xs ys : List A) → contains a (xs ++ ys) ≡ (contains a xs || contains a ys)
  contains-append a [] ys = refl
  contains-append a (x ∷ xs) ys = ground (arith, contains-append a xs ys)

  pub Distinct-snoc :
      (xs : List A) (n : A) → Distinct xs → contains n xs ≡ false → Distinct (xs ++ n ∷ [])
  Distinct-snoc [] n d h = (refl, tt)
  Distinct-snoc (x ∷ xs) n d h =
      ground
        (arith, d, h, contains-append x xs (n ∷ []), Distinct-snoc xs n d.1, ==_iff x n, ==_iff n x)
