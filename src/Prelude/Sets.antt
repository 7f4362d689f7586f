-- ===== src/Prelude/Sets.antt =====
-- Python's sets of texts where they only are compared, counted and listed: `set(xs) - set(ys)` and `sorted`.
use Prim.Native.String.{String, compare}
use Prim.Native.Nat.{ℕ, ◌+◌, ◌≤◌, ◌<◌, Ordering}
use mathlib.Core.Logic.{inl, inr}
use mathlib.Core.Path.{◌≡◌, refl}
use mathlib.Core.Bool.{Bool, true, false, not, ◌&&◌, ◌||◌}
use mathlib.Core.List.{List, [], ◌∷◌}
use native.Mathlib.Omega.{arith}
use agent_foundry.Prelude.Tests.{if◌then◌else◌, Bool-cases}
use agent_foundry.Prelude.Lists.{length}
use agent_foundry.Prelude.Equality.{eq_string, ◌==◌, contains, ==_iff, ==-refl}

-- Code points compare as the bytes of UTF-8 do.
str_lt : String → String → Bool
str_lt s t = elim (compare s t) [ Ordering.lt ↦ true | _ ↦ false ]

insert_sorted : String → List String → List String
insert_sorted s [] = s ∷ []
insert_sorted s (t ∷ ts) = if str_lt t s then t ∷ insert_sorted s ts else s ∷ t ∷ ts

-- `sorted(…)`
unfoldable pub sorted : List String → List String
unfolding insert_sorted str_lt
sorted [] = []
sorted (s ∷ ss) = insert_sorted s (sorted ss)

-- The members of a list that another does not have, each once.
unfoldable pub difference : List String → List String → List String
difference [] ys = []
difference (x ∷ xs) ys =
    let rest = difference xs ys in if contains x ys || contains x rest then rest else x ∷ rest

contains-insert_sorted :
    (a s : String) (ss : List String) → contains a (insert_sorted s ss) ≡ (s == a || contains a ss)
unfolding insert_sorted
contains-insert_sorted a s [] = refl
contains-insert_sorted a s (t ∷ ts) = ground (arith, contains-insert_sorted a s ts)

pub contains-sorted : (a : String) (ss : List String) → contains a (sorted ss) ≡ contains a ss
unfolding sorted
contains-sorted a [] = refl
contains-sorted a (s ∷ ss) =
    ground (arith, contains-insert_sorted a s (sorted ss), contains-sorted a ss)

pub contains-difference :
    (a : String) (xs ys : List String)
    → contains a (difference xs ys) ≡ (contains a xs && not (contains a ys))
unfolding difference
contains-difference a [] ys = refl
contains-difference a (x ∷ xs) ys =
    ground (arith, contains-difference a xs ys, contains-difference x xs ys, ==_iff x a)

-- How many of some texts a list lacks.
unfoldable pub missing : List String → List String → ℕ
missing [] ys = 0
missing (x ∷ xs) ys = (if contains x ys then 0 else 1) + missing xs ys

missing_mono : (xs ys : List String) (a : String) → missing xs (a ∷ ys) ≤ missing xs ys
unfolding missing
missing_mono [] ys a = omega arith
missing_mono (x ∷ xs) ys a = ground (arith, missing_mono xs ys a)

pub missing-le-length : (xs ys : List String) → missing xs ys ≤ length xs
unfolding missing
missing-le-length [] ys = omega arith
missing-le-length (x ∷ xs) ys = ground (arith, missing-le-length xs ys)

-- A member that comes to the list is no longer lacking.
pub missing-lt :
    (xs ys : List String) (a : String)
    → contains a xs ≡ true
    → contains a ys ≡ false
    → missing xs (a ∷ ys) < missing xs ys
unfolding missing
missing-lt [] ys a h g = absurd cc
missing-lt (x ∷ xs) ys a h g = elim (Bool-cases (x == a)) [
  | inl same ↦ ground (arith, same, g, missing_mono xs ys a, ==_iff x a, ==-refl a)
  | inr other ↦ ground (arith, other, h, g, missing-lt xs ys a, ==_iff x a, ==_iff a x)
]
