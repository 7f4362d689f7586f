-- ===== src/Prelude/Texts.antt =====
-- Texts as lists of code points, for what the program reads letter by letter.
use Prim.Native.Nat.{ℕ, zero, suc, ◌≤◌}
use Prim.Native.Char.{code}
use Prim.Native.String.{String}
use mathlib.Core.Path.{◌≡◌, refl}
use mathlib.Core.Logic.{◌↔◌}
use mathlib.Core.Bool.{Bool, true, false, ◌&&◌}
use mathlib.Core.Option.{Option, none, some}
use mathlib.Core.List.{List, [], ◌∷◌, ◌++◌}
use native.Mathlib.Omega.{arith}
use agent_foundry.Prelude.Tests.{nat_beq, if◌then◌else◌}
use agent_foundry.Prelude.Lists.{length}
use agent_foundry.Prelude.Equality.{DecEq}

abbrev pub Text : Type 0
Text = List ℕ

abbrev pub codes : String → Text
codes String.[] = []
codes (String.◌∷◌ c s) = code c ∷ codes s

abbrev pub text_beq : Text → Text → Bool
text_beq [] [] = true
text_beq [] (d ∷ t) = false
text_beq (c ∷ s) [] = false
text_beq (c ∷ s) (d ∷ t) = nat_beq c d && text_beq s t

pub text_beq_iff : (s t : Text) → (text_beq s t ≡ true) ↔ (s ≡ t)
text_beq_iff [] [] = ground arith
text_beq_iff [] (d ∷ t) = ground arith
text_beq_iff (c ∷ s) [] = ground arith
text_beq_iff (c ∷ s) (d ∷ t) = ground (arith, text_beq_iff s t)

instance abbrev pub eq_text : DecEq Text
eq_text = record { test = text_beq; decides = text_beq_iff }

-- The rest of a text behind a prefix.
unfoldable pub strip : Text → Text → Option Text
strip [] s = some s
strip (c ∷ p) [] = none
strip (c ∷ p) (d ∷ s) = let rest = strip p s in if nat_beq c d then rest else none

pub strip-append : (p s : Text) → strip p (p ++ s) ≡ some s
unfolding strip
strip-append [] s = refl
strip-append (c ∷ p) s = ground (arith, strip-append p s)

pub strip-eq_some : (p s t : Text) → strip p s ≡ some t → s ≡ p ++ t
unfolding strip
strip-eq_some [] s t h = ground (arith, h)
strip-eq_some (c ∷ p) [] t h = absurd cc
strip-eq_some (c ∷ p) (d ∷ s) t h = ground (arith, h, strip-eq_some p s t)

abbrev pub every : (ℕ → Bool) → Text → Bool
every test [] = true
every test (c ∷ s) = test c && every test s

-- Does no letter that passes the test come first?
abbrev pub stops : (ℕ → Bool) → Text → Bool
stops test [] = true
stops test (c ∷ s) = if test c then false else true

-- The longest beginning of letters that pass the test, of at most so many, and what is left.
unfoldable pub split_while : (ℕ → Bool) → ℕ → Text → Text × Text
split_while test zero s = ([], s)
split_while test (suc n) [] = ([], [])
split_while test (suc n) (c ∷ s) =
    let (front, rest) = split_while test n s in if test c then (c ∷ front, rest) else ([], c ∷ s)

pub split_while-append :
    (test : ℕ → Bool) (n : ℕ) (s t : Text)
    → every test s ≡ true
    → length s ≤ n
    → stops test t ≡ true
    → split_while test n (s ++ t) ≡ (s, t)
unfolding split_while
split_while-append test zero [] t h le e = refl
split_while-append test (suc n) [] [] h le e = refl
split_while-append test (suc n) [] (d ∷ t) h le e = ground (arith, e)
split_while-append test zero (c ∷ s) t h le e = absurd (ground (arith, le))
split_while-append test (suc n) (c ∷ s) t h le e =
    ground (arith, h, le, e, split_while-append test n s t)

pub split_while_lem :
    (test : ℕ → Bool) (n : ℕ) (s : Text)
    → (s ≡ (split_while test n s).0 ++ (split_while test n s).1)
      × ((every test (split_while test n s).0 ≡ true) × (length (split_while test n s).0 ≤ n))
unfolding split_while
split_while_lem test zero s = (refl, (refl, ground arith))
split_while_lem test (suc n) [] = (refl, (refl, ground arith))
split_while_lem test (suc n) (c ∷ s) = ground (arith, split_while_lem test n s)
