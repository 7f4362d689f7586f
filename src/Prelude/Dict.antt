-- ===== src/Prelude/Dict.antt =====
-- Python's `dict`: keys in the order of their first insertion, each once. A write to a key that is
-- there keeps its place.
use mathlib.Core.Path.{◌≡◌, refl}
use mathlib.Core.Logic.{◌≢◌}
use mathlib.Core.Bool.{true, false, ◌||◌}
use mathlib.Core.Option.{Option, none, some}
use mathlib.Core.List.{List, [], ◌∷◌}
use native.Mathlib.Omega.{arith}
use agent_foundry.Prelude.Tests.{if◌then◌else◌}
use agent_foundry.Prelude.Equality.{DecEq, ◌==◌, contains, Distinct, ==_iff}

abbrev pub Dict {ℓ κ} : Type ℓ → Type κ → Type (ℓ ⊔ κ)
Dict K V = List (K × V)

module _ {ℓ κ} {K : Type ℓ} {V : Type κ} where
  abbrev pub keys : Dict K V → List K
  keys [] = []
  keys ((k, v) ∷ d) = k ∷ keys d

  abbrev pub values : Dict K V → List V
  values [] = []
  values ((k, v) ∷ d) = v ∷ values d

module _ {ℓ κ} {K : Type ℓ} {V : Type κ} ⦃e : DecEq K⦄ where
  -- d.get(k)
  unfoldable pub get : Dict K V → K → Option V
  get [] j = none
  get ((k, v) ∷ d) j = if k == j then some v else get d j

  -- d[k] = v
  unfoldable pub put : Dict K V → K → V → Dict K V
  put [] j w = (j, w) ∷ []
  put ((k, v) ∷ d) j w = if k == j then (k, w) ∷ d else (k, v) ∷ put d j w

  -- d.pop(k, None), del d[k]
  unfoldable pub pop : Dict K V → K → Dict K V
  pop [] j = []
  pop ((k, v) ∷ d) j = let rest = pop d j in if k == j then rest else (k, v) ∷ rest

  pub get-put :
      (d : Dict K V) (k j : K) (v : V) → get (put d k v) j ≡ (if k == j then some v else get d j)
  unfolding get put
  get-put [] k j v = refl
  get-put ((i, w) ∷ d) k j v = ground (arith, get-put d k j v, ==_iff i k, ==_iff i j, ==_iff k j)

  pub get-pop : (d : Dict K V) (k j : K) → get (pop d k) j ≡ (if k == j then none else get d j)
  unfolding get pop
  get-pop [] k j = ground arith
  get-pop ((i, w) ∷ d) k j = ground (arith, get-pop d k j, ==_iff i k, ==_iff i j, ==_iff k j)

  -- The keys of a dictionary after a write: the old ones in their places, a new one last.
  pub contains-keys-put :
      (d : Dict K V) (k j : K) (v : V)
      → contains j (keys (put d k v)) ≡ (k == j || contains j (keys d))
  unfolding put
  contains-keys-put [] k j v = refl
  contains-keys-put ((i, w) ∷ d) k j v =
      ground (arith, contains-keys-put d k j v, ==_iff i k, ==_iff i j, ==_iff k j)

  pub keys-put-Distinct :
      (d : Dict K V) (k : K) (v : V) → Distinct (keys d) → Distinct (keys (put d k v))
  unfolding put
  keys-put-Distinct [] k v h = (refl, tt)
  keys-put-Distinct ((i, w) ∷ d) k v h =
      ground (arith, contains-keys-put d k i v, keys-put-Distinct d k v, ==_iff i k, ==_iff k i)

  pub contains-keys-pop :
      (d : Dict K V) (k j : K)
      → contains j (keys (pop d k)) ≡ (if k == j then false else contains j (keys d))
  unfolding pop
  contains-keys-pop [] k j = ground arith
  contains-keys-pop ((i, w) ∷ d) k j =
      ground (arith, contains-keys-pop d k j, ==_iff i k, ==_iff i j, ==_iff k j)

  pub keys-pop-Distinct : (d : Dict K V) (k : K) → Distinct (keys d) → Distinct (keys (pop d k))
  unfolding pop
  keys-pop-Distinct [] k h = tt
  keys-pop-Distinct ((i, w) ∷ d) k h =
      ground (arith, contains-keys-pop d k i, keys-pop-Distinct d k)

  pub get-ne_none : (d : Dict K V) (k : K) → contains k (keys d) ≡ true → get d k ≢ none
  unfolding get
  get-ne_none [] k h = cc
  get-ne_none ((i, w) ∷ d) k h = ground (arith, get-ne_none d k)

  pub get-eq_none : (d : Dict K V) (k : K) → contains k (keys d) ≡ false → get d k ≡ none
  unfolding get
  get-eq_none [] k h = refl
  get-eq_none ((i, w) ∷ d) k h = ground (arith, get-eq_none d k)

pub get-empty {ℓ κ} : {K : Type ℓ} {V : Type κ} ⦃e : DecEq K⦄ (k : K) → get {V = V} [] k ≡ none
unfolding get
get-empty k = refl

pub ruleset dict_laws = (get-empty, get-put, get-pop)
