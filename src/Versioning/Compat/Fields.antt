-- ===== src/Versioning/Compat/Fields.antt =====
-- What a diff of src/foundry/versioning/compat.py without a breaking change keeps of the fields.
use agent_foundry.Prelude.{
  String, ◌≡◌, inl, inr, refl, Bool, true, false, some, List, [], ◌∷◌, ◌++◌, arith, eq_string,
  ==_iff, contains, contains-sorted, contains-difference, sorted, difference, Option-cases,
  Bool-cases,
}
use agent_foundry.Prelude.Dict
use agent_foundry.Prelude.Dict.{Dict, keys, get-ne_none, get-eq_none}
use agent_foundry.Versioning.Compat.{
  Schema, Change, field_losses, new_fields, newly_required, diff_models,
}

pub ++-nil_left : (xs ys : List Change) → xs ++ ys ≡ [] → xs ≡ []
++-nil_left [] ys h = refl
++-nil_left (x ∷ xs) ys h = absurd cc

pub ++-nil_right : (xs ys : List Change) → xs ++ ys ≡ [] → ys ≡ []
++-nil_right [] ys h = h
++-nil_right (x ∷ xs) ys h = absurd cc

losses-nil :
    (label : String) (names : List String) (base cand : Dict String String) (name shape : String)
    → field_losses label names base cand ≡ []
    → contains name names ≡ true
    → Dict.get base name ≡ some shape
    → Dict.get cand name ≡ some shape
unfolding field_losses
losses-nil label [] base cand name shape e h g = absurd cc
losses-nil label (n ∷ names) base cand name shape e h g = elim (Option-cases (Dict.get cand n)) [
  | inl gone ↦ absurd (ground (arith, e, gone))
  | inr (s, known) ↦
      ground
        (arith, known, losses-nil label names base cand name shape, ==_iff n name, ==_iff shape s)
]

news-nil :
    (label : String) (names : List String) (base : Dict String String) (required : List String)
    (name : String)
    → (new_fields label true names base required).0 ≡ []
    → contains name names ≡ true
    → contains name required ≡ true
    → contains name (keys base) ≡ true
unfolding new_fields
news-nil label [] base required name e h r = absurd cc
news-nil label (n ∷ names) base required name e h r =
    ground (arith, news-nil label names base required name, ==_iff n name)

newly_required-nil :
    (label : String) (names : List String) (base : Dict String String) (name : String)
    → newly_required label true names base ≡ []
    → contains name names ≡ true
    → contains name (keys base) ≡ false
unfolding newly_required
newly_required-nil label [] base name e h = absurd cc
newly_required-nil label (n ∷ names) base name e h =
    ground (arith, newly_required-nil label names base name, ==_iff n name)

-- A field of the baseline keeps its shape.
pub kept_shape :
    (base cand : Schema) (label name shape : String) (breaking_required : Bool)
    → (diff_models base cand label breaking_required).breaking ≡ []
    → Dict.get base.properties name ≡ some shape
    → Dict.get cand.properties name ≡ some shape
unfolding diff_models
kept_shape base cand label name shape breaking_required h g =
    let names = sorted (keys base.properties) in
    let losses = field_losses label names base.properties cand.properties in
    elim (Bool-cases (contains name (keys base.properties))) [
      | inl known ↦
          losses-nil label names base.properties cand.properties name shape (++-nil_left losses _ h)
            (ground (arith, contains-sorted name (keys base.properties), known)) g
      | inr miss ↦ absurd (ground (arith, get-eq_none base.properties name miss, g))
    ]

-- A field that only the candidate requires is no field of it, where nothing is breaking.
pub required_before :
    (base cand : Schema) (label name : String)
    → (diff_models base cand label true).breaking ≡ []
    → contains name cand.required ≡ true
    → contains name (keys cand.properties) ≡ true
    → contains name base.required ≡ true
unfolding diff_models
required_before base cand label name h r k =
    let losses =
      field_losses label (sorted (keys base.properties)) base.properties cand.properties in
    let news =
      (new_fields label true (sorted (keys cand.properties)) base.properties cand.required).0 in
    let only = sorted (difference cand.required base.required) in
    let stricter = newly_required label true only base.properties in
    let tail = ++-nil_right losses (news ++ stricter) h in
    ground (
      arith,
      r,
      k,
      news-nil label (sorted (keys cand.properties)) base.properties cand.required name
          (++-nil_left news stricter tail),
      newly_required-nil label only base.properties name (++-nil_right news stricter tail),
      contains-sorted name (keys cand.properties),
      contains-sorted name (difference cand.required base.required),
      contains-difference name cand.required base.required,
    )
