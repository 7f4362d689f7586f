-- ===== src/Versioning/Compat.antt =====
-- src/foundry/versioning/compat.py: what moved between two versions of a contract, and whether it is
-- breaking. A schema is what the source reads off a model: the fingerprint of each field's shape, and
-- the required fields. The messages are data, and the loaded contracts are arguments.
mod Tests
pub mod Fields
pub mod Slots
use agent_foundry.Prelude.{
  String, ◌≡◌, Bool, true, false, not, ◌&&◌, Option, none, some, List, [], ◌∷◌, ◌++◌, if◌then◌else◌,
  eq_string, ◌==◌, contains, sorted, difference,
}
use agent_foundry.Prelude.Dict
use agent_foundry.Prelude.Dict.{Dict, keys}

pub record Schema : Type 0 where
  pub properties : Dict String String
  pub required : List String

pub data Change : Type 0 where
  removed_field changed_shape new_required_field new_field became_required :
      String → String → Change
  removed_slot new_optional_slot new_required_slot : String → Change
  auth_scheme_changed : String → String → Change

pub record ContractDiff : Type 0 where
  pub breaking : List Change
  pub additions : List Change

pub data SchemaChange : Type 0 where
  initial additive breaking : SchemaChange

unfoldable pub classification : ContractDiff → SchemaChange
classification d = elim d.breaking [ [] ↦ additive | b ∷ bs ↦ breaking ]

-- The loop over the baseline's fields.
unfoldable pub field_losses :
    String → List String → Dict String String → Dict String String → List Change
field_losses label [] base cand = []
field_losses label (name ∷ names) base cand =
    let rest = field_losses label names base cand in
    elim (Dict.get cand name) [
      | none ↦ removed_field label name ∷ rest
      | some shape' ↦ elim (Dict.get base name) [
        | none ↦ rest
        | some shape ↦ if shape == shape' then rest else changed_shape label name ∷ rest
      ]
    ]

-- The loop over the candidate's fields: the breaking ones and the additions.
unfoldable pub new_fields :
    String → Bool → List String → Dict String String → List String → List Change × List Change
new_fields label strict [] base required = ([], [])
new_fields label strict (name ∷ names) base required =
    let (bs, additions) = new_fields label strict names base required in
    if contains name (keys base)
    then (bs, additions)
    else if contains name required && strict
    then (new_required_field label name ∷ bs, additions)
    else (bs, new_field label name ∷ additions)

-- The loop over the fields that only the candidate requires.
unfoldable pub newly_required : String → Bool → List String → Dict String String → List Change
newly_required label strict [] base = []
newly_required label strict (name ∷ names) base =
    let rest = newly_required label strict names base in
    if contains name (keys base) && strict then became_required label name ∷ rest else rest

-- `strict` is `new_required_is_breaking`.
unfoldable pub diff_models : Schema → Schema → String → Bool → ContractDiff
diff_models base cand label strict =
    let losses =
      field_losses label (sorted (keys base.properties)) base.properties cand.properties in
    let (news, additions) =
      new_fields label strict (sorted (keys cand.properties)) base.properties cand.required in
    let stricter =
      newly_required label strict (sorted (difference cand.required base.required))
        base.properties in
    record { breaking = losses ++ (news ++ stricter); additions = additions }

unfoldable pub merge : List ContractDiff → ContractDiff
merge [] = record { breaking = []; additions = [] }
merge (d ∷ ds) =
    let rest = merge ds in
    record { breaking = d.breaking ++ rest.breaking; additions = d.additions ++ rest.additions }

-- A tool's connection slots, with whether each is optional.
pub record ToolContract : Type 0 where
  pub input : Schema
  pub output : Schema
  pub slots : Dict String Bool

unfoldable pub slot_losses : List String → Dict String Bool → List Change
slot_losses [] cand = []
slot_losses (name ∷ names) cand =
    let rest = slot_losses names cand in
    if contains name (keys cand) then rest else removed_slot name ∷ rest

unfoldable pub new_slots :
    List String → Dict String Bool → Dict String Bool → List Change × List Change
new_slots [] base cand = ([], [])
new_slots (name ∷ names) base cand =
    let (bs, additions) = new_slots names base cand in
    if contains name (keys base) then (bs, additions) else elim (Dict.get cand name) [
      | some true ↦ (bs, new_optional_slot name ∷ additions)
      | _ ↦ (new_required_slot name ∷ bs, additions)
    ]

-- The part of `tool_contract_diff` about the slots.
unfoldable pub slot_diff : Dict String Bool → Dict String Bool → ContractDiff
slot_diff base cand =
    let (bs, additions) = new_slots (sorted (keys cand)) base cand in
    record { breaking = slot_losses (sorted (keys base)) cand ++ bs; additions = additions }

unfoldable pub tool_contract_diff : ToolContract → ToolContract → ContractDiff
tool_contract_diff base cand = merge (
    diff_models base.input cand.input "input_schema" true
    ∷ diff_models base.output cand.output "output_schema" false
    ∷ slot_diff base.slots cand.slots
    ∷ [])

pub record ConnectionContract : Type 0 where
  pub auth_scheme : String
  pub config : Schema

unfoldable pub connection_contract_diff : ConnectionContract → ConnectionContract → ContractDiff
connection_contract_diff base cand =
    let auth : ContractDiff =
      (if base.auth_scheme == cand.auth_scheme
        then record { breaking = []; additions = [] }
        else record {
          breaking = auth_scheme_changed base.auth_scheme cand.auth_scheme ∷ [];
          additions = [];
        }) in
    merge (diff_models base.config cand.config "config_schema" true ∷ auth ∷ [])
