-- ===== src/Config/Composition.antt =====
-- src/foundry/config/composition.py: a YAML file that extends another, and placeholders for
-- environment variables. YAML data is a data type with a mapping's entries in their order; scalars
-- other than texts are kept as their texts, and keys are texts. Arguments are what a file's text loads as, what the match
-- of a text with the pattern of a placeholder gives (the name and the default), and the environment.
mod Tests
pub mod Extends
pub mod Environment
use agent_foundry.Prelude.{
  String, ◌≡◌, Bool, true, false, Option, none, some, List, [], ◌∷◌, if◌then◌else◌, Result, ok, err,
  eq_string, ◌==◌, contains,
}
use agent_foundry.Prelude.Dict
use agent_foundry.Prelude.Dict.{Dict, keys}

mutual
  pub data Yaml : Type 0 where
    null : Yaml
    other : String → Yaml
    str : String → Yaml
    sequence : Items → Yaml
    mapping : Entries → Yaml

  pub data Items : Type 0 where
    no_items : Items
    item : Yaml → Items → Items

  pub data Entries : Type 0 where
    no_entries : Entries
    entry : String → Yaml → Entries → Entries

-- A mapping as a dictionary.
unfoldable pub to_dict : Entries → Dict String Yaml
to_dict no_entries = []
to_dict (entry k v es) = (k, v) ∷ to_dict es

unfoldable pub from_dict : Dict String Yaml → Entries
from_dict [] = no_entries
from_dict ((k, v) ∷ d) = entry k v (from_dict d)

pub data ConfigLoadError : Type 0 where
  not_a_path not_a_mapping extends_twice : ConfigLoadError
  not_found not_valid_yaml : String → ConfigLoadError
  not_set : String → ConfigLoadError

-- What the file of a relative path is.
pub data Loaded : Type 0 where
  missing invalid : Loaded
  loaded : Yaml → Loaded

-- The merge: the file's entries over the base's, without `extends`.
unfoldable pub overlay : Dict String Yaml → Dict String Yaml → Dict String Yaml
overlay base [] = base
overlay base ((k, v) ∷ rest) = overlay (if k == "extends" then base else Dict.put base k v) rest

unfoldable pub extend_base : String → Entries → Loaded → Result ConfigLoadError Yaml
extend_base target es missing = err (not_found target)
extend_base target es invalid = err (not_valid_yaml target)
extend_base target es (loaded (mapping base)) =
    if contains "extends" (keys (to_dict base))
    then err extends_twice
    else ok (mapping (from_dict (overlay (to_dict base) (to_dict es))))
extend_base target es (loaded null) = err not_a_mapping
extend_base target es (loaded (other s)) = err not_a_mapping
extend_base target es (loaded (str s)) = err not_a_mapping
extend_base target es (loaded (sequence s)) = err not_a_mapping

unfoldable pub extend_to : (String → Loaded) → Entries → Yaml → Result ConfigLoadError Yaml
extend_to load es (str target) = extend_base target es (load target)
extend_to load es null = err not_a_path
extend_to load es (other s) = err not_a_path
extend_to load es (sequence s) = err not_a_path
extend_to load es (mapping s) = err not_a_path

unfoldable pub apply_extends : (String → Loaded) → Yaml → Result ConfigLoadError Yaml
apply_extends load (mapping es) = elim (Dict.get (to_dict es) "extends") [
  | none ↦ ok (mapping es)
  | some target ↦ extend_to load es target
]
apply_extends load null = ok null
apply_extends load (other s) = ok (other s)
apply_extends load (str s) = ok (str s)
apply_extends load (sequence s) = ok (sequence s)

-- A placeholder: the variable's value, or the default.
unfoldable pub value_or_default :
    String → Option String → Option String → Result ConfigLoadError String
value_or_default name default (some v) = ok v
value_or_default name (some d) none = ok d
value_or_default name none none = err (not_set name)

unfoldable pub interpolate_text :
    Option (String × Option String)
    → (String → Option String)
    → String
    → Result ConfigLoadError String
interpolate_text none env s = ok s
interpolate_text (some (name, default)) env s = value_or_default name default (env name)

abbrev pub wrap {ℓ κ} :
    {A : Type ℓ} {B : Type κ} → (A → B) → Result ConfigLoadError A → Result ConfigLoadError B
wrap f (ok a) = ok (f a)
wrap f (err e) = err e

abbrev pub both :
    {A B C : Type 0}
    → (A → B → C)
    → Result ConfigLoadError A
    → Result ConfigLoadError B
    → Result ConfigLoadError C
both f (ok a) (ok b) = ok (f a b)
both f (ok a) (err e) = err e
both f (err e) r = err e

unfoldable mutual
  pub interpolate_env :
      (String → Option (String × Option String))
      → (String → Option String)
      → Yaml
      → Result ConfigLoadError Yaml
  interpolate_env matched env null = ok null
  interpolate_env matched env (other s) = ok (other s)
  interpolate_env matched env (str s) = wrap str (interpolate_text (matched s) env s)
  interpolate_env matched env (sequence s) = wrap sequence (interpolate_items matched env s)
  interpolate_env matched env (mapping es) = wrap mapping (interpolate_entries matched env es)

  pub interpolate_items :
      (String → Option (String × Option String))
      → (String → Option String)
      → Items
      → Result ConfigLoadError Items
  interpolate_items matched env no_items = ok no_items
  interpolate_items matched env (item y s) =
      both item (interpolate_env matched env y) (interpolate_items matched env s)

  pub interpolate_entries :
      (String → Option (String × Option String))
      → (String → Option String)
      → Entries
      → Result ConfigLoadError Entries
  interpolate_entries matched env no_entries = ok no_entries
  interpolate_entries matched env (entry k y es) =
      both (entry k) (interpolate_env matched env y) (interpolate_entries matched env es)
