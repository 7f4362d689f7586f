-- ===== src/Config/Composition/Environment.antt =====
-- When `interpolate_env` of src/foundry/config/composition.py raises.
use agent_foundry.Prelude.{
  String, ◌≡◌, refl, Option, none, some, List, [], ◌∷◌, ◌++◌, Result, ok, err, ap, ◌∙◌,
}
use agent_foundry.Config.Composition.{
  Yaml, null, other, str, sequence, mapping, Items, no_items, item, Entries, no_entries, entry,
  ConfigLoadError, not_set, value_or_default, interpolate_text, wrap, both, interpolate_env,
  interpolate_items, interpolate_entries,
}

-- The variables that are not set and have no default, in the order of the document.
abbrev pub unset_name : String → Option String → Option String → List String
unset_name name default (some v) = []
unset_name name (some d) none = []
unset_name name none none = name ∷ []

abbrev pub unset_text : Option (String × Option String) → (String → Option String) → List String
unset_text none env = []
unset_text (some (name, default)) env = unset_name name default (env name)

unfoldable mutual
  pub unset :
      (String → Option (String × Option String)) → (String → Option String) → Yaml → List String
  unset matched env null = []
  unset matched env (other s) = []
  unset matched env (str s) = unset_text (matched s) env
  unset matched env (sequence s) = unset_items matched env s
  unset matched env (mapping es) = unset_entries matched env es

  pub unset_items :
      (String → Option (String × Option String)) → (String → Option String) → Items → List String
  unset_items matched env no_items = []
  unset_items matched env (item y s) = unset matched env y ++ unset_items matched env s

  pub unset_entries :
      (String → Option (String × Option String)) → (String → Option String) → Entries → List String
  unset_entries matched env no_entries = []
  unset_entries matched env (entry k y es) = unset matched env y ++ unset_entries matched env es

-- A result that raises for the first of some variables, and else succeeds.
abbrev pub Raises {ℓ} : {A : Type ℓ} → Result ConfigLoadError A → List String → Type ℓ
Raises {A = A} r [] = (a : A) × (r ≡ ok a)
Raises r (name ∷ names) = r ≡ err (not_set name)

Raises-wrap :
    {A B : Type 0} (f : A → B) (r : Result ConfigLoadError A) (names : List String)
    → Raises r names
    → Raises (wrap f r) names
Raises-wrap f r [] (a, e) = (f a, ap (wrap f) e)
Raises-wrap f r (n ∷ names) e = ap (wrap f) e

Raises-both :
    {A B C : Type 0} (f : A → B → C) (r : Result ConfigLoadError A) (q : Result ConfigLoadError B)
    (names more : List String)
    → Raises r names
    → Raises q more
    → Raises (both f r q) (names ++ more)
Raises-both f r q [] [] (a, e) (b, e') = (f a b, ap (λ x. both f x q) e ∙ ap (both f (ok a)) e')
Raises-both f r q [] (m ∷ more) (a, e) e' = ap (λ x. both f x q) e ∙ ap (both f (ok a)) e'
Raises-both f r q (n ∷ names) more e h = ap (λ x. both f x q) e

Raises-name :
    (name : String) (default o : Option String)
    → Raises (value_or_default name default o) (unset_name name default o)
unfolding value_or_default
Raises-name name default (some v) = (v, refl)
Raises-name name (some d) none = (d, refl)
Raises-name name none none = refl

Raises-text :
    (m : Option (String × Option String)) (env : String → Option String) (s : String)
    → Raises (interpolate_text m env s) (unset_text m env)
unfolding interpolate_text
Raises-text none env s = (s, refl)
Raises-text (some (name, default)) env s = Raises-name name default (env name)

mutual
  unfolding interpolate_env interpolate_items interpolate_entries unset unset_items unset_entries

  Raises-yaml :
      (matched : String → Option (String × Option String)) (env : String → Option String) (y : Yaml)
      → Raises (interpolate_env matched env y) (unset matched env y)
  Raises-yaml matched env null = (null, refl)
  Raises-yaml matched env (other s) = (other s, refl)
  Raises-yaml matched env (str s) =
      Raises-wrap str _ (unset_text (matched s) env) (Raises-text (matched s) env s)
  Raises-yaml matched env (sequence s) =
      Raises-wrap sequence _ (unset_items matched env s) (Raises-items matched env s)
  Raises-yaml matched env (mapping es) =
      Raises-wrap mapping _ (unset_entries matched env es) (Raises-entries matched env es)

  Raises-items :
      (matched : String → Option (String × Option String)) (env : String → Option String)
      (s : Items)
      → Raises (interpolate_items matched env s) (unset_items matched env s)
  Raises-items matched env no_items = (no_items, refl)
  Raises-items matched env (item y s) =
      Raises-both item _ _ (unset matched env y) (unset_items matched env s)
        (Raises-yaml matched env y) (Raises-items matched env s)

  Raises-entries :
      (matched : String → Option (String × Option String)) (env : String → Option String)
      (es : Entries)
      → Raises (interpolate_entries matched env es) (unset_entries matched env es)
  Raises-entries matched env no_entries = (no_entries, refl)
  Raises-entries matched env (entry k y es) =
      Raises-both (entry k) _ _ (unset matched env y) (unset_entries matched env es)
        (Raises-yaml matched env y) (Raises-entries matched env es)

-- `interpolate_env` succeeds where each placeholder's variable is set or has a default; else it
-- raises for the first in the document that is not and has none.
pub interpolate_env-Raises :
    (matched : String → Option (String × Option String)) (env : String → Option String) (y : Yaml)
    → Raises (interpolate_env matched env y) (unset matched env y)
interpolate_env-Raises matched env y = Raises-yaml matched env y
