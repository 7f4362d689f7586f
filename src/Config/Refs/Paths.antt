-- ===== src/Config/Refs/Paths.antt =====
-- Where references of src/foundry/config/refs.py lead, and which of them a slot accepts. A path is the
-- list of its parts. The versions that exist, which an error lists, are left out.
use agent_foundry.Prelude.{
  ℕ, ◌≡◌, ◌⊎◌, ◌↔◌, refl, Bool, true, false, Option, none, some, List, [], ◌∷◌, ◌++◌, if◌then◌else◌,
  Result, ok, err, ◌>>=◌, arith, eq_nat, ==_iff, contains, contains-append, Text, codes, eq_text,
  every,
}
use agent_foundry.Config.Refs.{
  RefScope, catalog, local, ArtifactKind, tool, connection, retriever, agent_template, ArtifactRef,
  scope_text, name_char, unversioned, to_str, ref_matches_accept, is_name,
}
use agent_foundry.Config.Refs.RoundTrip.{IsRef}

abbrev pub Directory : Type 0
Directory = List Text

pub record FoundryRoots : Type 0 where
  pub catalog_roots : List Directory
  pub projects_root : Directory
  pub project_name : Option Text

pub data PathError : Type 0 where
  no_project : PathError
  not_found : List Directory → PathError
  no_such_version : Directory → PathError

-- `_KIND_SUBDIR`
abbrev pub kind_subdir : ArtifactKind → Text
kind_subdir tool = codes "tools"
kind_subdir connection = codes "connections"
kind_subdir retriever = codes "retrievers"
kind_subdir agent_template = codes "agent_templates"

abbrev pub under : ArtifactRef → Directory → Directory
under r root = root ++ (kind_subdir r.kind ∷ r.name ∷ [])

abbrev pub all_under : ArtifactRef → List Directory → List Directory
all_under r [] = []
all_under r (root ∷ roots) = under r root ∷ all_under r roots

module _ (is_dir : Directory → Bool) where
  abbrev pub existing : List Directory → List Directory
  existing [] = []
  existing (d ∷ ds) = let later = existing ds in if is_dir d then d ∷ later else later

  abbrev pub first_hit : List Directory → List Directory → Result PathError Directory
  first_hit checked [] = err (not_found checked)
  first_hit checked (d ∷ ds) = ok d

  -- The directory of an artifact in the project, if there is one.
  abbrev pub local_dir : FoundryRoots → ArtifactRef → Option Text → Result PathError Directory
  local_dir roots r none = err no_project
  local_dir roots r (some project) =
      let base = under r (roots.projects_root ++ project ∷ []) in
      if is_dir base then ok base else err (not_found (base ∷ []))

  unfoldable pub artifact_dir : FoundryRoots → ArtifactRef → Result PathError Directory
  artifact_dir roots r = elim r.scope [
    | local ↦ local_dir roots r roots.project_name
    | catalog ↦
        first_hit (all_under r roots.catalog_roots) (existing (all_under r roots.catalog_roots))
  ]

  unfoldable pub resolve_path : FoundryRoots → ArtifactRef → Result PathError Directory
  resolve_path roots r = artifact_dir roots r >>= λ base.
      let version_dir = base ++ r.version ∷ [] in
      if is_dir version_dir then ok version_dir else err (no_such_version version_dir)

  -- The first of some directories that exists.
  abbrev pub FirstHit : List Directory → Directory → Type 0
  FirstHit [] base = ⊥
  FirstHit (d ∷ ds) base =
      ((is_dir d ≡ true) × (d ≡ base)) ⊎ ((is_dir d ≡ false) × FirstHit ds base)

  -- The directory of an artifact: of a catalog's, the first hit among the roots.
  abbrev pub IsBase : FoundryRoots → ArtifactRef → RefScope → Directory → Type 0
  IsBase roots r catalog base = FirstHit (all_under r roots.catalog_roots) base
  IsBase roots r local base =
      (project : Text) × ((roots.project_name ≡ some project)
        × ((under r (roots.projects_root ++ project ∷ []) ≡ base) × (is_dir base ≡ true)))

-- The names of references hold no `@`.
every-name_char : (s : Text) → every name_char s ≡ true → contains 64 s ≡ false
every-name_char [] h = refl
every-name_char (c ∷ s) h = ground (arith, h, every-name_char s)

contains-scope_text :
    (is_digit : ℕ → Bool) (scope : RefScope) (n : Text)
    → is_name is_digit n ≡ true
    → contains 64 (scope_text scope ++ n) ≡ false
contains-scope_text is_digit scope [] h = absurd cc
contains-scope_text is_digit catalog (c ∷ s) h = ground (arith, h, every-name_char s)
contains-scope_text is_digit local (c ∷ s) h = ground (arith, h, every-name_char s)

-- A slot accepts a reference exactly if it names the reference as it is written, or without version.
pub ref_matches_accept_iff :
    (is_digit : ℕ → Bool) (r : ArtifactRef) (accept : Text)
    → IsRef is_digit r
    → (ref_matches_accept r accept ≡ true) ↔ ((accept ≡ to_str r) ⊎ (accept ≡ unversioned r))
ref_matches_accept_iff is_digit r accept is_ref =
    let bare = contains-scope_text is_digit r.scope r.name is_ref.0 in
    ground (
      arith,
      bare,
      contains-append 64 (unversioned r) (codes "@" ++ r.version),
      ==_iff (to_str r) accept,
      ==_iff (unversioned r) accept,
    )
