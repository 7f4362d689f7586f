-- ===== src/Config/Refs/Tests.antt =====
-- Runs of src/foundry/config/refs.py on small inputs.
use agent_foundry.Prelude.{
  ℕ, ◌≡◌, refl, Bool, ◌&&◌, none, some, [], ◌∷◌, ◌++◌, ok, err, leb, Text, codes, strip,
  split_while, eq_text, contains,
}
use agent_foundry.Config.Refs.{
  catalog, tool, ArtifactRef, invalid_ref, conflicting_pins, no_version, bad_field, to_str,
  match_version, match_name, match_ref, parse,
}
use agent_foundry.Config.Refs.RoundTrip.{IsRef, Names, parse-to_str, parse-Names}
use agent_foundry.Config.Refs.Paths.{
  Directory, FoundryRoots, no_such_version, artifact_dir, resolve_path,
}

abbrev ascii_digit : ℕ → Bool
ascii_digit c = leb 48 c && leb c 57

abbrev query_db : ArtifactRef
query_db = record { scope = catalog; kind = tool; name = codes "query_db"; version = codes "v12" }

-- A newline at the end is passed over, but not one in the binding's pin.
with_newline : parse ascii_digit (codes "catalog/query_db@v12" ++ 10 ∷ []) tool none ≡ ok query_db
unfolding parse match_ref match_name match_version strip split_while
with_newline = refl

pin_of_binding :
    parse ascii_digit (codes "catalog/query_db") tool (some (codes "v12")) ≡ ok query_db
unfolding parse match_ref match_name match_version strip split_while
pin_of_binding = refl

two_pins :
    parse ascii_digit (codes "local/query_db@v1") tool (some (codes "v2")) ≡ err conflicting_pins
unfolding parse match_ref match_name match_version strip split_while
two_pins = refl

upper_case : parse ascii_digit (codes "catalog/Query@v1") tool none ≡ err invalid_ref
unfolding parse match_ref match_name match_version strip split_while
upper_case = refl

no_pin : parse ascii_digit (codes "catalog/query_db") tool none ≡ err no_version
unfolding parse match_ref match_name match_version strip split_while
no_pin = refl

bad_pin : parse ascii_digit (codes "catalog/query_db") tool (some (codes "latest")) ≡ err bad_field
unfolding parse match_ref match_name match_version strip split_while
bad_pin = refl

query_db-IsRef : IsRef ascii_digit query_db
unfolding strip
query_db-IsRef = (refl, refl)

parse-to_str_example : parse ascii_digit (to_str query_db) tool (some (codes "v12")) ≡ ok query_db
parse-to_str_example = parse-to_str ascii_digit query_db (some (codes "v12")) query_db-IsRef refl

parse-Names_example :
    IsRef ascii_digit query_db
    × ((query_db.kind ≡ tool)
        × Names ascii_digit (codes "catalog/query_db@v12" ++ 10 ∷ []) none query_db)
parse-Names_example =
    parse-Names ascii_digit (codes "catalog/query_db@v12" ++ 10 ∷ []) tool none query_db
      with_newline

abbrev accepts : Text
accepts = codes "catalog/query_db"

abbrev two_catalogs : FoundryRoots
two_catalogs = record {
  catalog_roots = (codes "mine" ∷ []) ∷ (codes "shared" ∷ []) ∷ [];
  projects_root = [];
  project_name = none;
}

abbrev joined : Directory → Text
joined [] = []
joined (part ∷ parts) = codes "/" ++ (part ++ joined parts)

-- Both catalogs have the artifact, and only the shared one has this version of it.
abbrev is_dir : Directory → Bool
is_dir d = contains (joined d) (
    codes "/mine/tools/query_db"
    ∷ codes "/shared/tools/query_db"
    ∷ codes "/shared/tools/query_db/v12"
    ∷ [])

-- The catalog that comes first hides the versions of the other one.
hidden_version :
    resolve_path is_dir two_catalogs query_db
    ≡ err (no_such_version (codes "mine" ∷ codes "tools" ∷ codes "query_db" ∷ codes "v12" ∷ []))
unfolding resolve_path artifact_dir
hidden_version = refl

abbrev shared_query_db : Directory
shared_query_db = codes "shared" ∷ codes "tools" ∷ codes "query_db" ∷ codes "v12" ∷ []
