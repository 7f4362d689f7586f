-- ===== src/Config/Refs.antt =====
-- src/foundry/config/refs.py: references to artifacts and where they lead. Texts are lists of code
-- points. The test whether a code point is a digit of `\d`, which is any decimal digit of Unicode, and
-- the test whether a path is a directory are arguments.
mod Tests
pub mod RoundTrip
pub mod Paths
use agent_foundry.Prelude.{
  ℕ, zero, suc, String, ◌≡◌, ◌⊎◌, refl, Bool, true, false, not, ◌&&◌, ◌||◌, Option, none, some,
  List, [], ◌∷◌, ◌++◌, if◌then◌else◌, Result, ok, err, ◌>>=◌, leb, eq_nat, ◌==◌, contains, length,
  Text, codes, text_beq, eq_text, strip, every, split_while,
}

pub data RefScope : Type 0 where
  catalog local : RefScope

pub data ArtifactKind : Type 0 where
  tool connection retriever agent_template : ArtifactKind

pub record ArtifactRef : Type 0 where
  pub scope : RefScope
  pub kind : ArtifactKind
  pub name : Text
  pub version : Text

pub data RefError : Type 0 where
  invalid_ref conflicting_pins no_version bad_field : RefError

abbrev pub scope_text : RefScope → Text
scope_text catalog = codes "catalog/"
scope_text local = codes "local/"

-- `[a-z]` and `[a-z0-9_-]`
abbrev pub name_start : ℕ → Bool
name_start c = leb 97 c && leb c 122

abbrev pub name_char : ℕ → Bool
name_char c = name_start c || ((leb 48 c && leb c 57) || (c == 95 || c == 45))

-- `$`: the end, or a newline at the end.
abbrev pub at_end : Text → Bool
at_end [] = true
at_end (c ∷ []) = c == 10
at_end (c ∷ d ∷ s) = false

-- `f"{self.scope}/{self.name}@{self.version}"`, and the same without its version.
abbrev pub unversioned : ArtifactRef → Text
unversioned r = scope_text r.scope ++ r.name

abbrev pub to_str : ArtifactRef → Text
to_str r = unversioned r ++ (codes "@" ++ r.version)

abbrev pub ref_matches_accept : ArtifactRef → Text → Bool
ref_matches_accept r accept =
    if contains 64 accept then to_str r == accept else unversioned r == accept

module _ (is_digit : ℕ → Bool) where
  -- `v\d+` behind its v, and the end.
  abbrev pub match_digits : Text × Text → Option (Option Text)
  match_digits ([], rest) = none
  match_digits (c ∷ ds, rest) = if at_end rest then some (some (codes "v" ++ c ∷ ds)) else none

  -- `(?:@(?P<version>v\d+))?$`
  unfoldable pub match_version : Text → Option (Option Text)
  match_version s = elim (strip (codes "@v") s) [
    | some ds ↦ match_digits (split_while is_digit (length ds) ds)
    | none ↦ if at_end s then some none else none
  ]

  -- `(?P<name>[a-z][a-z0-9_-]{0,63})` and what follows.
  unfoldable pub match_name : RefScope → Text → Option (RefScope × (Text × Option Text))
  match_name scope [] = none
  match_name scope (c ∷ s) =
      let (front, rest) = split_while name_char 63 s in
      let found = match_version rest in
      if name_start c
      then elim found [ none ↦ none | some version ↦ some (scope, (c ∷ front, version)) ]
      else none

  -- `_REF_RE`
  unfoldable pub match_ref : Text → Option (RefScope × (Text × Option Text))
  match_ref s = elim (strip (scope_text catalog) s) [
    | some rest ↦ match_name catalog rest
    | none ↦ elim (strip (scope_text local) s) [ some rest ↦ match_name local rest | none ↦ none ]
  ]

  -- The patterns of the fields.
  abbrev pub is_name : Text → Bool
  is_name [] = false
  is_name (c ∷ s) = name_start c && (leb (length s) 63 && every name_char s)

  abbrev pub digits_after : Option Text → Bool
  digits_after none = false
  digits_after (some []) = false
  digits_after (some (c ∷ s)) = every is_digit (c ∷ s)

  abbrev pub is_version : Text → Bool
  is_version v = digits_after (strip (codes "v") v)

  -- Two pins that differ.
  abbrev pub conflict : Option Text → Option Text → Bool
  conflict (some v) (some w) = not (v == w)
  conflict _ _ = false

  abbrev pub pinned : Option Text → Option Text → Option Text
  pinned (some v) w = some v
  pinned none w = w

  -- `cls(…)`, which checks the fields.
  abbrev pub make : RefScope → ArtifactKind → Text → Option Text → Result RefError ArtifactRef
  make scope kind name none = err no_version
  make scope kind name (some v) =
      if is_name name && is_version v
      then ok (record { scope = scope; kind = kind; name = name; version = v })
      else err bad_field

  abbrev pub resolve_pin :
      ArtifactKind
      → Option Text
      → Option (RefScope × (Text × Option Text))
      → Result RefError ArtifactRef
  resolve_pin kind version none = err invalid_ref
  resolve_pin kind version (some (scope, (name, inline_version))) =
      if conflict inline_version version
      then err conflicting_pins
      else make scope kind name (pinned inline_version version)

  unfoldable pub parse : Text → ArtifactKind → Option Text → Result RefError ArtifactRef
  parse s kind version = resolve_pin kind version (match_ref s)
