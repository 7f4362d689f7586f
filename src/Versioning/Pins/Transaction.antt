-- ===== src/Versioning/Pins/Transaction.antt =====
-- `PinTransaction` of src/foundry/versioning/pins.py: edits that are staged over several files and
-- all validated before the first is written. The files on disk are a dictionary from their paths; a
-- file is written whole, since the source moves a finished copy into its place, and the copies are
-- left out. A read translates the ends of lines, and a write does not, as on POSIX. The validation of
-- a text against a schema is an argument, and so is which writes raise.
pub mod Applied
pub mod Edited
use agent_foundry.Prelude.{
  ℕ, ◌≡◌, inl, inr, refl, subst, Bool, true, false, ◌&&◌, Option, none, some, List, [], ◌∷◌, ◌++◌,
  if◌then◌else◌, Result, ok, err, ◌>>=◌, arith, Option-cases, Result-cases, >>=-eq-ok, ==-refl,
  eq_nat, eq_text, ◌==◌, ==_iff, Distinct, length, Text, codes, strip, split_while, ap, sym,
  contains, Bool-cases, not,
}
use agent_foundry.Prelude.Dict
use agent_foundry.Prelude.Dict.{Dict, keys, get-put, get-eq_none, keys-put-Distinct}
use agent_foundry.Config.Refs.{at_end}
use agent_foundry.Versioning.Pins.{
  PinError, file_not_found, invalid_version, nothing_staged, would_be_invalid, write_failed,
  replace_nested_scalar,
}

pub data FileSchema : Type 0 where
  system_spec agent_spec : FileSchema

pub record PinChange : Type 0 where
  pub file : Text
  pub path : List Text
  pub old : Text
  pub new : Text

pub record PinTransaction : Type 0 where
  pub project_dir : Text
  pub texts : Dict Text Text
  pub schemas : Dict Text FileSchema
  pub changes : List PinChange

abbrev pub new_transaction : Text → PinTransaction
new_transaction dir = record { project_dir = dir; texts = []; schemas = []; changes = [] }

-- `read_text`: a carriage return, with a newline behind it or not, is read as a newline.
unfoldable pub read_text : Bool → Text → Text
read_text after_return [] = []
read_text after_return (c ∷ s) =
    let rest = read_text (c == 13) s in
    if c == 13 then 10 ∷ rest else if after_return && c == 10 then rest else c ∷ rest

abbrev pub read_file :
    Dict Text Text
    → Text
    → FileSchema
    → PinTransaction
    → Option Text
    → Result PinError (Text × PinTransaction)
read_file disk file schema t (some text) = ok (text, t)
read_file disk file schema t none = elim (Dict.get disk file) [
  | none ↦ err file_not_found
  | some stored ↦ ok (
    read_text false stored,
    record t {
      texts = Dict.put t.texts file (read_text false stored);
      schemas = Dict.put t.schemas file schema;
    },
  )
]

-- `_text`
unfoldable pub staged_text :
    Dict Text Text → Text → FileSchema → PinTransaction → Result PinError (Text × PinTransaction)
staged_text disk file schema t = read_file disk file schema t (Dict.get t.texts file)

-- `_require_version`: `^v\d+$`, where a newline may follow.
abbrev pub digits_end : Text × Text → Bool
digits_end ([], rest) = false
digits_end (c ∷ ds, rest) = at_end rest

abbrev pub version_digits : (ℕ → Bool) → Option Text → Bool
version_digits is_digit none = false
version_digits is_digit (some s) = digits_end (split_while is_digit (length s) s)

unfoldable pub require_version : (ℕ → Bool) → Text → Result PinError (Unit {0})
require_version is_digit v =
    if version_digits is_digit (strip (codes "v") v) then ok tt else err invalid_version

module _ (is_space is_digit : ℕ → Bool) (splitlines : Text → List Text) where
  -- `_edit`: the path is given without its last segment, and that one.
  unfoldable pub edit :
      Dict Text Text
      → Text
      → FileSchema
      → List Text
      → Text
      → Text
      → PinTransaction
      → Result PinError PinTransaction
  edit disk file schema path key new_value t = staged_text disk file schema t >>= λ (text, t').
      replace_nested_scalar is_space splitlines text path key new_value >>= λ (new_text, old).
      ok (record t' {
        texts = Dict.put t'.texts file new_text;
        changes =
            t'.changes
            ++ record { file = file; path = path ++ key ∷ []; old = old; new = new_value } ∷ [];
      })

  -- `set_tool_version` and `set_connection_version`, which differ in their section.
  unfoldable pub set_binding_version :
      Dict Text Text → Text → Text → Text → PinTransaction → Result PinError PinTransaction
  set_binding_version disk section name new_version t =
      require_version is_digit new_version >>= λ _.
      edit disk (t.project_dir ++ codes "/system.yaml") system_spec (section ∷ name ∷ [])
        (codes "version") new_version t

-- The loop that validates, and the one that writes.
abbrev pub fits_schema : (FileSchema → Text → Bool) → Text → Option FileSchema → Bool
fits_schema valid text none = false
fits_schema valid text (some schema) = valid schema text

unfoldable pub all_valid : (FileSchema → Text → Bool) → Dict Text FileSchema → Dict Text Text → Bool
all_valid valid schemas [] = true
all_valid valid schemas ((file, text) ∷ texts) =
    fits_schema valid text (Dict.get schemas file) && all_valid valid schemas texts

-- The disk after the writes, and whether none raised.
unfoldable pub write_all : (Text → Bool) → Dict Text Text → Dict Text Text → Dict Text Text × Bool
write_all fails [] disk = (disk, true)
write_all fails ((file, text) ∷ texts) disk =
    let later = write_all fails texts (Dict.put disk file text) in
    if fails file then (disk, false) else later

abbrev pub written :
    List Text → Dict Text Text × Bool → Dict Text Text × Result PinError (List Text)
written files (disk, true) = (disk, ok files)
written files (disk, false) = (disk, err write_failed)

-- The disk after it, and the files that were written.
unfoldable pub apply :
    (FileSchema → Text → Bool)
    → (Text → Bool)
    → PinTransaction
    → Dict Text Text
    → Dict Text Text × Result PinError (List Text)
apply valid fails t disk = elim t.changes [
  | [] ↦ (disk, err nothing_staged)
  | change ∷ changes ↦
      if all_valid valid t.schemas t.texts
      then written (keys t.texts) (write_all fails t.texts disk)
      else (disk, err would_be_invalid)
]
