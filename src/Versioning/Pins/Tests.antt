-- ===== src/Versioning/Pins/Tests.antt =====
-- Edits of pins by src/foundry/versioning/pins.py on a small file.
use agent_foundry.Prelude.{
  ℕ, ◌≡◌, refl, Bool, false, ◌&&◌, ◌||◌, List, [], ◌∷◌, ◌++◌, if◌then◌else◌, ok, err, leb, eq_nat,
  eq_text, ◌==◌, Text, codes, strip, split_while,
}
use agent_foundry.Prelude.Dict
use agent_foundry.Prelude.Dict.{Dict, keys}
use agent_foundry.Versioning.Pins.{
  not_located, would_be_invalid, split_end, indent_of, drop, stripped, match_head, scan_child_key,
  block_end, locate, replace_nested_scalar,
}
use agent_foundry.Versioning.Pins.Surgical.{Surgical}
use agent_foundry.Versioning.Pins.Transaction.Applied.{Applied, apply-Applied}
use agent_foundry.Versioning.Pins.Transaction.{
  FileSchema, system_spec, PinTransaction, require_version, all_valid, read_text, apply,
}

abbrev is_space : ℕ → Bool
is_space c = c == 32 || c == 10

abbrev is_digit : ℕ → Bool
is_digit c = leb 48 c && leb c 57

abbrev to_first : ℕ → List Text → List Text
to_first c [] = (c ∷ []) ∷ []
to_first c (l ∷ ls) = (c ∷ l) ∷ ls

abbrev splitlines : Text → List Text
splitlines [] = []
splitlines (c ∷ s) = if c == 10 then (c ∷ []) ∷ splitlines s else to_first c (splitlines s)

abbrev newline : Text
newline = 10 ∷ []

abbrev above : Text
above = codes "name: x" ++ (newline ++ (codes "tools:" ++ (newline ++ (codes "  q:" ++ newline))))

abbrev system_file : Text
system_file = above ++ (codes "    version: v1  # pin" ++ newline)

abbrev edited_file : Text
edited_file = above ++ (codes "    version: v22  # pin" ++ newline)

abbrev path : List Text
path = codes "tools" ∷ codes "q" ∷ []

-- A tool that is not bound is not found.
edit_other :
    replace_nested_scalar is_space splitlines system_file
      (codes "tools" ∷ codes "r" ∷ [])
      (codes "version")
      (codes "v22")
    ≡ err not_located
unfolding replace_nested_scalar locate scan_child_key block_end stripped split_end split_while
    indent_of drop match_head strip
edit_other = refl

abbrev disk : Dict Text Text
disk = (codes "p/system.yaml", system_file) ∷ (codes "p/README", codes "hello") ∷ []

abbrev staged : PinTransaction
staged = record {
  project_dir = codes "p";
  texts = (codes "p/system.yaml", edited_file) ∷ [];
  schemas = (codes "p/system.yaml", system_spec) ∷ [];
  changes =
      record {
        file = codes "p/system.yaml";
        path = codes "tools" ∷ codes "q" ∷ codes "version" ∷ [];
        old = codes "v1";
        new = codes "v22";
      }
      ∷ [];
}

-- The end of the expression lets a newline through, which is then written into the file.
version_with_newline : require_version is_digit (codes "v2" ++ newline) ≡ ok tt
unfolding require_version split_while strip
version_with_newline = refl

abbrev no_file_fits : FileSchema → Text → Bool
no_file_fits schema text = false

abbrev none_fails : Text → Bool
none_fails file = false

refused_edit : apply no_file_fits none_fails staged disk ≡ (disk, err would_be_invalid)
unfolding apply all_valid Dict.get
refused_edit = refl

apply-Applied_example :
    Applied no_file_fits none_fails staged disk
      (apply no_file_fits none_fails staged disk).0
      (apply no_file_fits none_fails staged disk).1
apply-Applied_example = apply-Applied no_file_fits none_fails staged disk (refl, tt)

abbrev returned : Text
returned = 97 ∷ 13 ∷ 10 ∷ 98 ∷ 13 ∷ []

-- A file with carriage returns is read without them, and is then written as it was read.
read_text_of_returned : read_text false returned ≡ 97 ∷ 10 ∷ 98 ∷ 10 ∷ []
unfolding read_text
read_text_of_returned = refl
