-- ===== src/Versioning/Pins/Transaction/Edited.antt =====
-- One staged edit of src/foundry/versioning/pins.py, applied.
use agent_foundry.Prelude.{[], ◌∷◌, eq_nat, eq_text, Text}
use agent_foundry.Prelude.Dict
use agent_foundry.Prelude.Dict.{Dict, keys, get-eq_none, keys-put-Distinct}
use agent_foundry.Versioning.Pins.Transaction.{FileSchema, PinChange, PinTransaction}

-- The transaction with one edit.
abbrev one_edit : Text → Text → FileSchema → Text → PinChange → PinTransaction
one_edit dir file schema new_text change = record {
  project_dir = dir;
  texts = (file, new_text) ∷ [];
  schemas = (file, schema) ∷ [];
  changes = change ∷ [];
}
