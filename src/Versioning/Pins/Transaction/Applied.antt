-- ===== src/Versioning/Pins/Transaction/Applied.antt =====
-- What `PinTransaction.apply` of src/foundry/versioning/pins.py leaves on disk.
use agent_foundry.Prelude.{
  ◌≡◌, inl, inr, refl, subst, Bool, true, false, Option, none, some, List, [], ◌∷◌, ◌++◌, Result,
  ok, err, arith, Option-cases, eq_nat, eq_text, ==_iff, Distinct, Text, ap, sym, contains,
  Bool-cases,
}
use agent_foundry.Prelude.Dict
use agent_foundry.Prelude.Dict.{Dict, keys, get-put, get-eq_none, keys-put-Distinct}
use agent_foundry.Versioning.Pins.{PinError, nothing_staged, would_be_invalid, write_failed}
use agent_foundry.Versioning.Pins.Transaction.{
  FileSchema, PinChange, PinTransaction, all_valid, write_all, written, apply,
}

abbrev pub or_disk : Option Text → Option Text → Option Text
or_disk (some text) on_disk = some text
or_disk none on_disk = on_disk

-- Each staged text fits the schema of its file.
abbrev pub AllFit : (FileSchema → Text → Bool) → Dict Text FileSchema → Dict Text Text → Type 0
AllFit valid schemas [] = Unit
AllFit valid schemas ((file, text) ∷ texts) =
    ((schema : FileSchema) × ((Dict.get schemas file ≡ some schema) × (valid schema text ≡ true)))
    × AllFit valid schemas texts

all_valid-AllFit :
    (valid : FileSchema → Text → Bool) (schemas : Dict Text FileSchema) (texts : Dict Text Text)
    → all_valid valid schemas texts ≡ true
    → AllFit valid schemas texts
unfolding all_valid
all_valid-AllFit valid schemas [] h = tt
all_valid-AllFit valid schemas ((file, text) ∷ texts) h =
    elim (Option-cases (Dict.get schemas file)) [
      | inl absent ↦ absurd (ground (arith, h, absent))
      | inr (schema, found) ↦ (
        (schema, (found, ground (arith, h, found))),
        all_valid-AllFit valid schemas texts (ground (arith, h)),
      )
    ]

AllFit-all_valid :
    (valid : FileSchema → Text → Bool) (schemas : Dict Text FileSchema) (texts : Dict Text Text)
    → AllFit valid schemas texts
    → all_valid valid schemas texts ≡ true
unfolding all_valid
AllFit-all_valid valid schemas [] h = refl
AllFit-all_valid valid schemas ((file, text) ∷ texts) ((schema, (found, fits)), rest) =
    ground (arith, found, fits, AllFit-all_valid valid schemas texts rest)

-- The first of some files are written, and the others are as they were.
abbrev pub WrittenTo : Dict Text Text → Dict Text Text → Dict Text Text → Type 0
WrittenTo front disk disk' =
    (f : Text) → Dict.get disk' f ≡ or_disk (Dict.get front f) (Dict.get disk f)

-- The write of the first of some files raises.
abbrev pub FirstFails : (Text → Bool) → Dict Text Text → Type 0
FirstFails fails [] = ⊥
FirstFails fails ((file, text) ∷ texts) = fails file ≡ true

-- What the writes have done: all files are written, or those before the first whose write raises.
abbrev pub WriteOutcome :
    (Text → Bool) → Dict Text Text → Dict Text Text → Dict Text Text × Bool → Type 0
WriteOutcome fails texts disk (disk', true) = WrittenTo texts disk disk'
WriteOutcome fails texts disk (disk', false) =
    (front : Dict Text Text) × (back : Dict Text Text) × ((front ++ back ≡ texts)
      × (WrittenTo front disk disk' × FirstFails fails back))

WrittenTo-cons :
    (file text : Text) (front disk disk' : Dict Text Text)
    → contains file (keys front) ≡ false
    → WrittenTo front (Dict.put disk file text) disk'
    → WrittenTo ((file, text) ∷ front) disk disk'
unfolding Dict.get
WrittenTo-cons file text front disk disk' new h f =
    ground (arith, h f, get-put disk file f text, get-eq_none front file new, ==_iff file f)

keys-front :
    (file : Text) (front back texts : Dict Text Text)
    → front ++ back ≡ texts
    → contains file (keys texts) ≡ false
    → contains file (keys front) ≡ false
keys-front file front back texts e h =
    go front (subst (λ ts. contains file (keys ts) ≡ false) (sym e) h)
  where
    go :
        (ts : Dict Text Text)
        → contains file (keys (ts ++ back)) ≡ false
        → contains file (keys ts) ≡ false
    go [] k = refl
    go ((g, t) ∷ ts) k = ground (arith, k, go ts)

WriteOutcome-cons :
    (fails : Text → Bool) (file text : Text) (texts disk : Dict Text Text)
    (r : Dict Text Text × Bool)
    → contains file (keys texts) ≡ false
    → WriteOutcome fails texts (Dict.put disk file text) r
    → WriteOutcome fails ((file, text) ∷ texts) disk r
WriteOutcome-cons fails file text texts disk (disk', true) new h =
    WrittenTo-cons file text texts disk disk' new h
WriteOutcome-cons fails file text texts disk (disk', false) new (front, back, (e, (w, first))) = (
  (file, text) ∷ front,
  back,
  (
    ap (λ ts. (file, text) ∷ ts) e,
    (WrittenTo-cons file text front disk disk' (keys-front file front back texts e new) w, first),
  ),
)

write_all-WriteOutcome :
    (fails : Text → Bool) (texts disk : Dict Text Text)
    → Distinct (keys texts)
    → WriteOutcome fails texts disk (write_all fails texts disk)
unfolding write_all Dict.get
write_all-WriteOutcome fails [] disk d = λ f. refl
write_all-WriteOutcome fails ((file, text) ∷ texts) disk d = elim (Bool-cases (fails file)) [
  | inl bad ↦ rw bad ([], ((file, text) ∷ texts), (refl, (λ f. refl, bad)))
  | inr fine ↦ rw fine (
      WriteOutcome-cons fails file text texts disk (write_all fails texts (Dict.put disk file text))
        d.0 (write_all-WriteOutcome fails texts (Dict.put disk file text) d.1))
]

-- What `apply` leaves.
abbrev pub Applied :
    (FileSchema → Text → Bool)
    → (Text → Bool)
    → PinTransaction
    → Dict Text Text
    → Dict Text Text
    → Result PinError (List Text)
    → Type 0
Applied valid fails t disk disk' (ok files) =
    AllFit valid t.schemas t.texts × ((files ≡ keys t.texts) × WrittenTo t.texts disk disk')
Applied valid fails t disk disk' (err write_failed) =
    AllFit valid t.schemas t.texts × WriteOutcome fails t.texts disk (disk', false)
Applied valid fails t disk disk' (err nothing_staged) = (disk' ≡ disk) × (t.changes ≡ [])
Applied valid fails t disk disk' (err would_be_invalid) =
    (disk' ≡ disk) × (¬ AllFit valid t.schemas t.texts)
Applied valid fails t disk disk' (err e) = ⊥

written-Applied :
    (valid : FileSchema → Text → Bool) (fails : Text → Bool) (t : PinTransaction)
    (disk : Dict Text Text) (r : Dict Text Text × Bool)
    → AllFit valid t.schemas t.texts
    → WriteOutcome fails t.texts disk r
    → Applied valid fails t disk (written (keys t.texts) r).0 (written (keys t.texts) r).1
written-Applied valid fails t disk (disk', true) fit h = (fit, (refl, h))
written-Applied valid fails t disk (disk', false) fit h = (fit, h)

applied :
    (valid : FileSchema → Text → Bool) (fails : Text → Bool) (dir : Text) (texts : Dict Text Text)
    (schemas : Dict Text FileSchema) (changes : List PinChange) (disk : Dict Text Text)
    → Distinct (keys texts)
    → let t : PinTransaction = record {
      project_dir = dir;
      texts = texts;
      schemas = schemas;
      changes = changes;
    } in
      Applied valid fails t disk (apply valid fails t disk).0 (apply valid fails t disk).1
unfolding apply
applied valid fails dir texts schemas [] disk d = (refl, refl)
applied valid fails dir texts schemas (c ∷ cs) disk d =
    elim (Bool-cases (all_valid valid schemas texts)) [
      | inl fine ↦ rw fine (
          written-Applied valid fails
            (record { project_dir = dir; texts = texts; schemas = schemas; changes = c ∷ cs }) disk
            (write_all fails texts disk) (all_valid-AllFit valid schemas texts fine)
            (write_all-WriteOutcome fails texts disk d))
      | inr bad ↦
          rw bad
            (refl, λ fit. absurd (ground (arith, bad, AllFit-all_valid valid schemas texts fit)))
    ]

-- Staged edits are validated all before any is written: if `apply` succeeds, every staged text fits
-- the schema of its file, each staged file has its staged text and every other file is as before; if
-- it raises since nothing was staged, or since a staged text does not fit, no file is changed; and if
-- a write raises, every staged text fits, and just the files before that one, in the order in which
-- they were staged, are written. No file is staged twice.
pub apply-Applied :
    (valid : FileSchema → Text → Bool) (fails : Text → Bool) (t : PinTransaction)
    (disk : Dict Text Text)
    → Distinct (keys t.texts)
    → Applied valid fails t disk (apply valid fails t disk).0 (apply valid fails t disk).1
unfolding apply
apply-Applied valid fails t disk d =
    applied valid fails t.project_dir t.texts t.schemas t.changes disk d
