-- ===== src/Storage/Retention.antt =====
-- src/foundry/storage/retention.py: `gc` deletes the run directories that are older than a cutoff,
-- less the pinned ones. The runs tree is a dictionary from the directories' names, in the order of
-- the names in which the source lists them. Times are whole seconds since the epoch. The ids of the
-- pin file are an argument, and a directory that is to be removed can be removed.
mod Tests
pub mod Collect
pub mod Archive
use agent_foundry.Prelude.{
  ℕ, suc, ◌-◌, String, ◌≡◌, Bool, true, false, not, ◌&&◌, Option, none, some, List, [], ◌∷◌, ◌++◌,
  if◌then◌else◌, ltb, Result, ok, err, eq_string, ◌==◌, contains,
}
use agent_foundry.Prelude.Dict
use agent_foundry.Prelude.Dict.{Dict, keys}

-- A run directory: the time of its newest file, and the month of that time, as YYYY-MM.
pub record RunDir : Type 0 where
  pub age : ℕ
  pub month : String

pub data StorageError : Type 0 where
  unsupported_kind : String → StorageError

pub record GcReport : Type 0 where
  pub kind : String
  pub cutoff : ℕ
  pub dry_run : Bool
  pub candidates : List String
  pub deleted : List String
  pub skipped_pinned : List String
  pub forced : List String

-- `_aged_run_dirs`
unfoldable pub aged_run_dirs : ℕ → Dict String RunDir → Dict String RunDir
aged_run_dirs cutoff [] = []
aged_run_dirs cutoff ((name, dir) ∷ rest) =
    let older = aged_run_dirs cutoff rest in
    if ltb dir.age cutoff then (name, dir) ∷ older else older

-- What a round of `gc` does about a candidate.
pub data Fate : Type 0 where
  skip keep delete delete_forced : Fate

unfoldable pub fate : Bool → Bool → Bool → Fate
fate pinned dry_run force =
    if pinned && not force
    then skip
    else if dry_run
    then keep
    else if pinned
    then delete_forced
    else delete

-- A round: what it writes to the report, and the tree behind it.
unfoldable pub gc_round :
    String → Fate → GcReport × Dict String RunDir → GcReport × Dict String RunDir
gc_round name skip (r, tree) = (
  record r {
    candidates = r.candidates ++ name ∷ [];
    skipped_pinned = r.skipped_pinned ++ name ∷ [];
  },
  tree,
)
gc_round name keep (r, tree) = (record r { candidates = r.candidates ++ name ∷ [] }, tree)
gc_round name delete (r, tree) = (
  record r { candidates = r.candidates ++ name ∷ []; deleted = r.deleted ++ name ∷ [] },
  Dict.pop tree name,
)
gc_round name delete_forced (r, tree) = (
  record r {
    candidates = r.candidates ++ name ∷ [];
    deleted = r.deleted ++ name ∷ [];
    forced = r.forced ++ name ∷ [];
  },
  Dict.pop tree name,
)

unfoldable pub gc_rounds :
    List String
    → Bool
    → Bool
    → List String
    → GcReport × Dict String RunDir
    → GcReport × Dict String RunDir
gc_rounds pinned dry_run force [] s = s
gc_rounds pinned dry_run force (name ∷ names) s =
    gc_rounds pinned dry_run force names
      (gc_round name (fate (contains name pinned) dry_run force) s)

abbrev pub empty_report : String → ℕ → Bool → GcReport
empty_report kind cutoff dry_run = record {
  kind = kind;
  cutoff = cutoff;
  dry_run = dry_run;
  candidates = [];
  deleted = [];
  skipped_pinned = [];
  forced = [];
}

unfoldable pub gc :
    String
    → ℕ
    → Bool
    → Bool
    → ℕ
    → List String
    → Dict String RunDir
    → Result StorageError GcReport × Dict String RunDir
gc kind older_than dry_run force now pinned tree =
    let cutoff = now - older_than in
    let (r, tree') =
      gc_rounds pinned dry_run force (keys (aged_run_dirs cutoff tree))
        (empty_report kind cutoff dry_run, tree) in
    if kind == "runs" then (ok r, tree') else (err (unsupported_kind kind), tree)
