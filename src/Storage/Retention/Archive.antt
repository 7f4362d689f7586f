-- ===== src/Storage/Retention/Archive.antt =====
-- `archive` of src/foundry/storage/retention.py: the old run directories go into one tarball for each
-- month. The archives are a dictionary from their paths; a path is its month and the number of its
-- suffix, 0 where it has none, and stands for the text that the source makes of them.
pub mod Kept
pub mod Moved
use agent_foundry.Prelude.{
  ℕ, zero, suc, ◌-◌, ◌+◌, String, ◌≡◌, refl, ◌↔◌, Bool, true, false, ◌&&◌, Option, none, some, List,
  [], ◌∷◌, ◌++◌, if◌then◌else◌, Result, ok, err, arith, DecEq, eq_string, eq_nat, ◌==◌, ==_iff,
  contains, sorted, length,
}
use agent_foundry.Prelude.Dict
use agent_foundry.Prelude.Dict.{Dict, keys}
use agent_foundry.Storage.Retention.{RunDir, StorageError, unsupported_kind, aged_run_dirs}

pub record ArchivePath : Type 0 where
  pub month : String
  pub counter : ℕ

unfoldable pub same_path : ArchivePath → ArchivePath → Bool
same_path p q = p.month == q.month && p.counter == q.counter

pub same_path_iff : (p q : ArchivePath) → (same_path p q ≡ true) ↔ (p ≡ q)
unfolding same_path
same_path_iff p q = ground (arith, ==_iff p.month q.month, ==_iff p.counter q.counter)

instance abbrev pub eq_path : DecEq ArchivePath
eq_path = record { test = same_path; decides = same_path_iff }

pub record ArchiveReport : Type 0 where
  pub kind : String
  pub cutoff : ℕ
  pub archives : List ArchivePath
  pub archived : List String
  pub skipped_pinned : List String

pub record Disk : Type 0 where
  pub runs : Dict String RunDir
  pub archives : Dict ArchivePath (List String)

-- The loop of `_next_archive_path`, on fuel.
unfoldable pub next_from : ℕ → String → ℕ → Dict ArchivePath (List String) → Option ArchivePath
next_from zero month counter archives = none
next_from (suc fuel) month counter archives =
    let later = next_from fuel month (counter + 1) archives in
    elim (Dict.get archives (record { month = month; counter = counter })) [
      | none ↦ some (record { month = month; counter = counter })
      | some members ↦ later
    ]

-- One more than the archives that exist is enough fuel: `next_archive_path-total` of Kept.antt.
unfoldable pub next_archive_path : String → Dict ArchivePath (List String) → Option ArchivePath
unfolding next_from
next_archive_path month archives = next_from (suc (length archives)) month 0 archives

-- `groups.setdefault(month, []).append(path)`
abbrev pub group_or_empty : Option (List String) → List String
group_or_empty none = []
group_or_empty (some names) = names

-- The loop that sorts the candidates: the pinned ones, and the others by their months.
unfoldable pub grouped :
    List String
    → Dict String RunDir
    → List String × Dict String (List String)
    → List String × Dict String (List String)
grouped pinned [] s = s
grouped pinned ((name, dir) ∷ rest) (skipped, groups) = grouped pinned rest (
    if contains name pinned then (skipped ++ name ∷ [], groups) else (
      skipped,
      Dict.put groups dir.month (group_or_empty (Dict.get groups dir.month) ++ name ∷ []),
    ))

-- `shutil.rmtree` for each path
unfoldable pub remove_all : List String → Dict String RunDir → Dict String RunDir
remove_all [] runs = runs
remove_all (name ∷ names) runs = remove_all names (Dict.pop runs name)

-- A month: its tarball is written, and then the directories are removed.
unfoldable pub archive_month :
    Option ArchivePath → List String → ArchiveReport × Disk → ArchiveReport × Disk
archive_month none names s = s
archive_month (some target) names (r, disk) = (
  record r { archives = r.archives ++ target ∷ []; archived = r.archived ++ names },
  record { runs = remove_all names disk.runs; archives = Dict.put disk.archives target names },
)

unfoldable pub archive_months :
    List String → Dict String (List String) → ArchiveReport × Disk → ArchiveReport × Disk
archive_months [] groups s = s
archive_months (month ∷ months) groups s = archive_months months groups (
    archive_month (next_archive_path month s.1.archives) (group_or_empty (Dict.get groups month)) s)

unfoldable pub archive :
    String → ℕ → ℕ → List String → Disk → Result StorageError ArchiveReport × Disk
archive kind older_than now pinned disk =
    let cutoff = now - older_than in
    let (skipped, groups) = grouped pinned (aged_run_dirs cutoff disk.runs) ([], []) in
    let (r, disk') = archive_months (sorted (keys groups)) groups (
      record {
        kind = kind;
        cutoff = cutoff;
        archives = [];
        archived = [];
        skipped_pinned = skipped;
      },
      disk,
    ) in
    if kind == "runs" then (ok r, disk') else (err (unsupported_kind kind), disk)
