-- ===== src/Storage/Retention/Archive/Moved.antt =====
-- Where the run directories are after `archive` of src/foundry/storage/retention.py.
use agent_foundry.Prelude.{
  ℕ, ◌-◌, String, ◌≡◌, ◌⊎◌, inl, inr, refl, Bool, true, false, not, ◌&&◌, ◌||◌, none, some, List,
  [], ◌∷◌, ◌++◌, if◌then◌else◌, arith, DecEq, eq_string, eq_nat, ◌==◌, ==_iff, ==-refl, contains,
  contains-append, contains-sorted, sorted, Distinct, Bool-cases,
}
use agent_foundry.Prelude.Dict
use agent_foundry.Prelude.Dict.{Dict, keys, get-put, get-pop, keys-put-Distinct}
use agent_foundry.Storage.Retention.{RunDir, aged_run_dirs}
use agent_foundry.Storage.Retention.Collect.{is_aged, contains-aged}
use agent_foundry.Storage.Retention.Archive.{
  ArchivePath, eq_path, ArchiveReport, Disk, next_archive_path, group_or_empty, grouped, remove_all,
  archive_month, archive_months, archive,
}
use agent_foundry.Storage.Retention.Archive.Kept.{next_archive_path-total}

-- Is the name in one of the lists of a dictionary?
abbrev pub held {ℓ} : {K : Type ℓ} → String → Dict K (List String) → Bool
held name [] = false
held name ((k, names) ∷ rest) = contains name names || held name rest

held-put_new {ℓ} :
    {K : Type ℓ} ⦃e : DecEq K⦄ (d : Dict K (List String)) (k : K) (names : List String)
    (name : String)
    → Dict.get d k ≡ none
    → held name (Dict.put d k names) ≡ (contains name names || held name d)
unfolding Dict.get Dict.put
held-put_new [] k names name h = refl
held-put_new ((j, held_names) ∷ d) k names name h = ground (arith, held-put_new d k names name)

-- `setdefault` and `append`
held-put_more :
    (d : Dict String (List String)) (k n name : String)
    → held name (Dict.put d k (group_or_empty (Dict.get d k) ++ n ∷ []))
      ≡ (n == name || held name d)
unfolding Dict.get Dict.put
held-put_more [] k n name = ground arith
held-put_more ((j, names) ∷ d) k n name =
    ground (arith, held-put_more d k n name, contains-append name names (n ∷ []))

get-remove_all :
    (names : List String) (runs : Dict String RunDir) (name : String)
    → Dict.get (remove_all names runs) name
      ≡ (if contains name names then none else Dict.get runs name)
unfolding remove_all
get-remove_all [] runs name = refl
get-remove_all (n ∷ names) runs name =
    ground (arith, get-remove_all names (Dict.pop runs n) name, get-pop runs n name)

-- The sorting: a candidate is in a group, unless it is pinned.
held-grouped :
    (pinned : List String) (aged : Dict String RunDir) (skipped : List String)
    (groups : Dict String (List String)) (name : String)
    → held name (grouped pinned aged (skipped, groups)).1
      ≡ (held name groups || (contains name (keys aged) && not (contains name pinned)))
unfolding grouped
held-grouped pinned [] skipped groups name = ground arith
held-grouped pinned ((n, dir) ∷ rest) skipped groups name =
    let more = Dict.put groups dir.month (group_or_empty (Dict.get groups dir.month) ++ n ∷ []) in
    ground (
      arith,
      held-grouped pinned rest (skipped ++ n ∷ []) groups name,
      held-grouped pinned rest skipped more name,
      held-put_more groups dir.month n name,
      ==_iff n name,
    )

grouped-Distinct :
    (pinned : List String) (aged : Dict String RunDir) (skipped : List String)
    (groups : Dict String (List String))
    → Distinct (keys groups)
    → Distinct (keys (grouped pinned aged (skipped, groups)).1)
unfolding grouped
grouped-Distinct pinned [] skipped groups h = h
grouped-Distinct pinned ((n, dir) ∷ rest) skipped groups h =
    let names = group_or_empty (Dict.get groups dir.month) ++ n ∷ [] in
    let more = Dict.put groups dir.month names in
    ground (
      arith,
      grouped-Distinct pinned rest (skipped ++ n ∷ []) groups h,
      grouped-Distinct pinned rest skipped more (keys-put-Distinct groups dir.month names h),
    )

-- Is the name in the group of one of the months?
among : List String → Dict String (List String) → String → Bool
among [] groups name = false
among (m ∷ months) groups name =
    contains name (group_or_empty (Dict.get groups m)) || among months groups name

held-group :
    (groups : Dict String (List String)) (m name : String)
    → contains name (group_or_empty (Dict.get groups m)) ≡ true
    → held name groups ≡ true
unfolding Dict.get
held-group [] m name h = h
held-group ((k, names) ∷ rest) m name h = ground (arith, held-group rest m name)

among-held :
    (months : List String) (groups : Dict String (List String)) (name : String)
    → among months groups name ≡ true
    → held name groups ≡ true
unfolding among
among-held [] groups name h = absurd cc
among-held (m ∷ months) groups name h =
    ground (arith, held-group groups m name, among-held months groups name)

among-contains :
    (months : List String) (groups : Dict String (List String)) (m name : String)
    → contains m months ≡ true
    → contains name (group_or_empty (Dict.get groups m)) ≡ true
    → among months groups name ≡ true
unfolding among
among-contains [] groups m name h g = h
among-contains (n ∷ months) groups m name h g =
    ground (arith, among-contains months groups m name, ==_iff n m)

-- The month of a name that some group has.
month_of :
    (groups : Dict String (List String)) (name : String)
    → Distinct (keys groups)
    → held name groups ≡ true
    → (m : String) × (contains m (keys groups) ≡ true)
      × (contains name (group_or_empty (Dict.get groups m)) ≡ true)
unfolding Dict.get
month_of [] name d h = absurd cc
month_of ((k, names) ∷ rest) name d h = elim (Bool-cases (contains name names)) [
  | inl here ↦ (k, ground (arith, ==-refl k), ground (arith, here, ==-refl k))
  | inr miss ↦
      let (m, known, found) = month_of rest name d.1 (ground (arith, h, miss)) in
      (m, ground (arith, known), ground (arith, known, found, d, ==_iff k m))
]

-- The months in their order have all groups.
among-sorted :
    (groups : Dict String (List String)) (name : String)
    → Distinct (keys groups)
    → among (sorted (keys groups)) groups name ≡ held name groups
among-sorted groups name d = elim (Bool-cases (held name groups)) [
  | inl hit ↦
      let (m, known, found) = month_of groups name d hit in
      ground (
        arith,
        hit,
        among-contains (sorted (keys groups)) groups m name,
        contains-sorted m (keys groups),
        known,
        found,
      )
  | inr miss ↦ ground (arith, miss, among-held (sorted (keys groups)) groups name)
]

-- What a month does to the disk.
archive_month_lem :
    (month : String) (names : List String) (r : ArchiveReport) (disk : Disk) (name : String)
    (path : ArchivePath)
    → let disk' = (archive_month (next_archive_path month disk.archives) names (r, disk)).1 in
      (Dict.get disk'.runs name ≡ (if contains name names then none else Dict.get disk.runs name))
      × (held name disk'.archives ≡ (contains name names || held name disk.archives))
      × (Dict.get disk.archives path ≡ none
          ⊎ (Dict.get disk'.archives path ≡ Dict.get disk.archives path))
unfolding archive_month
archive_month_lem month names r disk name path =
    let (target, found, free, _) = next_archive_path-total month disk.archives in
    (
      ground (arith, found, get-remove_all names disk.runs name),
      ground (arith, found, held-put_new disk.archives target names name free),
      ground (arith, found, free, get-put disk.archives target path names, ==_iff target path),
    )

archive_months_lem :
    (months : List String) (groups : Dict String (List String)) (r : ArchiveReport) (disk : Disk)
    (name : String) (path : ArchivePath)
    → let disk' = (archive_months months groups (r, disk)).1 in
      (Dict.get disk'.runs name
        ≡ (if among months groups name then none else Dict.get disk.runs name))
      × (held name disk'.archives ≡ (among months groups name || held name disk.archives))
      × (Dict.get disk.archives path ≡ none
          ⊎ (Dict.get disk'.archives path ≡ Dict.get disk.archives path))
unfolding archive_months among
archive_months_lem [] groups r disk name path = ground arith
archive_months_lem (m ∷ months) groups r disk name path =
    let names = group_or_empty (Dict.get groups m) in
    let s = archive_month (next_archive_path m disk.archives) names (r, disk) in
    ground (
      arith,
      archive_month_lem m names r disk name path,
      archive_months_lem months groups s.0 s.1 name path,
    )

-- In a tree whose names are distinct: `archive` removes exactly the run directories that are older
-- than the cutoff and not pinned; each of these is in an archive then, and what was in an archive
-- still is; and no other directory is.
pub archive-moves :
    (older_than now : ℕ) (pinned : List String) (disk : Disk) (name : String)
    → Distinct (keys disk.runs)
    → let disk' = (archive "runs" older_than now pinned disk).1 in
      let goes =
        is_aged (now - older_than) (Dict.get disk.runs name) && not (contains name pinned) in
      (Dict.get disk'.runs name ≡ (if goes then none else Dict.get disk.runs name))
      × (held name disk'.archives ≡ (goes || held name disk.archives))
unfolding archive
archive-moves older_than now pinned disk name h =
    let cutoff = now - older_than in
    let aged = aged_run_dirs cutoff disk.runs in
    let g = grouped pinned aged ([], []) in
    let r : ArchiveReport = record {
      kind = "runs";
      cutoff = cutoff;
      archives = [];
      archived = [];
      skipped_pinned = g.0;
    } in
    ground (
      arith,
      archive_months_lem (sorted (keys g.1)) g.1 r disk name (record { month = ""; counter = 0 }),
      among-sorted g.1 name (grouped-Distinct pinned aged [] [] tt),
      held-grouped pinned aged [] [] name,
      contains-aged cutoff disk.runs name h,
    )

-- An archive that exists is never written again: it holds what it held.
pub archive-preserves :
    (kind : String) (older_than now : ℕ) (pinned : List String) (disk : Disk) (path : ArchivePath)
    (members : List String)
    → Dict.get disk.archives path ≡ some members
    → Dict.get (archive kind older_than now pinned disk).1.archives path ≡ some members
unfolding archive
archive-preserves kind older_than now pinned disk path members h =
    let cutoff = now - older_than in
    let g = grouped pinned (aged_run_dirs cutoff disk.runs) ([], []) in
    let r : ArchiveReport = record {
      kind = kind;
      cutoff = cutoff;
      archives = [];
      archived = [];
      skipped_pinned = g.0;
    } in
    ground (arith, h, archive_months_lem (sorted (keys g.1)) g.1 r disk "" path)
