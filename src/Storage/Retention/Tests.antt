-- ===== src/Storage/Retention/Tests.antt =====
-- The collection and the archives at concrete inputs.
use agent_foundry.Prelude.{
  String, ◌≡◌, refl, false, not, ◌&&◌, ◌||◌, none, some, [], ◌∷◌, if◌then◌else◌, contains,
  eq_string,
}
use agent_foundry.Prelude.Dict
use agent_foundry.Prelude.Dict.{Dict}
use agent_foundry.Storage.Retention.{RunDir, aged_run_dirs, fate, gc_round, gc_rounds, gc}
use agent_foundry.Storage.Retention.Collect.{is_aged, get-gc}
use agent_foundry.Storage.Retention.Archive.{ArchivePath, eq_path, Disk, next_archive_path, archive}
use agent_foundry.Storage.Retention.Archive.Kept.{next_archive_path-total}
use agent_foundry.Storage.Retention.Archive.Moved.{held, archive-moves}

abbrev june : ArchivePath
june = record { month = "2025-06"; counter = 0 }

abbrev runs : Dict String RunDir
runs =
    ("a", record { age = 10; month = "2025-06" })
    ∷ ("b", record { age = 90; month = "2025-07" })
    ∷ ("c", record { age = 20; month = "2025-06" })
    ∷ []

abbrev disk : Disk
disk = record { runs = runs; archives = (june, "old" ∷ []) ∷ [] }

deletes_old : (gc "runs" 50 false false 100 ("c" ∷ []) runs).1 ≡ Dict.pop runs "a"
unfolding gc gc_rounds gc_round fate aged_run_dirs Dict.pop
deletes_old = refl

get-gc_example : Dict.get (gc "runs" 50 false false 100 ("c" ∷ []) runs).1 "a" ≡ (
    if is_aged 50 (Dict.get runs "a")
      && (not false && (not (contains {A = String} "a" ("c" ∷ [])) || false))
    then none
    else Dict.get runs "a")
get-gc_example = get-gc 50 false false 100 ("c" ∷ []) runs "a" (refl, (refl, (refl, tt)))

next_archive_path-total_example :
    (target : ArchivePath) × (next_archive_path "2025-06" disk.archives ≡ some target)
    × (Dict.get disk.archives target ≡ none)
    × (target.month ≡ "2025-06")
next_archive_path-total_example = next_archive_path-total "2025-06" disk.archives

archive-moves_example :
    let disk' = (archive "runs" 50 100 ("c" ∷ []) disk).1 in
    let goes = is_aged 50 (Dict.get runs "a") && not (contains {A = String} "a" ("c" ∷ [])) in
    (Dict.get disk'.runs "a" ≡ (if goes then none else Dict.get runs "a"))
    × (held "a" disk'.archives ≡ (goes || held "a" disk.archives))
archive-moves_example = archive-moves 50 100 ("c" ∷ []) disk "a" (refl, (refl, (refl, tt)))
