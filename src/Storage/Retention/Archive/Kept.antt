-- ===== src/Storage/Retention/Archive/Kept.antt =====
-- What `archive` of src/foundry/storage/retention.py writes and removes.
use agent_foundry.Prelude.{
  ℕ, zero, suc, ◌+◌, ◌≤◌, ◌<◌, String, ◌≡◌, inl, inr, refl, ◌&&◌, Option, none, some, List, [], ◌∷◌,
  if◌then◌else◌, leb, arith, eq_string, eq_nat, ◌==◌, ==_iff, length, Option-cases,
}
use agent_foundry.Prelude.Dict
use agent_foundry.Prelude.Dict.{Dict, keys, get-put, get-pop}
use agent_foundry.Storage.Retention.Archive.{
  ArchivePath, eq_path, same_path, next_from, next_archive_path,
}

-- The archives of a month from a suffix on.
count_from : String → ℕ → Dict ArchivePath (List String) → ℕ
count_from month c [] = 0
count_from month c ((p, names) ∷ rest) =
    let n = count_from month c rest in if p.month == month && leb c p.counter then suc n else n

count_from-le :
    (month : String) (c : ℕ) (archives : Dict ArchivePath (List String))
    → count_from month (c + 1) archives ≤ count_from month c archives
unfolding count_from
count_from-le month c [] = omega arith
count_from-le month c ((p, names) ∷ rest) = ground (arith, count_from-le month c rest)

count_from-length :
    (month : String) (c : ℕ) (archives : Dict ArchivePath (List String))
    → count_from month c archives ≤ length archives
unfolding count_from
count_from-length month c [] = omega arith
count_from-length month c ((p, names) ∷ rest) = ground (arith, count_from-length month c rest)

count_from-lt :
    (month : String) (c : ℕ) (archives : Dict ArchivePath (List String)) (names : List String)
    → Dict.get archives (record { month = month; counter = c }) ≡ some names
    → count_from month (c + 1) archives < count_from month c archives
unfolding count_from Dict.get same_path
count_from-lt month c [] names h = cc
count_from-lt month c ((p, held) ∷ rest) names h = ground (
  arith,
  count_from-le month c rest,
  count_from-lt month c rest names,
  ==_iff p.month month,
  ==_iff p.counter c,
)

-- A path that no archive has.
record Fresh (month : String) (archives : Dict ArchivePath (List String)) (o : Option ArchivePath)
    : Type 0 where
  target : ArchivePath
  found : o ≡ some target
  free : Dict.get archives target ≡ none
  of_month : target.month ≡ month

next_from-Fresh :
    (fuel : ℕ) (month : String) (c : ℕ) (archives : Dict ArchivePath (List String))
    → count_from month c archives < fuel
    → Fresh month archives (next_from fuel month c archives)
unfolding next_from
next_from-Fresh zero month c archives h = absurd (omega (arith, h))
next_from-Fresh (suc fuel) month c archives h =
    let at : ArchivePath = record { month = month; counter = c } in
    elim (Option-cases (Dict.get archives at)) [
      | inl e ↦ record { target = at; found = ground (arith, e); free = e; of_month = refl }
      | inr (names, e) ↦
          let more =
            next_from-Fresh fuel month (c + 1) archives
              (omega (arith, h, count_from-lt month c archives names e)) in
          record {
            target = more.target;
            found = ground (arith, e, more.found);
            free = more.free;
            of_month = more.of_month;
          }
    ]

-- The search for a path ends for every month, at a path of that month that no archive has.
pub next_archive_path-total :
    (month : String) (archives : Dict ArchivePath (List String))
    → (target : ArchivePath) × (next_archive_path month archives ≡ some target)
      × (Dict.get archives target ≡ none)
      × (target.month ≡ month)
unfolding next_archive_path
next_archive_path-total month archives =
    let f =
      next_from-Fresh (suc (length archives)) month 0 archives
        (omega (arith, count_from-length month 0 archives)) in
    (f.target, f.found, f.free, f.of_month)
