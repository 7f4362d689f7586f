-- ===== src/Storage/Retention/Collect.antt =====
-- What a garbage collection of the runs removes and reports.
use agent_foundry.Prelude.{
  ℕ, ◌-◌, String, ◌≡◌, ◌⊎◌, refl, Bool, true, false, not, ◌&&◌, ◌||◌, Option, none, some, List, [],
  ◌∷◌, if◌then◌else◌, ltb, ok, arith, eq_string, ◌==◌, ==_iff, contains, contains-append, Distinct,
}
use agent_foundry.Prelude.Dict
use agent_foundry.Prelude.Dict.{Dict, keys, get-pop, get-eq_none}
use agent_foundry.Storage.Retention.{
  RunDir, GcReport, aged_run_dirs, fate, gc_round, gc_rounds, empty_report, gc,
}

-- Is a directory old enough?
abbrev pub is_aged : ℕ → Option RunDir → Bool
is_aged cutoff none = false
is_aged cutoff (some dir) = ltb dir.age cutoff

-- A candidate that the collection does not spare.
abbrev pub goes : Bool → Bool → Bool → Bool
goes pinned dry_run force = not dry_run && (not pinned || force)

contains-aged_absent :
    (cutoff : ℕ) (tree : Dict String RunDir) (name : String)
    → contains name (keys tree) ≡ false
    → contains name (keys (aged_run_dirs cutoff tree)) ≡ false
unfolding aged_run_dirs
contains-aged_absent cutoff [] name h = refl
contains-aged_absent cutoff ((n, d) ∷ rest) name h =
    ground (arith, contains-aged_absent cutoff rest name)

pub contains-aged :
    (cutoff : ℕ) (tree : Dict String RunDir) (name : String)
    → Distinct (keys tree)
    → contains name (keys (aged_run_dirs cutoff tree)) ≡ is_aged cutoff (Dict.get tree name)
unfolding aged_run_dirs Dict.get
contains-aged cutoff [] name h = refl
contains-aged cutoff ((n, d) ∷ rest) name h =
    ground
      (arith, contains-aged cutoff rest name, contains-aged_absent cutoff rest name, ==_iff n name)

get-gc_round :
    (n name : String) (p dry force : Bool) (r : GcReport) (tree : Dict String RunDir)
    → Dict.get (gc_round n (fate p dry force) (r, tree)).1 name
      ≡ (if n == name && goes p dry force then none else Dict.get tree name)
unfolding gc_round fate
get-gc_round n name true true true r tree = ground arith
get-gc_round n name true true false r tree = ground arith
get-gc_round n name true false true r tree = ground (arith, get-pop tree n name)
get-gc_round n name true false false r tree = ground arith
get-gc_round n name false true force r tree = ground arith
get-gc_round n name false false force r tree = ground (arith, get-pop tree n name)

get-gc_rounds :
    (pinned : List String) (dry force : Bool) (names : List String) (r : GcReport)
    (tree : Dict String RunDir) (name : String)
    → Dict.get (gc_rounds pinned dry force names (r, tree)).1 name ≡ (
        if contains name names && goes (contains name pinned) dry force
        then none
        else Dict.get tree name)
unfolding gc_rounds
get-gc_rounds pinned dry force [] r tree name = refl
get-gc_rounds pinned dry force (n ∷ names) r tree name =
    let s = gc_round n (fate (contains n pinned) dry force) (r, tree) in
    ground (
      arith,
      get-gc_rounds pinned dry force names s.0 s.1 name,
      get-gc_round n name (contains n pinned) dry force r tree,
      ==_iff n name,
    )

-- In a tree whose names are distinct: after a collection of the runs the tree has a directory as
-- before, but for those that are older than the cutoff and that are not pinned, or are forced,
-- where it is no dry run: these are gone.
pub get-gc :
    (older_than : ℕ) (dry_run force : Bool) (now : ℕ) (pinned : List String)
    (tree : Dict String RunDir) (name : String)
    → Distinct (keys tree)
    → Dict.get (gc "runs" older_than dry_run force now pinned tree).1 name ≡ (
        if is_aged (now - older_than) (Dict.get tree name)
          && (not dry_run && (not (contains name pinned) || force))
        then none
        else Dict.get tree name)
unfolding gc
get-gc older_than dry_run force now pinned tree name h =
    let cutoff = now - older_than in
    ground (
      arith,
      get-gc_rounds pinned dry_run force (keys (aged_run_dirs cutoff tree))
          (empty_report "runs" cutoff dry_run) tree name,
      contains-aged cutoff tree name h,
    )

-- What a round adds to the report.
gc_round-reports :
    (n name : String) (p dry force : Bool) (r : GcReport) (tree : Dict String RunDir)
    → let r' = (gc_round n (fate p dry force) (r, tree)).0 in
      (contains name r'.candidates ≡ (contains name r.candidates || n == name))
      × (contains name r'.deleted ≡ (contains name r.deleted || (n == name && goes p dry force)))
      × (contains name r'.skipped_pinned
          ≡ (contains name r.skipped_pinned || (n == name && (p && not force))))
      × (contains name r'.forced
          ≡ (contains name r.forced || (n == name && (p && goes p dry force))))
unfolding gc_round fate
gc_round-reports n name p dry force r tree = ground (
  arith,
  contains-append name r.candidates (n ∷ []),
  contains-append name r.deleted (n ∷ []),
  contains-append name r.skipped_pinned (n ∷ []),
  contains-append name r.forced (n ∷ []),
)

gc_rounds-reports :
    (pinned : List String) (dry force : Bool) (names : List String) (r : GcReport)
    (tree : Dict String RunDir) (name : String)
    → let r' = (gc_rounds pinned dry force names (r, tree)).0 in
      let p = contains name pinned in
      (contains name r'.candidates ≡ (contains name r.candidates || contains name names))
      × (contains name r'.deleted
          ≡ (contains name r.deleted || (contains name names && goes p dry force)))
      × (contains name r'.skipped_pinned
          ≡ (contains name r.skipped_pinned || (contains name names && (p && not force))))
      × (contains name r'.forced
          ≡ (contains name r.forced || (contains name names && (p && goes p dry force))))
unfolding gc_rounds
gc_rounds-reports pinned dry force [] r tree name = ground arith
gc_rounds-reports pinned dry force (n ∷ names) r tree name =
    let s = gc_round n (fate (contains n pinned) dry force) (r, tree) in
    ground (
      arith,
      gc_rounds-reports pinned dry force names s.0 s.1 name,
      gc_round-reports n name (contains n pinned) dry force r tree,
      ==_iff n name,
    )

-- In a tree whose names are distinct a collection of the runs returns a report: its candidates are
-- the directories that are older than the cutoff; of these it names as deleted, unless it is a dry
-- run, those that are not pinned or are forced; as skipped those that are pinned, unless they are
-- forced; and as forced those that are pinned and deleted.
pub gc-reports :
    (older_than : ℕ) (dry_run force : Bool) (now : ℕ) (pinned : List String)
    (tree : Dict String RunDir) (name : String)
    → Distinct (keys tree)
    → (r : GcReport) × ((gc "runs" older_than dry_run force now pinned tree).0 ≡ ok r)
      × (let aged = is_aged (now - older_than) (Dict.get tree name) in
          let p = contains name pinned in
          (contains name r.candidates ≡ aged)
          × (contains name r.deleted ≡ (aged && goes p dry_run force))
          × (contains name r.skipped_pinned ≡ (aged && (p && not force)))
          × (contains name r.forced ≡ (aged && (p && goes p dry_run force))))
unfolding gc
gc-reports older_than dry_run force now pinned tree name h =
    let cutoff = now - older_than in
    let names = keys (aged_run_dirs cutoff tree) in
    let start = empty_report "runs" cutoff dry_run in
    (
      (gc_rounds pinned dry_run force names (start, tree)).0,
      ground arith,
      ground (
        arith,
        gc_rounds-reports pinned dry_run force names start tree name,
        contains-aged cutoff tree name h,
      ),
    )

dry_rounds :
    (pinned : List String) (force : Bool) (names : List String) (r : GcReport)
    (tree : Dict String RunDir)
    → (gc_rounds pinned true force names (r, tree)).1 ≡ tree
unfolding gc_rounds gc_round fate
dry_rounds pinned force [] r tree = refl
dry_rounds pinned force (n ∷ names) r tree =
    let s = gc_round n (fate (contains n pinned) true force) (r, tree) in
    ground (arith, dry_rounds pinned force names s.0 s.1)

-- A dry run removes nothing, and a call for another kind than runs is refused and removes nothing.
pub gc-refuses :
    (kind : String) (older_than : ℕ) (dry_run force : Bool) (now : ℕ) (pinned : List String)
    (tree : Dict String RunDir)
    → dry_run ≡ true ⊎ (kind == "runs") ≡ false
    → (gc kind older_than dry_run force now pinned tree).1 ≡ tree
unfolding gc
gc-refuses kind older_than true force now pinned tree h =
    let cutoff = now - older_than in
    ground (
      arith,
      dry_rounds pinned force (keys (aged_run_dirs cutoff tree)) (empty_report kind cutoff true)
          tree,
    )
gc-refuses kind older_than false force now pinned tree h = ground arith
