-- ===== src/Orchestration/Graph/Relations.antt =====
-- What the checks of src/foundry/orchestration/patterns.py are about: paths in the graph of a flow.
use agent_foundry.Prelude.{
  String, ◌≡◌, Bool, true, false, List, [], ◌∷◌, eq_string, ◌==◌, contains, ◌||◌, ◌&&◌,
}
use agent_foundry.Prelude.Dict.{Dict}
use agent_foundry.Orchestration.Graph.{CompiledEdge, end_sentinel, targets}

-- A node that a path leads to, which does not go on from END.
pub data Reaches {P : Type 0} (d : Dict String (List (CompiledEdge P))) (start : String)
    : String → Type 0 where
  here : Reaches d start start
  step :
      {a : String}
      → Reaches d start a
      → (b : String) → (a == end_sentinel) ≡ false
      → contains b (targets d a) ≡ true
      → Reaches d start b

-- A node of some nodes from which a path among them leads to END.
pub data Ends {P : Type 0} (d : Dict String (List (CompiledEdge P))) (nodes : List String)
    : String → Type 0 where
  last :
      (a : String)
      → contains a nodes ≡ true
      → contains end_sentinel (targets d a) ≡ true
      → Ends d nodes a
  onward :
      (a b : String)
      → contains a nodes ≡ true
      → contains b (targets d a) ≡ true
      → Ends d nodes b
      → Ends d nodes a

-- Each of some targets is END or in a list.
abbrev pub all_in : List String → List String → Bool
all_in [] xs = true
all_in (t ∷ ts) xs = (t == end_sentinel || contains t xs) && all_in ts xs

-- An order of nodes in which each edge goes to END or to a later node.
abbrev pub IsTopological : {P : Type 0} → Dict String (List (CompiledEdge P)) → List String → Type 0
IsTopological d [] = Unit
IsTopological d (n ∷ ns) = (all_in (targets d n) ns ≡ true) × IsTopological d ns
