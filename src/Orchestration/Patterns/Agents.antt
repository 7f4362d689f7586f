-- ===== src/Orchestration/Patterns/Agents.antt =====
-- The last agent among some leaves, as src/foundry/orchestration/patterns.py finds it.
use agent_foundry.Prelude.{
  String, ◌≡◌, ◌⊎◌, inl, inr, refl, sym, subst, true, false, ◌&&◌, Option, none, some, List, [],
  ◌∷◌, ◌++◌, append_assoc, append-nil, if◌then◌else◌, Result, ok, err, >>=-eq-ok, arith, Bool-cases,
  eq_string, ◌==◌, ==_iff, ==-refl, contains, contains-append,
}
use agent_foundry.Prelude.Dict
use agent_foundry.Prelude.Dict.{Dict, keys, contains-keys-put}
use agent_foundry.Orchestration.Predicates.{CompiledPredicate, CompileError}
use agent_foundry.Orchestration.Graph.{
  GraphFlow, GraphEdge, CompiledEdge, ShapeError, node_names, endpoints, with_endpoint, group_edges,
  compile_when, end_sentinel, goals, edges_or_none,
}
use agent_foundry.Orchestration.Graph.Compiled.{contains-with_endpoint}
use agent_foundry.Orchestration.Patterns.{LeafNode}
use agent_foundry.Orchestration.Patterns.Build.{as_shape, as_predicate}
use agent_foundry.Orchestration.Patterns.Leaves.{leaf_names}
use agent_foundry.Orchestration.Patterns.Primary.{
  is_agent, leaf_agent, or_else, last_to_end, last_declared,
}

-- What was found among some leaves is one of them and an agent, and nothing is found only if none of
-- them is an agent.
abbrev pub LastFits : List String → List String → Option String → Type 0
LastFits agents leaves none = (n : String) → (contains n leaves && contains n agents) ≡ false
LastFits agents leaves (some n) = (contains n leaves && contains n agents) ≡ true

module _ (agents : List String) where
  pub LastFits-append :
      (xs ys : List String) (a b : Option String)
      → LastFits agents xs a
      → LastFits agents ys b
      → LastFits agents (xs ++ ys) (or_else b a)
  LastFits-append xs ys none none f g = λ n. ground (arith, f n, g n, contains-append n xs ys)
  LastFits-append xs ys (some n) none f g = ground (arith, f, g n, contains-append n xs ys)
  LastFits-append xs ys a (some n) f g = ground (arith, g, contains-append n xs ys)

  pub LastFits-or_else :
      (xs : List String) (a b : Option String)
      → LastFits agents xs a
      → LastFits agents xs b
      → LastFits agents xs (or_else a b)
  LastFits-or_else xs none b f g = g
  LastFits-or_else xs (some n) b f g = f

  pub or_else_assoc : (a b c : Option String) → or_else (or_else a b) c ≡ or_else a (or_else b c)
  or_else_assoc none b c = refl
  or_else_assoc (some n) b c = refl

  -- A leaf that is an agent if the project has it as one.
  abbrev pub Fits : LeafNode → Type 0
  Fits l = is_agent l ≡ contains l.name agents

  abbrev pub AllFit : List LeafNode → Type 0
  AllFit [] = Unit
  AllFit (l ∷ ls) = Fits l × AllFit ls

  pub leaf_agent-LastFits : (l : LeafNode) → Fits l → LastFits agents (l.name ∷ []) (leaf_agent l)
  leaf_agent-LastFits l f = elim (Bool-cases (is_agent l)) [
    | inl is ↦
        let found : some l.name ≡ leaf_agent l = ground (arith, is) in
        subst (LastFits agents (l.name ∷ [])) found (ground (arith, f, is, ==-refl l.name))
    | inr other ↦
        let found : none ≡ leaf_agent l = ground (arith, other) in
        subst (LastFits agents (l.name ∷ [])) found (λ n. ground (arith, f, other, ==_iff l.name n))
  ]

  -- The loop over the nodes of a graph.
  pub last_declared-LastFits :
      (xs : List String) (ls : List LeafNode) (last : Option String)
      → AllFit ls
      → LastFits agents xs last
      → LastFits agents (xs ++ leaf_names ls) (last_declared ls last)
  last_declared-LastFits xs [] last f g =
      subst (λ ys. LastFits agents ys last) (sym (append-nil xs)) g
  last_declared-LastFits xs (l ∷ ls) last f g =
      subst (λ ys. LastFits agents ys (last_declared (l ∷ ls) last))
        (append_assoc xs (l.name ∷ []) (leaf_names ls))
        (last_declared-LastFits (xs ++ l.name ∷ []) ls (or_else (leaf_agent l) last) f.1
          (LastFits-append xs (l.name ∷ []) last (leaf_agent l) g (leaf_agent-LastFits l f.0)))

  -- The loop over the sources of edges.
  pub last_to_end-cases :
      (d : Dict String (List (CompiledEdge CompiledPredicate))) (xs : List String)
      (last : Option String)
      → ((n : String) → contains n (keys d) ≡ true → contains n xs ≡ true)
      → (last ≡ none) ⊎ LastFits agents xs last
      → (last_to_end agents d last ≡ none) ⊎ LastFits agents xs (last_to_end agents d last)
  last_to_end-cases [] xs last within h = h
  last_to_end-cases ((source, edges) ∷ rest) xs last within h =
      let next : Option String =
        if contains source agents && contains end_sentinel (goals edges)
        then some source
        else last in
      last_to_end-cases rest xs next (λ n i. within n (ground (arith, i)))
        (elim (Bool-cases (contains source agents && contains end_sentinel (goals edges))) [
          | inl is ↦
              let found : some source ≡ next = ground (arith, is) in
              inr (
                subst (LastFits agents xs) found
                  (ground (arith, is, within source, ==-refl source)))
          | inr other ↦
              let found : last ≡ next = ground (arith, other) in
              subst (λ o. (o ≡ none) ⊎ LastFits agents xs o) found h
        ])

-- The sources of the edges of a graph are among its nodes.
keys-group_edges :
    {P E : Type 0} (compile : String → Result E P) (edges : List GraphEdge)
    (d d' : Dict String (List (CompiledEdge P))) (nodes nodes' : List String) (x : String)
    → group_edges compile edges d ≡ ok d'
    → endpoints edges nodes ≡ ok nodes'
    → (contains x (keys d) ≡ true → contains x nodes ≡ true)
    → contains x (keys d') ≡ true
    → contains x nodes' ≡ true
unfolding group_edges endpoints
keys-group_edges compile [] d d' nodes nodes' x h g within i =
    ground (arith, h, g, within (ground (arith, h, i)))
keys-group_edges {P} compile (e ∷ edges) d d' nodes nodes' x h g within i =
    let (p, _, h') =
      >>=-eq-ok (compile_when compile e.when)
        (λ p. group_edges compile edges (
          Dict.put d e.from
            (edges_or_none (Dict.get d e.from) ++ record { to = e.to; predicate = p } ∷ [])))
        d' h in
    let edge : CompiledEdge P = record { to = e.to; predicate = p } in
    let grouped = edges_or_none (Dict.get d e.from) ++ edge ∷ [] in
    let more = with_endpoint e.to (with_endpoint e.from nodes) in
    elim (Bool-cases (e.from == end_sentinel)) [
      | inl bad ↦ absurd (ground (arith, g, bad))
      | inr fine ↦
          keys-group_edges compile edges (Dict.put d e.from grouped) d' more nodes' x h'
            (ground (arith, g, fine))
            (λ j. ground (
              arith,
              within,
              j,
              fine,
              contains-keys-put d e.from x grouped,
              contains-with_endpoint x e.to (with_endpoint e.from nodes),
              contains-with_endpoint x e.from nodes,
              ==_iff e.from x,
            ))
            i
    ]

pub as_shape-ok : {A : Type 0} (r : Result ShapeError A) (a : A) → as_shape r ≡ ok a → r ≡ ok a
as_shape-ok (ok x) a h = ground (arith, h)
as_shape-ok (err e) a h = absurd cc

pub as_predicate-ok :
    {A : Type 0} (r : Result CompileError A) (a : A) → as_predicate r ≡ ok a → r ≡ ok a
as_predicate-ok (ok x) a h = ground (arith, h)
as_predicate-ok (err e) a h = absurd cc

pub keys-node_names :
    {P E : Type 0} (compile : String → Result E P) (flow : GraphFlow)
    (d : Dict String (List (CompiledEdge P))) (nodes : List String) (x : String)
    → node_names flow ≡ ok nodes
    → group_edges compile flow.edges [] ≡ ok d
    → contains x (keys d) ≡ true
    → contains x nodes ≡ true
unfolding node_names
keys-node_names compile flow d nodes x h g i =
    let (found, e, f) = >>=-eq-ok (endpoints flow.edges []) _ nodes h in
    let among = keys-group_edges compile flow.edges [] d [] found x g e (λ j. absurd cc) i in
    ground (arith, among, f)
