-- ===== src/Orchestration/Graph/Reach.antt =====
-- The search of src/foundry/orchestration/patterns.py for the nodes that are reachable from the start.
use agent_foundry.Prelude.{
  ℕ, zero, suc, ◌+◌, ◌≤◌, ◌<◌, String, ◌≡◌, inl, inr, refl, true, false, ◌||◌, Option, some, List,
  [], ◌∷◌, length, arith, Bool-cases, subst, sym, eq_string, ◌==◌, ==_iff, ==-refl, contains,
}
use agent_foundry.Prelude.Dict
use agent_foundry.Prelude.Dict.{Dict}
use agent_foundry.Orchestration.Graph.{
  CompiledEdge, end_sentinel, targets, push_all, pending, reach, reachable_from,
}
use agent_foundry.Orchestration.Graph.Relations.{Reaches, here, step}

contains-push_all :
    (b : String) (ts stack : List String)
    → contains b (push_all ts stack) ≡ (contains b ts || contains b stack)
unfolding push_all
contains-push_all b [] stack = refl
contains-push_all b (t ∷ ts) stack = ground (arith, contains-push_all b ts (t ∷ stack))

length-push_all : (ts stack : List String) → length (push_all ts stack) ≡ length ts + length stack
unfolding push_all
length-push_all [] stack = omega arith
length-push_all (t ∷ ts) stack = omega (arith, length-push_all ts (t ∷ stack))

module _ {P : Type 0} where
  pending_mono :
      (d : Dict String (List (CompiledEdge P))) (c : String) (reachable : List String)
      → pending d (c ∷ reachable) ≤ pending d reachable
  unfolding pending
  pending_mono [] c reachable = omega arith
  pending_mono ((n, es) ∷ d) c reachable = ground (arith, pending_mono d c reachable)

  -- A node that becomes reachable takes its edges out of the pending ones.
  pending-targets :
      (d : Dict String (List (CompiledEdge P))) (c : String) (reachable : List String)
      → contains c reachable ≡ false
      → pending d (c ∷ reachable) + length (targets d c) ≤ pending d reachable
  unfolding pending Dict.get
  pending-targets [] c reachable h = omega arith
  pending-targets ((n, es) ∷ d) c reachable h = elim (Bool-cases (n == c)) [
    | inl same ↦ ground (arith, same, h, pending_mono d c reachable, ==_iff n c, ==-refl c)
    | inr other ↦ ground (arith, other, h, pending-targets d c reachable h, ==_iff n c, ==_iff c n)
  ]

  -- What a search that has come to an end has found.
  pub record Reached (d : Dict String (List (CompiledEdge P))) (start : String)
      (o : Option (List String)) : Type 0 where
    pub nodes : List String
    pub found : o ≡ some nodes
    pub sound :
        (n : String) → contains n nodes ≡ true → Reaches d start n × ((n == end_sentinel) ≡ false)
    pub closed :
        (a b : String)
        → contains a nodes ≡ true
        → contains b (targets d a) ≡ true
        → (b == end_sentinel || contains b nodes) ≡ true
    pub has_start : (start == end_sentinel || contains start nodes) ≡ true

  reach-Reached :
      (fuel : ℕ) (d : Dict String (List (CompiledEdge P))) (start : String)
      (reachable stack : List String)
      → length stack + pending d reachable < fuel
      → ((n : String)
          → contains n reachable ≡ true
          → Reaches d start n × ((n == end_sentinel) ≡ false))
      → ((n : String) → contains n stack ≡ true → Reaches d start n)
      → ((a b : String)
          → contains a reachable ≡ true
          → contains b (targets d a) ≡ true
          → (b == end_sentinel || (contains b reachable || contains b stack)) ≡ true)
      → (start == end_sentinel || (contains start reachable || contains start stack)) ≡ true
      → Reached d start (reach fuel d reachable stack)
  unfolding reach
  reach-Reached zero d start reachable stack m s t c h = absurd (omega (arith, m))
  reach-Reached (suc fuel) d start reachable [] m s t c h = record {
    nodes = reachable;
    found = refl;
    sound = s;
    closed = λ a b i j. ground (arith, c a b i j);
    has_start = ground (arith, h);
  }
  reach-Reached (suc fuel) d start reachable (current ∷ stack) m s t c h =
      elim (Bool-cases (contains current reachable || current == end_sentinel)) [
        | inl known ↦ rw known (
            reach-Reached fuel d start reachable stack (omega (arith, m)) s
              (λ n i. t n (ground (arith, i)))
              (λ a b i j.
                ground (arith, known, c a b i j, ==_iff current b, ==_iff current end_sentinel))
              (ground (arith, known, h, ==_iff current start, ==_iff current end_sentinel)))
        | inr new ↦ rw new (
            reach-Reached fuel d start (current ∷ reachable) (push_all (targets d current) stack)
              (ground (
                arith,
                m,
                new,
                length-push_all (targets d current) stack,
                pending-targets d current reachable,
              ))
              (λ n i. elim (Bool-cases (current == n)) [
                | inl same ↦
                    (t n (ground (arith, same)), ground (arith, new, same, ==_iff current n))
                | inr other ↦ s n (ground (arith, i, other))
              ])
              (λ n i. elim (Bool-cases (contains n (targets d current))) [
                | inl target ↦
                    step (t current (ground (arith, ==-refl current))) n (ground (arith, new))
                      target
                | inr old ↦
                    t n (ground (arith, i, old, contains-push_all n (targets d current) stack))
              ])
              (λ a b i j. elim (Bool-cases (current == a)) [
                | inl same ↦ ground (
                  arith,
                  subst (λ x. contains b (targets d x) ≡ true) (sym ((==_iff current a).0 same)) j,
                  contains-push_all b (targets d current) stack,
                )
                | inr other ↦ ground (
                  arith,
                  i,
                  other,
                  c a b (ground (arith, i, other)) j,
                  contains-push_all b (targets d current) stack,
                )
              ])
              (ground (arith, h, contains-push_all start (targets d current) stack)))
      ]

  -- The search for the nodes that the start reaches comes to an end.
  pub reachable_from-Reached :
      (start : String) (d : Dict String (List (CompiledEdge P)))
      → Reached d start (reachable_from start d)
  unfolding reachable_from
  reachable_from-Reached start d =
      reach-Reached (pending d [] + 2) d start [] (start ∷ []) (omega arith) (λ n h. absurd cc)
        (λ n h. subst (Reaches d start) ((==_iff start n).0 (ground (arith, h))) here)
        (λ a b h. absurd cc) (ground (arith, ==-refl start))

  -- A closed set of nodes that has the start has all that the start reaches.
  pub Reached-complete :
      (d : Dict String (List (CompiledEdge P))) (start n : String) (o : Option (List String))
      (r : Reached d start o)
      → Reaches d start n
      → (n == end_sentinel || contains n r.nodes) ≡ true
  Reached-complete d start n o r here = r.has_start
  Reached-complete d start n o r (step {a = a} p b out edge) =
      r.closed a b (ground (arith, Reached-complete d start a o r p, out)) edge
