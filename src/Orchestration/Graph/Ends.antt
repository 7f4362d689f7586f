-- ===== src/Orchestration/Graph/Ends.antt =====
-- The rounds of src/foundry/orchestration/patterns.py that find the nodes with a path to END.
use agent_foundry.Prelude.{
  ℕ, zero, suc, ◌+◌, ◌≤◌, ◌<◌, String, ◌≡◌, ◌⊎◌, inl, inr, refl, sym, Bool, true, false, not, ◌||◌,
  Option, some, List, [], ◌∷◌, length, arith, Bool-cases, subst, eq_string, ◌==◌, ==_iff, ==-refl,
  contains, missing, missing-le-length, missing-lt,
}
use agent_foundry.Prelude.Dict.{Dict}
use agent_foundry.Orchestration.Graph.{
  CompiledEdge, end_sentinel, targets, leads_out, end_round, end_rounds, can_end_set,
}
use agent_foundry.Orchestration.Graph.Relations.{Ends, last, onward}

-- A target that is END or in the list.
leads_out-target :
    (ts can_end : List String)
    → leads_out ts can_end ≡ true
    → (t : String) × (contains t ts ≡ true) × ((t == end_sentinel || contains t can_end) ≡ true)
leads_out-target [] can_end h = absurd cc
leads_out-target (t ∷ ts) can_end h = elim (Bool-cases (t == end_sentinel || contains t can_end)) [
  | inl out ↦ (t, ground (arith, ==-refl t), out)
  | inr other ↦
      let (u, i, out) = leads_out-target ts can_end (ground (arith, h, other)) in
      (u, ground (arith, i), out)
]

leads_out-intro :
    (ts can_end : List String) (t : String)
    → contains t ts ≡ true
    → (t == end_sentinel || contains t can_end) ≡ true
    → leads_out ts can_end ≡ true
leads_out-intro [] can_end t h g = h
leads_out-intro (u ∷ ts) can_end t h g = ground (arith, leads_out-intro ts can_end t, ==_iff u t)

module _ {P : Type 0} where
  leads_out-Ends :
      (d : Dict String (List (CompiledEdge P))) (nodes can_end : List String) (n : String)
      → contains n nodes ≡ true
      → ((m : String) → contains m can_end ≡ true → Ends d nodes m)
      → leads_out (targets d n) can_end ≡ true
      → Ends d nodes n
  leads_out-Ends d nodes can_end n i e h =
      let (t, edge, out) = leads_out-target (targets d n) can_end h in
      elim (Bool-cases (t == end_sentinel)) [
        | inl same ↦
            last n i
              (subst (λ x. contains x (targets d n) ≡ true) ((==_iff t end_sentinel).0 same) edge)
        | inr other ↦ onward n t i edge (e t (ground (arith, out, other)))
      ]

  -- What a round has done.
  record Rounded (d : Dict String (List (CompiledEdge P))) (all nodes : List String)
      (before after : List String × Bool) : Type 0 where
    sound : (n : String) → contains n after.0 ≡ true → Ends d all n
    kept : missing all after.0 ≤ missing all before.0
    progress : after.1 ≡ true → (before.1 ≡ true) ⊎ (missing all after.0 < missing all before.0)
    still : after.1 ≡ false → (before.1 ≡ false) × (after.0 ≡ before.0)
    settled :
        (n : String)
        → after.1 ≡ false
        → contains n nodes ≡ true
        → (contains n before.0 || not (leads_out (targets d n) before.0)) ≡ true

  end_round-Rounded :
      (d : Dict String (List (CompiledEdge P))) (all nodes can_end : List String) (changed : Bool)
      → ((n : String) → contains n nodes ≡ true → contains n all ≡ true)
      → ((n : String) → contains n can_end ≡ true → Ends d all n)
      → Rounded d all nodes (can_end, changed) (end_round d nodes (can_end, changed))
  unfolding end_round
  end_round-Rounded d all [] can_end changed sub e = record {
    sound = e;
    kept = omega arith;
    progress = λ h. inl h;
    still = λ h. (h, refl);
    settled = λ n h i. absurd cc;
  }
  end_round-Rounded d all (n ∷ nodes) can_end changed sub e =
      elim (Bool-cases (contains n can_end)) [
        | inl known ↦
            let r =
              end_round-Rounded d all nodes can_end changed (λ m i. sub m (ground (arith, i))) e in
            record {
              sound = λ m i. r.sound m (ground (arith, i, known));
              kept = ground (arith, known, r.kept);
              progress = λ h. ground (arith, known, r.progress (ground (arith, h, known)));
              still = λ h. ground (arith, known, r.still (ground (arith, h, known)));
              settled = λ m h i. elim (Bool-cases (n == m)) [
                | inl same ↦ ground (arith, known, ==_iff n m, same)
                | inr other ↦ r.settled m (ground (arith, h, known)) (ground (arith, i, other))
              ];
            }
        | inr new ↦ elim (Bool-cases (leads_out (targets d n) can_end)) [
          | inl out ↦
              let inside = sub n (ground (arith, ==-refl n)) in
              let r =
                end_round-Rounded d all nodes (n ∷ can_end) true (λ m i. sub m (ground (arith, i)))
                  (λ m i. elim (Bool-cases (n == m)) [
                    | inl same ↦
                        subst (Ends d all) ((==_iff n m).0 same)
                          (leads_out-Ends d all can_end n inside e out)
                    | inr other ↦ e m (ground (arith, i, other))
                  ]) in
              let less = missing-lt all can_end n inside new in
              record {
                sound = λ m i. r.sound m (ground (arith, i, new, out));
                kept = ground (arith, new, out, r.kept, less);
                progress = λ h. inr (ground (arith, new, out, r.kept, less));
                still =
                    λ h. absurd (ground (arith, new, out, r.still (ground (arith, h, new, out))));
                settled = λ m h i.
                    absurd (ground (arith, new, out, r.still (ground (arith, h, new, out))));
              }
          | inr stuck ↦
              let r =
                end_round-Rounded d all nodes can_end changed (λ m i. sub m (ground (arith, i)))
                  e in
              record {
                sound = λ m i. r.sound m (ground (arith, i, new, stuck));
                kept = ground (arith, new, stuck, r.kept);
                progress =
                    λ h. ground (arith, new, stuck, r.progress (ground (arith, h, new, stuck)));
                still = λ h. ground (arith, new, stuck, r.still (ground (arith, h, new, stuck)));
                settled = λ m h i. elim (Bool-cases (n == m)) [
                  | inl same ↦
                      subst
                        (λ x. (contains x can_end || not (leads_out (targets d x) can_end)) ≡ true)
                        ((==_iff n m).0 same) (ground (arith, stuck, new))
                  | inr other ↦
                      r.settled m (ground (arith, h, new, stuck)) (ground (arith, i, other))
                ];
              }
        ]
      ]

  -- What the rounds have found.
  pub record Ended (d : Dict String (List (CompiledEdge P))) (nodes : List String)
      (o : Option (List String)) : Type 0 where
    pub can_end : List String
    pub found : o ≡ some can_end
    pub sound : (n : String) → contains n can_end ≡ true → Ends d nodes n
    pub settled :
        (n : String)
        → contains n nodes ≡ true
        → (contains n can_end || not (leads_out (targets d n) can_end)) ≡ true

  end_rounds-Ended :
      (fuel : ℕ) (d : Dict String (List (CompiledEdge P))) (nodes can_end : List String)
      → missing nodes can_end < fuel
      → ((n : String) → contains n can_end ≡ true → Ends d nodes n)
      → Ended d nodes (end_rounds fuel d nodes can_end)
  unfolding end_rounds
  end_rounds-Ended zero d nodes can_end m e = absurd (omega (arith, m))
  end_rounds-Ended (suc fuel) d nodes can_end m e =
      let r = end_round-Rounded d nodes nodes can_end false (λ n i. i) e in
      let s = end_round d nodes (can_end, false) in
      elim (Bool-cases s.1) [
        | inl again ↦
            rw again
              (end_rounds-Ended fuel d nodes s.0 (ground (arith, m, r.progress again)) r.sound)
        | inr over ↦ record {
          can_end = s.0;
          found = ground (arith, over);
          sound = r.sound;
          settled = λ n i.
              subst (λ x. (contains n x || not (leads_out (targets d n) x)) ≡ true)
                (sym (r.still over).1) (r.settled n over i);
        }
      ]

  -- The rounds come to an end.
  pub can_end_set-Ended :
      (d : Dict String (List (CompiledEdge P))) (nodes : List String)
      → Ended d nodes (can_end_set d nodes)
  unfolding can_end_set
  can_end_set-Ended d nodes =
      end_rounds-Ended (length nodes + 1) d nodes [] (omega (arith, missing-le-length nodes []))
        (λ n h. absurd cc)

  -- All nodes with a path to END are found.
  pub Ended-complete :
      (d : Dict String (List (CompiledEdge P))) (nodes : List String) (n : String)
      (o : Option (List String)) (r : Ended d nodes o)
      → Ends d nodes n
      → contains n r.can_end ≡ true
  Ended-complete d nodes n o r (last a i edge) = ground (
    arith,
    r.settled a i,
    leads_out-intro (targets d a) r.can_end end_sentinel edge
        (ground (arith, ==-refl end_sentinel)),
  )
  Ended-complete d nodes n o r (onward a b i edge e) = ground (
    arith,
    r.settled a i,
    leads_out-intro (targets d a) r.can_end b edge (ground (arith, Ended-complete d nodes b o r e)),
  )
