-- ===== src/Versioning/Compat/Slots.antt =====
-- What the diff of two tool contracts of src/foundry/versioning/compat.py sees, of connection slots
-- and of all.
use agent_foundry.Prelude.{
  String, ◌≡◌, refl, Bool, true, List, [], ◌∷◌, arith, eq_string, ==_iff, ==-refl, contains,
  contains-sorted, sorted,
}
use agent_foundry.Prelude.Dict
use agent_foundry.Prelude.Dict.{Dict, keys, contains-keys-put}
use agent_foundry.Versioning.Compat.{slot_losses, new_slots, slot_diff}

slot_losses-none :
    (names : List String) (cand : Dict String Bool)
    → ((name : String) → contains name names ≡ true → contains name (keys cand) ≡ true)
    → slot_losses names cand ≡ []
unfolding slot_losses
slot_losses-none [] cand f = refl
slot_losses-none (n ∷ names) cand f = ground (
  arith,
  f n (ground (arith, ==-refl n)),
  slot_losses-none names cand (λ name c. f name (ground (arith, c))),
)

new_slots-none :
    (names : List String) (base cand : Dict String Bool)
    → ((name : String) → contains name names ≡ true → contains name (keys base) ≡ true)
    → new_slots names base cand ≡ ([], [])
unfolding new_slots
new_slots-none [] base cand f = refl
new_slots-none (n ∷ names) base cand f = ground (
  arith,
  f n (ground (arith, ==-refl n)),
  new_slots-none names base cand (λ name c. f name (ground (arith, c))),
)

-- A slot of the baseline that the candidate makes required, or optional, and that is the only change
-- to the slots, is no change to the diff: neither a breaking one nor an addition.
pub slot_diff-put :
    (base : Dict String Bool) (slot : String) (optional : Bool)
    → contains slot (keys base) ≡ true
    → slot_diff base (Dict.put base slot optional) ≡ record { breaking = []; additions = [] }
unfolding slot_diff
slot_diff-put base slot optional h =
    let cand = Dict.put base slot optional in
    ground (
      arith,
      slot_losses-none (sorted (keys base)) cand (λ name c.
          ground (
            arith,
            c,
            contains-sorted name (keys base),
            contains-keys-put base slot name optional,
          )),
      new_slots-none (sorted (keys cand)) base cand (λ name c. ground (
        arith,
        c,
        h,
        contains-sorted name (keys cand),
        contains-keys-put base slot name optional,
        ==_iff slot name,
      )),
    )
