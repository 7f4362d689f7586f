-- ===== src/Core/Session/Budget.antt =====
-- Cancellation and checkpoints of src/foundry/core/session.py.
use agent_foundry.Prelude.{
  String, ◌≡◌, refl, Bool, ◌&&◌, ◌||◌, List, [], ◌∷◌, arith, eq_string, ◌==◌, ==_iff, contains,
  contains-sorted,
}
use agent_foundry.Prelude.Dict
use agent_foundry.Prelude.Dict.{Dict, keys, contains-keys-put}
use agent_foundry.Core.Session.{CancelToken, cancel, with_prefix, list_keys, put_checkpoint}

-- The first reason for a cancellation stays.
pub cancel-cancel :
    (first second : String) (t : CancelToken) → cancel second (cancel first t) ≡ cancel first t
unfolding cancel
cancel-cancel first second t = ground arith

contains-with_prefix :
    (starts_with : String → String → Bool) (prefix key : String) (ks : List String)
    → contains key (with_prefix starts_with prefix ks) ≡ (contains key ks && starts_with key prefix)
unfolding with_prefix
contains-with_prefix starts_with prefix key [] = refl
contains-with_prefix starts_with prefix key (k ∷ ks) =
    ground (arith, contains-with_prefix starts_with prefix key ks, ==_iff k key)

-- The listed keys of a prefix after a write: the old ones, and the written one if it has the prefix.
pub contains-list_keys :
    (starts_with : String → String → Bool) (prefix key k value : String)
    (store : Dict String String)
    → contains key (list_keys starts_with prefix (put_checkpoint k value store))
      ≡ ((k == key || contains key (keys store)) && starts_with key prefix)
unfolding list_keys put_checkpoint
contains-list_keys starts_with prefix key k value store = ground (
  arith,
  contains-sorted key (with_prefix starts_with prefix (keys (Dict.put store k value))),
  contains-with_prefix starts_with prefix key (keys (Dict.put store k value)),
  contains-keys-put store k key value,
)
