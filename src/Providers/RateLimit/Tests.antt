-- ===== src/Providers/RateLimit/Tests.antt =====
-- The limiters at concrete inputs: 10 tokens a millisecond, at most 100.
use agent_foundry.Prelude.{◌+◌, ◌-◌, ◌*◌, ◌≤◌, ◌≡◌, refl, some, List, [], ◌∷◌, arith, eq_string}
use agent_foundry.Prelude.Dict
use agent_foundry.Providers.RateLimit.{
  InProcessTokenBucket, take, spend, refill, bucket_or_full, acquire,
}
use agent_foundry.Providers.RateLimit.Window.{Call, granted_cost, granted_cost-le}
use agent_foundry.Providers.RateLimit.Redis.{
  Store, acquire_lua, view, SameReply, acquire_lua-refines,
}

abbrev fresh : InProcessTokenBucket
fresh = record { rate = 10; capacity = 100; buckets = [] }

abbrev calls : List Call
calls =
    record { cost = 60; at = 5 } ∷ record { cost = 60; at = 6 } ∷ record { cost = 60; at = 8 } ∷ []

program : Unit {0}
unfolding take spend refill bucket_or_full Dict.get Dict.put granted_cost acquire acquire_lua
program = tt

second_waits : granted_cost "openai:m" calls fresh ≡ 120
unfolding program
second_waits = refl

granted_cost-le_example : granted_cost "openai:m" calls fresh ≤ 100 + (8 - 5) * 10
granted_cost-le_example =
    granted_cost-le "openai:m" calls fresh 5 8 (unfold Dict.get in refl) (omega arith)

abbrev low : InProcessTokenBucket
low = record fresh { buckets = ("k", record { tokens = 40; last = 6 }) ∷ [] }

abbrev shared : Store
shared = record { tokens = some 40; last = some 6 }

acquire_lua-refines_example :
    let r = acquire_lua 10 100 60 7 shared in
    let taken = take "k" 60 7 low in
    SameReply 10 r.0 taken.0
    × ((Dict.get taken.1.buckets "k" ≡ some (view 100 7 r.1)) × ((view 100 7 r.1).tokens ≤ 100))
acquire_lua-refines_example =
    acquire_lua-refines "k" 60 7 shared low (omega arith) (unfold bucket_or_full Dict.get in refl)
      (omega arith) (omega arith)
