-- ===== src/Providers/RateLimit.antt =====
-- src/foundry/providers/rate_limit.py. Times are whole milliseconds and amounts of tokens whole
-- units, chosen so small that the rate, capacity and costs are whole: the arithmetic is exact, where
-- the program's floats round. A wait is kept as its product with the rate.
mod Tests
pub mod Window
pub mod Redis
use agent_foundry.Prelude.{
  ℕ, ◌+◌, ◌-◌, ◌*◌, ◌/◌, min, String, ◌≡◌, Bool, true, false, Option, none, some, List, [], ◌∷◌,
  if◌then◌else◌, ltb, leb, Result, ok, err, eq_string,
}
use agent_foundry.Prelude.Dict
use agent_foundry.Prelude.Dict.{Dict}

pub record Bucket : Type 0 where
  pub tokens : ℕ
  pub last : ℕ

pub record InProcessTokenBucket : Type 0 where
  pub rate : ℕ
  pub capacity : ℕ
  pub buckets : Dict String Bucket

pub data Permit : Type 0 where
  granted : Permit
  -- The wait, times the rate.
  deferred : ℕ → Permit

-- `self._buckets.get(key, (self.capacity, now))`
unfoldable pub bucket_or_full : ℕ → ℕ → Option Bucket → Bucket
bucket_or_full capacity now none = record { tokens = capacity; last = now }
bucket_or_full capacity now (some b) = b

unfoldable pub refill : ℕ → ℕ → ℕ → Bucket → ℕ
refill rate capacity now b = min capacity (b.tokens + (now - b.last) * rate)

-- The test and the two writes, on a refilled amount.
unfoldable pub spend : ℕ → ℕ → ℕ → Permit × Bucket
spend cost now tokens =
    if leb cost tokens
    then (granted, record { tokens = tokens - cost; last = now })
    else (deferred (cost - tokens), record { tokens = tokens; last = now })

-- `_take`
unfoldable pub take : String → ℕ → ℕ → InProcessTokenBucket → Permit × InProcessTokenBucket
unfolding bucket_or_full refill spend
take key cost now s =
    let b = bucket_or_full s.capacity now (Dict.get s.buckets key) in
    let (permit, b') = spend cost now (refill s.rate s.capacity now b) in
    (permit, record s { buckets = Dict.put s.buckets key b' })

pub data AcquireError : Type 0 where
  run_cancelled provider_rate_limit_error : AcquireError

-- What a round of the loop of `acquire` meets: whether the session is cancelled before it, the
-- clock at the take and at the test of the deadline, and whether the session is cancelled while it
-- sleeps.
pub record Round : Type 0 where
  pub cancelled_before : Bool
  pub now : ℕ
  pub tested_at : ℕ
  pub cancelled_asleep : Bool

-- `acquire`: `none` while the task still waits when the given rounds are over.
unfoldable pub acquire :
    List Round
    → String
    → ℕ
    → ℕ
    → InProcessTokenBucket
    → Option (Result AcquireError (Unit {0})) × InProcessTokenBucket
acquire [] key cost deadline s = (none, s)
acquire (r ∷ rounds) key cost deadline s =
    let (permit, s') = take key cost r.now s in
    let again = acquire rounds key cost deadline s' in
    if r.cancelled_before then (some (err run_cancelled), s) else elim permit [
      | granted ↦ (some (ok tt), s')
      | deferred wait ↦
          if ltb (deadline * s.rate) (r.tested_at * s.rate + wait)
          then (some (err provider_rate_limit_error), s')
          else if r.cancelled_asleep
          then (some (err run_cancelled), s')
          else again
    ]
