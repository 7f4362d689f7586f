-- ===== src/Providers/RateLimit/Window.antt =====
-- What the in-process bucket of src/foundry/providers/rate_limit.py lets through.
use agent_foundry.Prelude.{
  ℕ, ◌+◌, ◌-◌, ◌*◌, ◌≤◌, ◌<◌, String, ◌≡◌, ◌≢◌, refl, sym, subst, none, some, List, [], ◌∷◌, arith,
  ok, eq_string, ==_iff,
}
use agent_foundry.Prelude.Dict
use agent_foundry.Prelude.Dict.{get-put}
use agent_foundry.Providers.RateLimit.{
  Bucket, InProcessTokenBucket, Permit, granted, deferred, bucket_or_full, refill, spend, take,
  Round, acquire,
}

-- One call of `_take` for a key: its cost and its time.
pub record Call : Type 0 where
  pub cost : ℕ
  pub at : ℕ

-- The cost that a run of takes of one key was granted, and the bucket's state behind it. (Takes of
-- other keys do not touch the bucket: `take-other`.)
abbrev pub cost_of : Permit → ℕ → ℕ
cost_of granted cost = cost
cost_of (deferred wait) cost = 0

unfoldable pub granted_cost : String → List Call → InProcessTokenBucket → ℕ
granted_cost key [] s = 0
granted_cost key (c ∷ cs) s =
    let (permit, s') = take key c.cost c.at s in cost_of permit c.cost + granted_cost key cs s'

-- The calls come in the order of the monotonic clock, at or after `start` and at or before `end`.
abbrev pub Ordered : ℕ → ℕ → List Call → Type 0
Ordered start end [] = start ≤ end
Ordered start end (c ∷ cs) = (start ≤ c.at) × Ordered c.at end cs

-- A take of another key leaves a key's bucket alone.
pub take-other :
    (key other : String) (cost now : ℕ) (s : InProcessTokenBucket)
    → key ≢ other
    → Dict.get (take key cost now s).1.buckets other ≡ Dict.get s.buckets other
unfolding take
take-other key other cost now s h = ground (
  arith,
  ==_iff key other,
  get-put s.buckets key other
      (spend cost now
        (refill s.rate s.capacity now (bucket_or_full s.capacity now (Dict.get s.buckets key)))).1,
)

-- What a take leaves in the bucket.
record Taken (key : String) (cost now : ℕ) (s : InProcessTokenBucket) (b : Bucket) (r : Permit)
    (s' : InProcessTokenBucket) : Type 0 where
  after : Bucket
  found : Dict.get s'.buckets key ≡ some after
  stamped : after.last ≡ now
  full : after.tokens ≤ s.capacity
  spent : cost_of r cost + after.tokens ≤ b.tokens + (now - b.last) * s.rate
  same_rate : s'.rate ≡ s.rate
  same_capacity : s'.capacity ≡ s.capacity

spend-fits :
    (cost now tokens : ℕ)
    → (cost_of (spend cost now tokens).0 cost + (spend cost now tokens).1.tokens ≤ tokens)
      × ((spend cost now tokens).1.last ≡ now)
unfolding spend
spend-fits cost now tokens = ground arith

refill-fits :
    (rate capacity now : ℕ) (b : Bucket)
    → (refill rate capacity now b ≤ capacity)
      × (refill rate capacity now b ≤ b.tokens + (now - b.last) * rate)
unfolding refill
refill-fits rate capacity now b = (omega arith, omega arith)

take-Taken :
    (key : String) (cost now : ℕ) (s : InProcessTokenBucket) (b : Bucket)
    → bucket_or_full s.capacity now (Dict.get s.buckets key) ≡ b
    → Taken key cost now s b (take key cost now s).0 (take key cost now s).1
unfolding take
take-Taken key cost now s b f =
    let amount = refill s.rate s.capacity now b in
    let (fits, stamp) = spend-fits cost now amount in
    let (cap, flow) = refill-fits s.rate s.capacity now b in
    record {
      after = (spend cost now amount).1;
      found =
          ground (arith, f, get-put s.buckets key key (spend cost now amount).1, ==_iff key key);
      stamped = stamp;
      full = omega (arith, fits, cap);
      spent = rw f (omega (arith, fits, flow));
      same_rate = refl;
      same_capacity = refl;
    }

span : (a b c r : ℕ) → a ≤ b → b ≤ c → (b - a) * r + (c - b) * r ≡ (c - a) * r
span a b c r h k = grind arith

Ordered-le : (start end : ℕ) (cs : List Call) → Ordered start end cs → start ≤ end
Ordered-le start end [] o = o
Ordered-le start end (c ∷ cs) o = omega (arith, Ordered-le c.at end cs o.1)

-- One call, and the calls behind it.
chain :
    (key : String) (x : Call) (cs : List Call) (s : InProcessTokenBucket) (b : Bucket) (end : ℕ)
    (t : Taken key x.cost x.at s b (take key x.cost x.at s).0 (take key x.cost x.at s).1)
    → b.last ≤ x.at
    → x.at ≤ end
    → granted_cost key cs (take key x.cost x.at s).1
      ≤ t.after.tokens + (end - t.after.last) * (take key x.cost x.at s).1.rate
    → granted_cost key (x ∷ cs) s ≤ b.tokens + (end - b.last) * s.rate
unfolding granted_cost
chain key x cs s b end t h k later =
    let later' = rw (t.stamped, t.same_rate) at later in
    omega (arith, later', t.spent, span b.last x.at end s.rate h k)

-- From a bucket with some tokens, the calls are granted these and what flows in.
within :
    (key : String) (cs : List Call) (s : InProcessTokenBucket) (b : Bucket) (end : ℕ)
    → Dict.get s.buckets key ≡ some b
    → Ordered b.last end cs
    → granted_cost key cs s ≤ b.tokens + (end - b.last) * s.rate
unfolding granted_cost bucket_or_full
within key [] s b end f o = omega arith
within key (x ∷ cs) s b end f o =
    let t = take-Taken key x.cost x.at s b (rw f) in
    chain key x cs s b end t o.0 (Ordered-le x.at end cs o.1) (
      within key cs (take key x.cost x.at s).1 t.after end t.found
        (subst (λ l. Ordered l end cs) (sym t.stamped) o.1))

-- Over any run of takes of a key that the bucket does not know at first, in the order of the clock
-- from `start` to `end`: the costs that were granted are together at most the capacity and what
-- flows in at the rate in that time.
pub granted_cost-le :
    (key : String) (cs : List Call) (s : InProcessTokenBucket) (start end : ℕ)
    → Dict.get s.buckets key ≡ none
    → Ordered start end cs
    → granted_cost key cs s ≤ s.capacity + (end - start) * s.rate
unfolding granted_cost bucket_or_full
granted_cost-le key [] s start end f o = omega arith
granted_cost-le key (x ∷ cs) s start end f o =
    let b : Bucket = record { tokens = s.capacity; last = x.at } in
    let t = take-Taken key x.cost x.at s b (rw f) in
    let last = Ordered-le x.at end cs o.1 in
    let first = chain key x cs s b end t (omega arith) last (
      within key cs (take key x.cost x.at s).1 t.after end t.found
        (subst (λ l. Ordered l end cs) (sym t.stamped) o.1)) in
    omega (arith, first, span start x.at end s.rate o.0 last)

-- A cost above the capacity is never granted, whatever the wait.
pub take-ne_granted :
    (key : String) (cost now : ℕ) (s : InProcessTokenBucket)
    → s.capacity < cost
    → (take key cost now s).0 ≢ granted
unfolding take refill spend
take-ne_granted key cost now s h = ground arith

take-capacity :
    (key : String) (cost now : ℕ) (s : InProcessTokenBucket)
    → (take key cost now s).1.capacity ≡ s.capacity
unfolding take
take-capacity key cost now s = refl

-- For a cost above the capacity `acquire` never returns with a permit: it waits, times out or is
-- cancelled, whatever the clock shows in its rounds.
pub acquire-ne_ok :
    (rounds : List Round) (key : String) (cost deadline : ℕ) (s : InProcessTokenBucket)
    → s.capacity < cost
    → (acquire rounds key cost deadline s).0 ≢ some (ok tt)
unfolding acquire
acquire-ne_ok [] key cost deadline s h = λ e. cc
acquire-ne_ok (r ∷ rounds) key cost deadline s h =
    let denied = take-ne_granted key cost r.now s h in
    let later =
      acquire-ne_ok rounds key cost deadline (take key cost r.now s).1
        (rw (take-capacity key cost r.now s) h) in
    λ e. ground (arith, denied, later)
