-- ===== src/Providers/RateLimit/Redis.antt =====
-- The Lua script of src/foundry/providers/rate_limit.py, which runs as one step on the Redis server,
-- and `_try_acquire` around it. Lua's numbers are floats; here the arithmetic is exact. A key of
-- Redis that has expired is gone, which is a step of the environment and not of the script.
use agent_foundry.Prelude.{
  ℕ, ◌+◌, ◌-◌, ◌*◌, ◌/◌, ◌≤◌, ◌<◌, min, ◌≡◌, Bool, true, false, Option, some, arith, if◌then◌else◌,
  ltb, leb, refl, Bool-cases, inl, inr, String, subst, sym, ap, ◌∙◌, eq_string, ==-refl, eq_nat,
}
use mathlib.Core.Option
use native.Mathlib.Nat.{div-add-mod, mod-lt}
use agent_foundry.Prelude.Dict
use agent_foundry.Prelude.Dict.{get-put}
use agent_foundry.Providers.RateLimit.{
  Bucket, Permit, granted, deferred, bucket_or_full, refill, spend, take, InProcessTokenBucket,
}

-- The two keys of a bucket.
pub record Store : Type 0 where
  pub tokens : Option ℕ
  pub last : Option ℕ

-- `math.ceil(n / d)` for a positive d.
abbrev ceil_div : ℕ → ℕ → ℕ
ceil_div n d = (n + d - 1) / d

-- The reply: granted or not, and the wait in milliseconds.
pub record Reply : Type 0 where
  pub granted : Bool
  pub wait_ms : ℕ

unfoldable pub acquire_lua : ℕ → ℕ → ℕ → ℕ → Store → Reply × Store
acquire_lua rate_ms capacity cost now s =
    let tokens0 = Option.get_or s.tokens capacity in
    let last0 = Option.get_or s.last now in
    let forward = ltb last0 now in
    let tokens = (if forward then min capacity (tokens0 + (now - last0) * rate_ms) else tokens0) in
    let last = (if forward then now else last0) in
    if leb cost tokens
    then (
      record { granted = true; wait_ms = 0 },
      record { tokens = some (tokens - cost); last = some last },
    )
    else (
      record { granted = false; wait_ms = ceil_div (cost - tokens) rate_ms },
      record { tokens = some tokens; last = some last },
    )

-- The bucket that the two keys stand for at a time: full where they are gone.
abbrev pub view : ℕ → ℕ → Store → Bucket
view capacity now s = record {
  tokens = Option.get_or s.tokens capacity;
  last = Option.get_or s.last now;
}

ceil_enough : (n d : ℕ) → 0 < d → n ≤ ceil_div n d * d
ceil_enough n d h = omega (arith, div-add-mod (n + d - 1) d, mod-lt (n + d - 1) h)

ceil_close : (n d : ℕ) → 0 < d → ceil_div n d * d < n + d
ceil_close n d h = omega (arith, div-add-mod (n + d - 1) d, mod-lt (n + d - 1) h)

-- A reply says what a permit does: granted, or a wait that is the permit's, rounded up to a
-- millisecond.
abbrev pub SameReply : ℕ → Reply → Permit → Type 0
SameReply rate r granted = r.granted ≡ true
SameReply rate r (deferred wait) =
    (r.granted ≡ false) × ((wait ≤ r.wait_ms * rate) × (r.wait_ms * rate < wait + rate))

-- What the script does with an amount of tokens that is refilled.
abbrev lua_spend : ℕ → ℕ → ℕ → ℕ → Reply × Store
lua_spend rate cost now amount =
    if leb cost amount
    then (
      record { granted = true; wait_ms = 0 },
      record { tokens = some (amount - cost); last = some now },
    )
    else (
      record { granted = false; wait_ms = ceil_div (cost - amount) rate },
      record { tokens = some amount; last = some now },
    )

acquire_lua-lua_spend :
    (rate capacity cost now : ℕ) (s : Store)
    → (view capacity now s).last ≤ now
    → (view capacity now s).tokens ≤ capacity
    → acquire_lua rate capacity cost now s
      ≡ lua_spend rate cost now (refill rate capacity now (view capacity now s))
unfolding acquire_lua refill
acquire_lua-lua_spend rate capacity cost now s h k = ground arith

lua_spend-spend :
    (rate capacity cost now amount : ℕ)
    → 0 < rate
    → amount ≤ capacity
    → let r = lua_spend rate cost now amount in
      SameReply rate r.0 (spend cost now amount).0
      × ((view capacity now r.1 ≡ (spend cost now amount).1)
          × ((view capacity now r.1).tokens ≤ capacity))
unfolding spend
lua_spend-spend rate capacity cost now amount r le = elim (Bool-cases (leb cost amount)) [
  | inl covered ↦ rw covered (refl, (refl, omega (arith, le)))
  | inr short ↦
      rw short (
        (refl, (ceil_enough (cost - amount) rate r, ceil_close (cost - amount) rate r)),
        (refl, le),
      )
]

acquire_lua-spend :
    (rate capacity cost now : ℕ) (s : Store) (b : Bucket)
    → 0 < rate
    → b ≡ view capacity now s
    → b.last ≤ now
    → b.tokens ≤ capacity
    → let r = acquire_lua rate capacity cost now s in
      let local = spend cost now (refill rate capacity now b) in
      SameReply rate r.0 local.0
      × ((view capacity now r.1 ≡ local.1) × ((view capacity now r.1).tokens ≤ capacity))
unfolding refill
acquire_lua-spend rate capacity cost now s b r same h k = rw same (
    rw
      (acquire_lua-lua_spend rate capacity cost now s (subst (λ b'. b'.last ≤ now) same h)
        (subst (λ b'. b'.tokens ≤ capacity) same k))
      (lua_spend-spend rate capacity cost now (refill rate capacity now (view capacity now s)) r
        (ground arith)))

-- For a positive rate, while the server's clock does not go back and the bucket has no more than its
-- capacity, the script does what the in-process bucket does when both start from the same tokens and
-- time: it grants exactly where that does, or replies with the same wait, rounded up to a
-- millisecond; it leaves the same tokens and time; and again no more than the capacity.
pub acquire_lua-refines :
    (key : String) (cost now : ℕ) (s : Store) (local : InProcessTokenBucket)
    → 0 < local.rate
    → bucket_or_full local.capacity now (Dict.get local.buckets key) ≡ view local.capacity now s
    → (view local.capacity now s).last ≤ now
    → (view local.capacity now s).tokens ≤ local.capacity
    → let r = acquire_lua local.rate local.capacity cost now s in
      let taken = take key cost now local in
      SameReply local.rate r.0 taken.0
      × ((Dict.get taken.1.buckets key ≡ some (view local.capacity now r.1))
          × ((view local.capacity now r.1).tokens ≤ local.capacity))
unfolding take
acquire_lua-refines key cost now s local r same h k =
    let b = bucket_or_full local.capacity now (Dict.get local.buckets key) in
    let (permit, b') = spend cost now (refill local.rate local.capacity now b) in
    let (reply, (kept, bound)) =
      acquire_lua-spend local.rate local.capacity cost now s b r same
        (subst (λ b'. b'.last ≤ now) (sym same) h)
        (subst (λ b'. b'.tokens ≤ local.capacity) (sym same) k) in
    (
      reply,
      (
        get-put local.buckets key key b'
            ∙ (ap (λ t. if t then some b' else Dict.get local.buckets key) (==-refl key)
                ∙ ap some (sym kept)),
        bound,
      ),
    )

-- Whatever the server's clock says, a step does not move the bucket's time back.
pub acquire_lua-last :
    (rate capacity cost now : ℕ) (s : Store)
    → (view capacity now s).last ≤ (view capacity now (acquire_lua rate capacity cost now s).1).last
unfolding acquire_lua
acquire_lua-last rate capacity cost now s = ground arith

-- Where the server's clock is not ahead of the bucket's time, no tokens flow in.
pub acquire_lua-rewound :
    (rate capacity cost now : ℕ) (s : Store)
    → now ≤ (view capacity now s).last
    → (view capacity now (acquire_lua rate capacity cost now s).1).tokens
      ≤ (view capacity now s).tokens
unfolding acquire_lua
acquire_lua-rewound rate capacity cost now s h = ground arith
