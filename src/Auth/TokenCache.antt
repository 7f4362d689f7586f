-- ===== src/Auth/TokenCache.antt =====
-- src/foundry/auth/token_cache.py. `get_or_fetch` looks at the tokens twice: before it waits for the
-- key's lock, and with the lock held, when other tasks may have changed them. Times are whole
-- seconds, and a time limit minus the buffer is moved to the other side.
mod Tests
pub mod Freshness
use agent_foundry.Prelude.{
  ℕ, ◌+◌, String, ◌≡◌, Bool, true, false, Option, none, some, if◌then◌else◌, ltb, Result, ok, err,
  eq_string,
}
use agent_foundry.Prelude.Dict
use agent_foundry.Prelude.Dict.{Dict}

pub record CachedToken : Type 0 where
  pub value : String
  pub expires_at : Option ℕ

abbrev pub Tokens : Type 0
Tokens = Dict String CachedToken

-- `_is_fresh` at a time
unfoldable pub is_fresh : ℕ → ℕ → CachedToken → Bool
is_fresh now buffer token = elim token.expires_at [
  | none ↦ true
  | some expires ↦ ltb (now + buffer) expires
]

-- `cached is not None and self._is_fresh(cached, …)`, with the token.
unfoldable pub fresh_token : String → ℕ → ℕ → Tokens → Option CachedToken
unfolding is_fresh
fresh_token key now buffer s = elim (Dict.get s key) [
  | none ↦ none
  | some token ↦ if is_fresh now buffer token then some token else none
]

-- How a call goes on: what it returns, and whether it fetched.
pub record Got : Type 0 where
  pub result : Result String CachedToken
  pub fetched : Bool

-- The part that holds the key's lock. `fetch` gives the token or raises.
unfoldable pub under_lock : String → Result String CachedToken → ℕ → ℕ → Tokens → Got × Tokens
under_lock key fetch now buffer s = elim (fresh_token key now buffer s) [
  | some token ↦ (record { result = ok token; fetched = false }, s)
  | none ↦ elim fetch [
    | ok token ↦ (record { result = ok token; fetched = true }, Dict.put s key token)
    | err name ↦ (record { result = err name; fetched = true }, s)
  ]
]

-- `before` are the tokens at the first look, `held` those when the lock is held.
unfoldable pub get_or_fetch :
    String → Result String CachedToken → ℕ → ℕ → ℕ → Tokens → Tokens → Got × Tokens
unfolding under_lock
get_or_fetch key fetch now later buffer before held = elim (fresh_token key now buffer before) [
  | some token ↦ (record { result = ok token; fetched = false }, held)
  | none ↦ under_lock key fetch later buffer held
]

unfoldable pub evict : String → Tokens → Tokens
evict key s = Dict.pop s key
