-- ===== src/Auth/TokenCache/Freshness.antt =====
-- What the token cache of src/foundry/auth/token_cache.py hands out, and how often it fetches.
use agent_foundry.Prelude.{
  ℕ, String, ◌≡◌, ◌⊎◌, inl, inr, ◌+◌, ◌<◌, Option-cases, true, false, none, some, arith, Result, ok,
  err, eq_string, ==_iff,
}
use agent_foundry.Prelude.Dict
use agent_foundry.Prelude.Dict.{get-put, get-pop}
use agent_foundry.Auth.TokenCache.{
  CachedToken, Tokens, is_fresh, fresh_token, under_lock, get_or_fetch,
}

-- A token expires later than the buffer from now, or never.
abbrev pub LastsLonger : ℕ → ℕ → CachedToken → Type 0
LastsLonger now buffer token =
    (expires : ℕ) → token.expires_at ≡ some expires → now + buffer < expires

is_fresh-LastsLonger :
    (now buffer : ℕ) (token : CachedToken)
    → is_fresh now buffer token ≡ true
    → LastsLonger now buffer token
unfolding is_fresh
is_fresh-LastsLonger now buffer token h expires e = ground (arith, h, e)

LastsLonger-is_fresh :
    (now buffer : ℕ) (token : CachedToken)
    → LastsLonger now buffer token
    → is_fresh now buffer token ≡ true
unfolding is_fresh
LastsLonger-is_fresh now buffer token h = elim (Option-cases token.expires_at) [
  | inl never ↦ ground (arith, never)
  | inr (expires, e) ↦ ground (arith, e, h expires e)
]

-- Where a token that is returned comes from: it was cached at the first look or when the lock was
-- held, and then lasted longer than the buffer; or it was fetched, and no cached token lasted so long.
abbrev pub ComesFrom :
    String → Result String CachedToken → ℕ → ℕ → ℕ → Tokens → Tokens → CachedToken → Type 0
ComesFrom key fetch now later buffer before held token =
    ((Dict.get before key ≡ some token) × LastsLonger now buffer token)
    ⊎ ((Dict.get held key ≡ some token) × LastsLonger later buffer token)
    ⊎ ((fetch ≡ ok token)
        × ((t : CachedToken) → (Dict.get before key ≡ some t) → ¬ LastsLonger now buffer t)
        × ((t : CachedToken) → (Dict.get held key ≡ some t) → ¬ LastsLonger later buffer t))

fresh_token-LastsLonger :
    (key : String) (now buffer : ℕ) (s : Tokens) (token : CachedToken)
    → fresh_token key now buffer s ≡ some token
    → (Dict.get s key ≡ some token) × LastsLonger now buffer token
unfolding fresh_token
fresh_token-LastsLonger key now buffer s token h = (
  ground (arith, h),
  λ expires e. is_fresh-LastsLonger now buffer token (ground (arith, h)) expires e,
)

fresh_token-eq_none :
    (key : String) (now buffer : ℕ) (s : Tokens) (t : CachedToken)
    → fresh_token key now buffer s ≡ none
    → Dict.get s key ≡ some t
    → ¬ LastsLonger now buffer t
unfolding fresh_token
fresh_token-eq_none key now buffer s t h e lasts =
    absurd (ground (arith, h, e, LastsLonger-is_fresh now buffer t lasts))

-- A token that is returned was cached, at the first look or when the lock was held, and lasted then
-- longer than the buffer; or it was just fetched, and neither look found a token that lasted so long.
pub get_or_fetch-fresh :
    (key : String) (fetch : Result String CachedToken) (now later buffer : ℕ) (before held : Tokens)
    (token : CachedToken)
    → (get_or_fetch key fetch now later buffer before held).0.result ≡ ok token
    → ComesFrom key fetch now later buffer before held token
unfolding get_or_fetch
get_or_fetch-fresh key fetch now later buffer before held token h =
    elim (Option-cases (fresh_token key now buffer before)) [
      | inr (t, hit) ↦
          inl (fresh_token-LastsLonger key now buffer before token (ground (arith, h, hit)))
      | inl missed ↦ elim (Option-cases (fresh_token key later buffer held)) [
        | inr (t, hit) ↦ inr (
            inl (
              fresh_token-LastsLonger key later buffer held token (ground (arith, h, missed, hit))))
        | inl gone ↦ inr (
            inr (
              ground (arith, h, missed, gone),
              λ t. fresh_token-eq_none key now buffer before t missed,
              λ t. fresh_token-eq_none key later buffer held t gone,
            ))
      ]
    ]

hit_after_put :
    (key : String) (token : CachedToken) (later buffer : ℕ) (s : Tokens)
    → is_fresh later buffer token ≡ true
    → fresh_token key later buffer (Dict.put s key token) ≡ some token
unfolding fresh_token
hit_after_put key token later buffer s fresh =
    ground (arith, get-put s key key token, ==_iff key key)

-- Two tasks that both miss and wait for the key's lock cause one fetch: if the first fetches a
-- token that is fresh when the second holds the lock, the second returns that token and fetches
-- nothing, whatever its own fetch would have given.
pub under_lock-coalesces :
    (key : String) (other : Result String CachedToken) (token : CachedToken) (now later buffer : ℕ)
    (s : Tokens)
    → fresh_token key now buffer s ≡ none
    → is_fresh later buffer token ≡ true
    → let first = under_lock key (ok token) now buffer s in
      let second = under_lock key other later buffer first.1 in
      (first.0.fetched ≡ true)
      × (second.0.result ≡ ok token)
      × (second.0.fetched ≡ false)
      × (second.1 ≡ first.1)
unfolding under_lock
under_lock-coalesces key other token now later buffer s miss fresh =
    ground (arith, hit_after_put key token later buffer s fresh)

-- A fetch that raises leaves the tokens as they were, so the next call fetches again.
pub under_lock-failure :
    (key name : String) (now buffer : ℕ) (s : Tokens)
    → fresh_token key now buffer s ≡ none
    → let r = under_lock key (err name) now buffer s in (r.0.result ≡ err name) × (r.1 ≡ s)
unfolding under_lock
under_lock-failure key name now buffer s miss = ground arith
