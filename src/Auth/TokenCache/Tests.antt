-- ===== src/Auth/TokenCache/Tests.antt =====
-- The token cache at concrete inputs.
use agent_foundry.Prelude.{◌≡◌, refl, some, [], ◌∷◌, ok}
use agent_foundry.Prelude.Dict
use agent_foundry.Auth.TokenCache.{
  CachedToken, Tokens, is_fresh, fresh_token, under_lock, get_or_fetch,
}
use agent_foundry.Auth.TokenCache.Freshness.{ComesFrom, get_or_fetch-fresh}

abbrev old : CachedToken
old = record { value = "old"; expires_at = some 100 }

abbrev new : CachedToken
new = record { value = "new"; expires_at = some 4000 }

abbrev held : Tokens
held = ("oauth", old) ∷ []

program : Unit {0}
unfolding get_or_fetch under_lock fresh_token is_fresh Dict.get Dict.put
program = tt

refreshes_early : (get_or_fetch "oauth" (ok new) 50 50 60 held held).0.result ≡ ok new
unfolding program
refreshes_early = refl

get_or_fetch-fresh_example : ComesFrom "oauth" (ok new) 30 30 60 held held old
get_or_fetch-fresh_example =
    get_or_fetch-fresh "oauth" (ok new) 30 30 60 held held old
      (unfold get_or_fetch under_lock fresh_token is_fresh Dict.get in refl)
