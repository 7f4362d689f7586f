-- ===== src/Providers.antt =====
-- foundry/providers: the rate limits of provider calls.
pub mod RateLimit
