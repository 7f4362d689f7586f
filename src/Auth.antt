-- ===== src/Auth.antt =====
-- foundry/auth: the cache of short-lived tokens.
pub mod TokenCache
