-- ===== src/Core/Tool/Retries.antt =====
-- The retry loop of src/foundry/core/tool.py: it ends, how often it calls the handler, and what it
-- sleeps.
use agent_foundry.Prelude.{
  ℕ, max, if◌then◌else◌, Result-cases, zero, suc, ◌+◌, ◌-◌, ◌≤◌, ◌<◌, ◌≡◌, ◌⊎◌, refl, Bool, true,
  false, some, List, Result, [], ◌∷◌, ◌++◌, arith, All, All-append, length, length-append, ok, err,
  contains, eq_string, Bool-cases, inl, inr,
}
use agent_foundry.Core.Tool.{
  World, RegisteredTool, RetryPolicy, Ended, Exn, Reaction, reaction, propagate, refreshed, delayed,
  raises, uncaught, approval_required, connection_auth_error, cancelled_error, run_cancelled,
  one_attempt, run, run_with_retries, delay_for, exn_name,
}

-- A delay is at most the policy's.
delay_for-le : (policy : RetryPolicy) (attempt : ℕ) → delay_for policy attempt ≤ policy.max_delay
unfolding delay_for
delay_for-le policy attempt = omega arith

-- The loop goes on after a refresh only once, and after a delay only below the limit.
refreshed_once :
    (policy : RetryPolicy) (on : Bool) (answer : Result Exn Bool) (used : Bool) (attempt : ℕ)
    (e : Exn)
    → reaction policy on answer used attempt e ≡ refreshed
    → used ≡ false
unfolding reaction
refreshed_once policy on answer used attempt approval_required h = cc
refreshed_once policy on (ok b) used attempt connection_auth_error h = ground arith
refreshed_once policy on (err x) used attempt connection_auth_error h = ground arith
refreshed_once policy on answer used attempt _ h = ground arith

delayed_below :
    (policy : RetryPolicy) (on : Bool) (answer : Result Exn Bool) (used : Bool) (attempt : ℕ)
    (e : Exn)
    → reaction policy on answer used attempt e ≡ delayed
    → (attempt < policy.max_attempts) × (contains (exn_name e) policy.retryable_errors ≡ true)
unfolding reaction
delayed_below policy on answer used attempt approval_required h = cc
delayed_below policy on (ok b) used attempt connection_auth_error h = ground arith
delayed_below policy on (err x) used attempt connection_auth_error h = ground arith
delayed_below policy on answer used attempt (uncaught name) h = cc
delayed_below policy on answer used attempt cancelled_error h = cc
delayed_below policy on answer used attempt run_cancelled h = ground arith
delayed_below policy on answer used attempt _ h = ground arith

Reaction-cases :
    (r : Reaction)
    → ((r ≡ propagate) ⊎ ((x : Exn) × (r ≡ raises x))) ⊎ ((r ≡ refreshed) ⊎ (r ≡ delayed))
Reaction-cases propagate = inl (inl refl)
Reaction-cases (raises x) = inl (inr (x, refl))
Reaction-cases refreshed = inr (inl refl)
Reaction-cases delayed = inr (inr refl)

-- The limits of a run.
pub record IsWithin {Output : Type 0} (policy : RetryPolicy) (e : Ended Output) : Type 0 where
  pub retries : e.retry_count ≤ max 1 policy.max_attempts
  pub sleeps : length e.slept ≤ policy.max_attempts - 1
  pub delays : All (λ d. d ≤ policy.max_delay) e.slept

module _ {Output : Type 0} (w : World Output) (tool : RegisteredTool) (policy : RetryPolicy) where
  run_total :
      (fuel attempt : ℕ) (used : Bool) (slept : List ℕ)
      → attempt + fuel ≡ policy.max_attempts + 3
      → attempt ≤ max 1 policy.max_attempts + (if used then 1 else 0)
      → length slept + 1 ≤ attempt
      → length slept ≤ policy.max_attempts - 1
      → All (λ d. d ≤ policy.max_delay) slept
      → (e : Ended Output) × (run w tool policy fuel attempt used slept ≡ some e)
        × IsWithin policy e
  unfolding run
  run_total zero attempt used slept f a s m d = absurd (ground arith)
  run_total (suc fuel) attempt used slept f a s m d =
      elim (Result-cases (one_attempt (w.handler attempt))) [
        | inl (v, e) ↦ (
          record { outcome = ok v; retry_count = attempt - 1; slept = slept },
          ground arith,
          record { retries = ground arith; sleeps = m; delays = d },
        )
        | inr (x, e) ↦
            elim (Reaction-cases
              (reaction policy tool.auth_error_retry (w.auth_refreshes attempt) used attempt x)) [
                | inl (inl p) ↦ (
                  record { outcome = err x; retry_count = attempt - 1; slept = slept },
                  ground arith,
                  record { retries = ground arith; sleeps = m; delays = d },
                )
                | inl (inr (y, p)) ↦ (
                  record { outcome = err y; retry_count = attempt - 1; slept = slept },
                  ground arith,
                  record { retries = ground arith; sleeps = m; delays = d },
                )
                | inr (inl r) ↦
                    let once =
                      refreshed_once policy tool.auth_error_retry (w.auth_refreshes attempt) used
                        attempt x r in
                    let (ended, q, good) =
                      run_total fuel (attempt + 1) true slept (omega arith) (ground (arith, once))
                        (omega arith) m d in
                    (ended, ground (arith, q), good)
                | inr (inr r) ↦
                    let (below, _) =
                      delayed_below policy tool.auth_error_retry (w.auth_refreshes attempt) used
                        attempt x r in
                    let delay = delay_for policy attempt in
                    let longer = slept ++ delay ∷ [] in
                    let count = length-append slept (delay ∷ []) in
                    let fits =
                      All-append (λ d. d ≤ policy.max_delay) slept (delay ∷ []) d
                        (delay_for-le policy attempt, tt) in
                    elim (Bool-cases (w.cancelled attempt)) [
                      | inl c ↦ (
                        record {
                          outcome = err run_cancelled;
                          retry_count = attempt - 1;
                          slept = longer;
                        },
                        ground arith,
                        record {
                          retries = ground arith;
                          sleeps = omega (arith, count);
                          delays = fits;
                        },
                      )
                      | inr c ↦
                          let (ended, q, good) =
                            run_total fuel (attempt + 1) used longer (omega arith) (ground arith)
                              (omega (arith, count)) (omega (arith, count)) fits in
                          (ended, ground (arith, q), good)
                    ]
              ]
      ]

-- For every handler, accessor and cancel token the loop ends, and then: it has made at most the
-- policy's retries (of `max_attempts - 1`) and the one after a refreshed connection, it has slept
-- fewer times than the policy's attempts, and no delay was longer than the policy's maximum.
pub run_with_retries_total :
    {Output : Type 0} (w : World Output) (tool : RegisteredTool) (policy : RetryPolicy)
    → (e : Ended Output) × (run_with_retries w tool policy ≡ some e) × IsWithin policy e
unfolding run_with_retries
run_with_retries_total w tool policy =
    run_total w tool policy (policy.max_attempts + 2) 1 false [] (omega arith) (omega arith)
      (omega arith) (omega arith) tt
