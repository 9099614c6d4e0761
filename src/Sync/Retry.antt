-- ===== src/Sync/Retry.antt =====
-- When a failed run is tried again: `computeRetryDelayMs`, `computeNextRetryAt` and
-- `computeNextRetryAtForErrors`. Times are milliseconds; `unit` is the 32-bit random word that
-- `randomUnit` divides by 2 ^ 32.
use hushvault.Base.{
  ℕ, ◌+◌, ◌-◌, ◌*◌, ◌/◌, ◌^◌, ◌≤◌, ◌<◌, min, max, ◌≡◌, ◌≢◌, sym, ap, Bool, true, false, not, ◌||◌,
  Option, none, some, List, [], ◌∷◌, find, any, leb, if◌then◌else◌, or_else, arith, inl, inr,
  Bool-cases,
}
use native.Mathlib.Nat.{mul-le-mul_right}
use hushvault.Sync.Plan.{
  Code, provider_auth, provider_rate_limit, provider_validation, provider_error, target_not_found,
  timeout, computed_error, credential_unavailable, decryption_failed, target_not_allowed,
}
use hushvault.Sync.Execute.{is_code, has_code, code_rank}

abbrev pub max_sync_attempts : ℕ
max_sync_attempts = 5

abbrev pub retry_base_ms : ℕ
retry_base_ms = 30000

abbrev pub retry_cap_ms : ℕ
retry_cap_ms = 15 * 60000

abbrev pub rate_limit_min_wait_ms : ℕ
rate_limit_min_wait_ms = 5 * 60000

abbrev retryable : List Code
retryable = provider_rate_limit ∷ provider_error ∷ timeout ∷ []

abbrev attention : List Code
attention =
    provider_auth ∷ provider_validation ∷ target_not_found ∷ computed_error ∷ credential_unavailable
    ∷ decryption_failed ∷ target_not_allowed ∷ []

unfoldable pub is_retryable_sync_error : Option Code → Bool
is_retryable_sync_error none = false
is_retryable_sync_error (some c) = has_code retryable c

unfoldable pub needs_attention : List Code → Bool
needs_attention errors = any (λ c. has_code attention c) errors

unfoldable pub backoff : ℕ → ℕ
backoff attempt = min retry_cap_ms (retry_base_ms * 2 ^ (attempt - 1))

-- `Math.round(exp / 2 + random() * (exp / 2))`: half an exponent and as much of the other half as
-- `unit` says, rounded to the nearest, a tie upwards. Both factors are even.
unfoldable pub compute_retry_delay_ms : (attempt unit : ℕ) → ℕ
unfolding backoff
compute_retry_delay_ms attempt unit =
    let half = backoff attempt / 2 in half + (unit * half + 2 ^ 31) / 2 ^ 32

unfoldable pub at_least_limit : Bool → Option ℕ → ℕ → ℕ
at_least_limit limited retry_after delay =
    if limited then max delay (max rate_limit_min_wait_ms (or_else retry_after 0 * 1000)) else delay

-- `retry_after` is never negative.
unfoldable pub compute_next_retry_at : Option Code → (attempt now unit : ℕ) → Option ℕ → Option ℕ
unfolding at_least_limit compute_retry_delay_ms
compute_next_retry_at none attempt now unit retry_after = none
compute_next_retry_at (some code) attempt now unit retry_after =
    if not (is_retryable_sync_error (some code)) || leb max_sync_attempts attempt
    then none
    else some (
        now
        + at_least_limit (is_code code provider_rate_limit) retry_after
            (compute_retry_delay_ms attempt unit))

unfoldable pub compute_next_retry_at_for_errors :
    List Code → (attempt now unit : ℕ) → Option ℕ → Option ℕ
compute_next_retry_at_for_errors errors =
    compute_next_retry_at
      (find (has_code errors) (provider_rate_limit ∷ timeout ∷ provider_error ∷ []))

delay_bounds :
    (attempt unit : ℕ)
    → unit < 2 ^ 32
    → (backoff attempt / 2 ≤ compute_retry_delay_ms attempt unit)
      × (compute_retry_delay_ms attempt unit ≤ backoff attempt)
unfolding compute_retry_delay_ms
delay_bounds attempt unit h =
    let half = backoff attempt / 2 in
    let le : unit * half ≤ 4294967295 * half = mul-le-mul_right half (omega arith) in
    (omega arith, omega arith)

-- What the time of the next attempt promises.
pub record IsNextAttempt (errors : List Code) (attempt now : ℕ) (retry_after : Option ℕ) (time : ℕ)
    : Type 0 where
  pub attempts_left : attempt < max_sync_attempts
  pub some_retryable : any (has_code errors) retryable ≡ true
  pub not_before : now + min retry_cap_ms (retry_base_ms * 2 ^ (attempt - 1)) / 2 ≤ time
  pub limit_respected :
      has_code errors provider_rate_limit ≡ true
      → (now + rate_limit_min_wait_ms ≤ time) × (now + or_else retry_after 0 * 1000 ≤ time)
  pub not_long_after : has_code errors provider_rate_limit ≡ false → time ≤ now + retry_cap_ms

scheduled :
    (code : Code) (attempt now unit : ℕ) (retry_after : Option ℕ) (time : ℕ)
    → compute_next_retry_at (some code) attempt now unit retry_after ≡ some time
    → (attempt < max_sync_attempts)
      × (time
          ≡ now
            + at_least_limit
                (is_code code provider_rate_limit)
                retry_after
                (compute_retry_delay_ms attempt unit))
unfolding compute_next_retry_at
scheduled code attempt now unit retry_after time h =
    elim (Bool-cases (not (is_retryable_sync_error (some code)) || leb max_sync_attempts attempt)) [
      | inl c ↦ let e = rw c at h in cc
      | inr c ↦ (ground arith, ap (λ o. or_else o 0) (sym (rw c at h)))
    ]

never :
    (attempt now unit : ℕ) (retry_after : Option ℕ) (time : ℕ)
    → compute_next_retry_at none attempt now unit retry_after ≢ some time
unfolding compute_next_retry_at
never attempt now unit retry_after time h = cc

-- A run is tried again only if fewer than five attempts were made and one of its errors may pass;
-- never sooner than half the backoff of its attempt; after a rate limit, not within five minutes
-- nor before the provider's Retry-After; and otherwise within fifteen minutes.
pub next_retry-window :
    (errors : List Code) (attempt now unit : ℕ) (retry_after : Option ℕ) (time : ℕ)
    → unit < 2 ^ 32
    → compute_next_retry_at_for_errors errors attempt now unit retry_after ≡ some time
    → IsNextAttempt errors attempt now retry_after time
unfolding compute_next_retry_at_for_errors at_least_limit backoff is_code code_rank
next_retry-window errors attempt now unit retry_after time u h =
    let (low, high) = delay_bounds attempt unit u in
    elim (Bool-cases (has_code errors provider_rate_limit)) [
      | inl limited ↦
          let (a, e) =
            scheduled provider_rate_limit attempt now unit retry_after time (rw limited at h) in
          record {
            attempts_left = a;
            some_retryable = ground (arith, limited);
            not_before = omega arith;
            limit_respected = λ k. (omega arith, omega arith);
            not_long_after = λ k. absurd (ground arith);
          }
      | inr free ↦ elim (Bool-cases (has_code errors timeout)) [
        | inl slow ↦
            let (a, e) =
              scheduled timeout attempt now unit retry_after time (rw (free, slow) at h) in
            record {
              attempts_left = a;
              some_retryable = ground (arith, slow);
              not_before = omega arith;
              limit_respected = λ k. absurd (ground arith);
              not_long_after = λ k. omega arith;
            }
        | inr quick ↦ elim (Bool-cases (has_code errors provider_error)) [
          | inl failed ↦
              let (a, e) =
                scheduled provider_error attempt now unit retry_after time
                  (rw (free, quick, failed) at h) in
              record {
                attempts_left = a;
                some_retryable = ground (arith, failed);
                not_before = omega arith;
                limit_respected = λ k. absurd (ground arith);
                not_long_after = λ k. omega arith;
              }
          | inr passed ↦
              absurd (never attempt now unit retry_after time (rw (free, quick, passed) at h))
        ]
      ]
    ]
