-- ===== src/RateLimit.antt =====
-- The fixed-window rate limiter: `consumeRateLimit` and the Durable Object `RateLimiter` of
-- apps/api/src/lib/rate-limiter-do.ts. Times are milliseconds since the epoch.
pub mod Memory
pub mod Fallback
pub mod Quota
pub mod Alarm
pub mod Doubling
pub mod Tests
use hushvault.Base.{
  ℕ, ◌+◌, ◌-◌, ◌*◌, ◌/◌, ◌≤◌, ◌<◌, ◌≡◌, le→leb, arith, Bool, true, false, ◌&&◌, Option, none, some,
  List, [], ◌∷◌, ltb, leb, ◌==◌, if◌then◌else◌, is_some,
}

pub record RateLimitResult : Type 0 where
  pub allowed : Bool
  pub remaining : ℕ
  pub reset_ms : ℕ

pub record WindowState : Type 0 where
  pub window_start : ℕ
  pub count : ℕ

-- The hits already counted in the window that starts at `start`.
pub counted : Option WindowState → ℕ → ℕ
counted none start = 0
counted (some s) start = if s.window_start == start && ltb 0 s.count then s.count else 0

-- The store is one optional record; the result carries what the store holds afterwards.
pub consume_rate_limit :
    Option WindowState → (now limit window_ms : ℕ) → Option WindowState × RateLimitResult
unfolding counted
consume_rate_limit stored now limit window_ms =
    let start = now / window_ms * window_ms in
    let reset = start + window_ms in
    let count = counted stored start in
    if leb limit count
    then (stored, record { allowed = false; remaining = 0; reset_ms = reset })
    else (
      some (record { window_start = start; count = count + 1 }),
      record { allowed = true; remaining = limit - count - 1; reset_ms = reset },
    )

-- The two outcomes, for proofs that keep `consume_rate_limit` shut.
pub consume_denied :
    (o : Option WindowState) (now limit window_ms : ℕ)
    → limit ≤ counted o (now / window_ms * window_ms)
    → consume_rate_limit o now limit window_ms ≡ (
      o,
      record { allowed = false; remaining = 0; reset_ms = now / window_ms * window_ms + window_ms },
    )
unfolding consume_rate_limit
consume_denied o now limit window_ms h = rw (le→leb _ _ h)

pub consume_allowed :
    (o : Option WindowState) (now limit window_ms : ℕ)
    → let start = now / window_ms * window_ms in
      counted o start < limit
      → consume_rate_limit o now limit window_ms ≡ (
        some (record { window_start = start; count = counted o start + 1 }),
        record {
          allowed = true;
          remaining = limit - counted o start - 1;
          reset_ms = start + window_ms;
        },
      )
unfolding consume_rate_limit
consume_allowed o now limit window_ms h = ground arith

-- What one object stores: the record under its key, and the time of the alarm that is set.
pub record Storage : Type 0 where
  pub window : Option WindowState
  pub alarm : Option ℕ

-- A new object, or one whose alarm has just run.
pub empty : Storage
empty = record { window = none; alarm = none }

-- `hit`: an allowed hit sets the alarm if none is set.
pub hit : Storage → (now limit window_ms : ℕ) → Storage × RateLimitResult
unfolding consume_rate_limit
hit st now limit window_ms =
    let (window, result) = consume_rate_limit st.window now limit window_ms in
    (
      record {
        window = window;
        alarm =
            if result.allowed
            then (if is_some st.alarm then st.alarm else some (result.reset_ms + 1000))
            else st.alarm;
      },
      result,
    )

-- The platform calls `alarm` once the time that was set has come; it then is no longer set.
is_due : Option ℕ → ℕ → Bool
is_due none now = false
is_due (some due) now = leb due now

pub alarm : Storage → ℕ → Storage
unfolding is_due empty
alarm st now = if is_due st.alarm now then empty else st

pub data Event : Type 0 where
  hits alarms : (now : ℕ) → Event

abbrev pub at : Event → ℕ
at (hits now) = now
at (alarms now) = now

-- The hits that a history allows in the window number `w`.
pub allowed_in : (w limit window_ms : ℕ) → Storage → List Event → ℕ
allowed_in w limit window_ms st [] = 0
allowed_in w limit window_ms st (hits now ∷ rest) =
    let (st', result) = hit st now limit window_ms in
    (if result.allowed && now / window_ms == w then 1 else 0)
    + allowed_in w limit window_ms st' rest
allowed_in w limit window_ms st (alarms now ∷ rest) =
    allowed_in w limit window_ms (alarm st now) rest
