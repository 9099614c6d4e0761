-- ===== src/RateLimit/Memory.antt =====
-- apps/api/src/middleware/rate-limit.ts: the in-memory limiter, which stands in for the Durable
-- Object, and the middleware's decision. Keys are the texts `scope:identity`; the map is a list in
-- insertion order.
use hushvault.Base.{
  ℕ, ◌+◌, ◌-◌, ◌/◌, max, Option, none, some, Bool, true, false, not, List, [], ◌∷◌, ltb, leb, ◌==◌,
  ◌&&◌, if◌then◌else◌, Text, same, length, filter,
}
use hushvault.RateLimit.{RateLimitResult, WindowState, consume_rate_limit}

abbrev pub Windows : Type 0
Windows = List (Text × WindowState)

abbrev pub memory_max_entries : ℕ
memory_max_entries = 10000

unfoldable pub get : Text → Windows → Option WindowState
get key [] = none
get key ((k, s) ∷ rest) = if same k key then some s else get key rest

unfoldable pub put : Text → WindowState → Windows → Windows
put key s [] = (key, s) ∷ []
put key s ((k, old) ∷ rest) = if same k key then (k, s) ∷ rest else (k, old) ∷ put key s rest

-- What is dropped when the map has grown too large: the ended windows, and all if that is not enough.
unfoldable pub evict : (now window_ms : ℕ) → Windows → Windows
evict now window_ms windows =
    if ltb memory_max_entries (length windows)
    then (let live = filter (λ e. not (leb (e.1.window_start + window_ms) now)) windows in
        if ltb memory_max_entries (length live) then [] else live)
    else windows

unfoldable pub set_back : Text → Windows → Option WindowState → Windows
set_back key windows none = windows
set_back key windows (some s) = put key s windows

unfoldable pub consume_in_memory :
    Windows → Text → (now limit window_ms : ℕ) → Windows × RateLimitResult
consume_in_memory memory key now limit window_ms =
    let windows = evict now window_ms memory in
    let (stored, result) = consume_rate_limit (get key windows) now limit window_ms in
    (set_back key windows stored, result)

-- Whether one call of the in-memory limiter works, or throws and leaves the map as given.
pub data Attempt : Type 0 where
  works : Attempt
  throws : (left : Windows) → Attempt

unfoldable pub attempt_in_memory :
    Attempt → Windows → Text → (now limit window_ms : ℕ) → Windows × Option RateLimitResult
attempt_in_memory (throws left) memory key now limit window_ms = (left, none)
attempt_in_memory works memory key now limit window_ms =
    let (memory', result) = consume_in_memory memory key now limit window_ms in
    (memory', some result)

-- `RATE_LIMITER`: not bound, or the object's answer, or a failure of the call.
pub data Backend : Type 0 where
  unbound failing : Backend
  answers : RateLimitResult → Backend

-- `unmetered` is `next()` without any limit, the path that is logged as `rate_limit.disabled`.
pub data Response : Type 0 where
  next : (remaining : ℕ) → Response
  too_many : (retry_after : ℕ) → Response
  unavailable unmetered : Response

-- The last part of the middleware; `later` is the clock when the answer is written.
unfoldable pub respond : RateLimitResult → (later : ℕ) → Response
respond result later =
    if result.allowed
    then next result.remaining
    else too_many (max 1 ((result.reset_ms - later + 999) / 1000))

unfoldable pub fall_back : (later : ℕ) → Windows × Option RateLimitResult → Windows × Response
unfolding respond
fall_back later (memory, some result) = (memory, respond result later)
fall_back later (memory, none) = (memory, unmetered)

-- The outer `catch`: `second` is the call of the in-memory limiter that it makes.
unfoldable pub degrade :
    (fail_closed : Bool)
    → (second : Attempt) → Windows
    → Text
    → (now later limit window_ms : ℕ) → Windows × Response
unfolding attempt_in_memory fall_back
degrade true second memory key now later limit window_ms = (memory, unavailable)
degrade false second memory key now later limit window_ms =
    fall_back later (attempt_in_memory second memory key now limit window_ms)

unfoldable pub respond_or_degrade :
    (fail_closed : Bool)
    → (second : Attempt) → Text
    → (now later limit window_ms : ℕ) → Windows × Option RateLimitResult
    → Windows × Response
unfolding respond degrade
respond_or_degrade fail_closed second key now later limit window_ms (memory, some result) =
    (memory, respond result later)
respond_or_degrade fail_closed second key now later limit window_ms (memory, none) =
    degrade fail_closed second memory key now later limit window_ms

-- `first` is the call of the in-memory limiter where no object is bound.
unfoldable pub middleware :
    (fail_closed : Bool)
    → Backend
    → (first second : Attempt) → Windows
    → Text
    → (now later limit window_ms : ℕ) → Windows × Response
unfolding respond attempt_in_memory respond_or_degrade degrade
middleware fail_closed (answers result) first second memory key now later limit window_ms =
    (memory, respond result later)
middleware fail_closed unbound first second memory key now later limit window_ms =
    respond_or_degrade fail_closed second key now later limit window_ms
      (attempt_in_memory first memory key now limit window_ms)
middleware fail_closed failing first second memory key now later limit window_ms =
    degrade fail_closed second memory key now later limit window_ms

abbrev pub identity_answer : Option RateLimitResult → Option (Bool × ℕ)
identity_answer none = none
identity_answer (some r) = some (r.allowed, r.remaining)

-- `consumeIdentityLimit`: none is `{ unavailable: true }`.
unfoldable pub consume_identity_limit :
    Backend → Attempt → Windows → Text → (now limit window_ms : ℕ) → Windows × Option (Bool × ℕ)
unfolding attempt_in_memory
consume_identity_limit (answers r) first memory key now limit window_ms =
    (memory, some (r.allowed, r.remaining))
consume_identity_limit unbound first memory key now limit window_ms =
    let (memory', r) = attempt_in_memory first memory key now limit window_ms in
    (memory', identity_answer r)
consume_identity_limit failing first memory key now limit window_ms = (memory, none)

-- The throttle of the limiter's own failure lines, for one event name: what is suppressed since the
-- last line, and the time of that line (0 for none).
pub record Degraded : Type 0 where
  pub count : ℕ
  pub logged_at : ℕ

abbrev pub degraded_log_window_ms : ℕ
degraded_log_window_ms = 60000

abbrev pub quiet : Degraded
quiet = record { count = 0; logged_at = 0 }

-- The occurrences on the line that is written, if one is.
unfoldable pub log_degraded : Degraded → (now : ℕ) → Degraded × Option ℕ
log_degraded s now =
    if not (s.logged_at == 0) && ltb (now - s.logged_at) degraded_log_window_ms
    then (record { count = s.count + 1; logged_at = s.logged_at }, none)
    else (record { count = 0; logged_at = now }, some (s.count + 1))
