-- ===== src/RateLimit/Fallback.antt =====
-- The in-memory limiter against the limiter of one key, and what the middleware answers.
use hushvault.Base.{
  ℕ, ◌+◌, ◌-◌, ◌/◌, max, ◌≤◌, ◌≡◌, refl, Option, none, some, Bool, true, false, List, [], ◌∷◌,
  arith, ◌⊎◌, inl, inr, if◌then◌else◌, Bool-cases, or_else, Text, same, same_iff, same_refl, length,
  ◌≢◌,
}
use hushvault.RateLimit.{RateLimitResult, WindowState, consume_rate_limit}
use hushvault.RateLimit.Memory.{
  Windows, get, put, set_back, evict, memory_max_entries, consume_in_memory, Backend, unbound,
  failing, answers, Attempt, works, throws, attempt_in_memory, Response, next, too_many,
  unavailable, unmetered, respond, fall_back, degrade, respond_or_degrade, middleware, Degraded,
  log_degraded,
}

pub get-put :
    (k key : Text) (s : WindowState) (m : Windows)
    → get k (put key s m) ≡ (if same key k then some s else get k m)
unfolding get put
get-put k key s [] = refl
get-put k key s ((j, t) ∷ m) =
    ground (arith, get-put k key s m, same_iff j key, same_iff j k, same_iff key k)

evict_small : (now win : ℕ) (m : Windows) → length m ≤ memory_max_entries → evict now win m ≡ m
unfolding evict
evict_small now win m h = ground arith

get-set_back_other :
    (k key : Text) (o : Option WindowState) (m : Windows)
    → k ≢ key
    → get k (set_back key m o) ≡ get k m
unfolding set_back
get-set_back_other k key none m ne = refl
get-set_back_other k key (some s) m ne = ground (arith, get-put k key s m, same_iff key k)

-- The limiter leaves its store empty only where it was.
consume_keeps :
    (o : Option WindowState) (now limit win : ℕ)
    → (consume_rate_limit o now limit win).0 ≡ none
    → o ≡ none
unfolding consume_rate_limit
consume_keeps o now limit win e = ground arith

get-set_back_self :
    (key : Text) (o : Option WindowState) (m : Windows)
    → (o ≡ none → get key m ≡ none)
    → get key (set_back key m o) ≡ o
unfolding set_back
get-set_back_self key none m h = h refl
get-set_back_self key (some s) m h = ground (arith, get-put key key s m, same_refl key)

-- With at most 10,000 entries in the map, a hit on a key does to the window of that key, and
-- answers, what the limiter of one key does, and leaves the windows of the other keys alone.
pub consume_in_memory-refines :
    (m : Windows) (key : Text) (now limit win : ℕ)
    → length m ≤ memory_max_entries
    → let r = consume_in_memory m key now limit win in
      let c = consume_rate_limit (get key m) now limit win in
      (r.1 ≡ c.1) × (get key r.0 ≡ c.0) × ((k : Text) → k ≢ key → get k r.0 ≡ get k m)
unfolding consume_in_memory
consume_in_memory-refines m key now limit win h = rw (evict_small now win m h) (
  refl,
  get-set_back_self key (consume_rate_limit (get key m) now limit win).0 m
      (consume_keeps (get key m) now limit win),
  λ k ne. get-set_back_other k key _ m ne,
)

module _ (fail_closed : Bool) (b : Backend) (first second : Attempt) (m : Windows) (key : Text)
    (now later limit win : ℕ) where
  -- The first part failed, and left a map.
  abbrev pub IsFailed : Windows → Type 0
  IsFailed left = ((b ≡ failing) × (left ≡ m)) ⊎ ((b ≡ unbound) × (first ≡ throws left))

  -- The limiter that decided gave a result: the object, the in-memory one in its place, or the in-memory
  -- one after a failure on a route that fails open.
  abbrev pub IsDecided : RateLimitResult → Type 0
  IsDecided r =
      (b ≡ answers r)
      ⊎ (((b ≡ unbound) × (first ≡ works) × ((consume_in_memory m key now limit win).1 ≡ r))
          ⊎ ((left : Windows) × IsFailed left
              × (fail_closed ≡ false)
              × (second ≡ works)
              × ((consume_in_memory left key now limit win).1 ≡ r)))

  -- What a response says of the limiters.
  abbrev pub Explains : Response → Type 0
  Explains (next n) = (r : RateLimitResult) × IsDecided r × (r.allowed ≡ true) × (r.remaining ≡ n)
  Explains (too_many t) =
      (r : RateLimitResult) × IsDecided r
      × (r.allowed ≡ false)
      × (t ≡ max 1 ((r.reset_ms - later + 999) / 1000))
  Explains unavailable = (left : Windows) × IsFailed left × (fail_closed ≡ true)
  Explains unmetered =
      (left : Windows) × IsFailed left
      × (fail_closed ≡ false)
      × (then_left : Windows) × (second ≡ throws then_left)

  respond-Explains : (r : RateLimitResult) → IsDecided r → Explains (respond r later)
  unfolding respond
  respond-Explains r d = elim (Bool-cases r.allowed) [
    | inl allowed ↦ rw allowed (r, d, allowed, refl)
    | inr denied ↦ rw denied (r, d, denied, refl)
  ]

  degrade-Explains :
      (left : Windows) (f : Bool) (s : Attempt)
      → IsFailed left
      → fail_closed ≡ f
      → second ≡ s
      → Explains (degrade f s left key now later limit win).1
  unfolding degrade fall_back attempt_in_memory
  degrade-Explains left true s h e k = (left, h, e)
  degrade-Explains left false works h e k =
      respond-Explains (consume_in_memory left key now limit win).1
        (inr (inr (left, h, e, k, refl)))
  degrade-Explains left false (throws then_left) h e k = (left, h, e, then_left, k)

  unbound-Explains :
      (a : Attempt)
      → b ≡ unbound
      → first ≡ a
      → Explains
          (respond_or_degrade fail_closed second key now later limit win
            (attempt_in_memory a m key now limit win)).1
  unfolding respond_or_degrade attempt_in_memory
  unbound-Explains works h e =
      respond-Explains (consume_in_memory m key now limit win).1 (inr (inl (h, e, refl)))
  unbound-Explains (throws left) h e =
      degrade-Explains left fail_closed second (inr (h, e)) refl refl

  backend-Explains :
      (c : Backend)
      → b ≡ c
      → Explains (middleware fail_closed c first second m key now later limit win).1
  unfolding middleware
  backend-Explains (answers r) e = respond-Explains r (inl e)
  backend-Explains unbound e = unbound-Explains first e refl
  backend-Explains failing e = degrade-Explains m fail_closed second (inl (e, refl)) refl refl

  -- Why the middleware answers as it does: a request goes on with a count, or is refused as one too
  -- many, as the limiter that decided says; it is refused as unavailable only after a failure on a
  -- route that fails closed; and it goes on without any limit only on a route that fails open, where
  -- the first limiter and the in-memory one behind it both failed.
  pub middleware-Explains :
      Explains (middleware fail_closed b first second m key now later limit win).1
  middleware-Explains = backend-Explains b refl

-- The occurrences on the lines that a run of calls at these times writes.
pub reported : Degraded → List ℕ → ℕ
reported s [] = 0
reported s (now ∷ rest) = or_else (log_degraded s now).1 0 + reported (log_degraded s now).0 rest

pub after_calls : Degraded → List ℕ → Degraded
after_calls s [] = s
after_calls s (now ∷ rest) = after_calls (log_degraded s now).0 rest

-- No occurrence is lost or counted twice: those on the lines and the ones still held back are all
-- that there were.
pub reported-after_calls :
    (s : Degraded) (times : List ℕ)
    → reported s times + (after_calls s times).count ≡ s.count + length times
unfolding reported after_calls log_degraded
reported-after_calls s [] = omega arith
reported-after_calls s (now ∷ rest) =
    ground (arith, reported-after_calls (log_degraded s now).0 rest)
