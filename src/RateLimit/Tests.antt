-- ===== src/RateLimit/Tests.antt =====
-- The limiter on concrete histories.
use hushvault.Base.{
  ℕ, ◌+◌, ◌*◌, ◌≤◌, ◌≡◌, ◌≢◌, refl, min, map, List, [], ◌∷◌, false, arith, Text, codes,
}
use hushvault.RateLimit.{consume_rate_limit, empty, Event, hits, alarms, allowed_in}
use hushvault.RateLimit.Memory.{
  Windows, get, consume_in_memory, failing, works, throws, unmetered, attempt_in_memory, fall_back,
  degrade, middleware, quiet,
}
use hushvault.RateLimit.Fallback.{
  consume_in_memory-refines, Explains, middleware-Explains, reported, after_calls,
  reported-after_calls,
}
use hushvault.RateLimit.Quota.{hits_in, allowed_in-eq-min}
use hushvault.RateLimit.Alarm.{InOrder, allowed_in-le}
use hushvault.RateLimit.Doubling.{doubling, allowed_in-doubling}

abbrev three_hits : List ℕ
three_hits = 1000 ∷ 1200 ∷ 1900 ∷ []

allowed_in-eq-min_example :
    allowed_in 1 2 1000 empty (map hits three_hits) ≡ min 2 (hits_in 1 1000 three_hits)
allowed_in-eq-min_example =
    allowed_in-eq-min 1 2 1000 three_hits (omega arith)
      (omega arith, (omega arith, (omega arith, tt)))

abbrev with_alarm : List Event
with_alarm = hits 1000 ∷ hits 2500 ∷ alarms 3000 ∷ hits 3100 ∷ []

allowed_in-le_example : allowed_in 2 1 1000 empty with_alarm ≤ 2 * 1
allowed_in-le_example =
    allowed_in-le 2 1 1000 empty with_alarm (omega arith)
      (omega arith, (omega arith, (omega arith, (omega arith, tt))))

allowed_in-doubling_example :
    InOrder 0 (doubling 3 2000) × (allowed_in 1 3 2000 empty (doubling 3 2000) ≡ 2 * 3)
allowed_in-doubling_example = allowed_in-doubling 3 2000 (omega arith) (omega arith)

abbrev two_keys : Windows
two_keys =
    (codes "login:a", record { window_start = 1000; count = 1 })
    ∷ (codes "login:b", record { window_start = 1000; count = 4 })
    ∷ []

consume_in_memory-refines_example :
    let r = consume_in_memory two_keys (codes "login:a") 1500 5 1000 in
    let c = consume_rate_limit (get (codes "login:a") two_keys) 1500 5 1000 in
    (r.1 ≡ c.1)
    × (get (codes "login:a") r.0 ≡ c.0)
    × ((k : Text) → k ≢ codes "login:a" → get k r.0 ≡ get k two_keys)
consume_in_memory-refines_example =
    consume_in_memory-refines two_keys (codes "login:a") 1500 5 1000 (omega arith)

-- The object fails and so does the in-memory limiter, on a route that fails open.
middleware_unmetered :
    (middleware false failing works (throws []) two_keys (codes "login:a") 1500 1600 5 1000).1
    ≡ unmetered
unfolding middleware degrade fall_back attempt_in_memory
middleware_unmetered = refl

middleware-Explains_example :
    Explains false failing works
      (throws [])
      two_keys
      (codes "login:a")
      1500
      1600
      5
      1000
      (middleware false failing works (throws []) two_keys (codes "login:a") 1500 1600 5 1000).1
middleware-Explains_example =
    middleware-Explains false failing works (throws []) two_keys (codes "login:a") 1500 1600 5 1000

reported-after_calls_example :
    reported quiet (1000 ∷ 2000 ∷ 90000 ∷ []) + (after_calls quiet (1000 ∷ 2000 ∷ 90000 ∷ [])).count
    ≡ 0 + 3
reported-after_calls_example = reported-after_calls quiet (1000 ∷ 2000 ∷ 90000 ∷ [])
