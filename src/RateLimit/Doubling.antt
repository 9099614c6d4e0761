-- ===== src/RateLimit/Doubling.antt =====
-- The alarm that is set by the first hit of a window runs one second into the next window, and
-- deletes what that window has counted.
use hushvault.Base.{
  ℕ, zero, suc, ◌+◌, ◌*◌, ◌/◌, ◌≤◌, ◌<◌, ◌≡◌, ap, none, some, List, [], ◌∷◌, arith, true,
}
use hushvault.RateLimit.{
  Storage, counted, consume_allowed, hit, empty, is_due, alarm, Event, hits, alarms, allowed_in,
}
use hushvault.RateLimit.Alarm.{InOrder, allowed_in-le}

-- `n` hits at one time, and then the rest of the history.
burst : ℕ → ℕ → List Event → List Event
burst zero now rest = rest
burst (suc n) now rest = hits now ∷ burst n now rest

-- One hit, the limit's worth of hits at the start of the window 1, the alarm of the first hit, and
-- as many hits again.
pub doubling : (limit window_ms : ℕ) → List Event
doubling limit window_ms =
    hits 0 ∷ burst limit window_ms (alarms (window_ms + 1000) ∷ burst limit (window_ms + 1000) [])

burst-InOrder :
    (n t now : ℕ) (rest : List Event) → t ≤ now → InOrder now rest → InOrder t (burst n now rest)
unfolding burst
burst-InOrder zero t now [] h i = tt
burst-InOrder zero t now (e ∷ rest) h (k, i) = (omega arith, i)
burst-InOrder (suc n) t now rest h i = (h, burst-InOrder n now now rest (omega arith) i)

module _ (w limit win now : ℕ) (positive : 0 < win) (here : now / win ≡ w) where
  -- The hits of the window that are counted already.
  used : Storage → ℕ
  used st = counted st.window (now / win * win)

  -- A hit that finds room is allowed and counted, and keeps an alarm that is set.
  hit_allowed : (st : Storage) → used st < limit → (hit st now limit win).1.allowed ≡ true
  unfolding hit used
  hit_allowed st p = rw (consume_allowed st.window now limit win p)

  hit_counts : (st : Storage) → used st < limit → used (hit st now limit win).0 ≡ used st + 1
  unfolding hit used counted
  hit_counts st p = rw (consume_allowed st.window now limit win p) (ground arith)

  hit_keeps_alarm :
      (st : Storage) (due : ℕ) → st.alarm ≡ some due → (hit st now limit win).0.alarm ≡ some due
  unfolding hit
  hit_keeps_alarm st due e = ground arith

  burst_counts :
      (n : ℕ) (st : Storage) → used st + n ≤ limit → n ≤ allowed_in w limit win st (burst n now [])
  unfolding burst allowed_in
  burst_counts zero st h = omega arith
  burst_counts (suc n) st h = ground (
    arith,
    hit_allowed st (omega arith),
    burst_counts n (hit st now limit win).0 (omega (arith, hit_counts st (omega arith))),
  )

  fired : (st : Storage) (due late : ℕ) → st.alarm ≡ some due → due ≤ late → alarm st late ≡ empty
  unfolding alarm is_due
  fired st due late e d = rw e (ground arith)

  -- The alarm leaves the empty store, whatever was counted.
  burst_then_alarm :
      (n due late : ℕ) (st : Storage) (rest : List Event)
      → st.alarm ≡ some due
      → due ≤ late
      → used st + n ≤ limit
      → n + allowed_in w limit win empty rest
        ≤ allowed_in w limit win st (burst n now (alarms late ∷ rest))
  unfolding burst allowed_in
  burst_then_alarm zero due late st rest e d h =
      rw (allowed_in, fired st due late e d) (omega arith)
  burst_then_alarm (suc n) due late st rest e d h = ground (
    arith,
    hit_allowed st (omega arith),
    burst_then_alarm n due late (hit st now limit win).0 rest (hit_keeps_alarm st due e) d
        (omega (arith, hit_counts st (omega arith))),
  )

-- The store after one hit at the time 0.
after_first : ℕ → ℕ → Storage
after_first limit win = (hit empty 0 limit win).0

after_first_alarm : (limit win : ℕ) → 0 < limit → (after_first limit win).alarm ≡ some (win + 1000)
unfolding after_first hit empty counted
after_first_alarm limit win h = rw (consume_allowed none 0 limit win h) (ap some (grind arith))

first_start : (win : ℕ) → 0 < win → win / win ≡ 1
first_start win pos = grind arith

same_start : (win : ℕ) → 0 < win → 0 / win * win < win / win * win
same_start win pos = rw (first_start win pos) (grind arith)

late_start : (win : ℕ) → 1000 < win → (win + 1000) / win ≡ 1
late_start win k = grind arith

after_first_unused :
    (limit win : ℕ)
    → 0 < win
    → 0 < limit
    → counted (after_first limit win).window (win / win * win) ≡ 0
unfolding after_first hit empty counted
after_first_unused limit win pos h =
    rw (consume_allowed none 0 limit win h) (ground (arith, same_start win pos))

doubling-InOrder : (limit win : ℕ) → InOrder 0 (doubling limit win)
unfolding doubling
doubling-InOrder limit win = (
  omega arith,
  burst-InOrder limit 0 win _ (omega arith)
      (omega arith, burst-InOrder limit _ (win + 1000) [] (omega arith) tt),
)

upper : (limit win : ℕ) → 1000 < win → allowed_in 1 limit win empty (doubling limit win) ≤ 2 * limit
upper limit win k =
    allowed_in-le 1 limit win empty (doubling limit win) (omega arith) (doubling-InOrder limit win)

doubled :
    (limit win : ℕ)
    → 0 < limit
    → 1000 < win
    → limit + limit ≤ allowed_in 1 limit win empty (doubling limit win)
unfolding doubling allowed_in
doubled limit win h k =
    let again =
      burst_counts 1 limit win (win + 1000) (omega arith) (late_start win k) limit empty
        (unfold used counted empty in omega arith) in
    let first =
      burst_then_alarm 1 limit win win (omega arith) (first_start win (omega arith)) limit
        (win + 1000) (win + 1000) (after_first limit win) (burst limit (win + 1000) [])
        (after_first_alarm limit win h) (omega arith)
        (unfold used in omega (arith, after_first_unused limit win (omega arith) h)) in
    unfold after_first in omega (arith, again, first)

-- With a limit of at least 1 and a window of more than a second, this history is in time order, and
-- the limiter allows twice the limit in the window 1.
pub allowed_in-doubling :
    (limit win : ℕ)
    → 0 < limit
    → 1000 < win
    → InOrder 0 (doubling limit win)
      × (allowed_in 1 limit win empty (doubling limit win) ≡ 2 * limit)
allowed_in-doubling limit win h k =
    (doubling-InOrder limit win, omega (arith, doubled limit win h k, upper limit win k))
