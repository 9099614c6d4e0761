-- ===== src/RateLimit/Alarm.antt =====
-- The limiter with its alarm, over any history of calls in time order.
use native.Mathlib.Decide.{dec_lt}
use hushvault.Base.{
  ℕ, ◌+◌, ◌-◌, ◌*◌, ◌/◌, ◌≤◌, ◌<◌, ◌≡◌, refl, ◌&&◌, Option, none, some, List, [], ◌∷◌, arith, ltb,
  ◌==◌, if◌then◌else◌, order_cases, inl, inr,
}
use hushvault.RateLimit.{
  WindowState, Storage, counted, consume_denied, consume_allowed, hit, alarm, Event, hits, alarms,
  at, allowed_in,
}

-- No event is earlier than the one before it.
abbrev pub InOrder : ℕ → List Event → Type 0
InOrder t [] = Unit {0}
InOrder t (e ∷ es) = (t ≤ at e) × InOrder (at e) es

module _ (w limit win : ℕ) (positive : 0 < win) where
  started : (t : ℕ) → w * win ≤ t → w ≤ t / win
  started t h = grind arith

  not_started : (t : ℕ) → t / win < w → t < w * win
  not_started t h = grind arith

  inside : (t : ℕ) → t / win ≤ w → t < w * win + win
  inside t h = grind arith

  earlier : (t now : ℕ) → t ≤ now → now / win < w → t / win < w
  earlier t now h k = grind arith

  not_over : (t now : ℕ) → t ≤ now → now / win ≡ w → ¬ (w < t / win)
  not_over t now h e k = grind arith

  -- What the current record says of the window `w`.
  cur : Option WindowState → ℕ
  cur none = 0
  cur (some s) = if s.window_start == w * win then s.count else 0

  -- An alarm that can still clear the window `w`.
  pends : Option ℕ → ℕ
  pends none = 0
  pends (some due) = if ltb due (w * win + win) then limit else 0

  -- The hits in the window `w` that may still be allowed after the time `t`.
  slack : ℕ → Storage → ℕ
  unfolding cur pends
  slack t st =
      if ltb w (t / win)
      then 0
      else if ltb (t / win) w
      then limit + limit
      else (limit - cur st.window) + pends st.alarm

  slack_over : (t : ℕ) (st : Storage) → w < t / win → slack t st ≡ 0
  unfolding slack
  slack_over t st h = ground arith

  slack_during :
      (t : ℕ) (st : Storage) → t / win ≡ w → slack t st ≡ (limit - cur st.window) + pends st.alarm
  unfolding slack
  slack_during t st h = ground arith

  slack_ahead : (t : ℕ) (st : Storage) → t / win < w → slack t st ≡ limit + limit
  unfolding slack
  slack_ahead t st h = ground arith

  -- While the window runs, the code's count is what the record says of it.
  counted-cur :
      (now : ℕ) (o : Option WindowState) → now / win ≡ w → counted o (now / win * win) ≡ cur o
  unfolding counted cur
  counted-cur now none e = refl
  counted-cur now (some s) e = rw e (ground arith)

  during_step :
      (now : ℕ) (o : Option WindowState) (a : Option ℕ)
      → now / win ≡ w
      → let r = hit (record { window = o; alarm = a }) now limit win in
        (if r.1.allowed then 1 else 0) + ((limit - cur r.0.window) + pends r.0.alarm)
        ≤ (limit - cur o) + pends a
  unfolding hit pends cur
  during_step now o none e = elim (dec_lt (counted o (now / win * win)) limit) [
    | yes p ↦ rw (consume_allowed o now limit win p) (ground (arith, counted-cur now o e))
    | no p ↦ rw (consume_denied o now limit win (omega arith)) (ground arith)
  ]
  during_step now o (some due) e = elim (dec_lt (counted o (now / win * win)) limit) [
    | yes p ↦ rw (consume_allowed o now limit win p) (ground (arith, counted-cur now o e))
    | no p ↦ rw (consume_denied o now limit win (omega arith)) (ground arith)
  ]

  pends-le : (a : Option ℕ) → pends a ≤ limit
  unfolding pends
  pends-le none = omega arith
  pends-le (some due) = ground arith

  slack-le : (t : ℕ) (st : Storage) → slack t st ≤ limit + limit
  unfolding slack
  slack-le t st = ground (arith, pends-le st.alarm)

  slack-ge :
      (t now : ℕ) (st : Storage)
      → t ≤ now
      → now / win ≡ w
      → (limit - cur st.window) + pends st.alarm ≤ slack t st
  slack-ge t now st h e = elim (order_cases (t / win) w) [
    | inl before ↦ rw (slack_ahead t st before) (omega (arith, pends-le st.alarm))
    | inr (inl during) ↦ rw (slack_during t st during) (omega arith)
    | inr (inr after) ↦ absurd (not_over t now h e after)
  ]

  hit_step :
      (t now : ℕ) (st : Storage)
      → t ≤ now
      → let r = hit st now limit win in
        ((if r.1.allowed && now / win == w then 1 else 0) + slack now r.0 ≤ slack t st)
  hit_step t now st h = elim (order_cases (now / win) w) [
    | inl before ↦
        rw
          (
            slack_ahead now (hit st now limit win).0 before,
            slack_ahead t st (earlier t now h before),
          )
          (ground arith)
    | inr (inl during) ↦
        rw (slack_during now (hit st now limit win).0 during)
          (ground (arith, during_step now st.window st.alarm during, slack-ge t now st h during))
    | inr (inr after) ↦ rw (slack_over now (hit st now limit win).0 after) (ground arith)
  ]

  alarm_during :
      (now : ℕ) (o : Option WindowState) (a : Option ℕ)
      → now / win ≡ w
      → let st = alarm (record { window = o; alarm = a }) now in
        (limit - cur st.window) + pends st.alarm ≤ (limit - cur o) + pends a
  unfolding alarm cur pends
  alarm_during now o none e = omega arith
  alarm_during now o (some due) e = ground (arith, inside now)

  alarm_step : (t now : ℕ) (st : Storage) → t ≤ now → slack now (alarm st now) ≤ slack t st
  alarm_step t now st h = elim (order_cases (now / win) w) [
    | inl before ↦
        rw (slack_ahead now (alarm st now) before, slack_ahead t st (earlier t now h before))
          (omega arith)
    | inr (inl during) ↦
        rw (slack_during now (alarm st now) during)
          (omega (arith, alarm_during now st.window st.alarm during, slack-ge t now st h during))
    | inr (inr after) ↦ rw (slack_over now (alarm st now) after) (omega arith)
  ]

  slack-allowed_in :
      (t : ℕ) (st : Storage) (es : List Event)
      → InOrder t es
      → allowed_in w limit win st es ≤ slack t st
  unfolding allowed_in
  slack-allowed_in t st [] h = omega arith
  slack-allowed_in t st (hits now ∷ es) (h, hs) =
      omega (arith, hit_step t now st h, slack-allowed_in now (hit st now limit win).0 es hs)
  slack-allowed_in t st (alarms now ∷ es) (h, hs) =
      omega (arith, alarm_step t now st h, slack-allowed_in now (alarm st now) es hs)

-- Over any history of hits and alarms in time order, a window allows at most twice the limit.
pub allowed_in-le :
    (w limit win : ℕ) (st : Storage) (es : List Event)
    → 0 < win
    → InOrder 0 es
    → allowed_in w limit win st es ≤ 2 * limit
allowed_in-le w limit win st es pos h =
    omega (arith, slack-allowed_in w limit win pos 0 st es h, slack-le w limit win pos 0 st)
