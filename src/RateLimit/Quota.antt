-- ===== src/RateLimit/Quota.antt =====
-- The limiter between two alarms: how many of the hits of a window it allows.
use native.Mathlib.Decide.{dec_lt}
use hushvault.Base.{
  ℕ, ◌+◌, ◌-◌, ◌*◌, ◌/◌, ◌≤◌, ◌<◌, ◌≡◌, refl, Option, none, some, List, [], ◌∷◌, arith, min, map,
  ap, inl, inr, ◌==◌, if◌then◌else◌, order_cases,
}
use hushvault.RateLimit.{
  WindowState, Storage, counted, consume_denied, consume_allowed, hit, empty, hits, allowed_in,
}
use hushvault.RateLimit.Alarm.{InOrder}

-- The hits that fall in the window `w`.
pub hits_in : (w window_ms : ℕ) → List ℕ → ℕ
hits_in w window_ms [] = 0
hits_in w window_ms (now ∷ rest) =
    (if now / window_ms == w then 1 else 0) + hits_in w window_ms rest

module _ (w limit win : ℕ) (positive : 0 < win) where
  used : Option WindowState → ℕ
  used o = counted o (w * win)

  used_empty : used none ≡ 0
  unfolding used counted
  used_empty = refl

  -- The record is of a window that has begun.
  abbrev Begun : ℕ → Option WindowState → Type 0
  Begun t none = Unit {0}
  Begun t (some s) = s.window_start ≤ t

  start_le : (now : ℕ) → now / win * win ≤ now
  start_le now = grind arith

  start_inj : (now : ℕ) → now / win * win ≡ w * win → now / win ≡ w
  start_inj now e = grind arith

  ahead_unused : (t : ℕ) (o : Option WindowState) → t < w * win → Begun t o → used o ≡ 0
  unfolding used counted
  ahead_unused t none h b = refl
  ahead_unused t (some s) h b = ground arith

  not_started : (t : ℕ) → t / win < w → t < w * win
  not_started t h = grind arith

  later : (t now : ℕ) → t ≤ now → w < t / win → w < now / win
  later t now h k = grind arith

  hits_in_over :
      (t : ℕ) (ts : List ℕ) → InOrder t (map hits ts) → w < t / win → hits_in w win ts ≡ 0
  unfolding hits_in
  hits_in_over t [] h k = refl
  hits_in_over t (now ∷ ts) (h, hs) k =
      ground (arith, hits_in_over now ts hs (later t now h k), later t now h k)

  allowed_in_over :
      (t : ℕ) (st : Storage) (ts : List ℕ)
      → InOrder t (map hits ts)
      → w < t / win
      → allowed_in w limit win st (map hits ts) ≡ 0
  unfolding allowed_in
  allowed_in_over t st [] h k = refl
  allowed_in_over t st (now ∷ ts) (h, hs) k =
      ground (
        arith,
        allowed_in_over now (hit st now limit win).0 ts hs (later t now h k),
        later t now h k,
      )

  hit-Begun :
      (t now : ℕ) (o : Option WindowState) (a : Option ℕ)
      → t ≤ now
      → Begun t o
      → Begun now (hit (record { window = o; alarm = a }) now limit win).0.window
  unfolding hit
  hit-Begun t now o a h b = elim (dec_lt (counted o (now / win * win)) limit) [
    | yes p ↦ rw (consume_allowed o now limit win p) (start_le now)
    | no p ↦ rw (consume_denied o now limit win (omega arith)) (stays o b)
  ]
    where
      stays : (q : Option WindowState) → Begun t q → Begun now q
      stays none c = tt
      stays (some s) c = omega arith

  quota_step :
      (now k : ℕ) (o : Option WindowState) (a : Option ℕ)
      → now / win ≡ w
      → let r = hit (record { window = o; alarm = a }) now limit win in
        (if r.1.allowed then 1 else 0) + min (limit - used r.0.window) k
        ≡ min (limit - used o) (1 + k)
  unfolding hit used counted
  quota_step now k o a e = elim (dec_lt (counted o (now / win * win)) limit) [
    | yes p ↦
        rw (consume_allowed o now limit win p)
          (ground (arith, ap (λ (v : ℕ). counted o (v * win)) e, ap (λ (v : ℕ). v * win) e))
    | no p ↦
        rw (consume_denied o now limit win (omega arith))
          (ground (arith, ap (λ (v : ℕ). counted o (v * win)) e))
  ]

  quota :
      (t : ℕ) (o : Option WindowState) (a : Option ℕ) (ts : List ℕ)
      → t / win ≤ w
      → Begun t o
      → InOrder t (map hits ts)
      → allowed_in w limit win (record { window = o; alarm = a }) (map hits ts)
        ≡ min (limit - used o) (hits_in w win ts)
  unfolding allowed_in hits_in
  quota t o a [] h b i = omega arith
  quota t o a (now ∷ ts) h b (le, i) =
      let st : Storage = record { window = o; alarm = a } in
      let next : Storage = (hit st now limit win).0 in
      let begun = hit-Begun t now o a le b in
      elim (order_cases (now / win) w) [
        | inl before ↦ ground (
          arith,
          quota now next.window next.alarm ts (omega arith) begun i,
          ahead_unused now next.window (not_started now before) begun,
          ahead_unused t o (omega (arith, not_started now before)) b,
        )
        | inr (inl during) ↦ ground (
          arith,
          quota now next.window next.alarm ts (omega arith) begun i,
          quota_step now (hits_in w win ts) o a during,
        )
        | inr (inr after) ↦
            ground (arith, allowed_in_over now next ts i after, hits_in_over now ts i after)
      ]

-- From the empty store, with hits in time order and no alarm between them, the limiter allows in
-- each window exactly the first `limit` of its hits: all of them, or `limit` if there are more.
pub allowed_in-eq-min :
    (w limit win : ℕ) (ts : List ℕ)
    → 0 < win
    → InOrder 0 (map hits ts)
    → allowed_in w limit win empty (map hits ts) ≡ min limit (hits_in w win ts)
unfolding empty
allowed_in-eq-min w limit win ts pos i =
    ground
      (arith, quota w limit win pos 0 none none ts (grind arith) tt i, used_empty w limit win pos)
