-- ===== src/Plans/Window.antt =====
-- An organisation may narrow its audit window, and not widen it.
use hushvault.Base.{
  ℕ, ◌*◌, ◌-◌, ◌≤◌, ◌≡◌, refl, min, Option, none, some, Text, arith, inl, inr, Bool-cases, ◌==◌,
}
use hushvault.Plans.{
  Limit, unlimited, at_most, entitlements_for_plan, shortened, effective_retention_days,
  retention_cutoff, day_ms,
}

-- Whether a row that was written at `time` is outside the window.
abbrev pub IsOutside : Limit → (now time : ℕ) → Type 0
IsOutside limit now time =
    (cutoff : ℕ) × (retention_cutoff limit now ≡ some cutoff) × (time ≤ cutoff)

shortened-IsOutside :
    (days : Limit) (override now time : ℕ)
    → IsOutside days now time
    → IsOutside (shortened days override) now time
unfolding shortened retention_cutoff
shortened-IsOutside unlimited override now time (c, e, h) = absurd (none_some c e)
  where
    none_some : (c : ℕ) → ◌≡◌ {A = Option ℕ} none (some c) → ⊥
    none_some c e = cc
shortened-IsOutside (at_most days) override now time (c, e, h) =
    (now - min override days * day_ms, refl, omega (arith, own c e))
  where
    own :
        (c : ℕ) → ◌≡◌ {A = Option ℕ} (some (now - days * day_ms)) (some c) → now - days * day_ms ≡ c
    own c e = ground (arith, e)

-- Whatever override an organisation sets, a row that is outside the window of its plan is outside
-- its effective window: an override can shorten the window and never extends it.
pub effective_retention-IsOutside :
    (plan : Text) (override : Option ℕ) (now time : ℕ)
    → IsOutside (entitlements_for_plan (some plan)).audit_retention_days now time
    → IsOutside (effective_retention_days plan override) now time
unfolding effective_retention_days
effective_retention-IsOutside plan none now time h = h
effective_retention-IsOutside plan (some override) now time h = elim (Bool-cases (override == 0)) [
  | inl z ↦ rw z h
  | inr p ↦ rw p (
      shortened-IsOutside (entitlements_for_plan (some plan)).audit_retention_days override now time
        h)
]
