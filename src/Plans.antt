-- ===== src/Plans.antt =====
-- What each plan allows: apps/api/src/lib/entitlements.ts, plan-limits.ts and audit-retention.ts.
-- A limit of -1 is `unlimited`; plans are the texts that the database holds.
pub mod Window
pub mod Tests
use hushvault.Base.{
  ℕ, ◌*◌, ◌-◌, min, Bool, true, false, Option, none, some, List, [], ◌∷◌, Text, codes, same, ltb,
  leb, ◌==◌, if◌then◌else◌,
}

pub data PlanTier : Type 0 where
  free pro team enterprise : PlanTier

pub data Limit : Type 0 where
  unlimited : Limit
  at_most : ℕ → Limit

pub record Entitlements : Type 0 where
  pub plan : PlanTier
  pub max_sync_targets : Limit
  pub auto_runs_per_hour : Limit
  pub audit_retention_days : Limit
  pub compliance_export : Bool
  pub max_projects : Limit
  pub max_secrets : Limit
  pub max_environments_per_project : Limit
  pub max_seats : Limit

abbrev undecided : (plan : PlanTier) (targets runs days : Limit) (export : Bool) → Entitlements
undecided plan targets runs days export = record {
  plan = plan;
  max_sync_targets = targets;
  auto_runs_per_hour = runs;
  audit_retention_days = days;
  compliance_export = export;
  max_projects = unlimited;
  max_secrets = unlimited;
  max_environments_per_project = unlimited;
  max_seats = unlimited;
}

unfoldable pub plan_entitlements : PlanTier → Entitlements
plan_entitlements free = undecided free (at_most 2) (at_most 60) (at_most 7) false
plan_entitlements pro = undecided pro (at_most 25) (at_most 600) (at_most 90) false
plan_entitlements team = undecided team (at_most 100) (at_most 2000) (at_most 365) true
plan_entitlements enterprise = undecided enterprise unlimited unlimited unlimited true

-- The tier of a plan's text; an unknown plan is the free one.
unfoldable pub tier_of : Option Text → PlanTier
tier_of none = free
tier_of (some p) =
    if same p (codes "pro")
    then pro
    else (if same p (codes "team")
        then team
        else (if same p (codes "enterprise") then enterprise else free))

unfoldable pub entitlements_for_plan : Option Text → Entitlements
unfolding tier_of plan_entitlements
entitlements_for_plan plan = plan_entitlements (tier_of plan)

unfoldable pub within_limit : (count : ℕ) → Limit → Bool
within_limit count unlimited = true
within_limit count (at_most n) = ltb count n

abbrev pub unlimited_sentinel : ℕ
unlimited_sentinel = 2147483647

-- What the `CASE` expression of `maxSyncTargetsCaseSql` yields for a plan.
unfoldable pub max_sync_targets_case : Option Text → ℕ
unfolding entitlements_for_plan
max_sync_targets_case plan = cap (entitlements_for_plan plan).max_sync_targets
  where
    cap : Limit → ℕ
    cap unlimited = unlimited_sentinel
    cap (at_most n) = n

-- The plan's own window, cut short by an override.
unfoldable pub shortened : Limit → ℕ → Limit
shortened unlimited override = at_most override
shortened (at_most days) override = at_most (min override days)

-- An override that is not positive counts as none.
unfoldable pub effective_retention_days : (plan : Text) → (override : Option ℕ) → Limit
unfolding entitlements_for_plan shortened
effective_retention_days plan none = (entitlements_for_plan (some plan)).audit_retention_days
effective_retention_days plan (some override) =
    if override == 0
    then (entitlements_for_plan (some plan)).audit_retention_days
    else shortened (entitlements_for_plan (some plan)).audit_retention_days override

abbrev pub day_ms : ℕ
day_ms = 86400000

-- The cutoff of a window, in days of the worker's clock, which is UTC; rows at or before it are outside.
unfoldable pub retention_cutoff : Limit → (now : ℕ) → Option ℕ
retention_cutoff unlimited now = none
retention_cutoff (at_most days) now = some (now - days * day_ms)

unfoldable pub can_compliance_export : Text → Bool
unfolding entitlements_for_plan
can_compliance_export plan = (entitlements_for_plan (some plan)).compliance_export
