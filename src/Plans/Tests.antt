-- ===== src/Plans/Tests.antt =====
-- The windows and the limits of some plans.
use hushvault.Base.{◌≡◌, refl, some, codes, same, arith}
use hushvault.Plans.{
  entitlements_for_plan, tier_of, plan_entitlements, effective_retention_days, retention_cutoff,
  max_sync_targets_case,
}
use hushvault.Plans.Window.{IsOutside, effective_retention-IsOutside}

unknown_plan : max_sync_targets_case (some (codes "gold")) ≡ 2
unfolding max_sync_targets_case entitlements_for_plan plan_entitlements tier_of same
unknown_plan = refl

effective_retention-IsOutside_example :
    IsOutside (effective_retention_days (codes "pro") (some 30)) 90000000000 5
unfolding entitlements_for_plan plan_entitlements tier_of same retention_cutoff
effective_retention-IsOutside_example =
    effective_retention-IsOutside (codes "pro") (some 30) 90000000000 5
      (82224000000, refl, omega arith)
