-- ===== src/Housekeeping.antt =====
-- The deletes of the cron: apps/api/src/lib/housekeeping.ts. A table is the list of its rows, in the
-- order in which the database finds them; Orphans has the sweep of the key-value store.
pub mod Orphans
pub mod Purged
pub mod Audit
pub mod Pointers
pub mod Doomed
pub mod Collected
pub mod Tests
use hushvault.Base.{
  ℕ, zero, suc, ◌-◌, ◌≡◌, Bool, true, false, not, ◌&&◌, ◌||◌, Option, none, some, List, [], ◌∷◌,
  map, Text, codes, same, less, leb, if◌then◌else◌, length, take, filter, any,
}
use hushvault.Plans.{Limit, Entitlements, entitlements_for_plan, retention_cutoff}

abbrev pub audit_sweep_orgs_per_tick : ℕ
audit_sweep_orgs_per_tick = 20

abbrev pub audit_sweep_rows_per_tick : ℕ
audit_sweep_rows_per_tick = 500

abbrev pub share_purge_per_tick : ℕ
share_purge_per_tick = 200

abbrev pub invite_purge_per_tick : ℕ
invite_purge_per_tick = 200

abbrev pub comp_expiry_per_tick : ℕ
comp_expiry_per_tick = 200

-- `DELETE … WHERE id IN (SELECT id … WHERE passes LIMIT n)`.
unfoldable pub purge {ℓ} : {A : Type ℓ} (n : ℕ) (passes : A → Bool) → List A → List A
purge zero passes xs = xs
purge (suc n) passes [] = []
purge (suc n) passes (x ∷ xs) =
    let behind = purge n passes xs in
    let kept = purge (suc n) passes xs in if passes x then behind else x ∷ kept

-- `meta.changes` of a delete.
abbrev pub changes {ℓ} : {A : Type ℓ} (before after : List A) → ℕ
changes before after = length before - length after

pub record ShareLink : Type 0 where
  pub id : Text
  pub expires_at : ℕ
  pub view_count : ℕ
  pub max_views : ℕ

unfoldable pub is_spent : (now : ℕ) → ShareLink → Bool
is_spent now link = leb link.expires_at now || leb link.max_views link.view_count

unfoldable pub purge_share_links : (now : ℕ) → List ShareLink → List ShareLink × ℕ
unfolding purge is_spent
purge_share_links now links =
    let left = purge share_purge_per_tick (is_spent now) links in (left, changes links left)

pub record OrgInvite : Type 0 where
  pub id : Text
  pub expires_at : ℕ
  pub is_revoked : Bool

unfoldable pub is_closed : (now : ℕ) → OrgInvite → Bool
is_closed now invite = leb invite.expires_at now || invite.is_revoked

unfoldable pub purge_org_invites : (now : ℕ) → List OrgInvite → List OrgInvite × ℕ
unfolding purge is_closed
purge_org_invites now invites =
    let left = purge invite_purge_per_tick (is_closed now) invites in (left, changes invites left)

pub record AuthToken : Type 0 where
  pub id : Text
  pub expires_at : ℕ
  pub is_used : Bool

unfoldable pub is_dead : (now : ℕ) → AuthToken → Bool
is_dead now token = leb token.expires_at now || token.is_used

unfoldable pub purge_auth_tokens : (now : ℕ) → List AuthToken → List AuthToken × ℕ
unfolding is_dead
purge_auth_tokens now tokens =
    let left = filter (λ t. not (is_dead now t)) tokens in (left, changes tokens left)

pub record Organisation : Type 0 where
  pub id : Text
  pub plan : Text
  pub plan_expires_at : Option ℕ

unfoldable pub is_due : (now : ℕ) → Option ℕ → Bool
is_due now none = false
is_due now (some time) = leb time now

-- The update of at most `n` organisations, with the number of those it changes.
unfoldable pub revert_comps : (n now : ℕ) → List Organisation → List Organisation × ℕ
unfolding is_due
revert_comps zero now orgs = (orgs, 0)
revert_comps (suc n) now [] = ([], 0)
revert_comps (suc n) now (org ∷ orgs) =
    let behind = revert_comps n now orgs in
    let kept = revert_comps (suc n) now orgs in
    if is_due now org.plan_expires_at
    then (record org { plan = codes "free"; plan_expires_at = none } ∷ behind.0, suc behind.1)
    else (org ∷ kept.0, kept.1)

unfoldable pub sweep_expired_comps : (now : ℕ) → List Organisation → List Organisation × ℕ
unfolding revert_comps
sweep_expired_comps = revert_comps comp_expiry_per_tick

pub record AuditRow : Type 0 where
  pub id : Text
  pub org_id : Text
  pub timestamp : ℕ

-- `ORDER BY id`.
unfoldable pub insert_by_id : Organisation → List Organisation → List Organisation
insert_by_id org [] = org ∷ []
insert_by_id org (o ∷ orgs) =
    let later = insert_by_id org orgs in if less o.id org.id then o ∷ later else org ∷ o ∷ orgs

unfoldable pub order_by_id : List Organisation → List Organisation
unfolding insert_by_id
order_by_id [] = []
order_by_id (org ∷ orgs) = insert_by_id org (order_by_id orgs)

-- The organisations that one tick looks at.
unfoldable pub swept_orgs : List Organisation → List AuditRow → List Organisation
unfolding order_by_id
swept_orgs orgs log =
    take audit_sweep_orgs_per_tick
      (order_by_id (filter (λ o. any (λ r. same r.org_id o.id) log) orgs))

unfoldable pub is_expired : (cutoff : ℕ) → (org_id : Text) → AuditRow → Bool
is_expired cutoff org_id r = same r.org_id org_id && leb r.timestamp cutoff

unfoldable pub sweep_until : (cutoff : Option ℕ) → (org_id : Text) → List AuditRow → List AuditRow
unfolding purge is_expired
sweep_until none org_id log = log
sweep_until (some cutoff) org_id log =
    purge audit_sweep_rows_per_tick (is_expired cutoff org_id) log

unfoldable pub plan_cutoff : (now : ℕ) → Organisation → Option ℕ
unfolding entitlements_for_plan retention_cutoff
plan_cutoff now org =
    retention_cutoff (entitlements_for_plan (some org.plan)).audit_retention_days now

unfoldable pub sweep_orgs : (now : ℕ) → List Organisation → List AuditRow → List AuditRow
unfolding sweep_until plan_cutoff
sweep_orgs now [] log = log
sweep_orgs now (org ∷ orgs) log = sweep_orgs now orgs (sweep_until (plan_cutoff now org) org.id log)

-- `sweepAuditLog`.
unfoldable pub sweep_audit_log : (now : ℕ) → List Organisation → List AuditRow → List AuditRow × ℕ
unfolding swept_orgs sweep_orgs
sweep_audit_log now orgs log =
    let left = sweep_orgs now (swept_orgs orgs log) log in (left, changes log left)
