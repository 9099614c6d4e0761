-- ===== src/Scheduler.antt =====
-- The cron's synchronisations: apps/api/src/integrations/sync-scheduler.ts. The tables are lists;
-- Crashed, Outbox and Tick have the sweep itself.
pub mod Crashed
pub mod Outbox
pub mod Tick
pub mod Weight
pub mod Budget
pub mod Expired
pub mod Tests
use hushvault.Base.{
  ℕ, zero, suc, ◌+◌, ◌-◌, Bool, true, false, not, ◌&&◌, ◌||◌, Option, none, some, List, [], ◌∷◌,
  map, Text, same, leb, ltb, if◌then◌else◌, length, filter, find, any, or_else,
}
use hushvault.Plans.{Limit, unlimited, at_most, Entitlements, entitlements_for_plan}

abbrev pub sync_debounce_ms : ℕ
sync_debounce_ms = 30000

abbrev pub outbox_claim_ms : ℕ
outbox_claim_ms = 300000

abbrev pub defer_ms : ℕ
defer_ms = 600000

abbrev pub release_backoff_ms : ℕ
release_backoff_ms = 60000

abbrev pub max_runs_per_tick : ℕ
max_runs_per_tick = 10

abbrev pub max_runs_per_org_per_tick : ℕ
max_runs_per_org_per_tick = 6

abbrev pub select_limit : ℕ
select_limit = 25

abbrev pub outbox_retention_ms : ℕ
outbox_retention_ms = 86400000

pub data SyncTrigger : Type 0 where
  manual change schedule : SyncTrigger

pub data SyncRunStatus : Type 0 where
  queued running succeeded partial failed : SyncRunStatus

pub record OutboxRow : Type 0 where
  pub id : Text
  pub target_id : Text
  pub org_id : Text
  pub changed_at : ℕ
  pub due_at : ℕ
  pub claimed_at : Option ℕ
  pub done_at : Option ℕ

pub record SyncTarget : Type 0 where
  pub id : Text
  pub org_id : Text
  pub is_deleted : Bool
  pub is_active : Bool
  pub on_change : Bool
  pub schedule_minutes : Option ℕ
  pub last_run_at : Option ℕ

pub record SyncRun : Type 0 where
  pub id : Text
  pub target_id : Text
  pub trigger : SyncTrigger
  pub status : SyncRunStatus
  pub attempt : ℕ
  pub started_at : ℕ
  pub lease_until : Option ℕ
  pub next_retry_at : Option ℕ

-- `plan_of` is the plan of an organisation that exists.
pub record Db : Type 0 where
  pub outbox : List OutboxRow
  pub targets : List SyncTarget
  pub runs : List SyncRun
  pub plan_of : Text → Option Text

pub record SyncTickResult : Type 0 where
  pub change_runs : ℕ
  pub schedule_runs : ℕ
  pub retry_runs : ℕ
  pub deferred : ℕ
  pub failures : ℕ

pub record TickContext : Type 0 where
  pub left : ℕ
  pub hourly_limit : List (Text × Limit)
  pub base_hour_count : List (Text × ℕ)
  pub started_this_tick : List (Text × ℕ)

abbrev pub new_tick_context : TickContext
new_tick_context = record {
  left = max_runs_per_tick;
  hourly_limit = [];
  base_hour_count = [];
  started_this_tick = [];
}

pub record State : Type 0 where
  pub db : Db
  pub tally : SyncTickResult
  pub ctx : TickContext

-- `Map.get`.
unfoldable pub value_at {ℓ} : {A : Type ℓ} → List (Text × A) → Text → Option A
value_at [] key = none
value_at ((k, v) ∷ entries) key = if same k key then some v else value_at entries key

unfoldable pub limit_or :
    Option Limit → (fresh : Limit) → (org_id : Text) → TickContext → TickContext × Limit
limit_or none fresh org_id ctx =
    (record ctx { hourly_limit = (org_id, fresh) ∷ ctx.hourly_limit }, fresh)
limit_or (some cached) fresh org_id ctx = (ctx, cached)

unfoldable pub org_hourly_limit : Db → TickContext → (org_id : Text) → TickContext × Limit
unfolding limit_or value_at entitlements_for_plan
org_hourly_limit db ctx org_id =
    limit_or (value_at ctx.hourly_limit org_id)
      (entitlements_for_plan (db.plan_of org_id)).auto_runs_per_hour org_id ctx

abbrev pub is_manual : SyncTrigger → Bool
is_manual manual = true
is_manual change = false
is_manual schedule = false

-- The run's target exists and is the organisation's.
abbrev pub is_run_of_org : List SyncTarget → (org_id : Text) → SyncRun → Bool
is_run_of_org targets org_id r = any (λ t. same t.id r.target_id && same t.org_id org_id) targets

unfoldable pub auto_runs_last_hour : Db → (org_id : Text) → (now : ℕ) → ℕ
auto_runs_last_hour db org_id now = length (
    filter
      (λ r.
        is_run_of_org db.targets org_id r
        && (not (is_manual r.trigger) && leb now (r.started_at + 3600000)))
      db.runs)

unfoldable pub base_or : Option ℕ → (fresh : ℕ) → (org_id : Text) → TickContext → TickContext × ℕ
base_or none fresh org_id ctx =
    (record ctx { base_hour_count = (org_id, fresh) ∷ ctx.base_hour_count }, fresh)
base_or (some cached) fresh org_id ctx = (ctx, cached)

unfoldable pub started : TickContext → (org_id : Text) → ℕ
unfolding value_at
started ctx org_id = or_else (value_at ctx.started_this_tick org_id) 0

unfoldable pub is_spent :
    Db → (org_id : Text) → (now : ℕ) → TickContext × Limit → TickContext × Bool
unfolding auto_runs_last_hour base_or value_at started
is_spent db org_id now (ctx, unlimited) = (ctx, false)
is_spent db org_id now (ctx, at_most limit) =
    let counted =
      base_or (value_at ctx.base_hour_count org_id) (auto_runs_last_hour db org_id now) org_id
        ctx in
    (counted.0, leb limit (counted.1 + started counted.0 org_id))

unfoldable pub at_hourly_cap : Db → TickContext → (org_id : Text) → (now : ℕ) → TickContext × Bool
unfolding org_hourly_limit is_spent
at_hourly_cap db ctx org_id now = is_spent db org_id now (org_hourly_limit db ctx org_id)

unfoldable pub at_tick_cap : TickContext → (org_id : Text) → Bool
unfolding started
at_tick_cap ctx org_id = leb max_runs_per_org_per_tick (started ctx org_id)

-- A run is counted against the budget of the tick and of its organisation.
unfoldable pub note_started : TickContext → (org_id : Text) → TickContext
unfolding started
note_started ctx org_id = record ctx {
  left = ctx.left - 1;
  started_this_tick = (org_id, started ctx org_id + 1) ∷ ctx.started_this_tick;
}

abbrev pub is_open : SyncRunStatus → Bool
is_open queued = true
is_open running = true
is_open succeeded = false
is_open partial = false
is_open failed = false

-- Whether a lease ended before a time; a run without one has not.
abbrev pub is_before : Option ℕ → ℕ → Bool
is_before none now = false
is_before (some time) now = ltb time now

unfoldable pub has_active_run : Db → (target_id : Text) → (now : ℕ) → Bool
has_active_run db target_id now =
    any (λ r. same r.target_id target_id && (is_open r.status && not (is_before r.lease_until now)))
      db.runs

unfoldable pub is_expired : (now : ℕ) → SyncRun → Bool
is_expired now r = is_open r.status && is_before r.lease_until now
