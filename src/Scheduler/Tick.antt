-- ===== src/Scheduler/Tick.antt =====
-- The sweep: the retries and the schedules, behind the runs that crashed and the outbox. A step that
-- throws in the middle is not modelled, nor is the report.
use hushvault.Base.{
  ℕ, ◌+◌, ◌-◌, ◌*◌, Bool, true, false, not, ◌&&◌, ◌||◌, Option, none, some, List, [], ◌∷◌, ◌++◌,
  Text, same, less, leb, ltb, ◌==◌, if◌then◌else◌, filter, find, any, take, or_else,
}
use hushvault.Sync.Retry.{max_sync_attempts}
use hushvault.Scheduler.{
  Db, OutboxRow, SyncTarget, SyncRun, SyncTrigger, SyncTickResult, queued, running, succeeded,
  change, schedule, failed, partial, SyncRunStatus, State, at_tick_cap, at_hourly_cap,
  has_active_run, select_limit, outbox_retention_ms, new_tick_context,
}
use hushvault.Scheduler.Crashed.{order_by, update_where, sweep_expired_runs}
use hushvault.Scheduler.Outbox.{
  Outcome, ran, busy, failed_to_start, is_none, start, deferred, drain_outbox,
}

abbrev pub no_result : SyncTickResult
no_result = record {
  change_runs = 0;
  schedule_runs = 0;
  retry_runs = 0;
  deferred = 0;
  failures = 0;
}

-- A run that has none of its target after it.
abbrev pub is_newest : List SyncRun → SyncRun → Bool
is_newest runs r = not (
    any
      (λ s.
        same s.target_id r.target_id
        && (ltb r.started_at s.started_at || (s.started_at == r.started_at && less r.id s.id)))
      runs)

abbrev pub is_due : Option ℕ → (now : ℕ) → Bool
is_due none now = false
is_due (some time) now = leb time now

abbrev pub is_unsuccessful : SyncRunStatus → Bool
is_unsuccessful failed = true
is_unsuccessful partial = true
is_unsuccessful queued = false
is_unsuccessful running = false
is_unsuccessful succeeded = false

abbrev pub live_target : List SyncTarget → (id : Text) → Option SyncTarget
live_target targets id = find (λ t. same t.id id && (not t.is_deleted && t.is_active)) targets

abbrev pub with_org : SyncRun → Option SyncTarget → List (SyncRun × Text)
with_org r none = []
with_org r (some t) = (r, t.org_id) ∷ []

abbrev pub join_targets : List SyncTarget → List SyncRun → List (SyncRun × Text)
join_targets targets [] = []
join_targets targets (r ∷ rs) =
    with_org r (live_target targets r.target_id) ++ join_targets targets rs

-- The runs to try again, each with its organisation.
unfoldable pub retry_rows : (now : ℕ) → Db → List (SyncRun × Text)
unfolding order_by
retry_rows now db =
    let wanted : SyncRun → Bool =
      λ r. is_due r.next_retry_at now && (is_unsuccessful r.status && is_newest db.runs r) in
    take select_limit (
      order_by (λ p. or_else p.0.next_retry_at 0) (join_targets db.targets (filter wanted db.runs)))

abbrev pub is_scheduled : Db → (now : ℕ) → SyncTarget → Bool
is_scheduled db now t =
    not t.is_deleted
    && (t.is_active && (not (is_none t.schedule_minutes) && not (has_active_run db t.id now)))

unfoldable pub schedule_rows : (now : ℕ) → Db → List SyncTarget
unfolding order_by has_active_run
schedule_rows now db =
    take (select_limit * 4)
      (order_by (λ t. or_else t.last_run_at 0) (filter (is_scheduled db now) db.targets))

module _
    (run_sync : (target_id : Text) → SyncTrigger → (attempt now : ℕ) → Db → Db × Option SyncRun)
    (finished : OutboxRow → ℕ) (now : ℕ) where
  unfoldable pub retried : State × Outcome → State
  retried (t, ran) = record t { tally = record t.tally { retry_runs = t.tally.retry_runs + 1 } }
  retried (t, busy) = t
  retried (t, failed_to_start) = record t {
    tally = record t.tally { failures = t.tally.failures + 1 };
  }

  unfoldable pub retry_capped : SyncRun → (org_id : Text) → State → Bool → State
  unfolding deferred has_active_run start retried
  retry_capped r org_id t true = deferred t
  retry_capped r org_id t false =
      if has_active_run t.db r.target_id now
      then t
      else retried (start run_sync finished now r.target_id org_id change (r.attempt + 1) t)

  -- A run that was tried often enough loses its retry time.
  unfoldable pub give_up : (id : Text) → State → State
  give_up id t = record t {
    db = record t.db {
      runs = update_where (λ s. same s.id id) (λ s. record s { next_retry_at = none }) t.db.runs;
    };
  }

  unfoldable pub retry_row : SyncRun × Text → State → State
  unfolding give_up at_tick_cap at_hourly_cap retry_capped
  retry_row (r, org_id) t =
      let capped = at_hourly_cap t.db t.ctx org_id now in
      if leb max_sync_attempts r.attempt
      then give_up r.id t
      else (if at_tick_cap t.ctx org_id
          then t
          else retry_capped r org_id (record t { ctx = capped.0 }) capped.1)

  unfoldable pub retry_each : List (SyncRun × Text) → State → State
  unfolding retry_row
  retry_each [] t = t
  retry_each (row ∷ rows) t =
      let rest = retry_each rows (retry_row row t) in if t.ctx.left == 0 then t else rest

  unfoldable pub retry_failed : State → State
  unfolding retry_rows retry_each
  retry_failed t = retry_each (retry_rows now t.db) t

  unfoldable pub scheduled : State × Outcome → State
  scheduled (t, ran) = record t {
    tally = record t.tally { schedule_runs = t.tally.schedule_runs + 1 };
  }
  scheduled (t, busy) = t
  scheduled (t, failed_to_start) = record t {
    tally = record t.tally { failures = t.tally.failures + 1 };
  }

  unfoldable pub schedule_capped : SyncTarget → State → Bool → State
  unfolding deferred start scheduled
  schedule_capped row t true = deferred t
  schedule_capped row t false =
      scheduled (start run_sync finished now row.id row.org_id schedule 1 t)

  unfoldable pub schedule_row : SyncTarget → State → State
  unfolding at_tick_cap at_hourly_cap schedule_capped
  schedule_row row t =
      let capped = at_hourly_cap t.db t.ctx row.org_id now in
      if ltb now (or_else row.last_run_at 0 + or_else row.schedule_minutes 0 * 60000)
      then t
      else (if at_tick_cap t.ctx row.org_id
          then t
          else schedule_capped row (record t { ctx = capped.0 }) capped.1)

  unfoldable pub schedule_each : List SyncTarget → State → State
  unfolding schedule_row
  schedule_each [] t = t
  schedule_each (row ∷ rows) t =
      let rest = schedule_each rows (schedule_row row t) in if t.ctx.left == 0 then t else rest

  unfoldable pub run_schedules : State → State
  unfolding schedule_rows schedule_each
  run_schedules t = schedule_each (schedule_rows now t.db) t

  abbrev pub is_old_done : Option ℕ → Bool
  is_old_done none = false
  is_old_done (some time) = ltb time (now - outbox_retention_ms)

  -- `syncTick`, when no step throws.
  unfoldable pub sync_tick : (unit : SyncRun → ℕ) → Db → Db × SyncTickResult
  unfolding sweep_expired_runs drain_outbox retry_failed run_schedules
  sync_tick unit db =
      let swept =
        sweep_expired_runs unit now
          (record { db = db; tally = no_result; ctx = new_tick_context }) in
      let t = run_schedules (retry_failed (drain_outbox run_sync finished now swept)) in
      (record t.db { outbox = filter (λ r. not (is_old_done r.done_at)) t.db.outbox }, t.tally)
