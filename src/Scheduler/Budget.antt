-- ===== src/Scheduler/Budget.antt =====
-- How many runs one sweep starts.
use hushvault.Base.{
  ℕ, ◌+◌, ◌*◌, ◌≤◌, ◌<◌, ◌≡◌, ap, Bool, true, false, ◌&&◌, Option, none, List, [], ◌∷◌, Text, same,
  leb, ltb, ◌==◌, if◌then◌else◌, length, filter, take, or_else, arith, inl, inr, Bool-cases,
}
use hushvault.Sync.Retry.{max_sync_attempts}
use hushvault.Scheduler.{
  Db, OutboxRow, SyncTarget, SyncRun, SyncTrigger, change, schedule, State, at_tick_cap,
  at_hourly_cap, has_active_run, select_limit, max_runs_per_tick, new_tick_context,
}
use hushvault.Scheduler.Crashed.{order_by, expired_runs, sweep_expired_runs}
use hushvault.Scheduler.Outbox.{
  Outcome, ran, busy, failed_to_start, is_claimable, start, deferred, drain_outbox,
}
use hushvault.Scheduler.Tick.{
  no_result, retry_rows, retried, retry_capped, give_up, retry_row, retry_each, retry_failed,
  schedule_rows, scheduled, schedule_capped, schedule_row, schedule_each, run_schedules, sync_tick,
}
use hushvault.Scheduler.Weight.{
  weight, left-at_hourly_cap, length-update_where, length-close_runs, weight-branch-le, AddsOne,
  Weighs, weight-start-le, weight-drain_rows-le,
}

module _
    (run_sync : (target_id : Text) → SyncTrigger → (attempt now : ℕ) → Db → Db × Option SyncRun)
    (finished : OutboxRow → ℕ) (now : ℕ) (adds : AddsOne run_sync) where
  weight-retried-le :
      (t : State) (o : Outcome) → weight (retried run_sync finished now (t, o)) ≤ weight t
  unfolding retried
  weight-retried-le t ran = omega arith
  weight-retried-le t busy = omega arith
  weight-retried-le t failed_to_start = omega arith

  weight-retry_capped-le :
      (r : SyncRun) (org_id : Text) (t : State) (capped : Bool)
      → 0 < t.ctx.left
      → weight (retry_capped run_sync finished now r org_id t capped) ≤ weight t
  unfolding retry_capped
  weight-retry_capped-le r org_id t true h = unfold deferred in omega arith
  weight-retry_capped-le r org_id t false h =
      let st = start run_sync finished now r.target_id org_id change (r.attempt + 1) t in
      weight-branch-le (has_active_run t.db r.target_id now) t (retried run_sync finished now st)
        (weight t) (omega arith)
        (omega (
          arith,
          weight-retried-le st.0 st.1,
          weight-start-le run_sync finished now adds r.target_id org_id change (r.attempt + 1) t h,
        ))

  weight-give_up : (id : Text) (t : State) → weight (give_up run_sync finished now id t) ≡ weight t
  unfolding give_up
  weight-give_up id t =
      ap (λ n. n + t.ctx.left)
        (length-update_where (λ s. same s.id id) (λ s. record s { next_retry_at = none }) t.db.runs)

  weight-retry_row-le : (row : SyncRun × Text) → Weighs (retry_row run_sync finished now row)
  unfolding retry_row
  weight-retry_row-le (r, org_id) t h =
      let capped = at_hourly_cap t.db t.ctx org_id now in
      let same_left = left-at_hourly_cap t.db t.ctx org_id now in
      let tried =
        retry_capped run_sync finished now r org_id (record t { ctx = capped.0 }) capped.1 in
      weight-branch-le (leb max_sync_attempts r.attempt) (give_up run_sync finished now r.id t)
        (if at_tick_cap t.ctx org_id then t else tried) (weight t)
        (omega (arith, weight-give_up r.id t))
        (weight-branch-le (at_tick_cap t.ctx org_id) t tried (weight t) (omega arith) (
          omega (
            arith,
            weight-retry_capped-le r org_id (record t { ctx = capped.0 }) capped.1
                (omega (arith, h, same_left)),
            same_left,
          )))

  weight-retry_each-le :
      (rows : List (SyncRun × Text)) (t : State)
      → weight (retry_each run_sync finished now rows t) ≤ weight t
  unfolding retry_each
  weight-retry_each-le [] t = omega arith
  weight-retry_each-le (row ∷ rows) t =
      let rest = weight-retry_each-le rows (retry_row run_sync finished now row t) in
      elim (Bool-cases (t.ctx.left == 0)) [
        | inl spent ↦ rw spent (omega arith)
        | inr left ↦ rw left (omega (arith, rest, weight-retry_row-le row t (ground (arith, left))))
      ]

  weight-scheduled-le :
      (t : State) (o : Outcome) → weight (scheduled run_sync finished now (t, o)) ≤ weight t
  unfolding scheduled
  weight-scheduled-le t ran = omega arith
  weight-scheduled-le t busy = omega arith
  weight-scheduled-le t failed_to_start = omega arith

  weight-schedule_capped-le :
      (row : SyncTarget) (t : State) (capped : Bool)
      → 0 < t.ctx.left
      → weight (schedule_capped run_sync finished now row t capped) ≤ weight t
  unfolding schedule_capped
  weight-schedule_capped-le row t true h = unfold deferred in omega arith
  weight-schedule_capped-le row t false h =
      let st = start run_sync finished now row.id row.org_id schedule 1 t in
      omega (
        arith,
        weight-scheduled-le st.0 st.1,
        weight-start-le run_sync finished now adds row.id row.org_id schedule 1 t h,
      )

  weight-schedule_row-le : (row : SyncTarget) → Weighs (schedule_row run_sync finished now row)
  unfolding schedule_row
  weight-schedule_row-le row t h =
      let capped = at_hourly_cap t.db t.ctx row.org_id now in
      let same_left = left-at_hourly_cap t.db t.ctx row.org_id now in
      let tried =
        schedule_capped run_sync finished now row (record t { ctx = capped.0 }) capped.1 in
      weight-branch-le
        (ltb now (or_else row.last_run_at 0 + or_else row.schedule_minutes 0 * 60000)) t
        (if at_tick_cap t.ctx row.org_id then t else tried) (weight t) (omega arith)
        (weight-branch-le (at_tick_cap t.ctx row.org_id) t tried (weight t) (omega arith) (
          omega (
            arith,
            weight-schedule_capped-le row (record t { ctx = capped.0 }) capped.1
                (omega (arith, h, same_left)),
            same_left,
          )))

  weight-schedule_each-le :
      (rows : List SyncTarget) (t : State)
      → weight (schedule_each run_sync finished now rows t) ≤ weight t
  unfolding schedule_each
  weight-schedule_each-le [] t = omega arith
  weight-schedule_each-le (row ∷ rows) t =
      let rest = weight-schedule_each-le rows (schedule_row run_sync finished now row t) in
      elim (Bool-cases (t.ctx.left == 0)) [
        | inl spent ↦ rw spent (omega arith)
        | inr left ↦
            rw left (omega (arith, rest, weight-schedule_row-le row t (ground (arith, left))))
      ]

  weight-drain_outbox-le : (t : State) → weight (drain_outbox run_sync finished now t) ≤ weight t
  unfolding drain_outbox
  weight-drain_outbox-le t =
      weight-drain_rows-le run_sync finished now adds
        (take select_limit (
          order_by (λ r. r.due_at)
            (filter (λ r. is_claimable now r && leb r.due_at now) t.db.outbox)))
        t

  weight-retry_failed-le : (t : State) → weight (retry_failed run_sync finished now t) ≤ weight t
  unfolding retry_failed
  weight-retry_failed-le t = weight-retry_each-le (retry_rows now t.db) t

  weight-run_schedules-le : (t : State) → weight (run_schedules run_sync finished now t) ≤ weight t
  unfolding run_schedules
  weight-run_schedules-le t = weight-schedule_each-le (schedule_rows now t.db) t

  weight-sweep_expired_runs :
      (unit : SyncRun → ℕ) (t : State) → weight (sweep_expired_runs unit now t) ≡ weight t
  unfolding sweep_expired_runs
  weight-sweep_expired_runs unit t =
      ap (λ n. n + t.ctx.left)
        (length-close_runs unit now (expired_runs now t.db.runs) t.db.runs t.tally.failures)

  -- One sweep adds at most ten runs to those there are, when a run adds at most one.
  pub sync_tick-le :
      (unit : SyncRun → ℕ) (db : Db)
      → length (sync_tick run_sync finished now unit db).0.runs ≤ length db.runs + max_runs_per_tick
  unfolding sync_tick
  sync_tick-le unit db =
      let begun : State = record { db = db; tally = no_result; ctx = new_tick_context } in
      let swept = sweep_expired_runs unit now begun in
      let drained = drain_outbox run_sync finished now swept in
      let retried = retry_failed run_sync finished now drained in
      omega (
        arith,
        weight-run_schedules-le retried,
        weight-retry_failed-le drained,
        weight-drain_outbox-le swept,
        weight-sweep_expired_runs unit begun,
      )
