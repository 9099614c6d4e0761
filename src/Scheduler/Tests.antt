-- ===== src/Scheduler/Tests.antt =====
-- A sweep over small tables.
use hushvault.Base.{
  ℕ, ◌+◌, ◌≤◌, ◌≡◌, true, false, Option, none, some, [], ◌∷◌, Text, codes, length, filter, any,
  arith,
}
use hushvault.Scheduler.{
  Db, SyncRun, SyncTrigger, manual, running, queued, is_expired, select_limit, max_runs_per_tick,
  new_tick_context,
}
use hushvault.Scheduler.Crashed.{sweep_expired_runs}
use hushvault.Scheduler.Tick.{no_result, sync_tick}
use hushvault.Scheduler.Weight.{AddsOne}
use hushvault.Scheduler.Budget.{sync_tick-le}
use hushvault.Scheduler.Expired.{sweep_expired_runs-is_expired}

abbrev crashed : SyncRun
crashed = record {
  id = codes "r";
  target_id = codes "t";
  trigger = manual;
  status = running;
  attempt = 1;
  started_at = 5;
  lease_until = some 9;
  next_retry_at = none;
}

abbrev db : Db
db = record {
  outbox =
      record {
        id = codes "o";
        target_id = codes "t";
        org_id = codes "g";
        changed_at = 5;
        due_at = 6;
        claimed_at = none;
        done_at = none;
      }
      ∷ [];
  targets =
      record {
        id = codes "t";
        org_id = codes "g";
        is_deleted = false;
        is_active = true;
        on_change = true;
        schedule_minutes = none;
        last_run_at = none;
      }
      ∷ [];
  runs = crashed ∷ [];
  plan_of = λ org. some (codes "pro");
}

-- A run that is queued behind the others.
abbrev queue_run : Text → SyncTrigger → (attempt now : ℕ) → Db → Db × Option SyncRun
queue_run target_id trigger attempt now db =
    let run : SyncRun = record {
      id = codes "s";
      target_id = target_id;
      trigger = trigger;
      status = queued;
      attempt = attempt;
      started_at = now;
      lease_until = none;
      next_retry_at = none;
    } in
    (record db { runs = run ∷ db.runs }, some run)

queue_run-AddsOne : AddsOne queue_run
queue_run-AddsOne target_id trigger attempt now db = omega arith

sync_tick-le_example :
    length (sync_tick queue_run (λ row. 20) 10 (λ r. 0) db).0.runs
    ≤ length db.runs + max_runs_per_tick
sync_tick-le_example = sync_tick-le queue_run (λ row. 20) 10 queue_run-AddsOne (λ r. 0) db

one_expired : length (filter (is_expired 10) db.runs) ≤ select_limit
unfolding is_expired
one_expired = omega arith

sweep_expired_runs-is_expired_example :
    any
      (is_expired 10)
      (sweep_expired_runs
        (λ r. 0)
        10
        (record { db = db; tally = no_result; ctx = new_tick_context })).db.runs
    ≡ false
sweep_expired_runs-is_expired_example =
    sweep_expired_runs-is_expired (λ r. 0) 10
      (record { db = db; tally = no_result; ctx = new_tick_context }) one_expired
