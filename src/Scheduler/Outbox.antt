-- ===== src/Scheduler/Outbox.antt =====
-- The outbox of changes: `safeRun` and `drainOutbox`. `run_sync` stands for any effect of a run on the
-- tables and any answer, none when it throws, and `finished` for the clock after the run of a row.
use hushvault.Base.{
  ℕ, ◌+◌, ◌-◌, ◌*◌, Bool, true, false, not, ◌&&◌, Option, none, some, List, [], ◌∷◌, Text, same,
  leb, ltb, ◌==◌, if◌then◌else◌, filter, any, take,
}
use hushvault.Scheduler.{
  Db, OutboxRow, SyncRun, SyncTrigger, manual, change, schedule, State, at_tick_cap, at_hourly_cap,
  note_started, has_active_run, select_limit, defer_ms, release_backoff_ms, sync_debounce_ms,
  outbox_claim_ms,
}
use hushvault.Scheduler.Crashed.{order_by, update_where}

pub data Outcome : Type 0 where
  ran busy failed_to_start : Outcome

abbrev is_trigger : SyncTrigger → SyncTrigger → Bool
is_trigger manual manual = true
is_trigger manual change = false
is_trigger manual schedule = false
is_trigger change manual = false
is_trigger change change = true
is_trigger change schedule = false
is_trigger schedule manual = false
is_trigger schedule change = false
is_trigger schedule schedule = true

unfoldable pub outcome_of : (trigger : SyncTrigger) → (attempt now : ℕ) → Option SyncRun → Outcome
outcome_of trigger attempt now none = failed_to_start
outcome_of trigger attempt now (some run) =
    if run.started_at == now && (is_trigger run.trigger trigger && run.attempt == attempt)
    then ran
    else busy

-- What a test of an optional time says of a claim.
abbrev pub is_free : Option ℕ → (stale : ℕ) → Bool
is_free none stale = true
is_free (some time) stale = ltb time stale

abbrev pub is_none : Option ℕ → Bool
is_none none = true
is_none (some _) = false

unfoldable pub is_claimable : (now : ℕ) → OutboxRow → Bool
is_claimable now r = is_none r.done_at && is_free r.claimed_at (now - outbox_claim_ms)

abbrev pub with_outbox : (List OutboxRow → List OutboxRow) → State → State
with_outbox f t = record t { db = record t.db { outbox = f t.db.outbox } }

unfoldable pub release : (now backoff_ms : ℕ) → (id : Text) → State → State
release now backoff_ms id = with_outbox (
    update_where (λ r. same r.id id)
      (λ r. record r { claimed_at = none; due_at = now + backoff_ms }))

unfoldable pub complete : (now : ℕ) → (id : Text) → State → State
complete now id =
    with_outbox (update_where (λ r. same r.id id) (λ r. record r { done_at = some now }))

unfoldable pub claim : (now : ℕ) → (id : Text) → State → State
unfolding is_claimable
claim now id = with_outbox (
    update_where (λ r. same r.id id && is_claimable now r)
      (λ r. record r { claimed_at = some now }))

-- Nothing changed since the claim.
abbrev pub is_unchanged : OutboxRow → Bool
is_unchanged r = since r.claimed_at
  where
    since : Option ℕ → Bool
    since none = false
    since (some time) = leb r.changed_at time

abbrev pub wants_change : Db → (target_id : Text) → Bool
wants_change db target_id =
    any (λ t. same t.id target_id && (not t.is_deleted && (t.on_change && t.is_active))) db.targets

unfoldable pub deferred : State → State
deferred t = record t { tally = record t.tally { deferred = t.tally.deferred + 1 } }

module _
    (run_sync : (target_id : Text) → SyncTrigger → (attempt now : ℕ) → Db → Db × Option SyncRun)
    (finished : OutboxRow → ℕ) (now : ℕ) where
  -- The run itself, once it is counted.
  unfoldable pub start :
      (target_id org_id : Text) → SyncTrigger → (attempt : ℕ) → State → State × Outcome
  unfolding note_started outcome_of
  start target_id org_id trigger attempt t =
      let run = run_sync target_id trigger attempt now t.db in
      (
        record t { db = run.0; ctx = note_started t.ctx org_id },
        outcome_of trigger attempt now run.1,
      )

  -- The row is done only if nothing changed after the claim.
  unfoldable pub settle : OutboxRow → State × Outcome → State
  unfolding release
  settle row (t, ran) =
      let settled = any (λ r. same r.id row.id && is_unchanged r) t.db.outbox in
      let counted = record t { tally = record t.tally { change_runs = t.tally.change_runs + 1 } } in
      let done_rows =
        with_outbox
          (update_where (λ r. same r.id row.id && is_unchanged r)
            (λ r. record r { done_at = some (finished row) }))
          counted in
      let released = release now sync_debounce_ms row.id counted in
      if settled then done_rows else released
  settle row (t, busy) = release now release_backoff_ms row.id t
  settle row (t, failed_to_start) =
      release now (5 * release_backoff_ms) row.id
        (record t { tally = record t.tally { failures = t.tally.failures + 1 } })

  unfoldable pub drain_free : OutboxRow → State → State
  unfolding has_active_run release start settle
  drain_free row t =
      if has_active_run t.db row.target_id now
      then release now release_backoff_ms row.id t
      else settle row (start row.target_id row.org_id change 1 t)

  unfoldable pub drain_capped : OutboxRow → State → Bool → State
  unfolding release drain_free deferred
  drain_capped row t true = release now defer_ms row.id (deferred t)
  drain_capped row t false = drain_free row t

  unfoldable pub drain_claimed : OutboxRow → State → State
  unfolding complete drain_capped at_hourly_cap
  drain_claimed row t =
      let capped = at_hourly_cap t.db t.ctx row.org_id now in
      if wants_change t.db row.target_id
      then drain_capped row (record t { ctx = capped.0 }) capped.1
      else complete now row.id t

  unfoldable pub drain_row : OutboxRow → State → State
  unfolding at_tick_cap is_claimable claim drain_claimed
  drain_row row t =
      if at_tick_cap t.ctx row.org_id
      then t
      else (if any (λ r. same r.id row.id && is_claimable now r) t.db.outbox
          then drain_claimed row (claim now row.id t)
          else t)

  unfoldable pub drain_rows : List OutboxRow → State → State
  unfolding drain_row
  drain_rows [] t = t
  drain_rows (row ∷ rows) t =
      let rest = drain_rows rows (drain_row row t) in if t.ctx.left == 0 then t else rest

  unfoldable pub drain_outbox : State → State
  unfolding drain_rows is_claimable order_by
  drain_outbox t =
      drain_rows
        (take select_limit (
          order_by (λ r. r.due_at)
            (filter (λ r. is_claimable now r && leb r.due_at now) t.db.outbox)))
        t
