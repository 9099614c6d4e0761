-- ===== src/Scheduler/Weight.antt =====
-- The runs that there are and those that may still be started: what one row of the outbox does to them.
use hushvault.Base.{
  ℕ, suc, ◌+◌, ◌≤◌, ◌<◌, ◌≡◌, refl, ap, ◌∙◌, Bool, true, false, ◌&&◌, Option, none, some, List, [],
  ◌∷◌, Text, same, ◌==◌, if◌then◌else◌, length, filter, any, arith, inl, inr, Bool-cases,
}
use hushvault.Plans.{Limit, unlimited, at_most, entitlements_for_plan}
use hushvault.Sync.Plan.{timeout}
use hushvault.Sync.Retry.{compute_next_retry_at}
use hushvault.Scheduler.{
  Db, OutboxRow, SyncRun, SyncTrigger, change, TickContext, State, value_at, limit_or,
  org_hourly_limit, auto_runs_last_hour, base_or, is_spent, at_tick_cap, at_hourly_cap,
  note_started, is_expired, has_active_run, release_backoff_ms, sync_debounce_ms,
}
use hushvault.Scheduler.Crashed.{time_out, update_where, close_runs}
use hushvault.Scheduler.Outbox.{
  is_unchanged, Outcome, ran, busy, failed_to_start, is_claimable, with_outbox, release, complete,
  claim, wants_change, start, settle, drain_free, deferred, drain_capped, drain_claimed, drain_row,
  drain_rows,
}

-- The runs that there are and those that may still be started.
abbrev pub weight : State → ℕ
weight t = length t.db.runs + t.ctx.left

left-limit_or :
    (cached : Option Limit) (fresh : Limit) (org_id : Text) (ctx : TickContext)
    → (limit_or cached fresh org_id ctx).0.left ≡ ctx.left
unfolding limit_or
left-limit_or none fresh org_id ctx = refl
left-limit_or (some cached) fresh org_id ctx = refl

left-base_or :
    (cached : Option ℕ) (fresh : ℕ) (org_id : Text) (ctx : TickContext)
    → (base_or cached fresh org_id ctx).0.left ≡ ctx.left
unfolding base_or
left-base_or none fresh org_id ctx = refl
left-base_or (some cached) fresh org_id ctx = refl

left-is_spent :
    (db : Db) (org_id : Text) (now : ℕ) (p : TickContext × Limit)
    → (is_spent db org_id now p).0.left ≡ p.0.left
unfolding is_spent
left-is_spent db org_id now (ctx, unlimited) = refl
left-is_spent db org_id now (ctx, at_most limit) =
    left-base_or (value_at ctx.base_hour_count org_id) (auto_runs_last_hour db org_id now) org_id
      ctx

-- Looking at the hour takes nothing from the budget.
pub left-at_hourly_cap :
    (db : Db) (ctx : TickContext) (org_id : Text) (now : ℕ)
    → (at_hourly_cap db ctx org_id now).0.left ≡ ctx.left
unfolding at_hourly_cap org_hourly_limit
left-at_hourly_cap db ctx org_id now =
    let fresh = (entitlements_for_plan (db.plan_of org_id)).auto_runs_per_hour in
    left-is_spent db org_id now (org_hourly_limit db ctx org_id)
    ∙ left-limit_or (value_at ctx.hourly_limit org_id) fresh org_id ctx

pub length-update_where {ℓ} :
    {A : Type ℓ} (passes : A → Bool) (f : A → A) (rows : List A)
    → length (update_where passes f rows) ≡ length rows
length-update_where passes f [] = refl
length-update_where passes f (r ∷ rs) = ap suc (length-update_where passes f rs)

pub length-close_runs :
    (unit : SyncRun → ℕ) (now : ℕ) (rs runs : List SyncRun) (failures : ℕ)
    → length (close_runs unit now rs (runs, failures)).0 ≡ length runs
unfolding close_runs
length-close_runs unit now [] runs failures = refl
length-close_runs unit now (r ∷ rs) runs failures =
    let open_row : SyncRun → Bool = λ s. same s.id r.id && is_expired now s in
    let close_row =
      time_out now (compute_next_retry_at (some timeout) r.attempt now (unit r) none) in
    length-close_runs unit now rs (update_where open_row close_row runs)
      (if length (filter open_row runs) == 1 then failures + 1 else failures)
    ∙ length-update_where open_row close_row runs

-- Either branch weighs no more.
pub weight-branch-le :
    (b : Bool) (s u : State) (n : ℕ) → weight s ≤ n → weight u ≤ n → weight (if b then s else u) ≤ n
weight-branch-le true s u n h k = h
weight-branch-le false s u n h k = k

-- A run adds at most one row to the table of runs.
abbrev pub AddsOne :
    ((target_id : Text) → SyncTrigger → (attempt now : ℕ) → Db → Db × Option SyncRun) → Type 0
AddsOne run_sync =
    (target_id : Text) (trigger : SyncTrigger) (attempt now : ℕ) (db : Db)
    → length (run_sync target_id trigger attempt now db).0.runs ≤ length db.runs + 1

abbrev pub Weighs : (State → State) → Type 0
Weighs step = (t : State) → 0 < t.ctx.left → weight (step t) ≤ weight t

module _
    (run_sync : (target_id : Text) → SyncTrigger → (attempt now : ℕ) → Db → Db × Option SyncRun)
    (finished : OutboxRow → ℕ) (now : ℕ) (adds : AddsOne run_sync) where
  pub weight-start-le :
      (target_id org_id : Text) (trigger : SyncTrigger) (attempt : ℕ) (t : State)
      → 0 < t.ctx.left
      → weight (start run_sync finished now target_id org_id trigger attempt t).0 ≤ weight t
  unfolding start note_started
  weight-start-le target_id org_id trigger attempt t h =
      omega (arith, adds target_id trigger attempt now t.db, h)

  weight-settle-le :
      (row : OutboxRow) (t : State) (o : Outcome)
      → weight (settle run_sync finished now row (t, o)) ≤ weight t
  unfolding settle release
  weight-settle-le row t ran =
      let counted = record t { tally = record t.tally { change_runs = t.tally.change_runs + 1 } } in
      weight-branch-le (any (λ r. same r.id row.id && is_unchanged r) t.db.outbox)
        (with_outbox
          (update_where (λ r. same r.id row.id && is_unchanged r)
            (λ r. record r { done_at = some (finished row) }))
          counted)
        (release now sync_debounce_ms row.id counted) (weight t) (omega arith) (omega arith)
  weight-settle-le row t busy = omega arith
  weight-settle-le row t failed_to_start = omega arith

  weight-drain_free-le : (row : OutboxRow) → Weighs (drain_free run_sync finished now row)
  unfolding drain_free release
  weight-drain_free-le row t h =
      let st = start run_sync finished now row.target_id row.org_id change 1 t in
      weight-branch-le (has_active_run t.db row.target_id now)
        (release now release_backoff_ms row.id t) (settle run_sync finished now row st) (weight t)
        (omega arith)
        (omega (
          arith,
          weight-settle-le row st.0 st.1,
          weight-start-le row.target_id row.org_id change 1 t h,
        ))

  weight-drain_capped-le :
      (row : OutboxRow) (t : State) (capped : Bool)
      → 0 < t.ctx.left
      → weight (drain_capped run_sync finished now row t capped) ≤ weight t
  unfolding drain_capped
  weight-drain_capped-le row t true h = unfold release in unfold deferred in omega arith
  weight-drain_capped-le row t false h = weight-drain_free-le row t h

  weight-drain_claimed-le : (row : OutboxRow) → Weighs (drain_claimed run_sync finished now row)
  unfolding drain_claimed complete
  weight-drain_claimed-le row t h =
      let capped = at_hourly_cap t.db t.ctx row.org_id now in
      let same_left = left-at_hourly_cap t.db t.ctx row.org_id now in
      weight-branch-le (wants_change t.db row.target_id)
        (drain_capped run_sync finished now row (record t { ctx = capped.0 }) capped.1)
        (complete now row.id t) (weight t)
        (omega (
          arith,
          weight-drain_capped-le row (record t { ctx = capped.0 }) capped.1
              (omega (arith, h, same_left)),
          same_left,
        ))
        (omega arith)

  weight-drain_row-le : (row : OutboxRow) → Weighs (drain_row run_sync finished now row)
  unfolding drain_row claim
  weight-drain_row-le row t h =
      let claimed = claim now row.id t in
      let fresh = any (λ r. same r.id row.id && is_claimable now r) t.db.outbox in
      weight-branch-le (at_tick_cap t.ctx row.org_id) t
        (if fresh then drain_claimed run_sync finished now row claimed else t) (weight t)
        (omega arith)
        (weight-branch-le fresh (drain_claimed run_sync finished now row claimed) t (weight t)
          (omega (arith, weight-drain_claimed-le row claimed h)) (omega arith))

  pub weight-drain_rows-le :
      (rows : List OutboxRow) (t : State)
      → weight (drain_rows run_sync finished now rows t) ≤ weight t
  unfolding drain_rows
  weight-drain_rows-le [] t = omega arith
  weight-drain_rows-le (row ∷ rows) t =
      let rest = weight-drain_rows-le rows (drain_row run_sync finished now row t) in
      elim (Bool-cases (t.ctx.left == 0)) [
        | inl spent ↦ rw spent (omega arith)
        | inr left ↦ rw left (omega (arith, rest, weight-drain_row-le row t (ground (arith, left))))
      ]
