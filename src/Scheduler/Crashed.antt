-- ===== src/Scheduler/Crashed.antt =====
-- Runs of workers that crashed, closed by the sweep: `sweepExpiredRuns`. `unit` is the random word of
-- the retry time of a run.
use hushvault.Base.{
  ℕ, ◌+◌, Bool, ◌&&◌, Option, none, some, List, [], ◌∷◌, map, same, ltb, ◌==◌, if◌then◌else◌,
  length, filter, take, or_else,
}
use hushvault.Sync.Plan.{timeout}
use hushvault.Sync.Retry.{compute_next_retry_at}
use hushvault.Scheduler.{SyncRun, failed, State, is_expired, select_limit}

-- Insertion by a key, for `ORDER BY`.
unfoldable pub insert_by {ℓ} : {A : Type ℓ} (key : A → ℕ) → A → List A → List A
insert_by key x [] = x ∷ []
insert_by key x (y ∷ ys) =
    let later = insert_by key x ys in if ltb (key y) (key x) then y ∷ later else x ∷ y ∷ ys

unfoldable pub order_by {ℓ} : {A : Type ℓ} (key : A → ℕ) → List A → List A
unfolding insert_by
order_by key [] = []
order_by key (x ∷ xs) = insert_by key x (order_by key xs)

-- One update of the rows that pass a test.
abbrev pub update_where {ℓ} : {A : Type ℓ} (passes : A → Bool) → (A → A) → List A → List A
update_where passes change_row rows = map (λ r. if passes r then change_row r else r) rows

abbrev pub lease_of : SyncRun → ℕ
lease_of r = or_else r.lease_until 0

unfoldable pub expired_runs : (now : ℕ) → List SyncRun → List SyncRun
unfolding order_by is_expired
expired_runs now runs = take select_limit (order_by lease_of (filter (is_expired now) runs))

unfoldable pub time_out : (now : ℕ) → (next_retry : Option ℕ) → SyncRun → SyncRun
time_out now next_retry r = record r {
  status = failed;
  next_retry_at = next_retry;
  lease_until = none;
}

-- Ids are unique, so that an update closes the one run if it is still expired.
unfoldable pub close_runs :
    (unit : SyncRun → ℕ) → (now : ℕ) → List SyncRun → List SyncRun × ℕ → List SyncRun × ℕ
unfolding time_out is_expired
close_runs unit now [] st = st
close_runs unit now (r ∷ rs) (runs, failures) =
    let open_row : SyncRun → Bool = λ s. same s.id r.id && is_expired now s in
    close_runs unit now rs (
      update_where open_row
          (time_out now (compute_next_retry_at (some timeout) r.attempt now (unit r) none)) runs,
      if length (filter open_row runs) == 1 then failures + 1 else failures,
    )

unfoldable pub sweep_expired_runs : (unit : SyncRun → ℕ) → (now : ℕ) → State → State
unfolding expired_runs close_runs
sweep_expired_runs unit now t =
    let closed = close_runs unit now (expired_runs now t.db.runs) (t.db.runs, t.tally.failures) in
    record t {
      db = record t.db { runs = closed.0 };
      tally = record t.tally { failures = closed.1 };
    }
