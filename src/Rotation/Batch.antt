-- ===== src/Rotation/Batch.antt =====
-- The batches of `drive`: which rows a tick takes, and what one chunk writes.
use hushvault.Base.{
  ℕ, ◌+◌, min, Bool, not, ◌&&◌, Option, none, some, List, [], ◌∷◌, map, take, filter, Text, same,
  less, ltb, ◌==◌, if◌then◌else◌, or_else,
}
use hushvault.Rotation.State.{
  Code, key_version_unavailable, unwrap_failed, Outcome, ok, err, KeyRing, Row, Table, secrets,
  connections, Phase, at_table, retired, Job, Failure, Db, rows_of, with_rows, update_running,
  is_quarantined, insert_failure,
}

abbrev pub write_chunk : ℕ
write_chunk = 50

abbrev pub lease_ms : ℕ
lease_ms = 90000

-- `batchSizeFrom`: the option, else the variable, if it is a number.
unfoldable pub batch_size_from : (variable override : Option ℕ) → ℕ
batch_size_from variable override = clip (if_given override variable)
  where
    if_given : Option ℕ → Option ℕ → Option ℕ
    if_given none b = b
    if_given (some a) b = some a

    clip : Option ℕ → ℕ
    clip none = 100
    clip (some raw) = if ltb raw 1 then 100 else min raw 500

abbrev pub phase_for : Phase → Table
phase_for (at_table t) = t
phase_for retired = secrets

abbrev pub cursor_of : Table → Job → Option Text
cursor_of secrets j = j.secrets_cursor
cursor_of connections j = j.connections_cursor

abbrev pub with_cursor : Table → Option Text → Job → Job
with_cursor secrets c j = record j { secrets_cursor = c }
with_cursor connections c j = record j { connections_cursor = c }

-- A row that the rotation has still to settle.
unfoldable pub is_pending : Job → Table → List Failure → Row → Bool
is_pending job table failures row =
    not (row.key_version == job.to_version) && not (is_quarantined job.id table failures row.id)

-- `ORDER BY id`.
unfoldable pub insert_by_id : Row → List Row → List Row
insert_by_id row [] = row ∷ []
insert_by_id row (r ∷ rows) =
    let later = insert_by_id row rows in if less r.id row.id then r ∷ later else row ∷ r ∷ rows

unfoldable pub order_by_id : List Row → List Row
unfolding insert_by_id
order_by_id [] = []
order_by_id (row ∷ rows) = insert_by_id row (order_by_id rows)

-- The batch: pending rows behind the cursor, in order of their ids.
unfoldable pub select_rows : Job → Table → (limit : ℕ) → Db → List Row
unfolding is_pending order_by_id
select_rows job table limit db = take limit (
    order_by_id (
      filter
        (λ r. less (or_else (cursor_of table job) []) r.id && is_pending job table db.failures r)
        (rows_of table db)))

pub data Plan : Type 0 where
  write : (row : Row) (next : Text) → Plan
  quarantine : (row : Row) → Code → Plan

-- The compare-and-swap: the row is written only if it still is what was read.
unfoldable pub swap_row : (to_version : ℕ) → Row → Text → Row → Row
swap_row to_version read next r =
    if same r.id read.id
      && (same r.wrapped_dek read.wrapped_dek && r.key_version == read.key_version)
    then record r { wrapped_dek = next; key_version = to_version }
    else r

unfoldable pub swap_changes : Row → List Row → ℕ
swap_changes read [] = 0
swap_changes read (r ∷ rows) =
    (if same r.id read.id
        && (same r.wrapped_dek read.wrapped_dek && r.key_version == read.key_version)
      then 1
      else 0)
    + swap_changes read rows

pub record Tally : Type 0 where
  pub rewrapped : ℕ
  pub skipped : ℕ
  pub failed_rows : ℕ

abbrev pub no_rows : Tally
no_rows = record { rewrapped = 0; skipped = 0; failed_rows = 0 }

module _ (ring : KeyRing) where
  open ring use {Key, has_version, get_key, rewrap}

  plan_next : Row → Option Text → Plan
  plan_next row none = quarantine row unwrap_failed
  plan_next row (some next) = write row next

  plan_with : Row → Key → Outcome Key → Plan
  unfolding plan_next
  plan_with row to_key (err e) = quarantine row unwrap_failed
  plan_with row to_key (ok from_key) = plan_next row (rewrap row.wrapped_dek from_key to_key row.id)

  unfoldable pub plan_row : Key → Row → Plan
  unfolding plan_with
  plan_row to_key row =
      if has_version row.key_version
      then plan_with row to_key (get_key row.key_version)
      else quarantine row key_version_unavailable

-- The `writes` of a chunk, one after the other, with the rows that each changes.
unfoldable pub run_writes : (job : Job) → Table → List Plan → Db → Tally → Db × Tally
run_writes job table [] db tally = (db, tally)
run_writes job table (quarantine row code ∷ plans) db tally = run_writes job table plans db tally
run_writes job table (write row next ∷ plans) db tally =
    let hit = swap_changes row (rows_of table db) == 1 in
    run_writes job table plans
      (with_rows table (map (swap_row job.to_version row next) (rows_of table db)) db)
      (if hit
        then record tally { rewrapped = tally.rewrapped + 1 }
        else record tally { skipped = tally.skipped + 1 })

unfoldable pub run_failures : (job : Job) → Table → List Plan → Db → Db
run_failures job table [] db = db
run_failures job table (write row next ∷ plans) db = run_failures job table plans db
run_failures job table (quarantine row code ∷ plans) db = run_failures job table plans (record db {
  failures =
      insert_failure
        (record { rotation_id = job.id; table_name = table; row_id = row.id; error_code = code })
        db.failures;
})

abbrev pub failed_in : List Plan → ℕ
failed_in [] = 0
failed_in (write row next ∷ plans) = failed_in plans
failed_in (quarantine row code ∷ plans) = failed_in plans + 1

last_id : List Row → Option Text → Option Text
last_id [] cursor = cursor
last_id (r ∷ rows) cursor = last_id rows (some r.id)

-- One chunk: its writes, its failures, the cursor, and the count of the failures, in one batch.
unfoldable pub run_chunk :
    (ring : KeyRing)
    → ring.Key
    → (job : Job) → Table
    → (now : ℕ) → List Row
    → Db
    → Tally
    → Db × Tally
unfolding last_id
run_chunk ring to_key job table now chunk db tally =
    let plans = map (plan_row ring to_key) chunk in
    let (written, tally') = run_writes job table plans db tally in
    let settled = run_failures job table plans written in
    let failed = failed_in plans in
    let moved =
      update_running job.id
        (λ j. record (with_cursor table (last_id chunk (cursor_of table job)) j) {
          updated_at = now;
        })
        settled in
    (
      (if ltb 0 failed
          then update_running job.id
              (λ j. record j { failed_rows = j.failed_rows + failed; updated_at = now }) moved
          else moved),
      record tally' { failed_rows = tally'.failed_rows + failed },
    )
