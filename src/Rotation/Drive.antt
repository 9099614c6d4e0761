-- ===== src/Rotation/Drive.antt =====
-- `drive`: one tick of a running rotation. `others n` is what other clients have done to the
-- database by the time of the n-th batch of the tick.
use hushvault.Base.{
  ℕ, suc, ◌+◌, Bool, true, false, ◌&&◌, Option, none, some, List, [], ◌∷◌, map, filter, length,
  chunked, Text, same, ltb, ◌==◌, if◌then◌else◌,
}
use hushvault.Rotation.State.{
  Code, Outcome, ok, err, KeyRing, Row, Table, secrets, connections, at_table, completed,
  completed_with_errors, is_running, Job, Db, rotation_error, rotation_completed,
  rotation_completed_with_errors, TickResult, busy, progress, done, error, rows_of, update_running,
  audit_all_orgs,
}
use hushvault.Rotation.Batch.{
  write_chunk, lease_ms, phase_for, is_pending, select_rows, Tally, no_rows, run_chunk,
}

unfoldable pub run_chunks :
    (ring : KeyRing)
    → ring.Key
    → (job : Job) → Table
    → (now : ℕ) → (others : ℕ → Db → Db) → (n : ℕ) → List (List Row)
    → Db
    → Tally
    → Db × Tally
run_chunks ring to_key job table now others n [] db tally = (db, tally)
run_chunks ring to_key job table now others n (chunk ∷ chunks) db tally =
    let (db', tally') = run_chunk ring to_key job table now chunk (others n db) tally in
    run_chunks ring to_key job table now others (suc n) chunks db' tally'

unfoldable pub count_pending : Job → Table → Db → ℕ
count_pending job table db = length (filter (is_pending job table db.failures) (rows_of table db))

unfoldable pub count_remaining : Job → Db → ℕ
unfolding count_pending
count_remaining job db = count_pending job secrets db + count_pending job connections db

unfoldable pub count_failures : Job → Db → ℕ
count_failures job db = length (filter (λ f. same f.rotation_id job.id) db.failures)

unfoldable pub running_jobs : Text → Db → ℕ
running_jobs id db = length (filter (λ j. same j.id id && is_running j.status) db.jobs)

-- The counter is set to the number of the quarantine rows.
unfoldable pub reconcile : Job → Db → Db
reconcile job db = update_running job.id (λ j. record j { failed_rows = count_failures job db }) db

unfoldable pub end_job : Job → (now : ℕ) → (clean : Bool) → Db → Db
end_job job now clean db =
    update_running job.id
      (λ j. record j {
        status = if clean then completed else completed_with_errors;
        updated_at = now;
        lease_until = none;
        lease_owner = none;
      })
      db

-- Every table is done and nothing remains: the job ends, with or without errors.
unfoldable pub finish : Job → (now : ℕ) → Db → Db × TickResult
finish job now db =
    let clean = count_failures job db == 0 in
    let counted = reconcile job db in
    let ended = end_job job now clean counted in
    (
      (if running_jobs job.id counted == 1
          then audit_all_orgs (if clean then rotation_completed else rotation_completed_with_errors)
              job.to_version ended
          else ended),
      done (count_failures job db),
    )

-- After the last table: another pass if rows remain, else the end.
unfoldable pub converge : Job → (now : ℕ) → Tally → Db → Db × TickResult
converge job now t db =
    if ltb 0 (count_remaining job db)
    then (
      update_running job.id
          (λ j. record j {
            phase = at_table secrets;
            secrets_cursor = none;
            connections_cursor = none;
            updated_at = now;
          })
          db,
      progress t.rewrapped t.skipped t.failed_rows,
    )
    else finish job now db

-- After the rows of the tick: more of this table, the next table, or `converge`.
unfoldable pub advance : Job → Table → (now : ℕ) → (full : Bool) → Tally → Db → Db × TickResult
advance job table now true t db = (db, progress t.rewrapped t.skipped t.failed_rows)
advance job secrets now false t db = (
  update_running job.id
      (λ j. record j { phase = at_table connections; connections_cursor = none; updated_at = now })
      db,
  progress t.rewrapped t.skipped t.failed_rows,
)
advance job connections now false t db = converge job now t db

unfoldable pub drive_rows :
    (ring : KeyRing)
    → ring.Key
    → Job
    → (now limit : ℕ) → (others : ℕ → Db → Db) → Db
    → Db × TickResult
drive_rows ring to_key job now limit others db =
    let table = phase_for job.phase in
    let rows = select_rows job table limit db in
    let (chunked_db, t) =
      run_chunks ring to_key job table now others 0 (chunked write_chunk rows) db no_rows in
    let counted =
      update_running job.id
        (λ j. record j {
          rewrapped = j.rewrapped + t.rewrapped;
          skipped = j.skipped + t.skipped;
          last_error_code = none;
          updated_at = now;
        })
        chunked_db in
    advance job table now (length rows == limit) t counted

code_number : Code → ℕ
code_number Code.key_version_unavailable = 0
code_number Code.key_invalid = 1
code_number Code.key_version_invalid = 2
code_number Code.key_check_failed = 3
code_number Code.unwrap_failed = 4
code_number Code.bootstrap_failed = 5
code_number Code.tick_failed = 6

same_code : Option Code → Code → Bool
unfolding code_number
same_code none c = false
same_code (some d) c = code_number d == code_number c

-- A missing key does not end the job: it stays running and is tried again.
unfoldable pub hold_on_error : Job → Code → (now : ℕ) → Db → Db × TickResult
unfolding same_code
hold_on_error job code now db =
    let held =
      update_running job.id
        (λ j. record j {
          last_error_code = some code;
          updated_at = now;
          lease_until = none;
          lease_owner = none;
        })
        db in
    (
      (if same_code job.last_error_code code
          then held
          else audit_all_orgs rotation_error job.to_version held),
      error code,
    )

unfoldable pub with_keys :
    (ring : KeyRing)
    → Outcome ring.Key
    → Outcome ring.Key
    → Job
    → (now limit : ℕ) → (others : ℕ → Db → Db) → Db
    → Db × TickResult
with_keys ring (err c) from_key job now limit others db = hold_on_error job c now db
with_keys ring (ok to_key) (err c) job now limit others db = hold_on_error job c now db
with_keys ring (ok to_key) (ok _) job now limit others db =
    drive_rows ring to_key job now limit others db

lease_free : Option ℕ → ℕ → Bool
lease_free none now = true
lease_free (some until) now = ltb until now

can_lease : Text → ℕ → Job → Bool
unfolding lease_free
can_lease id now j = same j.id id && (is_running j.status && lease_free j.lease_until now)

unfoldable pub take_lease : Text → (owner : Text) → (now : ℕ) → Db → Db
unfolding can_lease
take_lease id owner now db = record db {
  jobs =
      map
        (λ j.
          if can_lease id now j
          then record j { lease_owner = some owner; lease_until = some (now + lease_ms) }
          else j)
        db.jobs;
}

unfoldable pub leases : Text → (now : ℕ) → Db → ℕ
unfolding can_lease
leases id now db = length (filter (can_lease id now) db.jobs)

unfoldable pub owns : Text → Option Text → Bool
owns owner none = false
owns owner (some o) = same o owner

unfoldable pub release_lease : Text → (owner : Text) → Db → Db
unfolding owns
release_lease id owner db = record db {
  jobs =
      map
        (λ j.
          if same j.id id && owns owner j.lease_owner
          then record j { lease_until = none; lease_owner = none }
          else j)
        db.jobs;
}

unfoldable pub drive :
    (ring : KeyRing)
    → Job
    → (owner : Text) → (now limit : ℕ) → (others : ℕ → Db → Db) → Db
    → Db × TickResult
drive ring job owner now limit others db =
    let leased = take_lease job.id owner now db in
    if leases job.id now db == 1
    then (let (after, result) =
          with_keys ring (ring.get_key job.to_version) (ring.get_key job.from_version) job now limit
            others leased in
        (release_lease job.id owner after, result))
    else (leased, busy)
