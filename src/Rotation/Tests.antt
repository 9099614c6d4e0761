-- ===== src/Rotation/Tests.antt =====
-- A tick on a concrete database, under a ring whose keys are numbers and whose wrapped data keys
-- are the data key behind the number of the key.
use hushvault.Base.{
  ℕ, ◌≡◌, refl, Bool, ◌&&◌, ◌||◌, All, List, Option, none, some, [], ◌∷◌, Text, codes, same, less,
  has, leb, ◌==◌, if◌then◌else◌, arith,
}
use hushvault.Rotation.State.{
  key_version_unavailable, unwrap_failed, Outcome, ok, err, KeyRing, Row, secrets, connections,
  at_table, running, Job, active, Db, done, update_running, audit_all_orgs, is_quarantined,
  insert_failure,
}
use hushvault.Rotation.Drive.{
  run_chunks, count_pending, count_remaining, count_failures, running_jobs, reconcile, end_job,
  finish, converge, advance, drive_rows, hold_on_error, with_keys, take_lease, leases, owns,
  release_lease, drive,
}
use hushvault.Rotation.Tick.{
  Tick, is_active, active_key, running_job, key_row, set_status, version_of, write_version, lesser,
  least_other, sample_opens, check_holds, register, bootstrap_with, attempt_bootstrap, backs_off,
  settle, waiting, bootstrap, switch_on, new_job, start_rotation, activate_with, activate,
  pause_running, pause_any, driven, with_active, rotation_tick,
}
use hushvault.Rotation.Batch.{
  is_pending, insert_by_id, order_by_id, select_rows, swap_row, swap_changes, plan_row, run_writes,
  run_failures, run_chunk,
}
use hushvault.Rotation.Preserve.{KeptDb, opened, open_with}
use hushvault.Rotation.Readable.{
  IsReadable, AllReadable, rotation_tick-KeptDb, rotation_tick-AllReadable,
}
use hushvault.Rotation.Complete.{Ended, rotation_tick-Ended}

abbrev key_of : ℕ → Outcome ℕ
key_of version = if leb 1 version && leb version 2 then ok version else err key_version_unavailable

abbrev unwrap_toy : Text → ℕ → Text → Option Text
unwrap_toy [] key id = none
unwrap_toy (k ∷ dek) key id = if k == key then some dek else none

abbrev rewrap_toy : Text → ℕ → ℕ → Text → Option Text
rewrap_toy [] from to id = none
rewrap_toy (k ∷ dek) from to id = if k == from then some (to ∷ dek) else none

rewrap_toy-opens :
    (wrapped next id : Text) (from to : ℕ)
    → rewrap_toy wrapped from to id ≡ some next
    → unwrap_toy next to id ≡ unwrap_toy wrapped from id
rewrap_toy-opens [] next id from to e = cc
rewrap_toy-opens (k ∷ dek) [] id from to e = ground arith
rewrap_toy-opens (k ∷ dek) (n ∷ dek') id from to e = ground arith

abbrev toy : KeyRing
toy = record {
  Key = ℕ;
  active_version = 2;
  has_version = λ version. leb 1 version && leb version 2;
  get_key = key_of;
  unwrap = unwrap_toy;
  rewrap = rewrap_toy;
  make_check = λ key. key ∷ [];
  verify_check = λ key check. same check (key ∷ []);
  rewrap_opens = rewrap_toy-opens;
}

abbrev job : Job
job = record {
  id = codes "krt_1";
  from_version = 1;
  to_version = 2;
  status = running;
  phase = at_table connections;
  secrets_cursor = none;
  connections_cursor = none;
  rewrapped = 1;
  skipped = 0;
  failed_rows = 1;
  last_error_code = some unwrap_failed;
  lease_owner = none;
  lease_until = none;
  updated_at = 1000;
}

-- One row is re-wrapped already; the other cannot be, and is on the list of failures.
abbrev nearly_done : Db
nearly_done = record {
  secret_rows =
      record { id = codes "a"; sealed = codes "1"; wrapped_dek = 2 ∷ 77 ∷ []; key_version = 2 }
      ∷ [];
  connection_rows =
      record { id = codes "c"; sealed = codes "0"; wrapped_dek = 9 ∷ 78 ∷ []; key_version = 1 }
      ∷ [];
  keys = record { version = 2; check_value = 2 ∷ []; key_status = active } ∷ [];
  jobs = job ∷ [];
  failures =
      record {
        rotation_id = codes "krt_1";
        table_name = connections;
        row_id = codes "c";
        error_code = unwrap_failed;
      }
      ∷ [];
  bootstrap_failure = none;
  audit = [];
}

-- One row is still under the old key.
abbrev half_way : Db
half_way = record nearly_done {
  secret_rows =
      record { id = codes "a"; sealed = codes "1"; wrapped_dek = 1 ∷ 77 ∷ []; key_version = 1 }
      ∷ [];
  connection_rows = [];
  failures = [];
  jobs = record job { phase = at_table secrets } ∷ [];
}

abbrev tick : Tick
tick = record {
  now = 5000;
  limit = 100;
  owner = codes "w1";
  job_id = codes "krt_2";
  others = λ n db. db;
}

rotation_tick-KeptDb_example : KeptDb toy half_way (rotation_tick toy tick half_way).0
rotation_tick-KeptDb_example = rotation_tick-KeptDb toy tick half_way (λ n x. refl)

-- The data key 77 is that of revision 1, and 88 that of revision 2.
abbrev decrypts : (record_id sealed dek : Text) → Bool
decrypts id sealed dek =
    same sealed (codes "1") && same dek (77 ∷ []) || same sealed (codes "2") && same dek (88 ∷ [])

-- Another client gives each secret a new data key, under the new key, with a new revision.
abbrev patched : List Row → List Row
patched [] = []
patched (r ∷ rs) =
    record r { sealed = codes "2"; wrapped_dek = 2 ∷ 88 ∷ []; key_version = 2 } ∷ patched rs

abbrev busy_tick : Tick
busy_tick = record tick { others = λ n db. record db { secret_rows = patched db.secret_rows } }

patched-IsReadable : (rs : List Row) → All (IsReadable toy decrypts) (patched rs)
unfolding opened open_with same
patched-IsReadable [] = tt
patched-IsReadable (r ∷ rs) = ((88 ∷ [], refl, refl), patched-IsReadable rs)

half_way-AllReadable : AllReadable toy decrypts half_way
unfolding opened open_with same
half_way-AllReadable = (((77 ∷ [], refl, refl), tt), tt)

rotation_tick-AllReadable_example :
    AllReadable toy decrypts (rotation_tick toy busy_tick half_way).0
rotation_tick-AllReadable_example =
    rotation_tick-AllReadable toy decrypts busy_tick half_way
      (λ n x h. (patched-IsReadable x.secret_rows, h.1)) half_way-AllReadable

nearly_done_ticks : (rotation_tick toy tick nearly_done).1 ≡ done 1
unfolding same less has is_pending insert_by_id order_by_id select_rows swap_row swap_changes
    plan_row run_writes run_failures run_chunk run_chunks count_pending count_remaining
    count_failures running_jobs reconcile end_job finish converge advance drive_rows hold_on_error
    with_keys take_lease leases owns release_lease drive is_active active_key running_job key_row
    set_status version_of write_version lesser least_other sample_opens check_holds register
    bootstrap_with attempt_bootstrap backs_off settle waiting bootstrap switch_on new_job
    start_rotation activate_with activate pause_running pause_any driven with_active rotation_tick
    update_running audit_all_orgs is_quarantined insert_failure
nearly_done_ticks = refl

rotation_tick-Ended_example :
    (j : Job) × (running_job nearly_done.jobs ≡ some j)
    × Ended j 1 (rotation_tick toy tick nearly_done).0
rotation_tick-Ended_example = rotation_tick-Ended toy tick nearly_done 1 nearly_done_ticks
