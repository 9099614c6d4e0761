-- ===== src/Rotation/Tick.antt =====
-- `rotationTick`, once its ring is loaded, with `bootstrap`, `activate` and `pauseRunning`, and
-- `loadWriteRing`. A ring that does not load, failures of the database itself (`TICK_FAILED`) and a
-- stored record that does not parse are not modelled.
use hushvault.Base.{
  ℕ, ◌-◌, Bool, true, false, ◌&&◌, Option, none, some, List, [], ◌∷◌, ◌++◌, map, find, Text, ltb,
  leb, ◌==◌, if◌then◌else◌, or_else, is_some,
}
use hushvault.Rotation.State.{
  key_check_failed, Outcome, ok, err, KeyRing, Row, secrets, at_table, running, paused, is_running,
  Job, KeyStatus, active, decrypt_only, KeyRow, BootstrapFailure, Db, version_registered,
  rotation_started, rotation_paused, TickResult, idle, paused_job, bootstrapped, activated, error,
  bootstrap_backoff, update_running, audit_all_orgs,
}
use hushvault.Rotation.Drive.{drive}

abbrev pub bootstrap_retry_ms : ℕ
bootstrap_retry_ms = 900000

unfoldable pub is_active : KeyStatus → Bool
is_active active = true
is_active decrypt_only = false

unfoldable pub active_key : List KeyRow → Option KeyRow
unfolding is_active
active_key = find λ k. is_active k.key_status

unfoldable pub running_job : List Job → Option Job
running_job = find λ j. is_running j.status

unfoldable pub key_row : ℕ → List KeyRow → Option KeyRow
key_row version = find λ k. k.version == version

unfoldable pub set_status : KeyStatus → ℕ → List KeyRow → List KeyRow
set_status status version =
    map λ k. if k.version == version then record k { key_status = status } else k

unfoldable pub version_of : Option KeyRow → ℕ
version_of none = 1
version_of (some k) = k.version

-- `loadWriteRing`: the version that the next write is wrapped with.
unfoldable pub write_version : Db → ℕ
unfolding active_key version_of
write_version db = version_of (active_key db.keys)

unfoldable pub lesser : ℕ → Option ℕ → ℕ
lesser v none = v
lesser v (some b) = if ltb v b then v else b

-- The least version in use that is not the active one.
unfoldable pub least_other : ℕ → List Row → Option ℕ → Option ℕ
unfolding lesser
least_other active_version [] best = best
least_other active_version (r ∷ rows) best =
    least_other active_version rows
      (if r.key_version == active_version then best else some (lesser r.key_version best))

module _ (ring : KeyRing) where
  open ring use {Key, active_version, get_key, unwrap, make_check, verify_check}

  unfoldable pub sample_opens : Key → Option Row → Bool
  sample_opens key none = true
  sample_opens key (some r) = is_some (unwrap r.wrapped_dek key r.id)

  -- Whether a registered check value, if there is one, still verifies under the key.
  unfoldable pub check_holds : Key → Option KeyRow → Bool
  check_holds key none = true
  check_holds key (some k) = verify_check key k.check_value

  unfoldable pub register : Key → ℕ → Option KeyRow → Db → Db
  unfolding set_status
  register key version none db = audit_all_orgs version_registered version (record db {
    keys =
        db.keys
        ++ record { version = version; check_value = make_check key; key_status = active } ∷ [];
  })
  register key version (some k) db = record db { keys = set_status active version db.keys }

  -- `attemptBootstrap` with the version and its key.
  unfoldable pub bootstrap_with : ℕ → Outcome Key → Db → Db × Outcome ℕ
  unfolding sample_opens register key_row
  bootstrap_with version (err c) db = (db, err c)
  bootstrap_with version (ok key) db =
      let sample = λ (rows : List Row). find (λ r. r.key_version == version) rows in
      let usable =
        sample_opens key (sample db.secret_rows)
        && (sample_opens key (sample db.connection_rows)
            && check_holds key (key_row version db.keys)) in
      if usable
      then (register key version (key_row version db.keys) db, ok version)
      else (db, err key_check_failed)

  unfoldable pub attempt_bootstrap : Db → Db × Outcome ℕ
  unfolding least_other
  attempt_bootstrap db =
      let version =
        or_else
          (least_other active_version db.connection_rows
            (least_other active_version db.secret_rows none))
          active_version in
      bootstrap_with version (get_key version) db

  unfoldable pub backs_off : Option BootstrapFailure → (now : ℕ) → Bool
  backs_off none now = false
  backs_off (some f) now =
      f.active_version == active_version
      && (leb f.failed_at now && ltb (now - f.failed_at) bootstrap_retry_ms)

  unfoldable pub settle : (now : ℕ) → Db × Outcome ℕ → Db × TickResult
  settle now (db, ok version) = (record db { bootstrap_failure = none }, bootstrapped version)
  settle now (db, err c) = (
    record db {
      bootstrap_failure =
          some (record { active_version = active_version; code = c; failed_at = now });
    },
    error c,
  )

  unfoldable pub waiting : Option BootstrapFailure → (now : ℕ) → TickResult
  waiting none now = idle
  waiting (some f) now = bootstrap_backoff f.code (bootstrap_retry_ms - (now - f.failed_at))

  unfoldable pub bootstrap : (now : ℕ) → Db → Db × TickResult
  unfolding backs_off settle waiting
  bootstrap now db =
      if backs_off db.bootstrap_failure now
      then (db, waiting db.bootstrap_failure now)
      else settle now (attempt_bootstrap db)

  -- The row of the new active key, written or switched on.
  unfoldable pub switch_on : Key → Option KeyRow → List KeyRow → List KeyRow
  unfolding set_status
  switch_on key (some k) keys = set_status active active_version keys
  switch_on key none keys =
      keys
      ++ record { version = active_version; check_value = make_check key; key_status = active } ∷ []

  unfoldable pub new_job : (from : ℕ) → (job_id : Text) → (now : ℕ) → Job
  new_job from job_id now = record {
    id = job_id;
    from_version = from;
    to_version = active_version;
    status = running;
    phase = at_table secrets;
    secrets_cursor = none;
    connections_cursor = none;
    rewrapped = 0;
    skipped = 0;
    failed_rows = 0;
    last_error_code = none;
    lease_owner = none;
    lease_until = none;
    updated_at = now;
  }

  unfoldable pub start_rotation : Key → (from : ℕ) → (job_id : Text) → (now : ℕ) → Db → Db
  unfolding switch_on new_job key_row set_status
  start_rotation to_key from job_id now db =
      audit_all_orgs rotation_started active_version (record db {
        keys =
            switch_on to_key (key_row active_version db.keys)
              (set_status decrypt_only from db.keys);
        jobs = db.jobs ++ new_job from job_id now ∷ [];
      })

  unfoldable pub activate_with :
      Outcome Key → Outcome Key → (from : ℕ) → (job_id : Text) → (now : ℕ) → Db → Db × TickResult
  unfolding key_row
  activate_with (err c) to_key from job_id now db = (db, error c)
  activate_with (ok from_key) (err c) from job_id now db = (db, error c)
  activate_with (ok from_key) (ok to_key) from job_id now db =
      if check_holds from_key (key_row from db.keys)
        && check_holds to_key (key_row active_version db.keys)
      then (start_rotation to_key from job_id now db, activated from active_version)
      else (db, error key_check_failed)

  unfoldable pub activate : (from : ℕ) → (job_id : Text) → (now : ℕ) → Db → Db × TickResult
  activate from job_id now db =
      activate_with (get_key from) (get_key active_version) from job_id now db

-- `pauseRunning`.
unfoldable pub pause_running : Job → (now : ℕ) → Db → Db
pause_running job now db = audit_all_orgs rotation_paused job.to_version (
    update_running job.id
      (λ j. record j { status = paused; lease_until = none; lease_owner = none; updated_at = now })
      db)

unfoldable pub pause_any : Option Job → (now : ℕ) → Db → Db
pause_any none now db = db
pause_any (some job) now db = pause_running job now db

-- What the environment gives to one tick: the owner of its lease, the id of a rotation that it
-- starts, its batch size, and what other clients do.
pub record Tick : Type 0 where
  pub now : ℕ
  pub limit : ℕ
  pub owner : Text
  pub job_id : Text
  pub others : ℕ → Db → Db

module _ (ring : KeyRing) (t : Tick) where
  open t use {now, limit, owner, job_id, others}

  unfoldable pub driven : Option Job → Db → Db × TickResult
  driven none db = (db, idle)
  driven (some j) db =
      if j.to_version == ring.active_version
      then drive ring j owner now limit others db
      else (pause_running j now db, paused_job)

  unfoldable pub with_active : Option KeyRow → Option Job → Db → Db × TickResult
  unfolding pause_any driven
  with_active none job db = bootstrap ring now db
  with_active (some k) job db =
      if k.version == ring.active_version
      then driven job db
      else activate ring k.version job_id now (pause_any job now db)

  -- `rotationTick`, once the ring is loaded.
  unfoldable pub rotation_tick : Db → Db × TickResult
  unfolding with_active
  rotation_tick db = with_active (active_key db.keys) (running_job db.jobs) db
