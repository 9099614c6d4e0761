-- ===== src/Rotation/Readable.antt =====
-- A whole tick keeps what its re-wrapping keeps, if the other clients do.
use hushvault.Base.{
  ℕ, suc, ◌≡◌, refl, sym, ap, ◌∙◌, Bool, true, false, Option, none, some, List, [], ◌∷◌, inl, inr,
  Text, if◌then◌else◌, ltb, ◌==◌, Bool-cases, All, inl,
}
use hushvault.Rotation.State.{
  Code, Outcome, ok, err, KeyRing, Row, Table, secrets, connections, Job, KeyRow, BootstrapFailure,
  Db, Action, update_running, audit_all_orgs,
}
use hushvault.Rotation.Batch.{Tally, no_rows, phase_for}
use hushvault.Rotation.Drive.{
  run_chunks, reconcile, end_job, finish, converge, advance, drive_rows, hold_on_error, with_keys,
  take_lease, release_lease, drive, count_remaining, leases,
}
use hushvault.Rotation.Tick.{
  Tick, rotation_tick, driven, with_active, pause_any, pause_running, bootstrap, attempt_bootstrap,
  bootstrap_with, settle, register, activate, activate_with, start_rotation, active_key,
  running_job, backs_off,
}
use hushvault.Rotation.Preserve.{
  opened, Kept, KeptDb, KeptDb-refl, KeptDb-trans, KeptDb-if, update_running-KeptDb,
  run_chunk-KeptDb,
}

module _ (ring : KeyRing) where
  open ring use {Key, get_key}

  KeptDb-if_pair {ℓ} :
      {R : Type ℓ} (b : Bool) (a : Db) (x y : Db × R)
      → KeptDb ring a x.0
      → KeptDb ring a y.0
      → KeptDb ring a (if b then x else y).0
  KeptDb-if_pair true a x y h k = h
  KeptDb-if_pair false a x y h k = k

  -- The same rows, under whatever else changed.
  rows_stay :
      {a db : Db} {ks : List KeyRow} {js : List Job} {b : Option BootstrapFailure}
      → KeptDb ring a db
      → KeptDb ring a (record db { keys = ks; jobs = js; bootstrap_failure = b })
  rows_stay h = record { secrets_kept = h.secrets_kept; connections_kept = h.connections_kept }

  audit-KeptDb :
      (x : Action) (v : ℕ) (a db : Db) → KeptDb ring a db → KeptDb ring a (audit_all_orgs x v db)
  unfolding audit_all_orgs
  audit-KeptDb x v a db h = record {
    secrets_kept = h.secrets_kept;
    connections_kept = h.connections_kept;
  }

  update-KeptDb : (id : Text) (f : Job → Job) (db : Db) → KeptDb ring db (update_running id f db)
  update-KeptDb id f db = update_running-KeptDb ring id f db db (KeptDb-refl ring db)

  finish-KeptDb : (job : Job) (now : ℕ) (db : Db) → KeptDb ring db (finish job now db).0
  unfolding finish reconcile end_job
  finish-KeptDb job now db =
      let ended = update_running-KeptDb ring job.id _ db _ (update-KeptDb job.id _ db) in
      KeptDb-if ring _ db _ _ (audit-KeptDb _ _ db _ ended) ended

  converge-KeptDb :
      (job : Job) (now : ℕ) (t : Tally) (db : Db) → KeptDb ring db (converge job now t db).0
  unfolding converge
  converge-KeptDb job now t db =
      KeptDb-if_pair (ltb 0 (count_remaining job db)) db _ (finish job now db)
        (update-KeptDb job.id _ db) (finish-KeptDb job now db)

  advance-KeptDb :
      (job : Job) (table : Table) (now : ℕ) (full : Bool) (t : Tally) (db : Db)
      → KeptDb ring db (advance job table now full t db).0
  unfolding advance
  advance-KeptDb job table now true t db = KeptDb-refl ring db
  advance-KeptDb job secrets now false t db = update-KeptDb job.id _ db
  advance-KeptDb job connections now false t db = converge-KeptDb job now t db

  hold-KeptDb :
      (job : Job) (c : Code) (now : ℕ) (db : Db) → KeptDb ring db (hold_on_error job c now db).0
  unfolding hold_on_error
  hold-KeptDb job c now db =
      let held = update-KeptDb job.id _ db in
      KeptDb-if ring _ db _ _ held (audit-KeptDb _ _ db _ held)

  pause-KeptDb : (job : Job) (now : ℕ) (db : Db) → KeptDb ring db (pause_running job now db)
  unfolding pause_running
  pause-KeptDb job now db = audit-KeptDb _ _ db _ (update-KeptDb job.id _ db)

  pause_any-KeptDb : (job : Option Job) (now : ℕ) (db : Db) → KeptDb ring db (pause_any job now db)
  unfolding pause_any
  pause_any-KeptDb none now db = KeptDb-refl ring db
  pause_any-KeptDb (some job) now db = pause-KeptDb job now db

  register-KeptDb :
      (key : Key) (v : ℕ) (k : Option KeyRow) (db : Db) → KeptDb ring db (register ring key v k db)
  unfolding register
  register-KeptDb key v none db = audit-KeptDb _ _ db _ (rows_stay (KeptDb-refl ring db))
  register-KeptDb key v (some k) db = rows_stay (KeptDb-refl ring db)

  bootstrap_with-KeptDb :
      (v : ℕ) (key : Outcome Key) (db : Db) → KeptDb ring db (bootstrap_with ring v key db).0
  unfolding bootstrap_with
  bootstrap_with-KeptDb v (err c) db = KeptDb-refl ring db
  bootstrap_with-KeptDb v (ok key) db =
      KeptDb-if_pair _ db _ _ (register-KeptDb key v _ db) (KeptDb-refl ring db)

  attempt-KeptDb : (db : Db) → KeptDb ring db (attempt_bootstrap ring db).0
  unfolding attempt_bootstrap
  attempt-KeptDb db = bootstrap_with-KeptDb _ _ db

  settle-KeptDb :
      (now : ℕ) (a : Db) (r : Db × Outcome ℕ)
      → KeptDb ring a r.0
      → KeptDb ring a (settle ring now r).0
  unfolding settle
  settle-KeptDb now a (db, ok v) h = rows_stay h
  settle-KeptDb now a (db, err c) h = rows_stay h

  bootstrap-KeptDb : (now : ℕ) (db : Db) → KeptDb ring db (bootstrap ring now db).0
  unfolding bootstrap
  bootstrap-KeptDb now db =
      KeptDb-if_pair (backs_off ring db.bootstrap_failure now) db _ _ (KeptDb-refl ring db)
        (settle-KeptDb now db (attempt_bootstrap ring db) (attempt-KeptDb db))

  activate_with-KeptDb :
      (f t : Outcome Key) (from : ℕ) (job_id : Text) (now : ℕ) (db : Db)
      → KeptDb ring db (activate_with ring f t from job_id now db).0
  unfolding activate_with start_rotation
  activate_with-KeptDb (err c) t from job_id now db = KeptDb-refl ring db
  activate_with-KeptDb (ok f) (err c) from job_id now db = KeptDb-refl ring db
  activate_with-KeptDb (ok f) (ok t) from job_id now db =
      KeptDb-if_pair _ db _ _ (audit-KeptDb _ _ db _ (rows_stay (KeptDb-refl ring db)))
        (KeptDb-refl ring db)

  activate-KeptDb :
      (from : ℕ) (job_id : Text) (now : ℕ) (db : Db)
      → KeptDb ring db (activate ring from job_id now db).0
  unfolding activate
  activate-KeptDb from job_id now db = activate_with-KeptDb _ _ from job_id now db

  lease-KeptDb : (id owner : Text) (now : ℕ) (db : Db) → KeptDb ring db (take_lease id owner now db)
  unfolding take_lease
  lease-KeptDb id owner now db = rows_stay (KeptDb-refl ring db)

  release-KeptDb : (id owner : Text) (db : Db) → KeptDb ring db (release_lease id owner db)
  unfolding release_lease
  release-KeptDb id owner db = rows_stay (KeptDb-refl ring db)

  -- A property that re-wrapping keeps, and that the other clients keep.
  module _ (P : Db → Type 0) (closed : (a b : Db) → KeptDb ring a b → P a → P b) (t : Tick)
      (stable : (n : ℕ) (db : Db) → P db → P (t.others n db)) where
    chunks_keep :
        (job : Job) (to_key : Key)
        → get_key job.to_version ≡ ok to_key
        → (table : Table) (n : ℕ) (chunks : List (List Row)) (db : Db) (tally : Tally) → P db
        → P (run_chunks ring to_key job table t.now t.others n chunks db tally).0
    unfolding run_chunks
    chunks_keep job to_key has_to table n [] db tally p = p
    chunks_keep job to_key has_to table n (chunk ∷ chunks) db tally p =
        chunks_keep job to_key has_to table (suc n) chunks _ _ (
          closed (t.others n db) _
            (run_chunk-KeptDb ring job to_key table t.now chunk (t.others n db) tally has_to)
            (stable n db p))

    drive_rows_keep :
        (job : Job) (to_key : Key)
        → get_key job.to_version ≡ ok to_key
        → (db : Db) → P db
        → P (drive_rows ring to_key job t.now t.limit t.others db).0
    unfolding drive_rows
    drive_rows_keep job to_key has_to db p = closed _ _ (advance-KeptDb job _ t.now _ _ _) (
        closed _ _ (update-KeptDb job.id _ _)
          (chunks_keep job to_key has_to (phase_for job.phase) 0 _ db no_rows p))

    with_keys_keep :
        (job : Job) (to from : Outcome Key)
        → get_key job.to_version ≡ to
        → (db : Db) → P db
        → P (with_keys ring to from job t.now t.limit t.others db).0
    unfolding with_keys
    with_keys_keep job (err c) from e db p = closed _ _ (hold-KeptDb job c t.now db) p
    with_keys_keep job (ok k) (err c) e db p = closed _ _ (hold-KeptDb job c t.now db) p
    with_keys_keep job (ok k) (ok _) e db p = drive_rows_keep job k e db p

    drive_keep :
        (job : Job) (db : Db) → P db → P (drive ring job t.owner t.now t.limit t.others db).0
    unfolding drive
    drive_keep job db p =
        let leased = closed db _ (lease-KeptDb job.id t.owner t.now db) p in
        elim (Bool-cases (leases job.id t.now db == 1)) [
          | inl free ↦ rw free (
              closed _ _ (release-KeptDb job.id t.owner _)
                (with_keys_keep job _ (get_key job.from_version) refl _ leased))
          | inr held ↦ rw held leased
        ]

    driven_keep : (job : Option Job) (db : Db) → P db → P (driven ring t job db).0
    unfolding driven
    driven_keep none db p = p
    driven_keep (some j) db p = elim (Bool-cases (j.to_version == ring.active_version)) [
      | inl current ↦ rw current (drive_keep j db p)
      | inr stale ↦ rw stale (closed _ _ (pause-KeptDb j t.now db) p)
    ]

    with_active_keep :
        (k : Option KeyRow) (job : Option Job) (db : Db) → P db → P (with_active ring t k job db).0
    unfolding with_active
    with_active_keep none job db p = closed _ _ (bootstrap-KeptDb t.now db) p
    with_active_keep (some k) job db p = elim (Bool-cases (k.version == ring.active_version)) [
      | inl current ↦ rw current (driven_keep job db p)
      | inr stale ↦ rw stale (
          closed _ _ (activate-KeptDb k.version t.job_id t.now _)
            (closed _ _ (pause_any-KeptDb job t.now db) p))
    ]

    tick_keep : (db : Db) → P db → P (rotation_tick ring t db).0
    unfolding rotation_tick
    tick_keep db p = with_active_keep (active_key db.keys) (running_job db.jobs) db p

-- Every row's ciphertext is decrypted by the data key that the row opens to, where `decrypts` says
-- which data keys decrypt the ciphertext of a record.
module _ (ring : KeyRing) (decrypts : (record_id sealed dek : Text) → Bool) where
  abbrev pub IsReadable : Row → Type 0
  IsReadable r = (dek : Text) × (opened ring r ≡ some dek) × (decrypts r.id r.sealed dek ≡ true)

  abbrev pub AllReadable : Db → Type 0
  AllReadable db = All IsReadable db.secret_rows × All IsReadable db.connection_rows

  IsReadable-Kept : (rs ss : List Row) → Kept ring rs ss → All IsReadable rs → All IsReadable ss
  IsReadable-Kept [] [] k h = tt
  IsReadable-Kept [] (s ∷ ss) k h = elim k [ ]
  IsReadable-Kept (r ∷ rs) [] k h = elim k [ ]
  IsReadable-Kept (r ∷ rs) (s ∷ ss) (i, c, f, k) ((dek, o, d), h) = (
    (
      dek,
      f dek o,
      ap (λ x. decrypts x s.sealed dek) (sym i) ∙ (ap (λ x. decrypts r.id x dek) (sym c) ∙ d),
    ),
    IsReadable-Kept rs ss k h,
  )

-- If no other client writes in between, a tick keeps every row with its ciphertext, and every row that opened under
-- the ring opens to the same data key after it.
pub rotation_tick-KeptDb :
    (ring : KeyRing) (t : Tick) (db : Db)
    → ((n : ℕ) (x : Db) → t.others n x ≡ x)
    → KeptDb ring db (rotation_tick ring t db).0
rotation_tick-KeptDb ring t db quiet =
    tick_keep ring (KeptDb ring db) (λ a b k h. KeptDb-trans ring db a b h k) t
      (λ n x h. rw (quiet n x) h) db (KeptDb-refl ring db)

-- Whatever other clients write before each batch, new data keys and new ciphertexts too, as long as
-- they leave every row's ciphertext to be decrypted by the data key that the row opens to, that is
-- so after the tick.
pub rotation_tick-AllReadable :
    (ring : KeyRing) (decrypts : (record_id sealed dek : Text) → Bool) (t : Tick) (db : Db)
    → ((n : ℕ) (x : Db) → AllReadable ring decrypts x → AllReadable ring decrypts (t.others n x))
    → AllReadable ring decrypts db
    → AllReadable ring decrypts (rotation_tick ring t db).0
rotation_tick-AllReadable ring decrypts t db stable h =
    tick_keep ring (AllReadable ring decrypts)
      (λ a b k (s, c). (
        IsReadable-Kept ring decrypts a.secret_rows b.secret_rows k.secrets_kept s,
        IsReadable-Kept ring decrypts a.connection_rows b.connection_rows k.connections_kept c,
      ))
      t stable db h
