-- ===== src/Rotation/Complete.antt =====
-- What the end of a rotation says.
use hushvault.Base.{
  ℕ, ◌≡◌, refl, sym, ◌∙◌, Bool, true, false, ◌&&◌, Option, none, some, List, [], ◌∷◌, map, filter,
  length, inl, inr, ◌⊎◌, arith, Text, same, ltb, ◌==◌, if◌then◌else◌, All, Bool-cases,
}
use hushvault.Rotation.State.{
  Code, error, completed, completed_with_errors, Outcome, ok, err, KeyRing, Row, Table, secrets,
  connections, Job, KeyRow, Db, Failure, done, is_running, update_running, audit_all_orgs,
  BootstrapFailure, Action, is_quarantined,
}
use hushvault.Rotation.Batch.{Tally, is_pending}
use hushvault.Rotation.Drive.{
  count_pending, count_remaining, count_failures, running_jobs, reconcile, end_job, finish,
  converge, advance, drive_rows, hold_on_error, with_keys, owns, release_lease, leases, take_lease,
  drive,
}
use hushvault.Rotation.Tick.{
  Tick, rotation_tick, driven, with_active, bootstrap, settle, attempt_bootstrap, activate,
  activate_with, active_key, running_job, waiting, backs_off,
}

-- A row is under the new version, or stands in the list of the rows that could not be re-wrapped.
abbrev pub IsSettled : Job → Table → List Failure → Row → Type 0
IsSettled job table failures r =
    (r.key_version ≡ job.to_version) ⊎ (is_quarantined job.id table failures r.id ≡ true)

pub record Ended (job : Job) (n : ℕ) (db : Db) : Type 0 where
  pub secrets_settled : All (IsSettled job secrets db.failures) db.secret_rows
  pub connections_settled : All (IsSettled job connections db.failures) db.connection_rows
  pub counted : count_failures job db ≡ n
  pub not_running : running_jobs job.id db ≡ 0

count_zero :
    (job : Job) (table : Table) (failures : List Failure) (rs : List Row)
    → length (filter (is_pending job table failures) rs) ≡ 0
    → All (IsSettled job table failures) rs
unfolding is_pending
count_zero job table failures [] e = tt
count_zero job table failures (r ∷ rs) e =
    (ground arith, count_zero job table failures rs (ground arith))

-- After the statement that ends it, no row of the job is running.
no_running :
    (id : Text) (f : Job → Job)
    → ((j : Job) → is_running (f j).status ≡ false)
    → (js : List Job)
    → length (
        filter
          (λ j. same j.id id && is_running j.status)
          (map (λ j. if same j.id id && is_running j.status then f j else j) js))
      ≡ 0
no_running id f stops [] = refl
no_running id f stops (j ∷ js) = ground (arith, stops j, no_running id f stops js)

audit-Ended :
    (job : Job) (n : ℕ) (x : Action) (v : ℕ) (db : Db)
    → Ended job n db
    → Ended job n (audit_all_orgs x v db)
unfolding audit_all_orgs count_failures running_jobs
audit-Ended job n x v db e = record {
  secrets_settled = e.secrets_settled;
  connections_settled = e.connections_settled;
  counted = e.counted;
  not_running = e.not_running;
}

Ended-if :
    (job : Job) (n : ℕ) (b : Bool) (x y : Db)
    → Ended job n x
    → Ended job n y
    → Ended job n (if b then x else y)
Ended-if job n true x y h k = h
Ended-if job n false x y h k = k

nothing_pending :
    (job : Job) (db : Db)
    → count_remaining job db ≡ 0
    → (count_pending job secrets db ≡ 0) × (count_pending job connections db ≡ 0)
unfolding count_remaining
nothing_pending job db e = (omega arith, omega arith)

ended_stops :
    (clean : Bool) → is_running (if clean then completed else completed_with_errors) ≡ false
ended_stops true = refl
ended_stops false = refl

end_job-Ended :
    (job : Job) (now : ℕ) (clean : Bool) (db : Db)
    → count_remaining job db ≡ 0
    → Ended job (count_failures job db) (end_job job now clean (reconcile job db))
unfolding end_job reconcile update_running count_failures running_jobs count_pending
end_job-Ended job now clean db e = record {
  secrets_settled = count_zero job secrets db.failures db.secret_rows (nothing_pending job db e).0;
  connections_settled =
      count_zero job connections db.failures db.connection_rows (nothing_pending job db e).1;
  counted = refl;
  not_running = no_running job.id _ (λ j. ended_stops clean) _;
}

finish-Ended :
    (job : Job) (now : ℕ) (db : Db)
    → count_remaining job db ≡ 0
    → Ended job (count_failures job db) (finish job now db).0
unfolding finish
finish-Ended job now db e =
    let ended = end_job-Ended job now (count_failures job db == 0) db e in
    Ended-if job _ _ _ _ (audit-Ended job _ _ _ _ ended) ended

finish_result :
    (job : Job) (now : ℕ) (db : Db) → (finish job now db).1 ≡ done (count_failures job db)
unfolding finish
finish_result job now db = refl

done_inj : {m n : ℕ} → done m ≡ done n → m ≡ n
done_inj e = cc

converge_done :
    (job : Job) (now : ℕ) (t : Tally) (db : Db) (n : ℕ)
    → (converge job now t db).1 ≡ done n
    → Ended job n (converge job now t db).0
unfolding converge
converge_done job now t db n = elim (Bool-cases (ltb 0 (count_remaining job db))) [
  | inl more ↦ rw more (λ e. cc)
  | inr all_done ↦ rw all_done (λ e.
      rw (← done_inj (sym (finish_result job now db) ∙ e)) (finish-Ended job now db (ground arith)))
]

advance_done :
    (job : Job) (table : Table) (now : ℕ) (full : Bool) (t : Tally) (db : Db) (n : ℕ)
    → (advance job table now full t db).1 ≡ done n
    → Ended job n (advance job table now full t db).0
unfolding advance
advance_done job table now true t db n e = cc
advance_done job secrets now false t db n e = cc
advance_done job connections now false t db n e = converge_done job now t db n e

hold_error : (job : Job) (c : Code) (now : ℕ) (db : Db) → (hold_on_error job c now db).1 ≡ error c
unfolding hold_on_error
hold_error job c now db = refl

with_keys_done :
    (ring : KeyRing) (job : Job) (to from : Outcome ring.Key) (now limit : ℕ) (others : ℕ → Db → Db)
    (db : Db) (n : ℕ)
    → (with_keys ring to from job now limit others db).1 ≡ done n
    → Ended job n (with_keys ring to from job now limit others db).0
unfolding with_keys drive_rows
with_keys_done ring job (err c) from now limit others db n e = cc (hold_error job c now db)
with_keys_done ring job (ok k) (err c) now limit others db n e = cc (hold_error job c now db)
with_keys_done ring job (ok k) (ok k') now limit others db n e = advance_done job _ now _ _ _ n e

release_running :
    (id id' owner : Text) (js : List Job)
    → length (
        filter
          (λ j. same j.id id && is_running j.status)
          (map
            (λ j.
              if same j.id id' && owns owner j.lease_owner
              then record j { lease_until = none; lease_owner = none }
              else j)
            js))
      ≡ length (filter (λ j. same j.id id && is_running j.status) js)
release_running id id' owner [] = refl
release_running id id' owner (j ∷ js) = ground (arith, release_running id id' owner js)

-- Giving the lease back changes nothing that the end of the job says.
release-Ended :
    (job : Job) (n : ℕ) (id owner : Text) (db : Db)
    → Ended job n db
    → Ended job n (release_lease id owner db)
unfolding release_lease count_failures running_jobs
release-Ended job n id owner db e = record {
  secrets_settled = e.secrets_settled;
  connections_settled = e.connections_settled;
  counted = e.counted;
  not_running = release_running job.id id owner db.jobs ∙ e.not_running;
}

drive_done :
    (ring : KeyRing) (job : Job) (owner : Text) (now limit : ℕ) (others : ℕ → Db → Db) (db : Db)
    (n : ℕ)
    → (drive ring job owner now limit others db).1 ≡ done n
    → Ended job n (drive ring job owner now limit others db).0
unfolding drive
drive_done ring job owner now limit others db n = elim (Bool-cases (leases job.id now db == 1)) [
  | inl free ↦ rw free (λ e.
      release-Ended job n job.id owner _
        (with_keys_done ring job _ _ now limit others (take_lease job.id owner now db) n e))
  | inr held ↦ rw held (λ e. cc)
]

module _ (ring : KeyRing) (t : Tick) where
  settle_not_done : (r : Db × Outcome ℕ) (n : ℕ) → ¬ ((settle ring t.now r).1 ≡ done n)
  unfolding settle
  settle_not_done (db, ok v) n e = cc
  settle_not_done (db, err c) n e = cc

  waiting_not_done : (f : Option BootstrapFailure) (n : ℕ) → ¬ (waiting ring f t.now ≡ done n)
  unfolding waiting
  waiting_not_done none n e = cc
  waiting_not_done (some f) n e = cc

  bootstrap_not_done : (db : Db) (n : ℕ) → ¬ ((bootstrap ring t.now db).1 ≡ done n)
  unfolding bootstrap
  bootstrap_not_done db n = elim (Bool-cases (backs_off ring db.bootstrap_failure t.now)) [
    | inl backs ↦ rw backs (waiting_not_done db.bootstrap_failure n)
    | inr tries ↦ rw tries (settle_not_done (attempt_bootstrap ring db) n)
  ]

  activate_not_done :
      (f k : Outcome ring.Key) (from : ℕ) (db : Db) (n : ℕ)
      → ¬ ((activate_with ring f k from t.job_id t.now db).1 ≡ done n)
  unfolding activate_with
  activate_not_done (err c) k from db n e = cc
  activate_not_done (ok f) (err c) from db n e = cc
  activate_not_done (ok f) (ok k) from db n e = ground arith

  driven_done :
      (job : Option Job) (db : Db) (n : ℕ)
      → (driven ring t job db).1 ≡ done n
      → (j : Job) × (job ≡ some j) × Ended j n (driven ring t job db).0
  unfolding driven
  driven_done none db n = λ e. cc
  driven_done (some j) db n = elim (Bool-cases (j.to_version == ring.active_version)) [
    | inl current ↦
        rw current (λ e. (j, refl, drive_done ring j t.owner t.now t.limit t.others db n e))
    | inr stale ↦ rw stale (λ e. cc)
  ]

  with_active_done :
      (k : Option KeyRow) (job : Option Job) (db : Db) (n : ℕ)
      → (with_active ring t k job db).1 ≡ done n
      → (j : Job) × (job ≡ some j) × Ended j n (with_active ring t k job db).0
  unfolding with_active activate
  with_active_done none job db n = λ e. absurd (bootstrap_not_done db n e)
  with_active_done (some k) job db n = elim (Bool-cases (k.version == ring.active_version)) [
    | inl current ↦ rw current (driven_done job db n)
    | inr stale ↦ rw stale (λ e. absurd (activate_not_done _ _ k.version _ n e))
  ]

-- A tick reports that the rotation is completed with `n` failures only if, in the database that it
-- leaves, every row of both tables is under the new version or in the list of failures, that list
-- has `n` entries of the job, and no row of the job is running any more.
pub rotation_tick-Ended :
    (ring : KeyRing) (t : Tick) (db : Db) (n : ℕ)
    → (rotation_tick ring t db).1 ≡ done n
    → (job : Job) × (running_job db.jobs ≡ some job) × Ended job n (rotation_tick ring t db).0
unfolding rotation_tick
rotation_tick-Ended ring t db n e =
    with_active_done ring t (active_key db.keys) (running_job db.jobs) db n e
