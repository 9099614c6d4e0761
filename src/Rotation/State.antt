-- ===== src/Rotation/State.antt =====
-- The rows that a rotation reads and writes, the key ring that it is given, and its results.
use hushvault.Base.{
  ℕ, ◌≡◌, refl, Bool, true, false, ◌&&◌, Option, some, List, [], ◌∷◌, ◌++◌, map, any, Text, same,
  if◌then◌else◌, ◌⊎◌, inl, inr,
}

pub data Code : Type 0 where
  key_version_unavailable key_invalid key_version_invalid key_check_failed unwrap_failed : Code
  bootstrap_failed tick_failed : Code

pub data Outcome {ℓ} (A : Type ℓ) : Type ℓ where
  ok : A → Outcome A
  err : Code → Outcome A

-- What the rotation uses of crypto/envelope.ts: the ring of one tick, and the operations on a
-- wrapped data key. `rewrap` fails where `rewrapDek` throws.
pub record KeyRing : Type 1 where
  pub Key : Type 0
  pub active_version : ℕ
  pub has_version : ℕ → Bool
  pub get_key : ℕ → Outcome Key
  pub unwrap : (wrapped : Text) → Key → (record_id : Text) → Option Text
  pub rewrap : (wrapped : Text) → (from to : Key) → (record_id : Text) → Option Text
  pub make_check : Key → Text
  pub verify_check : Key → Text → Bool
  -- A re-wrapped data key unwraps under the new key to what it was under the old one.
  pub rewrap_opens :
      (wrapped next record_id : Text) (from to : Key)
      → rewrap wrapped from to record_id ≡ some next
      → unwrap next to record_id ≡ unwrap wrapped from record_id

-- `sealed` is the ciphertext under the row's data key: the revision that names the blob of a secret,
-- or the credential of a connection. The statements of a rotation neither read nor write it.
pub record Row : Type 0 where
  pub id : Text
  pub sealed : Text
  pub wrapped_dek : Text
  pub key_version : ℕ

pub data Table : Type 0 where
  secrets connections : Table

abbrev pub same_table : Table → Table → Bool
same_table secrets secrets = true
same_table connections connections = true
same_table _ _ = false

-- `retired` is a stored phase that no longer exists (`history`).
pub data Phase : Type 0 where
  at_table : Table → Phase
  retired : Phase

pub data Status : Type 0 where
  running paused completed completed_with_errors failed : Status

abbrev pub is_running : Status → Bool
is_running running = true
is_running _ = false

pub record Job : Type 0 where
  pub id : Text
  pub from_version : ℕ
  pub to_version : ℕ
  pub status : Status
  pub phase : Phase
  pub secrets_cursor : Option Text
  pub connections_cursor : Option Text
  pub rewrapped : ℕ
  pub skipped : ℕ
  pub failed_rows : ℕ
  pub last_error_code : Option Code
  pub lease_owner : Option Text
  pub lease_until : Option ℕ
  pub updated_at : ℕ

pub record Failure : Type 0 where
  pub rotation_id : Text
  pub table_name : Table
  pub row_id : Text
  pub error_code : Code

pub data KeyStatus : Type 0 where
  active decrypt_only : KeyStatus

pub record KeyRow : Type 0 where
  pub version : ℕ
  pub check_value : Text
  pub key_status : KeyStatus

pub data Action : Type 0 where
  version_registered rotation_started rotation_paused rotation_error : Action
  rotation_completed rotation_completed_with_errors : Action

-- The stored failure of an attempt to bootstrap.
pub record BootstrapFailure : Type 0 where
  pub active_version : ℕ
  pub code : Code
  pub failed_at : ℕ

pub record Db : Type 0 where
  pub secret_rows : List Row
  pub connection_rows : List Row
  pub keys : List KeyRow
  pub jobs : List Job
  pub failures : List Failure
  pub bootstrap_failure : Option BootstrapFailure
  -- Each entry stands for one row in the audit log of every organisation.
  pub audit : List (Action × ℕ)

pub data TickResult : Type 0 where
  idle paused_job busy : TickResult
  bootstrapped : ℕ → TickResult
  activated : (from to : ℕ) → TickResult
  progress : (rewrapped skipped failed_rows : ℕ) → TickResult
  done : (failed_rows : ℕ) → TickResult
  error : Code → TickResult
  bootstrap_backoff : Code → (retry_after_ms : ℕ) → TickResult

abbrev pub rows_of : Table → Db → List Row
rows_of secrets db = db.secret_rows
rows_of connections db = db.connection_rows

abbrev pub with_rows : Table → List Row → Db → Db
with_rows secrets rows db = record db { secret_rows = rows }
with_rows connections rows db = record db { connection_rows = rows }

-- `UPDATE key_rotations SET … WHERE id = ? AND status = 'running'`.
unfoldable pub update_running : Text → (Job → Job) → Db → Db
update_running id f db = record db {
  jobs = map (λ j. if same j.id id && is_running j.status then f j else j) db.jobs;
}

unfoldable pub audit_all_orgs : Action → ℕ → Db → Db
audit_all_orgs action version db = record db { audit = db.audit ++ (action, version) ∷ [] }

unfoldable pub is_quarantined : Text → Table → List Failure → Text → Bool
is_quarantined job table failures id =
    any (λ f. same f.rotation_id job && same_table f.table_name table && same f.row_id id) failures

-- `INSERT OR IGNORE INTO key_rotation_failures`: the key is the rotation, the table and the row.
unfoldable pub insert_failure : Failure → List Failure → List Failure
unfolding is_quarantined
insert_failure f failures =
    if is_quarantined f.rotation_id f.table_name failures f.row_id
    then failures
    else failures ++ f ∷ []

pub Outcome-cases {ℓ} :
    {A : Type ℓ} (o : Outcome A) → ((c : Code) × (o ≡ err c)) ⊎ ((a : A) × (o ≡ ok a))
Outcome-cases (ok a) = inr (a, refl)
Outcome-cases (err c) = inl (c, refl)
