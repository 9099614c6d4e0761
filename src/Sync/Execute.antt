-- ===== src/Sync/Execute.antt =====
-- `execute`: pushing the planned operations chunk by chunk, with the ledger written before and after
-- each push. A `World` is what the database and the provider answer while one chunk is handled.
use hushvault.Base.{
  ℕ, ◌+◌, max, Bool, true, false, not, ◌&&◌, ◌||◌, Option, none, some, List, [], ◌∷◌, filter, any,
  Text, codes, same, ◌==◌, if◌then◌else◌, or_else, is_some,
}
use hushvault.Sync.Plan.{
  Code, provider_auth, provider_rate_limit, provider_validation, provider_error, target_not_found,
  timeout, computed_error, credential_unavailable, decryption_failed, target_not_allowed, LedgerRow,
  known, Op, create, update, remove,
}

-- `PENDING_FINGERPRINT`.
abbrev pub pending : Text
pending = codes "pending"

unfoldable pub code_rank : Code → ℕ
code_rank provider_auth = 0
code_rank target_not_found = 1
code_rank provider_validation = 2
code_rank provider_rate_limit = 3
code_rank timeout = 4
code_rank provider_error = 5
code_rank computed_error = 6
code_rank credential_unavailable = 7
code_rank decryption_failed = 8
code_rank target_not_allowed = 9

unfoldable pub is_code : Code → Code → Bool
unfolding code_rank
is_code a b = code_rank a == code_rank b

abbrev pub stop_on : List Code
stop_on = provider_auth ∷ target_not_found ∷ provider_rate_limit ∷ timeout ∷ []

abbrev pub error_priority : List Code
error_priority =
    provider_auth ∷ target_not_found ∷ provider_validation ∷ provider_rate_limit ∷ timeout
    ∷ provider_error ∷ []

unfoldable pub has_code : List Code → Code → Bool
has_code codes c = any (λ d. is_code d c) codes

pub record Failure : Type 0 where
  pub code : Code
  pub maybe_applied : Bool
  pub retry_after : Option ℕ

-- A failure whose effect on the target is unknown.
unfoldable pub outcome_unknown : Failure → Bool
outcome_unknown f = f.maybe_applied || is_code f.code timeout

pub data Item : Type 0 where
  item_ok : (name : Text) → Item
  item_failed : (name : Text) (failure : Failure) → Item

pub data PushResult : Type 0 where
  push_failed : (failure : Failure) → PushResult
  push_done : (items : List Item) → PushResult

-- The item of the answer that is for an operation, if there is one.
pub data Answer : Type 0 where
  unanswered landed : Answer
  turned_down : (failure : Failure) → Answer

unfoldable pub own_answer : Item → Text → Answer
own_answer (item_ok n) name = if same n name then landed else unanswered
own_answer (item_failed n f) name = if same n name then turned_down f else unanswered

unfoldable pub or_own : Answer → Item → Text → Answer
or_own unanswered i name = own_answer i name
or_own landed i name = landed
or_own (turned_down f) i name = turned_down f

-- `new Map(results)`, read at a name: the last item of that name counts.
unfoldable pub answer_for : List Item → Text → Answer
answer_for [] name = unanswered
answer_for (i ∷ is) name = or_own (answer_for is name) i name

unfoldable pub op_name : Op → Text
op_name (create name fingerprint value) = name
op_name (update name fingerprint value) = name
op_name (remove name) = name

unfoldable pub is_set : Op → Bool
is_set (remove name) = false
is_set _ = true

-- Statements on the target's ledger rows. Those that add a row are guarded: they do nothing once
-- the target was edited or deleted.
pub data Statement : Type 0 where
  intend : (name : Text) → Statement
  confirm : (name fingerprint : Text) → Statement
  drop_pending erase : (name : Text) → Statement

unfoldable pub without : (LedgerRow → Bool) → List LedgerRow → List LedgerRow
without p = filter (λ r. not (p r))

-- Sets the fingerprint of a name's row, which is added when there is none.
unfoldable pub upsert : Text → Text → List LedgerRow → List LedgerRow
upsert name fingerprint [] = record { item = name; fingerprint = fingerprint } ∷ []
upsert name fingerprint (r ∷ rs) =
    if same r.item name
    then record { item = r.item; fingerprint = fingerprint } ∷ rs
    else r ∷ upsert name fingerprint rs

unfoldable pub apply_one : (guard : Bool) → Statement → List LedgerRow → List LedgerRow
unfolding without
apply_one guard (intend name) rows =
    if guard && not (is_some (known rows name)) then upsert name pending rows else rows
apply_one guard (confirm name fingerprint) rows =
    if guard then upsert name fingerprint rows else rows
apply_one guard (drop_pending name) rows =
    without (λ r. same r.item name && same r.fingerprint pending) rows
apply_one guard (erase name) rows = without (λ r. same r.item name) rows

unfoldable pub apply_all : Bool → List Statement → List LedgerRow → List LedgerRow
apply_all guard [] rows = rows
apply_all guard (s ∷ ss) rows = apply_all guard ss (apply_one guard s rows)

-- A batch commits, or throws; one that throws may have been applied (the answer was lost).
pub data Batch : Type 0 where
  committed lost refused : Batch

unfoldable pub batch_rows : Batch → Bool → List Statement → List LedgerRow → List LedgerRow
batch_rows refused guard ss rows = rows
batch_rows _ guard ss rows = apply_all guard ss rows

unfoldable pub threw : Batch → Bool
threw committed = false
threw _ = true

pub record World : Type 0 where
  -- What `stillCurrent` answers; `none` when the query throws.
  pub current : Option Bool
  pub guard_at_intent : Bool
  pub intents : Batch
  pub answer : PushResult
  pub guard_at_confirm : Bool
  pub recorded : Batch

pub record Counts : Type 0 where
  pub created : ℕ
  pub updated : ℕ
  pub deleted : ℕ
  pub skipped : ℕ
  pub failed : ℕ

pub record Progress : Type 0 where
  pub rows : List LedgerRow
  pub counts : Counts
  pub errors : List Code
  pub retry_after_seconds : Option ℕ
  pub ok_items : ℕ
  pub stopped : Bool

unfoldable pub longer : Option ℕ → Option ℕ → Option ℕ
longer known none = known
longer known (some s) = some (max (or_else known 0) s)

unfoldable pub note : Code → Option ℕ → Progress → Progress
unfolding longer
note code retry p = record p {
  errors = code ∷ p.errors;
  retry_after_seconds = longer p.retry_after_seconds retry;
}

unfoldable pub fail : ℕ → Progress → Progress
fail n p = record p { counts = record p.counts { failed = p.counts.failed + n } }

unfoldable pub stop_if : Bool → Progress → Progress
stop_if b p = record p { stopped = p.stopped || b }
