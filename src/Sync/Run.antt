-- ===== src/Sync/Run.antt =====
-- `execute`: the checks in front of the loop, the ledger rows forgotten after it, and the outcome.
use hushvault.Base.{
  ℕ, zero, suc, ◌+◌, Bool, true, false, not, ◌&&◌, Option, none, some, List, [], ◌∷◌, ◌++◌, map,
  find, length, chunked, Text, has, ltb, ◌==◌, if◌then◌else◌, or_else,
}
use hushvault.Sync.Plan.{
  Code, provider_validation, provider_error, credential_unavailable, target_not_allowed, LedgerRow,
  Op, Provider,
}
use hushvault.Sync.Decide.{Plan, Blocker}
use hushvault.Sync.Execute.{
  error_priority, has_code, Failure, erase, Batch, batch_rows, threw, World, Progress, note,
}
use hushvault.Sync.Push.{run_chunks, ordered, chunk_size}

pub data Status : Type 0 where
  succeeded partial failed_run : Status

pub record Outcome : Type 0 where
  pub status : Status
  pub error_code : Option Code
  pub run_errors : List Code
  pub wait_seconds : Option ℕ

unfoldable pub failed_outcome : Code → Option ℕ → Outcome
failed_outcome code retry = record {
  status = failed_run;
  error_code = some code;
  run_errors = code ∷ [];
  wait_seconds = retry;
}

-- The planner's answer: a plan, or a failure.
pub data Planned : Type 0 where
  unplanned : (code : Code) (retry : Option ℕ) → Planned
  planned : (plan : Plan) → Planned

-- `provider.prepare`: absent, its call failed, or its own answer.
pub data Prepared : Type 0 where
  no_prepare prepared : Prepared
  prepare_threw : (code : Code) → Prepared
  prepare_failed : (failure : Failure) → Prepared

-- What is read again before the first push, and what answers each chunk and the last batch.
pub record Setup : Type 0 where
  pub has_config : Bool
  pub denied : Bool
  pub has_credential : Bool
  pub preparing : Prepared
  pub world : ℕ → World
  pub forgetting : Batch

-- A set of names, as the list that has each once.
unfoldable pub distinct : List Text → List Text
distinct [] = []
distinct (s ∷ ss) = if has ss s then distinct ss else s ∷ distinct ss

unfoldable pub blocked_in : List Blocker → List Text
blocked_in [] = []
blocked_in (b ∷ bs) = b.names ++ blocked_in bs

unfoldable pub blocked_names : Plan → List Text
unfolding distinct blocked_in
blocked_names plan = distinct (blocked_in plan.blockers)

-- Before anything is sent: the blocked names are counted as failed.
unfoldable pub begin : Plan → List LedgerRow → Progress
begin plan rows = record {
  rows = rows;
  counts = record {
    created = 0;
    updated = 0;
    deleted = 0;
    skipped = length plan.skip_names + length plan.conflict_names;
    failed = length (blocked_names plan);
  };
  errors = if ltb 0 (length (blocked_names plan)) then provider_validation ∷ [] else [];
  retry_after_seconds = none;
  ok_items = 0;
  stopped = false;
}

-- The ledger rows of names that need no call are dropped, unless the run stopped.
unfoldable pub forget_rows : Batch → List Text → Progress → Progress
forget_rows batch names p =
    if ltb 0 (length names) && not p.stopped
    then (let q = record p { rows = batch_rows batch true (map erase names) p.rows } in
        if threw batch then note provider_error none q else q)
    else p

unfoldable pub conclude : Progress → Outcome
conclude p =
    if length p.errors == 0
    then record {
      status = succeeded;
      error_code = none;
      run_errors = [];
      wait_seconds = p.retry_after_seconds;
    }
    else record {
      status = if ltb 0 p.ok_items then partial else failed_run;
      error_code = some (or_else (find (has_code p.errors) error_priority) provider_error);
      run_errors = p.errors;
      wait_seconds = p.retry_after_seconds;
    }

-- The outcome of a run that has nothing to push or to forget.
unfoldable pub nothing_to_do : (blocked : ℕ) → Outcome
nothing_to_do zero = record {
  status = succeeded;
  error_code = none;
  run_errors = [];
  wait_seconds = none;
}
nothing_to_do (suc n) = failed_outcome provider_validation none

-- Why `prepare` stops the run; it is called only when there is something to push.
unfoldable pub prepare_error : Prepared → List Op → Option Outcome
prepare_error _ [] = none
prepare_error no_prepare (_ ∷ _) = none
prepare_error prepared (_ ∷ _) = none
prepare_error (prepare_threw code) (_ ∷ _) = some (failed_outcome code none)
prepare_error (prepare_failed f) (_ ∷ _) = some (failed_outcome f.code f.retry_after)

unfoldable pub setup_error : Setup → List Op → Option Outcome
setup_error s ops =
    if not s.has_config
    then some (failed_outcome credential_unavailable none)
    else (if s.denied
        then some (failed_outcome target_not_allowed none)
        else (if not s.has_credential
            then some (failed_outcome credential_unavailable none)
            else prepare_error s.preparing ops))

module _ (provider : Provider) (s : Setup) where
  unfoldable pub push_all : Plan → Progress → Progress
  push_all plan p =
      forget_rows s.forgetting plan.forget
        (run_chunks s.world 0 (chunked (chunk_size provider) (ordered plan.ops)) p)

  unfoldable pub after_setup : Option Outcome → Plan → Progress → Progress × Outcome
  after_setup (some outcome) plan p = (p, outcome)
  after_setup none plan p = let q = push_all plan p in (q, conclude q)

  unfoldable pub execute_plan : Plan → Progress → Progress × Outcome
  execute_plan plan p =
      if length plan.ops == 0 && length plan.forget == 0
      then (p, nothing_to_do (length (blocked_names plan)))
      else after_setup (setup_error s plan.ops) plan p

  unfoldable pub execute : Planned → List LedgerRow → Progress × Outcome
  execute (unplanned code retry) rows = (
    record {
      rows = rows;
      counts = record { created = 0; updated = 0; deleted = 0; skipped = 0; failed = 0 };
      errors = code ∷ [];
      retry_after_seconds = retry;
      ok_items = 0;
      stopped = false;
    },
    failed_outcome code retry,
  )
  execute (planned plan) rows = execute_plan plan (begin plan rows)
