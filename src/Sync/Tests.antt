-- ===== src/Sync/Tests.antt =====
-- A plan, runs of it, and retries, on concrete data.
use hushvault.Base.{
  ◌+◌, ◌≡◌, refl, true, false, none, some, [], ◌∷◌, length, All, Text, codes, same, has, arith,
  chunked,
}
use hushvault.Sync.Plan.{
  provider_rate_limit, timeout, Provider, known, insert, sorted, create, update, remove, Facts,
}
use hushvault.Sync.Decide.{Plan, classify}
use hushvault.Sync.Classify.{IsSound, classify-IsSound}
use hushvault.Sync.Execute.{
  pending, Failure, item_ok, PushResult, push_failed, push_done, committed, World, Progress,
  code_rank, is_code, has_code, outcome_unknown, own_answer, or_own, answer_for, op_name, is_set,
  without, upsert, apply_one, apply_all, batch_rows, threw, longer, note, fail, stop_if,
}
use hushvault.Sync.Push.{
  statement_for, count_landed, tally_one, tally, statements_for, dropped, intents_for, settle,
  record_of, push_chunk, is_current, intended, intents_threw, give_up, after_intents, attempt_chunk,
  run_chunk, run_chunks, ordered, chunk_size,
}
use hushvault.Sync.Run.{
  succeeded, planned, Setup, no_prepare, failed_outcome, distinct, blocked_in, blocked_names, begin,
  forget_rows, conclude, nothing_to_do, prepare_error, setup_error, push_all, after_setup,
  execute_plan, execute,
}
use hushvault.Sync.Counts.{total}
use hushvault.Sync.Success.{HasDoneAll, execute-counted, execute-succeeded}
use hushvault.Sync.Rows.{listed}
use hushvault.Sync.Sent.{sent, push_all-listed}
use hushvault.Sync.Forgotten.{failing, op_again, run_chunk-forgets}
use hushvault.Sync.Retry.{
  compute_next_retry_at_for_errors, compute_next_retry_at, compute_retry_delay_ms, backoff,
  at_least_limit, is_retryable_sync_error, IsNextAttempt, next_retry-window,
}

abbrev provider : Provider
provider = record {
  max_items = 10;
  max_name_length = 64;
  max_value_bytes = 100;
  max_ops_per_chunk = some 2;
  validate_name = none;
  validate_value = none;
  byte_length = length;
}

abbrev marked : Text → Text → Text
marked name value = 35 ∷ value

abbrev facts : Facts
facts = record {
  secrets =
      record { name = codes "A"; value = codes "1" }
      ∷ record { name = codes "B"; value = codes "2" }
      ∷ record { name = codes "JWT_SECRET"; value = codes "3" }
      ∷ [];
  prefix = none;
  deny = [];
  delete_removed = true;
  on_target = codes "A" ∷ codes "OLD" ∷ [];
  ledger =
      record { item = codes "A"; fingerprint = codes "#0" }
      ∷ record { item = codes "OLD"; fingerprint = codes "#9" }
      ∷ [];
}

classify-IsSound_example : All (IsSound provider marked facts) (classify provider marked facts).ops
classify-IsSound_example = classify-IsSound provider marked facts

abbrev plan : Plan
plan = record {
  create_names = codes "B" ∷ [];
  update_names = codes "A" ∷ [];
  delete_names = codes "OLD" ∷ [];
  skip_names = [];
  conflict_names = [];
  blockers = [];
  ops =
      update (codes "A") (codes "#1") (codes "1")
      ∷ create (codes "B") (codes "#2") (codes "2")
      ∷ remove (codes "OLD")
      ∷ [];
  forget = [];
  reserved_names = [];
}

-- Only the creation.
abbrev small : Plan
small = record plan {
  ops = create (codes "B") (codes "#2") (codes "2") ∷ [];
  update_names = [];
  delete_names = [];
}

abbrev answering : PushResult → World
answering r = record {
  current = some true;
  guard_at_intent = true;
  intents = committed;
  answer = r;
  guard_at_confirm = true;
  recorded = committed;
}

abbrev all_ok : PushResult
all_ok = push_done (item_ok (codes "A") ∷ item_ok (codes "B") ∷ item_ok (codes "OLD") ∷ [])

abbrev late : Failure
late = record { code = timeout; maybe_applied = true; retry_after = none }

abbrev setup : PushResult → Setup
setup r = record {
  has_config = true;
  denied = false;
  has_credential = true;
  preparing = no_prepare;
  world = λ n. answering r;
  forgetting = committed;
}

execute-counted_example :
    total (execute provider (setup (push_failed late)) (planned plan) facts.ledger).0
    ≡ 3 + length (blocked_names plan)
unfolding setup_error prepare_error
execute-counted_example = execute-counted provider (setup (push_failed late)) plan facts.ledger refl

all_ok_succeeds : (execute provider (setup all_ok) (planned small) []).1.status ≡ succeeded
unfolding has same known insert sorted code_rank is_code has_code outcome_unknown own_answer or_own
    answer_for op_name is_set without upsert apply_one apply_all batch_rows threw longer note fail
    stop_if statement_for count_landed tally_one tally statements_for dropped intents_for settle
    record_of push_chunk is_current intended intents_threw give_up after_intents attempt_chunk
    run_chunk run_chunks ordered chunk_size failed_outcome distinct blocked_in blocked_names begin
    forget_rows conclude nothing_to_do prepare_error setup_error push_all after_setup execute_plan
    execute
all_ok_succeeds = refl

execute-succeeded_example :
    HasDoneAll provider (setup all_ok) small (execute provider (setup all_ok) (planned small) []).0
execute-succeeded_example = execute-succeeded provider (setup all_ok) small [] all_ok_succeeds

late-sent :
    sent
      (setup (push_failed late)).world
      0
      (chunked (chunk_size provider) (ordered plan.ops))
      (begin plan facts.ledger)
      (codes "B")
    ≡ true
unfolding sent ordered is_set begin is_current intents_threw intents_for chunk_size threw same
    op_name outcome_unknown
late-sent = refl

push_all-listed_example :
    listed
      (push_all provider (setup (push_failed late)) plan (begin plan facts.ledger)).rows
      (codes "B")
    ≡ true
unfolding has same op_name
push_all-listed_example =
    push_all-listed (codes "B") provider (setup (push_failed late)) plan (begin plan facts.ledger)
      (λ i. refl) (omega arith) refl late-sent

abbrev limited : Failure
limited = record { code = provider_rate_limit; maybe_applied = false; retry_after = some 60 }

-- What an earlier run left, whose push timed out.
abbrev after_timeout : Progress
after_timeout = record {
  rows = record { item = codes "B"; fingerprint = pending } ∷ [];
  counts = record { created = 0; updated = 0; deleted = 0; skipped = 0; failed = 0 };
  errors = [];
  retry_after_seconds = none;
  ok_items = 0;
  stopped = false;
}

run_chunk-forgets_example :
    listed
      (run_chunk
        (failing limited)
        (op_again (codes "B") (codes "#2") (codes "2") limited)
        after_timeout).rows
      (codes "B")
    ≡ false
unfolding known same outcome_unknown is_code code_rank
run_chunk-forgets_example =
    run_chunk-forgets (codes "B") (codes "#2") (codes "2") limited after_timeout refl refl refl
      ((λ e. refl), tt)

next_retry-window_example :
    IsNextAttempt (timeout ∷ provider_rate_limit ∷ []) 2 1000 (some 400) 401000
unfolding compute_next_retry_at_for_errors compute_next_retry_at compute_retry_delay_ms backoff
    at_least_limit is_retryable_sync_error is_code code_rank has_code
next_retry-window_example =
    next_retry-window (timeout ∷ provider_rate_limit ∷ []) 2 1000 7 (some 400) 401000 (omega arith)
      refl
