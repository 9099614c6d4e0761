-- ===== src/Sync/Push.antt =====
-- `execute`: one chunk, the loop over the chunks, and the checks in front of it.
use hushvault.Base.{
  ℕ, suc, ◌+◌, max, Bool, true, false, not, ◌&&◌, none, List, [], ◌∷◌, ◌++◌, map, filter, length,
  ltb, if◌then◌else◌, or_else,
}
use hushvault.Sync.Plan.{provider_error, LedgerRow, Op, create, update, remove, Provider}
use hushvault.Sync.Execute.{
  stop_on, has_code, Failure, outcome_unknown, Item, PushResult, push_failed, push_done, Answer,
  unanswered, landed, turned_down, answer_for, op_name, is_set, Statement, intend, confirm,
  drop_pending, erase, batch_rows, threw, World, Counts, Progress, note, fail, stop_if,
}

-- The statements that record the answer for one operation.
unfoldable pub statement_for : Answer → Op → List Statement
statement_for landed (create name fingerprint value) = confirm name fingerprint ∷ []
statement_for landed (update name fingerprint value) = confirm name fingerprint ∷ []
statement_for landed (remove name) = erase name ∷ []
statement_for unanswered op = []
statement_for (turned_down f) op =
    if is_set op && not (outcome_unknown f) then drop_pending (op_name op) ∷ [] else []

unfoldable pub count_landed : Op → Counts → Counts
count_landed (create name fingerprint value) c = record c { created = c.created + 1 }
count_landed (update name fingerprint value) c = record c { updated = c.updated + 1 }
count_landed (remove name) c = record c { deleted = c.deleted + 1 }

unfoldable pub tally_one : Answer → Op → Progress → Progress
unfolding count_landed stop_if
tally_one landed op p = record p { counts = count_landed op p.counts; ok_items = p.ok_items + 1 }
tally_one unanswered op p =
    stop_if (has_code stop_on provider_error) (fail 1 (note provider_error none p))
tally_one (turned_down f) op p =
    stop_if (has_code stop_on f.code) (fail 1 (note f.code f.retry_after p))

unfoldable pub tally : List Item → List Op → Progress → Progress
unfolding tally_one
tally items [] p = p
tally items (op ∷ ops) p = tally items ops (tally_one (answer_for items (op_name op)) op p)

unfoldable pub statements_for : List Item → List Op → List Statement
statements_for items [] = []
statements_for items (op ∷ ops) =
    statement_for (answer_for items (op_name op)) op ++ statements_for items ops

-- A push that failed as a whole: a definite failure forgets the intents.
unfoldable pub dropped : Failure → List Op → List Statement
dropped f ops =
    if outcome_unknown f then [] else map (λ op. drop_pending (op_name op)) (filter is_set ops)

unfoldable pub intents_for : List Op → List Statement
intents_for ops = map (λ op. intend (op_name op)) (filter is_set ops)

unfoldable pub settle : PushResult → List Op → Progress → Progress
settle (push_failed f) chunk p = stop_if true (fail (length chunk) (note f.code f.retry_after p))
settle (push_done items) chunk p = tally items chunk p

unfoldable pub record_of : PushResult → List Op → List Statement
record_of (push_failed f) chunk = dropped f chunk
record_of (push_done items) chunk = statements_for items chunk

-- The push and the batch that records it.
unfoldable pub push_chunk : World → List Op → Progress → Progress
unfolding settle record_of batch_rows
push_chunk w chunk p =
    let pushed = settle w.answer chunk p in
    let written = record pushed {
      rows = batch_rows w.recorded w.guard_at_confirm (record_of w.answer chunk) pushed.rows;
    } in
    if threw w.recorded then stop_if true (note provider_error none written) else written

unfoldable pub is_current : World → Bool
is_current w = or_else w.current false

-- The rows after the intents of a chunk; no batch is sent when nothing is set.
unfoldable pub intended : World → List Op → List LedgerRow → List LedgerRow
intended w chunk rows = batch_rows w.intents w.guard_at_intent (intents_for chunk) rows

unfoldable pub intents_threw : World → List Op → Bool
intents_threw w chunk = ltb 0 (length (intents_for chunk)) && threw w.intents

unfoldable pub give_up : List Op → Progress → Progress
unfolding stop_if fail note
give_up chunk p = stop_if true (fail (length chunk) (note provider_error none p))

unfoldable pub after_intents : World → List Op → Progress → Progress
unfolding intents_threw push_chunk give_up
after_intents w chunk p = if intents_threw w chunk then give_up chunk p else push_chunk w chunk p

-- Intent first: nothing is sent unless the target is current and the intents are written.
unfoldable pub attempt_chunk : World → List Op → Progress → Progress
unfolding intended is_current after_intents give_up
attempt_chunk w chunk p =
    if is_current w
    then after_intents w chunk (record p { rows = intended w chunk p.rows })
    else give_up chunk p

unfoldable pub run_chunk : World → List Op → Progress → Progress
unfolding fail
run_chunk w chunk p = if p.stopped then fail (length chunk) p else attempt_chunk w chunk p

-- The world of each chunk, by its number.
unfoldable pub run_chunks : (ℕ → World) → ℕ → List (List Op) → Progress → Progress
run_chunks world n [] p = p
run_chunks world n (chunk ∷ chunks) p =
    run_chunks world (suc n) chunks (run_chunk (world n) chunk p)

-- Sets first, deletes last.
unfoldable pub ordered : List Op → List Op
ordered ops = filter is_set ops ++ filter (λ op. not (is_set op)) ops

unfoldable pub chunk_size : Provider → ℕ
chunk_size provider = max 1 (or_else provider.max_ops_per_chunk provider.max_items)
