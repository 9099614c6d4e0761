-- ===== src/Sync/Counts.antt =====
-- The counts of a run: every operation is counted, and a run succeeds only if each one landed.
use hushvault.Base.{
  ℕ, suc, ◌+◌, ◌≡◌, Bool, true, false, Option, none, List, [], ◌∷◌, length, ◌≤◌, concat,
  length-append, arith, inl, inr, Bool-cases,
}
use hushvault.Sync.Plan.{Code, provider_error, LedgerRow, Op, create, update, remove}
use hushvault.Sync.Execute.{
  Item, PushResult, push_failed, push_done, Answer, unanswered, landed, turned_down, answer_for,
  op_name, threw, World, Progress, note, fail, stop_if,
}
use hushvault.Sync.Push.{
  count_landed, tally_one, tally, settle, push_chunk, give_up, after_intents, attempt_chunk,
  is_current, intended, intents_threw, run_chunk, run_chunks,
}

-- The operations that are accounted for.
abbrev pub total : Progress → ℕ
total p = p.counts.created + p.counts.updated + p.counts.deleted + p.counts.failed

total-tally_one : (a : Answer) (op : Op) (p : Progress) → total (tally_one a op p) ≡ total p + 1
unfolding tally_one count_landed stop_if fail note
total-tally_one unanswered op p = omega arith
total-tally_one landed (create _ _ _) p = omega arith
total-tally_one landed (update _ _ _) p = omega arith
total-tally_one landed (remove _) p = omega arith
total-tally_one (turned_down f) op p = omega arith

total-tally :
    (items : List Item) (ops : List Op) (p : Progress)
    → total (tally items ops p) ≡ total p + length ops
unfolding tally
total-tally items [] p = omega arith
total-tally items (op ∷ ops) p =
    let q = tally_one (answer_for items (op_name op)) op p in
    omega (arith, total-tally items ops q, total-tally_one (answer_for items (op_name op)) op p)

total-settle :
    (r : PushResult) (ops : List Op) (p : Progress) → total (settle r ops p) ≡ total p + length ops
unfolding settle stop_if fail note
total-settle (push_failed f) ops p = omega arith
total-settle (push_done items) ops p = total-tally items ops p

total-push_chunk :
    (w : World) (ops : List Op) (p : Progress) → total (push_chunk w ops p) ≡ total p + length ops
unfolding push_chunk stop_if note
total-push_chunk w ops p = elim (Bool-cases (threw w.recorded)) [
  | inl e ↦ rw e (total-settle w.answer ops p)
  | inr e ↦ rw e (total-settle w.answer ops p)
]

total-give_up : (ops : List Op) (p : Progress) → total (give_up ops p) ≡ total p + length ops
unfolding give_up stop_if fail note
total-give_up ops p = omega arith

total-after_intents :
    (w : World) (ops : List Op) (p : Progress)
    → total (after_intents w ops p) ≡ total p + length ops
unfolding after_intents
total-after_intents w ops p = elim (Bool-cases (intents_threw w ops)) [
  | inl t ↦ rw t (total-give_up ops p)
  | inr t ↦ rw t (total-push_chunk w ops p)
]

total-attempt_chunk :
    (w : World) (ops : List Op) (p : Progress)
    → total (attempt_chunk w ops p) ≡ total p + length ops
unfolding attempt_chunk
total-attempt_chunk w ops p = elim (Bool-cases (is_current w)) [
  | inl c ↦ rw c (total-after_intents w ops (record p { rows = intended w ops p.rows }))
  | inr c ↦ rw c (total-give_up ops p)
]

total-run_chunk :
    (w : World) (ops : List Op) (p : Progress) → total (run_chunk w ops p) ≡ total p + length ops
unfolding run_chunk fail
total-run_chunk w ops p = elim (Bool-cases p.stopped) [
  | inl e ↦ rw e (omega arith)
  | inr e ↦ simp e (total-attempt_chunk w ops p)
]

pub total-run_chunks :
    (world : ℕ → World) (n : ℕ) (chunks : List (List Op)) (p : Progress)
    → total (run_chunks world n chunks p) ≡ total p + length (concat chunks)
unfolding run_chunks
total-run_chunks world n [] p = omega arith
total-run_chunks world n (c ∷ cs) p = omega (
  arith,
  total-run_chunks world (suc n) cs (run_chunk (world n) c p),
  total-run_chunk (world n) c p,
  length-append c (concat cs),
)

-- What every step keeps, where `blocked` names were counted as failed at the start: a run without
-- an error counted nothing as failed, and what it counted as landed is `ok_items`.
pub record IsTallied (blocked : ℕ) (p : Progress) : Type 0 where
  pub no_failure : length p.errors ≡ 0 → p.counts.failed ≡ 0
  pub goes_on : length p.errors ≡ 0 → p.stopped ≡ false
  pub blocked_counted : blocked ≤ p.counts.failed
  pub all_landed : p.counts.created + p.counts.updated + p.counts.deleted ≡ p.ok_items

module _ (blocked : ℕ) where
  -- A failure that is noted keeps it, whatever is done to the ledger.
  pub failed-IsTallied :
      (n : ℕ) (code : Code) (retry : Option ℕ) (b : Bool) (p : Progress)
      → IsTallied blocked p
      → IsTallied blocked (stop_if b (fail n (note code retry p)))
  unfolding stop_if fail note
  failed-IsTallied n code retry b p h = record {
    no_failure = λ e. absurd (omega arith);
    goes_on = λ e. absurd (omega arith);
    blocked_counted = omega (arith, h.blocked_counted);
    all_landed = h.all_landed;
  }

  tally_one-IsTallied :
      (a : Answer) (op : Op) (p : Progress)
      → IsTallied blocked p
      → IsTallied blocked (tally_one a op p)
  unfolding tally_one count_landed
  tally_one-IsTallied unanswered op p h = failed-IsTallied 1 provider_error none _ p h
  tally_one-IsTallied (turned_down f) op p h = failed-IsTallied 1 f.code f.retry_after _ p h
  tally_one-IsTallied landed (create _ _ _) p h = record {
    no_failure = h.no_failure;
    goes_on = h.goes_on;
    blocked_counted = h.blocked_counted;
    all_landed = omega (arith, h.all_landed);
  }
  tally_one-IsTallied landed (update _ _ _) p h = record {
    no_failure = h.no_failure;
    goes_on = h.goes_on;
    blocked_counted = h.blocked_counted;
    all_landed = omega (arith, h.all_landed);
  }
  tally_one-IsTallied landed (remove _) p h = record {
    no_failure = h.no_failure;
    goes_on = h.goes_on;
    blocked_counted = h.blocked_counted;
    all_landed = omega (arith, h.all_landed);
  }

  tally-IsTallied :
      (items : List Item) (ops : List Op) (p : Progress)
      → IsTallied blocked p
      → IsTallied blocked (tally items ops p)
  unfolding tally
  tally-IsTallied items [] p h = h
  tally-IsTallied items (op ∷ ops) p h =
      tally-IsTallied items ops _ (tally_one-IsTallied (answer_for items (op_name op)) op p h)

  settle-IsTallied :
      (r : PushResult) (ops : List Op) (p : Progress)
      → IsTallied blocked p
      → IsTallied blocked (settle r ops p)
  unfolding settle
  settle-IsTallied (push_failed f) ops p h =
      failed-IsTallied (length ops) f.code f.retry_after true p h
  settle-IsTallied (push_done items) ops p h = tally-IsTallied items ops p h

  -- Only the ledger changed.
  pub with_rows-IsTallied :
      (rows : List LedgerRow) (p : Progress)
      → IsTallied blocked p
      → IsTallied blocked (record p { rows = rows })
  with_rows-IsTallied rows p h = record {
    no_failure = h.no_failure;
    goes_on = h.goes_on;
    blocked_counted = h.blocked_counted;
    all_landed = h.all_landed;
  }

  pub noted-IsTallied :
      (code : Code) (b : Bool) (p : Progress)
      → IsTallied blocked p
      → IsTallied blocked (stop_if b (note code none p))
  unfolding stop_if note
  noted-IsTallied code b p h = record {
    no_failure = λ e. absurd (omega arith);
    goes_on = λ e. absurd (omega arith);
    blocked_counted = h.blocked_counted;
    all_landed = h.all_landed;
  }

  pub push_chunk-IsTallied :
      (w : World) (ops : List Op) (p : Progress)
      → IsTallied blocked p
      → IsTallied blocked (push_chunk w ops p)
  unfolding push_chunk
  push_chunk-IsTallied w ops p h =
      let k = with_rows-IsTallied _ _ (settle-IsTallied w.answer ops p h) in
      elim (Bool-cases (threw w.recorded)) [
        | inl e ↦ rw e (noted-IsTallied provider_error true _ k)
        | inr e ↦ rw e k
      ]
