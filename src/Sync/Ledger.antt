-- ===== src/Sync/Ledger.antt =====
-- The ledger during a run: a name that the target may hold because of this run has a row.
use hushvault.Base.{
  ℕ, suc, ◌≡◌, refl, ap, ◌∙◌, Bool, true, false, not, ◌&&◌, ◌||◌, List, [], ◌∷◌, ◌++◌, map, filter,
  all, Text, same, same_iff, if◌then◌else◌, arith, inl, inr, Bool-cases,
}
use hushvault.Sync.Plan.{LedgerRow, Op, create, update, remove}
use hushvault.Sync.Execute.{
  outcome_unknown, Item, PushResult, push_failed, push_done, Answer, unanswered, landed,
  turned_down, answer_for, op_name, is_set, Statement, intend, drop_pending, apply_all, Batch,
  committed, lost, refused, batch_rows, threw, World, Progress, note, fail, stop_if,
}
use hushvault.Sync.Push.{
  statement_for, statements_for, tally_one, tally, dropped, intents_for, settle, record_of,
  push_chunk,
}
use hushvault.Sync.Rows.{listed, spares, listed-apply_all, listed-intend}

-- Answers that rule out that the push of a name was applied.
abbrev pub ruled_out : Answer → Bool
ruled_out unanswered = false
ruled_out landed = false
ruled_out (turned_down f) = not (outcome_unknown f)

abbrev pub definite : PushResult → Text → Bool
definite (push_failed f) t = not (outcome_unknown f)
definite (push_done items) t = ruled_out (answer_for items t)

-- How many operations are for a name.
abbrev pub times : Text → List Op → ℕ
times t [] = 0
times t (op ∷ ops) = if same (op_name op) t then suc (times t ops) else times t ops

abbrev pub sets : Text → List Op → Bool
sets t [] = false
sets t (op ∷ ops) = (is_set op && same (op_name op) t) || sets t ops

spares-statement_for :
    (t : Text) (a : Answer) (op : Op)
    → (same (op_name op) t ≡ true → (is_set op ≡ true) × (ruled_out a ≡ false))
    → all (spares t) (statement_for a op) ≡ true
unfolding statement_for op_name is_set
spares-statement_for t unanswered op h = refl
spares-statement_for t landed (create n f v) h = refl
spares-statement_for t landed (update n f v) h = refl
spares-statement_for t landed (remove n) h = elim (Bool-cases (same n t)) [
  | inl hit ↦ absurd (ground (arith, (h hit).0))
  | inr miss ↦ ground (arith, miss)
]
spares-statement_for t (turned_down f) op h = elim (Bool-cases (same (op_name op) t)) [
  | inl hit ↦ ground (arith, (h hit).0, (h hit).1)
  | inr miss ↦ ground (arith, miss)
]

all-append :
    {A : Type 0} → (p : A → Bool) (xs ys : List A) → all p (xs ++ ys) ≡ (all p xs && all p ys)
all-append p [] ys = refl
all-append p (x ∷ xs) ys = ground (arith, all-append p xs ys)

-- Whether the operations for a name, if there are any, are sets.
abbrev pub only_sets : Text → List Op → Bool
only_sets t [] = true
only_sets t (op ∷ ops) = (not (same (op_name op) t) || is_set op) && only_sets t ops

spares-statements_for :
    (t : Text) (items : List Item) (ops : List Op)
    → only_sets t ops ≡ true
    → (sets t ops ≡ true → ruled_out (answer_for items t) ≡ false)
    → all (spares t) (statements_for items ops) ≡ true
unfolding statements_for
spares-statements_for t items [] o h = refl
spares-statements_for t items (op ∷ ops) o h =
    all-append (spares t) (statement_for (answer_for items (op_name op)) op)
      (statements_for items ops)
    ∙ ground (
      arith,
      spares-statements_for t items ops (ground arith) (λ k. h (ground arith)),
      spares-statement_for t (answer_for items (op_name op)) op (λ hit. (
        ground arith,
        ap (λ n. ruled_out (answer_for items n)) ((same_iff (op_name op) t).0 hit)
            ∙ h (ground arith),
      )),
    )

spares-drops :
    (t : Text) (ops : List Op)
    → sets t ops ≡ false
    → all (spares t) (map (λ op. drop_pending (op_name op)) (filter is_set ops)) ≡ true
spares-drops t [] h = refl
spares-drops t (op ∷ ops) h = ground (arith, spares-drops t ops)

pub spares-intents :
    (t : Text) (ops : List Op)
    → all (spares t) (map (λ op. intend (op_name op)) (filter is_set ops)) ≡ true
spares-intents t [] = refl
spares-intents t (op ∷ ops) = ground (arith, spares-intents t ops)

-- Recording an answer keeps the row of a name that the chunk does not delete, unless the push of
-- that name is ruled out.
spares-record_of :
    (t : Text) (r : PushResult) (ops : List Op)
    → only_sets t ops ≡ true
    → (sets t ops ≡ true → definite r t ≡ false)
    → all (spares t) (record_of r ops) ≡ true
unfolding record_of dropped
spares-record_of t (push_failed f) ops o h = elim (Bool-cases (outcome_unknown f)) [
  | inl u ↦ rw u refl
  | inr d ↦ rw d (spares-drops t ops (ground (arith, Bool-cases (sets t ops))))
]
spares-record_of t (push_done items) ops o h = spares-statements_for t items ops o h

pub listed-batch :
    (t : Text) (b : Batch) (g : Bool) (ss : List Statement) (rows : List LedgerRow)
    → all (spares t) ss ≡ true
    → listed rows t ≡ true
    → listed (batch_rows b g ss rows) t ≡ true
unfolding batch_rows
listed-batch t committed g ss rows k h = listed-apply_all t g ss rows k h
listed-batch t lost g ss rows k h = listed-apply_all t g ss rows k h
listed-batch t refused g ss rows k h = h

rows-tally_one : (a : Answer) (op : Op) (p : Progress) → (tally_one a op p).rows ≡ p.rows
unfolding tally_one stop_if fail note
rows-tally_one unanswered op p = refl
rows-tally_one landed op p = refl
rows-tally_one (turned_down f) op p = refl

rows-tally : (items : List Item) (ops : List Op) (p : Progress) → (tally items ops p).rows ≡ p.rows
unfolding tally
rows-tally items [] p = refl
rows-tally items (op ∷ ops) p =
    rows-tally items ops _ ∙ rows-tally_one (answer_for items (op_name op)) op p

rows-settle : (r : PushResult) (ops : List Op) (p : Progress) → (settle r ops p).rows ≡ p.rows
unfolding settle stop_if fail note
rows-settle (push_failed f) ops p = refl
rows-settle (push_done items) ops p = rows-tally items ops p

pub listed-push_chunk :
    (t : Text) (w : World) (ops : List Op) (p : Progress)
    → only_sets t ops ≡ true
    → (sets t ops ≡ true → definite w.answer t ≡ false)
    → listed p.rows t ≡ true
    → listed (push_chunk w ops p).rows t ≡ true
unfolding push_chunk stop_if note
listed-push_chunk t w ops p o d h =
    let kept =
      listed-batch t w.recorded w.guard_at_confirm (record_of w.answer ops)
        (settle w.answer ops p).rows (spares-record_of t w.answer ops o d)
        (ap (λ rs. listed rs t) (rows-settle w.answer ops p) ∙ h) in
    elim (Bool-cases (threw w.recorded)) [ inl e ↦ rw e kept | inr e ↦ rw e kept ]

-- After a committed batch of intents every name that is set has a row.
pub listed-intents :
    (t : Text) (ops : List Op) (rows : List LedgerRow)
    → sets t ops ≡ true
    → listed (apply_all true (intents_for ops) rows) t ≡ true
unfolding intents_for apply_all
listed-intents t [] rows h = cc
listed-intents t (op ∷ ops) rows h = elim (Bool-cases (is_set op)) [
  | inr r ↦ rw r (listed-intents t ops rows (ground (arith, r)))
  | inl s ↦ elim (Bool-cases (same (op_name op) t)) [
    | inr miss ↦ rw s (listed-intents t ops _ (ground (arith, s, miss)))
    | inl hit ↦
        rw (s, (same_iff (op_name op) t).0 hit)
          (listed-apply_all t true (map (λ o. intend (op_name o)) (filter is_set ops)) _
            (spares-intents t ops) (listed-intend t rows))
  ]
]
