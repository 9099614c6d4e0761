-- ===== src/Sync/Forgotten.antt =====
-- A pending row of an earlier run, when a later push of the same name fails for certain.
use hushvault.Base.{
  ◌≡◌, refl, ap, ◌∙◌, true, false, ◌&&◌, some, List, [], ◌∷◌, Text, same, arith, All, inl, inr,
  Bool-cases,
}
use hushvault.Sync.Plan.{LedgerRow, known, Op, update}
use hushvault.Sync.Execute.{
  pending, Failure, outcome_unknown, push_failed, op_name, is_set, without, apply_one, apply_all,
  committed, batch_rows, threw, World, Progress, note, fail, stop_if,
}
use hushvault.Sync.Push.{
  dropped, intents_for, settle, record_of, push_chunk, is_current, intended, intents_threw,
  run_chunk,
}
use hushvault.Sync.Rows.{listed}
use hushvault.Sync.Sent.{run_chunk-attempt, attempt_chunk-push}

-- The target is unchanged, both batches commit, and the push fails with `f`.
abbrev pub failing : Failure → World
failing f = record {
  current = some true;
  guard_at_intent = true;
  intents = committed;
  answer = push_failed f;
  guard_at_confirm = true;
  recorded = committed;
}

-- Every row of the name is pending.
abbrev pub IsPending : Text → List LedgerRow → Type 0
IsPending t = All (λ r. same r.item t ≡ true → same r.fingerprint pending ≡ true)

pending-dropped :
    (t : Text) (rows : List LedgerRow)
    → IsPending t rows
    → listed (without (λ r. same r.item t && same r.fingerprint pending) rows) t ≡ false
unfolding without known
pending-dropped t [] h = refl
pending-dropped t (r ∷ rs) (p, h) = elim (Bool-cases (same r.item t)) [
  | inl hit ↦ ground (arith, hit, p hit, pending-dropped t rs h)
  | inr miss ↦ ground (arith, miss, pending-dropped t rs h)
]

module _ (t fingerprint value : Text) (f : Failure) where
  abbrev pub op_again : List Op
  op_again = update t fingerprint value ∷ []

  intended-again :
      (rows : List LedgerRow) → listed rows t ≡ true → intended (failing f) op_again rows ≡ rows
  unfolding intended intents_for batch_rows apply_all apply_one op_name is_set
  intended-again rows h = simp h refl

  rows-failed :
      (p : Progress)
      → outcome_unknown f ≡ false
      → (push_chunk (failing f) op_again p).rows
        ≡ without (λ r. same r.item t && same r.fingerprint pending) p.rows
  unfolding push_chunk threw settle record_of dropped batch_rows apply_all apply_one op_name is_set
      stop_if fail note
  rows-failed p u = simp u refl

  -- An update of a name that fails for certain deletes the name's pending row, also when an earlier
  -- run left that row because its own push may have been applied: the ledger then has no row for
  -- the name.
  pub run_chunk-forgets :
      (p : Progress)
      → p.stopped ≡ false
      → outcome_unknown f ≡ false
      → listed p.rows t ≡ true
      → IsPending t p.rows
      → listed (run_chunk (failing f) op_again p).rows t ≡ false
  unfolding is_current intents_threw threw
  run_chunk-forgets p s u h k =
      ap (λ q. listed (Progress.rows q) t)
        (run_chunk-attempt t (failing f) op_again p s
          ∙ attempt_chunk-push t (failing f) op_again p refl (ground arith))
      ∙ (ap (λ rs. listed rs t)
            (rows-failed (record p { rows = intended (failing f) op_again p.rows }) u
              ∙ ap (without (λ r. same r.item t && same r.fingerprint pending))
                  (intended-again p.rows h))
          ∙ pending-dropped t p.rows k)
