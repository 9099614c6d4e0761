-- ===== src/Sync/Success.antt =====
-- What the counts and the status of a whole run say of its plan.
use hushvault.Base.{
  ℕ, zero, suc, ◌+◌, ◌-◌, max, ◌≡◌, refl, sym, ap, ◌∙◌, true, not, ◌&&◌, Option, none, some, List,
  [], ◌∷◌, filter, length, chunked, Text, ltb, ◌==◌, or_else, concat, concat-chunked, length-append,
  arith, inl, inr, Bool-cases, Option-cases,
}
use hushvault.Sync.Plan.{provider_error, LedgerRow, Op, Provider}
use hushvault.Sync.Decide.{Plan}
use hushvault.Sync.Execute.{is_set, Batch, threw, World, Progress, note, fail}
use hushvault.Sync.Push.{
  give_up, after_intents, attempt_chunk, is_current, intended, intents_threw, run_chunk, run_chunks,
  ordered, chunk_size,
}
use hushvault.Sync.Run.{
  Status, nothing_to_do, prepare_error, no_prepare, prepared, prepare_threw, prepare_failed,
  Prepared, failed_outcome, succeeded, failed_run, Outcome, planned, Setup, blocked_names, begin,
  forget_rows, conclude, setup_error, push_all, after_setup, execute_plan, execute,
}
use hushvault.Sync.Counts.{
  total, total-run_chunks, IsTallied, failed-IsTallied, with_rows-IsTallied, push_chunk-IsTallied,
}

module _ (blocked : ℕ) where
  give_up-IsTallied :
      (ops : List Op) (p : Progress) → IsTallied blocked p → IsTallied blocked (give_up ops p)
  unfolding give_up
  give_up-IsTallied ops p h = failed-IsTallied blocked (length ops) provider_error none true p h

  after_intents-IsTallied :
      (w : World) (ops : List Op) (p : Progress)
      → IsTallied blocked p
      → IsTallied blocked (after_intents w ops p)
  unfolding after_intents
  after_intents-IsTallied w ops p h = elim (Bool-cases (intents_threw w ops)) [
    | inl t ↦ rw t (give_up-IsTallied ops p h)
    | inr t ↦ rw t (push_chunk-IsTallied blocked w ops p h)
  ]

  attempt_chunk-IsTallied :
      (w : World) (ops : List Op) (p : Progress)
      → IsTallied blocked p
      → IsTallied blocked (attempt_chunk w ops p)
  unfolding attempt_chunk
  attempt_chunk-IsTallied w ops p h = elim (Bool-cases (is_current w)) [
    | inl c ↦
        rw c (
          after_intents-IsTallied w ops _ (with_rows-IsTallied blocked (intended w ops p.rows) p h))
    | inr c ↦ rw c (give_up-IsTallied ops p h)
  ]

  run_chunk-IsTallied :
      (w : World) (ops : List Op) (p : Progress)
      → IsTallied blocked p
      → IsTallied blocked (run_chunk w ops p)
  unfolding run_chunk fail
  run_chunk-IsTallied w ops p h = elim (Bool-cases p.stopped) [
    | inl e ↦ rw e (record {
      no_failure = λ n. absurd (ground (arith, h.goes_on n));
      goes_on = λ n. absurd (ground (arith, h.goes_on n));
      blocked_counted = omega (arith, h.blocked_counted);
      all_landed = h.all_landed;
    })
    | inr e ↦ simp e (attempt_chunk-IsTallied w ops p h)
  ]

  run_chunks-IsTallied :
      (world : ℕ → World) (n : ℕ) (chunks : List (List Op)) (p : Progress)
      → IsTallied blocked p
      → IsTallied blocked (run_chunks world n chunks p)
  unfolding run_chunks
  run_chunks-IsTallied world n [] p h = h
  run_chunks-IsTallied world n (c ∷ cs) p h =
      run_chunks-IsTallied world (suc n) cs _ (run_chunk-IsTallied (world n) c p h)

  forget_rows-IsTallied :
      (b : Batch) (names : List Text) (p : Progress)
      → IsTallied blocked p
      → IsTallied blocked (forget_rows b names p)
  unfolding forget_rows note
  forget_rows-IsTallied b names p h = elim (Bool-cases (ltb 0 (length names) && not p.stopped)) [
    | inr e ↦ rw e h
    | inl e ↦ elim (Bool-cases (threw b)) [
      | inl t ↦
          rw (e, t)
            (record {
              no_failure = λ n. absurd (omega arith);
              goes_on = λ n. absurd (omega arith);
              blocked_counted = h.blocked_counted;
              all_landed = h.all_landed;
            })
      | inr t ↦ rw (e, t) (with_rows-IsTallied blocked _ p h)
    ]
  ]

total-forget_rows :
    (b : Batch) (names : List Text) (p : Progress) → total (forget_rows b names p) ≡ total p
unfolding forget_rows note
total-forget_rows b names p = elim (Bool-cases (ltb 0 (length names) && not p.stopped)) [
  | inr e ↦ rw e refl
  | inl e ↦ elim (Bool-cases (threw b)) [ inl t ↦ rw (e, t) refl | inr t ↦ rw (e, t) refl ]
]

begin-IsTallied :
    (plan : Plan) (rows : List LedgerRow)
    → IsTallied (length (blocked_names plan)) (begin plan rows)
unfolding begin
begin-IsTallied plan rows = record {
  no_failure = λ e. ground arith;
  goes_on = λ e. refl;
  blocked_counted = omega arith;
  all_landed = refl;
}

length-split :
    (ops : List Op)
    → length (filter is_set ops) + length (filter (λ op. not (is_set op)) ops) ≡ length ops
length-split [] = omega arith
length-split (op ∷ ops) = ground (arith, length-split ops)

pub length-ordered : (ops : List Op) → length (ordered ops) ≡ length ops
unfolding ordered
length-ordered ops =
    length-append (filter is_set ops) (filter (λ op. not (is_set op)) ops) ∙ length-split ops

pub chunks_whole :
    (provider : Provider) (ops : List Op) → concat (chunked (chunk_size provider) ops) ≡ ops
unfolding chunk_size
chunks_whole provider ops =
    let n = or_else provider.max_ops_per_chunk provider.max_items in
    let positive : max 1 n ≡ suc (max 1 n - 1) = omega arith in
    rw positive (concat-chunked (max 1 n - 1) ops)

module _ (provider : Provider) (s : Setup) (plan : Plan) where
  push_all-IsTallied :
      (p : Progress)
      → IsTallied (length (blocked_names plan)) p
      → IsTallied (length (blocked_names plan)) (push_all provider s plan p)
  unfolding push_all
  push_all-IsTallied p h =
      forget_rows-IsTallied _ s.forgetting plan.forget _ (run_chunks-IsTallied _ s.world 0 _ p h)

  total-push_all : (p : Progress) → total (push_all provider s plan p) ≡ total p + length plan.ops
  unfolding push_all
  total-push_all p =
      total-forget_rows s.forgetting plan.forget _
      ∙ (total-run_chunks s.world 0 (chunked (chunk_size provider) (ordered plan.ops)) p
          ∙ ap (λ n. total p + n)
              (ap length (chunks_whole provider (ordered plan.ops)) ∙ length-ordered plan.ops))

  -- Every operation of a plan that may be pushed is counted once, as created, updated, deleted or
  -- failed, and so is every blocked name, as failed; whatever the database and the provider answer.
  pub execute-counted :
      (rows : List LedgerRow)
      → setup_error s plan.ops ≡ none
      → total (execute provider s (planned plan) rows).0
        ≡ length plan.ops + length (blocked_names plan)
  unfolding execute execute_plan after_setup begin
  execute-counted rows e = elim (Bool-cases (length plan.ops == 0 && length plan.forget == 0)) [
    | inl empty ↦ rw empty (ground arith)
    | inr some_ops ↦ rw (some_ops, e) (omega (arith, total-push_all (begin plan rows)))
  ]

  -- What a run that succeeded has done.
  pub record HasDoneAll (p : Progress) : Type 0 where
    pub none_failed : p.counts.failed ≡ 0
    pub all_counted : p.counts.created + p.counts.updated + p.counts.deleted ≡ length plan.ops
    pub none_blocked : length (blocked_names plan) ≡ 0

  conclude-succeeded : (p : Progress) → (conclude p).status ≡ succeeded → length p.errors ≡ 0
  unfolding conclude
  conclude-succeeded p h = ground arith

  abbrev status_of : Option Outcome → Status
  status_of none = failed_run
  status_of (some o) = o.status

  prepare_error-fails :
      (p : Prepared) (ops : List Op) → status_of (prepare_error p ops) ≡ failed_run
  unfolding prepare_error failed_outcome
  prepare_error-fails p [] = refl
  prepare_error-fails no_prepare (_ ∷ _) = refl
  prepare_error-fails prepared (_ ∷ _) = refl
  prepare_error-fails (prepare_threw code) (_ ∷ _) = refl
  prepare_error-fails (prepare_failed f) (_ ∷ _) = refl

  setup_error-fails : (ops : List Op) → status_of (setup_error s ops) ≡ failed_run
  unfolding setup_error failed_outcome
  setup_error-fails ops = elim (Bool-cases s.has_config) [
    | inr c ↦ rw c refl
    | inl c ↦ elim (Bool-cases s.denied) [
      | inl d ↦ rw (c, d) refl
      | inr d ↦ elim (Bool-cases s.has_credential) [
        | inr k ↦ rw (c, d, k) refl
        | inl k ↦ rw (c, d, k) (prepare_error-fails s.preparing ops)
      ]
    ]
  ]

  nothing-succeeded : (n : ℕ) → (nothing_to_do n).status ≡ succeeded → n ≡ 0
  unfolding nothing_to_do failed_outcome
  nothing-succeeded zero h = refl
  nothing-succeeded (suc n) h = cc

  tallied-HasDoneAll :
      (p : Progress)
      → IsTallied (length (blocked_names plan)) p
      → total p ≡ length plan.ops + length (blocked_names plan)
      → length p.errors ≡ 0
      → HasDoneAll p
  tallied-HasDoneAll p h t e =
      let f = h.no_failure e in
      let b = h.blocked_counted in
      record { none_failed = f; all_counted = omega arith; none_blocked = omega arith }

  -- A run is reported as succeeded only if no name of its plan was blocked and every operation
  -- landed: the created, updated and deleted names are all the operations of the plan.
  pub execute-succeeded :
      (rows : List LedgerRow)
      → (execute provider s (planned plan) rows).1.status ≡ succeeded
      → HasDoneAll (execute provider s (planned plan) rows).0
  unfolding execute execute_plan after_setup begin
  execute-succeeded rows h = elim (Bool-cases (length plan.ops == 0 && length plan.forget == 0)) [
    | inl empty ↦
        let n = nothing-succeeded (length (blocked_names plan)) (rw empty at h) in
        rw empty (record { none_failed = n; all_counted = ground arith; none_blocked = n })
    | inr some_ops ↦ elim (Option-cases (setup_error s plan.ops)) [
      | inr (o, e) ↦
          let failed = ap status_of (sym e) ∙ setup_error-fails plan.ops in
          let done = rw (some_ops, e) at h in cc
      | inl e ↦
          let q = push_all provider s plan (begin plan rows) in
          rw (some_ops, e)
            (tallied-HasDoneAll q (push_all-IsTallied _ (begin-IsTallied plan rows))
              (total-push_all _ ∙ omega arith) (conclude-succeeded q (rw (some_ops, e) at h)))
    ]
  ]
