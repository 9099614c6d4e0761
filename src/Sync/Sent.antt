-- ===== src/Sync/Sent.antt =====
-- What a run has sent, against the ledger it leaves.
use hushvault.Base.{
  ℕ, suc, ◌+◌, ◌≤◌, ◌≡◌, refl, ap, ◌∙◌, Bool, true, false, not, ◌&&◌, ◌||◌, List, [], ◌∷◌, ◌++◌,
  map, filter, all, length, Text, has, concat, chunked, ltb, arith, inl, inr, Bool-cases,
}
use hushvault.Sync.Plan.{LedgerRow, Op, Provider}
use hushvault.Sync.Decide.{Plan}
use hushvault.Sync.Execute.{
  is_set, Statement, erase, apply_all, Batch, committed, lost, refused, batch_rows, threw, World,
  Progress, note, fail, stop_if,
}
use hushvault.Sync.Push.{
  intents_for, push_chunk, is_current, intended, intents_threw, give_up, after_intents,
  attempt_chunk, run_chunk, run_chunks, ordered, chunk_size,
}
use hushvault.Sync.Run.{Setup, forget_rows, push_all}
use hushvault.Sync.Rows.{listed, spares}
use hushvault.Sync.Ledger.{
  definite, times, sets, only_sets, spares-intents, listed-batch, listed-push_chunk, listed-intents,
}
use hushvault.Sync.Success.{chunks_whole}

-- Whether this chunk sends a set of the name whose effect is not ruled out by the answer.
abbrev pub sent_in : World → List Op → Progress → Text → Bool
sent_in w ops p t =
    not p.stopped
    && (is_current w && (not (intents_threw w ops) && (sets t ops && not (definite w.answer t))))

-- Whether some chunk of the run does.
unfoldable pub sent : (ℕ → World) → ℕ → List (List Op) → Progress → Text → Bool
sent world n [] p t = false
sent world n (c ∷ cs) p t =
    sent_in (world n) c p t || sent world (suc n) cs (run_chunk (world n) c p) t

module _ (t : Text) where
  times-append : (xs ys : List Op) → times t (xs ++ ys) ≡ times t xs + times t ys
  times-append [] ys = omega arith
  times-append (x ∷ xs) ys = ground (arith, times-append xs ys)

  sets-none : (ops : List Op) → times t ops ≡ 0 → (sets t ops ≡ false) × (only_sets t ops ≡ true)
  sets-none [] h = (refl, refl)
  sets-none (op ∷ ops) h = ground (arith, sets-none ops)

  sets-once : (ops : List Op) → times t ops ≤ 1 → sets t ops ≡ true → only_sets t ops ≡ true
  sets-once [] h k = refl
  sets-once (op ∷ ops) h k = ground (arith, sets-none ops, sets-once ops)

  sets-times : (ops : List Op) → sets t ops ≡ true → 1 ≤ times t ops
  sets-times [] h = cc
  sets-times (op ∷ ops) h = ground (arith, sets-times ops)

  listed-intended :
      (w : World) (ops : List Op) (rows : List LedgerRow)
      → listed rows t ≡ true
      → listed (intended w ops rows) t ≡ true
  unfolding intended intents_for
  listed-intended w ops rows h =
      listed-batch t w.intents w.guard_at_intent _ rows (spares-intents t ops) h

  rows-give_up : (ops : List Op) (p : Progress) → (give_up ops p).rows ≡ p.rows
  unfolding give_up stop_if fail note
  rows-give_up ops p = refl

  listed-attempt_chunk :
      (w : World) (ops : List Op) (p : Progress)
      → times t ops ≡ 0
      → listed p.rows t ≡ true
      → listed (attempt_chunk w ops p).rows t ≡ true
  unfolding attempt_chunk after_intents
  listed-attempt_chunk w ops p z h =
      let (s, o) = sets-none ops z in
      let meant = record p { rows = intended w ops p.rows } in
      let i = listed-intended w ops p.rows h in
      elim (Bool-cases (is_current w)) [
        | inr c ↦ simp c (ap (λ rs. listed rs t) (rows-give_up ops p) ∙ h)
        | inl c ↦ elim (Bool-cases (intents_threw w ops)) [
          | inl g ↦ simp (c, g) (ap (λ rs. listed rs t) (rows-give_up ops meant) ∙ i)
          | inr g ↦
              simp (c, g) (listed-push_chunk t w ops meant o (λ k. absurd (ground (arith, s, k))) i)
        ]
      ]

  -- A chunk without the name keeps its row.
  listed-run_chunk :
      (w : World) (ops : List Op) (p : Progress)
      → times t ops ≡ 0
      → listed p.rows t ≡ true
      → listed (run_chunk w ops p).rows t ≡ true
  unfolding run_chunk fail
  listed-run_chunk w ops p z h = elim (Bool-cases p.stopped) [
    | inl e ↦ simp e h
    | inr e ↦ simp e (listed-attempt_chunk w ops p z h)
  ]

  committed_batch :
      (b : Batch) (ss : List Statement) (rows : List LedgerRow)
      → threw b ≡ false
      → batch_rows b true ss rows ≡ apply_all true ss rows
  unfolding batch_rows threw
  committed_batch committed ss rows h = refl
  committed_batch lost ss rows h = cc
  committed_batch refused ss rows h = cc

  sets-intents : (ops : List Op) → sets t ops ≡ true → ltb 0 (length (intents_for ops)) ≡ true
  unfolding intents_for
  sets-intents [] h = cc
  sets-intents (op ∷ ops) h = ground (arith, sets-intents ops)

  listed-committed :
      (w : World) (ops : List Op) (rows : List LedgerRow)
      → w.guard_at_intent ≡ true
      → intents_threw w ops ≡ false
      → sets t ops ≡ true
      → listed (intended w ops rows) t ≡ true
  unfolding intended intents_threw
  listed-committed w ops rows g e s =
      let nonempty = sets-intents ops s in
      let done : threw w.intents ≡ false = ground arith in
      rw g
        (rw (committed_batch w.intents (intents_for ops) rows done) (listed-intents t ops rows s))

  pub run_chunk-attempt :
      (w : World) (ops : List Op) (p : Progress)
      → p.stopped ≡ false
      → run_chunk w ops p ≡ attempt_chunk w ops p
  unfolding run_chunk
  run_chunk-attempt w ops p e = simp e refl

  pub attempt_chunk-push :
      (w : World) (ops : List Op) (p : Progress)
      → is_current w ≡ true
      → intents_threw w ops ≡ false
      → attempt_chunk w ops p ≡ push_chunk w ops (record p { rows = intended w ops p.rows })
  unfolding attempt_chunk after_intents
  attempt_chunk-push w ops p c g = simp (c, g) refl

  listed-sent_in :
      (w : World) (ops : List Op) (p : Progress)
      → w.guard_at_intent ≡ true
      → times t ops ≤ 1
      → sent_in w ops p t ≡ true
      → listed (run_chunk w ops p).rows t ≡ true
  listed-sent_in w ops p g once h =
      let meant : intents_threw w ops ≡ false = ground arith in
      let s : sets t ops ≡ true = ground arith in
      let d : definite w.answer t ≡ false = ground arith in
      ap (λ q. listed (Progress.rows q) t)
        (run_chunk-attempt w ops p (ground arith) ∙ attempt_chunk-push w ops p (ground arith) meant)
      ∙ listed-push_chunk t w ops (record p { rows = intended w ops p.rows }) (sets-once ops once s)
          (λ k. d) (listed-committed w ops p.rows g meant s)

  listed-run_chunks :
      (world : ℕ → World) (n : ℕ) (chunks : List (List Op)) (p : Progress)
      → times t (concat chunks) ≡ 0
      → listed p.rows t ≡ true
      → listed (run_chunks world n chunks p).rows t ≡ true
  unfolding run_chunks
  listed-run_chunks world n [] p z h = h
  listed-run_chunks world n (c ∷ cs) p z h =
      let a = times-append c (concat cs) in
      listed-run_chunks world (suc n) cs _ (omega arith)
        (listed-run_chunk (world n) c p (omega arith) h)

  -- Over the whole loop.
  sent-listed :
      (world : ℕ → World) (n : ℕ) (chunks : List (List Op)) (p : Progress)
      → ((i : ℕ) → (world i).guard_at_intent ≡ true)
      → times t (concat chunks) ≤ 1
      → sent world n chunks p t ≡ true
      → listed (run_chunks world n chunks p).rows t ≡ true
  unfolding run_chunks sent
  sent-listed world n [] p g once h = cc
  sent-listed world n (c ∷ cs) p g once h =
      let a = times-append c (concat cs) in
      elim (Bool-cases (sent_in (world n) c p t)) [
        | inl now ↦
            let s : sets t c ≡ true = ground arith in
            let one = sets-times c s in
            listed-run_chunks world (suc n) cs _ (omega arith)
              (listed-sent_in (world n) c p (g n) (omega arith) now)
        | inr later ↦ sent-listed world (suc n) cs _ g (omega arith) (ground (arith, later))
      ]

  times-split :
      (ops : List Op)
      → times t (filter is_set ops) + times t (filter (λ op. not (is_set op)) ops) ≡ times t ops
  times-split [] = omega arith
  times-split (op ∷ ops) = ground (arith, times-split ops)

  times-ordered : (ops : List Op) → times t (ordered ops) ≡ times t ops
  unfolding ordered
  times-ordered ops =
      times-append (filter is_set ops) (filter (λ op. not (is_set op)) ops) ∙ times-split ops

  spares-erase : (names : List Text) → has names t ≡ false → all (spares t) (map erase names) ≡ true
  unfolding has
  spares-erase [] h = refl
  spares-erase (n ∷ ns) h = ground (arith, spares-erase ns)

  listed-forget_rows :
      (b : Batch) (names : List Text) (p : Progress)
      → has names t ≡ false
      → listed p.rows t ≡ true
      → listed (forget_rows b names p).rows t ≡ true
  unfolding forget_rows note
  listed-forget_rows b names p f h =
      let kept = listed-batch t b true (map erase names) p.rows (spares-erase names f) h in
      elim (Bool-cases (ltb 0 (length names) && not p.stopped)) [
        | inr e ↦ rw e h
        | inl e ↦ elim (Bool-cases (threw b)) [ inl g ↦ rw (e, g) kept | inr g ↦ rw (e, g) kept ]
      ]

  -- A name that the run sent a set for has a ledger row when the run is over, unless the provider
  -- answered that the set definitely was not applied: so a lost answer, a failed write of the
  -- results or a stop never leaves a name on the target that the ledger does not know. The plan has
  -- at most one operation for the name and does not forget it, and the target is not edited between
  -- the check in front of a chunk and its intents.
  pub push_all-listed :
      (provider : Provider) (s : Setup) (plan : Plan) (p : Progress)
      → ((i : ℕ) → (s.world i).guard_at_intent ≡ true)
      → times t plan.ops ≤ 1
      → has plan.forget t ≡ false
      → sent s.world 0 (chunked (chunk_size provider) (ordered plan.ops)) p t ≡ true
      → listed (push_all provider s plan p).rows t ≡ true
  unfolding push_all
  push_all-listed provider s plan p g once f h =
      let whole =
        ap (times t) (chunks_whole provider (ordered plan.ops)) ∙ times-ordered plan.ops in
      listed-forget_rows s.forgetting plan.forget _ f (
        sent-listed s.world 0 (chunked (chunk_size provider) (ordered plan.ops)) p g (omega arith)
          h)
