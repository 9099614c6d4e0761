-- ===== src/Rotation/Preserve.antt =====
-- What a tick does to the wrapped data keys: whatever opened under the ring still opens, to the
-- same data key, whichever writes other clients make in between.
use hushvault.Base.{
  ℕ, ◌≡◌, refl, sym, ap, ◌∙◌, Bool, true, false, Option, none, some, List, [], ◌∷◌, map, inl, inr,
  ◌⊎◌, arith, Text, same, same_iff, ◌&&◌, ◌==◌, if◌then◌else◌, Bool-cases, Option-cases,
}
use hushvault.Rotation.State.{
  Code, key_version_unavailable, unwrap_failed, Outcome, Outcome-cases, ok, err, KeyRing, Row,
  Table, secrets, connections, Job, Db, rows_of, with_rows, update_running, insert_failure,
}
use hushvault.Rotation.Batch.{
  Plan, write, quarantine, plan_row, swap_row, Tally, run_writes, run_failures, run_chunk,
}

module _ (ring : KeyRing) where
  open ring use {Key, get_key, unwrap, rewrap, has_version}

  unfoldable pub open_with : Outcome Key → (wrapped record_id : Text) → Option Text
  open_with (err c) wrapped record_id = none
  open_with (ok key) wrapped record_id = unwrap wrapped key record_id

  -- The data key of a row, as `decryptSecretWithRing` obtains it.
  unfoldable pub opened : Row → Option Text
  unfolding open_with
  opened r = open_with (get_key r.key_version) r.wrapped_dek r.id

  -- The same rows with the same ciphertexts, and each that opened opens to the same data key.
  abbrev pub Kept : List Row → List Row → Type 0
  Kept [] [] = Unit {0}
  Kept [] (s ∷ ss) = ⊥
  Kept (r ∷ rs) [] = ⊥
  Kept (r ∷ rs) (s ∷ ss) =
      (r.id ≡ s.id)
      × (r.sealed ≡ s.sealed)
      × ((dek : Text) → opened r ≡ some dek → opened s ≡ some dek)
      × Kept rs ss

  pub record KeptDb (db db' : Db) : Type 0 where
    pub secrets_kept : Kept db.secret_rows db'.secret_rows
    pub connections_kept : Kept db.connection_rows db'.connection_rows

  pub Kept-refl : (rs : List Row) → Kept rs rs
  Kept-refl [] = tt
  Kept-refl (r ∷ rs) = (refl, refl, λ dek e. e, Kept-refl rs)

  pub Kept-trans : (rs ss ts : List Row) → Kept rs ss → Kept ss ts → Kept rs ts
  Kept-trans [] [] [] h k = tt
  Kept-trans [] [] (t ∷ ts) h k = k
  Kept-trans [] (s ∷ ss) ts h k = elim h [ ]
  Kept-trans (r ∷ rs) [] ts h k = elim h [ ]
  Kept-trans (r ∷ rs) (s ∷ ss) [] h k = k
  Kept-trans (r ∷ rs) (s ∷ ss) (t ∷ ts) (i, c, f, h) (j, d, g, k) =
      (i ∙ j, c ∙ d, λ dek e. g dek (f dek e), Kept-trans rs ss ts h k)

  pub KeptDb-refl : (db : Db) → KeptDb db db
  KeptDb-refl db = record {
    secrets_kept = Kept-refl db.secret_rows;
    connections_kept = Kept-refl db.connection_rows;
  }

  pub KeptDb-trans : (a b c : Db) → KeptDb a b → KeptDb b c → KeptDb a c
  KeptDb-trans a b c h k = record {
    secrets_kept =
        Kept-trans a.secret_rows b.secret_rows c.secret_rows h.secrets_kept k.secrets_kept;
    connections_kept =
        Kept-trans a.connection_rows b.connection_rows c.connection_rows h.connections_kept
          k.connections_kept;
  }

  pub KeptDb-if : (b : Bool) (a x y : Db) → KeptDb a x → KeptDb a y → KeptDb a (if b then x else y)
  KeptDb-if true a x y h k = h
  KeptDb-if false a x y h k = k

  module _ (job : Job) (to_key : Key) (has_to : get_key job.to_version ≡ ok to_key) where
    plan_cases :
        (row : Row)
        → ((c : Code) × (plan_row ring to_key row ≡ quarantine row c))
          ⊎ ((next : Text) × (from : Key) × (plan_row ring to_key row ≡ write row next)
              × (get_key row.key_version ≡ ok from)
              × (rewrap row.wrapped_dek from to_key row.id ≡ some next))
    unfolding plan_row
    plan_cases row = elim (Bool-cases (has_version row.key_version)) [
      | inr missing ↦ inl (key_version_unavailable, rw missing)
      | inl present ↦ elim (Outcome-cases (get_key row.key_version)) [
        | inl (c, e) ↦ inl (unwrap_failed, rw (present, e))
        | inr (from, e) ↦ elim (Option-cases (rewrap row.wrapped_dek from to_key row.id)) [
          | inl none' ↦ inl (unwrap_failed, rw (present, e, none'))
          | inr (next, w) ↦ inr (next, from, rw (present, e, w), e, w)
        ]
      ]
    ]

    -- A row that the statement matches has the id, the wrapped key and the version that were read.
    matched :
        (read r : Row)
        → (same r.id read.id
            && (same r.wrapped_dek read.wrapped_dek && r.key_version == read.key_version))
          ≡ true
        → (r.id ≡ read.id) × (r.wrapped_dek ≡ read.wrapped_dek) × (r.key_version ≡ read.key_version)
    matched read r e = (
      ground (arith, same_iff r.id read.id),
      ground (arith, same_iff r.wrapped_dek read.wrapped_dek),
      ground arith,
    )

    -- What was read opens to the same data key with what is written in its place.
    swapped_opens :
        (read : Row) (next dek : Text) (from : Key)
        → get_key read.key_version ≡ ok from
        → rewrap read.wrapped_dek from to_key read.id ≡ some next
        → opened read ≡ some dek
        → open_with (get_key job.to_version) next read.id ≡ some dek
    unfolding opened
    swapped_opens read next dek from k w e =
        rw has_to (ring.rewrap_opens read.wrapped_dek next read.id from to_key w ∙ (rw k at e))

    matched_opened :
        (read r : Row)
        → r.id ≡ read.id
        → r.wrapped_dek ≡ read.wrapped_dek
        → r.key_version ≡ read.key_version
        → opened read ≡ opened r
    unfolding opened
    matched_opened read r i d v =
        ap (λ n. open_with (get_key n) read.wrapped_dek read.id) (sym v)
        ∙ (ap (λ x. open_with (get_key r.key_version) x read.id) (sym d)
            ∙ ap (λ x. open_with (get_key r.key_version) r.wrapped_dek x) (sym i))

    swap_row-id : (read r : Row) (next : Text) → r.id ≡ (swap_row job.to_version read next r).id
    unfolding swap_row
    swap_row-id read r next = ground arith

    swap_row-sealed :
        (read r : Row) (next : Text) → r.sealed ≡ (swap_row job.to_version read next r).sealed
    unfolding swap_row
    swap_row-sealed read r next = ground arith

    swap_row-opened :
        (read r : Row) (next dek : Text) (from : Key)
        → get_key read.key_version ≡ ok from
        → rewrap read.wrapped_dek from to_key read.id ≡ some next
        → opened r ≡ some dek
        → opened (swap_row job.to_version read next r) ≡ some dek
    unfolding swap_row opened
    swap_row-opened read r next dek from k w e =
        elim (Bool-cases (
          same r.id read.id
          && (same r.wrapped_dek read.wrapped_dek && r.key_version == read.key_version))) [
            | inr miss ↦ rw miss e
            | inl hit ↦
                let (i, d, v) = matched read r hit in
                let was = matched_opened read r i d v ∙ e in
                rw hit (
                  ap (λ x. open_with (get_key job.to_version) next x) i
                  ∙ swapped_opens read next dek from k w was)
          ]

    swap_rows-Kept :
        (read : Row) (next : Text) (from : Key)
        → get_key read.key_version ≡ ok from
        → rewrap read.wrapped_dek from to_key read.id ≡ some next
        → (rs : List Row) → Kept rs (map (swap_row job.to_version read next) rs)
    swap_rows-Kept read next from k w [] = tt
    swap_rows-Kept read next from k w (r ∷ rs) = (
      swap_row-id read r next,
      swap_row-sealed read r next,
      λ dek e. swap_row-opened read r next dek from k w e,
      swap_rows-Kept read next from k w rs,
    )

    with_rows-KeptDb :
        (t : Table) (db : Db) (rs : List Row)
        → Kept (rows_of t db) rs
        → KeptDb db (with_rows t rs db)
    with_rows-KeptDb secrets db rs h = record {
      secrets_kept = h;
      connections_kept = Kept-refl db.connection_rows;
    }
    with_rows-KeptDb connections db rs h = record {
      secrets_kept = Kept-refl db.secret_rows;
      connections_kept = h;
    }

    run_writes-KeptDb :
        (t : Table) (rows : List Row) (db : Db) (tally : Tally)
        → KeptDb db (run_writes job t (map (plan_row ring to_key) rows) db tally).0
    unfolding run_writes
    run_writes-KeptDb t [] db tally = KeptDb-refl db
    run_writes-KeptDb t (row ∷ rows) db tally = elim (plan_cases row) [
      | inl (c, p) ↦ rw p (run_writes-KeptDb t rows db tally)
      | inr (next, from, p, k, w) ↦ rw p (
          KeptDb-trans db (with_rows t (map (swap_row job.to_version row next) (rows_of t db)) db) _
            (with_rows-KeptDb t db _ (swap_rows-Kept row next from k w (rows_of t db)))
            (run_writes-KeptDb t rows
              (with_rows t (map (swap_row job.to_version row next) (rows_of t db)) db) _))
    ]

  run_failures-KeptDb :
      (job : Job) (t : Table) (plans : List Plan) (db : Db)
      → KeptDb db (run_failures job t plans db)
  unfolding run_failures
  run_failures-KeptDb job t [] db = KeptDb-refl db
  run_failures-KeptDb job t (write row next ∷ plans) db = run_failures-KeptDb job t plans db
  run_failures-KeptDb job t (quarantine row code ∷ plans) db =
      let next : Db = record db {
        failures =
            insert_failure
              (record { rotation_id = job.id; table_name = t; row_id = row.id; error_code = code })
              db.failures;
      } in
      KeptDb-trans db next (run_failures job t plans next)
        (record {
          secrets_kept = Kept-refl db.secret_rows;
          connections_kept = Kept-refl db.connection_rows;
        })
        (run_failures-KeptDb job t plans next)

  -- A statement on the rotations leaves the rows alone.
  pub update_running-KeptDb :
      (id : Text) (f : Job → Job) (a db : Db) → KeptDb a db → KeptDb a (update_running id f db)
  unfolding update_running
  update_running-KeptDb id f a db h = record {
    secrets_kept = h.secrets_kept;
    connections_kept = h.connections_kept;
  }

  pub run_chunk-KeptDb :
      (job : Job) (to_key : Key) (t : Table) (now : ℕ) (chunk : List Row) (db : Db) (tally : Tally)
      → get_key job.to_version ≡ ok to_key
      → KeptDb db (run_chunk ring to_key job t now chunk db tally).0
  unfolding run_chunk
  run_chunk-KeptDb job to_key t now chunk db tally has_to =
      let plans = map (plan_row ring to_key) chunk in
      let written : Db = (run_writes job t plans db tally).0 in
      let settled : KeptDb db (run_failures job t plans written) =
        KeptDb-trans db written (run_failures job t plans written)
          (run_writes-KeptDb job to_key has_to t chunk db tally)
          (run_failures-KeptDb job t plans written) in
      let moved = update_running-KeptDb job.id _ db (run_failures job t plans written) settled in
      KeptDb-if _ db _ _ (update_running-KeptDb job.id _ db _ moved) moved
