-- ===== src/Sessions/Bound.antt =====
-- Refreshing never moves a session to another organisation.
use hushvault.Base.{
  ℕ, ◌+◌, ◌≡◌, refl, sym, ap, ◌∙◌, Bool, true, not, ◌&&◌, ◌||◌, Option, none, some, List, [], ◌∷◌,
  ◌++◌, find, All, All-append, All-filter, Text, same, same_iff, leb, or_else, arith, inl, inr,
  Bool-cases, has,
}
use hushvault.Sessions.{
  RefreshRow, SessionFamily, Fresh, refresh_absolute_seconds, reuse_grace_seconds, used_before,
  prune, is_consumed, mark_used, successor, rotated_rows, rotate_with,
}
use hushvault.Sessions.Validate.{
  Validated, RotateResult, valid, refused, unknown, expired, invalidated, race, reuse, Reason, User,
  delete_family, valid_after, is_invalidated, plausible, check_unused, check_row, check_found,
  row_of, rotate_refresh_token, revoke_refresh_family, families_of,
}

-- What validation says of a row.
abbrev pub made : RefreshRow → Validated
made row = record {
  user = row.user_id;
  token_id = row.id;
  session_family = record {
    family = row.family_id;
    started_at = row.family_started_at;
    org = row.org_id;
  };
}

valid_row : (v w : Validated) → ◌≡◌ {A = RotateResult} (valid v) (valid w) → v ≡ w
valid_row v w e = ap (λ r. of r v) e
  where
    of : RotateResult → Validated → Validated
    of (valid u) d = u
    of (refused x) d = d

-- `bound` is the organisation of each family, and `home` the family of each row.
module _ (bound : Text → Option Text) (home : Text → Text) where
  abbrev pub Tied : RefreshRow → Type 0
  Tied r = (r.org_id ≡ bound r.family_id) × (r.family_id ≡ home r.id)

  abbrev pub IsTied : List RefreshRow → Type 0
  IsTied = All Tied

  pub found-Tied :
      (p : RefreshRow → Bool) (rs : List RefreshRow) (r : RefreshRow)
      → find p rs ≡ some r
      → IsTied rs
      → Tied r × (p r ≡ true)
  found-Tied p [] r e h = cc
  found-Tied p (x ∷ xs) r e (t, h) = elim (Bool-cases (p x)) [
    | inr miss ↦ found-Tied p xs r (rw miss at e) h
    | inl hit ↦
        let same_row : x ≡ r = ap (λ o. or_else o x) (rw hit at e) in rw (← same_row) (t, hit)
  ]

  mark_used-IsTied :
      (c : Text) (now : ℕ) (rs : List RefreshRow) → IsTied rs → IsTied (mark_used c now rs)
  unfolding mark_used
  mark_used-IsTied c now [] h = tt
  mark_used-IsTied c now (r ∷ rs) ((a, b), h) = (ground arith, mark_used-IsTied c now rs h)

  successor-IsTied :
      (hash : Text → Text) (user : Text) (family : SessionFamily) (now : ℕ) (fresh : Fresh)
      (o : Option RefreshRow)
      → ((r : RefreshRow) → o ≡ some r → (r.org_id ≡ bound family.family))
      → family.family ≡ home fresh.new_id
      → IsTied (successor hash user family now fresh o)
  unfolding successor
  successor-IsTied hash user family now fresh none h k = tt
  successor-IsTied hash user family now fresh (some old) h k = ((h old refl, k), tt)

  -- A rotation keeps the rows tied, where the consumed id is at home in the rotated family.
  rotated_rows-IsTied :
      (hash : Text → Text) (user : Text) (family : SessionFamily) (consume : Text) (now : ℕ)
      (fresh : Fresh) (rows : List RefreshRow)
      → home consume ≡ family.family
      → home fresh.new_id ≡ family.family
      → IsTied rows
      → IsTied (rotated_rows hash user family consume now fresh rows)
  unfolding rotated_rows prune is_consumed
  rotated_rows-IsTied hash user family consume now fresh rows c k h =
      let o = find (is_consumed consume) rows in
      let consumed : (r : RefreshRow) → o ≡ some r → r.org_id ≡ bound family.family = λ r e.
        let ((org, own), hit) = found-Tied (is_consumed consume) rows r e h in
        let id : r.id ≡ consume = (same_iff r.id consume).0 (ground (arith, hit)) in
        org ∙ ap bound (own ∙ (ap home id ∙ c)) in
      let new = successor hash user family now fresh o in
      All-filter Tied
        (λ r. not (same r.user_id user && (leb r.expires_at now || used_before r.used_at now)))
        (mark_used consume now (rows ++ new))
        (mark_used-IsTied consume now (rows ++ new) (
          All-append Tied rows new h
            (successor-IsTied hash user family now fresh o consumed (sym k))))

  pub rotate_with-IsTied :
      (hash : Text → Text) (o : Option Text) (user : Text) (family : SessionFamily) (consume : Text)
      (now : ℕ) (fresh : Fresh) (rows : List RefreshRow)
      → home consume ≡ family.family
      → home fresh.new_id ≡ family.family
      → IsTied rows
      → IsTied (rotate_with hash o user family consume now fresh rows).0
  unfolding rotate_with
  rotate_with-IsTied hash none user family consume now fresh rows c k h = h
  rotate_with-IsTied hash (some org) user family consume now fresh rows c k h =
      rotated_rows-IsTied hash user family consume now fresh rows c k h

  module _ (hash : Text → Text) (token : Text) where
    -- What validation leaves: tied rows, and for a valid token what its row says.
    unfoldable pub Answered : List RefreshRow → List RefreshRow × RotateResult → Type 0
    Answered rows r =
        IsTied r.0
        × ((v : Validated)
            → r.1 ≡ valid v
            → (row : RefreshRow) × (row_of hash token rows ≡ some row) × (v ≡ made row))

    refused-Answered :
        (rows rows' : List RefreshRow) (reason : Reason)
        → IsTied rows'
        → Answered rows (rows', refused reason)
    unfolding Answered
    refused-Answered rows rows' reason h = (h, λ v e. cc)

    deleted-Answered :
        (rows : List RefreshRow) (f : Text) (reason : Reason)
        → IsTied rows
        → Answered rows (delete_family f rows, refused reason)
    unfolding delete_family
    deleted-Answered rows f reason h =
        refused-Answered rows _ reason (All-filter Tied (λ r. not (same r.family_id f)) rows h)

    valid-Answered :
        (rows : List RefreshRow) (row : RefreshRow)
        → row_of hash token rows ≡ some row
        → IsTied rows
        → Answered rows (rows, valid (made row))
    unfolding Answered
    valid-Answered rows row e h = (h, λ v q. (row, e, sym (valid_row (made row) v q)))

    check_unused-Answered :
        (users : List User) (now : ℕ) (row : RefreshRow) (rows : List RefreshRow)
        → row_of hash token rows ≡ some row
        → IsTied rows
        → Answered rows (check_unused users now row rows)
    unfolding check_unused
    check_unused-Answered users now row rows e h =
        elim (Bool-cases
          (leb row.expires_at now || leb (row.family_started_at + refresh_absolute_seconds) now)) [
            | inl old ↦ rw old (deleted-Answered rows row.family_id expired h)
            | inr young ↦
                elim (Bool-cases (is_invalidated row.created_at (valid_after users row.user_id))) [
                  | inl dead ↦ rw (young, dead) (deleted-Answered rows row.family_id invalidated h)
                  | inr alive ↦ rw (young, alive) (valid-Answered rows row e h)
                ]
          ]

    check_row-Answered :
        (used : Option ℕ) (users : List User) (now : ℕ) (row : RefreshRow) (rows : List RefreshRow)
        → row_of hash token rows ≡ some row
        → IsTied rows
        → Answered rows (check_row used users now row rows)
    unfolding check_row
    check_row-Answered none users now row rows e h = check_unused-Answered users now row rows e h
    check_row-Answered (some t) users now row rows e h =
        elim (Bool-cases (leb now (t + reuse_grace_seconds))) [
          | inl soon ↦ rw soon (refused-Answered rows rows race h)
          | inr late ↦ rw late (deleted-Answered rows row.family_id reuse h)
        ]

    check_found-Answered :
        (o : Option RefreshRow) (users : List User) (now : ℕ) (rows : List RefreshRow)
        → row_of hash token rows ≡ o
        → IsTied rows
        → Answered rows (check_found o users now rows)
    unfolding check_found
    check_found-Answered none users now rows e h = refused-Answered rows rows unknown h
    check_found-Answered (some row) users now rows e h =
        check_row-Answered row.used_at users now row rows e h

    pub rotate_refresh_token-Answered :
        (users : List User) (now : ℕ) (rows : List RefreshRow)
        → IsTied rows
        → Answered rows (rotate_refresh_token hash users token now rows)
    unfolding rotate_refresh_token
    rotate_refresh_token-Answered users now rows h = elim (Bool-cases (plausible token)) [
      | inl p ↦ rw p (check_found-Answered (row_of hash token rows) users now rows refl h)
      | inr p ↦ rw p (refused-Answered rows rows unknown h)
    ]

    pub revoke-IsTied :
        (user : Option Text) (rows : List RefreshRow)
        → IsTied rows
        → IsTied (revoke_refresh_family hash token user rows)
    unfolding revoke_refresh_family
    revoke-IsTied user rows h = elim (Bool-cases (plausible token)) [
      | inl p ↦
          rw p
            (All-filter Tied (λ r. not (has (families_of hash token user rows) r.family_id)) rows h)
      | inr p ↦ rw p h
    ]
