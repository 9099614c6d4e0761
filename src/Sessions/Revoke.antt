-- ===== src/Sessions/Revoke.antt =====
-- What a valid token satisfies, and that a revoked one is unknown.
use hushvault.Base.{
  ℕ, ◌+◌, ◌≤◌, ◌<◌, ◌≡◌, refl, ap, Bool, true, false, not, ◌&&◌, ◌||◌, any, Option, none, some,
  List, [], ◌∷◌, filter, find, Text, same, same_refl, has, leb, arith, inl, inr, Bool-cases,
}
use hushvault.Sessions.{RefreshRow, refresh_absolute_seconds, reuse_grace_seconds}
use hushvault.Sessions.Validate.{
  Validated, RotateResult, valid, refused, unknown, User, valid_after, is_invalidated, plausible,
  check_unused, check_row, check_found, row_of, rotate_refresh_token, revoke_refresh_family,
  families_of, owned_by,
}

-- A row whose token may be rotated now.
pub record IsLive (users : List User) (now : ℕ) (row : RefreshRow) : Type 0 where
  pub unused : row.used_at ≡ none
  pub not_idle : now < row.expires_at
  pub young_family : now < row.family_started_at + refresh_absolute_seconds
  pub cutoff : ℕ
  pub user_cutoff : valid_after users row.user_id ≡ some cutoff
  pub after_cutoff : cutoff ≤ row.created_at

-- What a result says of the row that was found.
abbrev Says : List User → ℕ → RefreshRow → RotateResult → Type 0
Says users now row (valid v) = IsLive users now row × (v.token_id ≡ row.id) × (v.user ≡ row.user_id)
Says users now row (refused reason) = Unit {0}

not_invalidated :
    (created : ℕ) (o : Option ℕ)
    → is_invalidated created o ≡ false
    → (c : ℕ) × (o ≡ some c) × (c ≤ created)
unfolding is_invalidated
not_invalidated created none e = cc
not_invalidated created (some c) e = (c, refl, ground arith)

check_row-Says :
    (used : Option ℕ) (users : List User) (now : ℕ) (row : RefreshRow) (rows : List RefreshRow)
    → row.used_at ≡ used
    → Says users now row (check_row used users now row rows).1
unfolding check_row check_unused
check_row-Says (some t) users now row rows e =
    elim (Bool-cases (leb now (t + reuse_grace_seconds))) [
      | inl soon ↦ rw soon tt
      | inr late ↦ rw late tt
    ]
check_row-Says none users now row rows e =
    elim (Bool-cases
      (leb row.expires_at now || leb (row.family_started_at + refresh_absolute_seconds) now)) [
        | inl old ↦ rw old tt
        | inr young ↦
            elim (Bool-cases (is_invalidated row.created_at (valid_after users row.user_id))) [
              | inl dead ↦ rw (young, dead) tt
              | inr alive ↦
                  let (c, k, le) =
                    not_invalidated row.created_at (valid_after users row.user_id) alive in
                  let idle : now < row.expires_at = ground (arith, young) in
                  let family : now < row.family_started_at + refresh_absolute_seconds =
                    ground (arith, young) in
                  rw (young, alive)
                    (
                      record {
                        unused = e;
                        not_idle = idle;
                        young_family = family;
                        cutoff = c;
                        user_cutoff = k;
                        after_cutoff = le;
                      },
                      refl,
                      refl,
                    )
            ]
      ]

module _ (hash : Text → Text) where
  -- What a valid result says of the table.
  abbrev pub SaysOf : List User → ℕ → Text → List RefreshRow → RotateResult → Type 0
  SaysOf users now token rows (valid v) =
      (row : RefreshRow) × (row_of hash token rows ≡ some row)
      × IsLive users now row
      × (v.token_id ≡ row.id)
      × (v.user ≡ row.user_id)
  SaysOf users now token rows (refused reason) = Unit {0}

  said :
      (users : List User) (now : ℕ) (token : Text) (rows : List RefreshRow) (row : RefreshRow)
      (r : RotateResult)
      → row_of hash token rows ≡ some row
      → Says users now row r
      → SaysOf users now token rows r
  said users now token rows row (valid v) e (l, i, u) = (row, e, l, i, u)
  said users now token rows row (refused x) e s = tt

  check_found-Says :
      (o : Option RefreshRow) (users : List User) (now : ℕ) (token : Text) (rows : List RefreshRow)
      → row_of hash token rows ≡ o
      → SaysOf users now token rows (check_found o users now rows).1
  unfolding check_found
  check_found-Says none users now token rows e = tt
  check_found-Says (some row) users now token rows e =
      said users now token rows row (check_row row.used_at users now row rows).1 e
        (check_row-Says row.used_at users now row rows refl)

  -- A token that validates has a row that was never used, is neither idle for 30 days nor of a family
  -- that is 90 days old, and was made no earlier than its user's sessions became valid.
  pub rotate_refresh_token-IsLive :
      (users : List User) (token : Text) (now : ℕ) (rows : List RefreshRow) (v : Validated)
      → (rotate_refresh_token hash users token now rows).1 ≡ valid v
      → (row : RefreshRow) × (row_of hash token rows ≡ some row)
        × IsLive users now row
        × (v.token_id ≡ row.id)
        × (v.user ≡ row.user_id)
  unfolding rotate_refresh_token
  rotate_refresh_token-IsLive users token now rows v e = elim (Bool-cases (plausible token)) [
    | inl p ↦
        let said = check_found-Says (row_of hash token rows) users now token rows refl in
        let e' = rw p at e in rw e' at said
    | inr p ↦ let q = rw p at e in cc
  ]

  -- The families of a token are those of its rows.
  families_hold :
      (token : Text) (rows : List RefreshRow) (fams : List Text)
      → ((f : Text) → has (families_of hash token none rows) f ≡ true → has fams f ≡ true)
      → find (λ r. same r.token_hash (hash token)) (filter (λ r. not (has fams r.family_id)) rows)
        ≡ none
  unfolding families_of owned_by has
  families_hold token [] fams h = refl
  families_hold token (r ∷ rs) fams h = elim (Bool-cases (same r.token_hash (hash token))) [
    | inl hit ↦
        let ih = families_hold token rs fams (λ f k. h f (ground (arith, hit, k))) in
        let gone : has fams r.family_id ≡ true =
          h r.family_id (ground (arith, hit, same_refl r.family_id)) in
        rw gone ih
    | inr miss ↦
        let ih = families_hold token rs fams (λ f k. h f (ground (arith, miss, k))) in
        ground (arith, miss, ih)
  ]

  -- Whether a row is of a family that has a row of a token.
  abbrev pub shares_family : (token : Text) → List RefreshRow → RefreshRow → Bool
  shares_family token rows r =
      any (λ s. same s.token_hash (hash token) && same s.family_id r.family_id) rows

  has-families_of :
      (token : Text) (rows : List RefreshRow) (r : RefreshRow)
      → has (families_of hash token none rows) r.family_id ≡ shares_family token rows r
  unfolding families_of owned_by has
  has-families_of token [] r = refl
  has-families_of token (s ∷ ss) r =
      let ih = has-families_of token ss r in
      elim (Bool-cases (same s.token_hash (hash token))) [
        | inl hit ↦ rw hit (ap (λ b. same s.family_id r.family_id || b) ih)
        | inr miss ↦ rw miss ih
      ]

  any-filter-not :
      (p q : RefreshRow → Bool) (rs : List RefreshRow)
      → ((r : RefreshRow) → p r ≡ q r)
      → any q (filter (λ r. not (p r)) rs) ≡ false
  any-filter-not p q [] h = refl
  any-filter-not p q (r ∷ rs) h = ground (arith, any-filter-not p q rs h, h r)

  filter-filter-not :
      (p q : RefreshRow → Bool) (rs : List RefreshRow)
      → ((r : RefreshRow) → p r ≡ q r)
      → filter (λ r. not (q r)) (filter (λ r. not (p r)) rs) ≡ filter (λ r. not (q r)) rs
  filter-filter-not p q [] h = refl
  filter-filter-not p q (r ∷ rs) h = ground (arith, filter-filter-not p q rs h, h r)

  -- Revoking a token of a usual length leaves no row of a family that has a row of the token, and
  -- every other row in its place; the token itself is refused as unknown from then on.
  pub revoke_refresh_family_lem :
      (users : List User) (token : Text) (now : ℕ) (rows : List RefreshRow)
      → plausible token ≡ true
      → (any (shares_family token rows) (revoke_refresh_family hash token none rows) ≡ false)
        × (filter
              (λ r. not (shares_family token rows r))
              (revoke_refresh_family hash token none rows)
            ≡ filter (λ r. not (shares_family token rows r)) rows)
        × (rotate_refresh_token hash users token now (revoke_refresh_family hash token none rows)
            ≡ (revoke_refresh_family hash token none rows, refused unknown))
  unfolding revoke_refresh_family rotate_refresh_token row_of check_found
  revoke_refresh_family_lem users token now rows p =
      let dropped : RefreshRow → Bool = λ r. has (families_of hash token none rows) r.family_id in
      rw p (
        any-filter-not dropped (shares_family token rows) rows (has-families_of token rows),
        filter-filter-not dropped (shares_family token rows) rows (has-families_of token rows),
        rw (families_hold token rows (families_of hash token none rows) (λ f k. k)) refl,
      )
