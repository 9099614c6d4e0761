-- ===== src/Sessions/Validate.antt =====
-- `rotateRefreshToken`, `revokeRefreshFamily`, and the route POST /auth/refresh that joins them
-- (apps/api/src/routes/auth.ts).
use hushvault.Base.{
  ℕ, ◌+◌, Bool, true, false, not, ◌&&◌, ◌||◌, Option, none, some, List, [], ◌∷◌, map, filter, find,
  length, Text, same, has, leb, ltb, if◌then◌else◌,
}
use hushvault.Sessions.{
  RefreshRow, SessionFamily, IssuedSession, Fresh, refresh_absolute_seconds, reuse_grace_seconds,
  usable_org, rotate_session,
}

pub data Reason : Type 0 where
  unknown expired invalidated race reuse : Reason

pub record Validated : Type 0 where
  pub user : Text
  pub token_id : Text
  pub session_family : SessionFamily

pub data RotateResult : Type 0 where
  valid : Validated → RotateResult
  refused : Reason → RotateResult

-- `users.sessions_valid_after`, by user.
pub record User : Type 0 where
  pub user_id : Text
  pub sessions_valid_after : ℕ

unfoldable pub delete_family : Text → List RefreshRow → List RefreshRow
delete_family f = filter λ r. not (same r.family_id f)

unfoldable pub valid_after : List User → Text → Option ℕ
valid_after [] id = none
valid_after (u ∷ us) id =
    if same u.user_id id then some u.sessions_valid_after else valid_after us id

unfoldable pub is_invalidated : (created_at : ℕ) → Option ℕ → Bool
is_invalidated created_at none = true
is_invalidated created_at (some cutoff) = ltb created_at cutoff

unfoldable pub plausible : Text → Bool
plausible token = leb 16 (length token) && leb (length token) 256

-- A row that was never used.
unfoldable pub check_unused :
    List User → (now : ℕ) → RefreshRow → List RefreshRow → List RefreshRow × RotateResult
unfolding delete_family valid_after is_invalidated
check_unused users now row rows =
    if leb row.expires_at now || leb (row.family_started_at + refresh_absolute_seconds) now
    then (delete_family row.family_id rows, refused expired)
    else (if is_invalidated row.created_at (valid_after users row.user_id)
        then (delete_family row.family_id rows, refused invalidated)
        else (
          rows,
          valid (record {
            user = row.user_id;
            token_id = row.id;
            session_family = record {
              family = row.family_id;
              started_at = row.family_started_at;
              org = row.org_id;
            };
          }),
        ))

unfoldable pub check_row :
    Option ℕ → List User → (now : ℕ) → RefreshRow → List RefreshRow → List RefreshRow × RotateResult
unfolding check_unused delete_family
check_row (some t) users now row rows =
    if leb now (t + reuse_grace_seconds)
    then (rows, refused race)
    else (delete_family row.family_id rows, refused reuse)
check_row none users now row rows = check_unused users now row rows

unfoldable pub check_found :
    Option RefreshRow → List User → (now : ℕ) → List RefreshRow → List RefreshRow × RotateResult
unfolding check_row
check_found none users now rows = (rows, refused unknown)
check_found (some row) users now rows = check_row row.used_at users now row rows

unfoldable pub owned_by : Option Text → RefreshRow → Bool
owned_by none r = true
owned_by (some user) r = same r.user_id user

-- What the route answers.
pub data RefreshAnswer : Type 0 where
  refreshed : IssuedSession → RefreshAnswer
  invalid : Reason → RefreshAnswer
  retry org_unresolved membership_revoked rotation_conflict : RefreshAnswer

unfoldable pub refuse : Reason → RefreshAnswer
refuse race = retry
refuse reason = invalid reason

unfoldable pub conflict_or : Option IssuedSession → RefreshAnswer
conflict_or none = rotation_conflict
conflict_or (some session) = refreshed session

module _ (hash : Text → Text) where
  unfoldable pub row_of : (token : Text) → List RefreshRow → Option RefreshRow
  row_of token = find λ r. same r.token_hash (hash token)

  unfoldable pub rotate_refresh_token :
      List User → (token : Text) → (now : ℕ) → List RefreshRow → List RefreshRow × RotateResult
  unfolding check_found row_of plausible
  rotate_refresh_token users token now rows =
      if plausible token
      then check_found (row_of token rows) users now rows
      else (rows, refused unknown)

  -- The families that have a row of this token (and of this user, if one is given).
  unfoldable pub families_of : (token : Text) → Option Text → List RefreshRow → List Text
  unfolding owned_by
  families_of token user rows =
      map (λ r. r.family_id) (filter (λ r. same r.token_hash (hash token) && owned_by user r) rows)

  unfoldable pub revoke_refresh_family :
      (token : Text) → (user : Option Text) → List RefreshRow → List RefreshRow
  unfolding plausible families_of
  revoke_refresh_family token user rows =
      if plausible token
      then filter (λ r. not (has (families_of token user rows) r.family_id)) rows
      else rows

  unfoldable pub refresh_member :
      (is_member : Bool)
      → Validated
      → (token : Text) → (now : ℕ) → Fresh
      → List RefreshRow
      → List RefreshRow × RefreshAnswer
  unfolding conflict_or
  refresh_member false v token now fresh rows =
      (revoke_refresh_family token none rows, membership_revoked)
  refresh_member true v token now fresh rows =
      let (rows', session) =
        rotate_session hash v.user v.session_family v.token_id now fresh rows in
      (rows', conflict_or session)

  unfoldable pub refresh_org :
      Option Text
      → (members : Text → Text → Bool) → Validated
      → (token : Text) → (now : ℕ) → Fresh
      → List RefreshRow
      → List RefreshRow × RefreshAnswer
  unfolding refresh_member
  refresh_org none members v token now fresh rows =
      (revoke_refresh_family token none rows, org_unresolved)
  refresh_org (some org) members v token now fresh rows =
      refresh_member (members v.user org) v token now fresh rows

  unfoldable pub refresh_valid :
      RotateResult
      → (members : Text → Text → Bool) → (token : Text) → (now : ℕ) → Fresh
      → List RefreshRow
      → List RefreshRow × RefreshAnswer
  unfolding refuse refresh_org
  refresh_valid (refused reason) members token now fresh rows = (rows, refuse reason)
  refresh_valid (valid v) members token now fresh rows =
      refresh_org (usable_org v.session_family.org) members v token now fresh rows

  -- POST /auth/refresh. `others` is what other requests write after the token was validated.
  unfoldable pub refresh :
      List User
      → (members : Text → Text → Bool) → (others : List RefreshRow → List RefreshRow)
      → (token : Text) → (now : ℕ) → Fresh
      → List RefreshRow
      → List RefreshRow × RefreshAnswer
  unfolding refresh_valid
  refresh users members others token now fresh rows =
      let (rows', result) = rotate_refresh_token users token now rows in
      refresh_valid result members token now fresh (others rows')
