-- ===== src/Sessions.antt =====
-- Refresh tokens: apps/api/src/lib/sessions.ts. Times are seconds; the table is the list of its
-- rows. A token is its text, `hash` stands for SHA-256, and the random ids and tokens are arguments.
pub mod Validate
pub mod Usable
pub mod Bound
pub mod Refresh
pub mod Rotate
pub mod Revoke
pub mod Tests
use hushvault.Base.{
  ℕ, ◌+◌, ◌*◌, Bool, true, false, not, ◌&&◌, ◌||◌, Option, none, some, List, [], ◌∷◌, ◌++◌, map,
  filter, find, any, length, Text, same, leb, ltb, ◌==◌, if◌then◌else◌, or_else,
}

abbrev pub access_ttl_seconds : ℕ
access_ttl_seconds = 15 * 60

abbrev pub refresh_idle_seconds : ℕ
refresh_idle_seconds = 30 * 24 * 60 * 60

abbrev pub refresh_absolute_seconds : ℕ
refresh_absolute_seconds = 90 * 24 * 60 * 60

abbrev pub reuse_grace_seconds : ℕ
reuse_grace_seconds = 10

pub record RefreshRow : Type 0 where
  pub id : Text
  pub user_id : Text
  pub family_id : Text
  pub token_hash : Text
  pub created_at : ℕ
  pub expires_at : ℕ
  pub family_started_at : ℕ
  pub used_at : Option ℕ
  pub org_id : Option Text

pub record SessionFamily : Type 0 where
  pub family : Text
  pub started_at : ℕ
  pub org : Option Text

-- What an access token says, and the refresh token that goes with it.
pub record IssuedSession : Type 0 where
  pub access_user : Text
  pub access_org : Text
  pub refresh_token : Text
  pub expires_in : ℕ

abbrev pub has_no_use : Option ℕ → Bool
has_no_use none = true
has_no_use (some t) = false

unfoldable pub used_before : Option ℕ → ℕ → Bool
used_before none wall = false
used_before (some t) wall = ltb (t + reuse_grace_seconds) wall

-- `pruneStatement`: this user's spent and expired rows go.
unfoldable pub prune : (user_id : Text) → (wall : ℕ) → List RefreshRow → List RefreshRow
unfolding used_before
prune user_id wall =
    filter
      λ r. not (same r.user_id user_id && (leb r.expires_at wall || used_before r.used_at wall))

-- `issueSession`: a new family. `fresh` has the random ids and the new token.
pub record Fresh : Type 0 where
  pub new_id : Text
  pub new_family : Text
  pub new_token : Text

-- An empty organisation counts as none, as `!orgId` does.
unfoldable pub usable_org : Option Text → Option Text
usable_org none = none
usable_org (some []) = none
usable_org (some (c ∷ s)) = some (c ∷ s)

unfoldable pub is_consumed : (token_id : Text) → RefreshRow → Bool
is_consumed token_id r = same r.id token_id && has_no_use r.used_at

-- `UPDATE refresh_tokens SET used_at = ? WHERE id = ? AND used_at IS NULL`.
unfoldable pub mark_used : (token_id : Text) → (now : ℕ) → List RefreshRow → List RefreshRow
mark_used token_id now =
    map λ r. if is_consumed token_id r then record r { used_at = some now } else r

unfoldable pub holds_hash : Text → List RefreshRow → Bool
holds_hash h rows = any (λ r. same r.token_hash h) rows

module _ (hash : Text → Text) where
  unfoldable pub issue_session :
      (user_id org_id : Text)
      → (issued_at : Option ℕ) → (wall : ℕ) → Fresh
      → List RefreshRow
      → List RefreshRow × IssuedSession
  issue_session user_id org_id issued_at wall fresh rows =
      let now = or_else issued_at wall in
      (
        prune user_id wall rows
            ++ record {
              id = fresh.new_id;
              user_id = user_id;
              family_id = fresh.new_family;
              token_hash = hash fresh.new_token;
              created_at = now;
              expires_at = now + refresh_idle_seconds;
              family_started_at = now;
              used_at = none;
              org_id = some org_id;
            }
              ∷ [],
        record {
          access_user = user_id;
          access_org = org_id;
          refresh_token = fresh.new_token;
          expires_in = access_ttl_seconds;
        },
      )

  -- `INSERT … SELECT … org_id FROM refresh_tokens WHERE id = ? AND used_at IS NULL`.
  unfoldable pub successor :
      (user_id : Text) → SessionFamily → (now : ℕ) → Fresh → Option RefreshRow → List RefreshRow
  successor user_id family now fresh none = []
  successor user_id family now fresh (some old) =
      record {
        id = fresh.new_id;
        user_id = user_id;
        family_id = family.family;
        token_hash = hash fresh.new_token;
        created_at = now;
        expires_at = now + refresh_idle_seconds;
        family_started_at = family.started_at;
        used_at = none;
        org_id = old.org_id;
      }
      ∷ []

  -- The batch of `rotateSession`.
  unfoldable pub rotated_rows :
      (user_id : Text)
      → SessionFamily
      → (consume : Text) → (now : ℕ) → Fresh
      → List RefreshRow
      → List RefreshRow
  unfolding successor mark_used
  rotated_rows user_id family consume now fresh rows = prune user_id now (
      mark_used consume now
        (rows ++ successor user_id family now fresh (find (is_consumed consume) rows)))

  unfoldable pub rotate_with :
      Option Text
      → (user_id : Text) → SessionFamily
      → (consume : Text) → (now : ℕ) → Fresh
      → List RefreshRow
      → List RefreshRow × Option IssuedSession
  unfolding rotated_rows holds_hash
  rotate_with none user_id family consume now fresh rows = (rows, none)
  rotate_with (some org) user_id family consume now fresh rows =
      let rows' = rotated_rows user_id family consume now fresh rows in
      (
        rows',
        if holds_hash (hash fresh.new_token) rows'
            then some (record {
              access_user = user_id;
              access_org = org;
              refresh_token = fresh.new_token;
              expires_in = access_ttl_seconds;
            })
            else none,
      )

  -- `rotateSession`.
  unfoldable pub rotate_session :
      (user_id : Text)
      → SessionFamily
      → (consume : Text) → (now : ℕ) → Fresh
      → List RefreshRow
      → List RefreshRow × Option IssuedSession
  unfolding rotate_with usable_org
  rotate_session user_id family = rotate_with (usable_org family.org) user_id family
