-- ===== src/AuthTokens.antt =====
-- Single-use tokens for verification and password reset: apps/api/src/lib/auth-tokens.ts. Random
-- tokens and their digest are arguments; a table is the list of its rows, and `first()` gives the
-- first row that the update touched.
pub mod Single
pub mod Tests
use hushvault.Base.{
  ℕ, ◌+◌, ◌≡◌, Bool, true, false, not, ◌&&◌, ◌||◌, Option, none, some, List, [], ◌∷◌, ◌++◌, Text,
  same, leb, ltb, if◌then◌else◌, length, filter, find,
}

pub data TokenPurpose : Type 0 where
  verify_email reset_password : TokenPurpose

abbrev pub token_ttl_ms : TokenPurpose → ℕ
token_ttl_ms verify_email = 86400000
token_ttl_ms reset_password = 3600000

abbrev pub is_purpose : TokenPurpose → TokenPurpose → Bool
is_purpose verify_email verify_email = true
is_purpose verify_email reset_password = false
is_purpose reset_password verify_email = false
is_purpose reset_password reset_password = true

pub record AuthToken : Type 0 where
  pub user_id : Text
  pub purpose : TokenPurpose
  pub token_hash : Text
  pub email : Text
  pub expires_at : ℕ
  pub used_at : Option ℕ

pub record User : Type 0 where
  pub id : Text
  pub email : Text

pub record IssuedToken : Type 0 where
  pub token : Text
  pub expires_at : ℕ

pub record ConsumedToken : Type 0 where
  pub user_id : Text
  pub email : Text

abbrev pub is_used : Option ℕ → Bool
is_used none = false
is_used (some time) = true

-- The rows of a user that a new token replaces or that are worth nothing any more.
unfoldable pub is_superseded :
    (now : ℕ) → (user_id : Text) → (purpose : TokenPurpose) → AuthToken → Bool
is_superseded now user_id purpose r =
    same r.user_id user_id
    && (is_purpose r.purpose purpose || (is_used r.used_at || leb r.expires_at now))

-- The address of a user is compared with the one of the row; no user, no match.
unfoldable pub is_current_email : List User → AuthToken → Bool
is_current_email users r = matches (find (λ u. same u.id r.user_id) users)
  where
    matches : Option User → Bool
    matches none = false
    matches (some u) = same r.email u.email

unfoldable pub is_redeemable :
    (now : ℕ) → List User → (hash : Text) → (purpose : TokenPurpose) → AuthToken → Bool
unfolding is_current_email
is_redeemable now users hash purpose r =
    same r.token_hash hash
    && (is_purpose r.purpose purpose
        && (not (is_used r.used_at) && (ltb now r.expires_at && is_current_email users r)))

-- The update: every row that may be redeemed is marked as used.
unfoldable pub redeem :
    (now : ℕ)
    → List User
    → (hash : Text) → (purpose : TokenPurpose) → List AuthToken
    → List AuthToken
unfolding is_redeemable
redeem now users hash purpose [] = []
redeem now users hash purpose (r ∷ rs) =
    let rest = redeem now users hash purpose rs in
    if is_redeemable now users hash purpose r
    then record r { used_at = some now } ∷ rest
    else r ∷ rest

abbrev pub to_consumed : Option AuthToken → Option ConsumedToken
to_consumed none = none
to_consumed (some r) = some (record { user_id = r.user_id; email = r.email })

unfoldable pub is_bad_length : (token : Text) → Bool
is_bad_length token = ltb (length token) 16 || ltb 256 (length token)

module _ (digest : Text → Text) where
  unfoldable pub issue_token :
      (now : ℕ)
      → (user_id : Text) → (purpose : TokenPurpose) → (email token : Text) → List AuthToken
      → List AuthToken × IssuedToken
  unfolding is_superseded
  issue_token now user_id purpose email token rows = (
    filter (λ r. not (is_superseded now user_id purpose r)) rows
        ++ record {
          user_id = user_id;
          purpose = purpose;
          token_hash = digest token;
          email = email;
          expires_at = now + token_ttl_ms purpose;
          used_at = none;
        }
          ∷ [],
    record { token = token; expires_at = now + token_ttl_ms purpose },
  )

  unfoldable pub consume_token :
      (now : ℕ)
      → List User
      → (token : Text) → (purpose : TokenPurpose) → List AuthToken
      → List AuthToken × Option ConsumedToken
  unfolding is_bad_length redeem is_redeemable
  consume_token now users token purpose rows = if is_bad_length token then (rows, none) else (
    redeem now users (digest token) purpose rows,
    to_consumed (find (is_redeemable now users (digest token) purpose) rows),
  )

unfoldable pub purge_expired_tokens : (now : ℕ) → List AuthToken → List AuthToken
purge_expired_tokens now rows = filter (λ r. not (leb r.expires_at now || is_used r.used_at)) rows
