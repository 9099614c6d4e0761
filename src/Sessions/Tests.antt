-- ===== src/Sessions/Tests.antt =====
-- One family of tokens, refreshed and revoked, under a toy hash.
use hushvault.Base.{
  ◌≤◌, ◌≡◌, ◌≢◌, refl, ap, true, false, not, none, some, List, [], ◌∷◌, any, filter, Text, codes,
  same, or_else,
}
use hushvault.Sessions.{
  RefreshRow, SessionFamily, Fresh, used_before, prune, is_consumed, mark_used, successor,
  holds_hash, rotated_rows, rotate_with, rotate_session, usable_org,
}
use hushvault.Sessions.Validate.{
  valid, refused, unknown, User, valid_after, is_invalidated, plausible, check_unused, check_row,
  check_found, row_of, rotate_refresh_token, revoke_refresh_family, refresh,
}
use hushvault.Sessions.Usable.{is_usable, live, live-rotated_rows-le}
use hushvault.Sessions.Rotate.{rotate_session-once}
use hushvault.Sessions.Refresh.{StaysBound, refresh-StaysBound}
use hushvault.Sessions.Revoke.{
  IsLive, rotate_refresh_token-IsLive, shares_family, revoke_refresh_family_lem,
}

abbrev hash : Text → Text
hash t = 35 ∷ t

abbrev token : Text
token = codes "hvr_0123456789ab"

abbrev row : RefreshRow
row = record {
  id = codes "rt_1";
  user_id = codes "u";
  family_id = codes "f";
  token_hash = hash token;
  created_at = 1000;
  expires_at = 9000000;
  family_started_at = 900;
  used_at = none;
  org_id = some (codes "o");
}

abbrev family : SessionFamily
family = record { family = codes "f"; started_at = 900; org = some (codes "o") }

abbrev fresh : Fresh
fresh = record { new_id = codes "rt_2"; new_family = codes "f2"; new_token = codes "hvr_second" }

abbrev users : List User
users = record { user_id = codes "u"; sessions_valid_after = 500 } ∷ []

row_usable : is_usable users 2000 row ≡ true
unfolding is_invalidated valid_after same
row_usable = refl

live-rotated_rows-le_example :
    live users 2000
      (codes "f")
      (rotated_rows hash (codes "u") family (codes "rt_1") 2000 fresh (row ∷ []))
    ≤ live users 2000 (codes "f") (row ∷ [])
live-rotated_rows-le_example =
    live-rotated_rows-le users 2000 hash (codes "u") family (codes "rt_1") fresh (codes "f")
      (row ∷ []) (λ e. (refl, λ u. row_usable), tt)

abbrev second : Fresh
second = record { new_id = codes "rt_3"; new_family = codes "f3"; new_token = codes "hvr_third" }

first_wins : (rotate_session hash (codes "u") family (codes "rt_1") 2000 fresh (row ∷ [])).1 ≢ none
unfolding rotate_session rotate_with usable_org holds_hash rotated_rows prune used_before mark_used
    is_consumed successor same
first_wins e = cc

rotate_session-once_example :
    (rotate_session hash
      (codes "u")
      family
      (codes "rt_1")
      2001
      second
      (rotate_session hash (codes "u") family (codes "rt_1") 2000 fresh (row ∷ [])).0).1
    ≡ none
unfolding rotate_session rotate_with usable_org holds_hash rotated_rows prune used_before mark_used
    is_consumed successor same
rotate_session-once_example =
    rotate_session-once hash (codes "rt_1") (codes "u") (codes "u") family family 2000 2001 fresh
      second (row ∷ []) first_wins refl

refresh-StaysBound_example :
    StaysBound
      (λ f. some (codes "o"))
      (λ i. codes "f")
      hash
      token
      2000
      fresh
      (row ∷ [])
      (refresh hash users (λ u o. true) (λ rs. rs) token 2000 fresh (row ∷ []))
unfolding row_of same
refresh-StaysBound_example =
    refresh-StaysBound (λ f. some (codes "o")) (λ i. codes "f") hash token 2000 fresh users
      (λ u o. true) (λ rs. rs) (row ∷ []) (λ r e. ap (λ o. RefreshRow.family_id (or_else o row)) e)
      (λ xs h. h) ((refl, refl), tt)

token_valid :
    (rotate_refresh_token hash users token 2000 (row ∷ [])).1
    ≡ valid (record { user = codes "u"; token_id = codes "rt_1"; session_family = family })
unfolding rotate_refresh_token plausible check_found check_row check_unused row_of valid_after
    is_invalidated same
token_valid = refl

rotate_refresh_token-IsLive_example :
    (r : RefreshRow) × (row_of hash token (row ∷ []) ≡ some r)
    × IsLive users 2000 r
    × (codes "rt_1" ≡ r.id)
    × (codes "u" ≡ r.user_id)
rotate_refresh_token-IsLive_example =
    rotate_refresh_token-IsLive hash users token 2000 (row ∷ [])
      (record { user = codes "u"; token_id = codes "rt_1"; session_family = family }) token_valid

long_enough : plausible token ≡ true
unfolding plausible
long_enough = refl

revoke_refresh_family_lem_example :
    (any (shares_family hash token (row ∷ [])) (revoke_refresh_family hash token none (row ∷ []))
      ≡ false)
    × (filter
          (λ r. not (shares_family hash token (row ∷ []) r))
          (revoke_refresh_family hash token none (row ∷ []))
        ≡ filter (λ r. not (shares_family hash token (row ∷ []) r)) (row ∷ []))
    × (rotate_refresh_token hash users token 2000 (revoke_refresh_family hash token none (row ∷ []))
        ≡ (revoke_refresh_family hash token none (row ∷ []), refused unknown))
revoke_refresh_family_lem_example =
    revoke_refresh_family_lem hash users token 2000 (row ∷ []) long_enough
