-- ===== src/AuthTokens/Tests.antt =====
-- One token that is issued and redeemed.
use hushvault.Base.{
  ◌≡◌, refl, false, none, some, List, [], ◌∷◌, ◌++◌, Text, codes, same, find, arith,
}
use hushvault.AuthTokens.{
  User, AuthToken, verify_email, reset_password, issue_token, is_redeemable, is_current_email,
  redeem, is_bad_length, consume_token,
}
use hushvault.AuthTokens.Single.{consume_token-once, consume_token-issue_token}

abbrev ana : User
ana = record { id = codes "u"; email = codes "a@b.c" }

abbrev users : List User
users = ana ∷ []

abbrev token : Text
token = codes "0123456789abcdef"

-- A digest that is good enough for a test.
abbrev digest : Text → Text
digest t = codes "d" ++ t

abbrev rows : List AuthToken
rows =
    record {
      user_id = codes "u";
      purpose = reset_password;
      token_hash = digest token;
      email = codes "a@b.c";
      expires_at = 100;
      used_at = none;
    }
    ∷ []

redeemed :
    (consume_token digest 9 users token reset_password rows).1
    ≡ some (record { user_id = codes "u"; email = codes "a@b.c" })
unfolding consume_token is_bad_length redeem is_redeemable is_current_email same
redeemed = refl

consume_token-once_example :
    (consume_token digest 10 users token verify_email
      (consume_token digest 9 users token reset_password rows).0).1
    ≡ none
consume_token-once_example =
    consume_token-once digest 9 10 users users token reset_password verify_email rows
      (record { user_id = codes "u"; email = codes "a@b.c" }) (λ h. refl, tt) redeemed

usual_length : is_bad_length token ≡ false
unfolding is_bad_length
usual_length = refl

found : find (λ v. same v.id ana.id) users ≡ some ana
unfolding same
found = refl

consume_token-issue_token_example :
    (consume_token digest 9 users token verify_email
      (issue_token digest 5 ana.id verify_email ana.email token []).0).1
    ≡ some (record { user_id = ana.id; email = ana.email })
consume_token-issue_token_example =
    consume_token-issue_token digest 5 9 users token verify_email ana [] refl usual_length found
      (omega arith)
