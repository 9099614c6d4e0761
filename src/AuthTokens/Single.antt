-- ===== src/AuthTokens/Single.antt =====
-- A token is redeemed once, by who it was issued to.
use hushvault.Base.{
  ℕ, ◌+◌, ◌≡◌, ◌<◌, refl, sym, ap, ◌∙◌, Bool, true, false, not, ◌||◌, Option, none, some, List, [],
  ◌∷◌, ◌++◌, Text, same, same_refl, filter, find, any, arith, inl, inr, Bool-cases,
}
use hushvault.AuthTokens.{
  TokenPurpose, verify_email, reset_password, AuthToken, User, ConsumedToken, is_purpose,
  token_ttl_ms, is_superseded, issue_token, is_redeemable, is_current_email, is_bad_length, redeem,
  to_consumed, consume_token,
}

abbrev pub has_hash : Text → AuthToken → Bool
has_hash hash r = same r.token_hash hash

module _ (users : List User) (hash : Text) (purpose : TokenPurpose) where
  -- Where no row has a hash, nothing can be redeemed with it.
  find-is_redeemable-none :
      (now : ℕ) (rows : List AuthToken)
      → any (has_hash hash) rows ≡ false
      → find (is_redeemable now users hash purpose) rows ≡ none
  find-is_redeemable-none now [] h = refl
  find-is_redeemable-none now (r ∷ rs) h =
      let ih = find-is_redeemable-none now rs (ground (arith, h)) in
      let no : is_redeemable now users hash purpose r ≡ false =
        unfold is_redeemable in ground (arith, h) in
      rw no ih

is_redeemable-has_hash :
    (now : ℕ) (users : List User) (hash : Text) (purpose : TokenPurpose) (r : AuthToken)
    → has_hash hash r ≡ false
    → is_redeemable now users hash purpose r ≡ false
unfolding is_redeemable
is_redeemable-has_hash now users hash purpose r h = ground (arith, h)

redeemable_has_hash :
    (now : ℕ) (users : List User) (hash : Text) (purpose : TokenPurpose) (r : AuthToken)
    → is_redeemable now users hash purpose r ≡ true
    → has_hash hash r ≡ true
unfolding is_redeemable
redeemable_has_hash now users hash purpose r h = ground (arith, h)

-- A row that was marked as used cannot be redeemed.
is_redeemable-marked :
    (now later : ℕ) (users : List User) (hash : Text) (purpose : TokenPurpose) (r : AuthToken)
    → is_redeemable later users hash purpose (record r { used_at = some now }) ≡ false
unfolding is_redeemable
is_redeemable-marked now later users hash purpose r = ground arith

any-has_hash-redeem :
    (now : ℕ) (users : List User) (hash : Text) (purpose : TokenPurpose) (rows : List AuthToken)
    → any (has_hash hash) (redeem now users hash purpose rows) ≡ any (has_hash hash) rows
unfolding redeem
any-has_hash-redeem now users hash purpose [] = refl
any-has_hash-redeem now users hash purpose (r ∷ rs) =
    let ih = any-has_hash-redeem now users hash purpose rs in
    elim (Bool-cases (is_redeemable now users hash purpose r)) [
      | inl e ↦ rw e (ap (λ b. same r.token_hash hash || b) ih)
      | inr e ↦ rw e (ap (λ b. same r.token_hash hash || b) ih)
    ]

-- Hashes are unique in the table.
abbrev pub OneHash : Text → List AuthToken → Type 0
OneHash hash [] = Unit
OneHash hash (r ∷ rs) =
    (same r.token_hash hash ≡ true → any (has_hash hash) rs ≡ false) × OneHash hash rs

module _ (now later : ℕ) (users later_users : List User) (hash : Text)
    (purpose later_purpose : TokenPurpose) where
  find-behind :
      (s : AuthToken) (rs : List AuthToken)
      → is_redeemable now users hash purpose s ≡ false
      → find (is_redeemable now users hash purpose) (s ∷ rs)
        ≡ find (is_redeemable now users hash purpose) rs
  find-behind s rs h = rw h refl

  -- The row in front of the one that is redeemed has another hash.
  lone :
      (s : AuthToken) (rs : List AuthToken) (r : AuthToken)
      → (same s.token_hash hash ≡ true → any (has_hash hash) rs ≡ false)
      → find (is_redeemable now users hash purpose) rs ≡ some r
      → has_hash hash s ≡ false
  lone s rs r one found = elim (Bool-cases (has_hash hash s)) [
    | inl h ↦
        absurd
          (none_found (sym (find-is_redeemable-none users hash purpose now rs (one h)) ∙ found))
    | inr h ↦ h
  ]
    where
      none_found : ◌≡◌ {A = Option AuthToken} none (some r) → ⊥
      none_found e = cc

  find-redeem :
      (rows : List AuthToken) (r : AuthToken)
      → OneHash hash rows
      → find (is_redeemable now users hash purpose) rows ≡ some r
      → find
          (is_redeemable later later_users hash later_purpose)
          (redeem now users hash purpose rows)
        ≡ none
  unfolding redeem
  find-redeem [] r one e = refl
  find-redeem (s ∷ rs) r (one, h) e =
      let ih = find-redeem rs r h in
      elim (Bool-cases (is_redeemable now users hash purpose s)) [
        | inl hit ↦
            let alone : any (has_hash hash) (redeem now users hash purpose rs) ≡ false =
              any-has_hash-redeem now users hash purpose rs
              ∙ one (redeemable_has_hash now users hash purpose s hit) in
            rw (hit, is_redeemable-marked now later later_users hash later_purpose s)
              (find-is_redeemable-none later_users hash later_purpose later
                (redeem now users hash purpose rs) alone)
        | inr miss ↦
            let found = sym (find-behind s rs miss) ∙ e in
            rw
              (
                miss,
                is_redeemable-has_hash later later_users hash later_purpose s
                    (lone s rs r one found),
              )
              (ih found)
      ]

module _ (digest : Text → Text) (now : ℕ) (users : List User) (token : Text)
    (purpose : TokenPurpose) (rows : List AuthToken) where
  consume_token-is_bad_length :
      is_bad_length token ≡ true → consume_token digest now users token purpose rows ≡ (rows, none)
  unfolding consume_token
  consume_token-is_bad_length h = rw h refl

  consume_token-redeem :
      is_bad_length token ≡ false
      → consume_token digest now users token purpose rows ≡ (
        redeem now users (digest token) purpose rows,
        to_consumed (find (is_redeemable now users (digest token) purpose) rows),
      )
  unfolding consume_token
  consume_token-redeem h = rw h refl

-- A redeemed token was found.
to_consumed-some :
    (o : Option AuthToken) (c : ConsumedToken)
    → to_consumed o ≡ some c
    → (r : AuthToken) × (o ≡ some r)
to_consumed-some none c e = absurd (nothing e)
  where
    nothing : ◌≡◌ {A = Option ConsumedToken} none (some c) → ⊥
    nothing e = cc
to_consumed-some (some r) c e = (r, refl)

-- Where the hashes of the table are unique: a token that was redeemed is never redeemed again, for
-- whichever purpose, whenever it comes and whoever has which address by then.
pub consume_token-once :
    (digest : Text → Text) (now later : ℕ) (users later_users : List User) (token : Text)
    (purpose later_purpose : TokenPurpose) (rows : List AuthToken) (c : ConsumedToken)
    → OneHash (digest token) rows
    → (consume_token digest now users token purpose rows).1 ≡ some c
    → (consume_token digest later later_users token later_purpose
        (consume_token digest now users token purpose rows).0).1
      ≡ none
consume_token-once digest now later users later_users token purpose later_purpose rows c one e =
    elim (Bool-cases (is_bad_length token)) [
      | inl bad ↦
          ap (λ p. p.1)
            (consume_token-is_bad_length digest later later_users token later_purpose
              (consume_token digest now users token purpose rows).0 bad)
      | inr good ↦
          let first = consume_token-redeem digest now users token purpose rows good in
          let (r, found) =
            to_consumed-some (find (is_redeemable now users (digest token) purpose) rows) c
              (sym (ap (λ p. p.1) first) ∙ e) in
          rw first (
            ap (λ p. p.1)
              (consume_token-redeem digest later later_users token later_purpose
                (redeem now users (digest token) purpose rows) good)
            ∙ ap to_consumed (
                find-redeem now later users later_users (digest token) purpose later_purpose rows r
                  one found))
    ]

any-filter-has_hash :
    (hash : Text) (keep : AuthToken → Bool) (rows : List AuthToken)
    → any (has_hash hash) rows ≡ false
    → any (has_hash hash) (filter keep rows) ≡ false
any-filter-has_hash hash keep [] h = h
any-filter-has_hash hash keep (r ∷ rs) h = ground (arith, any-filter-has_hash hash keep rs, h)

-- Rows with another hash are passed over.
find-append-has_hash :
    (now : ℕ) (users : List User) (hash : Text) (purpose : TokenPurpose) (rows : List AuthToken)
    (r : AuthToken)
    → any (has_hash hash) rows ≡ false
    → is_redeemable now users hash purpose r ≡ true
    → find (is_redeemable now users hash purpose) (rows ++ r ∷ []) ≡ some r
find-append-has_hash now users hash purpose [] r h e = rw e refl
find-append-has_hash now users hash purpose (s ∷ rs) r h e =
    let ih = find-append-has_hash now users hash purpose rs r (ground (arith, h)) e in
    rw (is_redeemable-has_hash now users hash purpose s (ground (arith, h))) ih

is_purpose_refl : (purpose : TokenPurpose) → is_purpose purpose purpose ≡ true
is_purpose_refl verify_email = refl
is_purpose_refl reset_password = refl

is_redeemable-issued :
    (later expires_at : ℕ) (users : List User) (hash : Text) (purpose : TokenPurpose) (u : User)
    → find (λ v. same v.id u.id) users ≡ some u
    → later < expires_at
    → is_redeemable later users hash purpose (record {
      user_id = u.id;
      purpose = purpose;
      token_hash = hash;
      email = u.email;
      expires_at = expires_at;
      used_at = none;
    })
      ≡ true
unfolding is_redeemable is_current_email
is_redeemable-issued later expires_at users hash purpose u known h =
    rw (known, same_refl hash, is_purpose_refl purpose, same_refl u.email) (ground (arith, h))

-- A token that was just issued, with the digest of no other row, is redeemed by its user while it
-- lasts, if its user still has the address that it was issued for and it is of a usual length.
pub consume_token-issue_token :
    (digest : Text → Text) (now later : ℕ) (users : List User) (token : Text)
    (purpose : TokenPurpose) (u : User) (rows : List AuthToken)
    → any (has_hash (digest token)) rows ≡ false
    → is_bad_length token ≡ false
    → find (λ v. same v.id u.id) users ≡ some u
    → later < now + token_ttl_ms purpose
    → (consume_token digest later users token purpose
        (issue_token digest now u.id purpose u.email token rows).0).1
      ≡ some (record { user_id = u.id; email = u.email })
unfolding issue_token
consume_token-issue_token digest now later users token purpose u rows fresh good known h =
    let kept = filter (λ r. not (is_superseded now u.id purpose r)) rows in
    let issued : AuthToken = record {
      user_id = u.id;
      purpose = purpose;
      token_hash = digest token;
      email = u.email;
      expires_at = now + token_ttl_ms purpose;
      used_at = none;
    } in
    ap (λ p. p.1)
      (consume_token-redeem digest later users token purpose
        (issue_token digest now u.id purpose u.email token rows).0 good)
    ∙ ap to_consumed (
        find-append-has_hash later users (digest token) purpose kept issued
          (any-filter-has_hash (digest token) (λ r. not (is_superseded now u.id purpose r)) rows
            fresh)
          (is_redeemable-issued later (now + token_ttl_ms purpose) users (digest token) purpose u
            known h))
