-- ===== src/Sessions/Rotate.antt =====
-- A rotation consumes its token once, and keeps the organisation of the family.
use hushvault.Base.{
  ℕ, ◌≡◌, ◌≢◌, refl, ap, ◌∙◌, Bool, false, not, ◌&&◌, ◌||◌, Option, none, some, List, [], ◌∷◌, ◌++◌,
  filter, find, any, All, All-filter, Text, same, leb, arith,
}
use hushvault.Sessions.{
  RefreshRow, SessionFamily, Fresh, used_before, prune, is_consumed, mark_used, successor,
  holds_hash, rotated_rows, rotate_with, rotate_session, usable_org,
}

-- No row of the id is left to consume.
abbrev IsSpent : Text → List RefreshRow → Type 0
IsSpent c = All (λ r. is_consumed c r ≡ false)

mark_used-IsSpent : (c : Text) (now : ℕ) (rs : List RefreshRow) → IsSpent c (mark_used c now rs)
unfolding mark_used is_consumed
mark_used-IsSpent c now [] = tt
mark_used-IsSpent c now (r ∷ rs) = (ground arith, mark_used-IsSpent c now rs)

find-IsSpent : (c : Text) (rs : List RefreshRow) → IsSpent c rs → find (is_consumed c) rs ≡ none
find-IsSpent c [] h = refl
find-IsSpent c (r ∷ rs) (p, h) = rw p (find-IsSpent c rs h)

any-filter-false :
    (p q : RefreshRow → Bool) (rs : List RefreshRow)
    → any p rs ≡ false
    → any p (filter q rs) ≡ false
any-filter-false p q [] h = refl
any-filter-false p q (r ∷ rs) h = ground (arith, any-filter-false p q rs)

any-append-nil : (p : RefreshRow → Bool) (rs : List RefreshRow) → any p (rs ++ []) ≡ any p rs
any-append-nil p [] = refl
any-append-nil p (r ∷ rs) = ap (λ b. p r || b) (any-append-nil p rs)

holds-mark_used :
    (k c : Text) (now : ℕ) (rs : List RefreshRow)
    → holds_hash k (mark_used c now rs) ≡ holds_hash k rs
unfolding holds_hash mark_used
holds-mark_used k c now [] = refl
holds-mark_used k c now (r ∷ rs) = ground (arith, holds-mark_used k c now rs)

module _ (hash : Text → Text) (consume : Text) where
  rotated_rows-IsSpent :
      (user : Text) (family : SessionFamily) (now : ℕ) (fresh : Fresh) (rows : List RefreshRow)
      → IsSpent consume (rotated_rows hash user family consume now fresh rows)
  unfolding rotated_rows prune
  rotated_rows-IsSpent user family now fresh rows =
      let rows' = rows ++ successor hash user family now fresh (find (is_consumed consume) rows) in
      All-filter (λ r. is_consumed consume r ≡ false)
        (λ r. not (same r.user_id user && (leb r.expires_at now || used_before r.used_at now)))
        (mark_used consume now rows') (mark_used-IsSpent consume now rows')

  rotated_rows-misses :
      (user : Text) (family : SessionFamily) (now : ℕ) (fresh : Fresh) (rows : List RefreshRow)
      → IsSpent consume rows
      → (k : Text) → holds_hash k rows ≡ false
      → holds_hash k (rotated_rows hash user family consume now fresh rows) ≡ false
  unfolding rotated_rows prune holds_hash successor
  rotated_rows-misses user family now fresh rows s k h = rw (find-IsSpent consume rows s) (
      any-filter-false (λ r. same r.token_hash k) _ (mark_used consume now (rows ++ []))
        (unfold holds_hash in
          (holds-mark_used k consume now (rows ++ [])
            ∙ (any-append-nil (λ r. same r.token_hash k) rows ∙ h))))

  spent_refused :
      (o : Option Text) (user : Text) (family : SessionFamily) (now : ℕ) (fresh : Fresh)
      (rows : List RefreshRow)
      → IsSpent consume rows
      → holds_hash (hash fresh.new_token) rows ≡ false
      → (rotate_with hash o user family consume now fresh rows).1 ≡ none
  unfolding rotate_with
  spent_refused none user family now fresh rows s h = refl
  spent_refused (some org) user family now fresh rows s h =
      rw (rotated_rows-misses user family now fresh rows s (hash fresh.new_token) h) refl

  issued_spends :
      (o : Option Text) (user : Text) (family : SessionFamily) (now : ℕ) (fresh : Fresh)
      (rows : List RefreshRow)
      → (rotate_with hash o user family consume now fresh rows).1 ≢ none
      → IsSpent consume (rotate_with hash o user family consume now fresh rows).0
  unfolding rotate_with
  issued_spends none user family now fresh rows h = absurd (h refl)
  issued_spends (some org) user family now fresh rows h =
      rotated_rows-IsSpent user family now fresh rows

  -- A refresh token is used once: after a rotation that issued a session, no further rotation of the
  -- same token issues one, where its own new token is not already in the table.
  pub rotate_session-once :
      (user user' : Text) (family family' : SessionFamily) (now now' : ℕ) (fresh fresh' : Fresh)
      (rows : List RefreshRow)
      → let first = rotate_session hash user family consume now fresh rows in
        first.1 ≢ none
        → holds_hash (hash fresh'.new_token) first.0 ≡ false
        → (rotate_session hash user' family' consume now' fresh' first.0).1 ≡ none
  unfolding rotate_session
  rotate_session-once user user' family family' now now' fresh fresh' rows won new =
      spent_refused (usable_org family'.org) user' family' now' fresh' _
        (issued_spends (usable_org family.org) user family now fresh rows won) new
