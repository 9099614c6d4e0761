-- ===== src/Sessions/Refresh.antt =====
-- The whole of POST /auth/refresh keeps every family in its organisation.
use hushvault.Base.{
  ℕ, ◌≡◌, refl, sym, ap, ◌∙◌, Bool, true, false, Option, none, some, List, Text, same, inl, inr,
  Bool-cases, [], ◌∷◌,
}
use hushvault.Sessions.{
  RefreshRow, SessionFamily, IssuedSession, Fresh, holds_hash, rotated_rows, rotate_with,
  rotate_session, usable_org,
}
use hushvault.Sessions.Validate.{
  Validated, RotateResult, valid, refused, unknown, expired, invalidated, race, reuse, Reason, User,
  row_of, rotate_refresh_token, revoke_refresh_family, RefreshAnswer, refreshed, org_unresolved,
  membership_revoked, refuse, conflict_or, refresh_member, refresh_org, refresh_valid, refresh,
}
use hushvault.Sessions.Bound.{
  Tied, IsTied, made, Answered, found-Tied, rotate_with-IsTied, rotate_refresh_token-Answered,
  revoke-IsTied,
}

abbrev session_of : RefreshAnswer → IssuedSession → IssuedSession
session_of (refreshed t) d = t
session_of _ d = d

refreshed_session : (s t : IssuedSession) → refreshed s ≡ refreshed t → s ≡ t
refreshed_session s t e = ap (λ a. session_of a s) e

refuse-invalid : (r : Reason) (s : IssuedSession) → refuse r ≡ refreshed s → ⊥
unfolding refuse
refuse-invalid unknown s e = cc
refuse-invalid expired s e = cc
refuse-invalid invalidated s e = cc
refuse-invalid race s e = cc
refuse-invalid reuse s e = cc

usable_org-some : (o : Option Text) (org : Text) → usable_org o ≡ some org → o ≡ some org
unfolding usable_org
usable_org-some none org e = cc
usable_org-some (some []) org e = cc
usable_org-some (some (c ∷ t)) org e = e

module _ (bound : Text → Option Text) (home : Text → Text) (hash : Text → Text) (token : Text)
    (now : ℕ) (fresh : Fresh) where
  -- Tied rows, and a session of the organisation of the presented family.
  Keeps : RefreshRow → List RefreshRow × RefreshAnswer → Type 0
  Keeps row r =
      IsTied bound home r.0
      × ((s : IssuedSession) → r.1 ≡ refreshed s → bound row.family_id ≡ some s.access_org)

  issued_org :
      (org user : Text) (family : SessionFamily) (consume : Text) (rows : List RefreshRow)
      (s : IssuedSession)
      → conflict_or (rotate_with hash (some org) user family consume now fresh rows).1 ≡ refreshed s
      → org ≡ s.access_org
  unfolding conflict_or rotate_with
  issued_org org user family consume rows s e =
      elim (Bool-cases (
        holds_hash (hash fresh.new_token) (rotated_rows hash user family consume now fresh rows))) [
          | inl won ↦ ap (λ (i : IssuedSession). i.access_org) (refreshed_session _ s (rw won at e))
          | inr lost ↦ let q = rw lost at e in cc
        ]

  module _ (row : RefreshRow) (tied : Tied bound home row)
      (at_home : home fresh.new_id ≡ row.family_id) where
    revoked-Keeps :
        (xs : List RefreshRow) (a : RefreshAnswer)
        → IsTied bound home xs
        → ((s : IssuedSession) → a ≡ refreshed s → ⊥)
        → Keeps row (revoke_refresh_family hash token none xs, a)
    unfolding Keeps
    revoked-Keeps xs a h k = (revoke-IsTied bound home hash token none xs h, λ s e. absurd (k s e))

    refresh_member-Keeps :
        (b : Bool) (org : Text) (xs : List RefreshRow)
        → usable_org row.org_id ≡ some org
        → IsTied bound home xs
        → Keeps row (refresh_member hash b (made row) token now fresh xs)
    unfolding refresh_member
    refresh_member-Keeps false org xs e h = revoked-Keeps xs membership_revoked h (λ s q. cc)
    refresh_member-Keeps true org xs e h =
        unfold rotate_session in
        rw e (
          unfold Keeps in
          (
            rotate_with-IsTied bound home hash (some org) row.user_id (made row).session_family
                row.id now fresh xs (sym tied.1) at_home h,
            λ s q.
                let own = issued_org org row.user_id (made row).session_family row.id xs s q in
                sym tied.0 ∙ (usable_org-some row.org_id org e ∙ ap some own),
          ))

    refresh_org-Keeps :
        (o : Option Text) (members : Text → Text → Bool) (xs : List RefreshRow)
        → usable_org row.org_id ≡ o
        → IsTied bound home xs
        → Keeps row (refresh_org hash o members (made row) token now fresh xs)
    unfolding refresh_org
    refresh_org-Keeps none members xs e h = revoked-Keeps xs org_unresolved h (λ s q. cc)
    refresh_org-Keeps (some org) members xs e h =
        refresh_member-Keeps (members row.user_id org) org xs e h

  -- What a refresh leaves of a table: tied rows, and, where it gives a session, one of the
  -- organisation to which the family of the presented token is bound.
  pub record StaysBound (rows : List RefreshRow) (r : List RefreshRow × RefreshAnswer)
      : Type 0 where
    pub rows_tied : IsTied bound home r.0
    pub same_org :
        (s : IssuedSession)
        → r.1 ≡ refreshed s
        → (row : RefreshRow) × (row_of hash token rows ≡ some row)
          × (bound row.family_id ≡ some s.access_org)

  kept_stays :
      (rows : List RefreshRow) (row : RefreshRow) (r : List RefreshRow × RefreshAnswer)
      → row_of hash token rows ≡ some row
      → Keeps row r
      → StaysBound rows r
  unfolding Keeps
  kept_stays rows row r e (h, k) = record { rows_tied = h; same_org = λ s q. (row, e, k s q) }

  refresh_valid-StaysBound :
      (result : RotateResult) (members : Text → Text → Bool) (rows xs : List RefreshRow)
      → ((v : Validated)
          → result ≡ valid v
          → (row : RefreshRow) × (row_of hash token rows ≡ some row) × (v ≡ made row))
      → ((row : RefreshRow) → row_of hash token rows ≡ some row → home fresh.new_id ≡ row.family_id)
      → IsTied bound home rows
      → IsTied bound home xs
      → StaysBound rows (refresh_valid hash result members token now fresh xs)
  unfolding refresh_valid
  refresh_valid-StaysBound (refused reason) members rows xs a f h k = record {
    rows_tied = k;
    same_org = λ s q. absurd (refuse-invalid reason s q);
  }
  refresh_valid-StaysBound (valid v) members rows xs a f h k =
      let (row, e, q) = a v refl in
      let (tied, hit) =
        found-Tied bound home (λ r. same r.token_hash (hash token)) rows row (unfold row_of in e)
          h in
      rw q (
        kept_stays rows row _ e
          (refresh_org-Keeps row tied (f row e) (usable_org row.org_id) members xs refl k))

  -- Refreshing never moves a session to another organisation: where every row has the organisation
  -- that its family is bound to, and other requests keep that, it holds after a refresh too, and a
  -- session that the refresh gives acts in the organisation of the presented token's family. The id
  -- of the new row is one that belongs to that family.
  pub refresh-StaysBound :
      (users : List User) (members : Text → Text → Bool)
      (others : List RefreshRow → List RefreshRow) (rows : List RefreshRow)
      → ((row : RefreshRow) → row_of hash token rows ≡ some row → home fresh.new_id ≡ row.family_id)
      → ((xs : List RefreshRow) → IsTied bound home xs → IsTied bound home (others xs))
      → IsTied bound home rows
      → StaysBound rows (refresh hash users members others token now fresh rows)
  unfolding refresh Answered
  refresh-StaysBound users members others rows f o h =
      let (tied, answered) = rotate_refresh_token-Answered bound home hash token users now rows h in
      refresh_valid-StaysBound (rotate_refresh_token hash users token now rows).1 members rows
        (others (rotate_refresh_token hash users token now rows).0) answered f h (o _ tied)
