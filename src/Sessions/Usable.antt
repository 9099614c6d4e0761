-- ===== src/Sessions/Usable.antt =====
-- How many tokens of a family are usable, and which rows a rotation consumes.
use hushvault.Base.{
  ℕ, suc, ◌+◌, ◌≤◌, ◌≡◌, refl, ap, Bool, true, not, ltb, ◌&&◌, ◌||◌, Option, none, some, List, [],
  ◌∷◌, ◌++◌, filter, find, All, Text, same, same_iff, leb, if◌then◌else◌, arith, inl, inr,
  Bool-cases,
}
use hushvault.Sessions.{
  refresh_absolute_seconds, RefreshRow, SessionFamily, Fresh, has_no_use, used_before, prune,
  is_consumed, mark_used, successor, rotated_rows,
}
use hushvault.Sessions.Validate.{User, valid_after, is_invalidated}

-- Whether the token of a row would be taken at a time: it was never used, is neither expired nor of a
-- family that is too old, and was made no earlier than its user's sessions became valid.
abbrev pub is_usable : List User → (now : ℕ) → RefreshRow → Bool
is_usable users now r =
    has_no_use r.used_at
    && (ltb now r.expires_at
        && (ltb now (r.family_started_at + refresh_absolute_seconds)
            && not (is_invalidated r.created_at (valid_after users r.user_id))))

module _ (users : List User) (now : ℕ) where
  -- The usable rows of a family.
  abbrev pub live : Text → List RefreshRow → ℕ
  live f [] = 0
  live f (r ∷ rs) =
      if same r.family_id f && is_usable users now r then suc (live f rs) else live f rs

  -- Those of them that a rotation consumes.
  abbrev taken : Text → Text → List RefreshRow → ℕ
  taken f consume [] = 0
  taken f consume (r ∷ rs) =
      if same r.family_id f && (same r.id consume && is_usable users now r)
      then suc (taken f consume rs)
      else taken f consume rs

  live-filter-le :
      (f : Text) (p : RefreshRow → Bool) (rs : List RefreshRow) → live f (filter p rs) ≤ live f rs
  live-filter-le f p [] = omega arith
  live-filter-le f p (r ∷ rs) = ground (arith, live-filter-le f p rs)

  live-append : (f : Text) (rs ss : List RefreshRow) → live f (rs ++ ss) ≡ live f rs + live f ss
  live-append f [] ss = omega arith
  live-append f (r ∷ rs) ss = ground (arith, live-append f rs ss)

  taken-append-le : (f c : Text) (rs ss : List RefreshRow) → taken f c rs ≤ taken f c (rs ++ ss)
  taken-append-le f c [] ss = omega arith
  taken-append-le f c (r ∷ rs) ss = ground (arith, taken-append-le f c rs ss)

  live-mark_used :
      (f c : Text) (at : ℕ) (rs : List RefreshRow)
      → live f (mark_used c at rs) + taken f c rs ≡ live f rs
  unfolding mark_used is_consumed
  live-mark_used f c at [] = omega arith
  live-mark_used f c at (r ∷ rs) = ground (arith, live-mark_used f c at rs)

  -- The rows of one id belong to one family, and one that was never used is usable.
  abbrev pub IsOf : (consume family : Text) → List RefreshRow → Type 0
  IsOf consume family = All (λ r.
      same r.id consume ≡ true
      → (r.family_id ≡ family) × (has_no_use r.used_at ≡ true → is_usable users now r ≡ true))

  found_taken :
      (c g : Text) (rs : List RefreshRow) (old : RefreshRow)
      → IsOf c g rs
      → find (is_consumed c) rs ≡ some old
      → 1 ≤ taken g c rs
  unfolding is_consumed
  found_taken c g [] old h e = cc
  found_taken c g (r ∷ rs) old (p, h) e = elim (Bool-cases (same r.id c && has_no_use r.used_at)) [
    | inl hit ↦
        let (of_family, usable) = p (ground (arith, hit)) in
        let own : same r.family_id g ≡ true = (same_iff r.family_id g).1 of_family in
        let unused = usable (ground (arith, hit)) in ground (arith, own, unused, hit)
    | inr miss ↦ let rest = found_taken c g rs old h (rw miss at e) in ground (arith, rest)
  ]

  module _ (hash : Text → Text) (user : Text) (family : SessionFamily) (consume : Text)
      (fresh : Fresh) where
    added :
        (f : Text) (o : Option RefreshRow) (rs : List RefreshRow)
        → IsOf consume family.family rs
        → find (is_consumed consume) rs ≡ o
        → live f (successor hash user family now fresh o) ≤ taken f consume rs
    unfolding successor
    added f none rs h e = omega arith
    added f (some old) rs h e = elim (Bool-cases (same family.family f)) [
      | inl own ↦
          let g = found_taken consume family.family rs old h e in
          let same_family = ap (λ x. taken x consume rs) ((same_iff family.family f).0 own) in
          ground (arith, g, same_family)
      | inr other ↦ ground (arith, other)
    ]

    -- Where the consumed id is of the family that is rotated, and its token usable, if it was never used:
    -- after the rotation no family has more usable tokens than it had before.
    pub live-rotated_rows-le :
        (f : Text) (rows : List RefreshRow)
        → IsOf consume family.family rows
        → live f (rotated_rows hash user family consume now fresh rows) ≤ live f rows
    unfolding rotated_rows prune
    live-rotated_rows-le f rows h =
        let new = successor hash user family now fresh (find (is_consumed consume) rows) in
        omega (
          arith,
          live-filter-le f
              (λ r.
                not (same r.user_id user && (leb r.expires_at now || used_before r.used_at now)))
              (mark_used consume now (rows ++ new)),
          live-mark_used f consume now (rows ++ new),
          live-append f rows new,
          taken-append-le f consume rows new,
          added f (find (is_consumed consume) rows) rows h refl,
        )
