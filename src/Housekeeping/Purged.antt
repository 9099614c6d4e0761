-- ===== src/Housekeeping/Purged.antt =====
-- What a bounded delete takes away, and what it leaves.
use hushvault.Base.{
  ℕ, zero, suc, ◌+◌, ◌≡◌, refl, ap, ◌∙◌, min, Bool, true, false, not, List, [], ◌∷◌, length, filter,
  codes, none, ◌⊎◌, arith, inl, inr, Bool-cases,
}
use hushvault.Housekeeping.{
  invite_purge_per_tick, purge, changes, ShareLink, is_spent, purge_share_links,
  share_purge_per_tick, OrgInvite, is_closed, purge_org_invites, Organisation, revert_comps,
  sweep_expired_comps, comp_expiry_per_tick, is_due,
}

module _ {ℓ} {A : Type ℓ} (passes : A → Bool) where
  purge-hit :
      (n : ℕ) (x : A) (xs : List A)
      → passes x ≡ true
      → purge (suc n) passes (x ∷ xs) ≡ purge n passes xs
  unfolding purge
  purge-hit n x xs h = rw h refl

  purge-miss :
      (n : ℕ) (x : A) (xs : List A)
      → passes x ≡ false
      → purge (suc n) passes (x ∷ xs) ≡ x ∷ purge (suc n) passes xs
  unfolding purge
  purge-miss n x xs h = rw h refl

  -- Items that the delete does not look for are left, in their order.
  pub filter-purge :
      (keep : A → Bool)
      → ((x : A) → passes x ≡ true → keep x ≡ false)
      → (n : ℕ) (xs : List A) → filter keep (purge n passes xs) ≡ filter keep xs
  filter-purge keep apart zero xs = unfold purge in refl
  filter-purge keep apart (suc n) [] = unfold purge in refl
  filter-purge keep apart (suc n) (x ∷ xs) =
      let behind = filter-purge keep apart n xs in
      let kept = filter-purge keep apart (suc n) xs in
      elim (Bool-cases (passes x)) [
        | inl h ↦ ap (filter keep) (purge-hit n x xs h) ∙ (behind ∙ unkept (apart x h))
        | inr h ↦ ap (filter keep) (purge-miss n x xs h) ∙ ground (arith, kept)
      ]
    where
      unkept : keep x ≡ false → filter keep xs ≡ filter keep (x ∷ xs)
      unkept h = ground (arith, h)

  -- As many items are gone as passed, up to the bound.
  pub length-purge :
      (n : ℕ) (xs : List A)
      → length (purge n passes xs) + min n (length (filter passes xs)) ≡ length xs
  length-purge zero xs = unfold purge in omega arith
  length-purge (suc n) [] = unfold purge in omega arith
  length-purge (suc n) (x ∷ xs) =
      let behind = length-purge n xs in
      let kept = length-purge (suc n) xs in
      elim (Bool-cases (passes x)) [
        | inl h ↦ ground (arith, purge-hit n x xs h, behind, h)
        | inr h ↦ ground (arith, purge-miss n x xs h, kept, h)
      ]

  pub changes-purge :
      (n : ℕ) (xs : List A) → changes xs (purge n passes xs) ≡ min n (length (filter passes xs))
  changes-purge n xs = omega (arith, length-purge n xs)

-- One tick deletes as many spent share links as there are, up to the bound, and no other link.
pub purge_share_links_lem :
    (now : ℕ) (links : List ShareLink)
    → (filter (λ l. not (is_spent now l)) (purge_share_links now links).0
        ≡ filter (λ l. not (is_spent now l)) links)
      × ((purge_share_links now links).1
          ≡ min share_purge_per_tick (length (filter (is_spent now) links)))
unfolding purge_share_links
purge_share_links_lem now links = (
  filter-purge (is_spent now) (λ l. not (is_spent now l)) (λ l h. ground (arith, h))
      share_purge_per_tick links,
  changes-purge (is_spent now) share_purge_per_tick links,
)

-- One tick deletes as many closed invitations as there are, up to the bound, and no other one.
pub purge_org_invites_lem :
    (now : ℕ) (invites : List OrgInvite)
    → (filter (λ i. not (is_closed now i)) (purge_org_invites now invites).0
        ≡ filter (λ i. not (is_closed now i)) invites)
      × ((purge_org_invites now invites).1
          ≡ min invite_purge_per_tick (length (filter (is_closed now) invites)))
unfolding purge_org_invites
purge_org_invites_lem now invites = (
  filter-purge (is_closed now) (λ i. not (is_closed now i)) (λ i h. ground (arith, h))
      invite_purge_per_tick invites,
  changes-purge (is_closed now) invite_purge_per_tick invites,
)

-- An organisation after its comp has run out.
abbrev pub to_free : Organisation → Organisation
to_free org = record org { plan = codes "free"; plan_expires_at = none }

abbrev pub is_comp_due : (now : ℕ) → Organisation → Bool
is_comp_due now org = is_due now org.plan_expires_at

-- The organisations of one list, in order, each as it was or, when its comp was due, on the free plan.
abbrev pub IsReverted : (now : ℕ) → (before after : List Organisation) → Type 0
IsReverted now [] [] = Unit
IsReverted now [] (_ ∷ _) = ⊥
IsReverted now (_ ∷ _) [] = ⊥
IsReverted now (o ∷ os) (p ∷ ps) =
    ((p ≡ o) ⊎ ((is_comp_due now o ≡ true) × (p ≡ to_free o))) × IsReverted now os ps

IsReverted-refl : (now : ℕ) (orgs : List Organisation) → IsReverted now orgs orgs
IsReverted-refl now [] = tt
IsReverted-refl now (o ∷ os) = (inl refl, IsReverted-refl now os)

revert-due :
    (n now : ℕ) (o : Organisation) (os : List Organisation)
    → is_comp_due now o ≡ true
    → revert_comps (suc n) now (o ∷ os)
      ≡ (to_free o ∷ (revert_comps n now os).0, suc (revert_comps n now os).1)
unfolding revert_comps
revert-due n now o os h = rw h refl

revert-undue :
    (n now : ℕ) (o : Organisation) (os : List Organisation)
    → is_comp_due now o ≡ false
    → revert_comps (suc n) now (o ∷ os)
      ≡ (o ∷ (revert_comps (suc n) now os).0, (revert_comps (suc n) now os).1)
unfolding revert_comps
revert-undue n now o os h = rw h refl

revert_comps-IsReverted :
    (n now : ℕ) (orgs : List Organisation) → IsReverted now orgs (revert_comps n now orgs).0
revert_comps-IsReverted zero now orgs = unfold revert_comps in IsReverted-refl now orgs
revert_comps-IsReverted (suc n) now [] = unfold revert_comps in tt
revert_comps-IsReverted (suc n) now (o ∷ os) =
    let behind = revert_comps-IsReverted n now os in
    let kept = revert_comps-IsReverted (suc n) now os in
    elim (Bool-cases (is_comp_due now o)) [
      | inl h ↦ rw (revert-due n now o os h) (inr (h, refl), behind)
      | inr h ↦ rw (revert-undue n now o os h) (inl refl, kept)
    ]

revert_comps_count :
    (n now : ℕ) (orgs : List Organisation)
    → (revert_comps n now orgs).1 ≡ min n (length (filter (is_comp_due now) orgs))
revert_comps_count zero now orgs = unfold revert_comps in omega arith
revert_comps_count (suc n) now [] = unfold revert_comps in omega arith
revert_comps_count (suc n) now (o ∷ os) =
    let behind = revert_comps_count n now os in
    let kept = revert_comps_count (suc n) now os in
    elim (Bool-cases (is_comp_due now o)) [
      | inl h ↦ rw (revert-due n now o os h) (ground (arith, behind, h))
      | inr h ↦ rw (revert-undue n now o os h) (ground (arith, kept, h))
    ]

-- An organisation on the free plan without an end is not due.
is_comp_due-to_free : (now : ℕ) (o : Organisation) → is_comp_due now (to_free o) ≡ false
unfolding is_due
is_comp_due-to_free now o = refl

revert_comps_due :
    (n now : ℕ) (orgs : List Organisation)
    → length (filter (is_comp_due now) (revert_comps n now orgs).0) + (revert_comps n now orgs).1
      ≡ length (filter (is_comp_due now) orgs)
revert_comps_due zero now orgs = unfold revert_comps in omega arith
revert_comps_due (suc n) now [] = unfold revert_comps in omega arith
revert_comps_due (suc n) now (o ∷ os) =
    let behind = revert_comps_due n now os in
    let kept = revert_comps_due (suc n) now os in
    elim (Bool-cases (is_comp_due now o)) [
      | inl h ↦ rw (revert-due n now o os h, h, is_comp_due-to_free now o) (omega (arith, behind))
      | inr h ↦ rw (revert-undue n now o os h, h) kept
    ]

-- One tick reverts as many comps as are due, up to the bound, and so many fewer are due after it: the
-- organisations stay, in order, each as it was or, when its comp was due, on the free plan without
-- an end.
pub sweep_expired_comps_lem :
    (now : ℕ) (orgs : List Organisation)
    → IsReverted now orgs (sweep_expired_comps now orgs).0
      × ((sweep_expired_comps now orgs).1
          ≡ min comp_expiry_per_tick (length (filter (is_comp_due now) orgs)))
      × (length (filter (is_comp_due now) (sweep_expired_comps now orgs).0)
            + (sweep_expired_comps now orgs).1
          ≡ length (filter (is_comp_due now) orgs))
unfolding sweep_expired_comps
sweep_expired_comps_lem now orgs = (
  revert_comps-IsReverted comp_expiry_per_tick now orgs,
  revert_comps_count comp_expiry_per_tick now orgs,
  revert_comps_due comp_expiry_per_tick now orgs,
)
