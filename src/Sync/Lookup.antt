-- ===== src/Sync/Lookup.antt =====
-- Searching the lists that the planner builds.
use hushvault.Base.{
  ◌≡◌, refl, ◌∙◌, ap, Bool, true, false, ◌&&◌, ◌||◌, List, [], ◌∷◌, filter, Text, same, same_iff,
  has, arith, inl, inr, Bool-cases,
}
use hushvault.Sync.Plan.{Secret, insert, sorted, names_of, value_of}

pub same-swap : (s t : Text) → same s t ≡ same t s
same-swap s t = ground (arith, same_iff s t, same_iff t s)

pub has-insert : (t s : Text) (xs : List Text) → has (insert s xs) t ≡ (same s t || has xs t)
unfolding has insert
has-insert t s [] = refl
has-insert t s (x ∷ xs) = ground (arith, has-insert t s xs)

pub has-sorted : (t : Text) (xs : List Text) → has (sorted xs) t ≡ has xs t
unfolding has sorted
has-sorted t [] = refl
has-sorted t (x ∷ xs) = has-insert t x (sorted xs) ∙ ap (λ b. same x t || b) (has-sorted t xs)

pub has-filter :
    (p : Text → Bool) (t : Text) (xs : List Text) → has (filter p xs) t ≡ (has xs t && p t)
unfolding has
has-filter p t [] = refl
has-filter p t (x ∷ xs) = elim (Bool-cases (same x t)) [
  | inl hit ↦ ground (arith, has-filter p t xs, ap p ((same_iff x t).0 hit))
  | inr miss ↦ ground (arith, has-filter p t xs)
]

-- Of the secrets that a test on the name keeps.
pub has-names_filter :
    (p : Text → Bool) (t : Text) (ss : List Secret)
    → has (names_of (filter (λ s. p s.name) ss)) t ≡ (has (names_of ss) t && p t)
unfolding has names_of
has-names_filter p t [] = refl
has-names_filter p t (s ∷ ss) = elim (Bool-cases (same s.name t)) [
  | inl hit ↦ ground (arith, has-names_filter p t ss, ap p ((same_iff s.name t).0 hit))
  | inr miss ↦ ground (arith, has-names_filter p t ss)
]

pub value_of-filter :
    (p : Text → Bool) (t : Text) (ss : List Secret)
    → p t ≡ true
    → value_of (filter (λ s. p s.name) ss) t ≡ value_of ss t
unfolding value_of
value_of-filter p t [] h = refl
value_of-filter p t (s ∷ ss) h = elim (Bool-cases (same s.name t)) [
  | inl hit ↦ ground (arith, ap p ((same_iff s.name t).0 hit))
  | inr miss ↦ ground (arith, value_of-filter p t ss h)
]

-- A test that finds no secret of a name fails for the first secret of that name.
pub rejects_first :
    (q : Secret → Bool) (t : Text) (ss : List Secret)
    → has (names_of ss) t ≡ true
    → has (names_of (filter q ss)) t ≡ false
    → q (record { name = t; value = value_of ss t }) ≡ false
unfolding has names_of value_of
rejects_first q t [] h k = cc
rejects_first q t (s ∷ ss) h k = elim (Bool-cases (same s.name t)) [
  | inl hit ↦
      let e : q s ≡ false = ground (arith, hit) in rw hit (rw (← (same_iff s.name t).0 hit) e)
  | inr miss ↦ rw miss (rejects_first q t ss (ground arith) (ground arith))
]
