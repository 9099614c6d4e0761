-- ===== src/Blobs/Keys.antt =====
-- A key of an encrypted value is taken apart into what it was made of.
use hushvault.Base.{
  ℕ, zero, suc, ◌≤◌, ◌<◌, ◌≡◌, ◌≢◌, refl, sym, ap, ◌∙◌, true, false, some, List, [], ◌∷◌, ◌++◌, all,
  any, Text, ltb, ◌==◌, arith, inl, inr, Bool-cases, starts_with-append, after-append, has,
  has-append, same_refl, same_iff, order_cases, ◌⊎◌,
}
use mathlib.Core.List.{append_assoc, append-nil}
use hushvault.Blobs.{
  decimal, is_digit, is_positive_decimal, number, secret_blob_prefix, secret_blob_key, split_from,
  split, parse_parts, parse_secret_blob_key, revisions, all_secret_blob_keys,
}
use hushvault.Blobs.Decimal.{number-decimal, positive-decimal}

-- An id that contains no separator and is not empty.
abbrev pub IsPlainId : Text → Type 0
IsPlainId id = (id ≢ []) × (any (λ c. c == b':') id ≡ false)

split_from-plain :
    (part s : Text) → any (λ c. c == b':') s ≡ false → split_from part s ≡ (part ++ s) ∷ []
unfolding split_from
split_from-plain part [] h = ap (λ p. p ∷ []) (sym (append-nil part))
split_from-plain part (c ∷ s) h =
    let ih = split_from-plain (part ++ c ∷ []) s (ground arith) in
    let miss : (c == b':') ≡ false = ground arith in
    rw miss (ih ∙ ap (λ p. p ∷ []) (append_assoc part (c ∷ []) s))

split_from-joined :
    (part s t : Text)
    → any (λ c. c == b':') s ≡ false
    → split_from part (s ++ (b':' ∷ t)) ≡ (part ++ s) ∷ split_from [] t
unfolding split_from
split_from-joined part [] t h = ap (λ p. p ∷ split_from [] t) (sym (append-nil part))
split_from-joined part (c ∷ s) t h =
    let ih = split_from-joined (part ++ c ∷ []) s t (ground arith) in
    let miss : (c == b':') ≡ false = ground arith in
    rw miss (ih ∙ ap (λ p. p ∷ split_from [] t) (append_assoc part (c ∷ []) s))

digits_plain : (s : Text) → all is_digit s ≡ true → any (λ c. c == b':') s ≡ false
digits_plain [] h = refl
digits_plain (c ∷ s) h = ground (arith, digits_plain s)

decimal_plain : (s : Text) → is_positive_decimal s ≡ true → any (λ c. c == b':') s ≡ false
unfolding is_positive_decimal
decimal_plain [] h = refl
decimal_plain (c ∷ s) h = ground (arith, digits_plain s)

parse_parts-one : (id : Text) → id ≢ [] → parse_parts (id ∷ []) ≡ some (id, 0)
unfolding parse_parts
parse_parts-one [] h = absurd (h refl)
parse_parts-one (c ∷ id) h = refl

parse_parts-two :
    (id rev : Text)
    → id ≢ []
    → is_positive_decimal rev ≡ true
    → parse_parts (id ∷ rev ∷ []) ≡ some (id, number rev)
unfolding parse_parts
parse_parts-two [] rev h k = absurd (h refl)
parse_parts-two (c ∷ id) rev h k = rw k refl

parse-prefixed :
    (s : Text) → parse_secret_blob_key (secret_blob_prefix ++ s) ≡ parse_parts (split_from [] s)
unfolding parse_secret_blob_key split
parse-prefixed s =
    rw (starts_with-append secret_blob_prefix s, after-append secret_blob_prefix s) refl

-- The key that is written for an id and a revision, of an id that is not empty and has no
-- separator, parses to that id and that revision.
pub parse_secret_blob_key-secret_blob_key :
    (id : Text) (rev : ℕ)
    → IsPlainId id
    → parse_secret_blob_key (secret_blob_key id rev) ≡ some (id, rev)
unfolding secret_blob_key
parse_secret_blob_key-secret_blob_key id rev (h, k) = elim (Bool-cases (ltb 0 rev)) [
  | inr legacy ↦
      let zero_rev : 0 ≡ rev = ground (arith, legacy) in
      rw legacy (
        parse-prefixed id
        ∙ (ap parse_parts (split_from-plain [] id k)
            ∙ (parse_parts-one id h ∙ ap (λ (r : ℕ). some (id, r)) zero_rev)))
  | inl positive ↦
      let d = positive-decimal rev (ground (arith, positive)) in
      rw positive (
        parse-prefixed (id ++ (b':' ∷ decimal rev))
        ∙ (ap parse_parts (
              split_from-joined [] id (decimal rev) k
              ∙ ap (λ l. id ∷ l)
                  (split_from-plain [] (decimal rev) (decimal_plain (decimal rev) d)))
            ∙ (parse_parts-two id (decimal rev) h d
                ∙ ap (λ (r : ℕ). some (id, r)) (number-decimal rev))))
]

has-last : (ks : List Text) (k s : Text) → (k ≡ s) ⊎ (has ks s ≡ true) → has (ks ++ k ∷ []) s ≡ true
unfolding has
has-last ks k s (inl e) = ground (arith, has-append ks (k ∷ []) s, (same_iff k s).1 e)
has-last ks k s (inr h) = ground (arith, has-append ks (k ∷ []) s)

revisions-has :
    (id : Text) (n r : ℕ) → 0 < r → r ≤ n → has (revisions id n) (secret_blob_key id r) ≡ true
unfolding revisions
revisions-has id zero r p h = absurd (omega arith)
revisions-has id (suc n) r p h = elim (order_cases r (suc n)) [
  | inl below ↦
      has-last (revisions id n) (secret_blob_key id (suc n)) (secret_blob_key id r)
        (inr (revisions-has id n r p (omega arith)))
  | inr (inl last) ↦
      has-last (revisions id n) (secret_blob_key id (suc n)) (secret_blob_key id r)
        (inl (ap (secret_blob_key id) (sym last)))
  | inr (inr beyond) ↦ absurd (omega arith)
]

-- The keys that a secret is deleted by hold the key of every revision that its pointer has been
-- at, from the first one on.
pub all_secret_blob_keys-has :
    (id : Text) (rev r : ℕ)
    → r ≤ rev
    → has (all_secret_blob_keys id rev) (secret_blob_key id r) ≡ true
unfolding all_secret_blob_keys has
all_secret_blob_keys-has id rev zero h =
    unfold secret_blob_key in ground (arith, same_refl (secret_blob_prefix ++ id))
all_secret_blob_keys-has id rev (suc r) h =
    ground (arith, revisions-has id rev (suc r) (omega arith) h)
