-- ===== src/Resolve/Unique.antt =====
-- No name means two values.
use hushvault.Base.{◌≡◌, refl, sym, ap, ◌∙◌, true, false, some, List, ◌∷◌, ◌++◌, Text, or_else}
use hushvault.Resolve.{Input, Segment, by_name, found, value_in, Values, evaluate_secrets}
use hushvault.Resolve.Sound.{evaluate_secrets-Means}
use hushvault.Resolve.Meaning.{Means, Expands, plain, computed, nothing, char, name_in}

same_input :
    (inputs : List Input) (name : Text) (i j : Input)
    → by_name inputs name ≡ some i
    → by_name inputs name ≡ some j
    → i ≡ j
same_input inputs name i j a b = ap (λ o. or_else o i) (sym a ∙ b)

not_both :
    (inputs : List Input) (name : Text) (i j : Input)
    → by_name inputs name ≡ some i
    → by_name inputs name ≡ some j
    → i.is_computed ≡ false
    → j.is_computed ≡ true
    → ⊥
not_both inputs name i j a b p q =
    let e = sym p ∙ (ap (λ (k : Input). k.is_computed) (same_input inputs name i j a b) ∙ q) in cc

mutual
  -- Each value that a name means is every other.
  pub Means-unique :
      {inputs : List Input} {name v w : Text} → Means inputs name v → Means inputs name w → v ≡ w
  Means-unique {inputs} {name} (plain i b p q) (plain j c r s) =
      sym q ∙ (ap (λ (k : Input). k.value) (same_input inputs name i j b c) ∙ s)
  Means-unique {inputs} {name} (plain i b p q) (computed j c r s) =
      absurd (not_both inputs name i j b c p r)
  Means-unique {inputs} {name} (computed i b p q) (plain j c r s) =
      absurd (not_both inputs name j i c b r p)
  Means-unique {inputs} {name} (computed i b p q) (computed j c r s) =
      Expands-unique q (rw (same_input inputs name i j b c) s)

  Expands-unique :
      {inputs : List Input} {segs : List Segment} {v w : Text}
      → Expands inputs segs v
      → Expands inputs segs w
      → v ≡ w
  Expands-unique nothing nothing = refl
  Expands-unique (char {c} x) (char y) = ap (λ t. c ∷ t) (Expands-unique x y)
  Expands-unique (name_in {u = a} {v = b} m x e) (name_in {u = a'} {v = b'} n y f) =
      sym e ∙ (ap (λ t. t ++ b) (Means-unique m n) ∙ (ap (λ t. a' ++ t) (Expands-unique x y) ∙ f))

-- Every value that evaluation gives is what its name means: a plain secret's own value, or the
-- template with each placeholder replaced by the meaning of its name; and the name means no other.
pub evaluate_secrets_unique :
    (inputs : List Input) (out : Values) (name v : Text)
    → evaluate_secrets inputs ≡ found out
    → value_in out name ≡ some v
    → Means inputs name v × ((w : Text) → Means inputs name w → w ≡ v)
evaluate_secrets_unique inputs out name v e k =
    let m = evaluate_secrets-Means inputs out name v e k in (m, λ w n. Means-unique n m)
