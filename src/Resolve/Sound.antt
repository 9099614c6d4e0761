-- ===== src/Resolve/Sound.antt =====
-- Evaluation gives every secret the value that it means, and none has two meanings.
use hushvault.Base.{
  ℕ, zero, suc, ◌≡◌, refl, sym, ap, ◌∙◌, true, not, Option, none, some, List, [], ◌∷◌, ◌++◌, All,
  Text, same, same_iff, has, ltb, or_else, is_some, inl, inr, Bool-cases, length,
}
use mathlib.Core.List.{append_assoc, append-nil}
use hushvault.Resolve.{
  Input, Segment, literal, placeholder, segments, by_name, Result, found, fault, unreachable,
  Values, value_in, max_value_length, max_reference_depth, is_placeholder_name, append_value, keep,
  expand, compute, resolve_input, or_cached, resolve, then_all, resolve_all, evaluate_secrets,
}
use hushvault.Resolve.Meaning.{Means, Expands, plain, computed, nothing, char, name_in}

pair_of : Result (Values × Text) → Values × Text → Values × Text
pair_of (found p) d = p
pair_of _ d = d

found_pair : (p q : Values × Text) → ◌≡◌ {A = Result (Values × Text)} (found p) (found q) → p ≡ q
unfolding pair_of
found_pair p q e = ap (λ r. pair_of r p) e

module _ (inputs : List Input) where
  abbrev pub IsMeant : Values → Type 0
  IsMeant = All (λ e. Means inputs e.0 e.1)

  value_in-Means :
      (values : Values) (name v : Text)
      → IsMeant values
      → value_in values name ≡ some v
      → Means inputs name v
  unfolding value_in
  value_in-Means [] name v h e = cc
  value_in-Means ((n, u) ∷ rest) name v (m, h) e = elim (Bool-cases (same n name)) [
    | inl hit ↦
        let own : u ≡ v = ap (λ o. or_else o u) (rw hit at e) in
        rw (← own, ← (same_iff n name).0 hit) m
    | inr miss ↦ value_in-Means rest name v h (rw miss at e)
  ]

  -- A resolver is sound if what it finds is meant.
  abbrev pub Sound : (Values → Text → Result (Values × Text)) → Type 0
  Sound self =
      (values : Values) (name : Text) (values' : Values) (v : Text)
      → IsMeant values
      → self values name ≡ found (values', v)
      → IsMeant values' × Means inputs name v

  abbrev Extends : List Segment → Text → Values → Text → Type 0
  Extends segs result values' v =
      (w : Text) × (v ≡ result ++ w) × Expands inputs segs w × IsMeant values'

  module _ (self : Values → Text → Result (Values × Text)) (sound : Sound self) (secret : Text)
      (stack : List Text) where
    append_value-Extends :
        (segs : List Segment) (inner result : Text) (r : Result (Values × Text)) (values' : Values)
        (v : Text)
        → ((vs : Values) (acc : Text)
            → IsMeant vs
            → expand inputs self secret stack segs vs acc ≡ found (values', v)
            → Extends segs acc values' v)
        → ((vs : Values) (u : Text) → r ≡ found (vs, u) → IsMeant vs × Means inputs inner u)
        → append_value (expand inputs self secret stack segs) secret result r ≡ found (values', v)
        → Extends (placeholder inner ∷ segs) result values' v
    unfolding append_value
    append_value-Extends segs inner result (fault x) values' v ih h e = cc
    append_value-Extends segs inner result unreachable values' v ih h e = cc
    append_value-Extends segs inner result (found (vs, u)) values' v ih h e =
        elim (Bool-cases (ltb max_value_length (length (result ++ u)))) [
          | inl big ↦ let q = rw big at e in cc
          | inr fits ↦
              let (m, k) = h vs u refl in
              let (w, p, x, kept) = ih vs (result ++ u) m (rw fits at e) in
              (u ++ w, p ∙ append_assoc result u w, name_in k x refl, kept)
        ]

    expand-Extends :
        (segs : List Segment) (values : Values) (result : Text) (values' : Values) (v : Text)
        → IsMeant values
        → expand inputs self secret stack segs values result ≡ found (values', v)
        → Extends segs result values' v
    unfolding expand
    expand-Extends [] values result values' v m e =
        elim (Bool-cases (ltb max_value_length (length result))) [
          | inl big ↦ let q = rw big at e in cc
          | inr fits ↦
              let p = found_pair (values, result) (values', v) (rw fits at e) in
              (
                [],
                sym (ap (λ (x : Values × Text). x.1) p) ∙ sym (append-nil result),
                nothing,
                rw (← ap (λ (x : Values × Text). x.0) p) m,
              )
        ]
    expand-Extends (literal c ∷ segs) values result values' v m e =
        let (w, p, x, kept) = expand-Extends segs values (result ++ c ∷ []) values' v m e in
        (c ∷ w, p ∙ append_assoc result (c ∷ []) w, char x, kept)
    expand-Extends (placeholder inner ∷ segs) values result values' v m e =
        elim (Bool-cases (not (is_placeholder_name inner))) [
          | inl bad ↦ let q = rw bad at e in cc
          | inr good ↦ elim (Bool-cases (not (is_some (by_name inputs inner)))) [
            | inl absent ↦ let q = rw (good, absent) at e in cc
            | inr there ↦ elim (Bool-cases (has stack inner)) [
              | inl loop ↦ let q = rw (good, there, loop) at e in cc
              | inr new ↦
                  append_value-Extends segs inner result (self values inner) values' v
                    (λ vs acc k q. expand-Extends segs vs acc values' v k q)
                    (λ vs u q. sound values inner vs u m q) (rw (good, there, new) at e)
            ]
          ]
        ]

  abbrev Deeper : Type 0
  Deeper = List Text → Values → Text → Result (Values × Text)

  abbrev SoundIf : Option Deeper → Type 0
  SoundIf none = Unit {0}
  SoundIf (some deeper) = (stack : List Text) → Sound (deeper stack)

  -- What one result says.
  abbrev Says : Text → Result (Values × Text) → Type 0
  Says name r =
      (values' : Values) (v : Text) → r ≡ found (values', v) → IsMeant values' × Means inputs name v

  keep-Says : (name : Text) (r : Result (Values × Text)) → Says name r → Says name (keep name r)
  unfolding keep
  keep-Says name (fault x) h values' v e = cc
  keep-Says name unreachable h values' v e = cc
  keep-Says name (found (vs, u)) h values' v e =
      let p = found_pair ((name, u) ∷ vs, u) (values', v) e in
      let (m, k) = h vs u refl in
      (rw (← ap (λ (x : Values × Text). x.0) p) (k, m), rw (← ap (λ (x : Values × Text). x.1) p) k)

  compute-Says :
      (deeper : Option Deeper) (stack : List Text) (i : Input) (name : Text) (values : Values)
      → SoundIf deeper
      → by_name inputs name ≡ some i
      → i.is_computed ≡ true
      → IsMeant values
      → Says name (compute inputs deeper stack i name values)
  unfolding compute
  compute-Says none stack i name values s b c m = λ values' v e.
      elim (Bool-cases (has stack name)) [
        | inl loop ↦ let q = rw loop at e in cc
        | inr new ↦ let q = rw new at e in cc
      ]
  compute-Says (some deeper) stack i name values s b c m = elim (Bool-cases (has stack name)) [
    | inl loop ↦ λ values' v e. let q = rw loop at e in cc
    | inr new ↦ rw new (
        keep-Says name _ (λ values' v e.
          let (w, p, x, kept) =
            expand-Extends (deeper (name ∷ stack)) (s (name ∷ stack)) name (name ∷ stack)
              (segments i.template) values [] values' v m e in
          (kept, computed i b c {v = v} (rw p x))))
  ]

  resolve_input-Says :
      (deeper : Option Deeper) (stack : List Text) (o : Option Input) (name : Text)
      (values : Values)
      → SoundIf deeper
      → by_name inputs name ≡ o
      → IsMeant values
      → Says name (resolve_input inputs deeper stack o name values)
  unfolding resolve_input
  resolve_input-Says deeper stack none name values s b m = λ values' v e. cc
  resolve_input-Says deeper stack (some i) name values s b m = elim (Bool-cases i.is_computed) [
    | inl c ↦ simp c (compute-Says deeper stack i name values s b c m)
    | inr p ↦ simp p (λ values' v e.
        let own : Means inputs name i.value = plain i b p refl in
        let q = found_pair ((name, i.value) ∷ values, i.value) (values', v) e in
        (
          rw (← ap (λ (x : Values × Text). x.0) q) (own, m),
          rw (← ap (λ (x : Values × Text). x.1) q) own,
        ))
  ]

  or_cached-Says :
      (o : Option Text) (name : Text) (values : Values) (r : Result (Values × Text))
      → value_in values name ≡ o
      → IsMeant values
      → Says name r
      → Says name (or_cached inputs o values r)
  unfolding or_cached
  or_cached-Says none name values r c m h = h
  or_cached-Says (some u) name values r c m h = λ values' v e.
      let q = found_pair (values, u) (values', v) e in
      (
        rw (← ap (λ (x : Values × Text). x.0) q) m,
        rw (← ap (λ (x : Values × Text). x.1) q) (value_in-Means values name u m c),
      )

  resolve-Sound : (room : ℕ) (stack : List Text) → Sound (resolve inputs room stack)
  unfolding resolve
  resolve-Sound zero stack values name values' v m e =
      or_cached-Says (value_in values name) name values _ refl m
        (resolve_input-Says none stack (by_name inputs name) name values tt refl m) values' v e
  resolve-Sound (suc room) stack values name values' v m e =
      or_cached-Says (value_in values name) name values _ refl m
        (resolve_input-Says (some (resolve inputs room)) stack (by_name inputs name) name values
          (λ st. resolve-Sound room st) refl m)
        values' v e

  then_all-IsMeant :
      (rest : Values → Result Values) (r : Result (Values × Text)) (out : Values)
      → ((vs : Values) → IsMeant vs → rest vs ≡ found out → IsMeant out)
      → ((vs : Values) (v : Text) → r ≡ found (vs, v) → IsMeant vs)
      → then_all inputs rest r ≡ found out
      → IsMeant out
  unfolding then_all
  then_all-IsMeant rest (fault x) out h k e = cc
  then_all-IsMeant rest unreachable out h k e = cc
  then_all-IsMeant rest (found (vs, v)) out h k e = h vs (k vs v refl) e

  resolve_all-IsMeant :
      (todo : List Input) (values out : Values)
      → IsMeant values
      → resolve_all inputs todo values ≡ found out
      → IsMeant out
  unfolding resolve_all
  resolve_all-IsMeant [] values out m e =
      let own : values ≡ out = ap (λ r. of r values) e in rw (← own) m
    where
      of : Result Values → Values → Values
      of (found a) d = a
      of _ d = d
  resolve_all-IsMeant (s ∷ rest) values out m e =
      then_all-IsMeant (resolve_all inputs rest)
        (resolve inputs max_reference_depth [] values s.name) out
        (λ vs k q. resolve_all-IsMeant rest vs out k q)
        (λ vs v q. (resolve-Sound max_reference_depth [] values s.name vs v m q).0) e

  -- Every value that evaluation gives is one that its name means.
  pub evaluate_secrets-Means :
      (out : Values) (name v : Text)
      → evaluate_secrets inputs ≡ found out
      → value_in out name ≡ some v
      → Means inputs name v
  unfolding evaluate_secrets
  evaluate_secrets-Means out name v e =
      value_in-Means out name v (resolve_all-IsMeant inputs [] out tt e)
