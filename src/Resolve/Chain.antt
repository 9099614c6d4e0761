-- ===== src/Resolve/Chain.antt =====
-- The chain of an environment: ended, linked and bounded.
use hushvault.Base.{
  ℕ, zero, suc, ◌+◌, ◌≤◌, ◌≡◌, refl, ap, false, ◌&&◌, Option, none, some, List, [], ◌∷◌, find,
  length, Text, same, same_iff, has, or_else, arith, inl, inr, Bool-cases,
}
use hushvault.Resolve.Inherit.{
  Environment, env_in, parent_of, climb_to, climb, chain_of, max_inheritance_depth,
}

module _ (envs : List Environment) (project : Text) where
  -- `p` is the parent of the first of these environments, and each one's parent is the one before it.
  pub Linked : (self : Environment) → Option Text → List Text → Type 0
  Linked self p [] = ⊥
  Linked self p (x ∷ []) = (x ≡ self.env) × (parent_of self.parent_env_id ≡ p)
  Linked self p (x ∷ y ∷ rest) =
      ((e : Environment) × (env_in envs project x ≡ some e) × (parent_of e.parent_env_id ≡ p))
      × Linked self (some x) (y ∷ rest)

  pub Distinct : List Text → Type 0
  Distinct [] = Unit {0}
  Distinct (x ∷ xs) = (has xs x ≡ false) × Distinct xs

  Linked-cons :
      (self e : Environment) (p : Text) (chain : List Text)
      → e.env ≡ p
      → env_in envs project p ≡ some e
      → Linked self (some p) chain
      → Linked self (parent_of e.parent_env_id) (e.env ∷ chain)
  unfolding Linked
  Linked-cons self e p [] i q h = elim h [ ]
  Linked-cons self e p (x ∷ rest) i q h = ((e, simp i q, refl), simp i h)

  found_id : (p : Text) (e : Environment) → env_in envs project p ≡ some e → e.env ≡ p
  unfolding env_in
  found_id p e q = in_list envs q
    where
      in_list :
          (es : List Environment)
          → find (λ d. same d.env p && same d.project_id project) es ≡ some e
          → e.env ≡ p
      in_list [] q = cc
      in_list (d ∷ ds) q = elim (Bool-cases (same d.env p && same d.project_id project)) [
        | inr miss ↦ in_list ds (rw miss at q)
        | inl hit ↦
            let own : d ≡ e = ap (λ o. or_else o d) (rw hit at q) in
            rw (← own) ((same_iff d.env p).0 (ground (arith, hit)))
      ]

  -- What the climb keeps, and how long the chain gets.
  pub record IsClimbed (self : Environment) (p : Option Text) (limit : ℕ) (chain : List Text)
      : Type 0 where
    pub linked : Linked self p chain
    pub distinct : Distinct chain
    pub bounded : length chain ≤ limit

  stepped :
      (self : Environment) (room limit : ℕ) (chain : List Text) (p : Text) (out : List Text)
      → IsClimbed self (some p) limit chain
      → has chain p ≡ false
      → ((chain' : List Text) (p' : Option Text)
          → IsClimbed self p' (suc limit) chain'
          → climb envs room project chain' p' ≡ some out
          → IsClimbed self none (suc limit + room) out)
      → (o : Option Environment) → env_in envs project p ≡ o
      → climb_to envs (climb envs room project) chain o ≡ some out
      → IsClimbed self none (suc limit + room) out
  unfolding climb_to Distinct
  stepped self room limit chain p out h new ih none q e = cc
  stepped self room limit chain p out h new ih (some g) q e =
      let id = found_id p g q in
      ih (g.env ∷ chain) (parent_of g.parent_env_id)
        (record {
          linked = Linked-cons self g p chain id q h.linked;
          distinct = (rw id new, h.distinct);
          bounded = omega (arith, h.bounded);
        })
        e

  climbed :
      (self : Environment) (room limit : ℕ) (chain : List Text) (p : Option Text) (out : List Text)
      → IsClimbed self p limit chain
      → climb envs room project chain p ≡ some out
      → IsClimbed self none (limit + room) out
  unfolding climb
  climbed self room limit chain none out h e =
      let own : chain ≡ out = ap (λ o. or_else o chain) e in
      rw (← own)
        (record { linked = h.linked; distinct = h.distinct; bounded = omega (arith, h.bounded) })
  climbed self zero limit chain (some p) out h e = cc
  climbed self (suc room) limit chain (some p) out h e = elim (Bool-cases (has chain p)) [
    | inl loop ↦ let q = rw loop at e in cc
    | inr new ↦
        let all =
          stepped self room limit chain p out h new
            (λ c r k q. climbed self room (suc limit) c r out k q) (env_in envs project p) refl
            (rw new at e) in
        record {
          linked = all.linked;
          distinct = all.distinct;
          bounded = omega (arith, all.bounded);
        }
  ]

-- A chain that is found is the environment behind its ancestors: each one's parent is the one before
-- it, the first has none, all but the environment itself are of its project, none comes twice, and
-- there are at most eleven.
pub chain_of-IsClimbed :
    (envs : List Environment) (self : Environment) (chain : List Text)
    → chain_of envs self ≡ some chain
    → IsClimbed envs self.project_id self none 11 chain
unfolding chain_of Linked Distinct has
chain_of-IsClimbed envs self chain e =
    climbed envs self.project_id self max_inheritance_depth 1 (self.env ∷ [])
      (parent_of self.parent_env_id) chain
      (record { linked = (refl, refl); distinct = (refl, tt); bounded = omega arith }) e
