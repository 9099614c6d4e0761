-- ===== src/Housekeeping/Doomed.antt =====
-- Which keys a sweep dooms: those whose first sighting is old, and no more than the budget.
use hushvault.Base.{
  ℕ, suc, ◌+◌, ◌-◌, ◌≤◌, ◌≡◌, refl, sym, ap, ◌∙◌, Bool, true, false, not, ◌&&◌, ◌||◌, List, [], ◌∷◌,
  ◌++◌, map, Text, same, same_refl, has, has-append, leb, ltb, if◌then◌else◌, length, length-append,
  length-take, take, filter, any, chunked, concat, concat-chunked, All, All-append, All-take, arith,
  inl, inr, Bool-cases,
}
use hushvault.Housekeeping.Orphans.{
  Candidate, delete_chunks, delete_candidates, record_sighting, record_batch, record_sightings,
  seen_candidates, insert_by_age, order_by_age, is_aged, aged, doomed_from, doomed_keys,
  orphan_grace_ms, orphan_delete_per_tick, d1_bind_chunk,
}

pub All-filter_passing {ℓ κ} :
    {A : Type ℓ} (P : A → Type κ) (p : A → Bool) (xs : List A)
    → All (λ x. p x ≡ true → P x) xs
    → All P (filter p xs)
All-filter_passing P p [] h = tt
All-filter_passing P p (x ∷ xs) (f, h) =
    let rest = All-filter_passing P p xs h in
    elim (Bool-cases (p x)) [ inl e ↦ rw e (f e, rest) | inr e ↦ rw e rest ]

any-filter {ℓ} :
    {A : Type ℓ} (t p : A → Bool) (xs : List A) → any t (filter p xs) ≡ true → any t xs ≡ true
any-filter t p [] h = h
any-filter t p (x ∷ xs) h = ground (arith, any-filter t p xs, h)

any-append {ℓ} :
    {A : Type ℓ} (t : A → Bool) (xs ys : List A) → any t (xs ++ ys) ≡ (any t xs || any t ys)
any-append t [] ys = refl
any-append t (x ∷ xs) ys = ground (arith, any-append t xs ys)

-- Whether a row says that a key was first seen long enough ago.
abbrev pub is_old : (now : ℕ) → (key : Text) → Candidate → Bool
is_old now key c = same c.kv_key key && leb (c.first_seen_at + orphan_grace_ms) now

module _ (now : ℕ) (key : Text) where
  any-delete_chunks :
      (chunks : List (List Text)) (cs : List Candidate)
      → any (is_old now key) (delete_chunks chunks cs) ≡ true
      → any (is_old now key) cs ≡ true
  unfolding delete_chunks
  any-delete_chunks [] cs h = h
  any-delete_chunks (keys ∷ chunks) cs h =
      any-filter (is_old now key) (λ c. not (has keys c.kv_key)) cs
        (any-delete_chunks chunks (filter (λ c. not (has keys c.kv_key)) cs) h)

  -- A sighting of this tick is not old yet.
  any-record_sighting :
      (k : Text) (cs : List Candidate)
      → any (is_old now key) (record_sighting now k cs) ≡ true
      → any (is_old now key) cs ≡ true
  unfolding record_sighting
  any-record_sighting k cs h =
      let fresh : Candidate = record { kv_key = k; first_seen_at = now } in
      let recorded : Bool → List Candidate = λ b. if b then cs else cs ++ fresh ∷ [] in
      elim (Bool-cases (any (λ c. same c.kv_key k) cs)) [
        | inl known ↦ ap (λ b. any (is_old now key) (recorded b)) (sym known) ∙ h
        | inr new ↦
            let added : any (is_old now key) (cs ++ fresh ∷ []) ≡ true =
              ap (λ b. any (is_old now key) (recorded b)) (sym new) ∙ h in
            let young : leb (now + 3600000) now ≡ false = ground arith in
            ground (arith, any-append (is_old now key) cs (fresh ∷ []), added, young)
      ]

  any-record_batch :
      (keys : List Text) (cs : List Candidate)
      → any (is_old now key) (record_batch now keys cs) ≡ true
      → any (is_old now key) cs ≡ true
  unfolding record_batch
  any-record_batch [] cs h = h
  any-record_batch (k ∷ keys) cs h =
      any-record_sighting k cs (any-record_batch keys (record_sighting now k cs) h)

  any-record_sightings :
      (chunks : List (List Text)) (cs : List Candidate)
      → any (is_old now key) (record_sightings now chunks cs) ≡ true
      → any (is_old now key) cs ≡ true
  unfolding record_sightings
  any-record_sightings [] cs h = h
  any-record_sightings (keys ∷ chunks) cs h =
      any-record_batch keys cs (any-record_sightings chunks (record_batch now keys cs) h)

  -- A key that counts as old once the page was looked at was recorded by an earlier tick.
  pub any-seen_candidates :
      (referenced unreferenced : List Text) (cs : List Candidate)
      → any (is_old now key) (seen_candidates now referenced unreferenced cs) ≡ true
      → any (is_old now key) cs ≡ true
  unfolding seen_candidates delete_candidates
  any-seen_candidates referenced unreferenced cs h =
      any-delete_chunks (chunked d1_bind_chunk referenced) cs (
        any-record_sightings (chunked d1_bind_chunk unreferenced)
          (delete_chunks (chunked d1_bind_chunk referenced) cs) h)

module _ {ℓ} (P : Candidate → Type ℓ) where
  All-insert_by_age :
      (c : Candidate) (cs : List Candidate) → P c → All P cs → All P (insert_by_age c cs)
  unfolding insert_by_age
  All-insert_by_age c [] p h = (p, tt)
  All-insert_by_age c (d ∷ ds) p (q, h) =
      let later = All-insert_by_age c ds p h in
      elim (Bool-cases (ltb d.first_seen_at c.first_seen_at)) [
        | inl e ↦ rw e (q, later)
        | inr e ↦ rw e (p, (q, h))
      ]

  All-order_by_age : (cs : List Candidate) → All P cs → All P (order_by_age cs)
  unfolding order_by_age
  All-order_by_age [] h = tt
  All-order_by_age (c ∷ cs) (p, h) = All-insert_by_age c (order_by_age cs) p (All-order_by_age cs h)

  All-of_any :
      (cs : List Candidate)
      → ((c : Candidate) → ((t : Candidate → Bool) → t c ≡ true → any t cs ≡ true) → P c)
      → All P cs
  All-of_any [] f = tt
  All-of_any (c ∷ cs) f =
      (f c (λ t h. ground (arith, h)), All-of_any cs (λ d g. f d (λ t h. ground (arith, g t h))))

All-map_key :
    (P : Text → Type 0) (cs : List Candidate)
    → All (λ c. P c.kv_key) cs
    → All P (map (λ c. c.kv_key) cs)
All-map_key P [] h = tt
All-map_key P (c ∷ cs) (p, h) = (p, All-map_key P cs h)

length-map_key : (cs : List Candidate) → length (map (λ c. c.kv_key) cs) ≡ length cs
length-map_key [] = refl
length-map_key (c ∷ cs) = ap suc (length-map_key cs)

module _ (now : ℕ) (cs : List Candidate) (unreferenced : List Text) where
  -- A key is among the unreferenced ones and has an old row.
  abbrev pub IsDoomed : Text → Type 0
  IsDoomed key = (has unreferenced key ≡ true) × (any (is_old now key) cs ≡ true)

  abbrev AreUnreferenced : List Text → Type 0
  AreUnreferenced keys = (key : Text) → has keys key ≡ true → has unreferenced key ≡ true

  aged-IsDoomed :
      (keys : List Text) (budget : ℕ)
      → AreUnreferenced keys
      → All IsDoomed (aged now keys budget cs)
  unfolding aged is_aged
  aged-IsDoomed keys budget among =
      let Row : Candidate → Type 0 = λ c. IsDoomed c.kv_key in
      let found = filter (is_aged now keys) cs in
      let each : All (λ c. is_aged now keys c ≡ true → Row c) cs =
        All-of_any (λ c. is_aged now keys c ≡ true → Row c) cs
          (λ c among_rows e. (
            among c.kv_key (ground (arith, e)),
            among_rows (is_old now c.kv_key) (ground (arith, e, same_refl c.kv_key)),
          )) in
      All-map_key IsDoomed (take budget (order_by_age found)) (
        All-take Row budget (order_by_age found)
          (All-order_by_age Row found (All-filter_passing Row (is_aged now keys) cs each)))

  doomed_from-IsDoomed :
      (chunks : List (List Text)) (doomed : List Text)
      → AreUnreferenced (concat chunks)
      → All IsDoomed doomed
      → All IsDoomed (doomed_from now cs chunks doomed)
  unfolding doomed_from
  doomed_from-IsDoomed [] doomed among h = h
  doomed_from-IsDoomed (keys ∷ chunks) doomed among h =
      let found = aged now keys (orphan_delete_per_tick - length doomed) cs in
      let found-IsDoomed =
        aged-IsDoomed keys (orphan_delete_per_tick - length doomed)
          (λ k e. among k (ground (arith, has-append keys (concat chunks) k, e))) in
      let rest =
        doomed_from-IsDoomed chunks (doomed ++ found)
          (λ k e. among k (ground (arith, has-append keys (concat chunks) k, e)))
          (All-append IsDoomed doomed found h found-IsDoomed) in
      elim (Bool-cases (leb orphan_delete_per_tick (length doomed))) [
        | inl full ↦ rw full h
        | inr room ↦ rw room rest
      ]

  pub doomed_keys-IsDoomed : All IsDoomed (doomed_keys now cs unreferenced)
  unfolding doomed_keys
  doomed_keys-IsDoomed =
      doomed_from-IsDoomed (chunked 90 unreferenced) []
        (λ k e. sym (ap (λ ks. has ks k) (concat-chunked 89 unreferenced)) ∙ e) tt

  length-aged-le : (keys : List Text) (budget : ℕ) → length (aged now keys budget cs) ≤ budget
  unfolding aged
  length-aged-le keys budget =
      let rows = order_by_age (filter (is_aged now keys) cs) in
      omega (arith, length-map_key (take budget rows), length-take budget rows)

  length-doomed_from-le :
      (chunks : List (List Text)) (doomed : List Text)
      → length doomed ≤ orphan_delete_per_tick
      → length (doomed_from now cs chunks doomed) ≤ orphan_delete_per_tick
  unfolding doomed_from
  length-doomed_from-le [] doomed h = h
  length-doomed_from-le (keys ∷ chunks) doomed h =
      let found = aged now keys (orphan_delete_per_tick - length doomed) cs in
      let fits = length-aged-le keys (orphan_delete_per_tick - length doomed) in
      let rest =
        length-doomed_from-le chunks (doomed ++ found)
          (omega (arith, length-append doomed found, fits, h)) in
      elim (Bool-cases (leb orphan_delete_per_tick (length doomed))) [
        | inl full ↦ rw full h
        | inr room ↦ rw room rest
      ]

  pub length-doomed_keys-le : length (doomed_keys now cs unreferenced) ≤ orphan_delete_per_tick
  unfolding doomed_keys
  length-doomed_keys-le =
      length-doomed_from-le (chunked d1_bind_chunk unreferenced) [] (omega arith)
