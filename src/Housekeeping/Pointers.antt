-- ===== src/Housekeeping/Pointers.antt =====
-- The pointers that a sweep reads, chunk by chunk, are those of the table.
use hushvault.Base.{
  ℕ, ◌≡◌, refl, sym, ap, ◌∙◌, true, false, Option, none, some, List, [], ◌∷◌, ◌++◌, map, Text, same,
  same_iff, has, has-append, filter, chunked, concat, concat-chunked, arith, inl, inr, ◌⊎◌,
  Bool-cases, Option-cases,
}
use hushvault.Housekeeping.Orphans.{
  Pointer, ParsedKey, distinct_from, pointer_of, read_pointers, page_pointers, is_covered,
  is_referenced,
}

pointer_of-hit :
    (p : Pointer) (ps : List Pointer) (id : Text)
    → same p.id id ≡ true
    → pointer_of (p ∷ ps) id ≡ some p.blob_rev
unfolding pointer_of
pointer_of-hit p ps id h = rw h refl

pointer_of-miss :
    (p : Pointer) (ps : List Pointer) (id : Text)
    → same p.id id ≡ false
    → pointer_of (p ∷ ps) id ≡ pointer_of ps id
unfolding pointer_of
pointer_of-miss p ps id h = rw h refl

abbrev first_of : Option ℕ → Option ℕ → Option ℕ
first_of none b = b
first_of (some a) b = some a

pointer_of-append :
    (ps qs : List Pointer) (id : Text)
    → pointer_of (ps ++ qs) id ≡ first_of (pointer_of ps id) (pointer_of qs id)
pointer_of-append [] qs id = unfold pointer_of in refl
pointer_of-append (p ∷ ps) qs id =
    let ih = pointer_of-append ps qs id in
    elim (Bool-cases (same p.id id)) [
      | inl h ↦ rw (pointer_of-hit p (ps ++ qs) id h, pointer_of-hit p ps id h) refl
      | inr h ↦ rw (pointer_of-miss p (ps ++ qs) id h, pointer_of-miss p ps id h) ih
    ]

-- Two texts that a set tells apart differ.
has_apart : (ids : List Text) (s t : Text) → has ids s ≡ true → has ids t ≡ false → same s t ≡ false
has_apart ids s t h k = elim (Bool-cases (same s t)) [
  | inl e ↦ absurd (ground (arith, sym h ∙ (ap (has ids) ((same_iff s t).0 e) ∙ k)))
  | inr e ↦ e
]

pointer_of-filter-other :
    (ids : List Text) (secrets : List Pointer) (id : Text)
    → has ids id ≡ false
    → pointer_of (filter (λ p. has ids p.id) secrets) id ≡ none
pointer_of-filter-other ids [] id h = unfold pointer_of in refl
pointer_of-filter-other ids (p ∷ ps) id h =
    let ih = pointer_of-filter-other ids ps id h in
    elim (Bool-cases (has ids p.id)) [
      | inl e ↦
          rw e
            (pointer_of-miss p (filter (λ p. has ids p.id) ps) id (has_apart ids p.id id e h) ∙ ih)
      | inr e ↦ rw e ih
    ]

pointer_of-filter-has :
    (ids : List Text) (secrets : List Pointer) (id : Text)
    → has ids id ≡ true
    → pointer_of (filter (λ p. has ids p.id) secrets) id ≡ pointer_of secrets id
pointer_of-filter-has ids [] id h = refl
pointer_of-filter-has ids (p ∷ ps) id h =
    let ih = pointer_of-filter-has ids ps id h in
    elim (Bool-cases (same p.id id)) [
      | inl e ↦
          let asked : has ids p.id ≡ true = ap (has ids) ((same_iff p.id id).0 e) ∙ h in
          rw asked
            (pointer_of-hit p (filter (λ p. has ids p.id) ps) id e ∙ sym (pointer_of-hit p ps id e))
      | inr e ↦ elim (Bool-cases (has ids p.id)) [
        | inl asked ↦ rw asked (
            pointer_of-miss p (filter (λ p. has ids p.id) ps) id e
            ∙ (ih ∙ sym (pointer_of-miss p ps id e)))
        | inr spared ↦ rw spared (ih ∙ sym (pointer_of-miss p ps id e))
      ]
    ]

has-distinct_from :
    (seen ts : List Text) (t : Text)
    → has ts t ≡ true
    → has seen t ≡ false
    → has (distinct_from seen ts) t ≡ true
unfolding distinct_from has
has-distinct_from seen [] t h k = h
has-distinct_from seen (u ∷ ts) t h k =
    let rest = has-distinct_from seen ts t in
    let more = has-distinct_from (u ∷ seen) ts t in
    elim (Bool-cases (has seen u)) [
      | inl old ↦
          let differ = has_apart seen u t old k in rw old (rest (ground (arith, differ, h)) k)
      | inr new ↦ elim (Bool-cases (same u t)) [
        | inl e ↦ rw new (ground (arith, e))
        | inr e ↦ rw new (
            let deep = more (ground (arith, e, h)) (ground (arith, e, k)) in
            ground (arith, e, deep))
      ]
    ]

module _ (secrets : List Pointer) (id : Text) where
  -- A pointer is right, or not asked for yet and among the ids to come.
  abbrev IsRight : (later : List Text) → List Pointer → Type 0
  IsRight later pointers =
      (pointer_of pointers id ≡ pointer_of secrets id)
      ⊎ ((has later id ≡ true) × (pointer_of pointers id ≡ none))

  abbrev asked_rows : List Text → List Pointer
  asked_rows ids = filter (λ p. has ids p.id) secrets

  found-IsRight :
      (ids later : List Text) (pointers : List Pointer) (rev : ℕ)
      → pointer_of pointers id ≡ some rev
      → IsRight (ids ++ later) pointers
      → IsRight later (pointers ++ asked_rows ids)
  found-IsRight ids later pointers rev e (inl h) = inl (
      pointer_of-append pointers (asked_rows ids) id
      ∙ (ap (λ o. first_of o (pointer_of (asked_rows ids) id)) e ∙ (sym e ∙ h)))
  found-IsRight ids later pointers rev e (inr (_, h)) = absurd (nothing (sym h ∙ e))
    where
      nothing : ◌≡◌ {A = Option ℕ} none (some rev) → ⊥
      nothing e = cc

  unfound-IsRight :
      (ids later : List Text) (pointers : List Pointer)
      → pointer_of pointers id ≡ none
      → IsRight (ids ++ later) pointers
      → IsRight later (pointers ++ asked_rows ids)
  unfound-IsRight ids later pointers e h =
      let now =
        pointer_of-append pointers (asked_rows ids) id
        ∙ ap (λ o. first_of o (pointer_of (asked_rows ids) id)) e in
      elim (Bool-cases (has ids id)) [
        | inl asked ↦ inl (now ∙ pointer_of-filter-has ids secrets id asked)
        | inr spared ↦
            let none_yet = now ∙ pointer_of-filter-other ids secrets id spared in
            elim h [
              | inl right ↦ inl (none_yet ∙ (sym e ∙ right))
              | inr (among, _) ↦
                  inr (ground (arith, has-append ids later id, among, spared), none_yet)
            ]
      ]

  step-IsRight :
      (ids later : List Text) (pointers : List Pointer)
      → IsRight (ids ++ later) pointers
      → IsRight later (pointers ++ asked_rows ids)
  step-IsRight ids later pointers h = elim (Option-cases (pointer_of pointers id)) [
    | inl e ↦ unfound-IsRight ids later pointers e h
    | inr (rev, e) ↦ found-IsRight ids later pointers rev e h
  ]

  read_pointers_lem :
      (chunks : List (List Text)) (pointers : List Pointer)
      → IsRight (concat chunks) pointers
      → pointer_of (read_pointers secrets chunks pointers) id ≡ pointer_of secrets id
  unfolding read_pointers has
  read_pointers_lem [] pointers (inl h) = h
  read_pointers_lem [] pointers (inr (h, k)) = absurd (ground (arith, h))
  read_pointers_lem (ids ∷ chunks) pointers h =
      read_pointers_lem chunks (pointers ++ asked_rows ids)
        (step-IsRight ids (concat chunks) pointers h)

  page_pointers_lem :
      (parsed : List ParsedKey)
      → has (map (λ e. e.secret_id) parsed) id ≡ true
      → pointer_of (page_pointers secrets parsed) id ≡ pointer_of secrets id
  unfolding page_pointers
  page_pointers_lem parsed h =
      let ids = distinct_from [] (map (λ e. e.secret_id) parsed) in
      let wanted : has (concat (chunked 90 ids)) id ≡ true =
        ap (λ ks. has ks id) (concat-chunked 89 ids)
        ∙ has-distinct_from [] (map (λ e. e.secret_id) parsed) id h (unfold has in refl) in
      read_pointers_lem (chunked 90 ids) [] (inr (wanted, unfold pointer_of in refl))

-- What a sweep takes for referenced is what the table covers.
pub is_referenced-page_pointers :
    (secrets : List Pointer) (parsed : List ParsedKey) (e : ParsedKey)
    → has (map (λ e. e.secret_id) parsed) e.secret_id ≡ true
    → is_referenced (page_pointers secrets parsed) e ≡ is_referenced secrets e
unfolding is_referenced
is_referenced-page_pointers secrets parsed e h =
    ap (λ o. is_covered o e.rev) (page_pointers_lem secrets e.secret_id parsed h)
