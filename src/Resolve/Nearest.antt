-- ===== src/Resolve/Nearest.antt =====
-- Of the secrets of one name along the chain, the one nearest to the environment wins.
use hushvault.Base.{
  ◌≡◌, refl, sym, ap, ◌∙◌, Bool, true, false, Option, none, some, List, [], ◌∷◌, ◌++◌, filter, find,
  Text, same, same_iff, less, if◌then◌else◌, arith, inl, inr, Bool-cases,
}
use hushvault.Resolve.Inherit.{
  SecretRow, ranked, set_row, set_rows, insert_row, by_row_name, merged_rows, selected_rows,
}

abbrev pub row_for : List SecretRow → Text → Option SecretRow
row_for rows name = find (λ r. same r.name name) rows

abbrev pub or_row : Option SecretRow → Option SecretRow → Option SecretRow
or_row none o = o
or_row (some r) o = some r

-- The last row of a name.
abbrev pub last_of : List SecretRow → Text → Option SecretRow
last_of [] name = none
last_of (r ∷ rs) name = or_row (last_of rs name) (if same r.name name then some r else none)

-- The row of the nearest environment that has the name; the chain ends in the environment itself.
abbrev pub nearest : List Text → List SecretRow → Text → Option SecretRow
nearest [] rows name = none
nearest (e ∷ chain) rows name =
    or_row (nearest chain rows name) (last_of (filter (λ r. same r.env_id e) rows) name)

or_row_assoc : (a b c : Option SecretRow) → or_row (or_row a b) c ≡ or_row a (or_row b c)
or_row_assoc none b c = refl
or_row_assoc (some r) b c = refl

or_row-none : (a : Option SecretRow) → or_row a none ≡ a
or_row-none none = refl
or_row-none (some r) = refl

last_of-append :
    (xs ys : List SecretRow) (name : Text)
    → last_of (xs ++ ys) name ≡ or_row (last_of ys name) (last_of xs name)
last_of-append [] ys name = sym (or_row-none (last_of ys name))
last_of-append (x ∷ xs) ys name =
    ap (λ o. or_row o (if same x.name name then some x else none)) (last_of-append xs ys name)
    ∙ or_row_assoc (last_of ys name) (last_of xs name) (if same x.name name then some x else none)

last_of-ranked :
    (chain : List Text) (rows : List SecretRow) (name : Text)
    → last_of (ranked chain rows) name ≡ nearest chain rows name
unfolding ranked
last_of-ranked [] rows name = refl
last_of-ranked (e ∷ chain) rows name =
    last_of-append (filter (λ r. same r.env_id e) rows) (ranked chain rows) name
    ∙ ap (λ o. or_row o (last_of (filter (λ r. same r.env_id e) rows) name))
        (last_of-ranked chain rows name)

same-differs : (a b n : Text) → same a b ≡ false → same a n ≡ true → same b n ≡ false
same-differs a b n m o = elim (Bool-cases (same b n)) [
  | inr d ↦ d
  | inl c ↦
      absurd (ground (arith, (same_iff a b).1 ((same_iff a n).0 o ∙ sym ((same_iff b n).0 c))))
]

row_for-set_row :
    (row : SecretRow) (rs : List SecretRow) (name : Text)
    → row_for (set_row row rs) name ≡ (if same row.name name then some row else row_for rs name)
unfolding set_row
row_for-set_row row [] name = refl
row_for-set_row row (r ∷ rs) name = elim (Bool-cases (same r.name row.name)) [
  | inl hit ↦ rw hit (rw ((same_iff r.name row.name).0 hit) (ground arith))
  | inr miss ↦ elim (Bool-cases (same r.name name)) [
    | inl own ↦
        let other : same row.name name ≡ false = same-differs r.name row.name name miss own in
        rw (miss, own, other) refl
    | inr new ↦ rw (miss, new) (row_for-set_row row rs name)
  ]
]

row_for-set_rows :
    (rows merged : List SecretRow) (name : Text)
    → row_for (set_rows rows merged) name ≡ or_row (last_of rows name) (row_for merged name)
unfolding set_rows
row_for-set_rows [] merged name = refl
row_for-set_rows (r ∷ rows) merged name =
    row_for-set_rows rows (set_row r merged) name
    ∙ (ap (λ o. or_row (last_of rows name) o)
          (row_for-set_row r merged name ∙ split (same r.name name) r (row_for merged name))
        ∙ sym (
            or_row_assoc (last_of rows name) (if same r.name name then some r else none)
              (row_for merged name)))
  where
    split :
        (b : Bool) (r : SecretRow) (o : Option SecretRow)
        → (if b then some r else o) ≡ or_row (if b then some r else none) o
    split true r o = refl
    split false r o = refl

less_irrefl : (s : Text) → less s s ≡ false
unfolding less
less_irrefl [] = refl
less_irrefl (c ∷ s) = ground (arith, less_irrefl s)

less-differs : (s t : Text) → less s t ≡ true → same s t ≡ false
less-differs s t h = elim (Bool-cases (same s t)) [
  | inr d ↦ d
  | inl c ↦
      let e = ap (λ x. less x t) ((same_iff s t).0 c) in absurd (ground (arith, less_irrefl t, e))
]

row_for-insert_row :
    (row : SecretRow) (rs : List SecretRow) (name : Text)
    → row_for (insert_row row rs) name ≡ (if same row.name name then some row else row_for rs name)
unfolding insert_row
row_for-insert_row row [] name = refl
row_for-insert_row row (r ∷ rs) name = elim (Bool-cases (less r.name row.name)) [
  | inr stop ↦ rw stop refl
  | inl go ↦ elim (Bool-cases (same r.name name)) [
    | inr new ↦ rw (go, new) (row_for-insert_row row rs name)
    | inl own ↦
        let other : same r.name row.name ≡ false = less-differs r.name row.name go in
        rw (go, own, same-differs r.name row.name name other own) refl
  ]
]

row_for-by_row_name :
    (rs : List SecretRow) (name : Text) → row_for (by_row_name rs) name ≡ row_for rs name
unfolding by_row_name
row_for-by_row_name [] name = refl
row_for-by_row_name (r ∷ rs) name =
    row_for-insert_row r (by_row_name rs) name
    ∙ ap (λ o. if same r.name name then some r else o) (row_for-by_row_name rs name)

-- The secret that is selected for a name is that of the nearest environment on the chain that has
-- one in the project; and a name that none of them has is not selected.
pub row_for-selected_rows :
    (project : Text) (chain : List Text) (rows : List SecretRow) (name : Text)
    → row_for (selected_rows project chain rows) name
      ≡ nearest chain (filter (λ r. same r.project project) rows) name
unfolding selected_rows merged_rows
row_for-selected_rows project chain rows name =
    let mine = filter (λ r. same r.project project) rows in
    row_for-by_row_name (set_rows (ranked chain mine) []) name
    ∙ (row_for-set_rows (ranked chain mine) [] name
        ∙ (or_row-none (last_of (ranked chain mine) name) ∙ last_of-ranked chain mine name))
