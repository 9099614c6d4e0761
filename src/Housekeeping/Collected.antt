-- ===== src/Housekeeping/Collected.antt =====
-- Which encrypted values a sweep may delete, and how many.
use hushvault.Base.{
  ℕ, ◌+◌, ◌≤◌, ◌≡◌, refl, sym, ap, ◌∙◌, Bool, true, false, not, ◌&&◌, Option, none, some, List, [],
  ◌∷◌, map, Text, same, same_iff, same_refl, has, has-append, length, length-append,
  length-filter-le, filter, any, chunked, concat, concat-chunked, All, All-append, arith, inl, inr,
  Bool-cases,
}
use mathlib.Core.Path.{subst}
use hushvault.Blobs.{secret_blob_prefix, parse_secret_blob_key}
use hushvault.Housekeeping.Orphans.{
  Store, Pointer, ParsedKey, to_parsed, parsed_keys, page_pointers, pointer_of, is_covered,
  is_referenced, referenced_keys, unreferenced_keys, seen_candidates, doomed_keys, Page,
  delete_chunk, delete_blobs, sweep_keys, sweep_page, finish_sweep, sweep_orphan_blobs,
  orphan_scan_keys_per_tick, orphan_delete_per_tick,
}
use hushvault.Housekeeping.Pointers.{is_referenced-page_pointers}
use hushvault.Housekeeping.Doomed.{
  All-filter_passing, is_old, IsDoomed, any-seen_candidates, doomed_keys-IsDoomed,
  length-doomed_keys-le,
}

has-filter : (p : Text → Bool) (ks : List Text) (k : Text) → has (filter p ks) k ≡ (has ks k && p k)
unfolding has
has-filter p [] k = refl
has-filter p (t ∷ ts) k =
    let ih = has-filter p ts k in
    elim (Bool-cases (same t k)) [
      | inl e ↦ let agree : p t ≡ p k = ap p ((same_iff t k).0 e) in ground (arith, ih, e, agree)
      | inr e ↦ ground (arith, ih, e)
    ]

-- What holds of all items of a list holds of one that it has.
All_at {ℓ} : (P : Text → Type ℓ) (ks : List Text) (k : Text) → All P ks → has ks k ≡ true → P k
unfolding has
All_at P [] k h e = absurd (ground (arith, e))
All_at P (t ∷ ts) k (p, h) e = elim (Bool-cases (same t k)) [
  | inl hit ↦ subst P ((same_iff t k).0 hit) p
  | inr miss ↦ All_at P ts k h (ground (arith, miss, e))
]

-- What is known of the keys of a page: their parts.
abbrev IsParsed : ParsedKey → Type 0
IsParsed e = parse_secret_blob_key e.key ≡ some (e.secret_id, e.rev)

to_parsed-IsParsed :
    (name : Text) (o : Option (Text × ℕ))
    → parse_secret_blob_key name ≡ o
    → All IsParsed (to_parsed name o)
to_parsed-IsParsed name none h = tt
to_parsed-IsParsed name (some (id, rev)) h = (h, tt)

parsed_keys-IsParsed : (names : List Text) → All IsParsed (parsed_keys names)
unfolding parsed_keys
parsed_keys-IsParsed [] = tt
parsed_keys-IsParsed (name ∷ names) =
    All-append IsParsed (to_parsed name (parse_secret_blob_key name)) (parsed_keys names)
      (to_parsed-IsParsed name (parse_secret_blob_key name) refl) (parsed_keys-IsParsed names)

-- A key of the two forms whose revision no row of the table covers.
abbrev pub IsUnreferenced : List Pointer → Text → Type 0
IsUnreferenced secrets key =
    (id : Text) × (rev : ℕ) × (parse_secret_blob_key key ≡ some (id, rev))
    × (is_covered (pointer_of secrets id) rev ≡ false)

module _ (secrets : List Pointer) where
  is_covered-unreferenced :
      (e : ParsedKey) (b : Bool)
      → b ≡ is_referenced secrets e
      → not b ≡ true
      → is_covered (pointer_of secrets e.secret_id) e.rev ≡ false
  unfolding is_referenced
  is_covered-unreferenced e b h k = ground (arith, h, k)

  each-IsUnreferenced :
      (parsed es : List ParsedKey)
      → ((id : Text)
          → has (map (λ e. e.secret_id) es) id ≡ true
          → has (map (λ e. e.secret_id) parsed) id ≡ true)
      → All IsParsed es
      → All
          (λ e.
            not (is_referenced (page_pointers secrets parsed) e) ≡ true
            → IsUnreferenced secrets e.key)
          es
  unfolding has
  each-IsUnreferenced parsed [] among h = tt
  each-IsUnreferenced parsed (e ∷ es) among (p, h) =
      let rest = each-IsUnreferenced parsed es (λ id g. among id (ground (arith, g))) h in
      let listed = among e.secret_id (ground (arith, same_refl e.secret_id)) in
      let table = is_referenced-page_pointers secrets parsed e listed in
      (
        λ free. (
          e.secret_id,
          e.rev,
          p,
          is_covered-unreferenced e (is_referenced (page_pointers secrets parsed) e) table free,
        ),
        rest,
      )

  All-map_key :
      (P : Text → Type 0) (es : List ParsedKey)
      → All (λ e. P e.key) es
      → All P (map (λ e. e.key) es)
  All-map_key P [] h = tt
  All-map_key P (e ∷ es) (p, h) = (p, All-map_key P es h)

  unreferenced_keys-IsUnreferenced :
      (parsed : List ParsedKey)
      → All IsParsed parsed
      → All (IsUnreferenced secrets) (unreferenced_keys (page_pointers secrets parsed) parsed)
  unfolding unreferenced_keys
  unreferenced_keys-IsUnreferenced parsed h =
      let free : ParsedKey → Bool = λ e. not (is_referenced (page_pointers secrets parsed) e) in
      All-map_key (IsUnreferenced secrets) (filter free parsed) (
        All-filter_passing (λ e. IsUnreferenced secrets e.key) free parsed
          (each-IsUnreferenced parsed parsed (λ id g. g) h))

-- Why a key may go: it is one that no row of the table covers, and a row that an earlier tick left
-- says that it was first seen an hour ago or more.
abbrev pub IsCollectable : (now : ℕ) → Store → Text → Type 0
IsCollectable now db key =
    IsUnreferenced db.secrets key × (any (is_old now key) db.candidates ≡ true)

-- What the store's deletes take away.
module _ (list : (prefix : Text) → (limit : ℕ) → (cursor : Option Text) → Page)
    (delete_works : Text → Bool) where
  delete_chunk-blobs :
      (keys : List Text) (st : Store × ℕ) (key : Text)
      → has (delete_chunk list delete_works keys st).0.blobs key
        ≡ (has st.0.blobs key && not (has keys key && delete_works key))
  unfolding delete_chunk
  delete_chunk-blobs keys st key =
      has-filter (λ k. not (has (filter delete_works keys) k)) st.0.blobs key
      ∙ ap (λ b. has st.0.blobs key && not b) (has-filter delete_works keys key)

  delete_blobs-has :
      (chunks : List (List Text)) (st : Store × ℕ) (key : Text)
      → has st.0.blobs key ≡ true
      → has (delete_blobs list delete_works chunks st).0.blobs key ≡ false
      → has (concat chunks) key ≡ true
  unfolding delete_blobs
  delete_blobs-has [] st key h k = absurd (ground (arith, h, k))
  delete_blobs-has (keys ∷ chunks) st key h k =
      let after_chunk = delete_chunk list delete_works keys st in
      let later = delete_blobs-has chunks after_chunk key in
      elim (Bool-cases (has after_chunk.0.blobs key)) [
        | inl left ↦ ground (arith, has-append keys (concat chunks) key, later left k)
        | inr gone ↦
            ground
              (arith, has-append keys (concat chunks) key, delete_chunk-blobs keys st key, gone, h)
      ]

  delete_blobs-le :
      (chunks : List (List Text)) (st : Store × ℕ)
      → (delete_blobs list delete_works chunks st).1 ≤ st.1 + length (concat chunks)
  unfolding delete_blobs
  delete_blobs-le [] st = omega arith
  delete_blobs-le (keys ∷ chunks) st =
      let after_chunk = delete_chunk list delete_works keys st in
      let one : after_chunk.1 ≤ st.1 + length keys =
        unfold delete_chunk in omega (arith, length-filter-le delete_works keys) in
      omega (arith, delete_blobs-le chunks after_chunk, one, length-append keys (concat chunks))

  sweep_keys-has :
      (now : ℕ) (referenced unreferenced : List Text) (db : Store) (key : Text)
      → has db.blobs key ≡ true
      → has (sweep_keys list delete_works now referenced unreferenced db).0.blobs key ≡ false
      → IsDoomed now db.candidates unreferenced key
  unfolding sweep_keys
  sweep_keys-has now referenced unreferenced db key h k =
      let seen = seen_candidates now referenced unreferenced db.candidates in
      let doomed = doomed_keys now seen unreferenced in
      let listed =
        delete_blobs-has (chunked 50 doomed) (record db { candidates = seen }, 0) key h k in
      let among : has doomed key ≡ true =
        sym (ap (λ ks. has ks key) (concat-chunked 49 doomed)) ∙ listed in
      let (free, old) =
        All_at (IsDoomed now seen unreferenced) doomed key
          (doomed_keys-IsDoomed now seen unreferenced) among in
      (free, any-seen_candidates now key referenced unreferenced db.candidates old)

  sweep_keys-le :
      (now : ℕ) (referenced unreferenced : List Text) (db : Store)
      → (sweep_keys list delete_works now referenced unreferenced db).1 ≤ orphan_delete_per_tick
  unfolding sweep_keys
  sweep_keys-le now referenced unreferenced db =
      let seen = seen_candidates now referenced unreferenced db.candidates in
      let doomed = doomed_keys now seen unreferenced in
      omega (
        arith,
        delete_blobs-le (chunked 50 doomed) (record db { candidates = seen }, 0),
        ap (λ ks. length ks) (concat-chunked 49 doomed),
        length-doomed_keys-le now seen unreferenced,
      )

  sweep_page-IsCollectable :
      (now : ℕ) (parsed : List ParsedKey) (db : Store) (key : Text)
      → All IsParsed parsed
      → has db.blobs key ≡ true
      → has (sweep_page list delete_works now parsed db).0.blobs key ≡ false
      → IsCollectable now db key
  unfolding sweep_page
  sweep_page-IsCollectable now [] db key p h k = absurd (ground (arith, h, k))
  sweep_page-IsCollectable now (e ∷ es) db key p h k =
      let pointers = page_pointers db.secrets (e ∷ es) in
      let free = unreferenced_keys pointers (e ∷ es) in
      let (among, old) = sweep_keys-has now (referenced_keys pointers (e ∷ es)) free db key h k in
      (
        All_at (IsUnreferenced db.secrets) free key
            (unreferenced_keys-IsUnreferenced db.secrets (e ∷ es) p) among,
        old,
      )

  sweep_page-le :
      (now : ℕ) (parsed : List ParsedKey) (db : Store)
      → (sweep_page list delete_works now parsed db).1 ≤ orphan_delete_per_tick
  unfolding sweep_page
  sweep_page-le now [] db = omega arith
  sweep_page-le now (e ∷ es) db =
      let pointers = page_pointers db.secrets (e ∷ es) in
      sweep_keys-le now (referenced_keys pointers (e ∷ es)) (unreferenced_keys pointers (e ∷ es)) db

  -- Whatever the store lists and whichever of its deletes work: a value that a sweep takes away has a
  -- key that no row of the table covers at that time, and that an earlier tick recorded as
  -- unreferenced an hour before or more.
  pub sweep_orphan_blobs-IsCollectable :
      (is_disabled : Bool) (now : ℕ) (db : Store) (key : Text)
      → has db.blobs key ≡ true
      → has (sweep_orphan_blobs list delete_works is_disabled now db).0.blobs key ≡ false
      → IsCollectable now db key
  unfolding sweep_orphan_blobs finish_sweep
  sweep_orphan_blobs-IsCollectable true now db key h k = absurd (ground (arith, h, k))
  sweep_orphan_blobs-IsCollectable false now db key h k =
      let page = list secret_blob_prefix orphan_scan_keys_per_tick db.orphan_cursor in
      sweep_page-IsCollectable now (parsed_keys page.keys) db key (parsed_keys-IsParsed page.keys) h
        k

  -- No sweep deletes more than fifty values.
  pub sweep_orphan_blobs-le :
      (is_disabled : Bool) (now : ℕ) (db : Store)
      → (sweep_orphan_blobs list delete_works is_disabled now db).1.deleted ≤ orphan_delete_per_tick
  unfolding sweep_orphan_blobs
  sweep_orphan_blobs-le true now db = omega arith
  sweep_orphan_blobs-le false now db =
      let page = list secret_blob_prefix orphan_scan_keys_per_tick db.orphan_cursor in
      sweep_page-le now (parsed_keys page.keys) db
