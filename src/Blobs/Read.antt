-- ===== src/Blobs/Read.antt =====
-- Reading many encrypted values gives what reading each gives.
use hushvault.Base.{
  ◌≡◌, refl, sym, ap, ◌∙◌, Bool, true, false, Option, none, some, List, [], ◌∷◌, ◌++◌, Text,
  if◌then◌else◌, arith, inl, inr, ◌⊎◌, Bool-cases, Option-cases, ◌≢◌, has, has-append, same,
  same_iff, same_refl, chunked, concat, concat-chunked,
}
use hushvault.Blobs.{
  Found, read_chunk, chunk_answer, bulk_chunks, bulk_read, batched_chunks, batched_read,
  bulk_or_batched, read_secret_blobs, kv_bulk_read_max, kv_read_concurrency,
}

-- What a map of answers holds for a key.
unfoldable pub value_of : (key : Text) → Found → Option (Option Text)
value_of key [] = none
value_of key ((k, v) ∷ found) = if same k key then some v else value_of key found

-- What a bulk read answers is what reading each key gives.
abbrev pub Agrees : (get : Text → Option Text) → (List Text → Option (Text → Option Text)) → Type 0
Agrees get bulk =
    (chunk : List Text) (answer : Text → Option Text)
    → bulk chunk ≡ some answer
    → (k : Text) → has chunk k ≡ true
    → answer k ≡ get k

module _ (get : Text → Option Text) (key : Text) where
  abbrev pub IsKnown : Found → Type 0
  IsKnown found = value_of key found ≡ some (get key)

  IsKnown-hit :
      (k : Text) (v : Option Text) (found : Found)
      → same k key ≡ true
      → (k ≡ key → v ≡ get key)
      → IsKnown ((k, v) ∷ found)
  unfolding value_of
  IsKnown-hit k v found hit e = rw hit (ap some (e ((same_iff k key).0 hit)))

  IsKnown-miss :
      (k : Text) (v : Option Text) (found : Found)
      → same k key ≡ false
      → IsKnown found
      → IsKnown ((k, v) ∷ found)
  unfolding value_of
  IsKnown-miss k v found miss h = rw miss h

  -- A key that is among those read, or known before, is known afterwards.
  read_chunk-IsKnown :
      (answer : Text → Option Text) (ks : List Text) (found : Found)
      → ((k : Text) → has ks k ≡ true → answer k ≡ get k)
      → (has ks key ≡ true) ⊎ IsKnown found
      → IsKnown (read_chunk answer ks found)
  unfolding read_chunk has
  read_chunk-IsKnown answer [] found agree (inl h) = absurd (ground (arith, h))
  read_chunk-IsKnown answer [] found agree (inr h) = h
  read_chunk-IsKnown answer (k ∷ ks) found agree h =
      let rest =
        read_chunk-IsKnown answer ks ((k, answer k) ∷ found) (λ t e. agree t (ground (arith, e))) in
      rest (elim (Bool-cases (same k key)) [
        | inl hit ↦ inr (
            IsKnown-hit k (answer k) found hit
              (λ e. agree k (ground (arith, same_refl k)) ∙ ap get e))
        | inr miss ↦ elim h [
          | inl among ↦ inl (ground (arith, among, miss))
          | inr known ↦ inr (IsKnown-miss k (answer k) found miss known)
        ]
      ])

  has_either :
      (ks ls : List Text) → (has (ks ++ ls) key ≡ true) → (has ks key ≡ true) ⊎ (has ls key ≡ true)
  has_either ks ls h = elim (Bool-cases (has ks key)) [
    | inl e ↦ inl e
    | inr e ↦ inr (ground (arith, has-append ks ls key, h, e))
  ]

  -- A key of a chunk and the chunks behind it is read with the chunk, or left for later.
  chunk_or_later :
      (answer : Text → Option Text) (chunk later : List Text) (found : Found)
      → ((k : Text) → has chunk k ≡ true → answer k ≡ get k)
      → (has (chunk ++ later) key ≡ true) ⊎ IsKnown found
      → (has later key ≡ true) ⊎ IsKnown (read_chunk answer chunk found)
  chunk_or_later answer chunk later found agree (inr h) =
      inr (read_chunk-IsKnown answer chunk found agree (inr h))
  chunk_or_later answer chunk later found agree (inl h) = elim (has_either chunk later h) [
    | inl now ↦ inr (read_chunk-IsKnown answer chunk found agree (inl now))
    | inr late ↦ inl late
  ]

  batched_chunks-IsKnown :
      (chunks : List (List Text)) (found : Found)
      → (has (concat chunks) key ≡ true) ⊎ IsKnown found
      → IsKnown (batched_chunks get chunks found)
  unfolding batched_chunks has
  batched_chunks-IsKnown [] found (inl h) = absurd (ground (arith, h))
  batched_chunks-IsKnown [] found (inr h) = h
  batched_chunks-IsKnown (chunk ∷ chunks) found h =
      batched_chunks-IsKnown chunks (read_chunk get chunk found)
        (chunk_or_later get chunk (concat chunks) found (λ k e. refl) h)

  batched_read-IsKnown : (keys : List Text) → has keys key ≡ true → IsKnown (batched_read get keys)
  unfolding batched_read
  batched_read-IsKnown keys h =
      batched_chunks-IsKnown (chunked kv_read_concurrency keys) []
        (inl (ap (λ ks. has ks key) (concat-chunked 5 keys) ∙ h))

  module _ (bulk : List Text → Option (Text → Option Text)) (agrees : Agrees get bulk) where
    failed_chunk :
        (chunk : List Text) (chunks : List (List Text)) (found out : Found)
        → bulk chunk ≡ none
        → bulk_chunks bulk (chunk ∷ chunks) found ≢ some out
    unfolding bulk_chunks
    failed_chunk chunk chunks found out failed e =
        let empty : bulk_chunks bulk (chunk ∷ chunks) found ≡ none =
          rw failed (unfold chunk_answer in refl) in
        nothing_found (sym empty ∙ e)
      where
        nothing_found : ◌≡◌ {A = Option Found} none (some out) → ⊥
        nothing_found e = cc

    answered_chunk :
        (chunk : List Text) (chunks : List (List Text)) (found : Found)
        (answer : Text → Option Text)
        → bulk chunk ≡ some answer
        → bulk_chunks bulk (chunk ∷ chunks) found
          ≡ bulk_chunks bulk chunks (read_chunk answer chunk found)
    unfolding bulk_chunks
    answered_chunk chunk chunks found answer answered = rw answered (unfold chunk_answer in refl)

    bulk_chunks-IsKnown :
        (chunks : List (List Text)) (found out : Found)
        → (has (concat chunks) key ≡ true) ⊎ IsKnown found
        → bulk_chunks bulk chunks found ≡ some out
        → IsKnown out
    unfolding bulk_chunks has
    bulk_chunks-IsKnown [] found out (inl h) e = absurd (ground (arith, h))
    bulk_chunks-IsKnown [] found out (inr h) e = same_found e
      where
        same_found : ◌≡◌ {A = Option Found} (some found) (some out) → IsKnown out
        same_found e = cc
    bulk_chunks-IsKnown (chunk ∷ chunks) found out h e = elim (Option-cases (bulk chunk)) [
      | inl failed ↦ absurd (failed_chunk chunk chunks found out failed e)
      | inr (answer, answered) ↦
          bulk_chunks-IsKnown chunks (read_chunk answer chunk found) out
            (chunk_or_later answer chunk (concat chunks) found (agrees chunk answer answered) h)
            (sym (answered_chunk chunk chunks found answer answered) ∙ e)
    ]

    bulk_read-IsKnown :
        (keys : List Text) (out : Found)
        → has keys key ≡ true
        → bulk_read bulk keys ≡ some out
        → IsKnown out
    unfolding bulk_read
    bulk_read-IsKnown keys out h e =
        bulk_chunks-IsKnown (chunked kv_bulk_read_max keys) [] out
          (inl (ap (λ ks. has ks key) (concat-chunked 99 keys) ∙ h)) e

    -- Whether the store's bulk read works, fails or is known to be missing: each key that is asked for
    -- is found with what reading it alone gives, when the bulk read answers what those reads do.
    pub read_secret_blobs-IsKnown :
        (no_bulk_read : Bool) (keys : List Text)
        → has keys key ≡ true
        → IsKnown (read_secret_blobs bulk get no_bulk_read keys).1
    unfolding read_secret_blobs
    read_secret_blobs-IsKnown no_bulk_read [] h = absurd (unfold has in ground (arith, h))
    read_secret_blobs-IsKnown true (k ∷ ks) h = batched_read-IsKnown (k ∷ ks) h
    read_secret_blobs-IsKnown false (k ∷ ks) h = answered (bulk_read bulk (k ∷ ks)) refl
      where
        answered :
            (r : Option Found)
            → bulk_read bulk (k ∷ ks) ≡ r
            → IsKnown (bulk_or_batched get (k ∷ ks) r).1
        answered none e = batched_read-IsKnown (k ∷ ks) h
        answered (some out) e = bulk_read-IsKnown (k ∷ ks) out h e
