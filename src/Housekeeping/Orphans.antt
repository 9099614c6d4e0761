-- ===== src/Housekeeping/Orphans.antt =====
-- The sweep of encrypted values that no row points at: `sweepOrphanBlobs` and the purge of the old
-- history copies. What the store lists and whether one of its deletes works are parameters.
use hushvault.Base.{
  ℕ, ◌+◌, ◌-◌, Bool, true, false, not, ◌&&◌, Option, none, some, List, [], ◌∷◌, ◌++◌, map, Text,
  codes, same, has, leb, ltb, if◌then◌else◌, length, take, filter, any, chunked,
}
use hushvault.Blobs.{kv_delete_chunk, secret_blob_prefix, parse_secret_blob_key}
use hushvault.Housekeeping.{purge}

abbrev pub orphan_delete_per_tick : ℕ
orphan_delete_per_tick = 50

abbrev pub orphan_grace_ms : ℕ
orphan_grace_ms = 3600000

abbrev pub orphan_candidate_ttl_ms : ℕ
orphan_candidate_ttl_ms = 604800000

abbrev pub orphan_candidate_prune_per_tick : ℕ
orphan_candidate_prune_per_tick = 200

abbrev pub orphan_scan_keys_per_tick : ℕ
orphan_scan_keys_per_tick = 200

abbrev pub legacy_history_delete_per_tick : ℕ
legacy_history_delete_per_tick = 50

abbrev pub legacy_history_blob_prefix : Text
legacy_history_blob_prefix = codes "secrethist:"

abbrev pub d1_bind_chunk : ℕ
d1_bind_chunk = 90

pub record Pointer : Type 0 where
  pub id : Text
  pub blob_rev : ℕ

pub record Candidate : Type 0 where
  pub kv_key : Text
  pub first_seen_at : ℕ

-- A page of a listing: its keys, and the cursor behind it, if the listing goes on.
pub record Page : Type 0 where
  pub keys : List Text
  pub cursor : Option Text

-- `blobs` are the keys that the store holds.
pub record Store : Type 0 where
  pub secrets : List Pointer
  pub candidates : List Candidate
  pub orphan_cursor : Option Text
  pub blobs : List Text

pub record SweepCounts : Type 0 where
  pub scanned : ℕ
  pub unreferenced : ℕ
  pub deleted : ℕ

pub record ParsedKey : Type 0 where
  pub key : Text
  pub secret_id : Text
  pub rev : ℕ

abbrev pub to_parsed : Text → Option (Text × ℕ) → List ParsedKey
to_parsed name none = []
to_parsed name (some (id, rev)) = record { key = name; secret_id = id; rev = rev } ∷ []

unfoldable pub parsed_keys : List Text → List ParsedKey
unfolding parse_secret_blob_key
parsed_keys [] = []
parsed_keys (name ∷ names) = to_parsed name (parse_secret_blob_key name) ++ parsed_keys names

-- `new Set`: the items that were not seen before, in order.
unfoldable pub distinct_from : (seen : List Text) → List Text → List Text
distinct_from seen [] = []
distinct_from seen (t ∷ ts) =
    let rest = distinct_from seen ts in
    let more = distinct_from (t ∷ seen) ts in if has seen t then rest else t ∷ more

-- `Map.get` on the pointers, and a row's pointer in the table.
unfoldable pub pointer_of : List Pointer → Text → Option ℕ
pointer_of [] id = none
pointer_of (p ∷ ps) id = if same p.id id then some p.blob_rev else pointer_of ps id

-- The pointers of chunks of ids. Ids are a primary key, so that none is set twice.
unfoldable pub read_pointers :
    (secrets : List Pointer) → List (List Text) → (pointers : List Pointer) → List Pointer
read_pointers secrets [] pointers = pointers
read_pointers secrets (ids ∷ chunks) pointers =
    read_pointers secrets chunks (pointers ++ filter (λ p. has ids p.id) secrets)

unfoldable pub page_pointers : (secrets : List Pointer) → List ParsedKey → List Pointer
unfolding read_pointers distinct_from
page_pointers secrets parsed =
    read_pointers secrets (chunked d1_bind_chunk (distinct_from [] (map (λ e. e.secret_id) parsed)))
      []

unfoldable pub is_covered : (pointer : Option ℕ) → (rev : ℕ) → Bool
is_covered none rev = false
is_covered (some blob_rev) rev = leb rev blob_rev

unfoldable pub is_referenced : List Pointer → ParsedKey → Bool
unfolding pointer_of is_covered
is_referenced pointers e = is_covered (pointer_of pointers e.secret_id) e.rev

unfoldable pub delete_chunks : List (List Text) → List Candidate → List Candidate
delete_chunks [] candidates = candidates
delete_chunks (keys ∷ chunks) candidates =
    delete_chunks chunks (filter (λ c. not (has keys c.kv_key)) candidates)

unfoldable pub delete_candidates : List Text → List Candidate → List Candidate
unfolding delete_chunks
delete_candidates keys candidates = delete_chunks (chunked d1_bind_chunk keys) candidates

-- `ON CONFLICT DO NOTHING`.
unfoldable pub record_sighting : (now : ℕ) → Text → List Candidate → List Candidate
record_sighting now key candidates =
    if any (λ c. same c.kv_key key) candidates
    then candidates
    else candidates ++ record { kv_key = key; first_seen_at = now } ∷ []

unfoldable pub record_batch : (now : ℕ) → List Text → List Candidate → List Candidate
unfolding record_sighting
record_batch now [] candidates = candidates
record_batch now (key ∷ keys) candidates =
    record_batch now keys (record_sighting now key candidates)

unfoldable pub record_sightings : (now : ℕ) → List (List Text) → List Candidate → List Candidate
unfolding record_batch
record_sightings now [] candidates = candidates
record_sightings now (keys ∷ chunks) candidates =
    record_sightings now chunks (record_batch now keys candidates)

-- `ORDER BY first_seen_at`.
unfoldable pub insert_by_age : Candidate → List Candidate → List Candidate
insert_by_age c [] = c ∷ []
insert_by_age c (d ∷ ds) =
    let later = insert_by_age c ds in
    if ltb d.first_seen_at c.first_seen_at then d ∷ later else c ∷ d ∷ ds

unfoldable pub order_by_age : List Candidate → List Candidate
unfolding insert_by_age
order_by_age [] = []
order_by_age (c ∷ cs) = insert_by_age c (order_by_age cs)

unfoldable pub is_aged : (now : ℕ) → (keys : List Text) → Candidate → Bool
is_aged now keys c = leb (c.first_seen_at + orphan_grace_ms) now && has keys c.kv_key

unfoldable pub aged : (now : ℕ) → (keys : List Text) → (budget : ℕ) → List Candidate → List Text
unfolding order_by_age is_aged
aged now keys budget candidates =
    map (λ c. c.kv_key) (take budget (order_by_age (filter (is_aged now keys) candidates)))

-- The keys to delete, within the tick's budget.
unfoldable pub doomed_from :
    (now : ℕ) → List Candidate → List (List Text) → (doomed : List Text) → List Text
unfolding aged
doomed_from now candidates [] doomed = doomed
doomed_from now candidates (keys ∷ chunks) doomed =
    let more =
      doomed_from now candidates chunks
        (doomed ++ aged now keys (orphan_delete_per_tick - length doomed) candidates) in
    if leb orphan_delete_per_tick (length doomed) then doomed else more

unfoldable pub doomed_keys : (now : ℕ) → List Candidate → (unreferenced : List Text) → List Text
unfolding doomed_from
doomed_keys now candidates unreferenced =
    doomed_from now candidates (chunked d1_bind_chunk unreferenced) []

unfoldable pub prune_stale_candidates : (now : ℕ) → List Candidate → List Candidate
unfolding purge
prune_stale_candidates now candidates =
    purge orphan_candidate_prune_per_tick (λ c. leb (c.first_seen_at + orphan_candidate_ttl_ms) now)
      candidates

-- A page's keys, which a row covers and which none does.
unfoldable pub referenced_keys : List Pointer → List ParsedKey → List Text
unfolding is_referenced
referenced_keys pointers parsed = map (λ e. e.key) (filter (is_referenced pointers) parsed)

unfoldable pub unreferenced_keys : List Pointer → List ParsedKey → List Text
unfolding is_referenced
unreferenced_keys pointers parsed =
    map (λ e. e.key) (filter (λ e. not (is_referenced pointers e)) parsed)

-- What is known of unreferenced keys once a page was looked at.
unfoldable pub seen_candidates :
    (now : ℕ) → (referenced unreferenced : List Text) → List Candidate → List Candidate
unfolding delete_candidates record_sightings
seen_candidates now referenced unreferenced candidates =
    record_sightings now (chunked d1_bind_chunk unreferenced)
      (delete_candidates referenced candidates)

module _ (list : (prefix : Text) → (limit : ℕ) → (cursor : Option Text) → Page)
    (delete_works : Text → Bool) where
  unfoldable pub delete_chunk : List Text → Store × ℕ → Store × ℕ
  unfolding delete_candidates
  delete_chunk keys (db, deleted) =
      let gone = filter delete_works keys in
      (
        record db {
          blobs = filter (λ k. not (has gone k)) db.blobs;
          candidates = delete_candidates gone db.candidates;
        },
        deleted + length gone,
      )

  unfoldable pub delete_blobs : List (List Text) → Store × ℕ → Store × ℕ
  unfolding delete_chunk
  delete_blobs [] st = st
  delete_blobs (keys ∷ chunks) st = delete_blobs chunks (delete_chunk keys st)

  unfoldable pub sweep_keys : (now : ℕ) → (referenced unreferenced : List Text) → Store → Store × ℕ
  unfolding seen_candidates doomed_keys delete_blobs
  sweep_keys now referenced unreferenced db =
      let seen = seen_candidates now referenced unreferenced db.candidates in
      delete_blobs (chunked kv_delete_chunk (doomed_keys now seen unreferenced))
        (record db { candidates = seen }, 0)

  -- A page without a parsed key is passed over.
  unfoldable pub sweep_page : (now : ℕ) → List ParsedKey → Store → Store × ℕ
  unfolding sweep_keys page_pointers referenced_keys unreferenced_keys
  sweep_page now [] db = (db, 0)
  sweep_page now (e ∷ es) db =
      let pointers = page_pointers db.secrets (e ∷ es) in
      sweep_keys now (referenced_keys pointers (e ∷ es)) (unreferenced_keys pointers (e ∷ es)) db

  unfoldable pub finish_sweep : (now : ℕ) → (cursor : Option Text) → Store → Store
  unfolding prune_stale_candidates
  finish_sweep now cursor db = record db {
    orphan_cursor = cursor;
    candidates = prune_stale_candidates now db.candidates;
  }

  -- `sweepOrphanBlobs`.
  unfoldable pub sweep_orphan_blobs : (is_disabled : Bool) → (now : ℕ) → Store → Store × SweepCounts
  unfolding sweep_page finish_sweep parsed_keys
  sweep_orphan_blobs true now db = (db, record { scanned = 0; unreferenced = 0; deleted = 0 })
  sweep_orphan_blobs false now db =
      let page = list secret_blob_prefix orphan_scan_keys_per_tick db.orphan_cursor in
      let parsed = parsed_keys page.keys in
      let swept = sweep_page now parsed db in
      (
        finish_sweep now page.cursor swept.0,
        record {
          scanned = length parsed;
          unreferenced = length (unreferenced_keys (page_pointers db.secrets parsed) parsed);
          deleted = swept.1;
        },
      )

  unfoldable pub purge_chunks : List (List Text) → (blobs : List Text) → List Text × ℕ
  purge_chunks [] blobs = (blobs, 0)
  purge_chunks (keys ∷ chunks) blobs =
      let gone = filter delete_works keys in
      let rest = purge_chunks chunks (filter (λ k. not (has gone k)) blobs) in
      (rest.0, length gone + rest.1)

  -- `purgeLegacyHistoryBlobs`.
  unfoldable pub purge_legacy_history_blobs :
      (is_disabled : Bool) → (blobs : List Text) → List Text × ℕ
  unfolding purge_chunks
  purge_legacy_history_blobs true blobs = (blobs, 0)
  purge_legacy_history_blobs false blobs =
      purge_chunks
        (chunked kv_delete_chunk
          (list legacy_history_blob_prefix legacy_history_delete_per_tick none).keys)
        blobs
