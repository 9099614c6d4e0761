-- ===== src/Blobs.antt =====
-- The keys of encrypted values, and reading many of them: apps/api/src/lib/secret-blobs.ts.
pub mod Decimal
pub mod Keys
pub mod Read
pub mod Tests
use hushvault.Base.{
  ℕ, zero, suc, ◌+◌, ◌*◌, ◌-◌, ◌/◌, ◌%◌, Bool, true, false, ◌&&◌, not, Option, none, some, List, [],
  ◌∷◌, ◌++◌, all, Text, codes, leb, ltb, ◌==◌, if◌then◌else◌, starts_with, after, chunked, map,
  same, or_else,
}

abbrev pub kv_delete_chunk : ℕ
kv_delete_chunk = 50

abbrev pub kv_bulk_read_max : ℕ
kv_bulk_read_max = 100

abbrev pub kv_read_concurrency : ℕ
kv_read_concurrency = 6

-- The decimal digits of a number, as a template string writes it; `fuel` exceeds the number.
unfoldable pub digits : (fuel n : ℕ) → Text
digits zero n = []
digits (suc fuel) n =
    let rest = digits fuel (n / 10) in
    if ltb n 10 then (b'0' + n) ∷ [] else rest ++ (b'0' + n % 10) ∷ []

unfoldable pub decimal : ℕ → Text
unfolding digits
decimal n = digits (suc n) n

abbrev pub is_digit : ℕ → Bool
is_digit c = leb b'0' c && leb c b'9'

-- `/^[1-9][0-9]*$/`.
unfoldable pub is_positive_decimal : Text → Bool
is_positive_decimal [] = false
is_positive_decimal (c ∷ s) = is_digit c && (not (c == b'0') && all is_digit s)

-- `Number` on digits.
unfoldable pub number_from : (acc : ℕ) → Text → ℕ
number_from acc [] = acc
number_from acc (c ∷ s) = number_from (acc * 10 + (c - b'0')) s

unfoldable pub number : Text → ℕ
unfolding number_from
number = number_from 0

abbrev pub secret_blob_prefix : Text
secret_blob_prefix = codes "secret:"

unfoldable pub secret_blob_key : (secret_id : Text) → (blob_rev : ℕ) → Text
unfolding decimal
secret_blob_key secret_id blob_rev =
    if ltb 0 blob_rev
    then secret_blob_prefix ++ (secret_id ++ (b':' ∷ decimal blob_rev))
    else secret_blob_prefix ++ secret_id

-- `split(':')`.
unfoldable pub split_from : (part : Text) → Text → List Text
split_from part [] = part ∷ []
split_from part (c ∷ s) =
    let next = split_from [] s in
    let more = split_from (part ++ c ∷ []) s in if c == b':' then part ∷ next else more

unfoldable pub split : Text → List Text
split = split_from []

unfoldable pub parse_parts : List Text → Option (Text × ℕ)
unfolding is_positive_decimal number
parse_parts [] = none
parse_parts ([] ∷ rest) = none
parse_parts ((c ∷ id) ∷ []) = some (c ∷ id, 0)
parse_parts ((c ∷ id) ∷ rev ∷ []) =
    if is_positive_decimal rev then some (c ∷ id, number rev) else none
parse_parts ((c ∷ id) ∷ rev ∷ _ ∷ _) = none

-- The id and the revision of a key.
unfoldable pub parse_secret_blob_key : Text → Option (Text × ℕ)
unfolding parse_parts split
parse_secret_blob_key key =
    if starts_with secret_blob_prefix key
    then parse_parts (split (after secret_blob_prefix key))
    else none

unfoldable pub revisions : (secret_id : Text) → (blob_rev : ℕ) → List Text
unfolding secret_blob_key
revisions secret_id zero = []
revisions secret_id (suc n) = revisions secret_id n ++ secret_blob_key secret_id (suc n) ∷ []

-- `allSecretBlobKeys`.
unfoldable pub all_secret_blob_keys : (secret_id : Text) → (blob_rev : ℕ) → List Text
unfolding revisions
all_secret_blob_keys secret_id blob_rev =
    (secret_blob_prefix ++ secret_id) ∷ revisions secret_id blob_rev

abbrev pub Found : Type 0
Found = List (Text × Option Text)

unfoldable pub read_chunk : (Text → Option Text) → List Text → Found → Found
read_chunk answer [] out = out
read_chunk answer (k ∷ ks) out = read_chunk answer ks ((k, answer k) ∷ out)

unfoldable pub chunk_answer :
    Option (Text → Option Text) → ((Text → Option Text) → Option Found) → Option Found
chunk_answer none next = none
chunk_answer (some answer) next = next answer

-- The store's bulk read: none when it throws or does not answer with a map.
module _ (bulk : List Text → Option (Text → Option Text)) where
  unfoldable pub bulk_chunks : List (List Text) → Found → Option Found
  unfolding read_chunk chunk_answer
  bulk_chunks [] out = some out
  bulk_chunks (chunk ∷ chunks) out =
      chunk_answer (bulk chunk) (λ answer. bulk_chunks chunks (read_chunk answer chunk out))

  unfoldable pub bulk_read : List Text → Option Found
  unfolding bulk_chunks
  bulk_read keys = bulk_chunks (chunked kv_bulk_read_max keys) []

-- The store's read of one key.
module _ (get : Text → Option Text) where
  unfoldable pub batched_chunks : List (List Text) → Found → Found
  unfolding read_chunk
  batched_chunks [] out = out
  batched_chunks (chunk ∷ chunks) out = batched_chunks chunks (read_chunk get chunk out)

  unfoldable pub batched_read : List Text → Found
  unfolding batched_chunks
  batched_read keys = batched_chunks (chunked kv_read_concurrency keys) []

  unfoldable pub bulk_or_batched : List Text → Option Found → Bool × Found
  unfolding batched_read
  bulk_or_batched keys none = (true, batched_read keys)
  bulk_or_batched keys (some out) = (false, out)

-- `readSecretBlobs`; the Boolean says whether the binding is known to have no bulk read.
unfoldable pub read_secret_blobs :
    (bulk : List Text → Option (Text → Option Text)) (get : Text → Option Text)
    (no_bulk_read : Bool)
    → List Text
    → Bool × Found
unfolding bulk_read bulk_or_batched
read_secret_blobs bulk get no_bulk_read [] = (no_bulk_read, [])
read_secret_blobs bulk get true (k ∷ ks) = (true, batched_read get (k ∷ ks))
read_secret_blobs bulk get false (k ∷ ks) = bulk_or_batched get (k ∷ ks) (bulk_read bulk (k ∷ ks))
