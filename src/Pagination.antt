-- ===== src/Pagination.antt =====
-- The cursor of a page: apps/api/src/lib/pagination.ts. `btoa` and `atob` of the platform are
-- parameters; `atob` is none where it throws.
pub mod Cursor
pub mod Tests
use hushvault.Base.{
  ℕ, ◌≡◌, Bool, true, false, Option, none, some, List, [], ◌∷◌, ◌++◌, map, Text, ◌==◌,
  if◌then◌else◌,
}

abbrev pub to_url_char : ℕ → ℕ
to_url_char c = if c == b'+' then b'-' else (if c == b'/' then b'_' else c)

abbrev pub of_url_char : ℕ → ℕ
of_url_char c = if c == b'-' then b'+' else (if c == b'_' then b'/' else c)

unfoldable pub cons_stripped : ℕ → Text → Text
cons_stripped c [] = if c == b'=' then [] else c ∷ []
cons_stripped c (d ∷ s) = c ∷ d ∷ s

-- `replace(/=+$/, '')`.
unfoldable pub strip_padding : Text → Text
unfolding cons_stripped
strip_padding [] = []
strip_padding (c ∷ s) = cons_stripped c (strip_padding s)

unfoldable pub cut_at : ℕ → Text → Option (Text × Text) → Option (Text × Text)
cut_at c s none = if c == b'|' then some ([], s) else none
cut_at c s (some (front, back)) = some (c ∷ front, back)

-- What is before and behind the last separator.
unfoldable pub cut_last : Text → Option (Text × Text)
unfolding cut_at
cut_last [] = none
cut_last (c ∷ s) = cut_at c s (cut_last s)

-- A separator that is missing or in front is refused.
unfoldable pub to_cursor : Option (Text × Text) → Option (Text × Text)
to_cursor none = none
to_cursor (some ([], id)) = none
to_cursor (some (c ∷ created_at, id)) = some (c ∷ created_at, id)

module _ (btoa : Text → Text) (atob : Text → Option Text) where
  unfoldable pub encode_keyset_cursor : (created_at id : Text) → Text
  unfolding strip_padding
  encode_keyset_cursor created_at id =
      strip_padding (map to_url_char (btoa (created_at ++ (b'|' ∷ id))))

  unfoldable pub decoded_cursor : Option Text → Option (Text × Text)
  unfolding cut_last to_cursor
  decoded_cursor none = none
  decoded_cursor (some s) = to_cursor (cut_last s)

  unfoldable pub decode_keyset_cursor : Text → Option (Text × Text)
  unfolding decoded_cursor
  decode_keyset_cursor cursor = decoded_cursor (atob (map of_url_char cursor))
