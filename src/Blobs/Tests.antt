-- ===== src/Blobs/Tests.antt =====
-- Keys of one secret, and a read of two of them.
use hushvault.Base.{
  ◌≡◌, refl, sym, ap, true, false, Option, none, some, List, [], ◌∷◌, Text, codes, arith, has, same,
  starts_with, after,
}
use mathlib.Core.Option.{some-injective}
use hushvault.Blobs.{
  is_positive_decimal, secret_blob_key, all_secret_blob_keys, split, split_from, parse_parts,
  parse_secret_blob_key, read_secret_blobs,
}
use hushvault.Blobs.Keys.{parse_secret_blob_key-secret_blob_key, all_secret_blob_keys-has}
use hushvault.Blobs.Read.{IsKnown, Agrees, read_secret_blobs-IsKnown}

-- The other prefix, a revision with a leading zero and a third part are not keys.
not_keys :
    (parse_secret_blob_key (codes "secrethist:a") ≡ none)
    × ((parse_secret_blob_key (codes "secret:a:07") ≡ none)
        × (parse_secret_blob_key (codes "secret:a:7:1") ≡ none))
unfolding parse_secret_blob_key split split_from parse_parts is_positive_decimal starts_with after
not_keys = (refl, (refl, refl))

parse_secret_blob_key-secret_blob_key_example :
    parse_secret_blob_key (secret_blob_key (codes "ab") 12) ≡ some (codes "ab", 12)
parse_secret_blob_key-secret_blob_key_example =
    parse_secret_blob_key-secret_blob_key (codes "ab") 12 (λ e. cc, refl)

all_secret_blob_keys-has_example :
    has (all_secret_blob_keys (codes "ab") 3) (secret_blob_key (codes "ab") 2) ≡ true
all_secret_blob_keys-has_example = all_secret_blob_keys-has (codes "ab") 3 2 (omega arith)

-- A store that holds a value under every key, the key itself.
abbrev echo : Text → Option Text
echo = some

abbrev bulk_echo : List Text → Option (Text → Option Text)
bulk_echo chunk = some echo

bulk_echo-Agrees : Agrees echo bulk_echo
bulk_echo-Agrees chunk answer e key h = ap (λ f. f key) (sym (some-injective echo answer e))

read_secret_blobs-IsKnown_example :
    IsKnown echo (codes "b") (read_secret_blobs bulk_echo echo false (codes "a" ∷ codes "b" ∷ [])).1
read_secret_blobs-IsKnown_example =
    read_secret_blobs-IsKnown echo (codes "b") bulk_echo bulk_echo-Agrees false
      (codes "a" ∷ codes "b" ∷ []) (unfold has in unfold same in refl)
