-- ===== src/Sync/Names.antt =====
-- Which names may be pushed at all.
use hushvault.Base.{
  starts_with, after, ℕ, ◌+◌, ◌-◌, ◌≡◌, refl, Bool, true, false, ◌&&◌, ◌||◌, List, [], ◌∷◌, map,
  all, Text, codes, same, has, leb, ◌==◌, if◌then◌else◌,
}

unfoldable pub is_upper : ℕ → Bool
is_upper c = leb b'A' c && leb c b'Z'

unfoldable pub is_lower : ℕ → Bool
is_lower c = leb b'a' c && leb c b'z'

unfoldable pub is_digit : ℕ → Bool
is_digit c = leb b'0' c && leb c b'9'

unfoldable pub to_upper : Text → Text
unfolding is_lower
to_upper = map λ c. if is_lower c then c - 32 else c

unfoldable pub to_lower : Text → Text
unfolding is_upper
to_lower = map λ c. if is_upper c then c + 32 else c

abbrev pub reserved_exact : List Text
reserved_exact =
    codes "JWT_SECRET"
    ∷ codes "GITHUB_CLIENT_SECRET"
    ∷ codes "GOOGLE_CLIENT_SECRET"
    ∷ codes "STRIPE_SECRET_KEY"
    ∷ codes "STRIPE_WEBHOOK_SECRET"
    ∷ []

-- `RESERVED_NAME`, which ignores the case of ASCII letters.
unfoldable pub is_reserved_sync_name : Text → Bool
unfolding to_upper starts_with after is_upper is_digit has same
is_reserved_sync_name name =
    let upper = to_upper name in
    has reserved_exact upper
    || (starts_with (codes "ENCRYPTION_") upper
        && all (λ c. is_upper c || (is_digit c || c == b'_')) (after (codes "ENCRYPTION_") upper))

abbrev pub unsafe_names : List Text
unsafe_names = codes "__proto__" ∷ codes "constructor" ∷ codes "prototype" ∷ []

unfoldable pub is_unsafe : Text → Bool
unfolding to_lower has same
is_unsafe name = has unsafe_names (to_lower name)

name_start : ℕ → Bool
name_start c = is_upper c || (is_lower c || c == b'_')

-- `NAME_PATTERN`.
unfoldable pub matches_name : Text → Bool
unfolding name_start is_upper is_lower is_digit
matches_name [] = false
matches_name (c ∷ s) = name_start c && all (λ d. name_start d || is_digit d) s

reserved_tests :
    (is_reserved_sync_name (codes "encryption_key_v2") ≡ true)
    × (is_reserved_sync_name (codes "Jwt_Secret") ≡ true)
    × (is_reserved_sync_name (codes "JWT_SECRETS") ≡ false)
    × (is_reserved_sync_name (codes "ENCRYPTION-X") ≡ false)
    × (is_unsafe (codes "Constructor") ≡ true)
    × (matches_name (codes "1A") ≡ false)
unfolding is_reserved_sync_name is_unsafe matches_name
reserved_tests = (refl, refl, refl, refl, refl, refl)
