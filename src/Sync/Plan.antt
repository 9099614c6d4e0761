-- ===== src/Sync/Plan.antt =====
-- `planSync`: the guards, and the classification of every name.
use hushvault.Base.{
  starts_with, ℕ, Bool, true, false, not, ◌&&◌, ◌||◌, Option, none, some, List, [], ◌∷◌, map,
  filter, length, Text, same, less, has, ltb, ◌==◌, if◌then◌else◌,
}
use hushvault.Sync.Names.{is_reserved_sync_name, is_unsafe, matches_name}

-- `SyncErrorCode`; the first six are the codes that a provider may give.
pub data Code : Type 0 where
  provider_auth provider_rate_limit provider_validation provider_error target_not_found timeout :
      Code
  computed_error credential_unavailable decryption_failed target_not_allowed : Code

pub data ValueBlocker : Type 0 where
  empty_value value_too_large : ValueBlocker

-- What the planner asks of a provider. The hooks are optional in the source; `none` stands for an
-- absent one. `byte_length` is the length of the value's UTF-8 encoding.
pub record Provider : Type 0 where
  pub max_items : ℕ
  pub max_name_length : ℕ
  pub max_value_bytes : ℕ
  pub max_ops_per_chunk : Option ℕ
  pub validate_name : Option (Text → Bool)
  pub validate_value : Option (Text → Text → Option ValueBlocker)
  pub byte_length : Text → ℕ

pub record Secret : Type 0 where
  pub name : Text
  pub value : Text

pub record LedgerRow : Type 0 where
  pub item : Text
  pub fingerprint : Text

unfoldable pub insert : Text → List Text → List Text
insert s [] = s ∷ []
insert s (t ∷ ts) = if less t s then t ∷ insert s ts else s ∷ t ∷ ts

unfoldable pub sorted : List Text → List Text
unfolding insert
sorted [] = []
sorted (s ∷ ss) = insert s (sorted ss)

unfoldable pub names_of : List Secret → List Text
names_of = map λ s. s.name

unfoldable pub value_of : List Secret → Text → Text
value_of [] name = []
value_of (s ∷ ss) name = if same s.name name then s.value else value_of ss name

-- The fingerprint that the ledger has for a name.
unfoldable pub known : List LedgerRow → Text → Option Text
known [] name = none
known (r ∷ rs) name = if same r.item name then some r.fingerprint else known rs name

pub data Op : Type 0 where
  create update : (name fingerprint value : Text) → Op
  remove : (name : Text) → Op

pub data BlockerCode : Type 0 where
  name_invalid blank_value too_large too_many_items : BlockerCode

-- What is read for one plan, after the guards: the environment's secrets, the name filter, the
-- names on the target and the ledger.
pub record Facts : Type 0 where
  pub secrets : List Secret
  pub prefix : Option Text
  pub deny : List Text
  pub delete_removed : Bool
  pub on_target : List Text
  pub ledger : List LedgerRow

module _ (provider : Provider) where
  open provider use {
    max_items, max_name_length, max_value_bytes, validate_name, validate_value, byte_length,
  }

  unfoldable pub default_name_ok : Option (Text → Bool) → Text → Bool
  default_name_ok none name = matches_name name && not (ltb max_name_length (length name))
  default_name_ok (some valid) name = valid name

  unfoldable pub name_ok : Text → Bool
  unfolding default_name_ok
  name_ok name = not (is_unsafe name) && default_name_ok validate_name name

  unfoldable pub blocker_with :
      Option (Text → Text → Option ValueBlocker) → Text → Text → Option ValueBlocker
  blocker_with (some check) name value = check name value
  blocker_with none name value =
      if length value == 0
      then some empty_value
      else (if ltb max_value_bytes (byte_length value) then some value_too_large else none)

  unfoldable pub value_blocker : Text → Text → Option ValueBlocker
  unfolding blocker_with
  value_blocker = blocker_with validate_value

  unfoldable pub is_blank : Option ValueBlocker → Bool
  is_blank (some empty_value) = true
  is_blank _ = false

  unfoldable pub is_large : Option ValueBlocker → Bool
  is_large (some value_too_large) = true
  is_large _ = false

  module _ (f : Facts) where
    open f use {secrets, prefix, deny, delete_removed, on_target, ledger}

    unfoldable pub in_prefix : Option Text → Text → Bool
    in_prefix none name = true
    in_prefix (some p) name = starts_with p name

    unfoldable pub passes_filter : Text → Bool
    unfolding in_prefix
    passes_filter name = in_prefix prefix name && not (has deny name)

    unfoldable pub wanted : List Secret
    unfolding passes_filter
    wanted = filter (λ s. passes_filter s.name && not (is_reserved_sync_name s.name)) secrets

    unfoldable pub reserved : List Text
    unfolding passes_filter names_of
    reserved = names_of (filter (λ s. passes_filter s.name && is_reserved_sync_name s.name) secrets)

    unfoldable pub invalid_names : List Text
    unfolding names_of
    invalid_names = names_of (filter (λ s. not (name_ok s.name)) wanted)

    unfoldable pub blank_values : List Text
    unfolding names_of is_blank
    blank_values =
        names_of (filter (λ s. name_ok s.name && is_blank (value_blocker s.name s.value)) wanted)

    unfoldable pub large_values : List Text
    unfolding names_of is_large
    large_values =
        names_of (filter (λ s. name_ok s.name && is_large (value_blocker s.name s.value)) wanted)

    unfoldable pub blocked : Text → Bool
    blocked name = has invalid_names name || (has blank_values name || has large_values name)

    unfoldable pub wanted_names : List Text
    wanted_names = sorted (names_of wanted)
