-- ===== src/Resolve.antt =====
-- Computed secrets: apps/api/src/lib/resolve.ts. A template is split into its literal characters and
-- its placeholders `${NAME}`; evaluation threads the map of the values found so far.
pub mod Inherit
pub mod Nearest
pub mod Chain
pub mod Meaning
pub mod Sound
pub mod Unique
pub mod Tests
use hushvault.Base.{
  ℕ, zero, suc, Bool, true, false, not, ◌&&◌, ◌||◌, Option, none, some, List, [], ◌∷◌, ◌++◌, map,
  all, length, Text, codes, same, has, leb, ltb, ◌==◌, if◌then◌else◌, or_else, is_some,
}

-- `PLACEHOLDER_NAME`.
unfoldable pub name_start : ℕ → Bool
name_start c = (leb b'A' c && leb c b'Z') || ((leb b'a' c && leb c b'z') || c == b'_')

unfoldable pub is_placeholder_name : Text → Bool
unfolding name_start
is_placeholder_name [] = false
is_placeholder_name (c ∷ s) =
    name_start c && all (λ d. name_start d || (leb b'0' d && leb d b'9')) s

abbrev pub max_reference_depth : ℕ
max_reference_depth = 64

abbrev pub max_value_length : ℕ
max_value_length = 262144

pub record Input : Type 0 where
  pub name : Text
  pub is_computed : Bool
  pub template : Text
  pub value : Text

pub data Fault : Type 0 where
  circular missing : (secret reference : Text) → Fault
  invalid_reference too_deep too_large : (secret : Text) → Fault

-- An evaluation ends in a value, in an error, or in the throw that is marked `unreachable`.
pub data Result (A : Type 0) : Type 0 where
  found : A → Result A
  fault : Fault → Result A
  unreachable : Result A

pub data Segment : Type 0 where
  literal : ℕ → Segment
  placeholder : Text → Segment

-- The matches of `/\$\{([^}]*)\}/g` and the text between them. `some inner` means that `${` and
-- `inner` were read, and no `}` yet.
unfoldable pub scan : Option Text → Text → List Segment
scan none [] = []
scan none (c ∷ []) = literal c ∷ []
scan none (c ∷ d ∷ s) =
    let inside = scan (some []) s in
    let outside = scan none (d ∷ s) in
    if c == b'$' && d == b'{' then inside else literal c ∷ outside
scan (some inner) [] = map literal (codes "${" ++ inner)
scan (some inner) (c ∷ s) =
    let closed = scan none s in
    let more = scan (some (inner ++ c ∷ [])) s in
    if c == b'}' then placeholder inner ∷ closed else more

unfoldable pub segments : Text → List Segment
segments = scan none

unfoldable pub inner_of : List Segment → List (Option Text)
inner_of [] = []
inner_of (literal c ∷ segs) = inner_of segs
inner_of (placeholder inner ∷ segs) =
    (if is_placeholder_name inner then some inner else none) ∷ inner_of segs

-- `extractPlaceholders`.
unfoldable pub extract_placeholders : Text → List (Option Text)
unfolding inner_of
extract_placeholders template = inner_of (segments template)

abbrev pub Values : Type 0
Values = List (Text × Text)

unfoldable pub value_in : Values → Text → Option Text
value_in [] name = none
value_in ((n, v) ∷ rest) name = if same n name then some v else value_in rest name

abbrev pub later_or : Option Input → Input → Text → Option Input
later_or (some j) i name = some j
later_or none i name = if same i.name name then some i else none

-- `new Map(inputs by name)`: the last input of a name counts.
unfoldable pub by_name : List Input → Text → Option Input
by_name [] name = none
by_name (i ∷ is) name = later_or (by_name is name) i name

-- A reference was resolved: its value is appended, unless the result grows too large.
unfoldable pub append_value :
    (rest : Values → Text → Result (Values × Text))
    → (secret result : Text) → Result (Values × Text)
    → Result (Values × Text)
append_value rest secret result (found (values, v)) =
    if ltb max_value_length (length (result ++ v))
    then fault (too_large secret)
    else rest values (result ++ v)
append_value rest secret result (fault e) = fault e
append_value rest secret result unreachable = unreachable

-- The value of a computed secret is kept.
unfoldable pub keep : (name : Text) → Result (Values × Text) → Result (Values × Text)
keep name (found (values, v)) = found ((name, v) ∷ values, v)
keep name (fault e) = fault e
keep name unreachable = unreachable

module _ (inputs : List Input) where
  -- The loop over the matches of a template; `self` resolves a reference, `stack` has the secret
  -- itself and those that wait for it.
  unfoldable pub expand :
      (self : Values → Text → Result (Values × Text))
      → (secret : Text) → (stack : List Text) → List Segment
      → Values
      → (result : Text) → Result (Values × Text)
  unfolding append_value
  expand self secret stack [] values result =
      if ltb max_value_length (length result)
      then fault (too_large secret)
      else found (values, result)
  expand self secret stack (literal c ∷ segs) values result =
      expand self secret stack segs values (result ++ c ∷ [])
  expand self secret stack (placeholder inner ∷ segs) values result =
      if not (is_placeholder_name inner)
      then fault (invalid_reference secret)
      else (if not (is_some (by_name inputs inner))
          then fault (missing secret inner)
          else (if has stack inner
              then fault (circular secret inner)
              else append_value (expand self secret stack segs) secret result (self values inner)))

  -- A computed secret: `deeper` is the evaluation with one more secret on the stack, and `none` when
  -- the stack is full.
  unfoldable pub compute :
      Option (List Text → Values → Text → Result (Values × Text))
      → (stack : List Text) → Input
      → (name : Text) → Values
      → Result (Values × Text)
  unfolding keep expand
  compute none stack i name values =
      if has stack name then fault (circular name name) else fault (too_deep name)
  compute (some deeper) stack i name values =
      if has stack name
      then fault (circular name name)
      else keep name
          (expand (deeper (name ∷ stack)) name (name ∷ stack) (segments i.template) values [])

  unfoldable pub resolve_input :
      Option (List Text → Values → Text → Result (Values × Text))
      → (stack : List Text) → Option Input
      → (name : Text) → Values
      → Result (Values × Text)
  unfolding compute
  resolve_input deeper stack none name values = unreachable
  resolve_input deeper stack (some i) name values =
      if i.is_computed
      then compute deeper stack i name values
      else found ((name, i.value) ∷ values, i.value)

  unfoldable pub or_cached : Option Text → Values → Result (Values × Text) → Result (Values × Text)
  or_cached (some v) values r = found (values, v)
  or_cached none values r = r

  -- `resolve`; `room` is what the stack may still grow by, so the recursion ends.
  unfoldable pub resolve :
      (room : ℕ) → (stack : List Text) → Values → (name : Text) → Result (Values × Text)
  unfolding resolve_input or_cached
  resolve zero stack values name =
      or_cached (value_in values name) values
        (resolve_input none stack (by_name inputs name) name values)
  resolve (suc room) stack values name =
      or_cached (value_in values name) values
        (resolve_input (some (resolve room)) stack (by_name inputs name) name values)

  unfoldable pub then_all : (Values → Result Values) → Result (Values × Text) → Result Values
  then_all rest (found (values, v)) = rest values
  then_all rest (fault e) = fault e
  then_all rest unreachable = unreachable

  unfoldable pub resolve_all : List Input → Values → Result Values
  unfolding then_all
  resolve_all [] values = found values
  resolve_all (s ∷ rest) values =
      then_all (resolve_all rest) (resolve max_reference_depth [] values s.name)

-- `evaluateSecrets`.
unfoldable pub evaluate_secrets : List Input → Result Values
evaluate_secrets inputs = resolve_all inputs inputs []
