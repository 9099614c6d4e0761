-- ===== src/Resolve/Meaning.antt =====
-- What a template means, independently of the order and the depth of evaluation.
use hushvault.Base.{ℕ, ◌≡◌, true, false, some, List, [], ◌∷◌, ◌++◌, Text}
use hushvault.Resolve.{Input, Segment, literal, placeholder, segments, by_name}

mutual
  -- The value of a name: a plain secret's own, or its template with every placeholder replaced by
  -- the value of the name in it.
  pub data Means (inputs : List Input) : Text → Text → Type 0 where
    plain :
        {name : Text} (i : Input)
        → by_name inputs name ≡ some i
        → i.is_computed ≡ false
        → {v : Text} → i.value ≡ v
        → Means inputs name v
    computed :
        {name : Text} (i : Input)
        → by_name inputs name ≡ some i
        → i.is_computed ≡ true
        → {v : Text} → Expands inputs (segments i.template) v
        → Means inputs name v

  pub data Expands (inputs : List Input) : List Segment → Text → Type 0 where
    nothing : Expands inputs [] []
    char :
        {c : ℕ} {segs : List Segment} {v : Text}
        → Expands inputs segs v
        → Expands inputs (literal c ∷ segs) (c ∷ v)
    name_in :
        {inner : Text} {segs : List Segment} {u v w : Text}
        → Means inputs inner u
        → Expands inputs segs v
        → u ++ v ≡ w
        → Expands inputs (placeholder inner ∷ segs) w
