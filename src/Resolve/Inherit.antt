-- ===== src/Resolve/Inherit.antt =====
-- Resolving an environment: apps/api/src/lib/resolve-environment.ts. The chain of its ancestors, the
-- merge of their secrets, and the evaluation. Reading and decrypting a value is the parameter
-- `decrypt`, none where it fails.
use hushvault.Base.{
  ℕ, zero, suc, Bool, true, false, ◌&&◌, Option, none, some, List, [], ◌∷◌, ◌++◌, map, filter, find,
  Text, same, less, has, if◌then◌else◌, or_else,
}
use hushvault.Resolve.{
  Input, Result, found, fault, unreachable, Fault, Values, value_in, evaluate_secrets,
}

abbrev pub max_inheritance_depth : ℕ
max_inheritance_depth = 10

pub record Environment : Type 0 where
  pub env : Text
  pub project_id : Text
  pub org_id : Text
  pub parent_env_id : Option Text

pub record SecretRow : Type 0 where
  pub id : Text
  pub project : Text
  pub env_id : Text
  pub name : Text
  pub is_computed : Bool
  pub template : Option Text

pub record ResolvedSecret : Type 0 where
  pub secret_id : Text
  pub secret_name : Text
  pub computed : Bool
  pub inherited_from : Option Text
  pub secret_value : Option Text

pub data Resolution : Type 0 where
  not_found invalid_chain decryption_failed : Resolution
  computed_error : Fault → Resolution
  threw : Resolution
  resolved : (environment project : Text) → List ResolvedSecret → Resolution

-- An empty parent id ends the chain, as in `while (parentId)`.
unfoldable pub parent_of : Option Text → Option Text
parent_of none = none
parent_of (some []) = none
parent_of (some (c ∷ s)) = some (c ∷ s)

module _ (envs : List Environment) where
  unfoldable pub env_in : (project id : Text) → Option Environment
  env_in project id = find (λ e. same e.env id && same e.project_id project) envs

  unfoldable pub climb_to :
      (next : List Text → Option Text → Option (List Text))
      → (chain : List Text) → Option Environment
      → Option (List Text)
  unfolding parent_of
  climb_to next chain none = none
  climb_to next chain (some e) = next (e.env ∷ chain) (parent_of e.parent_env_id)

  -- The loop over the parents; `room` is what the chain may still grow by.
  unfoldable pub climb :
      (room : ℕ) → (project : Text) → List Text → Option Text → Option (List Text)
  unfolding climb_to
  climb room project chain none = some chain
  climb zero project chain (some p) = none
  climb (suc room) project chain (some p) =
      if has chain p then none else climb_to (climb room project) chain (env_in project p)

  -- From the root to the environment itself.
  unfoldable pub chain_of : Environment → Option (List Text)
  unfolding parent_of
  chain_of e = climb max_inheritance_depth e.project_id (e.env ∷ []) (parent_of e.parent_env_id)

-- The rows of a chain in the order of their rank: a stable sort by the position in the chain.
unfoldable pub ranked : List Text → List SecretRow → List SecretRow
ranked [] rows = []
ranked (e ∷ chain) rows = filter (λ r. same r.env_id e) rows ++ ranked chain rows

-- `merged.set(row.name, row)`.
unfoldable pub set_row : SecretRow → List SecretRow → List SecretRow
set_row row [] = row ∷ []
set_row row (r ∷ rs) = if same r.name row.name then row ∷ rs else r ∷ set_row row rs

unfoldable pub set_rows : List SecretRow → List SecretRow → List SecretRow
unfolding set_row
set_rows [] merged = merged
set_rows (row ∷ rows) merged = set_rows rows (set_row row merged)

unfoldable pub insert_row : SecretRow → List SecretRow → List SecretRow
insert_row row [] = row ∷ []
insert_row row (r ∷ rs) = if less r.name row.name then r ∷ insert_row row rs else row ∷ r ∷ rs

unfoldable pub by_row_name : List SecretRow → List SecretRow
unfolding insert_row
by_row_name [] = []
by_row_name (r ∷ rs) = insert_row r (by_row_name rs)

unfoldable pub merged_rows : (project : Text) → List Text → List SecretRow → List SecretRow
unfolding ranked
merged_rows project chain rows =
    set_rows (ranked chain (filter (λ r. same r.project project) rows)) []

unfoldable pub selected_rows : (project : Text) → List Text → List SecretRow → List SecretRow
selected_rows project chain rows = by_row_name (merged_rows project chain rows)

module _ (decrypt : SecretRow → Option Text) where
  unfoldable pub input_of : SecretRow → (plain : Text) → Input
  input_of r plain = record {
    name = r.name;
    is_computed = r.is_computed;
    template = or_else r.template [];
    value = plain;
  }

  unfoldable pub and_input : Option Input → Option (List Input) → Option (List Input)
  and_input none rest = none
  and_input (some i) none = none
  and_input (some i) (some rest) = some (i ∷ rest)

  unfoldable pub plain_of : SecretRow → Option Text → Option Input
  unfolding input_of
  plain_of r none = none
  plain_of r (some v) = some (input_of r v)

  -- Every value that is not computed is decrypted; one that cannot be fails the whole.
  unfoldable pub inputs_of : List SecretRow → Option (List Input)
  unfolding and_input plain_of input_of
  inputs_of [] = some []
  inputs_of (r ∷ rs) =
      and_input (if r.is_computed then some (input_of r []) else plain_of r (decrypt r))
        (inputs_of rs)

  unfoldable pub dto : (environment : Text) → Option Values → SecretRow → ResolvedSecret
  dto environment values r = record {
    secret_id = r.id;
    secret_name = r.name;
    computed = r.is_computed;
    inherited_from = if same r.env_id environment then none else some r.env_id;
    secret_value = value_or values r.name;
  }
    where
      value_or : Option Values → Text → Option Text
      value_or none name = none
      value_or (some vs) name = some (or_else (value_in vs name) [])

  unfoldable pub with_values : Environment → List SecretRow → Result Values → Resolution
  unfolding dto value_in
  with_values e rows (found values) =
      resolved e.env e.project_id (map (dto e.env (some values)) rows)
  with_values e rows (fault f) = computed_error f
  with_values e rows unreachable = threw

  unfoldable pub evaluated : Environment → List SecretRow → Option (List Input) → Resolution
  unfolding with_values
  evaluated e rows none = decryption_failed
  evaluated e rows (some inputs) = with_values e rows (evaluate_secrets inputs)

  unfoldable pub resolve_rows : (values : Bool) → Environment → List SecretRow → Resolution
  unfolding evaluated inputs_of dto
  resolve_rows true e rows = evaluated e rows (inputs_of rows)
  resolve_rows false e rows = resolved e.env e.project_id (map (dto e.env none) rows)

  unfoldable pub resolve_chain :
      (values : Bool) → Environment → List SecretRow → Option (List Text) → Resolution
  unfolding resolve_rows selected_rows
  resolve_chain values e rows none = invalid_chain
  resolve_chain values e rows (some chain) =
      resolve_rows values e (selected_rows e.project_id chain rows)

  unfoldable pub resolve_found :
      (values : Bool) → List Environment → List SecretRow → Option Environment → Resolution
  unfolding resolve_chain chain_of
  resolve_found values envs rows none = not_found
  resolve_found values envs rows (some e) = resolve_chain values e rows (chain_of envs e)

  -- `resolveEnvironment`.
  unfoldable pub resolve_environment :
      (values : Bool) → List Environment → List SecretRow → (org environment : Text) → Resolution
  unfolding resolve_found
  resolve_environment values envs rows org environment =
      resolve_found values envs rows (find (λ e. same e.env environment && same e.org_id org) envs)
