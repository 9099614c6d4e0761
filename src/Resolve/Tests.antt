-- ===== src/Resolve/Tests.antt =====
-- A small environment and its parent, and templates.
use hushvault.Base.{
  ◌≡◌, refl, true, false, none, some, List, [], ◌∷◌, Text, codes, same, has, filter,
}
use hushvault.Resolve.{
  Input, segments, scan, by_name, found, fault, Values, value_in, evaluate_secrets, resolve_all,
  then_all, resolve, or_cached, resolve_input, compute, keep, expand, append_value,
  is_placeholder_name, name_start, circular, extract_placeholders, inner_of,
}
use hushvault.Resolve.Meaning.{Means}
use hushvault.Resolve.Unique.{evaluate_secrets_unique}
use hushvault.Resolve.Inherit.{
  Environment, SecretRow, env_in, parent_of, climb, climb_to, chain_of, selected_rows,
}
use hushvault.Resolve.Nearest.{row_for, nearest, row_for-selected_rows}
use hushvault.Resolve.Chain.{IsClimbed, chain_of-IsClimbed}

abbrev plain_secret : Text → Text → Input
plain_secret n v = record { name = n; is_computed = false; template = []; value = v }

abbrev template_secret : Text → Text → Input
template_secret n t = record { name = n; is_computed = true; template = t; value = [] }

abbrev inputs : List Input
inputs = template_secret (codes "U") (codes "a${H}b") ∷ plain_secret (codes "H") (codes "x") ∷ []

abbrev outputs : Values
outputs = (codes "U", codes "axb") ∷ (codes "H", codes "x") ∷ []

evaluates : evaluate_secrets inputs ≡ found outputs
unfolding evaluate_secrets resolve_all then_all resolve or_cached resolve_input compute keep expand
    append_value is_placeholder_name name_start scan segments value_in by_name same has
evaluates = refl

evaluate_secrets_unique_example :
    Means inputs (codes "U") (codes "axb")
    × ((w : Text) → Means inputs (codes "U") w → w ≡ codes "axb")
unfolding value_in same
evaluate_secrets_unique_example =
    evaluate_secrets_unique inputs outputs (codes "U") (codes "axb") evaluates refl

self_reference :
    evaluate_secrets (template_secret (codes "A") (codes "${A}") ∷ [])
    ≡ fault (circular (codes "A") (codes "A"))
unfolding evaluate_secrets resolve_all then_all resolve or_cached resolve_input compute keep expand
    append_value is_placeholder_name name_start scan segments value_in by_name same has
self_reference = refl

placeholders : extract_placeholders (codes "${A}${1}$") ≡ some (codes "A") ∷ none ∷ []
unfolding extract_placeholders inner_of segments scan is_placeholder_name name_start
placeholders = refl

abbrev root : Environment
root = record { env = codes "e0"; project_id = codes "p"; org_id = codes "o"; parent_env_id = none }

abbrev child : Environment
child = record {
  env = codes "e1";
  project_id = codes "p";
  org_id = codes "o";
  parent_env_id = some (codes "e0");
}

chain_found : chain_of (root ∷ child ∷ []) child ≡ some (codes "e0" ∷ codes "e1" ∷ [])
unfolding chain_of climb climb_to env_in parent_of same has
chain_found = refl

chain_of-IsClimbed_example :
    IsClimbed (root ∷ child ∷ []) (codes "p") child none 11 (codes "e0" ∷ codes "e1" ∷ [])
chain_of-IsClimbed_example =
    chain_of-IsClimbed (root ∷ child ∷ []) child (codes "e0" ∷ codes "e1" ∷ []) chain_found

abbrev row : Text → Text → SecretRow
row i e = record {
  id = i;
  project = codes "p";
  env_id = e;
  name = codes "K";
  is_computed = false;
  template = none;
}

row_for-selected_rows_example :
    row_for
      (selected_rows
        (codes "p")
        (codes "e0" ∷ codes "e1" ∷ [])
        (row (codes "s1") (codes "e1") ∷ row (codes "s0") (codes "e0") ∷ []))
      (codes "K")
    ≡ nearest
        (codes "e0" ∷ codes "e1" ∷ [])
        (filter
          (λ r. same r.project (codes "p"))
          (row (codes "s1") (codes "e1") ∷ row (codes "s0") (codes "e0") ∷ []))
        (codes "K")
row_for-selected_rows_example =
    row_for-selected_rows (codes "p") (codes "e0" ∷ codes "e1" ∷ [])
      (row (codes "s1") (codes "e1") ∷ row (codes "s0") (codes "e0") ∷ []) (codes "K")
