-- ===== src/Sync/Decide.antt =====
-- `planSync`, second half: deletions, capacity, and the verdict on each wanted name; and the guards
-- in front of it. `fp` stands for the keyed fingerprint of a name and a value (`fingerprintWith`).
use hushvault.Base.{
  ℕ, ◌+◌, ◌-◌, min, Bool, true, false, not, ◌&&◌, ◌||◌, Option, none, some, List, [], ◌∷◌, ◌++◌,
  map, filter, length, drop, Text, same, has, ltb, if◌then◌else◌,
}
use hushvault.Sync.Names.{is_reserved_sync_name}
use hushvault.Sync.Plan.{
  Provider, LedgerRow, sorted, names_of, value_of, known, Op, create, update, remove, BlockerCode,
  name_invalid, blank_value, too_large, too_many_items, Facts, wanted, reserved, invalid_names,
  blank_values, large_values, blocked, wanted_names,
}

pub data Verdict : Type 0 where
  left_out conflicting creates updates skips : Verdict

pub record Blocker : Type 0 where
  pub blocker_code : BlockerCode
  pub names : List Text

pub record Plan : Type 0 where
  pub create_names : List Text
  pub update_names : List Text
  pub delete_names : List Text
  pub skip_names : List Text
  pub conflict_names : List Text
  pub blockers : List Blocker
  pub ops : List Op
  pub forget : List Text
  pub reserved_names : List Text

abbrev pub blocker_if : BlockerCode → List Text → List Blocker
blocker_if code [] = []
blocker_if code (n ∷ ns) = record { blocker_code = code; names = sorted (n ∷ ns) } ∷ []

module _ (provider : Provider) (fp : Text → Text → Text) (f : Facts) where
  open f use {secrets, on_target, ledger, delete_removed}

  -- A ledger name that is neither wanted nor reserved.
  unfoldable pub is_stale : Text → Bool
  is_stale name = not (has (names_of (wanted provider f)) name) && not (is_reserved_sync_name name)

  unfoldable pub stale : List Text
  stale = filter is_stale (sorted (map (λ (r : LedgerRow). r.item) ledger))

  -- Only a name that left the environment is deleted, and only if it still is on the target.
  unfoldable pub delete_list : List Text
  delete_list =
      if delete_removed
      then filter (λ n. not (has (names_of secrets) n) && has on_target n) stale
      else []

  unfoldable pub forget_list : List Text
  forget_list =
      if delete_removed
      then filter (λ n. has (names_of secrets) n || not (has on_target n)) stale
      else []

  unfoldable pub candidates : List Text
  candidates = filter (λ n. not (has on_target n)) (wanted_names provider f)

  -- What the target would hold.
  unfoldable pub projected : ℕ
  projected = length on_target + length candidates - length delete_list

  unfoldable pub overflow : ℕ
  overflow = min (projected - provider.max_items) (length candidates)

  unfoldable pub over_capacity : List Text
  over_capacity =
      if ltb 0 (length candidates) && ltb provider.max_items projected
      then drop (length candidates - overflow) candidates
      else []

  unfoldable pub by_ledger : Option Text → (on_it : Bool) → (fingerprint : Text) → Verdict
  by_ledger none true fingerprint = conflicting
  by_ledger none false fingerprint = creates
  by_ledger (some k) false fingerprint = creates
  by_ledger (some k) true fingerprint = if same k fingerprint then skips else updates

  unfoldable pub verdict : Text → Verdict
  unfolding by_ledger
  verdict name =
      if blocked provider f name || has over_capacity name
      then left_out
      else by_ledger (known ledger name) (has on_target name)
          (fp name (value_of (wanted provider f) name))

  unfoldable pub push_op : Verdict → Text → Text → List Op → List Op
  push_op creates name value ops = create name (fp name value) value ∷ ops
  push_op updates name value ops = update name (fp name value) value ∷ ops
  push_op _ name value ops = ops

  unfoldable pub set_ops : List Text → List Op
  unfolding push_op
  set_ops [] = []
  set_ops (name ∷ names) =
      push_op (verdict name) name (value_of (wanted provider f) name) (set_ops names)

  abbrev pub is_verdict : Verdict → Verdict → Bool
  is_verdict left_out left_out = true
  is_verdict conflicting conflicting = true
  is_verdict creates creates = true
  is_verdict updates updates = true
  is_verdict skips skips = true
  is_verdict _ _ = false

  unfoldable pub with_verdict : Verdict → List Text
  with_verdict v = filter (λ n. is_verdict v (verdict n)) (wanted_names provider f)

  unfoldable pub classify : Plan
  classify = record {
    create_names = sorted (with_verdict creates);
    update_names = sorted (with_verdict updates);
    delete_names = delete_list;
    skip_names = sorted (reserved provider f ++ with_verdict skips);
    conflict_names = sorted (with_verdict conflicting);
    blockers =
        blocker_if name_invalid (invalid_names provider f)
        ++ (blocker_if blank_value (blank_values provider f)
            ++ (blocker_if too_large (large_values provider f)
                ++ blocker_if too_many_items over_capacity));
    ops = set_ops (wanted_names provider f) ++ map remove delete_list;
    forget = forget_list;
    reserved_names = sorted (reserved provider f);
  }
