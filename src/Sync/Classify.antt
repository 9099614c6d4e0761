-- ===== src/Sync/Classify.antt =====
-- What every planned operation satisfies, and that every wanted name is accounted for.
use hushvault.Base.{
  ◌≡◌, refl, sym, ◌∙◌, true, false, not, ◌&&◌, Option, none, some, List, [], ◌∷◌, map, filter, Text,
  same_iff, has, arith, All, All-append, All-of_has, ◌≢◌, inl, inr, Bool-cases, Option-cases,
}
use hushvault.Sync.Names.{is_reserved_sync_name}
use hushvault.Sync.Plan.{
  ValueBlocker, Provider, LedgerRow, sorted, names_of, value_of, known, name_ok, value_blocker, Op,
  create, update, remove, Facts, passes_filter, wanted, invalid_names, blank_values, large_values,
  blocked, wanted_names, is_blank, is_large, empty_value, value_too_large,
}
use hushvault.Sync.Decide.{
  Verdict, left_out, conflicting, creates, updates, skips, is_stale, stale, delete_list, by_ledger,
  verdict, push_op, set_ops, classify,
}
use hushvault.Sync.Lookup.{has-sorted, has-filter, has-names_filter, value_of-filter, rejects_first}

abbrev pub ledger_names : Facts → List Text
ledger_names f = map (λ (r : LedgerRow). r.item) f.ledger

module _ (provider : Provider) (fp : Text → Text → Text) (f : Facts) where
  open f use {secrets, on_target, ledger, delete_removed}

  -- A value of the environment that the filter, the reserved names and the provider all admit.
  pub record IsPushable (name fingerprint value : Text) : Type 0 where
    pub in_environment : has (names_of secrets) name ≡ true
    pub its_value : value ≡ value_of secrets name
    pub its_fingerprint : fingerprint ≡ fp name value
    pub passes : passes_filter provider f name ≡ true
    pub not_reserved : is_reserved_sync_name name ≡ false
    pub valid_name : name_ok provider name ≡ true
    pub valid_value : value_blocker provider name value ≡ none

  -- What an operation of the plan must satisfy.
  abbrev pub IsSound : Op → Type 0
  IsSound (create name fingerprint value) =
      IsPushable name fingerprint value × (has on_target name ≡ false)
  IsSound (update name fingerprint value) =
      IsPushable name fingerprint value
      × (has on_target name ≡ true)
      × (known ledger name ≢ none)
      × (known ledger name ≢ some fingerprint)
  IsSound (remove name) =
      (delete_removed ≡ true)
      × (has (ledger_names f) name ≡ true)
      × (has (names_of secrets) name ≡ false)
      × (has on_target name ≡ true)
      × (is_reserved_sync_name name ≡ false)

  wanted_iff :
      (name : Text)
      → has (names_of (wanted provider f)) name ≡ (
          has (names_of secrets) name
          && (passes_filter provider f name && not (is_reserved_sync_name name)))
  unfolding wanted
  wanted_iff name =
      has-names_filter (λ n. passes_filter provider f n && not (is_reserved_sync_name n)) name
        secrets

  blocker_cases :
      (b : Option ValueBlocker)
      → is_blank provider b ≡ false
      → is_large provider b ≡ false
      → b ≡ none
  unfolding is_blank is_large
  blocker_cases none h k = refl
  blocker_cases (some empty_value) h k = cc
  blocker_cases (some value_too_large) h k = cc

  -- A wanted name that no blocker names is valid, and so is its value.
  unblocked :
      (name : Text)
      → has (names_of (wanted provider f)) name ≡ true
      → blocked provider f name ≡ false
      → let value = value_of (wanted provider f) name in
        (name_ok provider name ≡ true) × (value_blocker provider name value ≡ none)
  unfolding blocked invalid_names blank_values large_values
  unblocked name w b =
      let ss = wanted provider f in
      let ok = rejects_first (λ s. not (name_ok provider s.name)) name ss w (ground arith) in
      let blank =
        rejects_first
          (λ s.
            name_ok provider s.name && is_blank provider (value_blocker provider s.name s.value))
          name ss w (ground arith) in
      let large =
        rejects_first
          (λ s.
            name_ok provider s.name && is_large provider (value_blocker provider s.name s.value))
          name ss w (ground arith) in
      (ground arith, blocker_cases _ (ground arith) (ground arith))

  pushable :
      (name : Text)
      → has (names_of (wanted provider f)) name ≡ true
      → blocked provider f name ≡ false
      → let value = value_of (wanted provider f) name in IsPushable name (fp name value) value
  unfolding wanted
  pushable name w b =
      let both = wanted_iff name in
      record {
        in_environment = ground arith;
        its_value =
            value_of-filter (λ n. passes_filter provider f n && not (is_reserved_sync_name n)) name
              secrets (ground arith);
        its_fingerprint = refl;
        passes = ground arith;
        not_reserved = ground arith;
        valid_name = (unblocked name w b).0;
        valid_value = (unblocked name w b).1;
      }

  verdict_creates :
      (name : Text)
      → verdict provider fp f name ≡ creates
      → (blocked provider f name ≡ false) × (has on_target name ≡ false)
  unfolding verdict by_ledger
  verdict_creates name e = ground arith

  verdict_updates :
      (name : Text)
      → verdict provider fp f name ≡ updates
      → (blocked provider f name ≡ false)
        × (has on_target name ≡ true)
        × (known ledger name ≢ none)
        × (known ledger name ≢ some (fp name (value_of (wanted provider f) name)))
  unfolding verdict by_ledger
  verdict_updates name e = elim (Option-cases (known ledger name)) [
    | inl new ↦ absurd (ground (arith, new))
    | inr (k, old) ↦ (
      ground arith,
      ground arith,
      λ n. cc (old, n),
      λ q. ground (arith, same_iff k (fp name (value_of (wanted provider f) name))),
    )
  ]

  pushed-IsSound :
      (v : Verdict) (name : Text) (ops : List Op)
      → has (names_of (wanted provider f)) name ≡ true
      → verdict provider fp f name ≡ v
      → All IsSound ops
      → All IsSound (push_op provider fp f v name (value_of (wanted provider f) name) ops)
  unfolding push_op
  pushed-IsSound left_out name ops w e h = h
  pushed-IsSound conflicting name ops w e h = h
  pushed-IsSound skips name ops w e h = h
  pushed-IsSound creates name ops w e h =
      let (b, t) = verdict_creates name e in ((pushable name w b, t), h)
  pushed-IsSound updates name ops w e h =
      let (b, t, k, d) = verdict_updates name e in ((pushable name w b, t, k, d), h)

  set_ops-IsSound :
      (names : List Text)
      → All (λ n. has (names_of (wanted provider f)) n ≡ true) names
      → All IsSound (set_ops provider fp f names)
  unfolding set_ops
  set_ops-IsSound [] h = tt
  set_ops-IsSound (n ∷ ns) (w, h) =
      pushed-IsSound (verdict provider fp f n) n _ w refl (set_ops-IsSound ns h)

  removes-IsSound :
      (names : List Text) → All (λ n. IsSound (remove n)) names → All IsSound (map remove names)
  removes-IsSound [] h = tt
  removes-IsSound (n ∷ ns) (p, h) = (p, removes-IsSound ns h)

  nothing_listed : (n : Text) → delete_removed ≡ false → has (delete_list provider fp f) n ≡ false
  unfolding delete_list has
  nothing_listed n off = rw off refl

  deleted-IsSound : (n : Text) → has (delete_list provider fp f) n ≡ true → IsSound (remove n)
  unfolding delete_list stale is_stale
  deleted-IsSound n h = elim (Bool-cases delete_removed) [
    | inl on ↦ ground (
      arith,
      on,
      has-filter (λ m. not (has (names_of secrets) m) && has on_target m) n
          (filter (is_stale provider fp f) (sorted (ledger_names f))),
      has-filter (is_stale provider fp f) n (sorted (ledger_names f)),
      has-sorted n (ledger_names f),
    )
    | inr off ↦ absurd (ground (arith, off, h, nothing_listed n off))
  ]

  -- Every operation of the plan is sound: a name is set only if it is in the environment with that
  -- value and its fingerprint, passes the name filter, is not reserved, and has a valid name and
  -- value; it is created only if it is not on the target, and updated only if it is there, in the
  -- ledger, and under another fingerprint. A name is deleted only if deletion is on, the ledger has
  -- it, the environment does not, the target does, and it is not reserved.
  pub classify-IsSound : All IsSound (classify provider fp f).ops
  unfolding classify wanted_names
  classify-IsSound =
      All-append IsSound _ _
        (set_ops-IsSound _
          (All-of_has _ _ (λ n e. sym (has-sorted n (names_of (wanted provider f))) ∙ e)))
        (removes-IsSound _ (All-of_has _ _ deleted-IsSound))
