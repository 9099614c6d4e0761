-- ===== src/Scheduler/Expired.antt =====
-- Runs of workers that crashed are closed.
use hushvault.Base.{
  ℕ, zero, suc, ◌+◌, ◌≤◌, ◌≡◌, refl, sym, ap, ◌∙◌, Bool, true, false, not, ◌&&◌, ◌||◌, Option, none,
  some, List, [], ◌∷◌, same, same_refl, ltb, ◌==◌, if◌then◌else◌, length, filter, any, take, arith,
  inl, inr, Bool-cases,
}
use hushvault.Sync.Plan.{timeout}
use hushvault.Sync.Retry.{compute_next_retry_at}
use hushvault.Scheduler.{SyncRun, State, is_expired, select_limit}
use hushvault.Scheduler.Crashed.{
  insert_by, order_by, lease_of, update_where, expired_runs, time_out, close_runs,
  sweep_expired_runs,
}

-- Whether a run has the id of one of a list.
abbrev is_among : List SyncRun → SyncRun → Bool
is_among rs s = any (λ r. same s.id r.id) rs

-- Whether a run is expired and not among those that are closed.
abbrev is_missed : (now : ℕ) → List SyncRun → SyncRun → Bool
is_missed now rs s = is_expired now s && not (is_among rs s)

is_expired-time_out :
    (now : ℕ) (retry : Option ℕ) (r : SyncRun) → is_expired now (time_out now retry r) ≡ false
unfolding is_expired time_out
is_expired-time_out now retry r = refl

-- Closing the runs with one id leaves only those missed that have other ids.
any-is_missed-update_where :
    (now : ℕ) (retry : Option ℕ) (r : SyncRun) (rs runs : List SyncRun)
    → any (is_missed now (r ∷ rs)) runs ≡ false
    → any
        (is_missed now rs)
        (update_where (λ s. same s.id r.id && is_expired now s) (time_out now retry) runs)
      ≡ false
any-is_missed-update_where now retry r rs [] h = refl
any-is_missed-update_where now retry r rs (s ∷ ss) h =
    let ih = any-is_missed-update_where now retry r rs ss (ground (arith, h)) in
    elim (Bool-cases (same s.id r.id && is_expired now s)) [
      | inl hit ↦ rw (hit, is_expired-time_out now retry s) ih
      | inr miss ↦ rw miss (ground (arith, ih, h, miss))
    ]

close_runs-is_missed :
    (unit : SyncRun → ℕ) (now : ℕ) (rs runs : List SyncRun) (failures : ℕ)
    → any (is_missed now rs) runs ≡ false
    → any (is_missed now []) (close_runs unit now rs (runs, failures)).0 ≡ false
unfolding close_runs
close_runs-is_missed unit now [] runs failures h = h
close_runs-is_missed unit now (r ∷ rs) runs failures h =
    let retry = compute_next_retry_at (some timeout) r.attempt now (unit r) none in
    let open_row : SyncRun → Bool = λ s. same s.id r.id && is_expired now s in
    close_runs-is_missed unit now rs (update_where open_row (time_out now retry) runs)
      (if length (filter open_row runs) == 1 then failures + 1 else failures)
      (any-is_missed-update_where now retry r rs runs h)

-- Sorting keeps which ids there are.
is_among-insert_by :
    (r s : SyncRun) (rs : List SyncRun)
    → is_among (insert_by lease_of r rs) s ≡ (same s.id r.id || is_among rs s)
unfolding insert_by
is_among-insert_by r s [] = refl
is_among-insert_by r s (x ∷ xs) =
    let ih = is_among-insert_by r s xs in
    elim (Bool-cases (ltb (lease_of x) (lease_of r))) [
      | inl e ↦ rw e (ground (arith, ih))
      | inr e ↦ rw e refl
    ]

is_among-order_by :
    (s : SyncRun) (rs : List SyncRun) → is_among (order_by lease_of rs) s ≡ is_among rs s
unfolding order_by
is_among-order_by s [] = refl
is_among-order_by s (r ∷ rs) =
    is_among-insert_by r s (order_by lease_of rs)
    ∙ ap (λ b. same s.id r.id || b) (is_among-order_by s rs)

length-insert_by :
    (r : SyncRun) (rs : List SyncRun) → length (insert_by lease_of r rs) ≡ suc (length rs)
unfolding insert_by
length-insert_by r [] = refl
length-insert_by r (x ∷ xs) =
    let ih = length-insert_by r xs in
    elim (Bool-cases (ltb (lease_of x) (lease_of r))) [
      | inl e ↦ rw e (omega (arith, ih))
      | inr e ↦ rw e refl
    ]

length-order_by : (rs : List SyncRun) → length (order_by lease_of rs) ≡ length rs
unfolding order_by
length-order_by [] = refl
length-order_by (r ∷ rs) =
    omega (arith, length-insert_by r (order_by lease_of rs), length-order_by rs)

take_all {ℓ} : {A : Type ℓ} (n : ℕ) (xs : List A) → length xs ≤ n → take n xs ≡ xs
take_all zero [] h = refl
take_all zero (x ∷ xs) h = absurd (omega arith)
take_all (suc n) [] h = refl
take_all (suc n) (x ∷ xs) h = ap (λ l. x ∷ l) (take_all n xs (omega (arith, h)))

is_among-wider :
    (now : ℕ) (s t : SyncRun) (ss : List SyncRun)
    → is_among (filter (is_expired now) ss) t ≡ true
    → is_among (filter (is_expired now) (s ∷ ss)) t ≡ true
is_among-wider now s t ss h = elim (Bool-cases (is_expired now s)) [
  | inl e ↦ rw e (ground (arith, h))
  | inr e ↦ rw e h
]

is_among_self :
    (now : ℕ) (s : SyncRun) (ss : List SyncRun)
    → is_expired now s ≡ true
    → is_among (filter (is_expired now) (s ∷ ss)) s ≡ true
is_among_self now s ss e = rw e (ground (arith, same_refl s.id))

-- Where each expired run's id is among those of a list, none is missed.
none_missed :
    (now : ℕ) (rs runs : List SyncRun)
    → ((s : SyncRun) → is_among (filter (is_expired now) runs) s ≡ true → is_among rs s ≡ true)
    → any (is_missed now rs) runs ≡ false
none_missed now rs [] among = refl
none_missed now rs (s ∷ ss) among =
    let rest = none_missed now rs ss (λ t h. among t (is_among-wider now s t ss h)) in
    elim (Bool-cases (is_expired now s)) [
      | inl e ↦ ground (arith, rest, among s (is_among_self now s ss e))
      | inr e ↦ ground (arith, rest, e)
    ]

none_missed-expired_runs :
    (now : ℕ) (runs : List SyncRun)
    → length (filter (is_expired now) runs) ≤ select_limit
    → any (is_missed now (expired_runs now runs)) runs ≡ false
unfolding expired_runs
none_missed-expired_runs now runs h =
    let found = filter (is_expired now) runs in
    let all =
      take_all select_limit (order_by lease_of found) (omega (arith, length-order_by found, h)) in
    none_missed now (take select_limit (order_by lease_of found)) runs
      (λ s e. ap (λ rs. is_among rs s) all ∙ (is_among-order_by s found ∙ e))

any-is_missed-nil :
    (now : ℕ) (runs : List SyncRun) → any (is_missed now []) runs ≡ any (is_expired now) runs
any-is_missed-nil now [] = refl
any-is_missed-nil now (s ∷ ss) = ground (arith, any-is_missed-nil now ss)

-- Where at most twenty-five runs are open with an expired lease, none is after the sweep.
pub sweep_expired_runs-is_expired :
    (unit : SyncRun → ℕ) (now : ℕ) (t : State)
    → length (filter (is_expired now) t.db.runs) ≤ select_limit
    → any (is_expired now) (sweep_expired_runs unit now t).db.runs ≡ false
unfolding sweep_expired_runs
sweep_expired_runs-is_expired unit now t h =
    sym (
      any-is_missed-nil now
        (close_runs unit now (expired_runs now t.db.runs) (t.db.runs, t.tally.failures)).0)
    ∙ close_runs-is_missed unit now (expired_runs now t.db.runs) t.db.runs t.tally.failures
        (none_missed-expired_runs now t.db.runs h)
