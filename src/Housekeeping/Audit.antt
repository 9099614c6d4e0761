-- ===== src/Housekeeping/Audit.antt =====
-- What the sweep of the audit log keeps, and whom it never gets to.
use hushvault.Base.{
  Text, ℕ, ◌≡◌, refl, ap, ◌∙◌, Bool, true, false, not, Option, none, some, List, [], ◌∷◌, same,
  less, filter, any, All, All-filter, All-take, arith, inl, inr, Bool-cases,
}
use hushvault.Plans.{unlimited, entitlements_for_plan, retention_cutoff}
use hushvault.Housekeeping.{
  Organisation, AuditRow, insert_by_id, order_by_id, swept_orgs, is_expired, sweep_until,
  plan_cutoff, sweep_orgs, sweep_audit_log, audit_sweep_orgs_per_tick, audit_sweep_rows_per_tick,
}
use hushvault.Housekeeping.Purged.{filter-purge}

module _ {ℓ} (P : Organisation → Type ℓ) where
  All-insert_by_id :
      (org : Organisation) (orgs : List Organisation)
      → P org
      → All P orgs
      → All P (insert_by_id org orgs)
  unfolding insert_by_id
  All-insert_by_id org [] p h = (p, tt)
  All-insert_by_id org (o ∷ orgs) p (q, h) =
      let later = All-insert_by_id org orgs p h in
      elim (Bool-cases (less o.id org.id)) [ inl e ↦ rw e (q, later) | inr e ↦ rw e (p, (q, h)) ]

  All-order_by_id : (orgs : List Organisation) → All P orgs → All P (order_by_id orgs)
  unfolding order_by_id
  All-order_by_id [] h = tt
  All-order_by_id (o ∷ orgs) (p, h) =
      All-insert_by_id o (order_by_id orgs) p (All-order_by_id orgs h)

  All-swept_orgs :
      (orgs : List Organisation) (log : List AuditRow) → All P orgs → All P (swept_orgs orgs log)
  unfolding swept_orgs
  All-swept_orgs orgs log h =
      let has_rows : Organisation → Bool = λ o. any (λ r. same r.org_id o.id) log in
      All-take P audit_sweep_orgs_per_tick (order_by_id (filter has_rows orgs))
        (All-order_by_id (filter has_rows orgs) (All-filter P has_rows orgs h))

abbrev pub is_past : (cutoff : Option ℕ) → (org_id : Text) → AuditRow → Bool
is_past none org_id r = false
is_past (some cutoff) org_id r = is_expired cutoff org_id r

-- Whether a row is one of an organisation, outside the window of its plan.
abbrev pub is_lapsed : (now : ℕ) → AuditRow → Organisation → Bool
is_lapsed now r org = is_past (plan_cutoff now org) org.id r

-- Whether no organisation's plan lets a row go.
abbrev pub is_retained : (now : ℕ) → List Organisation → AuditRow → Bool
is_retained now orgs r = not (any (is_lapsed now r) orgs)

-- A test of rows that fails where an organisation lets a row go.
abbrev Spares : (now : ℕ) → (keep : AuditRow → Bool) → Organisation → Type 0
Spares now keep org = (r : AuditRow) → is_lapsed now r org ≡ true → keep r ≡ false

filter-sweep_until :
    (keep : AuditRow → Bool) (cutoff : Option ℕ) (org_id : Text) (log : List AuditRow)
    → ((r : AuditRow) → is_past cutoff org_id r ≡ true → keep r ≡ false)
    → filter keep (sweep_until cutoff org_id log) ≡ filter keep log
unfolding sweep_until
filter-sweep_until keep none org_id log spares = refl
filter-sweep_until keep (some cutoff) org_id log spares =
    filter-purge (is_expired cutoff org_id) keep spares audit_sweep_rows_per_tick log

filter-sweep_orgs :
    (now : ℕ) (keep : AuditRow → Bool) (orgs : List Organisation) (log : List AuditRow)
    → All (Spares now keep) orgs
    → filter keep (sweep_orgs now orgs log) ≡ filter keep log
unfolding sweep_orgs
filter-sweep_orgs now keep [] log h = refl
filter-sweep_orgs now keep (o ∷ orgs) log (p, h) =
    filter-sweep_orgs now keep orgs (sweep_until (plan_cutoff now o) o.id log) h
    ∙ filter-sweep_until keep (plan_cutoff now o) o.id log p

is_retained-Spares :
    (now : ℕ) (orgs some_orgs : List Organisation)
    → ((r : AuditRow) → any (is_lapsed now r) some_orgs ≡ true → any (is_lapsed now r) orgs ≡ true)
    → All (Spares now (is_retained now orgs)) some_orgs
is_retained-Spares now orgs [] among = tt
is_retained-Spares now orgs (o ∷ os) among = (
  λ r lapsed. ap not (among r (ground (arith, lapsed))),
  is_retained-Spares now orgs os (λ r lapsed. among r (ground (arith, lapsed))),
)

-- A row of the audit log stays, in its place, when no plan of an organisation with its id lets go
-- of it, whatever an organisation has set as its own window.
pub sweep_audit_log-is_retained :
    (now : ℕ) (orgs : List Organisation) (log : List AuditRow)
    → filter (is_retained now orgs) (sweep_audit_log now orgs log).0
      ≡ filter (is_retained now orgs) log
unfolding sweep_audit_log
sweep_audit_log-is_retained now orgs log =
    filter-sweep_orgs now (is_retained now orgs) (swept_orgs orgs log) log (
      All-swept_orgs (Spares now (is_retained now orgs)) orgs log
        (is_retained-Spares now orgs orgs (λ r h. h)))

abbrev pub KeepsForever : Organisation → Type 0
KeepsForever org = (entitlements_for_plan (some org.plan)).audit_retention_days ≡ unlimited

plan_cutoff-none : (now : ℕ) (org : Organisation) → KeepsForever org → plan_cutoff now org ≡ none
unfolding plan_cutoff
plan_cutoff-none now org h = rw h (unfold retention_cutoff in refl)

sweep_orgs_unlimited :
    (now : ℕ) (orgs : List Organisation) (log : List AuditRow)
    → All KeepsForever orgs
    → sweep_orgs now orgs log ≡ log
unfolding sweep_orgs
sweep_orgs_unlimited now [] log h = refl
sweep_orgs_unlimited now (o ∷ orgs) log (p, h) =
    let one : sweep_until (plan_cutoff now o) o.id log ≡ log =
      rw (plan_cutoff-none now o p) (unfold sweep_until in refl) in
    rw one (sweep_orgs_unlimited now orgs log h)

-- The log after the ticks at some times.
abbrev pub sweep_ticks : (times : List ℕ) → List Organisation → List AuditRow → List AuditRow
sweep_ticks [] orgs log = log
sweep_ticks (now ∷ times) orgs log = sweep_ticks times orgs (sweep_audit_log now orgs log).0

-- Where the first twenty organisations with audit rows, by id, are on plans that keep them for ever,
-- no number of ticks deletes an audit row of any organisation.
pub sweep_ticks_starved :
    (times : List ℕ) (orgs : List Organisation) (log : List AuditRow)
    → All KeepsForever (swept_orgs orgs log)
    → sweep_ticks times orgs log ≡ log
sweep_ticks_starved [] orgs log h = refl
sweep_ticks_starved (now ∷ times) orgs log h =
    let idle : (sweep_audit_log now orgs log).0 ≡ log =
      unfold sweep_audit_log in sweep_orgs_unlimited now (swept_orgs orgs log) log h in
    ap (sweep_ticks times orgs) idle ∙ sweep_ticks_starved times orgs log h
