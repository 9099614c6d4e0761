-- ===== src/Sync/Rows.antt =====
-- Which ledger rows a statement leaves.
use hushvault.Base.{
  ◌≡◌, refl, sym, ◌∙◌, Bool, true, false, not, ◌&&◌, ◌||◌, List, [], ◌∷◌, all, Text, same, same_iff,
  same_refl, is_some, arith, inl, inr, Bool-cases,
}
use hushvault.Sync.Plan.{LedgerRow, known}
use hushvault.Sync.Execute.{
  pending, Statement, intend, confirm, drop_pending, erase, without, upsert, apply_one, apply_all,
}

-- Whether the ledger has a row for a name.
abbrev pub listed : List LedgerRow → Text → Bool
listed rows t = is_some (known rows t)

-- A statement that cannot delete the row of a name.
abbrev pub spares : Text → Statement → Bool
spares t (intend name) = true
spares t (confirm name fingerprint) = true
spares t (drop_pending name) = not (same name t)
spares t (erase name) = not (same name t)

listed-upsert :
    (t name fingerprint : Text) (rows : List LedgerRow)
    → listed (upsert name fingerprint rows) t ≡ (same name t || listed rows t)
unfolding upsert known
listed-upsert t name fingerprint [] = ground arith
listed-upsert t name fingerprint (r ∷ rs) = elim (Bool-cases (same r.item name)) [
  | inl hit ↦ rw (hit, (same_iff r.item name).0 hit) (ground arith)
  | inr miss ↦ rw miss (ground (arith, listed-upsert t name fingerprint rs))
]

listed-without :
    (t : Text) (p : LedgerRow → Bool) (rows : List LedgerRow)
    → ((r : LedgerRow) → same r.item t ≡ true → p r ≡ false)
    → listed (without p rows) t ≡ listed rows t
unfolding without known
listed-without t p [] h = refl
listed-without t p (r ∷ rs) h = elim (Bool-cases (same r.item t)) [
  | inl hit ↦ ground (arith, hit, h r hit)
  | inr miss ↦ ground (arith, miss, listed-without t p rs h)
]

other_row :
    (t name : Text) (r : LedgerRow)
    → not (same name t) ≡ true
    → same r.item t ≡ true
    → same r.item name ≡ false
other_row t name r k hit = elim (Bool-cases (same r.item name)) [
  | inr miss ↦ miss
  | inl own ↦
      let e : name ≡ t = sym ((same_iff r.item name).0 own) ∙ (same_iff r.item t).0 hit in
      absurd (ground (arith, (same_iff name t).1 e))
]

listed-apply_one :
    (t : Text) (g : Bool) (s : Statement) (rows : List LedgerRow)
    → spares t s ≡ true
    → listed rows t ≡ true
    → listed (apply_one g s rows) t ≡ true
unfolding apply_one
listed-apply_one t g (intend name) rows k h = ground (arith, listed-upsert t name pending rows)
listed-apply_one t g (confirm name fp) rows k h = ground (arith, listed-upsert t name fp rows)
listed-apply_one t g (drop_pending name) rows k h =
    listed-without t (λ r. same r.item name && same r.fingerprint pending) rows
      (λ r hit. ground (arith, other_row t name r k hit))
    ∙ h
listed-apply_one t g (erase name) rows k h =
    listed-without t (λ r. same r.item name) rows (λ r hit. other_row t name r k hit) ∙ h

-- Statements that spare a name keep its row.
pub listed-apply_all :
    (t : Text) (g : Bool) (ss : List Statement) (rows : List LedgerRow)
    → all (spares t) ss ≡ true
    → listed rows t ≡ true
    → listed (apply_all g ss rows) t ≡ true
unfolding apply_all
listed-apply_all t g [] rows k h = h
listed-apply_all t g (s ∷ ss) rows k h =
    listed-apply_all t g ss _ (ground arith) (listed-apply_one t g s rows (ground arith) h)

pub listed-intend :
    (t : Text) (rows : List LedgerRow) → listed (apply_one true (intend t) rows) t ≡ true
unfolding apply_one
listed-intend t rows = ground (arith, listed-upsert t t pending rows, same_refl t)
