-- ===== src/Billing/Invoice.antt =====
-- The invoices of backend/app/billing.py: `generate_invoice` on the rows of the invoice table.
pub mod Table
use varsten.Prelude.{
  ℕ, String, Bool, true, false, not, ◌&&◌, Option, none, some, List, [], ◌∷◌, ◌++◌, str_eq, ◌==◌,
  if◌then◌else◌,
}
use varsten.Prelude.Int.{ℤ}
use varsten.Billing.Fee.{Billable, compute_fee}

pub data InvoiceStatus : Type 0 where
  draft : InvoiceStatus
  finalized : InvoiceStatus
  sent : InvoiceStatus
  paid : InvoiceStatus
  void : InvoiceStatus

pub record Invoice : Type 0 where
  pub organization_id : String
  pub period_start : ℕ
  pub period_end : ℕ
  pub billable : Billable
  pub status : InvoiceStatus

abbrev pub is_draft : InvoiceStatus → Bool
is_draft InvoiceStatus.draft = true
is_draft InvoiceStatus.finalized = false
is_draft InvoiceStatus.sent = false
is_draft InvoiceStatus.paid = false
is_draft InvoiceStatus.void = false

-- What an invoice is found by.
pub record InvoiceKey : Type 0 where
  pub organization_id : String
  pub period_start : ℕ
  pub period_end : ℕ

unfoldable pub has_key : InvoiceKey → Invoice → Bool
has_key k i =
    str_eq i.organization_id k.organization_id
    && i.period_start == k.period_start
    && i.period_end == k.period_end

abbrev pub key_of : Invoice → InvoiceKey
key_of i = record {
  organization_id = i.organization_id;
  period_start = i.period_start;
  period_end = i.period_end;
}

-- `db.scalar(select(Invoice).where(…))`
unfoldable pub find_invoice : InvoiceKey → List Invoice → Option Invoice
find_invoice k [] = none
find_invoice k (i ∷ rows) = if has_key k i then some i else find_invoice k rows

-- The draft that the amounts are written to.
abbrev pub refreshed : InvoiceKey → Billable → Invoice
refreshed k billable = record {
  organization_id = k.organization_id;
  period_start = k.period_start;
  period_end = k.period_end;
  billable = billable;
  status = InvoiceStatus.draft;
}

-- The update of the row that was found.
unfoldable pub update_invoice : InvoiceKey → Billable → List Invoice → List Invoice
update_invoice k billable [] = []
update_invoice k billable (i ∷ rows) =
    if has_key k i then refreshed k billable ∷ rows else i ∷ update_invoice k billable rows

-- `generate_invoice` for an organization with this percent and floor, whose verified savings over
-- the period are `verified`: the invoice returned and the rows after.
unfoldable pub generate_invoice : InvoiceKey → ℤ → ℤ → ℤ → List Invoice → Invoice × List Invoice
generate_invoice k verified percent floor rows =
    let billable = compute_fee verified percent floor in
    elim (find_invoice k rows) [
      | some i ↦
          if not (is_draft i.status)
          then (i, rows)
          else (refreshed k billable, update_invoice k billable rows)
      | none ↦ (refreshed k billable, rows ++ (refreshed k billable ∷ []))
    ]
