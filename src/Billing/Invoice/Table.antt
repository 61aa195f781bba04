-- ===== src/Billing/Invoice/Table.antt =====
-- The invoice table under `generate_invoice`.
use varsten.Prelude.{
  ◌≡◌, refl, ◌≢◌, ◌↔◌, ◌⊎◌, inl, inr, Bool, true, false, not, none, some, List, [], ◌∷◌, ◌++◌,
  arith, eq_iff, if◌then◌else◌, Option-cases,
}
use varsten.Prelude.Int.{ℤ}
use varsten.Billing.Fee.{Billable, compute_fee}
use varsten.Billing.Invoice.{
  Invoice, InvoiceKey, is_draft, has_key, key_of, find_invoice, refreshed, update_invoice,
  generate_invoice,
}

has_key_iff : (k : InvoiceKey) (i : Invoice) → (has_key k i ≡ true) ↔ (key_of i ≡ k)
unfolding has_key
has_key_iff k i = ground (arith, eq_iff i.organization_id k.organization_id)

find-update_self :
    (k : InvoiceKey) (b : Billable) (rows : List Invoice) (i : Invoice)
    → find_invoice k rows ≡ some i
    → find_invoice k (update_invoice k b rows) ≡ some (refreshed k b)
unfolding find_invoice update_invoice
find-update_self k b [] i e = cc
find-update_self k b (x ∷ rows) i e =
    ground (arith, has_key_iff k (refreshed k b), find-update_self k b rows i)

find-update_ne :
    (j k : InvoiceKey) (b : Billable) (rows : List Invoice)
    → j ≢ k
    → find_invoice j (update_invoice k b rows) ≡ find_invoice j rows
unfolding find_invoice update_invoice
find-update_ne j k b [] h = refl
find-update_ne j k b (x ∷ rows) h = ground (
  arith,
  has_key_iff j (refreshed k b),
  has_key_iff k x,
  has_key_iff j x,
  find-update_ne j k b rows h,
)

find-append :
    (j k : InvoiceKey) (b : Billable) (rows : List Invoice)
    → find_invoice j (rows ++ (refreshed k b ∷ [])) ≡ (elim (find_invoice j rows) [
      | some i ↦ some i
      | none ↦ (if has_key j (refreshed k b) then some (refreshed k b) else none)
    ])
unfolding find_invoice
find-append j k b [] = refl
find-append j k b (x ∷ rows) = ground (arith, find-append j k b rows)

-- Whether the row of the period is one that is no longer a draft.
abbrev pub is_locked : InvoiceKey → List Invoice → Bool
is_locked k rows = elim (find_invoice k rows) [ none ↦ false | some i ↦ not (is_draft i.status) ]

-- `generate_invoice` returns the row that the table then holds for the period, and changes the row
-- of no other organization or period. A row that is no longer a draft is returned as it was and
-- nothing is written; in all other cases the row is a draft of the fee computed now.
pub generate_invoice-find :
    (j k : InvoiceKey) (verified percent floor : ℤ) (rows : List Invoice)
    → j ≢ k
    → let (i, rows') = generate_invoice k verified percent floor rows in
      (find_invoice k rows' ≡ some i)
      × (find_invoice j rows' ≡ find_invoice j rows)
      × (((is_locked k rows ≡ false) × (i ≡ refreshed k (compute_fee verified percent floor)))
          ⊎ ((is_locked k rows ≡ true) × (find_invoice k rows ≡ some i) × (rows' ≡ rows)))
unfolding generate_invoice
generate_invoice-find j k verified percent floor rows h =
    let b = compute_fee verified percent floor in
    elim (Option-cases (find_invoice k rows)) [
      | inl e ↦ ground (
        arith,
        find-append k k b rows,
        find-append j k b rows,
        has_key_iff k (refreshed k b),
        has_key_iff j (refreshed k b),
      )
      | inr (i, e) ↦ ground (arith, find-update_self k b rows i e, find-update_ne j k b rows h)
    ]

update_invoice-twice :
    (k : InvoiceKey) (b : Billable) (rows : List Invoice)
    → update_invoice k b (update_invoice k b rows) ≡ update_invoice k b rows
unfolding update_invoice
update_invoice-twice k b [] = refl
update_invoice-twice k b (x ∷ rows) =
    ground (arith, has_key_iff k (refreshed k b), update_invoice-twice k b rows)

update_invoice-append :
    (k : InvoiceKey) (b : Billable) (rows : List Invoice)
    → find_invoice k rows ≡ none
    → update_invoice k b (rows ++ (refreshed k b ∷ [])) ≡ rows ++ (refreshed k b ∷ [])
unfolding update_invoice find_invoice
update_invoice-append k b [] e = ground (arith, has_key_iff k (refreshed k b))
update_invoice-append k b (x ∷ rows) e = ground (arith, update_invoice-append k b rows)

-- Generating the same invoice again, from the same figures, returns the same row and leaves the
-- table as it is.
generate_invoice-twice :
    (k : InvoiceKey) (verified percent floor : ℤ) (rows : List Invoice)
    → let once = generate_invoice k verified percent floor rows in
      generate_invoice k verified percent floor once.1 ≡ once
unfolding generate_invoice
generate_invoice-twice k verified percent floor rows =
    let b = compute_fee verified percent floor in
    elim (Option-cases (find_invoice k rows)) [
      | inl e ↦ ground (
        arith,
        find-append k k b rows,
        has_key_iff k (refreshed k b),
        update_invoice-append k b rows e,
      )
      | inr (i, e) ↦ ground (arith, find-update_self k b rows i e, update_invoice-twice k b rows)
    ]
