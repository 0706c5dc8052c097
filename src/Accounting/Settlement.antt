-- ===== src/Accounting/Settlement.antt =====
-- What holds of invoices and payments between two calls: an invoice's paid amount is the sum of its
-- payments, exceeds its amount by no more than the tolerance, and tells its status.
use autonomous_enterprise.Shared.{
  arith, ◌≡◌, ◌≢◌, refl, Store, lookup, insert, sum_by, lookup-insert, eq_iff, inl, inr,
  Option-cases, Bool-cases, ◌≤◌, ◌<◌, String, ◌==◌, Option, none, some, Error, ok, err, after,
  result, after-cases, if◌then◌else◌,
}
use autonomous_enterprise.Shared.Int.{ℤ, pos, ◌+ℤ◌, ◌-ℤ◌, ◌≤ℤ◌, abs, int_laws}
use autonomous_enterprise.Accounting.Types.{
  Invoice, InvoiceStatus, Payment, CreateInvoiceDto, tolerance,
}
use autonomous_enterprise.Accounting.Repository.{AccountingRepository}
use autonomous_enterprise.Accounting.Invoices.{create_invoice, issued_invoice, issue_invoice}

-- What a payment has paid of the invoice `k`.
abbrev pub paid_for : String → Payment → ℤ
paid_for k p = if p.invoice_id == k then p.amount else pos 0

-- The paid amount that a status stands for. The service sets no other status.
abbrev pub StatusAgrees : InvoiceStatus → ℤ → ℤ → Type 0
StatusAgrees InvoiceStatus.draft paid amount = paid ≡ pos 0
StatusAgrees InvoiceStatus.issued paid amount = paid ≡ pos 0
StatusAgrees InvoiceStatus.partially_paid paid amount =
    (pos 1 ≤ℤ paid) × (tolerance ≤ abs (paid -ℤ amount))
StatusAgrees InvoiceStatus.paid paid amount = abs (paid -ℤ amount) < tolerance
StatusAgrees InvoiceStatus.overdue paid amount = ⊥
StatusAgrees InvoiceStatus.cancelled paid amount = ⊥

-- An invoice under the key `k`, with the sum of its payments.
abbrev pub InvoiceAgrees : String → Option Invoice → ℤ → Type 0
InvoiceAgrees k none total = total ≡ pos 0
InvoiceAgrees k (some v) total =
    (v.id ≡ k)
    × (v.paid_amount ≡ total)
    × (pos 0 ≤ℤ total)
    × (pos 1 ≤ℤ v.amount)
    × (total ≤ℤ v.amount +ℤ pos tolerance)
    × StatusAgrees v.status v.paid_amount v.amount

abbrev pub IsSettled : AccountingRepository → Type 0
IsSettled r = (k : String) → InvoiceAgrees k (lookup k r.invoices) (sum_by (paid_for k) r.payments)

-- The invoice under `k` after a write of one invoice.
pub agrees_update :
    (k j : String) (v : Invoice) (m : Store Invoice) (before total : ℤ)
    → InvoiceAgrees k (lookup k m) before
    → (j ≡ k → InvoiceAgrees k (some v) total)
    → (j ≢ k → total ≡ before)
    → InvoiceAgrees k (lookup k (insert j v m)) total
agrees_update k j v m before total h same other = elim (Bool-cases (j == k)) [
  | inl e ↦ rw (lookup-insert j k v m, e) (same ((eq_iff j k).0 e))
  | inr e ↦ rw (lookup-insert j k v m, e, other (λ p. cc (e, (eq_iff j k).1 p))) h
]

pub stored_key :
    (r : AccountingRepository)
    → IsSettled r
    → (k : String) (v : Invoice) → lookup k r.invoices ≡ some v
    → lookup v.id r.invoices ≡ some v
stored_key r h k v found = ground (arith, h k)

create_invoice_atomic :
    (now id : String) (dto : CreateInvoiceDto) (r : AccountingRepository) (x : Error)
    → result (create_invoice now id dto r) ≡ err x
    → after (create_invoice now id dto r) ≡ r
unfolding create_invoice
create_invoice_atomic now id dto r x failed = ground arith

create_invoice_written :
    (now id : String) (dto : CreateInvoiceDto) (r : AccountingRepository) (v : Invoice)
    → result (create_invoice now id dto r) ≡ ok v
    → (v.id ≡ id)
      × (v.paid_amount ≡ pos 0)
      × (v.status ≡ InvoiceStatus.draft)
      × (pos 1 ≤ℤ v.amount)
      × (after (create_invoice now id dto r) ≡ record r { invoices = insert id v r.invoices })
unfolding create_invoice
create_invoice_written now id dto r v done = ground arith

pub create_invoice-IsSettled :
    (now id : String) (dto : CreateInvoiceDto) (r : AccountingRepository)
    → IsSettled r
    → lookup id r.invoices ≡ none
    → IsSettled (after (create_invoice now id dto r))
create_invoice-IsSettled now id dto r h fresh =
    after-cases IsSettled (create_invoice now id dto r)
      (λ x failed. rw (create_invoice_atomic now id dto r x failed) h)
      (λ v done.
        let (key, none_paid, draft, positive, written) =
          create_invoice_written now id dto r v done in
        rw written
          λ k. agrees_update k id v r.invoices _ _ (h k) (λ e. grind (int_laws, h id)) (λ ne. refl))

issue_invoice_atomic :
    (now id : String) (r : AccountingRepository) (x : Error)
    → result (issue_invoice now id r) ≡ err x
    → after (issue_invoice now id r) ≡ r
unfolding issue_invoice
issue_invoice_atomic now id r x failed = ground arith

issue_unknown :
    (now id : String) (r : AccountingRepository) (x : Invoice)
    → lookup id r.invoices ≡ none
    → ¬ (result (issue_invoice now id r) ≡ ok x)
unfolding issue_invoice
issue_unknown now id r x unknown done = ground arith

issue_invoice_written :
    (now id : String) (r : AccountingRepository) (v x : Invoice)
    → lookup id r.invoices ≡ some v
    → result (issue_invoice now id r) ≡ ok x
    → (v.status ≡ InvoiceStatus.draft)
      × (after (issue_invoice now id r)
          ≡ record r { invoices = insert v.id (issued_invoice now v) r.invoices })
unfolding issue_invoice
issue_invoice_written now id r v x found done = ground arith

issued_same :
    (now id : String) (r : AccountingRepository) (v : Invoice)
    → IsSettled r
    → lookup id r.invoices ≡ some v
    → v.status ≡ InvoiceStatus.draft
    → (k : String) → v.id ≡ k
    → InvoiceAgrees k (some (issued_invoice now v)) (sum_by (paid_for k) r.payments)
unfolding issued_invoice
issued_same now id r v h found draft k e = ground (arith, h id)

pub issue_invoice-IsSettled :
    (now id : String) (r : AccountingRepository)
    → IsSettled r
    → IsSettled (after (issue_invoice now id r))
issue_invoice-IsSettled now id r h =
    after-cases IsSettled (issue_invoice now id r)
      (λ x failed. rw (issue_invoice_atomic now id r x failed) h)
      (λ x done. elim (Option-cases (lookup id r.invoices)) [
        | inl unknown ↦ absurd (issue_unknown now id r x unknown done)
        | inr (v, found) ↦
            let (draft, written) = issue_invoice_written now id r v x found done in
            rw written λ k.
              agrees_update k v.id (issued_invoice now v) r.invoices _ _ (h k)
                (issued_same now id r v h found draft k) (λ ne. refl)
      ])
