-- ===== src/Accounting/Paying.antt =====
-- `recordPayment` keeps invoices and payments in agreement.
use autonomous_enterprise.Shared.{
  arith, ◌≡◌, ◌≢◌, lookup, insert, sum_by, sum_by-insert_new, eq_iff, inl, inr, Option-cases,
  or_else, String, none, some, false, Error, ok, err, after, result, after-cases,
}
use autonomous_enterprise.Shared.Int.{pos, ◌+ℤ◌, ◌-ℤ◌, ◌≤ℤ◌, int_laws}
use autonomous_enterprise.Accounting.Types.{Invoice, Payment, RecordPaymentDto, tolerance}
use autonomous_enterprise.Accounting.Repository.{AccountingRepository}
use autonomous_enterprise.Accounting.Invoices.{is_paid, paid_invoice, new_payment, record_payment}
use autonomous_enterprise.Accounting.Settlement.{
  paid_for, InvoiceAgrees, IsSettled, stored_key, agrees_update,
}

-- A refused payment changes nothing.
pub record_payment_atomic :
    (now id : String) (dto : RecordPaymentDto) (r : AccountingRepository) (x : Error)
    → IsSettled r
    → result (record_payment now id dto r) ≡ err x
    → after (record_payment now id dto r) ≡ r
unfolding record_payment
record_payment_atomic now id dto r x h failed =
    elim (Option-cases (lookup dto.invoice_id r.invoices)) [
      | inl unknown ↦ ground arith
      | inr (v, found) ↦ ground (arith, stored_key r h dto.invoice_id v found)
    ]

pub payment_unknown :
    (now id : String) (dto : RecordPaymentDto) (r : AccountingRepository) (x : Payment)
    → lookup dto.invoice_id r.invoices ≡ none
    → ¬ (result (record_payment now id dto r) ≡ ok x)
unfolding record_payment
payment_unknown now id dto r x unknown done = ground arith

pub record_payment_written :
    (now id : String) (dto : RecordPaymentDto) (r : AccountingRepository) (v : Invoice)
    (x : Payment)
    → lookup dto.invoice_id r.invoices ≡ some v
    → lookup v.id r.invoices ≡ some v
    → result (record_payment now id dto r) ≡ ok x
    → let amount = or_else dto.amount (pos 0) in
      (pos 1 ≤ℤ amount)
      × (amount ≤ℤ v.amount -ℤ v.paid_amount +ℤ pos tolerance)
      × (is_paid v.status ≡ false)
      × (x ≡ new_payment now id dto)
      × (after (record_payment now id dto r) ≡ record r {
        invoices = insert v.id (paid_invoice now amount v) r.invoices;
        payments = insert id (new_payment now id dto) r.payments;
      })
unfolding record_payment
record_payment_written now id dto r v x found keyed done = ground arith

module _ (now id : String) (dto : RecordPaymentDto) (r : AccountingRepository) (h : IsSettled r)
    (fresh : lookup id r.payments ≡ none) (v : Invoice)
    (found : lookup dto.invoice_id r.invoices ≡ some v) where
  pay_same :
      (k : String)
      → pos 1 ≤ℤ or_else dto.amount (pos 0)
      → or_else dto.amount (pos 0) ≤ℤ v.amount -ℤ v.paid_amount +ℤ pos tolerance
      → v.id ≡ k
      → InvoiceAgrees k
          (some (paid_invoice now (or_else dto.amount (pos 0)) v))
          (sum_by (paid_for k) (insert id (new_payment now id dto) r.payments))
  unfolding paid_invoice new_payment
  pay_same k positive fits e = grind (
    int_laws,
    h dto.invoice_id,
    eq_iff dto.invoice_id k,
    sum_by-insert_new (paid_for k) id (new_payment now id dto) r.payments fresh,
  )

  pay_other :
      (k : String)
      → v.id ≢ k
      → sum_by (paid_for k) (insert id (new_payment now id dto) r.payments)
        ≡ sum_by (paid_for k) r.payments
  unfolding new_payment
  pay_other k ne = grind (
    int_laws,
    h dto.invoice_id,
    eq_iff dto.invoice_id k,
    sum_by-insert_new (paid_for k) id (new_payment now id dto) r.payments fresh,
  )

pub record_payment-IsSettled :
    (now id : String) (dto : RecordPaymentDto) (r : AccountingRepository)
    → IsSettled r
    → lookup id r.payments ≡ none
    → IsSettled (after (record_payment now id dto r))
record_payment-IsSettled now id dto r h fresh =
    after-cases IsSettled (record_payment now id dto r)
      (λ x failed. rw (record_payment_atomic now id dto r x h failed) h)
      (λ x done. elim (Option-cases (lookup dto.invoice_id r.invoices)) [
        | inl unknown ↦ absurd (payment_unknown now id dto r x unknown done)
        | inr (v, found) ↦
            let (positive, fits, _, _, written) =
              record_payment_written now id dto r v x found (stored_key r h dto.invoice_id v found)
                done in
            rw written λ k.
              agrees_update k v.id (paid_invoice now (or_else dto.amount (pos 0)) v) r.invoices _ _
                (h k) (pay_same now id dto r h fresh v found k positive fits)
                (pay_other now id dto r h fresh v found k)
      ])
