-- ===== src/Accounting/Closing.antt =====
-- `recordPayment` of exactly the remaining amount.
use autonomous_enterprise.Shared.{
  arith, ◌≡◌, refl, ap, ◌∙◌, lookup, lookup-insert_self, is_empty, String, some, true, false, ltb,
  ok, after, result,
}
use autonomous_enterprise.Shared.Int.{ℤ, pos, ◌+ℤ◌, ◌-ℤ◌, ◌≤ℤ◌, abs, int_laws, parts_apart}
use autonomous_enterprise.Accounting.Types.{
  Invoice, InvoiceStatus, Payment, RecordPaymentDto, tolerance,
}
use autonomous_enterprise.Accounting.Repository.{AccountingRepository}
use autonomous_enterprise.Accounting.Invoices.{
  is_paid, is_cancelled, paid_invoice, new_payment, record_payment,
}
use autonomous_enterprise.Accounting.Traces.{Reach, Reach-IsSettled}

-- A payment within the tolerance is accepted.
record_payment_accepted :
    (now id : String) (dto : RecordPaymentDto) (r : AccountingRepository) (v : Invoice) (a : ℤ)
    → lookup dto.invoice_id r.invoices ≡ some v
    → v.id ≡ dto.invoice_id
    → is_empty dto.invoice_id ≡ false
    → is_paid v.status ≡ false
    → is_cancelled v.status ≡ false
    → dto.amount ≡ some a
    → pos 1 ≤ℤ a
    → a ≤ℤ v.amount -ℤ v.paid_amount +ℤ pos tolerance
    → (result (record_payment now id dto r) ≡ ok (new_payment now id dto))
      × (lookup dto.invoice_id (after (record_payment now id dto r)).invoices
          ≡ some (paid_invoice now a v))
unfolding record_payment
record_payment_accepted now id dto r v a found key named unpaid kept asks positive fits =
    ground (arith, lookup-insert_self v.id (paid_invoice now a v) r.invoices)

rest_total : (amount paid : ℤ) → paid +ℤ (amount -ℤ paid) ≡ amount
rest_total amount paid = omega int_laws

rest_close : (amount : ℤ) → ltb (abs (amount -ℤ amount)) tolerance ≡ true
rest_close amount = grind (int_laws, parts_apart)

rest_invoice :
    (now : String) (v : Invoice)
    → paid_invoice now (v.amount -ℤ v.paid_amount) v
      ≡ record v { paid_amount = v.amount; status = InvoiceStatus.paid; updated_at = now }
unfolding paid_invoice
rest_invoice now v = rw (rest_total v.amount v.paid_amount, rest_close v.amount) refl

rest_fits : (a : ℤ) → a ≤ℤ a +ℤ pos tolerance
rest_fits a = omega int_laws

-- An invoice of the status paid takes no payment.
paid_refuses :
    (now id : String) (dto : RecordPaymentDto) (r : AccountingRepository) (v : Invoice)
    (x : Payment)
    → lookup dto.invoice_id r.invoices ≡ some v
    → is_paid v.status ≡ true
    → ¬ (result (record_payment now id dto r) ≡ ok x)
unfolding record_payment
paid_refuses now id dto r v x found paid done = ground arith

-- In a reached state, for an invoice that is neither paid nor cancelled, a payment of exactly the
-- remaining amount, where that is positive, is accepted and leaves the invoice paid, with its
-- amount as the paid amount; every payment for it after that is refused.
pub pay_rest :
    (now id later id' : String) (dto dto' : RecordPaymentDto) (r : AccountingRepository)
    (v : Invoice) (x : Payment)
    → Reach r
    → lookup dto.invoice_id r.invoices ≡ some v
    → is_empty dto.invoice_id ≡ false
    → is_paid v.status ≡ false
    → is_cancelled v.status ≡ false
    → dto.amount ≡ some (v.amount -ℤ v.paid_amount)
    → pos 1 ≤ℤ v.amount -ℤ v.paid_amount
    → dto'.invoice_id ≡ dto.invoice_id
    → let t = after (record_payment now id dto r) in
      (result (record_payment now id dto r) ≡ ok (new_payment now id dto))
      × (lookup dto.invoice_id t.invoices
          ≡ some
              (record v { paid_amount = v.amount; status = InvoiceStatus.paid; updated_at = now }))
      × (¬ (result (record_payment later id' dto' t) ≡ ok x))
pay_rest now id later id' dto dto' r v x reach found named unpaid kept asks positive same =
    let key : v.id ≡ dto.invoice_id = (rw found at (Reach-IsSettled reach dto.invoice_id)).0 in
    let (done, there) =
      record_payment_accepted now id dto r v _ found key named unpaid kept asks positive
        (rest_fits _) in
    let closed = there ∙ ap some (rest_invoice now v) in
    (
      done,
      closed,
      paid_refuses later id' dto' (after (record_payment now id dto r)) _ x
          (ap (λ k. lookup k (after (record_payment now id dto r)).invoices) same ∙ closed) refl,
    )
