-- ===== src/Accounting/Invoices.antt =====
-- apps/api/src/modules/accounting/accounting.service.ts: the methods of the class AccountingService
-- on invoices and payments. `now` is the clock's text, `id` the text of `randomUUID()`. Amounts are
-- exact: where one lies exactly on the tolerance of 0.0001, rounding decides in the program.
use autonomous_enterprise.Shared.{
  Action, not_found, bad_request, gets, or_throw, throw_if, ◌>>=◌, ◌>>◌, is_empty, is_present,
  or_else, or_text, String, Bool, true, false, not, ◌||◌, Option, List, ltb, if◌then◌else◌,
}
use autonomous_enterprise.Shared.Int.{ℤ, pos, ◌+ℤ◌, ◌-ℤ◌, ltb_ℤ, abs}
use autonomous_enterprise.Accounting.Types.{
  Invoice, InvoiceType, InvoiceStatus, Payment, CreateInvoiceDto, RecordPaymentDto, tolerance,
}
use autonomous_enterprise.Accounting.Journals.{is_no_amount}
use autonomous_enterprise.Accounting.Repository
use autonomous_enterprise.Accounting.Repository.{AccountingRepository}

abbrev Acc : Type 0 → Type 0
Acc A = Action AccountingRepository A

unfoldable pub new_invoice : String → String → CreateInvoiceDto → InvoiceType → Invoice
new_invoice now id dto type = record {
  id = id;
  type = type;
  reference_id = dto.reference_id;
  counterparty = or_text dto.counterparty "DEFAULT_COUNTERPARTY";
  amount = or_else dto.amount (pos 0);
  paid_amount = pos 0;
  status = InvoiceStatus.draft;
  due_date = dto.due_date;
  created_at = now;
  updated_at = now;
}

unfoldable pub create_invoice : String → String → CreateInvoiceDto → Acc Invoice
unfolding new_invoice
create_invoice now id dto = do
  throw_if (not (is_present dto.type) || is_no_amount dto.amount)
      (bad_request "Invoice type and positive amount are required")
  type ← or_throw dto.type (bad_request "Invoice type and positive amount are required")
  Repository.create_invoice (new_invoice now id dto type)

unfoldable pub get_invoice : String → Acc Invoice
get_invoice id = do or_throw (← gets (Repository.find_invoice_by_id id)) (not_found "Invoice" id)

unfoldable pub list_invoices : Option InvoiceStatus → Acc (List Invoice)
list_invoices status = gets (Repository.find_all_invoices status)

abbrev pub is_draft : InvoiceStatus → Bool
is_draft InvoiceStatus.draft = true
is_draft _ = false

abbrev pub is_paid : InvoiceStatus → Bool
is_paid InvoiceStatus.paid = true
is_paid _ = false

abbrev pub is_cancelled : InvoiceStatus → Bool
is_cancelled InvoiceStatus.cancelled = true
is_cancelled _ = false

unfoldable pub issued_invoice : String → Invoice → Invoice
issued_invoice now v = record v { status = InvoiceStatus.issued; updated_at = now }

unfoldable pub issue_invoice : String → String → Acc Invoice
unfolding issued_invoice
issue_invoice now id = do
  found ← gets (Repository.find_invoice_by_id id)
  v ← or_throw found (not_found "Invoice" id)
  throw_if (not (is_draft v.status)) (bad_request "Only DRAFT invoices can be issued")
  Repository.update_invoice (issued_invoice now v)

-- The invoice after a payment of `amount`.
unfoldable pub paid_invoice : String → ℤ → Invoice → Invoice
paid_invoice now amount v =
    let total = v.paid_amount +ℤ amount in
    record v {
      paid_amount = total;
      status =
          if ltb (abs (total -ℤ v.amount)) tolerance
          then InvoiceStatus.paid
          else InvoiceStatus.partially_paid;
      updated_at = now;
    }

unfoldable pub new_payment : String → String → RecordPaymentDto → Payment
new_payment now id dto = record {
  id = id;
  invoice_id = dto.invoice_id;
  amount = or_else dto.amount (pos 0);
  method = dto.method;
  status = "COMPLETED";
  paid_at = now;
  created_at = now;
  updated_at = now;
}

unfoldable pub record_payment : String → String → RecordPaymentDto → Acc Payment
unfolding paid_invoice new_payment
record_payment now id dto = do
  throw_if (is_empty dto.invoice_id || is_no_amount dto.amount)
      (bad_request "invoiceId and positive payment amount are required")
  found ← gets (Repository.find_invoice_by_id dto.invoice_id)
  v ← or_throw found (not_found "Invoice" dto.invoice_id)
  throw_if (is_paid v.status) (bad_request "Invoice is already fully paid")
  throw_if (is_cancelled v.status) (bad_request "Cannot record payment on a CANCELLED invoice")
  throw_if (ltb_ℤ (v.amount -ℤ v.paid_amount +ℤ pos tolerance) (or_else dto.amount (pos 0)))
      (bad_request "Payment amount exceeds remaining invoice balance")
  Repository.update_invoice (paid_invoice now (or_else dto.amount (pos 0)) v)
  Repository.create_payment (new_payment now id dto)

unfoldable pub list_payments : String → Acc (List Payment)
list_payments invoice_id =
    if is_empty invoice_id
    then gets Repository.find_all_payments
    else gets (Repository.find_payments_by_invoice_id invoice_id)

unfoldable pub list_payments_by_invoice : String → Acc (List Payment)
unfolding list_payments
list_payments_by_invoice invoice_id = list_payments invoice_id
