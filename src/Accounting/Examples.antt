-- ===== src/Accounting/Examples.antt =====
-- Runs of the accounting service on one journal and one invoice.
use autonomous_enterprise.Shared.{
  ◌≡◌, refl, String, ℕ, ok, lookup, insert, some, false, after, result, find_value, arith, [], ◌∷◌,
}
use autonomous_enterprise.Shared.Int.{pos, ◌+ℤ◌, ◌-ℤ◌, ◌≤ℤ◌}
use autonomous_enterprise.Accounting.Types.{
  ChartOfAccountType, InvoiceType, InvoiceStatus, Invoice, Journal, debit, credit,
  CreateChartOfAccountDto, CreateJournalDto, JournalEntryItemDto, CreateInvoiceDto,
  RecordPaymentDto,
}
use autonomous_enterprise.Accounting.Repository.{AccountingRepository}
use autonomous_enterprise.Accounting.Journals.{
  create_chart_of_account, count_entry, count_entries, new_entry, new_entries, new_journal,
  create_journal, posted_journal, post_journal, reversal_entries, reversal_journal,
  reversed_journal, reverse_journal,
}
use autonomous_enterprise.Accounting.Invoices.{
  new_invoice, create_invoice, issued_invoice, issue_invoice, paid_invoice, new_payment,
  record_payment, is_paid, is_cancelled,
}
use autonomous_enterprise.Accounting.Settlement.{IsSettled}
use autonomous_enterprise.Accounting.Balance.{IsBooked}
use autonomous_enterprise.Accounting.Reversing.{net, reverse_journal-net}
use autonomous_enterprise.Accounting.Traces.{
  empty_accounting, creates_account, creates_journal, posts, reverses, creates_invoice, issues,
  pays, Reach, start, next, Reach-IsSettled, Reach-IsBooked,
}
use autonomous_enterprise.Accounting.Closing.{pay_rest}

abbrev cash : CreateChartOfAccountDto
cash = record { code = "100"; name = "Cash"; type = some ChartOfAccountType.asset }

abbrev sales : CreateChartOfAccountDto
sales = record { code = "400"; name = "Sales"; type = some ChartOfAccountType.revenue }

abbrev paid_in : JournalEntryItemDto
paid_in = record { account_id = "c"; direction = debit; amount = some (pos 500); memo = "" }

abbrev sold : JournalEntryItemDto
sold = record { account_id = "s"; direction = credit; amount = some (pos 500); memo = "" }

abbrev sale : CreateJournalDto
sale = record { reference = "S-1"; description = ""; entries = paid_in ∷ sold ∷ [] }

abbrev entry_id : ℕ → String
entry_id n = "i"

abbrev same_text : String → String
same_text text = text

abbrev opened : AccountingRepository
opened = after (
    create_chart_of_account "t2" "s" sales
      (after (create_chart_of_account "t1" "c" cash empty_accounting)))

abbrev drafted : AccountingRepository
drafted = after (create_journal "t3" "j" entry_id sale opened)

abbrev booked : AccountingRepository
booked = after (post_journal "t4" "j" drafted)

abbrev reversed : AccountingRepository
reversed = after (reverse_journal same_text "t5" "k" entry_id "j" "" booked)

booked-Reach : Reach booked
booked-Reach =
    next
      (next (next (next start (creates_account "t1" "c" cash)) (creates_account "t2" "s" sales))
        (creates_journal "t3" "j" entry_id sale))
      (posts "t4" "j")

Reach-IsBooked_example : IsBooked reversed
Reach-IsBooked_example =
    Reach-IsBooked (next booked-Reach (reverses same_text "t5" "k" entry_id "j" ""))

abbrev original : Journal
original = posted_journal "t4" (new_journal "t3" "j" entry_id sale)

abbrev reversal : Journal
reversal = reversal_journal same_text "t5" "k" entry_id "" original

booked-found : lookup "j" booked.journals ≡ some original
unfolding empty_accounting create_chart_of_account count_entry count_entries new_entry new_entries
    new_journal create_journal posted_journal post_journal reversal_entries reversal_journal
    reversed_journal reverse_journal new_invoice create_invoice issued_invoice issue_invoice
    paid_invoice new_payment record_payment lookup insert find_value ◌-ℤ◌ ◌+ℤ◌
booked-found = refl

reverse_runs : result (reverse_journal same_text "t5" "k" entry_id "j" "" booked) ≡ ok reversal
unfolding empty_accounting create_chart_of_account count_entry count_entries new_entry new_entries
    new_journal create_journal posted_journal post_journal reversal_entries reversal_journal
    reversed_journal reverse_journal new_invoice create_invoice issued_invoice issue_invoice
    paid_invoice new_payment record_payment lookup insert find_value ◌-ℤ◌ ◌+ℤ◌
reverse_runs = refl

reverse_journal-net_example : net "c" reversal.entries +ℤ net "c" original.entries ≡ pos 0
reverse_journal-net_example =
    reverse_journal-net same_text "t5" "k" entry_id "j" "" booked (Reach-IsBooked booked-Reach)
      original reversal "c" booked-found reverse_runs

abbrev bill : CreateInvoiceDto
bill = record {
  type = some InvoiceType.receivable;
  reference_id = "";
  counterparty = "ann";
  amount = some (pos 1000);
  due_date = "";
}

abbrev part : RecordPaymentDto
part = record { invoice_id = "v"; amount = some (pos 400); method = "cash" }

abbrev billed : AccountingRepository
billed = after (issue_invoice "t2" "v" (after (create_invoice "t1" "v" bill empty_accounting)))

abbrev part_paid : AccountingRepository
part_paid = after (record_payment "t3" "p" part billed)

part_paid-Reach : Reach part_paid
unfolding empty_accounting create_chart_of_account count_entry count_entries new_entry new_entries
    new_journal create_journal posted_journal post_journal reversal_entries reversal_journal
    reversed_journal reverse_journal new_invoice create_invoice issued_invoice issue_invoice
    paid_invoice new_payment record_payment lookup insert find_value ◌-ℤ◌ ◌+ℤ◌
part_paid-Reach =
    next (next (next start (creates_invoice "t1" "v" bill refl)) (issues "t2" "v"))
      (pays "t3" "p" part refl)

Reach-IsSettled_example : IsSettled part_paid
Reach-IsSettled_example = Reach-IsSettled part_paid-Reach

abbrev part_invoice : Invoice
part_invoice =
    paid_invoice "t3" (pos 400)
      (issued_invoice "t2" (new_invoice "t1" "v" bill InvoiceType.receivable))

part_paid-found : lookup "v" part_paid.invoices ≡ some part_invoice
unfolding empty_accounting create_chart_of_account count_entry count_entries new_entry new_entries
    new_journal create_journal posted_journal post_journal reversal_entries reversal_journal
    reversed_journal reverse_journal new_invoice create_invoice issued_invoice issue_invoice
    paid_invoice new_payment record_payment lookup insert find_value ◌-ℤ◌ ◌+ℤ◌
part_paid-found = refl

part_invoice-unpaid : is_paid part_invoice.status ≡ false
unfolding empty_accounting create_chart_of_account count_entry count_entries new_entry new_entries
    new_journal create_journal posted_journal post_journal reversal_entries reversal_journal
    reversed_journal reverse_journal new_invoice create_invoice issued_invoice issue_invoice
    paid_invoice new_payment record_payment lookup insert find_value ◌-ℤ◌ ◌+ℤ◌
part_invoice-unpaid = refl

part_invoice-kept : is_cancelled part_invoice.status ≡ false
unfolding empty_accounting create_chart_of_account count_entry count_entries new_entry new_entries
    new_journal create_journal posted_journal post_journal reversal_entries reversal_journal
    reversed_journal reverse_journal new_invoice create_invoice issued_invoice issue_invoice
    paid_invoice new_payment record_payment lookup insert find_value ◌-ℤ◌ ◌+ℤ◌
part_invoice-kept = refl

abbrev rest : RecordPaymentDto
rest = record part { amount = some (pos 600) }

rest-edge : rest.amount ≡ some (part_invoice.amount -ℤ part_invoice.paid_amount)
unfolding empty_accounting create_chart_of_account count_entry count_entries new_entry new_entries
    new_journal create_journal posted_journal post_journal reversal_entries reversal_journal
    reversed_journal reverse_journal new_invoice create_invoice issued_invoice issue_invoice
    paid_invoice new_payment record_payment lookup insert find_value ◌-ℤ◌ ◌+ℤ◌
rest-edge = refl

rest-positive : pos 1 ≤ℤ part_invoice.amount -ℤ part_invoice.paid_amount
unfolding empty_accounting create_chart_of_account count_entry count_entries new_entry new_entries
    new_journal create_journal posted_journal post_journal reversal_entries reversal_journal
    reversed_journal reverse_journal new_invoice create_invoice issued_invoice issue_invoice
    paid_invoice new_payment record_payment lookup insert find_value ◌-ℤ◌ ◌+ℤ◌
rest-positive = omega arith

pay_rest_example :
    let t = after (record_payment "t4" "q" rest part_paid) in
    (result (record_payment "t4" "q" rest part_paid) ≡ ok (new_payment "t4" "q" rest))
    × (lookup "v" t.invoices
        ≡ some (record part_invoice {
          paid_amount = part_invoice.amount;
          status = InvoiceStatus.paid;
          updated_at = "t4";
        }))
    × (¬ (result (record_payment "t5" "z" part t) ≡ ok (new_payment "t5" "z" part)))
pay_rest_example =
    pay_rest "t4" "q" "t5" "z" rest part part_paid part_invoice (new_payment "t5" "z" part)
      part_paid-Reach part_paid-found refl part_invoice-unpaid part_invoice-kept rest-edge
      rest-positive refl
