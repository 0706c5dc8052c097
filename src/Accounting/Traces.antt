-- ===== src/Accounting/Traces.antt =====
-- Journals, invoices and payments under any sequence of calls of the accounting service.
use autonomous_enterprise.Shared.{arith, ◌≡◌, refl, lookup, String, ℕ, [], none, after}
use autonomous_enterprise.Accounting.Types.{
  CreateChartOfAccountDto, CreateJournalDto, CreateInvoiceDto, RecordPaymentDto,
}
use autonomous_enterprise.Accounting.Repository.{AccountingRepository}
use autonomous_enterprise.Accounting.Journals.{
  create_chart_of_account, create_journal, post_journal, reverse_journal,
}
use autonomous_enterprise.Accounting.Invoices.{create_invoice, issue_invoice, record_payment}
use autonomous_enterprise.Accounting.Settlement.{
  IsSettled, create_invoice-IsSettled, issue_invoice-IsSettled,
}
use autonomous_enterprise.Accounting.Paying.{record_payment-IsSettled}
use autonomous_enterprise.Accounting.Balance.{IsBooked, count_entries_same}
use autonomous_enterprise.Accounting.Booking.{create_journal-IsBooked, post_journal-IsBooked}
use autonomous_enterprise.Accounting.Reversing.{reverse_journal-IsBooked}
use autonomous_enterprise.Shared.Int.{pos}

-- The repository as it is constructed.
unfoldable pub empty_accounting : AccountingRepository
empty_accounting = record { accounts = []; journals = []; invoices = []; payments = [] }

-- One call of the service that may write. The identifiers of new invoices and payments are not in
-- use.
pub data Step (r : AccountingRepository) : AccountingRepository → Type 0 where
  creates_account :
      (now id : String) (dto : CreateChartOfAccountDto)
      → Step r (after (create_chart_of_account now id dto r))
  creates_journal :
      (now id : String) (entry_id : ℕ → String) (dto : CreateJournalDto)
      → Step r (after (create_journal now id entry_id dto r))
  posts : (now id : String) → Step r (after (post_journal now id r))
  reverses :
      (trim : String → String) (now reversal_id : String) (entry_id : ℕ → String)
      (id reason : String)
      → Step r (after (reverse_journal trim now reversal_id entry_id id reason r))
  creates_invoice :
      (now id : String) (dto : CreateInvoiceDto)
      → lookup id r.invoices ≡ none
      → Step r (after (create_invoice now id dto r))
  issues : (now id : String) → Step r (after (issue_invoice now id r))
  pays :
      (now id : String) (dto : RecordPaymentDto)
      → lookup id r.payments ≡ none
      → Step r (after (record_payment now id dto r))

pub data Reach : AccountingRepository → Type 0 where
  start : Reach empty_accounting
  next : {r t : AccountingRepository} → Reach r → Step r t → Reach t

-- A call on one pair of maps leaves the other pair.
abbrev SameBills : AccountingRepository → AccountingRepository → Type 0
SameBills r t = (t.invoices ≡ r.invoices) × (t.payments ≡ r.payments)

account_same :
    (now id : String) (dto : CreateChartOfAccountDto) (r : AccountingRepository)
    → let t = after (create_chart_of_account now id dto r) in
      SameBills r t × (t.journals ≡ r.journals)
unfolding create_chart_of_account
account_same now id dto r = ground arith

journal_same :
    (now id : String) (entry_id : ℕ → String) (dto : CreateJournalDto) (r : AccountingRepository)
    → SameBills r (after (create_journal now id entry_id dto r))
unfolding create_journal
journal_same now id entry_id dto r = ground (arith, count_entries_same dto.entries (pos 0, pos 0) r)

post_same :
    (now id : String) (r : AccountingRepository) → SameBills r (after (post_journal now id r))
unfolding post_journal
post_same now id r = ground arith

reverse_same :
    (trim : String → String) (now reversal_id : String) (entry_id : ℕ → String) (id reason : String)
    (r : AccountingRepository)
    → SameBills r (after (reverse_journal trim now reversal_id entry_id id reason r))
unfolding reverse_journal
reverse_same trim now reversal_id entry_id id reason r = ground arith

invoice_same :
    (now id : String) (dto : CreateInvoiceDto) (r : AccountingRepository)
    → (after (create_invoice now id dto r)).journals ≡ r.journals
unfolding create_invoice
invoice_same now id dto r = ground arith

issue_same :
    (now id : String) (r : AccountingRepository)
    → (after (issue_invoice now id r)).journals ≡ r.journals
unfolding issue_invoice
issue_same now id r = ground arith

payment_same :
    (now id : String) (dto : RecordPaymentDto) (r : AccountingRepository)
    → (after (record_payment now id dto r)).journals ≡ r.journals
unfolding record_payment
payment_same now id dto r = ground arith

Step-IsSettled : {r t : AccountingRepository} → Step r t → IsSettled r → IsSettled t
Step-IsSettled {r} (creates_account now id dto) h k =
    let ((e, f), _) = account_same now id dto r in rw (e, f) (h k)
Step-IsSettled {r} (creates_journal now id entry_id dto) h k =
    let (e, f) = journal_same now id entry_id dto r in rw (e, f) (h k)
Step-IsSettled {r} (posts now id) h k = let (e, f) = post_same now id r in rw (e, f) (h k)
Step-IsSettled {r} (reverses trim now reversal_id entry_id id reason) h k =
    let (e, f) = reverse_same trim now reversal_id entry_id id reason r in rw (e, f) (h k)
Step-IsSettled {r} (creates_invoice now id dto fresh) h k =
    create_invoice-IsSettled now id dto r h fresh k
Step-IsSettled {r} (issues now id) h k = issue_invoice-IsSettled now id r h k
Step-IsSettled {r} (pays now id dto fresh) h k = record_payment-IsSettled now id dto r h fresh k

Step-IsBooked : {r t : AccountingRepository} → Step r t → IsBooked r → IsBooked t
Step-IsBooked {r} (creates_account now id dto) h = rw (account_same now id dto r).1 h
Step-IsBooked {r} (creates_journal now id entry_id dto) h =
    create_journal-IsBooked now id entry_id dto r h
Step-IsBooked {r} (posts now id) h = post_journal-IsBooked now id r h
Step-IsBooked {r} (reverses trim now reversal_id entry_id id reason) h =
    reverse_journal-IsBooked trim now reversal_id entry_id id reason r h
Step-IsBooked {r} (creates_invoice now id dto fresh) h = rw (invoice_same now id dto r) h
Step-IsBooked {r} (issues now id) h = rw (issue_same now id r) h
Step-IsBooked {r} (pays now id dto fresh) h = rw (payment_same now id dto r) h

-- In every state that is reached from the empty one by calls of the service, in any order, the
-- paid amount of each invoice is the sum of its payments, is not negative, exceeds the invoice's
-- positive amount by at most 0.0001, and tells the status: draft or issued when it is zero, paid
-- when it is less than 0.0001 from the amount, and partially paid otherwise. The payments for an
-- identifier without an invoice sum to zero.
pub Reach-IsSettled : {r : AccountingRepository} → Reach r → IsSettled r
unfolding empty_accounting lookup
Reach-IsSettled start = λ k. refl
Reach-IsSettled (next reach step) = Step-IsSettled step (Reach-IsSettled reach)

-- In every state that is reached from the empty one by calls of the service, in any order, each
-- journal, a reversal too, has at least two entries, each a debit or a credit of a positive
-- amount, and its debits and credits differ by at most 0.0001.
pub Reach-IsBooked : {r : AccountingRepository} → Reach r → IsBooked r
unfolding empty_accounting
Reach-IsBooked start = tt
Reach-IsBooked (next reach step) = Step-IsBooked step (Reach-IsBooked reach)
