-- ===== src/Accounting/Repository.antt =====
-- apps/api/src/modules/accounting/infrastructure/in-memory-accounting.repository.ts: the maps of the
-- class InMemoryAccountingRepository and its methods. A `find` is a function of the state, a write
-- an action.
use autonomous_enterprise.Shared.{
  Action, modify, pure, ok, err, fault, ◌>>◌, Store, lookup, insert, values, find_value, filter_by,
  is_present, String, ◌==◌, Bool, true, false, Option, none, some, List, if◌then◌else◌,
}
use autonomous_enterprise.Accounting.Types.{
  ChartOfAccount, Journal, JournalStatus, Invoice, InvoiceStatus, Payment,
}

pub record AccountingRepository : Type 0 where
  pub accounts : Store ChartOfAccount
  pub journals : Store Journal
  pub invoices : Store Invoice
  pub payments : Store Payment

abbrev Repo : Type 0 → Type 0
Repo A = Action AccountingRepository A

abbrev pub create_chart_of_account : ChartOfAccount → Repo ChartOfAccount
create_chart_of_account a = do
  modify (λ r. record r { accounts = insert a.id a r.accounts })
  pure a

abbrev pub find_chart_of_account_by_id : String → AccountingRepository → Option ChartOfAccount
find_chart_of_account_by_id id r = lookup id r.accounts

abbrev pub find_chart_of_account_by_code : String → AccountingRepository → Option ChartOfAccount
find_chart_of_account_by_code code r = find_value (λ a. a.code == code) r.accounts

abbrev pub find_all_chart_of_accounts : AccountingRepository → List ChartOfAccount
find_all_chart_of_accounts r = values r.accounts

abbrev pub create_journal : Journal → Repo Journal
create_journal j = do modify (λ r. record r { journals = insert j.id j r.journals }); pure j

abbrev pub find_journal_by_id : String → AccountingRepository → Option Journal
find_journal_by_id id r = lookup id r.journals

-- `a === b` on the texts of an enum.
journal_status_eq : JournalStatus → JournalStatus → Bool
journal_status_eq JournalStatus.draft JournalStatus.draft = true
journal_status_eq JournalStatus.pending_approval JournalStatus.pending_approval = true
journal_status_eq JournalStatus.posted JournalStatus.posted = true
journal_status_eq JournalStatus.rejected JournalStatus.rejected = true
journal_status_eq JournalStatus.reversed JournalStatus.reversed = true
journal_status_eq _ _ = false

invoice_status_eq : InvoiceStatus → InvoiceStatus → Bool
invoice_status_eq InvoiceStatus.draft InvoiceStatus.draft = true
invoice_status_eq InvoiceStatus.issued InvoiceStatus.issued = true
invoice_status_eq InvoiceStatus.partially_paid InvoiceStatus.partially_paid = true
invoice_status_eq InvoiceStatus.paid InvoiceStatus.paid = true
invoice_status_eq InvoiceStatus.overdue InvoiceStatus.overdue = true
invoice_status_eq InvoiceStatus.cancelled InvoiceStatus.cancelled = true
invoice_status_eq _ _ = false

-- `status ? x.status === status : true`
abbrev matches_status : {A : Type 0} → (A → A → Bool) → Option A → A → Bool
matches_status eq none a = true
matches_status eq (some s) a = eq a s

unfoldable pub find_all_journals : Option JournalStatus → AccountingRepository → List Journal
unfolding journal_status_eq
find_all_journals status r =
    filter_by (λ j. matches_status journal_status_eq status j.status) (values r.journals)

abbrev pub update_journal : Journal → Repo Journal
update_journal j r =
    if is_present (lookup j.id r.journals)
    then (ok j, record r { journals = insert j.id j r.journals })
    else (err (fault "Journal" j.id), r)

abbrev pub create_invoice : Invoice → Repo Invoice
create_invoice v = do modify (λ r. record r { invoices = insert v.id v r.invoices }); pure v

abbrev pub find_invoice_by_id : String → AccountingRepository → Option Invoice
find_invoice_by_id id r = lookup id r.invoices

unfoldable pub find_all_invoices : Option InvoiceStatus → AccountingRepository → List Invoice
unfolding invoice_status_eq
find_all_invoices status r =
    filter_by (λ v. matches_status invoice_status_eq status v.status) (values r.invoices)

abbrev pub update_invoice : Invoice → Repo Invoice
update_invoice v r =
    if is_present (lookup v.id r.invoices)
    then (ok v, record r { invoices = insert v.id v r.invoices })
    else (err (fault "Invoice" v.id), r)

abbrev pub create_payment : Payment → Repo Payment
create_payment p = do modify (λ r. record r { payments = insert p.id p r.payments }); pure p

abbrev pub find_payments_by_invoice_id : String → AccountingRepository → List Payment
find_payments_by_invoice_id id r = filter_by (λ p. p.invoice_id == id) (values r.payments)

abbrev pub find_all_payments : AccountingRepository → List Payment
find_all_payments r = values r.payments
