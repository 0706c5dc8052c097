-- ===== src/Workflow/PostingExamples.antt =====
-- A run of the financial posting workflow on one balanced journal.
use autonomous_enterprise.Shared.{
  ◌≡◌, refl, lookup, after, result, ok, String, some, none, true, [], ◌∷◌,
}
use autonomous_enterprise.Shared.Int.{ℤ, pos}
use autonomous_enterprise.Accounting.Types.{Journal, JournalEntry, JournalStatus, debit, credit}
use autonomous_enterprise.Accounting.Repository.{AccountingRepository}
use autonomous_enterprise.Accounting.Journals.{posted_journal}
use autonomous_enterprise.Ticketing.Repository.{TicketingRepository}
use autonomous_enterprise.WorkflowTask.Types.{TaskState}
use autonomous_enterprise.Workflow.FinancialPosting.{
  ProcessFinancialPostingDto, PostingState, process_financial_posting,
}
use autonomous_enterprise.Workflow.Posting.{
  IsGuarded, with_posted, process_financial_posting-IsGuarded,
}

abbrev number_text : ℤ → String
number_text n = ""

abbrev iso : ℤ → String
iso time = "t"

abbrev paid_in : JournalEntry
paid_in = record {
  id = "e1";
  journal_id = "j";
  account_id = "cash";
  direction = debit;
  amount = pos 5000000;
  memo = "";
  created_at = "t1";
}

abbrev sold : JournalEntry
sold = record paid_in { id = "e2"; account_id = "sales"; direction = credit }

abbrev sale : Journal
sale = record {
  id = "j";
  reference = "";
  description = "Sale";
  status = JournalStatus.draft;
  posted_at = "";
  entries = paid_in ∷ sold ∷ [];
  created_at = "t1";
  updated_at = "t1";
}

abbrev books : AccountingRepository
books = record { accounts = []; journals = ("j", sale) ∷ []; invoices = []; payments = [] }

abbrev no_tickets : TicketingRepository
no_tickets = record { tickets = []; comments = []; assignments = []; slas = [] }

abbrev no_work : TaskState
no_work = record { tasks = []; ticketing = no_tickets; audit = [] }

abbrev ready : PostingState
ready = record { accounting = books; work = no_work; outbox = []; idempotency_store = [] }

abbrev request : ProcessFinancialPostingDto
request = record {
  journal_id = "j";
  auto_approval_threshold = none;
  confidence = none;
  idempotency_key = "";
}

posting_runs :
    (after
      (process_financial_posting number_text iso (pos 0) "w" "k" "e" request "" ready)).accounting
    ≡ with_posted "t" sale books
unfolding process_financial_posting autonomous_enterprise.Accounting.Journals.get_journal lookup
    autonomous_enterprise.WorkflowTask.Tasks.create_task
    autonomous_enterprise.Policy.evaluate_financial_posting_policy
    autonomous_enterprise.Shared.Int.◌-ℤ◌ autonomous_enterprise.Shared.Int.◌+ℤ◌
    autonomous_enterprise.Accounting.Journals.post_journal autonomous_enterprise.Outbox.publish
    autonomous_enterprise.WorkflowTask.Tasks.complete_task
    autonomous_enterprise.Shared.Lists.find_first
posting_runs = refl

process_financial_posting-IsGuarded_example :
    IsGuarded "t" request sale books
      (after
        (process_financial_posting number_text iso (pos 0) "w" "k" "e" request "" ready)).accounting
unfolding lookup
process_financial_posting-IsGuarded_example =
    process_financial_posting-IsGuarded number_text iso (pos 0) "w" "k" "e" request "" ready sale
      refl refl
