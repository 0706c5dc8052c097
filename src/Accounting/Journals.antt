-- ===== src/Accounting/Journals.antt =====
-- apps/api/src/modules/accounting/accounting.service.ts: the methods of the class AccountingService
-- on the chart of accounts and on journals. `now` is the clock's text; `id`, and `entry_id` at each
-- place of a journal, are texts of `randomUUID()`; `trim` is the method of that name on texts.
use autonomous_enterprise.Shared.{
  Action, not_found, bad_request, pure, throw, gets, or_throw, throw_if, ◌>>=◌, ◌>>◌, is_empty,
  is_present, or_else, length, ℕ, suc, String, ◌<>◌, Bool, true, false, not, ◌||◌, Option, none,
  some, List, [], ◌∷◌, ltb, if◌then◌else◌,
}
use autonomous_enterprise.Shared.Int.{ℤ, pos, ◌+ℤ◌, ◌-ℤ◌, leb_ℤ, abs}
use autonomous_enterprise.Accounting.Types.{
  ChartOfAccount, Journal, JournalEntry, JournalStatus, JournalEntryDirection, debit, credit, other,
  CreateChartOfAccountDto, CreateJournalDto, JournalEntryItemDto, tolerance,
}
use autonomous_enterprise.Accounting.Repository
use autonomous_enterprise.Accounting.Repository.{AccountingRepository}

abbrev Acc : Type 0 → Type 0
Acc A = Action AccountingRepository A

unfoldable pub create_chart_of_account :
    String → String → CreateChartOfAccountDto → Acc ChartOfAccount
create_chart_of_account now id dto = do
  throw_if (is_empty dto.name || is_empty dto.code || not (is_present dto.type))
      (bad_request "Chart of account code, name, and type are required")
  type ← or_throw dto.type (bad_request "Chart of account code, name, and type are required")
  existing ← gets (Repository.find_chart_of_account_by_code dto.code)
  throw_if (is_present existing) (bad_request "Chart of account code already exists")
  Repository.create_chart_of_account (record {
    id = id;
    code = dto.code;
    name = dto.name;
    type = type;
    created_at = now;
    updated_at = now;
  })

unfoldable pub get_chart_of_account : String → Acc ChartOfAccount
get_chart_of_account id = do
  or_throw (← gets (Repository.find_chart_of_account_by_id id)) (not_found "Chart of account" id)

unfoldable pub list_chart_of_accounts : Acc (List ChartOfAccount)
list_chart_of_accounts = gets Repository.find_all_chart_of_accounts

-- `typeof amount !== 'number' || amount <= 0 || isNaN(amount)`
abbrev pub is_no_amount : Option ℤ → Bool
is_no_amount none = true
is_no_amount (some a) = leb_ℤ a (pos 0)

-- `totalDebit` or `totalCredit` takes the amount of an entry, or the direction is refused.
abbrev add_amount : JournalEntryDirection → ℤ → ℤ × ℤ → Acc (ℤ × ℤ)
add_amount debit a (d, c) = pure (d +ℤ a, c)
add_amount credit a (d, c) = pure (d, c +ℤ a)
add_amount (other text) a (d, c) = throw (bad_request "Invalid entry direction")

-- The body of the loop over the entries.
unfoldable pub count_entry : JournalEntryItemDto → ℤ × ℤ → Acc (ℤ × ℤ)
count_entry entry totals = do
  throw_if (is_no_amount entry.amount)
      (bad_request "Journal entry amount must be greater than zero")
  account ← gets (Repository.find_chart_of_account_by_id entry.account_id)
  throw_if (not (is_present account)) (not_found "Chart of account" entry.account_id)
  add_amount entry.direction (or_else entry.amount (pos 0)) totals

-- The loop, from the totals so far.
unfoldable pub count_entries : List JournalEntryItemDto → ℤ × ℤ → Acc (ℤ × ℤ)
count_entries [] totals = pure totals
count_entries (entry ∷ entries) totals = do
  next ← count_entry entry totals
  count_entries entries next

unfoldable pub new_entry : String → String → String → JournalEntryItemDto → JournalEntry
new_entry now journal_id id item = record {
  id = id;
  journal_id = journal_id;
  account_id = item.account_id;
  direction = item.direction;
  amount = or_else item.amount (pos 0);
  memo = item.memo;
  created_at = now;
}

-- `dto.entries.map(…)`, from the place `n` on.
unfoldable pub new_entries :
    String → String → (ℕ → String) → ℕ → List JournalEntryItemDto → List JournalEntry
new_entries now journal_id entry_id n [] = []
new_entries now journal_id entry_id n (item ∷ items) =
    new_entry now journal_id (entry_id n) item ∷ new_entries now journal_id entry_id (suc n) items

unfoldable pub new_journal : String → String → (ℕ → String) → CreateJournalDto → Journal
new_journal now id entry_id dto = record {
  id = id;
  reference = dto.reference;
  description = dto.description;
  status = JournalStatus.draft;
  posted_at = "";
  entries = new_entries now id entry_id 0 dto.entries;
  created_at = now;
  updated_at = now;
}

abbrev is_unbalanced : ℤ × ℤ → Bool
is_unbalanced (d, c) = ltb tolerance (abs (d -ℤ c))

unfoldable pub create_journal : String → String → (ℕ → String) → CreateJournalDto → Acc Journal
create_journal now id entry_id dto = do
  throw_if (is_empty dto.reference || ltb (length dto.entries) 1)
      (bad_request "Journal reference and non-empty entries are required")
  throw_if (ltb (length dto.entries) 2)
      (bad_request "Journal must have at least 2 entries for double-entry bookkeeping")
  totals ← count_entries dto.entries (pos 0, pos 0)
  throw_if (is_unbalanced totals)
      (bad_request "Journal entries must balance: total debit must equal total credit")
  Repository.create_journal (new_journal now id entry_id dto)

unfoldable pub get_journal : String → Acc Journal
get_journal id = do or_throw (← gets (Repository.find_journal_by_id id)) (not_found "Journal" id)

unfoldable pub list_journals : Option JournalStatus → Acc (List Journal)
list_journals status = gets (Repository.find_all_journals status)

abbrev pub is_posted : JournalStatus → Bool
is_posted JournalStatus.posted = true
is_posted _ = false

abbrev pub is_reversed : JournalStatus → Bool
is_reversed JournalStatus.reversed = true
is_reversed _ = false

unfoldable pub posted_journal : String → Journal → Journal
posted_journal now j = record j { status = JournalStatus.posted; posted_at = now; updated_at = now }

unfoldable pub post_journal : String → String → Acc Journal
unfolding posted_journal
post_journal now id = do
  found ← gets (Repository.find_journal_by_id id)
  j ← or_throw found (not_found "Journal" id)
  throw_if (is_posted j.status) (bad_request "Journal is already posted")
  throw_if (is_reversed j.status) (bad_request "Cannot post a reversed journal")
  Repository.update_journal (posted_journal now j)

-- `direction === DEBIT ? CREDIT : DEBIT`
abbrev pub opposite : JournalEntryDirection → JournalEntryDirection
opposite debit = credit
opposite credit = debit
opposite (other text) = debit

unfoldable pub reversal_entries :
    (String → String) → String → String → (ℕ → String) → ℕ → List JournalEntry → List JournalEntry
reversal_entries trim now reversal_id entry_id n [] = []
reversal_entries trim now reversal_id entry_id n (e ∷ es) =
    record {
      id = entry_id n;
      journal_id = reversal_id;
      account_id = e.account_id;
      direction = opposite e.direction;
      amount = e.amount;
      memo = trim ("Reversal: " <> e.memo);
      created_at = now;
    }
    ∷ reversal_entries trim now reversal_id entry_id (suc n) es

unfoldable pub reversal_journal :
    (String → String) → String → String → (ℕ → String) → String → Journal → Journal
reversal_journal trim now id entry_id reason original = record {
  id = id;
  reference = "REVERSAL-" <> original.reference;
  description =
      "Reversal of journal "
      <> original.reference
      <> (if is_empty reason then "" else ": " <> reason);
  status = JournalStatus.posted;
  posted_at = now;
  entries = reversal_entries trim now id entry_id 0 original.entries;
  created_at = now;
  updated_at = now;
}

unfoldable pub reversed_journal : String → Journal → Journal
reversed_journal now j = record j { status = JournalStatus.reversed; updated_at = now }

unfoldable pub reverse_journal :
    (String → String) → String → String → (ℕ → String) → String → String → Acc Journal
unfolding reversed_journal reversal_journal
reverse_journal trim now reversal_id entry_id id reason = do
  found ← gets (Repository.find_journal_by_id id)
  original ← or_throw found (not_found "Journal" id)
  throw_if (not (is_posted original.status)) (bad_request "Only POSTED journals can be reversed")
  Repository.update_journal (reversed_journal now original)
  Repository.create_journal (reversal_journal trim now reversal_id entry_id reason original)
