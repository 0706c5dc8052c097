-- ===== src/Accounting/Types.antt =====
-- apps/api/src/modules/accounting/domain/accounting.types.ts, the DTO classes of
-- apps/api/src/modules/accounting/dto and the enums of packages/contracts/src/index.ts. An absent
-- optional text is the empty text. Amounts are whole multiples of one millionth, so that the
-- literal 0.0001 of the service is 100. An absent amount, or one that is no number, is `none`.
use autonomous_enterprise.Shared.{ℕ, String, Option, List}
use autonomous_enterprise.Shared.Int.{ℤ}

pub data ChartOfAccountType : Type 0 where
  asset liability equity revenue expense : ChartOfAccountType

pub data JournalStatus : Type 0 where
  draft pending_approval posted rejected reversed : JournalStatus

-- `other` is any text that a request may carry in place of the two.
pub data JournalEntryDirection : Type 0 where
  debit credit : JournalEntryDirection
  other : String → JournalEntryDirection

pub data InvoiceType : Type 0 where
  receivable payable : InvoiceType

pub data InvoiceStatus : Type 0 where
  draft issued partially_paid paid overdue cancelled : InvoiceStatus

pub record ChartOfAccount : Type 0 where
  pub id : String
  pub code : String
  pub name : String
  pub type : ChartOfAccountType
  pub created_at : String
  pub updated_at : String

pub record JournalEntry : Type 0 where
  pub id : String
  pub journal_id : String
  pub account_id : String
  pub direction : JournalEntryDirection
  pub amount : ℤ
  pub memo : String
  pub created_at : String

pub record Journal : Type 0 where
  pub id : String
  pub reference : String
  pub description : String
  pub status : JournalStatus
  pub posted_at : String
  pub entries : List JournalEntry
  pub created_at : String
  pub updated_at : String

pub record Invoice : Type 0 where
  pub id : String
  pub type : InvoiceType
  pub reference_id : String
  pub counterparty : String
  pub amount : ℤ
  pub paid_amount : ℤ
  pub status : InvoiceStatus
  pub due_date : String
  pub created_at : String
  pub updated_at : String

pub record Payment : Type 0 where
  pub id : String
  pub invoice_id : String
  pub amount : ℤ
  pub method : String
  pub status : String
  pub paid_at : String
  pub created_at : String
  pub updated_at : String

pub record CreateChartOfAccountDto : Type 0 where
  pub code : String
  pub name : String
  pub type : Option ChartOfAccountType

pub record JournalEntryItemDto : Type 0 where
  pub account_id : String
  pub direction : JournalEntryDirection
  pub amount : Option ℤ
  pub memo : String

pub record CreateJournalDto : Type 0 where
  pub reference : String
  pub description : String
  pub entries : List JournalEntryItemDto

pub record CreateInvoiceDto : Type 0 where
  pub type : Option InvoiceType
  pub reference_id : String
  pub counterparty : String
  pub amount : Option ℤ
  pub due_date : String

pub record RecordPaymentDto : Type 0 where
  pub invoice_id : String
  pub amount : Option ℤ
  pub method : String

-- The literal 0.0001.
abbrev pub tolerance : ℕ
tolerance = 100
