-- ===== src/Accounting/Balance.antt =====
-- What holds of the journals between two calls: each has at least two entries, all positive and each
-- a debit or a credit, and its debits and credits differ by no more than the tolerance.
use autonomous_enterprise.Shared.{
  arith, ◌≡◌, refl, ap, ⊤, All, or_else, length, ℕ, suc, ◌≤◌, String, List, [], ◌∷◌, ok, after,
  result, then_same, then_result,
}
use autonomous_enterprise.Shared.Int.{ℤ, pos, ◌+ℤ◌, ◌-ℤ◌, ◌≤ℤ◌, abs, int_laws}
use autonomous_enterprise.Accounting.Types.{
  Journal, JournalEntry, JournalEntryDirection, debit, credit, other, JournalEntryItemDto,
  tolerance,
}
use autonomous_enterprise.Accounting.Repository.{AccountingRepository}
use autonomous_enterprise.Accounting.Journals.{count_entry, count_entries, new_entry, new_entries}

-- What an entry debits, and what it credits.
abbrev pub debit_of : JournalEntryDirection → ℤ → ℤ
debit_of debit a = a
debit_of credit a = pos 0
debit_of (other text) a = pos 0

abbrev pub credit_of : JournalEntryDirection → ℤ → ℤ
credit_of debit a = pos 0
credit_of credit a = a
credit_of (other text) a = pos 0

abbrev pub debits : List JournalEntry → ℤ
debits [] = pos 0
debits (e ∷ es) = debit_of e.direction e.amount +ℤ debits es

abbrev pub credits : List JournalEntry → ℤ
credits [] = pos 0
credits (e ∷ es) = credit_of e.direction e.amount +ℤ credits es

abbrev pub IsSided : JournalEntryDirection → Type 0
IsSided debit = ⊤
IsSided credit = ⊤
IsSided (other text) = ⊥

-- Every entry is a debit or a credit of a positive amount.
abbrev pub AreSided : List JournalEntry → Type 0
AreSided [] = ⊤
AreSided (e ∷ es) = IsSided e.direction × (pos 1 ≤ℤ e.amount) × AreSided es

abbrev pub IsBalanced : List JournalEntry → Type 0
IsBalanced es = (2 ≤ length es) × (abs (debits es -ℤ credits es) ≤ tolerance) × AreSided es

abbrev pub IsEntered : String → Journal → Type 0
IsEntered id j = (j.id ≡ id) × IsBalanced j.entries

abbrev pub IsBooked : AccountingRepository → Type 0
IsBooked r = All IsEntered r.journals

-- One round of the loop.
count_entry_written :
    (x : JournalEntryItemDto) (d c : ℤ) (r : AccountingRepository) (t : ℤ × ℤ)
    → result (count_entry x (d, c) r) ≡ ok t
    → (t.0 ≡ d +ℤ debit_of x.direction (or_else x.amount (pos 0)))
      × (t.1 ≡ c +ℤ credit_of x.direction (or_else x.amount (pos 0)))
      × IsSided x.direction
      × (pos 1 ≤ℤ or_else x.amount (pos 0))
unfolding count_entry
count_entry_written x d c r t done = grind (int_laws)

count_entry_same :
    (x : JournalEntryItemDto) (t : ℤ × ℤ) (r : AccountingRepository) → after (count_entry x t r) ≡ r
unfolding count_entry
count_entry_same x (d, c) r = ground arith

pub count_entries_same :
    (xs : List JournalEntryItemDto) (t : ℤ × ℤ) (r : AccountingRepository)
    → after (count_entries xs t r) ≡ r
unfolding count_entries
count_entries_same [] t r = refl
count_entries_same (x ∷ xs) t r =
    then_same (count_entry x t) (count_entries xs) r (count_entry_same x t r)
      (λ next. count_entries_same xs next r)

-- The loop adds the debits and the credits of the entries that are made of the request's items.
pub count_entries_written :
    (now id : String) (entry_id : ℕ → String) (n : ℕ) (xs : List JournalEntryItemDto) (d c : ℤ)
    (r : AccountingRepository) (t : ℤ × ℤ)
    → result (count_entries xs (d, c) r) ≡ ok t
    → let es = new_entries now id entry_id n xs in
      (t.0 ≡ d +ℤ debits es) × (t.1 ≡ c +ℤ credits es) × AreSided es
unfolding count_entries new_entries new_entry
count_entries_written now id entry_id n [] d c r t done = grind (int_laws)
count_entries_written now id entry_id n (x ∷ xs) d c r t done =
    let (u, first, rest) =
      then_result (count_entry x (d, c)) (count_entries xs) r t (count_entry_same x (d, c) r)
        done in
    let one = count_entry_written x d c r u first in
    let more = count_entries_written now id entry_id (suc n) xs u.0 u.1 r t rest in grind (int_laws)

pub length-new_entries :
    (now id : String) (entry_id : ℕ → String) (n : ℕ) (xs : List JournalEntryItemDto)
    → length (new_entries now id entry_id n xs) ≡ length xs
unfolding new_entries
length-new_entries now id entry_id n [] = refl
length-new_entries now id entry_id n (x ∷ xs) =
    ap suc (length-new_entries now id entry_id (suc n) xs)
