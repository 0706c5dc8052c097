-- ===== src/Accounting/Booking.antt =====
-- `createJournal` and `postJournal` store balanced journals only.
use autonomous_enterprise.Shared.{
  arith, ◌≡◌, refl, lookup, insert, All-insert, All-lookup, inl, inr, Option-cases, String, ℕ, ◌≤◌,
  none, some, false, length, Error, ok, err, after, result, after-cases, Result-cases,
}
use autonomous_enterprise.Shared.Int.{ℤ, pos, ◌-ℤ◌, abs, int_laws}
use autonomous_enterprise.Accounting.Types.{Journal, CreateJournalDto, tolerance}
use autonomous_enterprise.Accounting.Repository.{AccountingRepository}
use autonomous_enterprise.Accounting.Journals.{
  count_entries, new_journal, create_journal, posted_journal, post_journal, is_posted, is_reversed,
}
use autonomous_enterprise.Accounting.Balance.{
  IsEntered, IsBooked, count_entries_same, count_entries_written, length-new_entries,
}

create_journal_atomic :
    (now id : String) (entry_id : ℕ → String) (dto : CreateJournalDto) (r : AccountingRepository)
    (x : Error)
    → result (create_journal now id entry_id dto r) ≡ err x
    → after (create_journal now id entry_id dto r) ≡ r
unfolding create_journal
create_journal_atomic now id entry_id dto r x failed =
    ground (arith, count_entries_same dto.entries (pos 0, pos 0) r)

create_journal_counted :
    (now id : String) (entry_id : ℕ → String) (dto : CreateJournalDto) (r : AccountingRepository)
    (j : Journal) (t : ℤ × ℤ)
    → result (create_journal now id entry_id dto r) ≡ ok j
    → result (count_entries dto.entries (pos 0, pos 0) r) ≡ ok t
    → (abs (t.0 -ℤ t.1) ≤ tolerance)
      × (2 ≤ length dto.entries)
      × (after (create_journal now id entry_id dto r)
          ≡ record r { journals = insert id (new_journal now id entry_id dto) r.journals })
unfolding create_journal new_journal
create_journal_counted now id entry_id dto r j t done counted =
    ground (arith, count_entries_same dto.entries (pos 0, pos 0) r)

create_journal_uncounted :
    (now id : String) (entry_id : ℕ → String) (dto : CreateJournalDto) (r : AccountingRepository)
    (j : Journal) (e : Error)
    → result (create_journal now id entry_id dto r) ≡ ok j
    → ¬ (result (count_entries dto.entries (pos 0, pos 0) r) ≡ err e)
unfolding create_journal
create_journal_uncounted now id entry_id dto r j e done failed = ground arith

-- The debits and credits of the request's entries differ by no more than the tolerance.
new_journal-IsBalanced :
    (now id : String) (entry_id : ℕ → String) (dto : CreateJournalDto) (r : AccountingRepository)
    (t : ℤ × ℤ)
    → result (count_entries dto.entries (pos 0, pos 0) r) ≡ ok t
    → abs (t.0 -ℤ t.1) ≤ tolerance
    → 2 ≤ length dto.entries
    → IsEntered id (new_journal now id entry_id dto)
unfolding new_journal
new_journal-IsBalanced now id entry_id dto r t counted close many =
    let sums = count_entries_written now id entry_id 0 dto.entries (pos 0) (pos 0) r t counted in
    let same = length-new_entries now id entry_id 0 dto.entries in grind (int_laws)

-- Every journal that `createJournal` stores is balanced: it has at least two entries, each a debit
-- or a credit of a positive amount, and its debits and credits differ by no more than 0.0001.
pub create_journal-IsBooked :
    (now id : String) (entry_id : ℕ → String) (dto : CreateJournalDto) (r : AccountingRepository)
    → IsBooked r
    → IsBooked (after (create_journal now id entry_id dto r))
create_journal-IsBooked now id entry_id dto r h =
    after-cases IsBooked (create_journal now id entry_id dto r)
      (λ x failed. rw (create_journal_atomic now id entry_id dto r x failed) h)
      (λ j done. elim (Result-cases (result (count_entries dto.entries (pos 0, pos 0) r))) [
        | inl (e, failed) ↦ absurd (create_journal_uncounted now id entry_id dto r j e done failed)
        | inr (t, counted) ↦
            let (close, many, written) =
              create_journal_counted now id entry_id dto r j t done counted in
            rw written (
              All-insert IsEntered id (new_journal now id entry_id dto) r.journals h
                (new_journal-IsBalanced now id entry_id dto r t counted close many))
      ])

post_journal_atomic :
    (now id : String) (r : AccountingRepository) (x : Error)
    → result (post_journal now id r) ≡ err x
    → after (post_journal now id r) ≡ r
unfolding post_journal
post_journal_atomic now id r x failed = ground arith

post_unknown :
    (now id : String) (r : AccountingRepository) (x : Journal)
    → lookup id r.journals ≡ none
    → ¬ (result (post_journal now id r) ≡ ok x)
unfolding post_journal
post_unknown now id r x unknown done = ground arith

pub post_journal_written :
    (now id : String) (r : AccountingRepository) (j x : Journal)
    → lookup id r.journals ≡ some j
    → result (post_journal now id r) ≡ ok x
    → (is_posted j.status ≡ false)
      × (is_reversed j.status ≡ false)
      × (x ≡ posted_journal now j)
      × (after (post_journal now id r)
          ≡ record r { journals = insert j.id (posted_journal now j) r.journals })
unfolding post_journal
post_journal_written now id r j x found done = ground arith

posted_journal-IsEntered :
    (now id : String) (j : Journal) → IsEntered id j → IsEntered j.id (posted_journal now j)
unfolding posted_journal
posted_journal-IsEntered now id j h = (refl, h.1)

pub post_journal-IsBooked :
    (now id : String) (r : AccountingRepository)
    → IsBooked r
    → IsBooked (after (post_journal now id r))
post_journal-IsBooked now id r h =
    after-cases IsBooked (post_journal now id r)
      (λ x failed. rw (post_journal_atomic now id r x failed) h)
      (λ x done. elim (Option-cases (lookup id r.journals)) [
        | inl unknown ↦ absurd (post_unknown now id r x unknown done)
        | inr (j, found) ↦
            let (_, _, _, written) = post_journal_written now id r j x found done in
            rw written (
              All-insert IsEntered j.id (posted_journal now j) r.journals h
                (posted_journal-IsEntered now id j (All-lookup IsEntered id j r.journals h found)))
      ])
