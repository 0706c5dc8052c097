-- ===== src/Accounting/Reversing.antt =====
-- `reverseJournal` stores the original's entries with debit and credit exchanged.
use autonomous_enterprise.Shared.{
  arith, ◌≡◌, refl, lookup, insert, All-insert, All-lookup, inl, inr, Option-cases, String, ◌==◌, ℕ,
  suc, List, [], ◌∷◌, true, none, some, length, Error, ok, err, after, result, after-cases,
  if◌then◌else◌,
}
use autonomous_enterprise.Shared.Int.{ℤ, pos, ◌+ℤ◌, ◌-ℤ◌, int_laws}
use autonomous_enterprise.Accounting.Types.{Journal, JournalEntry}
use autonomous_enterprise.Accounting.Repository.{AccountingRepository}
use autonomous_enterprise.Accounting.Journals.{
  reversal_entries, reversal_journal, reversed_journal, reverse_journal, is_posted,
}
use autonomous_enterprise.Accounting.Balance.{
  debit_of, credit_of, debits, credits, AreSided, IsEntered, IsBooked,
}

-- What an entry adds to the net debit of the account `account`, and what entries add together.
abbrev pub net_of : String → JournalEntry → ℤ
net_of account e =
    if e.account_id == account
    then debit_of e.direction e.amount -ℤ credit_of e.direction e.amount
    else pos 0

abbrev pub net : String → List JournalEntry → ℤ
net account [] = pos 0
net account (e ∷ es) = net_of account e +ℤ net account es

-- A reversal debits what the original credits and credits what it debits.
reversal_entries_sums :
    (trim : String → String) (now id : String) (entry_id : ℕ → String) (n : ℕ)
    (es : List JournalEntry)
    → AreSided es
    → let back = reversal_entries trim now id entry_id n es in
      (length back ≡ length es)
      × (debits back ≡ credits es)
      × (credits back ≡ debits es)
      × AreSided back
unfolding reversal_entries
reversal_entries_sums trim now id entry_id n [] h = (refl, refl, refl, h)
reversal_entries_sums trim now id entry_id n (e ∷ es) h =
    let more = reversal_entries_sums trim now id entry_id (suc n) es h.2 in grind (int_laws)

-- On every account the reversal and the original add up to nothing.
pub net-reversal_entries :
    (trim : String → String) (now id : String) (entry_id : ℕ → String) (n : ℕ)
    (es : List JournalEntry) (account : String)
    → AreSided es
    → net account (reversal_entries trim now id entry_id n es) +ℤ net account es ≡ pos 0
unfolding reversal_entries
net-reversal_entries trim now id entry_id n [] account h = grind (int_laws)
net-reversal_entries trim now id entry_id n (e ∷ es) account h =
    let more = net-reversal_entries trim now id entry_id (suc n) es account h.2 in grind (int_laws)

reversal_journal-IsEntered :
    (trim : String → String) (now id : String) (entry_id : ℕ → String) (reason k : String)
    (j : Journal)
    → IsEntered k j
    → IsEntered id (reversal_journal trim now id entry_id reason j)
unfolding reversal_journal
reversal_journal-IsEntered trim now id entry_id reason k j h =
    let sums = reversal_entries_sums trim now id entry_id 0 j.entries h.1.2 in grind (int_laws)

reversed_journal-IsEntered :
    (now id : String) (j : Journal) → IsEntered id j → IsEntered id (reversed_journal now j)
unfolding reversed_journal
reversed_journal-IsEntered now id j h = h

-- A journal of the store is kept under its own identifier.
keyed :
    (r : AccountingRepository) (id : String) (j : Journal)
    → IsBooked r
    → lookup id r.journals ≡ some j
    → lookup j.id r.journals ≡ some j
keyed r id j h found = ground (arith, All-lookup IsEntered id j r.journals h found)

module _ (trim : String → String) (now reversal_id : String) (entry_id : ℕ → String)
    (id reason : String) (r : AccountingRepository) (h : IsBooked r) where
  reverse_unknown :
      (x : Journal)
      → lookup id r.journals ≡ none
      → ¬ (result (reverse_journal trim now reversal_id entry_id id reason r) ≡ ok x)
  unfolding reverse_journal
  reverse_unknown x unknown done = ground arith

  reverse_journal_atomic :
      (x : Error)
      → result (reverse_journal trim now reversal_id entry_id id reason r) ≡ err x
      → after (reverse_journal trim now reversal_id entry_id id reason r) ≡ r
  unfolding reverse_journal
  reverse_journal_atomic x failed = elim (Option-cases (lookup id r.journals)) [
    | inl unknown ↦ ground arith
    | inr (j, found) ↦ ground (arith, keyed r id j h found)
  ]

  pub reverse_journal_written :
      (j x : Journal)
      → lookup id r.journals ≡ some j
      → result (reverse_journal trim now reversal_id entry_id id reason r) ≡ ok x
      → (is_posted j.status ≡ true)
        × (j.id ≡ id)
        × (x ≡ reversal_journal trim now reversal_id entry_id reason j)
        × (after (reverse_journal trim now reversal_id entry_id id reason r) ≡ record r {
          journals =
              insert reversal_id
                (reversal_journal trim now reversal_id entry_id reason j)
                (insert id (reversed_journal now j) r.journals);
        })
  unfolding reverse_journal reversal_journal reversed_journal
  reverse_journal_written j x found done =
      ground (arith, keyed r id j h found, All-lookup IsEntered id j r.journals h found)

  pub reverse_journal-IsBooked :
      IsBooked (after (reverse_journal trim now reversal_id entry_id id reason r))
  reverse_journal-IsBooked =
      after-cases IsBooked (reverse_journal trim now reversal_id entry_id id reason r)
        (λ x failed. rw (reverse_journal_atomic x failed) h)
        (λ x done. elim (Option-cases (lookup id r.journals)) [
          | inl unknown ↦ absurd (reverse_unknown x unknown done)
          | inr (j, found) ↦
              let (_, key, _, written) = reverse_journal_written j x found done in
              let entered = All-lookup IsEntered id j r.journals h found in
              rw written (
                All-insert IsEntered reversal_id _ _
                  (All-insert IsEntered id (reversed_journal now j) r.journals h
                    (reversed_journal-IsEntered now id j entered))
                  (reversal_journal-IsEntered trim now reversal_id entry_id reason id j entered))
        ])

  -- When the journals are balanced and a reversal is returned, then on every account the entries
  -- of the reversal and of the original journal add up to nothing, debits counted positive and
  -- credits negative.
  pub reverse_journal-net :
      (j x : Journal) (account : String)
      → lookup id r.journals ≡ some j
      → result (reverse_journal trim now reversal_id entry_id id reason r) ≡ ok x
      → net account x.entries +ℤ net account j.entries ≡ pos 0
  unfolding reversal_journal
  reverse_journal-net j x account found done =
      let (_, _, same, _) = reverse_journal_written j x found done in
      let sided = (All-lookup IsEntered id j r.journals h found).1.2 in
      rw same (net-reversal_entries trim now reversal_id entry_id 0 j.entries account sided)
