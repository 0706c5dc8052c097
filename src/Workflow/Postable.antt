-- ===== src/Workflow/Postable.antt =====
-- The journals that the posting policy approves: what their entries say of debits and credits.
use autonomous_enterprise.Shared.{arith, ◌≡◌, filter_by, List, [], ◌∷◌, refl, String, true, or_else}
use autonomous_enterprise.Shared.Int.{ℤ, pos, ◌+ℤ◌, ◌-ℤ◌, ◌≤ℤ◌, ltb_ℤ, abs, int_laws, parts_apart}
use autonomous_enterprise.Shared.Lists.{total}
use autonomous_enterprise.Policy.{auto_approve, evaluate_financial_posting_policy}
use autonomous_enterprise.Accounting.Types.{Journal, JournalEntry}
use autonomous_enterprise.Accounting.Balance.{debits, credits}
use autonomous_enterprise.Workflow.FinancialPosting.{
  ProcessFinancialPostingDto, is_debit, is_credit, total_debit, is_balanced,
  default_posting_threshold, posting_policy,
}

-- The code's sums over the entries that it filters.
total-debits : (es : List JournalEntry) → total (λ e. e.amount) (filter_by is_debit es) ≡ debits es
total-debits [] = refl
total-debits (e ∷ es) = grind (int_laws, total-debits es)

total-credits :
    (es : List JournalEntry) → total (λ e. e.amount) (filter_by is_credit es) ≡ credits es
total-credits [] = refl
total-credits (e ∷ es) = grind (int_laws, total-credits es)

-- The debits and the credits differ by less than 0.001, and the debits are at most the threshold.
abbrev pub IsPostable : ProcessFinancialPostingDto → Journal → Type 0
IsPostable dto j =
    (debits j.entries ≤ℤ credits j.entries +ℤ pos 999)
    × (credits j.entries ≤ℤ debits j.entries +ℤ pos 999)
    × (debits j.entries ≤ℤ or_else dto.auto_approval_threshold default_posting_threshold)

apart_less :
    (d c : ℤ)
    → ltb_ℤ (pos (abs (d -ℤ c))) (pos 1000) ≡ true
    → (d ≤ℤ c +ℤ pos 999) × (c ≤ℤ d +ℤ pos 999)
apart_less d c close = grind (int_laws, parts_apart)

is_balanced_close :
    (j : Journal)
    → is_balanced j ≡ true
    → (debits j.entries ≤ℤ credits j.entries +ℤ pos 999)
      × (credits j.entries ≤ℤ debits j.entries +ℤ pos 999)
unfolding is_balanced
is_balanced_close j balanced =
    apart_less (debits j.entries) (credits j.entries)
      (rw (total-debits j.entries, total-credits j.entries) at balanced)

pub posting_policy-IsPostable :
    (number_text : ℤ → String) (now : String) (dto : ProcessFinancialPostingDto) (j : Journal)
    → (posting_policy number_text now dto j).decision ≡ auto_approve
    → IsPostable dto j
unfolding posting_policy evaluate_financial_posting_policy
posting_policy-IsPostable number_text now dto j approved =
    let balanced : is_balanced j ≡ true = ground arith in
    let small : total_debit j ≤ℤ or_else dto.auto_approval_threshold default_posting_threshold =
      ground arith in
    let (over, under) = is_balanced_close j balanced in
    (over, under, rw (total-debits j.entries) at small)
