-- ===== src/Workflow/Posting.antt =====
-- The financial posting workflow: what becomes of the journals.
use autonomous_enterprise.Shared.{
  arith, ◌≡◌, ◌≢◌, ◌||◌, refl, ap, ◌∙◌, lookup, insert, is_empty, String, some, true, false, after,
  then_part, or_existing, Bool-cases, Option-cases, ◌⊎◌, inl, inr,
}
use autonomous_enterprise.Shared.Int.{ℤ}
use autonomous_enterprise.Audit.{AuditStatus}
use autonomous_enterprise.Outbox.{publish}
use autonomous_enterprise.Policy.{
  PolicyDecision, PolicyEvaluationResult, auto_approve, require_human_approval, reject,
}
use autonomous_enterprise.Accounting.Types.{Journal, JournalStatus}
use autonomous_enterprise.Accounting.Repository.{AccountingRepository}
use autonomous_enterprise.Accounting.Journals.{is_posted, get_journal, posted_journal, post_journal}
use autonomous_enterprise.WorkflowTask.Tasks.{log, new_task, create_task}
use autonomous_enterprise.Workflow.Postable.{IsPostable, posting_policy-IsPostable}
use autonomous_enterprise.Workflow.FinancialPosting.{
  ProcessFinancialPostingDto, PostingState, posting_policy, post_on, posting_task, finish_posting,
  in_work, posting_key, cached_posting, post_by_policy, post_new, process_financial_posting,
}

-- The accounting with the journal posted.
abbrev pub with_posted : String → Journal → AccountingRepository → AccountingRepository
with_posted now j r =
    let posted = record j { status = JournalStatus.posted; posted_at = now; updated_at = now } in
    record r { journals = insert j.id posted r.journals }

post_journal-with_posted :
    (now : String) (j : Journal) (r : AccountingRepository)
    → lookup j.id r.journals ≡ some j
    → (after (post_journal now j.id r) ≡ r)
      ⊎ (after (post_journal now j.id r) ≡ with_posted now j r)
unfolding post_journal posted_journal
post_journal-with_posted now j r found = ground arith

post_on-with_posted :
    (now event_id : String) (j : Journal) (decision : PolicyDecision) (s : PostingState)
    → lookup j.id s.accounting.journals ≡ some j
    → let t = after (post_on now event_id j decision s) in
      (t.accounting ≡ s.accounting)
      ⊎ ((decision ≡ auto_approve) × (t.accounting ≡ with_posted now j s.accounting))
unfolding post_on publish
post_on-with_posted now event_id j auto_approve s found =
    ground (arith, post_journal-with_posted now j s.accounting found)
post_on-with_posted now event_id j require_human_approval s found = inl refl
post_on-with_posted now event_id j reject s found = inl refl

-- Nothing of the accounting has changed, or the journal is posted, which it was not, and which it
-- may be.
abbrev pub IsGuarded :
    String
    → ProcessFinancialPostingDto
    → Journal
    → AccountingRepository
    → AccountingRepository
    → Type 0
IsGuarded now dto j r t =
    (t ≡ r) ⊎ ((j.status ≢ JournalStatus.posted) × IsPostable dto j × (t ≡ with_posted now j r))

is_posted-false :
    (status : JournalStatus) → is_posted status ≡ false → status ≢ JournalStatus.posted
is_posted-false status unposted posted = ground arith

decided :
    (now event_id : String) (dto : ProcessFinancialPostingDto) (j : Journal)
    (decision : PolicyDecision) (s : PostingState)
    → lookup j.id s.accounting.journals ≡ some j
    → is_posted j.status ≡ false
    → (decision ≡ auto_approve → IsPostable dto j)
    → IsGuarded now dto j s.accounting (after (post_on now event_id j decision s)).accounting
decided now event_id dto j decision s found unposted approves =
    elim (post_on-with_posted now event_id j decision s found) [
      | inl e ↦ inl e
      | inr (approved, e) ↦ inr (is_posted-false j.status unposted, approves approved, e)
    ]

module _ (number_text iso : ℤ → String) (clock : ℤ) (workflow_id task_id event_id : String)
    (dto : ProcessFinancialPostingDto) where
  finish_accounting :
      (key : String) (j : Journal) (policy : PolicyEvaluationResult) (status : JournalStatus)
      (u : PostingState)
      → (after (
          finish_posting number_text iso clock workflow_id task_id event_id dto key j policy status
            u)).accounting
        ≡ u.accounting
  unfolding finish_posting
  finish_accounting key j policy status u = ground arith

  post_by_policy-IsGuarded :
      (key : String) (j : Journal) (s : PostingState)
      → lookup j.id s.accounting.journals ≡ some j
      → is_posted j.status ≡ false
      → IsGuarded
          (iso clock)
          dto
          j
          s.accounting
          (after (
            post_by_policy number_text iso clock workflow_id task_id event_id dto key j
              s)).accounting
  unfolding post_by_policy
  post_by_policy-IsGuarded key j s found unposted =
      let policy = posting_policy number_text (iso clock) dto j in
      let t = after (
        in_work
          (log workflow_id "WORKFLOW_FINANCIAL_POSTING_POLICY_EVALUATED" AuditStatus.success "")
          s) in
      let p = post_on (iso clock) event_id j policy.decision in
      rw
        (then_part (λ u. u.accounting) p
          (finish_posting number_text iso clock workflow_id task_id event_id dto key j policy) t
          (λ status u. finish_accounting key j policy status u))
        (decided (iso clock) event_id dto j policy.decision t found unposted
          (posting_policy-IsPostable number_text (iso clock) dto j))

  -- The state when the policy is evaluated.
  abbrev started : String → PostingState → PostingState
  started key s = after (
      in_work (create_task iso clock task_id (posting_task workflow_id dto key)) (
        after (
          in_work (log workflow_id "WORKFLOW_FINANCIAL_POSTING_STARTED" AuditStatus.success "") s)))

  post_new-started :
      (key : String) (j : Journal) (s : PostingState)
      → is_empty dto.journal_id ≡ false
      → lookup dto.journal_id s.accounting.journals ≡ some j
      → is_posted j.status ≡ false
      → post_new number_text iso clock workflow_id task_id event_id dto key s
        ≡ post_by_policy number_text iso clock workflow_id task_id event_id dto key j
            (started key s)
  unfolding post_new get_journal create_task new_task
  post_new-started key j s e found unposted = rw (e, found, unposted) refl

  post_new-same :
      (key : String) (j : Journal) (s : PostingState)
      → (is_empty dto.journal_id || is_posted j.status) ≡ true
      → lookup dto.journal_id s.accounting.journals ≡ some j
      → (after (post_new number_text iso clock workflow_id task_id event_id dto key s)).accounting
        ≡ s.accounting
  unfolding post_new get_journal
  post_new-same key j s refused found = elim (Bool-cases (is_empty dto.journal_id)) [
    | inl e ↦ rw e refl
    | inr e ↦ rw (e, found, rw e at refused) refl
  ]

  post_new-IsGuarded :
      (key : String) (j : Journal) (s : PostingState)
      → lookup dto.journal_id s.accounting.journals ≡ some j
      → j.id ≡ dto.journal_id
      → IsGuarded
          (iso clock)
          dto
          j
          s.accounting
          (after (post_new number_text iso clock workflow_id task_id event_id dto key s)).accounting
  unfolding create_task
  post_new-IsGuarded key j s found own =
      elim (Bool-cases (is_empty dto.journal_id || is_posted j.status)) [
        | inl refused ↦ inl (post_new-same key j s refused found)
        | inr passed ↦
            let unposted : is_posted j.status ≡ false = ground arith in
            rw (post_new-started key j s (ground arith) found unposted) (
              post_by_policy-IsGuarded key j (started key s)
                (ap (λ k. lookup k s.accounting.journals) own ∙ found) unposted)
      ]

  -- For a journal that is stored under its identifier, the accounting is unchanged after a call
  -- of the posting workflow, also one that throws, or the journal is posted and nothing else is
  -- changed; and then it was not posted before, its debits and credits differ by less than 0.001,
  -- and its debits are at most the threshold.
  pub process_financial_posting-IsGuarded :
      (header : String) (s : PostingState) (j : Journal)
      → lookup dto.journal_id s.accounting.journals ≡ some j
      → j.id ≡ dto.journal_id
      → IsGuarded
          (iso clock)
          dto
          j
          s.accounting
          (after (
            process_financial_posting number_text iso clock workflow_id task_id event_id dto header
              s)).accounting
  unfolding process_financial_posting
  process_financial_posting-IsGuarded header s j found own =
      let key = posting_key dto header in
      elim (Option-cases (cached_posting key s)) [
        | inl new ↦ rw (new, or_existing) (post_new-IsGuarded key j s found own)
        | inr (x, old) ↦ rw (old, or_existing) (inl refl)
      ]
