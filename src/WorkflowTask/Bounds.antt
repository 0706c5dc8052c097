-- ===== src/WorkflowTask/Bounds.antt =====
-- How often the circuit breaker lets a task be tried again.
use autonomous_enterprise.Shared.{
  arith, ◌≡◌, refl, sym, ap, ◌∙◌, String, eq_iff, ℕ, suc, true, false, some, or_else, List, [], ◌∷◌,
  Result, ok, err, result, after, inl, inr, ◌⊎◌, Bool-cases, if◌then◌else◌,
}
use autonomous_enterprise.Shared.Int.{ℤ, pos, ◌+ℤ◌, ◌-ℤ◌, ◌≤ℤ◌, max_ℤ, leb_ℤ, ltb_ℤ, int_laws}
use autonomous_enterprise.Shared.Lists.{find_first, replace_first, find_first-replace_first}
use autonomous_enterprise.WorkflowTask.Types.{
  WorkflowTask, WorkflowTaskStatus, execute, retry, circuit_broken, is_retry, ReEvaluationOutcome,
  TaskState, default_max_iterations, default_min_confidence,
}
use autonomous_enterprise.WorkflowTask.Tasks.{has_id, find_task_by_id}
use autonomous_enterprise.WorkflowTask.Attempts.{
  attempted_task, is_out_of_bounds, break_circuit, weigh_attempt, judge_attempt, record_attempt,
  is_escalated, is_iterations_exceeded,
}
use autonomous_enterprise.Ticketing.Tickets.{create_system_ticket, create_ticket_direct, new_ticket}

-- What every branch of `recordAttempt` returns and leaves in the store, for the task `u` with the
-- attempt counted.
abbrev pub Judged :
    ReEvaluationOutcome → TaskState → WorkflowTask → Result ReEvaluationOutcome × TaskState → Type 0
Judged o r u p =
    (result p ≡ ok o)
    × (find_task_by_id u.id (after p) ≡ some o.task)
    × (o.task.id ≡ u.id)
    × (o.task.max_iterations ≡ u.max_iterations)
    × (o.task.iteration_count ≡ u.iteration_count)
    × ((is_retry o.outcome ≡ false) ⊎ (is_iterations_exceeded u ≡ false))

pub record IsJudged (r : TaskState) (u : WorkflowTask) (p : Result ReEvaluationOutcome × TaskState)
    : Type 0 where
  pub outcome : ReEvaluationOutcome
  pub judged : Judged outcome r u p

-- One call of `recordAttempt`, but for the task.
pub record Attempt : Type 0 where
  pub now : ℤ
  pub ticket_id : String
  pub confidence : ℤ
  pub token_used : ℤ

abbrev counted_retry : Result ReEvaluationOutcome → ℕ → ℕ
counted_retry (err e) n = n
counted_retry (ok o) n = if is_retry o.outcome then suc n else n

counted_bound :
    (o : ReEvaluationOutcome) (n : ℕ) (m c : ℤ)
    → pos n ≤ℤ max_ℤ (pos 0) (m -ℤ (c +ℤ pos 1))
    → (is_retry o.outcome ≡ false) ⊎ (leb_ℤ m (c +ℤ pos 1) ≡ false)
    → pos (counted_retry (ok o) n) ≤ℤ max_ℤ (pos 0) (m -ℤ c)
counted_bound o n m c rest limit = grind (int_laws)

keyed_found :
    (id : String) (r : TaskState) (t : WorkflowTask)
    → t.id ≡ id
    → find_task_by_id id r ≡ some t
    → find_task_by_id t.id r ≡ some t
keyed_found id r t own found = ap (λ k. find_task_by_id k r) own ∙ found

module _ (time_of : String → ℤ) (iso number_text : ℤ → String) where
  stored_twice :
      (r : TaskState) (u v old : WorkflowTask)
      → find_task_by_id u.id r ≡ some old
      → v.id ≡ u.id
      → (find_first (has_id u.id) (replace_first (has_id u.id) u r.tasks) ≡ some u)
        × (find_first
              (has_id u.id)
              (replace_first (has_id u.id) v (replace_first (has_id u.id) u r.tasks))
            ≡ some v)
  stored_twice r u v old found same =
      let self : has_id u.id u ≡ true = (eq_iff u.id u.id).1 refl in
      let once = find_first-replace_first (has_id u.id) u r.tasks old found self in
      let self' : has_id u.id v ≡ true = (eq_iff v.id u.id).1 same in
      (
        once,
        find_first-replace_first (has_id u.id) v (replace_first (has_id u.id) u r.tasks) u once
            self',
      )

  broken_IsJudged :
      (now : ℤ) (ticket_id : String) (r : TaskState) (u old : WorkflowTask)
      → find_task_by_id u.id r ≡ some old
      → IsJudged r u (break_circuit time_of iso number_text now ticket_id u r)
  unfolding break_circuit create_system_ticket create_ticket_direct new_ticket
  broken_IsJudged now ticket_id r u old found = elim (Bool-cases (is_escalated u.status)) [
    | inl again ↦ record {
      outcome = record { task = u; outcome = circuit_broken; ticket_id = u.escalation_ticket_id };
      judged = ground (arith, stored_twice r u u old found refl);
    }
    | inr first ↦
        (let v = record u { status = WorkflowTaskStatus.escalated } in
          let w = record v { escalation_ticket_id = ticket_id } in
          record {
            outcome = record { task = w; outcome = circuit_broken; ticket_id = ticket_id };
            judged = ground (arith, stored_twice r v w old found refl);
          })
  ]

  weighed_IsJudged :
      (confidence : ℤ) (r : TaskState) (u old : WorkflowTask)
      → find_task_by_id u.id r ≡ some old
      → is_iterations_exceeded u ≡ false
      → IsJudged r u (weigh_attempt confidence u r)
  unfolding weigh_attempt
  weighed_IsJudged confidence r u old found within =
      elim (Bool-cases (ltb_ℤ confidence (or_else u.min_confidence default_min_confidence))) [
        | inl low ↦
            let v = record u { status = WorkflowTaskStatus.in_progress } in
            record {
              outcome = record { task = v; outcome = retry; ticket_id = "" };
              judged = ground (arith, stored_twice r v v old found refl);
            }
        | inr high ↦
            let v = record u { status = WorkflowTaskStatus.completed } in
            record {
              outcome = record { task = v; outcome = execute; ticket_id = "" };
              judged = ground (arith, stored_twice r v v old found refl);
            }
      ]

  attempt_IsJudged :
      (now : ℤ) (ticket_id id : String) (confidence token_used : ℤ) (r : TaskState)
      (t : WorkflowTask)
      → find_task_by_id id r ≡ some t
      → t.id ≡ id
      → IsJudged r
          (attempted_task iso now confidence token_used t)
          (record_attempt time_of iso number_text now ticket_id id confidence token_used r)
  unfolding record_attempt judge_attempt
  attempt_IsJudged now ticket_id id confidence token_used r t found own =
      let u = attempted_task iso now confidence token_used t in
      rw (found) (elim (Bool-cases (is_out_of_bounds time_of now u)) [
        | inl out ↦ rw out (broken_IsJudged now ticket_id r u t (keyed_found id r t own found))
        | inr within ↦
            rw within
              (weighed_IsJudged confidence r u t (keyed_found id r t own found) (ground arith))
      ])

  -- A call of `recordAttempt`, but for the task.
  abbrev pub attempt : String → Attempt → TaskState → Result ReEvaluationOutcome × TaskState
  attempt id a =
      record_attempt time_of iso number_text a.now a.ticket_id id a.confidence a.token_used

  -- The number of calls that answer RETRY, of a list of calls for one task.
  unfoldable pub retries : String → List Attempt → TaskState → ℕ
  retries id [] r = 0
  retries id (a ∷ calls) r =
      counted_retry (result (attempt id a r)) (retries id calls (after (attempt id a r)))

  -- Of any list of attempts at one task, the number that answer RETRY is at most the number of
  -- iterations that the task has left, and none where it has none left, so that a caller that
  -- tries again on RETRY stops.
  pub retries_bound :
      (id : String) (calls : List Attempt) (r : TaskState) (t : WorkflowTask)
      → find_task_by_id id r ≡ some t
      → t.id ≡ id
      → pos (retries id calls r)
        ≤ℤ max_ℤ
            (pos 0)
            (or_else t.max_iterations default_max_iterations -ℤ or_else t.iteration_count (pos 0))
  unfolding retries attempted_task
  retries_bound id [] r t found own = ground arith
  retries_bound id (a ∷ calls) r t found own =
      let j = attempt_IsJudged a.now a.ticket_id id a.confidence a.token_used r t found own in
      let u = attempted_task iso a.now a.confidence a.token_used t in
      let (done, there, own', same, count, limit) = j.judged in
      let rest =
        retries_bound id calls (after (attempt id a r)) j.outcome.task
          (ap (λ k. find_task_by_id k (after (attempt id a r))) (sym own) ∙ there) (own' ∙ own) in
      rw done (
        counted_bound j.outcome (retries id calls (after (attempt id a r)))
          (or_else t.max_iterations default_max_iterations) (or_else t.iteration_count (pos 0))
          (rw (same, count) at rest) limit)
