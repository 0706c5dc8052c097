-- ===== src/Conflict.antt =====
-- apps/api/src/common/orchestration/conflict-resolution.service.ts: the class
-- ConflictResolutionService, with the types of conflict.types.ts beside it. A trust score counts
-- thousandths. `now` is the clock's text, `number_text` prints a score, `id` and `ticket_id` are texts
-- that `Date.now()` and `Math.random()` make up. An absent text is the empty text, which a conflict
-- without a winner or a ticket has.
pub mod Deciding
mod Examples
use autonomous_enterprise.Shared.{
  Action, pure, modify, on_part, ◌>>=◌, ◌>>◌, or_else, String, ◌==◌, ◌<>◌, Bool, true, false, ◌&&◌,
  ◌||◌, if◌then◌else◌, Option, none, some, List, ℕ, ⊤,
}
use autonomous_enterprise.Shared.Int.{ℤ, pos, ◌-ℤ◌, max_ℤ, abs, leb_ℤ, ltb_ℤ}
use autonomous_enterprise.Audit.{AuditRecord, AuditStatus, log_audit}
use autonomous_enterprise.Ticketing.Types.{TicketPriority}
use autonomous_enterprise.Ticketing.Repository.{TicketingRepository}
use autonomous_enterprise.Ticketing.Tickets.{create_system_ticket}

pub data ConflictStatus : Type 0 where
  detected resolved escalated : ConflictStatus

pub record ConflictParty : Type 0 where
  pub name : String
  pub decision : String
  pub trust_score : Option ℤ

pub record ConflictLog : Type 0 where
  pub id : String
  pub workflow_id : String
  pub party_a : ConflictParty
  pub party_b : ConflictParty
  pub status : ConflictStatus
  pub resolution : String
  pub created_at : String
  pub resolved_at : String

pub record ConflictResolutionResult : Type 0 where
  pub conflict : ConflictLog
  pub resolved : Bool
  pub winning_party : String
  pub escalated : Bool
  pub ticket_id : String

-- What the service writes: the audit log and the tickets.
pub record ConflictState : Type 0 where
  pub audit : List AuditRecord
  pub ticketing : TicketingRepository

abbrev pub trust_resolution_margin : ℤ
trust_resolution_margin = pos 150

abbrev pub min_trust_to_auto_resolve : ℤ
min_trust_to_auto_resolve = pos 600

abbrev pub trust_of : ConflictParty → ℤ
trust_of party = or_else party.trust_score (pos 500)

abbrev pub can_auto_resolve : ConflictParty → ConflictParty → Bool
can_auto_resolve a b =
    leb_ℤ trust_resolution_margin (pos (abs (trust_of a -ℤ trust_of b)))
    && leb_ℤ min_trust_to_auto_resolve (max_ℤ (trust_of a) (trust_of b))

abbrev pub winner_of : ConflictParty → ConflictParty → ConflictParty
winner_of a b = if ltb_ℤ (trust_of b) (trust_of a) then a else b

abbrev pub logged : String → String → Action ConflictState ⊤
logged workflow_id action = modify (λ s. record s {
  audit =
      log_audit
        (record {
          workflow_id = workflow_id;
          action = action;
          status = AuditStatus.success;
          reasoning = "";
        })
        s.audit;
})

-- A score in a template literal: an absent one prints as `undefined`.
abbrev shown : (ℤ → String) → Option ℤ → String
shown number_text none = "undefined"
shown number_text (some n) = number_text n

module _ (number_text : ℤ → String) (now id ticket_id : String) (a b : ConflictParty)
    (workflow_id : String) where
  unfoldable pub conflict_log : ConflictStatus → String → ConflictLog
  conflict_log status resolution = record {
    id = id;
    workflow_id = workflow_id;
    party_a = a;
    party_b = b;
    status = status;
    resolution = resolution;
    created_at = now;
    resolved_at = now;
  }

  unfoldable pub agreed : ConflictResolutionResult
  unfolding conflict_log
  agreed = record {
    conflict =
        conflict_log ConflictStatus.resolved
          ("No conflict: both parties agree on [" <> a.decision <> "]");
    resolved = true;
    winning_party = "";
    escalated = false;
    ticket_id = "";
  }

  unfoldable pub auto_resolve : Action ConflictState ConflictResolutionResult
  unfolding conflict_log
  auto_resolve = do
    let winner = winner_of a b
    let conflict = conflict_log ConflictStatus.resolved (
        "Resolved via trust score: ["
        <> winner.name
        <> "] decision ["
        <> winner.decision
        <> "] selected (trust "
        <> shown number_text winner.trust_score
        <> ")")
    logged workflow_id "CONFLICT_RESOLVED"
    pure (record {
      conflict = conflict;
      resolved = true;
      winning_party = winner.name;
      escalated = false;
      ticket_id = "";
    })

  unfoldable pub escalate : Action ConflictState ConflictResolutionResult
  unfolding conflict_log
  escalate = do
    ticket ←
        on_part (λ s. s.ticketing) (λ t s. record s { ticketing = t })
          (create_system_ticket now ticket_id
            ("Agent conflict requires human review: [" <> a.name <> "] vs [" <> b.name <> "]")
            (a.name
              <> " decided ["
              <> a.decision
              <> "] (trust "
              <> number_text (trust_of a)
              <> "); "
              <> b.name
              <> " decided ["
              <> b.decision
              <> "] (trust "
              <> number_text (trust_of b)
              <> "). Trust delta insufficient for automatic resolution.")
            "AgentConflictDetected" TicketPriority.high workflow_id)
    let conflict = conflict_log ConflictStatus.escalated (
        "Escalated to ticket [" <> ticket.id
        <> "]: trust delta insufficient for automatic resolution")
    logged workflow_id "CONFLICT_ESCALATED"
    pure (record {
      conflict = conflict;
      resolved = false;
      winning_party = "";
      escalated = true;
      ticket_id = ticket.id;
    })

  unfoldable pub detect_and_resolve : Action ConflictState ConflictResolutionResult
  unfolding agreed auto_resolve escalate
  detect_and_resolve = if a.decision == b.decision then pure agreed else (do
    logged workflow_id "CONFLICT_DETECTED"
    if can_auto_resolve a b then auto_resolve else escalate)
