-- ===== src/Conflict/Deciding.antt =====
-- Which party of a conflict wins.
use autonomous_enterprise.Shared.{
  arith, ◌≡◌, eq_iff, ◌∙◌, refl, String, ◌==◌, Bool, true, false, Result, ok, err, result, after,
  if◌then◌else◌, ◌&&◌, Bool-cases, inl, inr, lookup, lookup-insert_self, some, none, Option, ◌⊎◌,
}
use autonomous_enterprise.Shared.Int.{
  ℤ, pos, ◌+ℤ◌, ◌-ℤ◌, ◌≤ℤ◌, -ℤ_parts, +ℤ_parts, parts_apart, ltb_ℤ, leb_ℤ, max_ℤ, abs,
}
use autonomous_enterprise.Ticketing.Types.{Ticket, TicketStatus, TicketPriority}
use autonomous_enterprise.Ticketing.Tickets.{create_system_ticket, create_ticket_direct, new_ticket}
use autonomous_enterprise.Conflict.{
  ConflictParty, ConflictResolutionResult, ConflictState, trust_of, can_auto_resolve, winner_of,
  logged, agreed, auto_resolve, escalate, detect_and_resolve,
}

-- What the caller acts on: whether the conflict is resolved, by whom, and with which ticket.
abbrev pub outcome : Result ConflictResolutionResult → Bool × String × Bool × String
outcome (ok r) = (r.resolved, r.winning_party, r.escalated, r.ticket_id)
outcome (err e) = (false, "", false, "")

abbrev apart : ℤ → ℤ → Bool
apart x y = leb_ℤ (pos 150) (pos (abs (x -ℤ y))) && leb_ℤ (pos 600) (max_ℤ x y)

apart-swap : (x y : ℤ) → apart x y ≡ apart y x
apart-swap x y =
    ground (arith, -ℤ_parts x y, -ℤ_parts y x, parts_apart (x -ℤ y), parts_apart (y -ℤ x))

-- The order of two scores that are apart.
apart-order : (x y : ℤ) → apart x y ≡ true → ltb_ℤ x y ≡ (if ltb_ℤ y x then false else true)
apart-order x y h = ground (arith, -ℤ_parts x y, parts_apart (x -ℤ y))

same-swap : (a b : String) → (a == b) ≡ (b == a)
same-swap a b = ground (arith, eq_iff a b, eq_iff b a)

-- The order of the two parties does not matter: whether the conflict is resolved, by whom,
-- whether it is escalated and under which ticket are the same when they are swapped.
pub detect_and_resolve-swap :
    (number_text : ℤ → String) (now id ticket_id : String) (a b : ConflictParty)
    (workflow_id : String) (s : ConflictState)
    → outcome (result (detect_and_resolve number_text now id ticket_id a b workflow_id s))
      ≡ outcome (result (detect_and_resolve number_text now id ticket_id b a workflow_id s))
unfolding detect_and_resolve agreed auto_resolve escalate create_system_ticket create_ticket_direct
    new_ticket
detect_and_resolve-swap number_text now id ticket_id a b workflow_id s = ground (
  arith,
  same-swap a.decision b.decision,
  apart-swap (trust_of a) (trust_of b),
  apart-order (trust_of a) (trust_of b),
  apart-order (trust_of b) (trust_of a),
)

-- The party with the trust `x` beats the one with the trust `y`.
abbrev pub Beats : ℤ → ℤ → Type 0
Beats x y = (y +ℤ pos 150 ≤ℤ x) × (pos 600 ≤ℤ x)

-- The ticket waits for a human with a high priority.
abbrev pub AwaitsHuman : Option Ticket → Type 0
AwaitsHuman none = ⊥
AwaitsHuman (some t) = (t.status ≡ TicketStatus.opened) × (t.priority ≡ TicketPriority.high)

apart-Beats : (x y : ℤ) → apart x y ≡ true → ltb_ℤ y x ≡ true → Beats x y
apart-Beats x y h k = ground (arith, -ℤ_parts x y, +ℤ_parts y (pos 150), parts_apart (x -ℤ y))

escalate-AwaitsHuman :
    (number_text : ℤ → String) (now id ticket_id : String) (a b : ConflictParty)
    (workflow_id : String) (s : ConflictState)
    → AwaitsHuman (
        lookup ticket_id
          (after (escalate number_text now id ticket_id a b workflow_id s)).ticketing.tickets)
unfolding escalate create_system_ticket create_ticket_direct new_ticket
escalate-AwaitsHuman number_text now id ticket_id a b workflow_id s =
    rw (lookup-insert_self ticket_id _ s.ticketing.tickets) (refl, refl)

winner-Beats :
    (name : String) (a b : ConflictParty)
    → can_auto_resolve a b ≡ true
    → name ≡ (winner_of a b).name
    → ((name ≡ a.name) × Beats (trust_of a) (trust_of b))
      ⊎ ((name ≡ b.name) × Beats (trust_of b) (trust_of a))
winner-Beats name a b far won = elim (Bool-cases (ltb_ℤ (trust_of b) (trust_of a))) [
  | inl p ↦ inl (rw p at won, apart-Beats (trust_of a) (trust_of b) far p)
  | inr p ↦ inr (
    rw p at won,
    apart-Beats (trust_of b) (trust_of a) (apart-swap (trust_of b) (trust_of a) ∙ far)
        (rw p at (apart-order (trust_of a) (trust_of b) far)),
  )
]

escalate_lem :
    (number_text : ℤ → String) (now id ticket_id : String) (a b : ConflictParty)
    (workflow_id : String) (s : ConflictState) (r : ConflictResolutionResult)
    → result (escalate number_text now id ticket_id a b workflow_id s) ≡ ok r
    → (r.resolved ≡ false) × (r.ticket_id ≡ ticket_id)
unfolding escalate create_system_ticket create_ticket_direct new_ticket
escalate_lem number_text now id ticket_id a b workflow_id s r done = ground arith

auto_resolve_lem :
    (number_text : ℤ → String) (now id ticket_id : String) (a b : ConflictParty)
    (workflow_id : String) (s : ConflictState) (r : ConflictResolutionResult)
    → result (auto_resolve number_text now id ticket_id a b workflow_id s) ≡ ok r
    → (r.resolved ≡ true)
      × (r.winning_party ≡ (winner_of a b).name)
      × ((after (auto_resolve number_text now id ticket_id a b workflow_id s)).ticketing
          ≡ s.ticketing)
unfolding auto_resolve
auto_resolve_lem number_text now id ticket_id a b workflow_id s r done = ground arith

-- When the decisions of two parties differ, the conflict is either resolved, with a winner whose
-- trust score is at least 0.6 and at least 0.15 above the other's, and without a change of the
-- tickets; or it is not, and the ticket that is returned is stored, open and of high priority.
pub detect_and_resolve_decides :
    (number_text : ℤ → String) (now id ticket_id : String) (a b : ConflictParty)
    (workflow_id : String) (s : ConflictState) (r : ConflictResolutionResult)
    → (a.decision == b.decision) ≡ false
    → let p = detect_and_resolve number_text now id ticket_id a b workflow_id s in
      result p ≡ ok r
      → ((r.resolved ≡ true)
          × (((r.winning_party ≡ a.name) × Beats (trust_of a) (trust_of b))
              ⊎ ((r.winning_party ≡ b.name) × Beats (trust_of b) (trust_of a)))
          × ((after p).ticketing ≡ s.ticketing))
        ⊎ ((r.resolved ≡ false)
            × (r.ticket_id ≡ ticket_id)
            × AwaitsHuman (lookup ticket_id (after p).ticketing.tickets))
unfolding detect_and_resolve
detect_and_resolve_decides number_text now id ticket_id a b workflow_id s r differ done =
    let t = after (logged workflow_id "CONFLICT_DETECTED" s) in
    elim (Bool-cases (can_auto_resolve a b)) [
      | inl far ↦
          let (settled, won, same) =
            auto_resolve_lem number_text now id ticket_id a b workflow_id t r
              (rw (differ, far) at done) in
          rw (differ, far) (inl (settled, winner-Beats r.winning_party a b far won, same))
      | inr near ↦
          let (referred, ticket) =
            escalate_lem number_text now id ticket_id a b workflow_id t r
              (rw (differ, near) at done) in
          rw (differ, near)
            (inr (
              referred,
              ticket,
              escalate-AwaitsHuman number_text now id ticket_id a b workflow_id t,
            ))
    ]
