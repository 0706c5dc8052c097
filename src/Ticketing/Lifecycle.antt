-- ===== src/Ticketing/Lifecycle.antt =====
-- The status of a ticket under any sequence of calls of the ticketing service.
use autonomous_enterprise.Shared.{
  arith, ◌≡◌, refl, lookup, lookup-insert, lookup-insert_self, suc, Result, Result-cases, eq_iff,
  All, All-lookup, All-insert, inl, inr, String, ℕ, ◌+◌, ◌≤◌, [], ◌∷◌, List, some, err, ok, result,
  after, Error, Store,
}
use autonomous_enterprise.Ticketing.Types.{Ticket, TicketStatus, UpdateTicketStatusDto}
use autonomous_enterprise.Ticketing.Repository.{TicketingRepository, status_eq}
use autonomous_enterprise.Ticketing.Tickets.{includes, moved_ticket, update_status}
use autonomous_enterprise.Ticketing.Steps.{
  Advances, follows_refl, IsKeyed, Step, Reach, start, next, empty_ticketing,
}
use autonomous_enterprise.Ticketing.Writes.{Written, same, new, changed, Step-Written}

abbrev IsOwn : String → Ticket → Type 0
IsOwn id t = t.id ≡ id

Written-IsKeyed :
    (r : TicketingRepository) (m : Store Ticket) → IsKeyed r → Written r m → All IsOwn m
Written-IsKeyed r m h (same e) = rw e h
Written-IsKeyed r m h (new x fresh e) = rw e (All-insert IsOwn x.id x r.tickets h refl)
Written-IsKeyed r m h (changed id x y found own f e) =
    rw e (All-insert IsOwn x.id y r.tickets h own)

pub Reach-IsKeyed : {r : TicketingRepository} → Reach r → IsKeyed r
unfolding empty_ticketing
Reach-IsKeyed start = tt
Reach-IsKeyed (next {r} {t} reach step) =
    Written-IsKeyed r t.tickets (Reach-IsKeyed reach) (Step-Written step)

Written-Advances :
    (r : TicketingRepository) (m : Store Ticket) (id : String) (k : Ticket)
    → IsKeyed r
    → lookup id r.tickets ≡ some k
    → Written r m
    → Advances k.status (lookup id m)
Written-Advances r m id k h found (same e) = rw (e, found) (follows_refl k.status)
Written-Advances r m id k h found (new x fresh e) =
    rw e (ground (arith, lookup-insert x.id id x r.tickets, eq_iff x.id id, follows_refl k.status))
Written-Advances r m id k h found (changed j x y there own f e) = rw e (
    ground (
      arith,
      lookup-insert x.id id y r.tickets,
      eq_iff x.id id,
      All-lookup IsOwn j x r.tickets h there,
      follows_refl k.status,
    ))

-- In a reached state, a stored ticket is still stored after any next call of the service, with
-- the same status or one that is a valid transition of it.
pub Step-Advances :
    {r t : TicketingRepository} (id : String) (k : Ticket)
    → Reach r
    → lookup id r.tickets ≡ some k
    → Step r t
    → Advances k.status (lookup id t.tickets)
Step-Advances {r} {t} id k reach found step =
    Written-Advances r t.tickets id k (Reach-IsKeyed reach) found (Step-Written step)

-- How far a status is from OPEN.
abbrev pub rank : TicketStatus → ℕ
rank TicketStatus.opened = 0
rank TicketStatus.triaged = 1
rank TicketStatus.assigned = 2
rank TicketStatus.in_progress = 3
rank TicketStatus.escalated = 4
rank TicketStatus.human_review = 5
rank TicketStatus.resolved = 6
rank TicketStatus.closed = 7

abbrev counted : {A : Type 0} → Result A → ℕ → ℕ
counted (ok a) n = suc n
counted (err e) n = n

-- The number of calls of `updateStatus` on one ticket that are accepted, of a list of them.
unfoldable pub accepted : String → String → List UpdateTicketStatusDto → TicketingRepository → ℕ
accepted now id [] r = 0
accepted now id (dto ∷ dtos) r =
    counted (result (update_status now id dto r))
      (accepted now id dtos (after (update_status now id dto r)))

update_rises :
    (now id : String) (dto : UpdateTicketStatusDto) (r : TicketingRepository) (k x : Ticket)
    → lookup id r.tickets ≡ some k
    → k.id ≡ id
    → result (update_status now id dto r) ≡ ok x
    → (lookup id (after (update_status now id dto r)).tickets ≡ some x)
      × (x.id ≡ id)
      × (suc (rank k.status) ≤ rank x.status)
unfolding update_status moved_ticket includes status_eq
update_rises now id dto r k x found own done =
    ground (arith, lookup-insert_self id (moved_ticket now dto k) r.tickets)

update_atomic :
    (now id : String) (dto : UpdateTicketStatusDto) (r : TicketingRepository) (e : Error)
    → result (update_status now id dto r) ≡ err e
    → after (update_status now id dto r) ≡ r
unfolding update_status
update_atomic now id dto r e failed = ground arith

-- Of any list of status updates of one stored ticket, at most seven are accepted, and fewer by
-- the rank of the status that it starts from, which counts how far the status is from OPEN: no
-- ticket is moved forever.
pub accepted_bound :
    (now id : String) (dtos : List UpdateTicketStatusDto) (r : TicketingRepository) (k : Ticket)
    → lookup id r.tickets ≡ some k
    → k.id ≡ id
    → accepted now id dtos r + rank k.status ≤ 7
unfolding accepted
accepted_bound now id [] r k found own = ground arith
accepted_bound now id (dto ∷ dtos) r k found own =
    elim (Result-cases (result (update_status now id dto r))) [
      | inl (e, failed) ↦
          rw (failed, update_atomic now id dto r e failed)
            (accepted_bound now id dtos r k found own)
      | inr (x, done) ↦
          let (there, own', rises) = update_rises now id dto r k x found own done in
          rw done (
            omega (
              arith,
              rises,
              accepted_bound now id dtos (after (update_status now id dto r)) x there own',
            ))
    ]
