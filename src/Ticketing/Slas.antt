-- ===== src/Ticketing/Slas.antt =====
-- apps/api/src/modules/ticketing/ticketing.service.ts: the methods of the class TicketingService on
-- service level agreements. `now` is the clock in milliseconds, `iso` its `toISOString()` text,
-- `time_of` is `new Date(text).getTime()`, `id` the text that `Date.now()` and `Math.random()` make up.
use autonomous_enterprise.Shared.{
  Action, not_found, bad_request, pure, gets, or_throw, throw_if, run_if, ◌>>=◌, ◌>>◌, is_empty,
  is_present, or_else, String, Bool, true, false, ◌&&◌, ◌||◌, if◌then◌else◌, Option, none, some,
  List, [], ◌∷◌,
}
use autonomous_enterprise.Shared.Int.{ℤ, pos, ◌+ℤ◌, ◌*ℤ◌, ltb_ℤ}
use autonomous_enterprise.Ticketing.Types.{TicketSla, AttachSlaDto}
use autonomous_enterprise.Ticketing.Repository
use autonomous_enterprise.Ticketing.Repository.{TicketingRepository}
use autonomous_enterprise.Ticketing.Tickets.{find_ticket_or_throw}

abbrev Tick : Type 0 → Type 0
Tick A = Action TicketingRepository A

-- The part of the guard of `attachSla` on one number.
abbrev pub is_no_due : Option ℤ → Bool
is_no_due none = true
is_no_due (some m) = ltb_ℤ m (pos 0)

unfoldable pub new_sla : (ℤ → String) → ℤ → String → String → AttachSlaDto → TicketSla
new_sla iso now id ticket_id dto = record {
  id = id;
  ticket_id = ticket_id;
  response_due_at = iso (now +ℤ or_else dto.response_due_in_minutes (pos 0) *ℤ pos 60 *ℤ pos 1000);
  resolution_due_at =
      iso (now +ℤ or_else dto.resolution_due_in_minutes (pos 0) *ℤ pos 60 *ℤ pos 1000);
  responded_at = "";
  resolved_at = "";
  response_breached = false;
  resolution_breached = false;
  created_at = iso now;
  updated_at = iso now;
}

unfoldable pub attach_sla : (ℤ → String) → ℤ → String → String → AttachSlaDto → Tick TicketSla
unfolding new_sla
attach_sla iso now id ticket_id dto = do
  find_ticket_or_throw ticket_id
  throw_if (is_no_due dto.response_due_in_minutes || is_no_due dto.resolution_due_in_minutes) (
      bad_request "Valid non-negative responseDueInMinutes and resolutionDueInMinutes are required")
  existing ← gets (Repository.find_sla_by_ticket ticket_id)
  throw_if (is_present existing) (bad_request "SLA is already attached to ticket")
  Repository.create_sla (new_sla iso now id ticket_id dto)

unfoldable pub responded_sla : (String → ℤ) → (ℤ → String) → ℤ → TicketSla → TicketSla
responded_sla time_of iso now s = record s {
  responded_at = iso now;
  response_breached = ltb_ℤ (time_of s.response_due_at) now;
  updated_at = iso now;
}

unfoldable pub record_response : (String → ℤ) → (ℤ → String) → ℤ → String → Tick TicketSla
unfolding responded_sla
record_response time_of iso now ticket_id = do
  find_ticket_or_throw ticket_id
  found ← gets (Repository.find_sla_by_ticket ticket_id)
  s ← or_throw found (not_found "SLA" ticket_id)
  Repository.update_sla (responded_sla time_of iso now s)

unfoldable pub resolved_sla : (String → ℤ) → (ℤ → String) → ℤ → TicketSla → TicketSla
resolved_sla time_of iso now s = record s {
  resolved_at = iso now;
  resolution_breached = ltb_ℤ (time_of s.resolution_due_at) now;
  updated_at = iso now;
}

unfoldable pub record_resolution : (String → ℤ) → (ℤ → String) → ℤ → String → Tick TicketSla
unfolding resolved_sla
record_resolution time_of iso now ticket_id = do
  find_ticket_or_throw ticket_id
  found ← gets (Repository.find_sla_by_ticket ticket_id)
  s ← or_throw found (not_found "SLA" ticket_id)
  Repository.update_sla (resolved_sla time_of iso now s)

-- `!sla.respondedAt && now.getTime() > new Date(sla.responseDueAt).getTime()`
abbrev pub is_response_late : (String → ℤ) → ℤ → TicketSla → Bool
is_response_late time_of now s = is_empty s.responded_at && ltb_ℤ (time_of s.response_due_at) now

abbrev pub is_resolution_late : (String → ℤ) → ℤ → TicketSla → Bool
is_resolution_late time_of now s = is_empty s.resolved_at && ltb_ℤ (time_of s.resolution_due_at) now

-- The agreement after one round of the loop of `checkSlaBreaches`.
unfoldable pub checked_sla : (String → ℤ) → (ℤ → String) → ℤ → TicketSla → TicketSla
checked_sla time_of iso now s =
    let response = is_response_late time_of now s in
    let resolution = is_resolution_late time_of now s in
    record s {
      response_breached = response || s.response_breached;
      resolution_breached = resolution || s.resolution_breached;
      updated_at = if response || resolution then iso now else s.updated_at;
    }

-- The loop of `checkSlaBreaches`.
unfoldable pub check_slas : (String → ℤ) → (ℤ → String) → ℤ → List TicketSla → Tick (List TicketSla)
unfolding checked_sla
check_slas time_of iso now [] = pure []
check_slas time_of iso now (s ∷ ss) = do
  run_if (is_response_late time_of now s || is_resolution_late time_of now s)
      (Repository.update_sla (checked_sla time_of iso now s) >> pure tt)
  results ← check_slas time_of iso now ss
  pure (checked_sla time_of iso now s ∷ results)

unfoldable pub check_sla_breaches : (String → ℤ) → (ℤ → String) → ℤ → Tick (List TicketSla)
unfolding check_slas
check_sla_breaches time_of iso now = do
  slas ← gets Repository.find_breached_or_pending_slas
  check_slas time_of iso now slas
