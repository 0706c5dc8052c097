-- ===== src/Outbox.antt =====
-- apps/api/src/modules/workflow/outbox.service.ts: the class OutboxService, over the array of the
-- class InMemoryOutboxPersistence in apps/api/src/common/messaging/outbox.persistence.ts. The payload
-- of an event, a value of any type, is left out. `send` is the publisher's `publish` with what it
-- throws, `now` the clock's text, `id` the text that `Date.now()` and `Math.random()` make up.
pub mod Draining
mod Examples
use autonomous_enterprise.Shared.{
  Action, Result, ok, err, ⊤, pure, gets, modify, ◌>>=◌, ◌>>◌, String, ◌==◌, Bool, true, false, ℕ,
  suc, ◌+◌, List, [], ◌∷◌, ◌++◌, filter_by, if◌then◌else◌,
}

pub data OutboxStatus : Type 0 where
  pending published failed : OutboxStatus

pub record OutboxEvent : Type 0 where
  pub id : String
  pub aggregate_type : String
  pub aggregate_id : String
  pub event_type : String
  pub status : OutboxStatus
  pub created_at : String
  pub published_at : String

abbrev Outbox : Type 0 → Type 0
Outbox A = Action (List OutboxEvent) A

abbrev pub is_pending : OutboxEvent → Bool
is_pending e = elim e.status [ pending ↦ true | _ ↦ false ]

abbrev append : OutboxEvent → List OutboxEvent → List OutboxEvent
append e events = events ++ e ∷ []

unfoldable pub find_pending : List OutboxEvent → List OutboxEvent
find_pending events = filter_by is_pending events

-- The first event with the identifier is marked, if there is one.
unfoldable pub mark_published : String → String → List OutboxEvent → List OutboxEvent
mark_published id now [] = []
mark_published id now (e ∷ es) =
    if e.id == id
    then record e { status = published; published_at = now } ∷ es
    else e ∷ mark_published id now es

unfoldable pub mark_failed : String → List OutboxEvent → List OutboxEvent
mark_failed id [] = []
mark_failed id (e ∷ es) =
    if e.id == id then record e { status = failed } ∷ es else e ∷ mark_failed id es

unfoldable pub publish : String → String → String → String → String → Outbox OutboxEvent
publish now id aggregate_type aggregate_id event_type = do
  let event : OutboxEvent = record {
    id = id;
    aggregate_type = aggregate_type;
    aggregate_id = aggregate_id;
    event_type = event_type;
    status = pending;
    created_at = now;
    published_at = "";
  }
  modify (append event)
  pure event

unfoldable pub mark_as_published : String → String → Outbox ⊤
mark_as_published now event_id = modify (mark_published event_id now)

unfoldable pub get_events : List OutboxEvent → List OutboxEvent
get_events events = events

unfoldable pub get_pending_events : List OutboxEvent → List OutboxEvent
unfolding find_pending
get_pending_events events = find_pending events

-- `await this.publisher.publish(event)`
abbrev sent : (OutboxEvent → Result ⊤) → OutboxEvent → Outbox ⊤
sent send e events = (send e, events)

-- The loop of `publishPending`, from the count so far.
unfoldable pub publish_all : (OutboxEvent → Result ⊤) → String → List OutboxEvent → ℕ → Outbox ℕ
unfolding mark_as_published
publish_all send now [] count = pure count
publish_all send now (e ∷ es) count = do
  sent send e
  mark_as_published now e.id
  publish_all send now es (suc count)

unfoldable pub publish_pending : (OutboxEvent → Result ⊤) → String → Outbox ℕ
unfolding publish_all find_pending
publish_pending send now = do events ← gets find_pending; publish_all send now events 0
