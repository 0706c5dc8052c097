-- ===== src/Outbox/Examples.antt =====
-- A run of the outbox on two events.
use autonomous_enterprise.Shared.{
  arith, eq_iff, ◌≡◌, ◌≢◌, String, refl, after, result, Result, ok, ⊤, length, [], List,
}
use autonomous_enterprise.Outbox.{OutboxEvent, find_pending, publish, publish_pending}
use autonomous_enterprise.Outbox.Draining.{AreDistinct, publish_pending_drains}

abbrev delivered : OutboxEvent → Result ⊤
delivered e = ok tt

abbrev two_events : List OutboxEvent
two_events = after (
    publish "t2" "e2" "Order" "o" "OrderPaid"
      (after (publish "t1" "e1" "Order" "o" "OrderPlaced" [])))

abbrev second_id : String
second_id = "e2"

apart : second_id ≢ "e1"
apart e = ground (arith, (eq_iff second_id "e1").1 e)

two_events-AreDistinct : AreDistinct two_events
unfolding publish
two_events-AreDistinct = ((apart, tt), (tt, tt))

publish_pending_drains_example :
    (result (publish_pending delivered "t3" two_events) ≡ ok (length (find_pending two_events)))
    × (find_pending (after (publish_pending delivered "t3" two_events)) ≡ [])
publish_pending_drains_example =
    publish_pending_drains delivered "t3" two_events (λ e. refl) two_events-AreDistinct
