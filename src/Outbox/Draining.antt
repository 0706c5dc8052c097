-- ===== src/Outbox/Draining.antt =====
-- `publishPending` leaves no event pending.
use autonomous_enterprise.Shared.{
  arith, ◌≡◌, ◌≢◌, refl, ⊤, Result, ok, after, result, String, eq_iff, ℕ, suc, ◌+◌, List, [], ◌∷◌,
  length,
}
use autonomous_enterprise.Outbox.{
  OutboxEvent, find_pending, mark_published, publish_all, publish_pending,
}

-- No event has the identifier.
abbrev pub Avoids : String → List OutboxEvent → Type 0
Avoids id [] = ⊤
Avoids id (e ∷ es) = (e.id ≢ id) × Avoids id es

-- No two events have one identifier.
abbrev pub AreDistinct : List OutboxEvent → Type 0
AreDistinct [] = ⊤
AreDistinct (e ∷ es) = Avoids e.id es × AreDistinct es

find_pending-head :
    (id : String) (es : List OutboxEvent) (e : OutboxEvent) (rest : List OutboxEvent)
    → Avoids id es
    → find_pending es ≡ e ∷ rest
    → e.id ≢ id
unfolding find_pending
find_pending-head id [] e rest h found = ground arith
find_pending-head id (x ∷ xs) e rest h found = ground (arith, find_pending-head id xs e rest h.1)

-- Marking the first pending event leaves the other pending ones.
find_pending-mark_published :
    (now : String) (es : List OutboxEvent) (e : OutboxEvent) (rest : List OutboxEvent)
    → AreDistinct es
    → find_pending es ≡ e ∷ rest
    → find_pending (mark_published e.id now es) ≡ rest
unfolding find_pending mark_published
find_pending-mark_published now [] e rest h found = ground arith
find_pending-mark_published now (x ∷ xs) e rest h found = ground (
  arith,
  eq_iff x.id e.id,
  find_pending-head x.id xs e rest h.0,
  find_pending-mark_published now xs e rest h.1,
)

mark_published-Avoids :
    (k id now : String) (es : List OutboxEvent) → Avoids k es → Avoids k (mark_published id now es)
unfolding mark_published
mark_published-Avoids k id now [] h = tt
mark_published-Avoids k id now (x ∷ xs) h = ground (arith, mark_published-Avoids k id now xs h.1)

mark_published-AreDistinct :
    (id now : String) (es : List OutboxEvent)
    → AreDistinct es
    → AreDistinct (mark_published id now es)
unfolding mark_published
mark_published-AreDistinct id now [] h = tt
mark_published-AreDistinct id now (x ∷ xs) h =
    ground
      (arith, mark_published-AreDistinct id now xs h.1, mark_published-Avoids x.id id now xs h.0)

publish_all_drains :
    (send : OutboxEvent → Result ⊤) (now : String) (waiting es : List OutboxEvent) (count n : ℕ)
    → ((e : OutboxEvent) → send e ≡ ok tt)
    → AreDistinct es
    → find_pending es ≡ waiting
    → count + length waiting ≡ n
    → (result (publish_all send now waiting count es) ≡ ok n)
      × (find_pending (after (publish_all send now waiting count es)) ≡ [])
unfolding publish_all
publish_all_drains send now [] es count n sends h found sum = ground arith
publish_all_drains send now (e ∷ rest) es count n sends h found sum = ground (
  arith,
  sends e,
  publish_all_drains send now rest (mark_published e.id now es) (suc count) n sends
      (mark_published-AreDistinct e.id now es h)
      (find_pending-mark_published now es e rest h found),
)

-- When the publisher throws for no event and no two events share an identifier, `publishPending`
-- returns the number of events that were pending and leaves none pending.
pub publish_pending_drains :
    (send : OutboxEvent → Result ⊤) (now : String) (es : List OutboxEvent)
    → ((e : OutboxEvent) → send e ≡ ok tt)
    → AreDistinct es
    → (result (publish_pending send now es) ≡ ok (length (find_pending es)))
      × (find_pending (after (publish_pending send now es)) ≡ [])
unfolding publish_pending
publish_pending_drains send now es sends h =
    publish_all_drains send now (find_pending es) es 0 _ sends h refl (omega arith)
