-- ===== src/Sales/Traces.antt =====
-- The orders under any sequence of calls of the sales service.
use autonomous_enterprise.Shared.{
  arith, ◌≡◌, refl, lookup, lookup-insert, eq_iff, Store, All, All-insert, All-lookup, String, some,
  none, Option, true,
}
use autonomous_enterprise.Sales.Types.{SalesOrder}
use autonomous_enterprise.Sales.Repository.{SalesRepository}
use autonomous_enterprise.Sales.Leads.{is_decided}
use autonomous_enterprise.Sales.Pricing.{IsPriced}
use autonomous_enterprise.Sales.Steps.{
  Step, Reach, start, next, empty_sales, Written, same, created, changed, Step-Written, SameAmounts,
}

-- A stored order has its key as its identifier, and its amounts agree.
abbrev pub IsSound : String → SalesOrder → Type 0
IsSound id o = (o.id ≡ id) × IsPriced o

IsPriced-same : (o x : SalesOrder) → SameAmounts o x → IsPriced o → IsPriced x
IsPriced-same o x (own, items, subtotal, discount, amount) h =
    rw (items, subtotal, discount, amount) h

Written-IsSound :
    (r : SalesRepository) (m : Store SalesOrder)
    → All IsSound r.orders
    → Written r m
    → All IsSound m
Written-IsSound r m h (same e) = rw e h
Written-IsSound r m h (created x fresh priced e) =
    rw e (All-insert IsSound x.id x r.orders h (refl, priced))
Written-IsSound r m h (changed id o x found amounts keeps e) = rw e (
    All-insert IsSound x.id x r.orders h
      (refl, IsPriced-same o x amounts (All-lookup IsSound id o r.orders h found).1))

-- In every state that is reached from the empty one by calls of the service, in any order, each
-- order is stored under its identifier; each of its items has a positive quantity and no negative
-- price, discount or total; the order's discount is not negative, its total is the subtotal less
-- the discount, is not negative and at most the sum of the items' totals.
pub Reach-IsSound : {r : SalesRepository} → Reach r → All IsSound r.orders
unfolding empty_sales
Reach-IsSound start = tt
Reach-IsSound (next {r} {t} reach step) =
    Written-IsSound r t.orders (Reach-IsSound reach) (Step-Written step)

-- The order is there, and its lead as it was.
abbrev pub IsClosedAs : SalesOrder → Option SalesOrder → Type 0
IsClosedAs o none = ⊥
IsClosedAs o (some x) = (x.lead_outcome ≡ o.lead_outcome) × (x.assigned_rep_id ≡ o.assigned_rep_id)

Written-IsClosedAs :
    (r : SalesRepository) (m : Store SalesOrder) (id : String) (o : SalesOrder)
    → All IsSound r.orders
    → lookup id r.orders ≡ some o
    → is_decided o.lead_outcome ≡ true
    → Written r m
    → IsClosedAs o (lookup id m)
Written-IsClosedAs r m id o h found decided (same e) = rw (e, found) (refl, refl)
Written-IsClosedAs r m id o h found decided (created x fresh priced e) =
    rw e (ground (arith, lookup-insert x.id id x r.orders, eq_iff x.id id))
Written-IsClosedAs r m id o h found decided (changed j p x there amounts keeps e) = rw e (
    ground (
      arith,
      lookup-insert x.id id x r.orders,
      eq_iff x.id id,
      (All-lookup IsSound j p r.orders h there).0,
    ))

-- In a reached state, an order whose lead is won or lost is still stored after any next call of
-- the service, with the same outcome and the same representative.
pub Step-closed :
    {r t : SalesRepository} (id : String) (o : SalesOrder)
    → Reach r
    → lookup id r.orders ≡ some o
    → is_decided o.lead_outcome ≡ true
    → Step r t
    → IsClosedAs o (lookup id t.orders)
Step-closed {r} {t} id o reach found decided step =
    Written-IsClosedAs r t.orders id o (Reach-IsSound reach) found decided (Step-Written step)
