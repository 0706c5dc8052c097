-- ===== src/Sales/Repository.antt =====
-- The in-memory repositories of apps/api/src/modules/sales/infrastructure: the maps of customers,
-- orders and sales representatives, together. A `find` is a function of the state, a write an action.
use autonomous_enterprise.Shared.{
  Action, modify, pure, ok, err, fault, ◌>>◌, Store, lookup, insert, values, find_value, is_present,
  String, ◌==◌, if◌then◌else◌, Option, List,
}
use autonomous_enterprise.Sales.Types.{Customer, SalesOrder, SalesRep}

pub record SalesRepository : Type 0 where
  pub customers : Store Customer
  pub orders : Store SalesOrder
  pub reps : Store SalesRep

abbrev Repo : Type 0 → Type 0
Repo A = Action SalesRepository A

abbrev pub create_customer : Customer → Repo Customer
create_customer c = do modify (λ r. record r { customers = insert c.id c r.customers }); pure c

abbrev pub find_customer_by_id : String → SalesRepository → Option Customer
find_customer_by_id id r = lookup id r.customers

abbrev pub find_all_customers : SalesRepository → List Customer
find_all_customers r = values r.customers

abbrev pub create_order : SalesOrder → Repo SalesOrder
create_order o = do modify (λ r. record r { orders = insert o.id o r.orders }); pure o

abbrev pub find_order_by_id : String → SalesRepository → Option SalesOrder
find_order_by_id id r = lookup id r.orders

abbrev pub find_order_by_idempotency_key : String → SalesRepository → Option SalesOrder
find_order_by_idempotency_key key r = find_value (λ o. o.idempotency_key == key) r.orders

abbrev pub find_all_orders : SalesRepository → List SalesOrder
find_all_orders r = values r.orders

abbrev pub update_order : SalesOrder → Repo SalesOrder
update_order o r =
    if is_present (lookup o.id r.orders)
    then (ok o, record r { orders = insert o.id o r.orders })
    else (err (fault "Sales order" o.id), r)

abbrev pub create_rep : SalesRep → Repo SalesRep
create_rep p = do modify (λ r. record r { reps = insert p.id p r.reps }); pure p

abbrev pub find_rep_by_id : String → SalesRepository → Option SalesRep
find_rep_by_id id r = lookup id r.reps

abbrev pub find_all_reps : SalesRepository → List SalesRep
find_all_reps r = values r.reps

abbrev pub update_rep : SalesRep → Repo SalesRep
update_rep p r =
    if is_present (lookup p.id r.reps)
    then (ok p, record r { reps = insert p.id p r.reps })
    else (err (fault "Sales rep" p.id), r)
