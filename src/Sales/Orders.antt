-- ===== src/Sales/Orders.antt =====
-- apps/api/src/modules/sales/sales.service.ts: the methods of the class SalesService on customers and
-- orders. `now` is the clock's text; `id`, `number` and, at each place of an order, `item_id` are texts
-- that `Date.now()` and `Math.random()` make up, `roll` a number that it rolls.
use Prim.Native.Nat.{zero}
use autonomous_enterprise.Shared.{
  Action, not_found, bad_request, pure, gets, or_throw, or_existing, throw_if, ◌>>=◌, ◌>>◌,
  is_empty, or_else, or_text, ℕ, suc, String, ◌<>◌, Bool, true, false, not, ◌&&◌, ◌||◌, Option,
  none, some, List, [], ◌∷◌, if◌then◌else◌, filter_by,
}
use autonomous_enterprise.Shared.Int.{ℤ, pos, ◌+ℤ◌, ◌-ℤ◌, ◌*ℤ◌, ltb_ℤ, leb_ℤ}
use autonomous_enterprise.Sales.Types.{
  Customer, SalesOrder, SalesOrderItem, SalesOrderStatus, SalesChannel, LeadOutcome, SalesRep,
  CreateCustomerDto, CreateSalesOrderDto, CreateSalesOrderItemDto,
}
use autonomous_enterprise.Sales.Repository
use autonomous_enterprise.Sales.Repository.{SalesRepository}

abbrev pub Sale : Type 0 → Type 0
Sale A = Action SalesRepository A

unfoldable pub create_customer : String → String → CreateCustomerDto → Sale Customer
create_customer now id dto = do
  throw_if (is_empty dto.name || is_empty dto.email)
      (bad_request "Customer name and email are required")
  let customer : Customer = record {
    id = id;
    name = dto.name;
    email = dto.email;
    phone = dto.phone;
    address = dto.address;
    created_at = now;
    updated_at = now;
  }
  Repository.create_customer customer

unfoldable pub get_customer : String → Sale Customer
get_customer id = do or_throw (← gets (Repository.find_customer_by_id id)) (not_found "Customer" id)

unfoldable pub list_customers : Sale (List Customer)
list_customers = gets Repository.find_all_customers

abbrev has_none : List CreateSalesOrderItemDto → Bool
has_none [] = true
has_none (x ∷ xs) = false

-- `itemDto.unitPrice * itemDto.quantity`
unfoldable pub gross_total : CreateSalesOrderItemDto → ℤ
gross_total item = item.unit_price *ℤ item.quantity

abbrev pub item_discount : CreateSalesOrderItemDto → ℤ
item_discount item = or_else item.discount (pos 0)

unfoldable pub new_item : String → CreateSalesOrderItemDto → SalesOrderItem
new_item id item = record {
  id = id;
  product_id = item.product_id;
  quantity = item.quantity;
  unit_price = item.unit_price;
  discount = item_discount item;
  total_price = gross_total item -ℤ item_discount item;
}

-- What the loop over the items has collected: the items, the sum of their gross totals and the sum
-- of their discounts.
pub record Priced : Type 0 where
  pub items : List SalesOrderItem
  pub subtotal : ℤ
  pub discounts : ℤ

-- The loop over the items, from the place `n` and the two sums so far on.
unfoldable pub price_items : (ℕ → String) → ℕ → List CreateSalesOrderItemDto → ℤ → ℤ → Sale Priced
unfolding new_item
price_items item_id n [] subtotal discounts =
    pure (record { items = []; subtotal = subtotal; discounts = discounts })
price_items item_id n (item ∷ rest) subtotal discounts = do
  throw_if (is_empty item.product_id) (bad_request "Product ID is required for all items")
  throw_if (leb_ℤ item.quantity (pos 0)) (bad_request "Quantity must be greater than zero")
  throw_if (ltb_ℤ item.unit_price (pos 0)) (bad_request "Unit price cannot be negative")
  throw_if (ltb_ℤ (item_discount item) (pos 0)) (bad_request "Item discount cannot be negative")
  throw_if (ltb_ℤ (gross_total item) (item_discount item))
      (bad_request "Item discount cannot exceed gross item total")
  priced ←
      price_items item_id (suc n) rest (subtotal +ℤ gross_total item)
        (discounts +ℤ item_discount item)
  pure (record priced { items = new_item (item_id n) item ∷ priced.items })

abbrev pub is_marketplace : SalesChannel → Bool
is_marketplace SalesChannel.marketplace = true
is_marketplace SalesChannel.direct_sales = false

-- `activeReps[roll]`, if there is one
abbrev picked : ℕ → List SalesRep → String
picked roll [] = ""
picked zero (p ∷ ps) = p.id
picked (suc n) (p ∷ ps) = picked n ps

unfoldable pub assigned_rep : ℕ → Bool → String → SalesRepository → String
assigned_rep roll marketplace given r =
    if not marketplace && is_empty given
    then picked roll (filter_by (λ p. p.active) (Repository.find_all_reps r))
    else given

unfoldable pub new_order :
    String → String → String → CreateSalesOrderDto → String → Priced → String → SalesOrder
new_order now id number dto key priced rep =
    let channel = or_else dto.channel SalesChannel.direct_sales in
    let marketplace = is_marketplace channel in
    let discount = priced.discounts +ℤ or_else dto.discount_amount (pos 0) in
    record {
      id = id;
      customer_id = dto.customer_id;
      order_number = (if marketplace then "MP" else "DS") <> "-" <> number;
      items = priced.items;
      subtotal = priced.subtotal;
      discount_amount = discount;
      total_amount = priced.subtotal -ℤ discount;
      status = if marketplace then SalesOrderStatus.approved else SalesOrderStatus.draft;
      channel = channel;
      assigned_rep_id = if marketplace then "" else rep;
      lead_outcome = if marketplace then none else some LeadOutcome.pending;
      assigned_at = if not marketplace && not (is_empty rep) then now else "";
      closed_at = "";
      lost_reason = "";
      idempotency_key = key;
      notes = dto.notes;
      created_at = now;
      updated_at = now;
    }

-- `createSalesOrder` once no order has the idempotency key.
unfoldable pub create_new_order :
    String → String → String → (ℕ → String) → ℕ → CreateSalesOrderDto → String → Sale SalesOrder
unfolding price_items new_order assigned_rep
create_new_order now id number item_id roll dto key = do
  throw_if (is_empty dto.customer_id) (bad_request "Customer ID is required")
  found ← gets (Repository.find_customer_by_id dto.customer_id)
  or_throw found (not_found "Customer" dto.customer_id)
  throw_if (has_none dto.items) (bad_request "Sales order must contain at least one item")
  priced ← price_items item_id 0 dto.items (pos 0) (pos 0)
  throw_if (ltb_ℤ (or_else dto.discount_amount (pos 0)) (pos 0))
      (bad_request "Order discount amount cannot be negative")
  throw_if (ltb_ℤ priced.subtotal (priced.discounts +ℤ or_else dto.discount_amount (pos 0)))
      (bad_request "Total discount cannot exceed subtotal")
  rep ← gets (
      assigned_rep roll (is_marketplace (or_else dto.channel SalesChannel.direct_sales))
        dto.assigned_rep_id)
  Repository.create_order (new_order now id number dto key priced rep)

abbrev pub order_with_key : String → SalesRepository → Option SalesOrder
order_with_key key r = if is_empty key then none else Repository.find_order_by_idempotency_key key r

unfoldable pub create_sales_order :
    String → String → String → (ℕ → String) → ℕ → CreateSalesOrderDto → String → Sale SalesOrder
unfolding create_new_order
create_sales_order now id number item_id roll dto header = do
  let key = or_text header dto.idempotency_key
  existing ← gets (order_with_key key)
  or_existing existing (create_new_order now id number item_id roll dto key)

unfoldable pub get_sales_order : String → Sale SalesOrder
get_sales_order id = do
  or_throw (← gets (Repository.find_order_by_id id)) (not_found "Sales order" id)

unfoldable pub list_sales_orders : Sale (List SalesOrder)
list_sales_orders = gets Repository.find_all_orders
