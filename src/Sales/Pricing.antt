-- ===== src/Sales/Pricing.antt =====
-- What the amounts of a stored order say.
use autonomous_enterprise.Shared.{
  arith, ◌≡◌, refl, ℕ, suc, insert, String, List, [], ◌∷◌, ok, err, after, result, Error,
  Result-cases, inl, inr,
}
use autonomous_enterprise.Shared.Int.{ℤ, pos, ◌+ℤ◌, ◌-ℤ◌, ◌≤ℤ◌, int_laws}
use autonomous_enterprise.Shared.Lists.{total}
use autonomous_enterprise.Sales.Types.{
  SalesOrder, SalesOrderItem, CreateSalesOrderDto, CreateSalesOrderItemDto,
}
use autonomous_enterprise.Sales.Repository.{SalesRepository}
use autonomous_enterprise.Sales.Orders.{
  gross_total, item_discount, new_item, Priced, price_items, new_order, create_new_order,
}

-- Every item costs its gross price less its discount, which is not negative, and at least nothing.
abbrev pub ArePriced : List SalesOrderItem → Type 0
ArePriced [] = Unit
ArePriced (i ∷ is) =
    (pos 1 ≤ℤ i.quantity)
    × (pos 0 ≤ℤ i.unit_price)
    × (pos 0 ≤ℤ i.discount)
    × (pos 0 ≤ℤ i.total_price)
    × ArePriced is

abbrev pub items_total : List SalesOrderItem → ℤ
items_total is = total (λ i. i.total_price) is

price_items_same :
    (item_id : ℕ → String) (n : ℕ) (dtos : List CreateSalesOrderItemDto) (subtotal discounts : ℤ)
    (r : SalesRepository)
    → after (price_items item_id n dtos subtotal discounts r) ≡ r
unfolding price_items
price_items_same item_id n [] subtotal discounts r = refl
price_items_same item_id n (d ∷ dtos) subtotal discounts r = ground (
  arith,
  price_items_same item_id (suc n) dtos (subtotal +ℤ gross_total d) (discounts +ℤ item_discount d)
      r,
)

-- The loop over the items: what it adds to the two sums differs by the totals of the items.
price_items_lem :
    (item_id : ℕ → String) (n : ℕ) (dtos : List CreateSalesOrderItemDto) (subtotal discounts : ℤ)
    (r : SalesRepository) (p : Priced)
    → result (price_items item_id n dtos subtotal discounts r) ≡ ok p
    → ArePriced p.items
      × (discounts ≤ℤ p.discounts)
      × (p.subtotal -ℤ p.discounts ≡ (subtotal -ℤ discounts) +ℤ items_total p.items)
unfolding price_items new_item
price_items_lem item_id n [] subtotal discounts r p done = grind int_laws
price_items_lem item_id n (d ∷ dtos) subtotal discounts r p done =
    elim (Result-cases (
      result (
        price_items item_id (suc n) dtos (subtotal +ℤ gross_total d) (discounts +ℤ item_discount d)
          r))) [
            | inl (e, failed) ↦ ground arith
            | inr (q, e) ↦ grind (
              int_laws,
              price_items_lem item_id (suc n) dtos (subtotal +ℤ gross_total d)
                  (discounts +ℤ item_discount d) r q e,
            )
          ]

-- The amounts of an order: its total is at most the sum of its items' totals, and not negative.
abbrev pub IsPriced : SalesOrder → Type 0
IsPriced o =
    ArePriced o.items
    × (pos 0 ≤ℤ o.discount_amount)
    × (o.total_amount ≡ o.subtotal -ℤ o.discount_amount)
    × (pos 0 ≤ℤ o.total_amount)
    × (o.total_amount ≤ℤ items_total o.items)

module _ (now id number : String) (item_id : ℕ → String) (roll : ℕ) (dto : CreateSalesOrderDto)
    (key : String) (r : SalesRepository) where
  pub create_new_order_failed :
      (e : Error)
      → result (create_new_order now id number item_id roll dto key r) ≡ err e
      → after (create_new_order now id number item_id roll dto key r) ≡ r
  unfolding create_new_order
  create_new_order_failed e failed =
      elim (Result-cases (result (price_items item_id 0 dto.items (pos 0) (pos 0) r))) [
        | inl (f, broken) ↦ ground (arith, price_items_same item_id 0 dto.items (pos 0) (pos 0) r)
        | inr (p, priced) ↦ ground (arith, price_items_same item_id 0 dto.items (pos 0) (pos 0) r)
      ]

  pub create_new_order_written :
      (o : SalesOrder)
      → result (create_new_order now id number item_id roll dto key r) ≡ ok o
      → (after (create_new_order now id number item_id roll dto key r)
          ≡ record r { orders = insert id o r.orders })
        × (o.id ≡ id)
        × IsPriced o
  unfolding create_new_order new_order
  create_new_order_written o done =
      elim (Result-cases (result (price_items item_id 0 dto.items (pos 0) (pos 0) r))) [
        | inl (f, broken) ↦ ground arith
        | inr (p, priced) ↦ grind (
          int_laws,
          price_items_same item_id 0 dto.items (pos 0) (pos 0) r,
          price_items_lem item_id 0 dto.items (pos 0) (pos 0) r p priced,
        )
      ]
