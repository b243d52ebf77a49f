-- ===== src/Warehouse/Splitting.antt =====
-- backend/src/warehouse/warehouse.service.ts: splitOrderByWarehouse. The active warehouses are an
-- argument, in the order of the query, and what they hold is read from the stock. A sub-order's
-- parent, address and e-mail are left out; a sub-order has the schema's defaults in what the
-- service does not set.
pub mod Totals
mod Tests
use shop_verse.Base.{
  ℕ, ◌+◌, ◌*◌, Bool, true, false, Option, none, some, List, [], ◌∷◌, ◌++◌, find_first, filter_where,
  map, sum_by, length, leb, ◌==◌, if◌then◌else◌, Result, ok, err, Tx, Action, ◌>>=◌, pure, transact,
  gets, not_found, bad_request,
}
use shop_verse.Orders.Tables.{
  Shop, Order, OrderItem, confirmed, processing, stripe, is_order, on_stock, update_order,
  set_status,
}
use shop_verse.Warehouse.{ShipmentItem, created, move_items}
use shop_verse.Warehouse.Routing.{Shipment, pending, has_item}

pub record Fulfilment : Type 0 where
  pub shop : Shop
  pub shipments : List Shipment
  pub next_shipment : ℕ

-- A line of an order as it goes to a sub-order.
pub record SplitItem : Type 0 where
  pub item : ShipmentItem
  pub price : ℕ

pub record SplitGroup : Type 0 where
  pub warehouse_id : ℕ
  pub items : List SplitItem

pub record SubOrder : Type 0 where
  pub order_id : ℕ
  pub warehouse_id : Option ℕ
  pub is_split : Bool

abbrev pub split_item : OrderItem → SplitItem
split_item l = record {
  item = record { variant_id = l.variant_id; quantity = l.quantity };
  price = l.price;
}

-- `warehouseItems.get(wh.id)!.push(...)`: a warehouse that is new comes last.
abbrev pub add_item : (warehouse : ℕ) → SplitItem → List SplitGroup → List SplitGroup
add_item wh it [] = record { warehouse_id = wh; items = it ∷ [] } ∷ []
add_item wh it (g ∷ gs) =
    if wh == g.warehouse_id
    then record g { items = g.items ++ (it ∷ []) } ∷ gs
    else g ∷ add_item wh it gs

-- Each item goes to the first warehouse that has all of it.
unfoldable pub group_items :
    Shop → (warehouses : List ℕ) → List SplitItem → List SplitGroup → Result (List SplitGroup)
group_items s whs [] gs = ok gs
group_items s whs (it ∷ its) gs = elim (find_first (λ wh. has_item wh s.stock it.item) whs) [
  | none ↦ err bad_request
  | some wh ↦ group_items s whs its (add_item wh it gs)
]

abbrev pub amount_of : SplitItem → ℕ
amount_of it = it.price * it.item.quantity

abbrev pub first_warehouse : List SplitGroup → Option ℕ
first_warehouse [] = none
first_warehouse (g ∷ gs) = some g.warehouse_id

abbrev pub sub_lines : (order item : ℕ) → List SplitItem → List OrderItem
sub_lines order item [] = []
sub_lines order item (it ∷ its) =
    record {
      id = item;
      order_id = order;
      variant_id = it.item.variant_id;
      quantity = it.item.quantity;
      price = it.price;
      is_cancelled = false;
      is_refunded = false;
    }
    ∷ sub_lines order (item + 1) its

abbrev pub sub_order : (now id : ℕ) → Order → List SplitItem → Order
sub_order now id parent its = record {
  id = id;
  user_id = parent.user_id;
  status = confirmed;
  payment_method = stripe;
  payment_status = parent.payment_status;
  subtotal = sum_by amount_of its;
  discount_amount = 0;
  shipping_fee = 0;
  tax_amount = 0;
  total = sum_by amount_of its;
  wallet_amount_used = 0;
  currency = "USD";
  coupon_code = none;
  payment_id = none;
  updated_at = now;
}

abbrev pub on_shop : {A : Type 0} → Tx Shop A → Tx Fulfilment A
on_shop m f = elim (m f.shop) [ ok (a, s) ↦ ok (a, record f { shop = s }) | err e ↦ err e ]

-- order.create and shipment.create; the answer is the id of the sub-order.
unfoldable pub insert_sub_order : (now : ℕ) → (parent : Order) → SplitGroup → Tx Fulfilment ℕ
insert_sub_order now parent g f = ok (
  f.shop.next_order,
  record {
    shop = record (f.shop) {
      orders = sub_order now f.shop.next_order parent g.items ∷ f.shop.orders;
      items = sub_lines f.shop.next_order f.shop.next_item g.items ++ f.shop.items;
      next_order = f.shop.next_order + 1;
      next_item = f.shop.next_item + length g.items;
    };
    shipments =
        record {
          id = f.next_shipment;
          status = pending;
          order_id = f.shop.next_order;
          warehouse_id = g.warehouse_id;
          items = map (λ it. it.item) g.items;
        }
        ∷ f.shipments;
    next_shipment = f.next_shipment + 1;
  },
)

-- One pass of the loop of the transaction.
unfoldable pub create_sub_order : (now : ℕ) → (parent : Order) → SplitGroup → Tx Fulfilment SubOrder
create_sub_order now parent g = do
  id ← insert_sub_order now parent g
  moved ← on_shop (on_stock (move_items created g.warehouse_id (map (λ it. it.item) g.items)))
  pure (record { order_id = id; warehouse_id = some g.warehouse_id; is_split = true })

unfoldable pub create_sub_orders :
    (now : ℕ) → (parent : Order) → List SplitGroup → Tx Fulfilment (List SubOrder)
create_sub_orders now parent [] = pure []
create_sub_orders now parent (g ∷ gs) = do
  first ← create_sub_order now parent g
  rest ← create_sub_orders now parent gs
  pure (first ∷ rest)

-- The transaction.
unfoldable pub write_sub_orders :
    (now : ℕ) → (parent : Order) → List SplitGroup → Tx Fulfilment (List SubOrder)
write_sub_orders now parent gs = do
  subs ← create_sub_orders now parent gs
  o ← on_shop (update_order now parent.id (set_status processing))
  pure subs

abbrev pub lines_of : (order : ℕ) → Shop → List SplitItem
lines_of id s = map split_item (filter_where (λ l. id == l.order_id) s.items)

-- With at most one warehouse nothing is written.
unfoldable pub split_order_by_warehouse :
    (warehouses : List ℕ) → (now order : ℕ) → Action Fulfilment (List SubOrder)
split_order_by_warehouse whs now id f = elim (find_first (is_order id) f.shop.orders) [
  | none ↦ (err not_found, f)
  | some o ↦ elim (group_items f.shop whs (lines_of id f.shop) []) [
    | err e ↦ (err e, f)
    | ok gs ↦
        if leb (length gs) 1
        then (
          ok (record { order_id = id; warehouse_id = first_warehouse gs; is_split = false } ∷ []),
          f,
        )
        else transact (write_sub_orders now o gs) f
  ]
]
