-- ===== src/Warehouse/Splitting/Tests.antt =====
-- An order of a mug and two lamps, which stand in two warehouses.
use shop_verse.Base.{
  ℕ, ◌+◌, ◌≡◌, ◌⊎◌, refl, true, false, none, some, [], ◌∷◌, arith, sum_by, Error, ok, err,
  bad_request,
}
use shop_verse.Stock.{Stock, WarehouseInventory, Variant}
use shop_verse.Stock.Consistency.{IsConsistent}
use shop_verse.Orders.Tables.{Shop, Order, OrderItem, cancelled, stripe, paid, update_order}
use shop_verse.Warehouse.{move_items, move_item, sync_variant_cache}
use shop_verse.Warehouse.Splitting.{
  Fulfilment, group_items, insert_sub_order, create_sub_order, create_sub_orders, write_sub_orders,
  split_order_by_warehouse, amount_of, lines_of,
}
use shop_verse.Warehouse.Splitting.Totals.{billed, shipped, quantity_in, split_order-adds_up}

abbrev near : WarehouseInventory
near = record { warehouse_id = 1; variant_id = 5; stock = 5; reserved = 1 }

abbrev far : WarehouseInventory
far = record { warehouse_id = 2; variant_id = 7; stock = 6; reserved = 2 }

abbrev mug : Variant
mug = record { id = 5; stock = 5; reserved_stock = 1; sold_count = 0; backorder_allowed = false }

abbrev lamp : Variant
lamp = record { id = 7; stock = 6; reserved_stock = 2; sold_count = 0; backorder_allowed = false }

abbrev stores : Stock
stores = record {
  inventory = near ∷ far ∷ [];
  variants = mug ∷ lamp ∷ [];
  default_warehouse = some 1;
}

stores-IsConsistent : IsConsistent stores
stores-IsConsistent = record { within = omega arith; cached = λ v. ground arith }

-- It was cancelled, and had a discount.
abbrev purchase : Order
purchase = record {
  id = 42;
  user_id = some 7;
  status = cancelled;
  payment_method = stripe;
  payment_status = paid;
  subtotal = 900;
  discount_amount = 100;
  shipping_fee = 0;
  tax_amount = 0;
  total = 800;
  wallet_amount_used = 0;
  currency = "eur";
  coupon_code = none;
  payment_id = none;
  updated_at = 10;
}

abbrev one_mug : OrderItem
one_mug = record {
  id = 1;
  order_id = 42;
  variant_id = 5;
  quantity = 1;
  price = 300;
  is_cancelled = true;
  is_refunded = false;
}

abbrev two_lamps : OrderItem
two_lamps = record one_mug { id = 2; variant_id = 7; quantity = 2 }

abbrev shop : Shop
shop = record {
  stock = stores;
  books = record { wallets = []; next_wallet = 1; transactions = []; ledger = [] };
  orders = purchase ∷ [];
  items = one_mug ∷ two_lamps ∷ [];
  tracking = [];
  returns = [];
  refunds = [];
  reconciliations = [];
  reservations = [];
  next_reservation = 1;
  promotions = record { coupons = []; usages = []; delivered_orders = λ u. 0 };
  next_order = 43;
  next_item = 3;
}

abbrev before : Fulfilment
before = record { shop = shop; shipments = []; next_shipment = 1 }

splits :
    (split_order_by_warehouse (1 ∷ 2 ∷ []) 50 42 before).0
    ≡ ok (
        record { order_id = 43; warehouse_id = some 1; is_split = true }
        ∷ record { order_id = 44; warehouse_id = some 2; is_split = true }
        ∷ [])
unfolding split_order_by_warehouse group_items write_sub_orders create_sub_orders create_sub_order
    insert_sub_order update_order move_items move_item sync_variant_cache
splits = refl

-- The order was of 800; with the sub-orders it is 1700.
bills_again : billed (split_order_by_warehouse (1 ∷ 2 ∷ []) 50 42 before).1 ≡ 1700
unfolding split_order_by_warehouse group_items write_sub_orders create_sub_orders create_sub_order
    insert_sub_order update_order move_items move_item sync_variant_cache
bills_again = refl

nowhere : split_order_by_warehouse (1 ∷ []) 50 42 before ≡ (err bad_request, before)
unfolding split_order_by_warehouse group_items
nowhere = refl

split_order-adds_up_example :
    let r = split_order_by_warehouse (1 ∷ 2 ∷ []) 50 42 before in
    ((e : Error) → r.0 ≡ err e → r.1 ≡ before)
    × (IsConsistent stores → IsConsistent r.1.shop.stock)
    × ((r.1 ≡ before)
        ⊎ (billed r.1 ≡ billed before + sum_by amount_of (lines_of 42 shop))
          × ((u : ℕ)
              → shipped u r.1 ≡ shipped u before + sum_by (quantity_in u) (lines_of 42 shop)))
split_order-adds_up_example = split_order-adds_up (1 ∷ 2 ∷ []) 50 42 before
