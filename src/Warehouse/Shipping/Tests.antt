-- ===== src/Warehouse/Shipping/Tests.antt =====
-- A shipment of two mugs that is delivered twice, and one that comes back.
use shop_verse.Base.{
  ℕ, ◌≡◌, refl, false, some, none, [], ◌∷◌, find_first, Error, ok, err, check_violation,
}
use shop_verse.Stock.{Stock}
use shop_verse.Stock.Consistency.{IsConsistent}
use shop_verse.Orders.Tables.{Shop, Order, shipped, stripe, paid}
use shop_verse.Warehouse.{move_items, move_item, sync_variant_cache}
use shop_verse.Warehouse.Routing.{Shipment, pending, delivered, rto}
use shop_verse.Warehouse.Splitting.{Fulfilment}
use shop_verse.Warehouse.Shipping.{is_shipment, update_shipment_status, write_delivery, write_rto}
use shop_verse.Warehouse.Shipping.Outcome.{IsReturning, update_shipment_status_outcome}

abbrev with_row : (stock reserved : ℕ) → Stock
with_row n q = record {
  inventory = record { warehouse_id = 1; variant_id = 5; stock = n; reserved = q } ∷ [];
  variants =
      record { id = 5; stock = n; reserved_stock = q; sold_count = 0; backorder_allowed = false }
      ∷ [];
  default_warehouse = some 1;
}

abbrev purchase : Order
purchase = record {
  id = 42;
  user_id = some 7;
  status = shipped;
  payment_method = stripe;
  payment_status = paid;
  subtotal = 900;
  discount_amount = 100;
  shipping_fee = 0;
  tax_amount = 0;
  total = 800;
  wallet_amount_used = 0;
  currency = "eur";
  coupon_code = none;
  payment_id = none;
  updated_at = 10;
}

abbrev shop : Shop
shop = record {
  stock = with_row 5 2;
  books = record { wallets = []; next_wallet = 1; transactions = []; ledger = [] };
  orders = purchase ∷ [];
  items = [];
  tracking = [];
  returns = [];
  refunds = [];
  reconciliations = [];
  reservations = [];
  next_reservation = 1;
  promotions = record { coupons = []; usages = []; delivered_orders = λ u. 0 };
  next_order = 43;
  next_item = 3;
}

abbrev parcel : Shipment
parcel = record {
  id = 9;
  status = pending;
  order_id = 42;
  warehouse_id = 1;
  items = record { variant_id = 5; quantity = 2 } ∷ [];
}

abbrev before : Fulfilment
before = record { shop = shop; shipments = parcel ∷ []; next_shipment = 10 }

-- Another shipment has reserved two mugs more, which the second delivery takes.
abbrev shared : Fulfilment
shared = record before { shop = record shop { stock = with_row 5 4 } }

delivered_twice :
    (update_shipment_status 70 9 delivered
      (update_shipment_status 60 9 delivered shared).1).1.shop.stock
    ≡ with_row 1 0
unfolding update_shipment_status write_delivery move_items move_item sync_variant_cache
delivered_twice = refl

-- Nothing is reserved any more: the status is kept, without its stock.
returned_late : update_shipment_status 70 9 rto (update_shipment_status 60 9 delivered before).1 ≡ (
  err check_violation,
  record before {
    shop = record shop { stock = with_row 3 0 };
    shipments = record parcel { status = rto } ∷ [];
  },
)
unfolding update_shipment_status write_delivery write_rto move_items move_item sync_variant_cache
returned_late = refl

update_shipment_status_outcome_example :
    let r = update_shipment_status 60 9 rto before in
    (find_first (is_shipment 9) r.1.shipments ≡ some (record parcel { status = rto }))
    × (IsConsistent (with_row 5 2) → IsConsistent r.1.shop.stock)
    × ((e : Error) → r.0 ≡ err e → r.1.shop ≡ shop)
    × (rto ≡ rto → r.0 ≡ ok tt → IsReturning 60 parcel before r.1)
update_shipment_status_outcome_example = update_shipment_status_outcome 60 9 rto before parcel refl
