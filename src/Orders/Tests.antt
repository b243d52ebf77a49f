-- ===== src/Orders/Tests.antt =====
-- An order of two lines, before shipment, delivered, and refunded.
use shop_verse.Base.{
  ℕ, ◌+◌, ◌≡◌, ◌<◌, ◌↔◌, ◌⊎◌, refl, true, false, not, none, some, List, [], ◌∷◌, all, filter_where,
  sum_by, ok, err, bad_request,
}
use shop_verse.Stock.{Stock, WarehouseInventory, Variant, get_default_warehouse_id}
use shop_verse.Inventory.{release, release_row, commit_shipment, commit_row}
use shop_verse.Wallet.Tables.{
  Books, refund_item, cod_confirm, order_payment, named, credit_type, wallet_credit, upsert_wallet,
  create_transaction,
}
use shop_verse.Orders.Tables.{
  Shop, Order, OrderItem, ReturnRequest, PaymentReconciliation, TrackingEvent, confirmed, delivered,
  cancelled, return_requested, shipped, paid, unpaid, partially_refunded, cod, matched, discrepant,
  update_order, update_item,
}
use shop_verse.Orders.Lifecycle.{
  find_own, release_lines, commit_lines, cancel_order, ship_lines, write_status, request_return,
}
use shop_verse.Orders.Lifecycle.Guards.{
  IsShipment, write_status-IsShipment, shipped_twice, cancelled_once,
}
use shop_verse.Orders.Lifecycle.Returns.{returned_once}
use shop_verse.Orders.Lines.{
  line_refund, write_cancelled_item, line_total, write_refund, pay_refund, mark_refunded,
  create_refund_request, credit_refund, roll_up, write_payment, refunded_line, already_refunded,
}
use shop_verse.Orders.Lines.Refunds.{refunded_once}
use shop_verse.Orders.Lines.Races.{released_twice, cancelled_item_total}
use shop_verse.Orders.Settlement.{
  cent, confirm_cod_delivery, write_cod, upsert_reconciliation, record_gateway_payment,
}
use shop_verse.Orders.Settlement.Cod.{confirmed_once, recorded_as_matched}

abbrev shelf : WarehouseInventory
shelf = record { warehouse_id = 1; variant_id = 5; stock = 20; reserved = 6 }

abbrev mug : Variant
mug = record { id = 5; stock = 20; reserved_stock = 6; sold_count = 0; backorder_allowed = false }

abbrev store : Stock
store = record { inventory = shelf ∷ []; variants = mug ∷ []; default_warehouse = some 1 }

abbrev purchase : Order
purchase = record {
  id = 42;
  user_id = some 7;
  status = confirmed;
  payment_method = cod;
  payment_status = unpaid;
  subtotal = 900;
  discount_amount = 0;
  shipping_fee = 0;
  tax_amount = 0;
  total = 900;
  wallet_amount_used = 0;
  currency = "usd";
  coupon_code = none;
  payment_id = none;
  updated_at = 10;
}

abbrev two_mugs : OrderItem
two_mugs = record {
  id = 1;
  order_id = 42;
  variant_id = 5;
  quantity = 2;
  price = 300;
  is_cancelled = false;
  is_refunded = false;
}

abbrev one_mug : OrderItem
one_mug = record two_mugs { id = 2; quantity = 1 }

abbrev lines : List OrderItem
lines = two_mugs ∷ one_mug ∷ []

abbrev no_books : Books
no_books = record { wallets = []; next_wallet = 1; transactions = []; ledger = [] }

abbrev shop : Shop
shop = record {
  stock = store;
  books = no_books;
  orders = purchase ∷ [];
  items = lines;
  tracking = [];
  returns = [];
  refunds = [];
  reconciliations = [];
  reservations = [];
  next_reservation = 1;
  promotions = record { coupons = []; usages = []; delivered_orders = λ u. 0 };
  next_order = 43;
  next_item = 3;
}

abbrev arrival : TrackingEvent
arrival = record { order_id = 42; status = delivered; created_at = 1000 }

abbrev delivered_shop : Shop
delivered_shop = record shop {
  orders = record purchase { status = delivered } ∷ [];
  tracking = arrival ∷ [];
}

abbrev with_reserved : ℕ → Stock
with_reserved n = record store {
  inventory = record shelf { reserved = n } ∷ [];
  variants = record mug { reserved_stock = n } ∷ [];
}

abbrev cancelled_shop : Shop
cancelled_shop = record shop {
  stock = with_reserved 3;
  orders = record purchase { status = cancelled; updated_at = 50 } ∷ [];
}

cancels :
    cancel_order 50 7 42 shop
    ≡ ok (record purchase { status = cancelled; updated_at = 50 }, cancelled_shop)
unfolding cancel_order find_own release_lines release release_row get_default_warehouse_id
    update_order
cancels = refl

cancelled_once_run : cancel_order 60 7 42 cancelled_shop ≡ err bad_request
cancelled_once_run =
    (cancelled_once 50 60 7 42 shop cancelled_shop purchase
      (record purchase { status = cancelled; updated_at = 50 }) refl cancels).4

abbrev shipped_shop : Shop
shipped_shop = record shop {
  stock = record store {
    inventory = record shelf { stock = 17; reserved = 3 } ∷ [];
    variants = record mug { stock = 17; reserved_stock = 3; sold_count = 3 } ∷ [];
  };
  orders = record purchase { status = shipped; updated_at = 50 } ∷ [];
  tracking = record { order_id = 42; status = shipped; created_at = 50 } ∷ [];
}

ships :
    write_status 50 purchase lines shipped shop
    ≡ ok (record purchase { status = shipped; updated_at = 50 }, shipped_shop)
unfolding write_status ship_lines commit_lines commit_shipment commit_row get_default_warehouse_id
    update_order
ships = refl

abbrev reshipped_shop : Shop
reshipped_shop = record shop {
  stock = record store {
    inventory = record shelf { stock = 14; reserved = 0 } ∷ [];
    variants = record mug { stock = 14; reserved_stock = 0; sold_count = 6 } ∷ [];
  };
  orders = record purchase { status = shipped; updated_at = 60 } ∷ [];
  tracking =
      record { order_id = 42; status = shipped; created_at = 60 }
      ∷ record { order_id = 42; status = shipped; created_at = 50 }
      ∷ [];
}

ships_again :
    write_status 60 purchase lines shipped shipped_shop
    ≡ ok (record purchase { status = shipped; updated_at = 60 }, reshipped_shop)
unfolding write_status ship_lines commit_lines commit_shipment commit_row get_default_warehouse_id
    update_order
ships_again = refl

write_status-IsShipment_run : IsShipment purchase lines shipped store shipped_shop.stock
write_status-IsShipment_run =
    (write_status-IsShipment 50 purchase lines shipped shop shipped_shop
      (record purchase { status = shipped; updated_at = 50 }) ships).2

shipped_twice_run : commit_lines lines shipped_shop.stock ≡ ok (tt, reshipped_shop.stock)
shipped_twice_run =
    (shipped_twice 50 60 purchase lines shop shipped_shop reshipped_shop
      (record purchase { status = shipped; updated_at = 50 })
      (record purchase { status = shipped; updated_at = 60 }) refl ships ships_again).1

abbrev a_week : ℕ → ℕ
a_week v = 7

abbrev the_return : ReturnRequest
the_return = record {
  order_id = 42;
  items =
      record { order_item_id = 1; quantity = 2 } ∷ record { order_item_id = 2; quantity = 1 } ∷ [];
}

abbrev returning_shop : Shop
returning_shop = record delivered_shop {
  orders = record purchase { status = return_requested; updated_at = 2000 } ∷ [];
  returns = the_return ∷ [];
}

returns : request_return a_week 2000 7 42 delivered_shop ≡ ok (the_return, returning_shop)
unfolding request_return find_own update_order
returns = refl

returned_once_run : request_return a_week 3000 7 42 returning_shop ≡ err bad_request
returned_once_run =
    (returned_once a_week 2000 3000 7 42 delivered_shop returning_shop
      (record purchase { status = delivered }) the_return refl returns).6

abbrev half_shop : Shop
half_shop = record shop {
  stock = with_reserved 4;
  orders = record purchase { total = 300; updated_at = 50 } ∷ [];
  items = record two_mugs { is_cancelled = true } ∷ one_mug ∷ [];
}

cancels_line :
    write_cancelled_item 50 purchase lines two_mugs shop
    ≡ ok (record purchase { total = 300; updated_at = 50 }, half_shop)
unfolding write_cancelled_item release release_row get_default_warehouse_id update_order update_item
cancels_line = refl

abbrev released_shop : Shop
released_shop = record half_shop {
  stock = with_reserved 2;
  orders = record purchase { total = 300; updated_at = 60 } ∷ [];
}

cancels_line_again :
    write_cancelled_item 60 purchase lines two_mugs half_shop
    ≡ ok (record purchase { total = 300; updated_at = 60 }, released_shop)
unfolding write_cancelled_item release release_row get_default_warehouse_id update_order update_item
cancels_line_again = refl

released_twice_run :
    (release 5 2 store ≡ ok (tt, with_reserved 4))
    × (release 5 2 (with_reserved 4) ≡ ok (tt, with_reserved 2))
released_twice_run =
    released_twice 50 60 purchase lines two_mugs shop half_shop released_shop
      (record purchase { total = 300; updated_at = 50 })
      (record purchase { total = 300; updated_at = 60 }) cancels_line cancels_line_again

cancelled_item_total_run :
    ((all (λ (i : OrderItem). i.is_cancelled) (one_mug ∷ []) ≡ true) × (◌≡◌ {A = ℕ} 300 0))
    ⊎ ((all (λ (i : OrderItem). i.is_cancelled) (one_mug ∷ []) ≡ false)
        × (◌≡◌ {A = ℕ} 300 (
            sum_by line_total (filter_where (λ i. not i.is_cancelled) (one_mug ∷ []))
            + sum_by line_total (filter_where (λ i. i.is_cancelled) (one_mug ∷ [])))))
cancelled_item_total_run =
    cancelled_item_total 50 purchase lines two_mugs shop half_shop
      (record purchase { total = 300; updated_at = 50 }) cancels_line

abbrev refunded_shop : Shop
refunded_shop = record shop {
  orders = record purchase { payment_status = partially_refunded; updated_at = 70 } ∷ [];
  items = record two_mugs { is_refunded = true } ∷ one_mug ∷ [];
  refunds = line_refund 70 purchase two_mugs ∷ [];
  books = record {
    wallets = record { id = 1; user_id = 7; balance = 600 } ∷ [];
    next_wallet = 2;
    transactions =
        record {
          wallet_id = 1;
          amount = 600;
          type = credit_type;
          reference = refund_item 42 1;
          balance_after = 600;
        }
        ∷ [];
    ledger =
        record {
          type = wallet_credit;
          debit_amount = 0;
          credit_amount = 600;
          reference = refund_item 42 1;
        }
        ∷ [];
  };
}

refunds_line :
    write_refund 70 7 purchase two_mugs shop
    ≡ ok (refunded_line 600 partially_refunded, refunded_shop)
unfolding write_refund mark_refunded pay_refund create_refund_request credit_refund upsert_wallet
    create_transaction roll_up write_payment update_order
refunds_line = refl

refunded_once_example :
    write_refund 80 7 purchase two_mugs refunded_shop ≡ ok (already_refunded, refunded_shop)
refunded_once_example =
    refunded_once 70 80 7 7 600 purchase purchase two_mugs partially_refunded shop refunded_shop
      refunds_line

abbrev paid_shop : Shop
paid_shop = record shop {
  orders = record purchase { payment_status = paid; status = delivered; updated_at = 90 } ∷ [];
  books = record no_books {
    ledger =
        record {
          type = order_payment;
          debit_amount = 0;
          credit_amount = 900;
          reference = cod_confirm 42;
        }
        ∷ [];
  };
  reconciliations =
      record {
        gateway_ref = cod_confirm 42;
        order_id = some 42;
        gateway_amount = 900;
        internal_amount = some 900;
        discrepancy = some 0;
        status = matched;
      }
      ∷ [];
}

confirms : confirm_cod_delivery 90 42 shop ≡ ok (tt, paid_shop)
unfolding confirm_cod_delivery write_cod update_order upsert_reconciliation
confirms = refl

confirmed_once_run : confirm_cod_delivery 95 42 paid_shop ≡ err bad_request
confirmed_once_run = (confirmed_once 90 95 shop paid_shop purchase refl confirms).4

abbrev short_payment : PaymentReconciliation
short_payment = record {
  gateway_ref = named 3;
  order_id = some 42;
  gateway_amount = 20850;
  internal_amount = some 900;
  discrepancy = some 19950;
  status = discrepant;
}

records :
    record_gateway_payment (named 3) (some 42) 20850 shop
    ≡ ok (short_payment, record shop { reconciliations = short_payment ∷ [] })
unfolding record_gateway_payment upsert_reconciliation
records = refl

recorded_as_matched_run :
    (short_payment.gateway_amount ≡ 20850)
    × ((discrepant ≡ matched) ↔ ((20850 < purchase.total + cent) × (purchase.total < 20850 + cent)))
recorded_as_matched_run =
    recorded_as_matched (named 3) 42 20850 shop
      (record shop { reconciliations = short_payment ∷ [] }) short_payment purchase refl records
