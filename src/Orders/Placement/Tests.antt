-- ===== src/Orders/Placement/Tests.antt =====
-- A reservation of two mugs, placed with a coupon of ten per cent and a part of the wallet, and a
-- guest's order of one mug.
use shop_verse.Base.{
  ◌+◌, ◌*◌, ◌≤◌, ◌<◌, ◌≡◌, ◌⊎◌, refl, true, false, none, some, [], ◌∷◌, arith, ok, err, Error,
  bad_request,
}
use shop_verse.Stock.{Stock, WarehouseInventory, Variant, get_default_warehouse_id, ensure_row}
use shop_verse.Stock.Consistency.{IsConsistent}
use shop_verse.Inventory.{reserve, reserve_sellable}
use shop_verse.Wallet.Tables.{Books, Wallet, credit_type, named, wallet_credit, create_transaction}
use shop_verse.Wallet.{debit, debit_transaction, withdraw_if_covered}
use shop_verse.Coupons.{
  Coupon, percentage, validate_coupon, apply_discount, calc_discount, count_use, record_usage,
  use_coupon,
}
use shop_verse.Reservation.{CartReservation, CartReservationItem, active}
use shop_verse.Reservation.Checkout.{validate_for_checkout, changed_items, consume}
use shop_verse.Orders.Pricing.{
  StoreConfig, quote, compute_tax, round_cents, wallet_part, quote_adds_up,
}
use shop_verse.Orders.Tables.{Shop, Order, pending, unpaid, stripe}
use shop_verse.Orders.Placement.{
  Environment, PlaceOrder, prepare, create_order, use_code, write_order, pay_from_wallet,
  place_order,
}
use shop_verse.Orders.Placement.Composition.{IsPlaced, place_order-IsPlaced}
use shop_verse.Orders.Placement.Invariants.{IsWellFormed, place_order-IsWellFormed, placed_once}
use shop_verse.Wallet.Conservation
use shop_verse.Orders.Placement.Guest.{
  GuestOrder, place_guest_order, prepare_guest, check_items, check_item, write_guest_order,
  reserve_all,
}
use shop_verse.Orders.Placement.Guest.Outcome.{
  IsFilled, place_guest_order_outcome, place_guest_order-IsWellFormed,
}

abbrev shelf : WarehouseInventory
shelf = record { warehouse_id = 1; variant_id = 5; stock = 20; reserved = 6 }

abbrev mug : Variant
mug = record { id = 5; stock = 20; reserved_stock = 6; sold_count = 0; backorder_allowed = false }

abbrev store : Stock
store = record { inventory = shelf ∷ []; variants = mug ∷ []; default_warehouse = some 1 }

abbrev two_mugs : CartReservationItem
two_mugs = record {
  variant_id = 5;
  warehouse_id = 1;
  quantity = 2;
  locked_price = 50000;
  locked_mrp = 500;
}

abbrev held : CartReservation
held = record {
  id = 3;
  cart_id = 4;
  user_id = 7;
  status = active;
  expires_at = 600;
  is_flash = false;
  created_at = 0;
  items = two_mugs ∷ [];
}

abbrev ten_off : Coupon
ten_off = record {
  id = 1;
  code = 10;
  discount_type = percentage;
  discount_value = 10;
  min_order_amount = 500;
  max_uses = some 2;
  max_uses_per_user = some 3;
  first_order_only = false;
  used_count = 0;
  expires_at = none;
  is_active = true;
}

abbrev purse : Wallet
purse = record { id = 1; user_id = 7; balance = 10000000 }

abbrev books : Books
books = record {
  wallets = purse ∷ [];
  next_wallet = 2;
  transactions =
      record {
        wallet_id = 1;
        amount = 10000000;
        type = credit_type;
        reference = named 1;
        balance_after = 10000000;
      }
      ∷ [];
  ledger =
      record {
        type = wallet_credit;
        debit_amount = 0;
        credit_amount = 10000000;
        reference = named 1;
      }
      ∷ [];
}

abbrev shop : Shop
shop = record {
  stock = store;
  books = books;
  orders = [];
  items = [];
  tracking = [];
  returns = [];
  refunds = [];
  reconciliations = [];
  reservations = held ∷ [];
  next_reservation = 4;
  promotions = record { coupons = ten_off ∷ []; usages = []; delivered_orders = λ u. 0 };
  next_order = 42;
  next_item = 1;
}

abbrev config : StoreConfig
config = record {
  currency = "usd";
  tax_rate = 500;
  free_shipping_threshold = 50000000;
  shipping_fee = 2000000;
}

abbrev env : Environment
env = record {
  is_blocked = false;
  has_address = true;
  product = λ v. record { base_price = 500; discount_pct = 0 };
  settings = some config;
  tax_strategy = none;
  hook_rejects = λ r. false;
}

abbrev request : PlaceOrder
request = record { reservation_id = 3; coupon_code = some 10; wallet_amount = 3000000 }

abbrev made : Order
made = record {
  id = 42;
  user_id = some 7;
  status = pending;
  payment_method = stripe;
  payment_status = unpaid;
  subtotal = 10000000;
  discount_amount = 1000000;
  shipping_fee = 2000000;
  tax_amount = 450000;
  total = 11450000;
  wallet_amount_used = 3000000;
  currency = "usd";
  coupon_code = some 10;
  payment_id = none;
  updated_at = 100;
}

abbrev after : Shop
after = (place_order env 100 7 request shop).1

placed : place_order env 100 7 request shop ≡ (ok made, after)
unfolding place_order prepare validate_for_checkout changed_items apply_discount validate_coupon
    calc_discount quote compute_tax round_cents wallet_part write_order create_order consume
    use_code use_coupon count_use record_usage
placed = refl

paid : after.books.wallets ≡ record purse { balance = 7000000 } ∷ []
unfolding place_order prepare validate_for_checkout changed_items apply_discount validate_coupon
    calc_discount quote compute_tax round_cents wallet_part write_order create_order consume
    use_code use_coupon count_use record_usage pay_from_wallet debit debit_transaction
    withdraw_if_covered create_transaction
paid = refl

store-IsConsistent : IsConsistent store
store-IsConsistent = record { within = omega arith; cached = λ v. ground arith }

books-IsSound : Conservation.IsSound books
books-IsSound = (
  record {
    conserved = λ i. ground arith;
    credits_booked = refl;
    debits_booked = refl;
    once = λ i ref ty. ground arith;
  },
  ground arith,
)

shop-IsWellFormed : IsWellFormed shop
shop-IsWellFormed = record {
  reserved = record { consistent = store-IsConsistent; backed = λ wh v. ground arith };
  booked = books-IsSound;
  limited = record { uses = ground arith; once = λ c u. omega arith };
}

place_order-IsPlaced_example : IsPlaced env 100 7 request shop after made
place_order-IsPlaced_example = place_order-IsPlaced env 100 7 request shop after made placed

place_order-IsWellFormed_example : IsWellFormed after
place_order-IsWellFormed_example = place_order-IsWellFormed env 100 7 request shop shop-IsWellFormed

placed_once_example : place_order env 200 7 request after ≡ (err bad_request, after)
placed_once_example = placed_once env env 100 200 7 7 request request shop after made placed refl

refused : place_order env 600 7 request shop ≡ (err bad_request, shop)
unfolding place_order prepare validate_for_checkout
refused = refl

-- A guest buys one mug, at 5.00 and with the shipping fee and the tax.
abbrev guest_request : GuestOrder
guest_request = record { items = record { variant_id = 5; quantity = 1 } ∷ []; coupon_code = none }

place_guest_order_outcome_example :
    ((e : Error) × (place_guest_order env 100 guest_request shop ≡ (err e, shop)))
    ⊎ ((o : Order) × (s' : Shop) × (place_guest_order env 100 guest_request shop ≡ (ok o, s'))
        × IsFilled 1 guest_request shop s' o)
place_guest_order_outcome_example =
    place_guest_order_outcome env 100 1 guest_request shop store-IsConsistent refl

place_guest_order-IsWellFormed_example :
    IsWellFormed (place_guest_order env 100 guest_request shop).1
place_guest_order-IsWellFormed_example =
    place_guest_order-IsWellFormed env 100 guest_request shop shop-IsWellFormed

quote_adds_up_example :
    let q = quote none config 10000000 1000000 in
    (q.total + 1000000 ≡ 10000000 + q.shipping_fee + q.tax_amount)
    × ((50000000 ≤ 9000000) × (q.shipping_fee ≡ 0)
        ⊎ (9000000 < 50000000) × (q.shipping_fee ≡ 2000000))
    × (10000 * q.tax_amount ≤ 9000000 * 500 + 50000000)
    × (9000000 * 500 < 10000 * q.tax_amount + 50000000)
quote_adds_up_example = quote_adds_up config 10000000 1000000 (omega arith)

-- A mug that may be ordered back, and of which none is left, passes the checks, and is then
-- refused.
abbrev sold_out : Shop
sold_out = record shop {
  stock = record store {
    inventory = record shelf { reserved = 20 } ∷ [];
    variants = record mug { reserved_stock = 20; backorder_allowed = true } ∷ [];
  };
}

backorder_refused : place_guest_order env 100 guest_request sold_out ≡ (err bad_request, sold_out)
unfolding place_guest_order prepare_guest check_items check_item quote compute_tax round_cents
    write_guest_order reserve_all reserve reserve_sellable get_default_warehouse_id ensure_row
backorder_refused = refl
