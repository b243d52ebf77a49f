-- ===== src/Reservation/Tests.antt =====
-- A store with one reserved cart, and a flash sale.
use shop_verse.Base.{
  ℕ, ◌+◌, ◌≤◌, ◌<◌, ◌≡◌, ◌↔◌, refl, true, false, none, some, List, [], ◌∷◌, All, arith, ok, err,
  bad_request, sum_by,
}
use shop_verse.Stock.{Stock, WarehouseInventory, Variant, ensure_row, get_default_warehouse_id}
use shop_verse.Stock.Consistency.{IsWithin}
use shop_verse.Stock.Reserved.{reserved_at}
use shop_verse.Inventory.{reserve_sellable}
use shop_verse.Gate.{Gate}
use shop_verse.Reservation.Tables.{
  Cart, CartReservation, CartReservationItem, Db, active, consumed, expired, quantity_in,
  flip_active,
}
use shop_verse.Reservation.Release.{
  release_item, release_items, expire_reservation, release_by_id, expire_batch, expiring_quantity,
  is_expiring, expire_old_reservations, release_gates, enforce_concurrent_cap,
}
use shop_verse.Reservation.Create.{
  create_reservation, insert_reservation, pass_lines, pass_line, reserve_line, with_reservation,
  new_reservation, describe,
}
use shop_verse.Reservation.Create.Tokens.{refused_by_stock, refused_by_gate}
use shop_verse.Reservation.Checkout.{
  Product, validate_for_checkout, changed_items, valid, consume, price_drift,
}
use shop_verse.Reservation.Checkout.Validity.{IsNear, validate_for_checkout_iff}
use shop_verse.Reservation.Invariant.{held, IsSound}
use shop_verse.Reservation.Invariant.Transitions.{
  consume_lem, expire_reservation_lem, answers, wins, at_most_one_wins,
}
use shop_verse.Reservation.Invariant.Creation.{insert_reservation-IsSound, IsReserved}
use shop_verse.Reservation.Invariant.Expiry.{expire_batch_lem}

abbrev shelf : WarehouseInventory
shelf = record { warehouse_id = 1; variant_id = 7; stock = 10; reserved = 2 }

abbrev depot : WarehouseInventory
depot = record { warehouse_id = 2; variant_id = 7; stock = 5; reserved = 3 }

abbrev shirt : Variant
shirt = record { id = 7; stock = 15; reserved_stock = 5; sold_count = 0; backorder_allowed = false }

abbrev store : Stock
store = record { inventory = shelf ∷ depot ∷ []; variants = shirt ∷ []; default_warehouse = some 1 }

-- Two shirts at 20.00 less 10%.
abbrev two_shirts : CartReservationItem
two_shirts = record {
  variant_id = 7;
  warehouse_id = 1;
  quantity = 2;
  locked_price = 180_000;
  locked_mrp = 200_000;
}

abbrev checkout : CartReservation
checkout = record {
  id = 1;
  cart_id = 4;
  user_id = 9;
  status = active;
  expires_at = 1000;
  is_flash = false;
  created_at = 10;
  items = two_shirts ∷ [];
}

abbrev db : Db
db = record { stock = store; reservations = checkout ∷ []; next_id = 2 }

db-IsSound : IsSound db
db-IsSound = record {
  consistent = record { within = omega arith; cached = λ v. ground arith };
  backed = λ wh v. ground arith;
}

abbrev released : Db
released = record {
  stock = record store {
    inventory = record shelf { reserved = 0 } ∷ depot ∷ [];
    variants = record shirt { reserved_stock = 3 } ∷ [];
  };
  reservations = record checkout { status = expired } ∷ [];
  next_id = 2;
}

releases : release_by_id 1 9 (db, none) ≡ (ok tt, (released, none))
unfolding release_by_id expire_reservation flip_active release_items release_item
releases = refl

cron : expire_old_reservations 1000 (λ id. false) (db, none) ≡ (released, none)
unfolding expire_old_reservations release_gates
cron = refl

consume_lem_run :
    (consume 1 db
      ≡ ok (tt, record db { reservations = record checkout { status = consumed } ∷ [] }))
    × IsSound (record db { reservations = record checkout { status = consumed } ∷ [] })
consume_lem_run = consume_lem db checkout db-IsSound refl refl

expire_reservation_lem_run :
    (s' : Db) × (expire_reservation checkout db ≡ ok (true, s'))
    × IsSound s'
    × ((wh u : ℕ)
        → reserved_at wh u s'.stock + sum_by (quantity_in wh u) (two_shirts ∷ [])
          ≡ reserved_at wh u store)
expire_reservation_lem_run = expire_reservation_lem db checkout db-IsSound refl refl

at_most_one_wins_example : wins (answers 1 (consumed ∷ expired ∷ consumed ∷ []) db) ≤ 1
at_most_one_wins_example =
    at_most_one_wins 1 (consumed ∷ expired ∷ consumed ∷ []) db (refl, (refl, (refl, tt)))

abbrev cart : Cart
cart = record {
  id = 4;
  user_id = 9;
  items =
      record {
        variant_id = 7;
        quantity = 3;
        base_price = 2000;
        discount_pct = 10;
        flash_sale_items = [];
      }
      ∷ [];
}

abbrev three_shirts : CartReservationItem
three_shirts = record two_shirts { quantity = 3 }

abbrev second_checkout : CartReservation
second_checkout = new_reservation false 100 cart 2 (three_shirts ∷ [])

abbrev reserved : Db
reserved =
    with_reservation second_checkout
      (record store {
        inventory = record shelf { reserved = 5 } ∷ depot ∷ [];
        variants = record shirt { reserved_stock = 8 } ∷ [];
      })
      db

inserts : insert_reservation cart 100 (db, none) ≡ (ok (describe second_checkout), (reserved, none))
unfolding insert_reservation get_default_warehouse_id pass_lines pass_line reserve_line ensure_row
    reserve_sellable
inserts = refl

creates :
    create_reservation none (cart ∷ []) 9 100 (db, none)
    ≡ (ok (describe second_checkout), (reserved, none))
unfolding create_reservation enforce_concurrent_cap get_default_warehouse_id pass_lines pass_line
    reserve_line ensure_row reserve_sellable
creates = refl

insert_reservation-IsSound_example :
    IsSound reserved × IsReserved (three_shirts ∷ []) store reserved.stock
insert_reservation-IsSound_example =
    insert_reservation-IsSound cart 100 db none reserved none (describe second_checkout) db-IsSound
      inserts

expire_batch_lem_example :
    ((wh v : ℕ)
      → let q = expiring_quantity (1 ∷ []) wh v db.reservations in
        (held wh v (expire_batch (1 ∷ []) db) + q ≡ held wh v db)
        × (reserved_at wh v (expire_batch (1 ∷ []) db).stock + q ≡ reserved_at wh v store)
        × (held wh v (expire_batch (1 ∷ []) db)
            ≤ reserved_at wh v (expire_batch (1 ∷ []) db).stock))
    × All IsWithin (expire_batch (1 ∷ []) db).stock.inventory
    × All (λ r. is_expiring (1 ∷ []) r ≡ false) (expire_batch (1 ∷ []) db).reservations
expire_batch_lem_example = expire_batch_lem (1 ∷ []) db db-IsSound

-- 20.00 less 10%, and a price that rose to 20.20 less 10%.
abbrev stable : ℕ → Product
stable v = record { base_price = 2000; discount_pct = 10 }

abbrev risen : ℕ → Product
risen v = record { base_price = 2020; discount_pct = 10 }

refuses_drift :
    validate_for_checkout risen 1 9 500 db
    ≡ price_drift (record { variant_id = 7; locked_price = 180_000; current_price = 181_800 } ∷ [])
unfolding validate_for_checkout changed_items
refuses_drift = refl

validate_for_checkout_iff_run : (validate_for_checkout stable 1 9 500 db ≡ valid checkout) ↔ (
    (some checkout ≡ some checkout)
    × (checkout.user_id ≡ 9)
    × (active ≡ active)
    × (500 < 1000)
    × All (IsNear stable) (two_shirts ∷ []))
validate_for_checkout_iff_run = validate_for_checkout_iff stable 1 9 500 db checkout

abbrev shelf_gate : Gate
shelf_gate = record { warehouse_id = 1; variant_id = 7; tokens = 20 }

abbrev depot_gate : Gate
depot_gate = record { warehouse_id = 2; variant_id = 7; tokens = 1 }

abbrev gates : List Gate
gates = shelf_gate ∷ depot_gate ∷ []

refused_by_stock_run :
    pass_lines true (record two_shirts { quantity = 9 } ∷ []) [] store (some gates)
    ≡ (err bad_request, record two_shirts { quantity = 9 } ∷ [], some gates)
unfolding ensure_row reserve_sellable
refused_by_stock_run =
    refused_by_stock (record two_shirts { quantity = 9 }) store store gates shelf_gate refl
      (omega arith) refl refl

abbrev two_more : CartReservationItem
two_more = record two_shirts { warehouse_id = 2 }

abbrev store_after : Stock
store_after = record store {
  inventory = record shelf { reserved = 4 } ∷ depot ∷ [];
  variants = record shirt { reserved_stock = 7 } ∷ [];
}

refused_by_gate_run :
    pass_lines true (two_shirts ∷ two_more ∷ []) [] store (some gates)
    ≡ (err bad_request, two_shirts ∷ [], some (record shelf_gate { tokens = 18 } ∷ depot_gate ∷ []))
unfolding ensure_row reserve_sellable
refused_by_gate_run =
    refused_by_gate two_shirts store store gates shelf_gate refl (omega arith) refl store_after
      store_after two_more depot_gate refl refl refl (omega arith) refl
