-- ===== src/Warehouse/Tests.antt =====
-- One variant in one warehouse.
use shop_verse.Base.{ℕ, ◌≡◌, refl, true, false, some, List, [], ◌∷◌, arith, ok}
use shop_verse.Stock.{Stock, WarehouseInventory, Variant}
use shop_verse.Stock.Consistency.{IsConsistent}
use shop_verse.Warehouse.{
  ShipmentItem, created, delivered, returned, move_item, move_items, sync_variant_cache, put_stock,
  set_inventory,
}
use shop_verse.Warehouse.Cache.{IsConsistentBut, move_items-IsConsistent, set_inventory_repairs}

abbrev shelf : WarehouseInventory
shelf = record { warehouse_id = 1; variant_id = 5; stock = 20; reserved = 6 }

abbrev mug : Variant
mug = record { id = 5; stock = 20; reserved_stock = 6; sold_count = 0; backorder_allowed = false }

abbrev store : Stock
store = record { inventory = shelf ∷ []; variants = mug ∷ []; default_warehouse = some 1 }

abbrev with_row : ℕ → ℕ → Stock
with_row n m = record store {
  inventory = record shelf { stock = n; reserved = m } ∷ [];
  variants = record mug { stock = n; reserved_stock = m } ∷ [];
}

store-IsConsistent : IsConsistent store
store-IsConsistent = record { within = (omega arith, tt); cached = λ v. ground arith }

abbrev parcel : List ShipmentItem
parcel = record { variant_id = 5; quantity = 4 } ∷ []

creates : move_items created 1 parcel store ≡ ok (tt, with_row 20 10)
unfolding move_items move_item sync_variant_cache
creates = refl

delivers : move_items delivered 1 parcel (with_row 20 10) ≡ ok (tt, with_row 16 6)
unfolding move_items move_item sync_variant_cache
delivers = refl

-- A shipment that comes back has four pieces more than before it was created.
comes_back : move_items returned 1 parcel (with_row 20 10) ≡ ok (tt, with_row 24 6)
unfolding move_items move_item sync_variant_cache
comes_back = refl

move_items-IsConsistent_run : IsConsistent (with_row 20 10)
move_items-IsConsistent_run =
    move_items-IsConsistent created 1 parcel store (with_row 20 10) tt store-IsConsistent creates

abbrev drifted : Stock
drifted = record store { variants = record mug { stock = 3 } ∷ [] }

drifted-IsConsistentBut : IsConsistentBut 5 drifted
drifted-IsConsistentBut = record { within = (omega arith, tt); cached = λ u o. ground arith }

repairs : set_inventory 1 5 30 drifted ≡ ok (true, with_row 30 6)
unfolding set_inventory put_stock sync_variant_cache
repairs = refl

set_inventory_repairs_run : IsConsistent (with_row 30 6)
set_inventory_repairs_run =
    set_inventory_repairs 1 5 30 drifted (with_row 30 6) true drifted-IsConsistentBut repairs
