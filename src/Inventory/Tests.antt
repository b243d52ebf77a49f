-- ===== src/Inventory/Tests.antt =====
-- Two warehouses that hold one variant.
use shop_verse.Base.{◌≡◌, refl, false, some, [], ◌∷◌, arith, ok, err, bad_request}
use shop_verse.Stock.{Stock, WarehouseInventory, Variant, ensure_row, get_default_warehouse_id}
use shop_verse.Stock.Consistency.{IsConsistent}
use shop_verse.Inventory.{
  reserve, release, reserve_sellable, release_row, commit_shipment, commit_row, restock,
  restock_row, sellable,
}
use shop_verse.Inventory.Invariant.{reserved, movement-IsConsistent}
use shop_verse.Inventory.Effects.{reserve_outcome, release-reserve, release_drifts}

abbrev shelf : WarehouseInventory
shelf = record { warehouse_id = 1; variant_id = 7; stock = 10; reserved = 2 }

abbrev depot : WarehouseInventory
depot = record { warehouse_id = 2; variant_id = 7; stock = 5; reserved = 3 }

abbrev shirt : Variant
shirt = record { id = 7; stock = 15; reserved_stock = 5; sold_count = 0; backorder_allowed = false }

abbrev two_warehouses : Stock
two_warehouses = record {
  inventory = shelf ∷ depot ∷ [];
  variants = shirt ∷ [];
  default_warehouse = some 1;
}

two_warehouses-IsConsistent : IsConsistent two_warehouses
two_warehouses-IsConsistent = record { within = omega arith; cached = λ v. ground arith }

abbrev reserved_four : Stock
reserved_four = record two_warehouses {
  inventory = record shelf { reserved = 6 } ∷ depot ∷ [];
  variants = record shirt { reserved_stock = 9 } ∷ [];
}

reserves : reserve 7 4 false two_warehouses ≡ ok (tt, reserved_four)
unfolding reserve reserve_sellable get_default_warehouse_id ensure_row
reserves = refl

ships :
    commit_shipment 7 4 reserved_four
    ≡ ok (
      tt,
      record two_warehouses {
        inventory = record shelf { stock = 6 } ∷ depot ∷ [];
        variants = record shirt { stock = 11; sold_count = 4 } ∷ [];
      },
    )
unfolding commit_shipment commit_row get_default_warehouse_id
ships = refl

restocks :
    restock 7 1 two_warehouses
    ≡ ok (
      tt,
      record two_warehouses {
        inventory = record shelf { stock = 11 } ∷ depot ∷ [];
        variants = record shirt { stock = 16 } ∷ [];
      },
    )
unfolding restock restock_row get_default_warehouse_id ensure_row
restocks = refl

sells : sellable 7 two_warehouses ≡ 10
unfolding sellable
sells = refl

movement-IsConsistent_example : IsConsistent reserved_four
movement-IsConsistent_example =
    movement-IsConsistent (reserved 7 4 false) two_warehouses reserved_four
      two_warehouses-IsConsistent tt reserves

reserve_outcome_run : reserve 7 9 false two_warehouses ≡ err bad_request
reserve_outcome_run =
    reserve_outcome 1 7 9 two_warehouses shelf shirt two_warehouses-IsConsistent refl refl refl
      (omega arith)

release-reserve_run :
    (reserve 7 4 false two_warehouses ≡ ok (tt, reserved_four))
    × (release 7 4 reserved_four ≡ ok (tt, two_warehouses))
release-reserve_run =
    release-reserve 1 7 4 two_warehouses shelf shirt two_warehouses-IsConsistent refl refl refl
      (omega arith) (omega arith)

abbrev drifted : Stock
drifted = record two_warehouses {
  inventory = record shelf { reserved = 0 } ∷ depot ∷ [];
  variants = record shirt { reserved_stock = 1 } ∷ [];
}

release_drifts_run : ¬ IsConsistent drifted
unfolding release release_row get_default_warehouse_id
release_drifts_run =
    release_drifts 1 7 4 two_warehouses shelf shirt two_warehouses-IsConsistent refl refl refl
      (omega arith) drifted (omega arith) (omega arith) refl
