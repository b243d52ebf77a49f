-- ===== src/Warehouse/Routing/Tests.antt =====
-- An order of eight pieces, of which one warehouse has five and the other four.
use shop_verse.Base.{ℕ, ◌+◌, ◌≡◌, refl, false, some, [], ◌∷◌, arith, ok, err, check_violation}
use shop_verse.Stock.{Stock, WarehouseInventory, Variant, update_inventory, update_variant}
use shop_verse.Stock.Consistency.{IsConsistent}
use shop_verse.Warehouse.{ShipmentItem, move_items, move_item, sync_variant_cache}
use shop_verse.Warehouse.Routing.{
  Depot, pending, assign_item, assign_items, create_shipment, create_shipments, route_order,
}
use shop_verse.Warehouse.Routing.Totals.{shipped, wanted, route_order-adds_up}

abbrev near : WarehouseInventory
near = record { warehouse_id = 1; variant_id = 7; stock = 5; reserved = 0 }

abbrev far : WarehouseInventory
far = record { warehouse_id = 2; variant_id = 7; stock = 6; reserved = 2 }

abbrev lamp : Variant
lamp = record { id = 7; stock = 11; reserved_stock = 2; sold_count = 0; backorder_allowed = false }

abbrev stores : Stock
stores = record { inventory = near ∷ far ∷ []; variants = lamp ∷ []; default_warehouse = some 1 }

stores-IsConsistent : IsConsistent stores
stores-IsConsistent = record { within = omega arith; cached = λ v. ground arith }

abbrev before : Depot
before = record { stock = stores; shipments = []; next_shipment = 1 }

abbrev eight : ShipmentItem
eight = record { variant_id = 7; quantity = 8 }

abbrev after : Depot
after = record {
  stock = record stores {
    inventory = record near { reserved = 5 } ∷ record far { reserved = 5 } ∷ [];
    variants = record lamp { reserved_stock = 10 } ∷ [];
  };
  shipments =
      record {
        id = 2;
        status = pending;
        order_id = 3;
        warehouse_id = 2;
        items = record eight { quantity = 3 } ∷ [];
      }
      ∷ record {
        id = 1;
        status = pending;
        order_id = 3;
        warehouse_id = 1;
        items = record eight { quantity = 5 } ∷ [];
      }
      ∷ [];
  next_shipment = 3;
}

routed : route_order (1 ∷ 2 ∷ []) 3 (some (eight ∷ [])) before ≡ (ok tt, after)
unfolding route_order assign_items assign_item create_shipments create_shipment move_items move_item
    update_inventory update_variant sync_variant_cache
routed = refl

route_order-adds_up_example :
    let r = route_order (1 ∷ 2 ∷ []) 3 (some (eight ∷ [])) before in
    (IsConsistent stores → IsConsistent r.1.stock)
    × (r.0 ≡ ok tt → (u : ℕ) → shipped u r.1 ≡ shipped u before + wanted u (eight ∷ []))
route_order-adds_up_example = route_order-adds_up (1 ∷ 2 ∷ []) 3 (eight ∷ []) before

-- Two lines of one variant are each given what the first warehouse has: its shipment breaks a
-- constraint.
abbrev four : ShipmentItem
four = record { variant_id = 7; quantity = 4 }

assigned_twice :
    (route_order (1 ∷ 2 ∷ []) 3 (some (four ∷ four ∷ [])) before).0 ≡ err check_violation
unfolding route_order assign_items assign_item create_shipments create_shipment move_items move_item
    update_inventory update_variant sync_variant_cache
assigned_twice = refl
