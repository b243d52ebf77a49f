-- ===== src/Warehouse/Shipping.antt =====
-- backend/src/warehouse/warehouse.service.ts: updateShipmentStatus, with the order that an RTO
-- ("return to origin") changes. The tracking code and `deliveredAt` are left out.
pub mod Outcome
mod Tests
use shop_verse.Base.{
  ℕ, Bool, Option, none, some, List, find_first, replace_first, ◌==◌, ok, err, Tx, Action, ◌>>=◌,
  pure, transact, not_found,
}
use shop_verse.Orders.Tables.{return_requested, on_stock, update_order, set_status, add_tracking}
use shop_verse.Warehouse.{returned, delivered as taken, move_items}
use shop_verse.Warehouse.Routing.{Shipment, ShipmentStatus, delivered, rto}
use shop_verse.Warehouse.Splitting.{Fulfilment, on_shop}

abbrev pub is_shipment : ℕ → Shipment → Bool
is_shipment id x = id == x.id

-- shipment.update by id, outside of the transaction.
abbrev pub write_shipment : (id : ℕ) → Shipment → Fulfilment → Fulfilment
write_shipment id x f = record f { shipments = replace_first (is_shipment id) x f.shipments }

-- The transaction of a delivery.
unfoldable pub write_delivery : Shipment → Tx Fulfilment (Unit {0})
write_delivery x = on_shop (on_stock (move_items taken x.warehouse_id x.items))

-- The transaction of an RTO.
unfoldable pub write_rto : (now : ℕ) → Shipment → Tx Fulfilment (Unit {0})
write_rto now x = do
  u ← on_shop (on_stock (move_items returned x.warehouse_id x.items))
  o ← on_shop (update_order now x.order_id (set_status return_requested))
  on_shop
      (add_tracking (record { order_id = x.order_id; status = return_requested; created_at = now }))

abbrev pub follow_up : ShipmentStatus → (now : ℕ) → Shipment → Tx Fulfilment (Unit {0})
follow_up delivered now x = write_delivery x
follow_up rto now x = write_rto now x
follow_up _ now x = pure tt

-- Any status may follow any other one.
unfoldable pub update_shipment_status : (now id : ℕ) → ShipmentStatus → Action Fulfilment (Unit {0})
update_shipment_status now id status f = elim (find_first (is_shipment id) f.shipments) [
  | none ↦ (err not_found, f)
  | some x ↦ transact (follow_up status now x) (write_shipment id (record x { status = status }) f)
]
