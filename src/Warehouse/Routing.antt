-- ===== src/Warehouse/Routing.antt =====
-- backend/src/warehouse/warehouse.service.ts: routeOrder and createShipment. The active warehouses
-- are an argument, in the order of the query; what they hold is read from the stock, once.
pub mod Totals
mod Tests
use shop_verse.Base.{
  ℕ, ◌+◌, ◌-◌, min, Bool, true, false, ◌&&◌, Option, none, some, List, [], ◌∷◌, ◌++◌, all,
  find_first, leb, ◌==◌, if◌then◌else◌, Result, ok, err, Error, Action, not_found, bad_request,
}
use shop_verse.Stock.{Stock, WarehouseInventory, is_row}
use shop_verse.Warehouse.{ShipmentItem, created, move_items}

pub data ShipmentStatus : Type 0 where
  pending packed dispatched in_transit delivered failed rto : ShipmentStatus

-- The courier, its code and the dates are left out.
pub record Shipment : Type 0 where
  pub id : ℕ
  pub status : ShipmentStatus
  pub order_id : ℕ
  pub warehouse_id : ℕ
  pub items : List ShipmentItem

pub record Depot : Type 0 where
  pub stock : Stock
  pub shipments : List Shipment
  pub next_shipment : ℕ

-- `stock - reserved`; a CHECK constraint keeps it from being negative.
abbrev pub available : (warehouse variant : ℕ) → Stock → ℕ
available wh v s = elim (find_first (is_row wh v) s.inventory) [
  | none ↦ 0
  | some r ↦ r.stock - r.reserved
]

abbrev pub has_item : (warehouse : ℕ) → Stock → ShipmentItem → Bool
has_item wh s it = elim (find_first (is_row wh it.variant_id) s.inventory) [
  | none ↦ false
  | some r ↦ leb (r.reserved + it.quantity) r.stock
]

-- A part of an order that a warehouse is to ship.
pub record Assignment : Type 0 where
  pub warehouse_id : ℕ
  pub item : ShipmentItem

-- The assignments of an item, and what is left of it.
unfoldable pub assign_item :
    Stock → (variant : ℕ) → (warehouses : List ℕ) → (remaining : ℕ) → List Assignment × ℕ
assign_item s v [] remaining = ([], remaining)
assign_item s v (wh ∷ whs) remaining =
    let taken = min (available wh v s) remaining in
    let (rest, left) = assign_item s v whs (remaining - taken) in
    if remaining == 0 then ([], 0) else if available wh v s == 0 then (rest, left) else (
      record { warehouse_id = wh; item = record { variant_id = v; quantity = taken } } ∷ rest,
      left,
    )

unfoldable pub assign_items :
    Stock → (warehouses : List ℕ) → List ShipmentItem → Result (List Assignment)
assign_items s whs [] = ok []
assign_items s whs (it ∷ its) =
    let (first, left) = assign_item s it.variant_id whs it.quantity in
    if left == 0
    then elim (assign_items s whs its) [ ok rest ↦ ok (first ++ rest) | err e ↦ err e ]
    else err bad_request

pub record Parcel : Type 0 where
  pub warehouse_id : ℕ
  pub items : List ShipmentItem

-- `assignments.get(wh.id)!.push(...)`: a warehouse that is new comes last.
abbrev pub push : Assignment → List Parcel → List Parcel
push a [] = record { warehouse_id = a.warehouse_id; items = a.item ∷ [] } ∷ []
push a (p ∷ ps) =
    if a.warehouse_id == p.warehouse_id
    then record p { items = p.items ++ (a.item ∷ []) } ∷ ps
    else p ∷ push a ps

abbrev pub push_all : List Assignment → List Parcel → List Parcel
push_all [] ps = ps
push_all (a ∷ rest) ps = push_all rest (push a ps)

-- The transaction of a shipment.
unfoldable pub create_shipment : (order warehouse : ℕ) → List ShipmentItem → Action Depot (Unit {0})
create_shipment order wh its d = elim (move_items created wh its d.stock) [
  | err e ↦ (err e, d)
  | ok (u, t) ↦ (
    ok tt,
    record {
      stock = t;
      shipments =
          record {
            id = d.next_shipment;
            status = pending;
            order_id = order;
            warehouse_id = wh;
            items = its;
          }
          ∷ d.shipments;
      next_shipment = d.next_shipment + 1;
    },
  )
]

-- A shipment that fails ends the loop; those before it stay.
unfoldable pub create_shipments : (order : ℕ) → List Parcel → Action Depot (Unit {0})
create_shipments order [] d = (ok tt, d)
create_shipments order (p ∷ ps) d =
    let (answer, d') = create_shipment order p.warehouse_id p.items d in
    let rest = create_shipments order ps d' in elim answer [ ok u ↦ rest | err e ↦ (err e, d') ]

-- The first warehouse that has every item takes the order; otherwise it is split.
unfoldable pub route_order :
    (warehouses : List ℕ) → (order : ℕ) → Option (List ShipmentItem) → Action Depot (Unit {0})
route_order whs order none d = (err not_found, d)
route_order whs order (some its) d = elim (find_first (λ wh. all (has_item wh d.stock) its) whs) [
  | some wh ↦ create_shipment order wh its d
  | none ↦ elim (assign_items d.stock whs its) [
    | err e ↦ (err e, d)
    | ok as_list ↦ create_shipments order (push_all as_list []) d
  ]
]
