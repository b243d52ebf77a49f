-- ===== src/Warehouse.antt =====
-- backend/src/warehouse/warehouse.service.ts: the stock that an administrator sets, and the items
-- of a shipment when it is created, delivered or returned to its warehouse. Each write is followed
-- by a recomputation of the cache on the variant. That a warehouse exists is not asked here.
pub mod Cache
pub mod Routing
pub mod Splitting
pub mod Shipping
mod Tests
use shop_verse.Base.{
  ℕ, ◌+◌, ◌-◌, Bool, true, false, ◌&&◌, Option, none, some, List, [], ◌∷◌, find_first,
  replace_first, leb, ◌==◌, if◌then◌else◌, Result, ok, err, Tx, ◌>>=◌, ◌>>◌, pure,
  foreign_key_violation, check_violation,
}
use shop_verse.Stock.{
  Stock, WarehouseInventory, Variant, is_row, is_variant, update_inventory, update_variant,
}
use shop_verse.Stock.Consistency.{total_stock, total_reserved}

-- UPDATE "Variant" SET both totals to the sums over the warehouses.
unfoldable pub sync_variant_cache : ℕ → Tx Stock Bool
sync_variant_cache v s =
    update_variant v (λ x. leb (total_reserved v s) (total_stock v s))
      (λ x. record x { stock = total_stock v s; reserved_stock = total_reserved v s }) s

-- warehouseInventory.upsert of a stock.
unfoldable pub put_stock : (warehouse variant stock : ℕ) → Tx Stock (Unit {0})
put_stock wh v n s = elim (find_first (is_row wh v) s.inventory) [
  | some r ↦
      if leb r.reserved n
      then ok (
        tt,
        record s { inventory = replace_first (is_row wh v) (record r { stock = n }) s.inventory },
      )
      else err check_violation
  | none ↦ elim (find_first (is_variant v) s.variants) [
    | none ↦ err foreign_key_violation
    | some x ↦ ok (
      tt,
      record s {
        inventory =
            record { warehouse_id = wh; variant_id = v; stock = n; reserved = 0 } ∷ s.inventory;
      },
    )
  ]
]

unfoldable pub set_inventory : (warehouse variant stock : ℕ) → Tx Stock Bool
set_inventory wh v n = put_stock wh v n >> sync_variant_cache v

-- What happens to the items of a shipment.
pub data ShipmentStep : Type 0 where
  created delivered returned : ShipmentStep

pub record ShipmentItem : Type 0 where
  pub variant_id : ℕ
  pub quantity : ℕ

-- The CHECK constraints: nothing is negative and no more is reserved than in stock.
abbrev pub allows : ShipmentStep → ℕ → WarehouseInventory → Bool
allows created q r = leb (r.reserved + q) r.stock
allows delivered q r = leb q r.reserved && leb q r.stock && leb (r.reserved - q) (r.stock - q)
allows returned q r = leb q r.reserved && leb (r.reserved - q) (r.stock + q)

abbrev pub moved : ShipmentStep → ℕ → WarehouseInventory → WarehouseInventory
moved created q r = record r { reserved = r.reserved + q }
moved delivered q r = record r { stock = r.stock - q; reserved = r.reserved - q }
moved returned q r = record r { stock = r.stock + q; reserved = r.reserved - q }

abbrev pub any_row : WarehouseInventory → Bool
any_row r = true

unfoldable pub move_item : ShipmentStep → ℕ → ShipmentItem → Tx Stock Bool
move_item step wh it =
    update_inventory wh it.variant_id any_row (allows step it.quantity) (moved step it.quantity)
    >> sync_variant_cache it.variant_id

unfoldable pub move_items : ShipmentStep → ℕ → List ShipmentItem → Tx Stock (Unit {0})
move_items step wh [] = pure tt
move_items step wh (it ∷ its) = move_item step wh it >> move_items step wh its
