-- ===== src/Inventory.antt =====
-- backend/src/inventory/inventory.service.ts: every movement of stock, inside the caller's
-- transaction. A quantity is at least 0 (the callers' DTOs see to it), so `qty <= 0` is `qty = 0`.
pub mod Movements
pub mod Invariant
pub mod Effects
mod Tests
use shop_verse.Base.{
  ℕ, ◌+◌, ◌-◌, Bool, true, false, ◌&&◌, not, List, [], ◌∷◌, sum_by, leb, ◌==◌, if◌then◌else◌,
  Result, ok, err, Tx, ◌>>=◌, ◌>>◌, pure, throw_if, bad_request,
}
use shop_verse.Stock.{
  Stock, WarehouseInventory, Variant, get_default_warehouse_id, ensure_row, update_inventory,
  update_variant,
}

abbrev pub always : {A : Type 0} → A → Bool
always r = true

-- The branch of `reserve` for a backorder: the stock grows with the reservation.
unfoldable pub reserve_backorder : ℕ → ℕ → ℕ → Tx Stock (Unit {0})
reserve_backorder wh v qty = do
  update_inventory wh v always (λ r. leb (r.reserved + qty) (r.stock + qty))
      (λ r. record r { stock = r.stock + qty; reserved = r.reserved + qty })
  update_variant v (λ r. leb (r.reserved_stock + qty) (r.stock + qty))
      (λ r. record r { stock = r.stock + qty; reserved_stock = r.reserved_stock + qty })
  pure tt

-- The other branch: conditional on `stock - reserved >= qty`, written as a sum.
unfoldable pub reserve_sellable : ℕ → ℕ → ℕ → Tx Stock (Unit {0})
reserve_sellable wh v qty = do
  done ←
      update_inventory wh v (λ r. leb (r.reserved + qty) r.stock)
        (λ r. leb (r.reserved + qty) r.stock) (λ r. record r { reserved = r.reserved + qty })
  throw_if (not done) bad_request
  update_variant v (λ r. leb (r.reserved_stock + qty) r.stock)
      (λ r. record r { reserved_stock = r.reserved_stock + qty })
  pure tt

unfoldable pub reserve : ℕ → ℕ → Bool → Tx Stock (Unit {0})
reserve v qty allow_backorder = do
  throw_if (leb qty 0) bad_request
  wh ← get_default_warehouse_id
  ensure_row wh v
  if allow_backorder then reserve_backorder wh v qty else reserve_sellable wh v qty

-- `GREATEST(0, x - qty)` is the subtraction of ℕ. A missing row is logged and left.
unfoldable pub release_row : ℕ → ℕ → ℕ → Tx Stock (Unit {0})
release_row wh v qty = do
  done ←
      update_inventory wh v always (λ r. leb (r.reserved - qty) r.stock)
        (λ r. record r { reserved = r.reserved - qty })
  if done
      then update_variant v (λ r. leb (r.reserved_stock - qty) r.stock)
          (λ r. record r { reserved_stock = r.reserved_stock - qty })
      else pure false
  pure tt

unfoldable pub release : ℕ → ℕ → Tx Stock (Unit {0})
release v qty s =
    if leb qty 0 then ok (tt, s) else (get_default_warehouse_id >>= λ wh. release_row wh v qty) s

unfoldable pub commit_row : ℕ → ℕ → ℕ → Tx Stock (Unit {0})
commit_row wh v qty = do
  done ←
      update_inventory wh v (λ r. leb qty r.stock && leb qty r.reserved)
        (λ r. leb (r.reserved - qty) (r.stock - qty))
        (λ r. record r { stock = r.stock - qty; reserved = r.reserved - qty })
  throw_if (not done) bad_request
  update_variant v (λ r. leb qty r.reserved_stock && leb r.reserved_stock r.stock)
      (λ r. record r {
        stock = r.stock - qty;
        reserved_stock = r.reserved_stock - qty;
        sold_count = r.sold_count + qty;
      })
  pure tt

unfoldable pub commit_shipment : ℕ → ℕ → Tx Stock (Unit {0})
commit_shipment v qty s =
    if leb qty 0 then ok (tt, s) else (get_default_warehouse_id >>= λ wh. commit_row wh v qty) s

unfoldable pub restock_row : ℕ → ℕ → ℕ → Tx Stock (Unit {0})
restock_row wh v qty = do
  update_inventory wh v always (λ r. leb r.reserved (r.stock + qty))
      (λ r. record r { stock = r.stock + qty })
  update_variant v (λ r. leb r.reserved_stock (r.stock + qty))
      (λ r. record r { stock = r.stock + qty })
  pure tt

unfoldable pub restock : ℕ → ℕ → Tx Stock (Unit {0})
restock v qty s =
    if leb qty 0
    then ok (tt, s)
    else (do wh ← get_default_warehouse_id; ensure_row wh v; restock_row wh v qty) s

-- The available quantity over all warehouses; each difference is clamped at zero.
unfoldable pub sellable : ℕ → Stock → ℕ
sellable v s = sum_by (λ r. if v == r.variant_id then r.stock - r.reserved else 0) s.inventory
