-- ===== src/Inventory/Effects.antt =====
-- What a reservation and a release of backend/src/inventory/inventory.service.ts do to the tables.
use shop_verse.Base.{
  ℕ, ◌+◌, ◌-◌, ◌≤◌, ◌<◌, ◌≡◌, false, some, List, find_first, replace_first, arith, ok, err, leb,
  if◌then◌else◌, bad_request, find_first-test, le-sum_by, sum_by-replace_first, All-replace_first,
  find_first-replace_first_self, replace_first-replace_first,
}
use shop_verse.Stock.{
  Stock, WarehouseInventory, Variant, is_row, is_variant, ensure_row, get_default_warehouse_id,
}
use shop_verse.Stock.Consistency.{
  IsConsistent, IsWithin, IsCache, total_reserved, reserved_of, stock_of, within-total,
}
use shop_verse.Inventory.{reserve, release, reserve_sellable, release_row}
use shop_verse.Inventory.Movements.{row_facts}

module _ (wh v qty : ℕ) (s : Stock) (r : WarehouseInventory) (x : Variant) (c : IsConsistent s)
    (d : s.default_warehouse ≡ some wh) (er : find_first (is_row wh v) s.inventory ≡ some r)
    (ex : find_first (is_variant v) s.variants ≡ some x) (pos : 0 < qty) where
  abbrev row_after : WarehouseInventory
  row_after = record r { reserved = r.reserved + qty }

  abbrev variant_after : Variant
  variant_after = record x { reserved_stock = x.reserved_stock + qty }

  abbrev after_reserve : Stock
  after_reserve = record s {
    inventory = replace_first (is_row wh v) row_after s.inventory;
    variants = replace_first (is_variant v) variant_after s.variants;
  }

  -- With room in the row there is room in the cache.
  cache_has_room : r.reserved + qty ≤ r.stock → x.reserved_stock + qty ≤ x.stock
  cache_has_room h =
      let rows : List WarehouseInventory = replace_first (is_row wh v) row_after s.inventory in
      let cached : IsCache s v (some x) = rw ex at (c.cached v) in
      ground (
        arith,
        cached,
        find_first-test (is_row wh v) s.inventory r er,
        sum_by-replace_first (reserved_of v) (is_row wh v) row_after s.inventory r er,
        sum_by-replace_first (stock_of v) (is_row wh v) row_after s.inventory r er,
        within-total v rows
            (All-replace_first IsWithin (is_row wh v) row_after s.inventory c.within h),
      )

  -- On consistent tables a reservation of a positive quantity, without backorder, of a variant with
  -- a row in the DEFAULT warehouse succeeds exactly if the row has that much unreserved stock; it
  -- then adds the quantity to the row and to the cache, and otherwise it is a bad request. No CHECK
  -- constraint fails.
  pub reserve_outcome :
      reserve v qty false s
      ≡ (if leb (r.reserved + qty) r.stock then ok (tt, after_reserve) else err bad_request)
  unfolding reserve reserve_sellable get_default_warehouse_id ensure_row
  reserve_outcome = ground (arith, cache_has_room)

  -- A release of what was just reserved restores the tables.
  pub release-reserve :
      r.reserved + qty ≤ r.stock
      → (reserve v qty false s ≡ ok (tt, after_reserve))
        × (release v qty after_reserve ≡ ok (tt, s))
  unfolding release release_row get_default_warehouse_id
  release-reserve h = (
    ground (arith, reserve_outcome),
    ground (
      arith,
      cache_has_room h,
      find_first-test (is_row wh v) s.inventory r er,
      find_first-test (is_variant v) s.variants x ex,
      find_first-replace_first_self (is_row wh v) row_after s.inventory r er,
      find_first-replace_first_self (is_variant v) variant_after s.variants x ex,
      replace_first-replace_first (is_row wh v) row_after s.inventory r er,
      replace_first-replace_first (is_variant v) variant_after s.variants x ex,
    ),
  )

  -- A release of more than the row of the DEFAULT warehouse has reserved, while other warehouses
  -- hold reservations of the variant too, succeeds and leaves a cache that is not the sum.
  pub release_drifts :
      (s' : Stock)
      → r.reserved < qty
      → r.reserved < total_reserved v s
      → release v qty s ≡ ok (tt, s')
      → ¬ IsConsistent s'
  unfolding release release_row get_default_warehouse_id
  release_drifts s' over others h c' =
      let cached : IsCache s v (some x) = rw ex at (c.cached v) in
      let y : WarehouseInventory = record r { reserved = r.reserved - qty } in
      let z : Variant = record x { reserved_stock = x.reserved_stock - qty } in
      ground (
        arith,
        cached,
        c'.cached v,
        row_facts wh v s r c er,
        find_first-test (is_variant v) s.variants x ex,
        find_first-replace_first_self (is_variant v) z s.variants x ex,
        sum_by-replace_first (reserved_of v) (is_row wh v) y s.inventory r er,
        le-sum_by (reserved_of v) (is_row wh v) s.inventory r er,
      )
