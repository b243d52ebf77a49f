-- ===== src/Inventory/Movements.antt =====
-- The movements of backend/src/inventory/inventory.service.ts keep the stock tables consistent.
use shop_verse.Base.{
  ℕ, ◌+◌, ◌-◌, ◌≤◌, ◌≡◌, true, some, find_first, arith, ok, inl, inr, Option-cases, All-find_first,
  find_first-test, le-sum_by,
}
use shop_verse.Stock.{Stock, WarehouseInventory, Variant, is_row, is_variant}
use shop_verse.Stock.Consistency.{
  IsConsistent, IsWithin, IsCache, reserved_of, replace-IsConsistent, replace_uncached-IsConsistent,
}
use shop_verse.Inventory.{reserve_backorder, reserve_sellable, release_row, commit_row, restock_row}

-- What is known of the row and of the cache that a movement finds.
pub row_facts :
    (wh v : ℕ) (s : Stock) (r : WarehouseInventory)
    → IsConsistent s
    → find_first (is_row wh v) s.inventory ≡ some r
    → (is_row wh v r ≡ true) × IsWithin r
row_facts wh v s r c er = (
  find_first-test (is_row wh v) s.inventory r er,
  All-find_first IsWithin (is_row wh v) s.inventory r er c.within,
)

-- The movements of a row that is there.
module _ (wh v qty : ℕ) (s s' : Stock) (r : WarehouseInventory) (c : IsConsistent s)
    (er : find_first (is_row wh v) s.inventory ≡ some r) where
  pub reserve_sellable-IsConsistent : reserve_sellable wh v qty s ≡ ok (tt, s') → IsConsistent s'
  unfolding reserve_sellable
  reserve_sellable-IsConsistent h =
      let y : WarehouseInventory = record r { reserved = r.reserved + qty } in
      elim (Option-cases (find_first (is_variant v) s.variants)) [
        | inl ex ↦
            ground
              (arith, row_facts wh v s r c er, replace_uncached-IsConsistent wh v r y s c er ex)
        | inr (x, ex) ↦
            let z : Variant = record x { reserved_stock = x.reserved_stock + qty } in
            ground (
              arith,
              row_facts wh v s r c er,
              find_first-test (is_variant v) s.variants x ex,
              replace-IsConsistent wh v r y x z s c er ex,
            )
      ]

  pub reserve_backorder-IsConsistent : reserve_backorder wh v qty s ≡ ok (tt, s') → IsConsistent s'
  unfolding reserve_backorder
  reserve_backorder-IsConsistent h =
      let y : WarehouseInventory = record r {
        stock = r.stock + qty;
        reserved = r.reserved + qty;
      } in
      elim (Option-cases (find_first (is_variant v) s.variants)) [
        | inl ex ↦
            ground
              (arith, row_facts wh v s r c er, replace_uncached-IsConsistent wh v r y s c er ex)
        | inr (x, ex) ↦
            let z : Variant = record x {
              stock = x.stock + qty;
              reserved_stock = x.reserved_stock + qty;
            } in
            ground (
              arith,
              row_facts wh v s r c er,
              find_first-test (is_variant v) s.variants x ex,
              replace-IsConsistent wh v r y x z s c er ex,
            )
      ]

  -- The cache of the variant holds at least what is reserved in the row.
  pub cache_covers :
      (x : Variant) → find_first (is_variant v) s.variants ≡ some x → r.reserved ≤ x.reserved_stock
  cache_covers x ex =
      let cached : IsCache s v (some x) = rw ex at (c.cached v) in
      ground (
        arith,
        cached,
        row_facts wh v s r c er,
        le-sum_by (reserved_of v) (is_row wh v) s.inventory r er,
      )

  pub release_row-IsConsistent :
      qty ≤ r.reserved → release_row wh v qty s ≡ ok (tt, s') → IsConsistent s'
  unfolding release_row
  release_row-IsConsistent g h =
      let y : WarehouseInventory = record r { reserved = r.reserved - qty } in
      elim (Option-cases (find_first (is_variant v) s.variants)) [
        | inl ex ↦
            ground
              (arith, row_facts wh v s r c er, replace_uncached-IsConsistent wh v r y s c er ex)
        | inr (x, ex) ↦
            let z : Variant = record x { reserved_stock = x.reserved_stock - qty } in
            ground (
              arith,
              row_facts wh v s r c er,
              find_first-test (is_variant v) s.variants x ex,
              cache_covers x ex,
              replace-IsConsistent wh v r y x z s c er ex,
            )
      ]

  pub commit_row-IsConsistent : commit_row wh v qty s ≡ ok (tt, s') → IsConsistent s'
  unfolding commit_row
  commit_row-IsConsistent h =
      let y : WarehouseInventory = record r {
        stock = r.stock - qty;
        reserved = r.reserved - qty;
      } in
      elim (Option-cases (find_first (is_variant v) s.variants)) [
        | inl ex ↦
            ground
              (arith, row_facts wh v s r c er, replace_uncached-IsConsistent wh v r y s c er ex)
        | inr (x, ex) ↦
            let z : Variant = record x {
              stock = x.stock - qty;
              reserved_stock = x.reserved_stock - qty;
              sold_count = x.sold_count + qty;
            } in
            ground (
              arith,
              row_facts wh v s r c er,
              find_first-test (is_variant v) s.variants x ex,
              replace-IsConsistent wh v r y x z s c er ex,
            )
      ]

  pub restock_row-IsConsistent : restock_row wh v qty s ≡ ok (tt, s') → IsConsistent s'
  unfolding restock_row
  restock_row-IsConsistent h =
      let y : WarehouseInventory = record r { stock = r.stock + qty } in
      elim (Option-cases (find_first (is_variant v) s.variants)) [
        | inl ex ↦
            ground
              (arith, row_facts wh v s r c er, replace_uncached-IsConsistent wh v r y s c er ex)
        | inr (x, ex) ↦
            let z : Variant = record x { stock = x.stock + qty } in
            ground (
              arith,
              row_facts wh v s r c er,
              find_first-test (is_variant v) s.variants x ex,
              replace-IsConsistent wh v r y x z s c er ex,
            )
      ]
