-- ===== src/Stock.antt =====
-- The two stock tables, `WarehouseInventory` and `Variant` (prisma/schema/main.prisma), as the
-- services' SQL statements read and write them. Rows are selected by a unique key, so a statement
-- changes at most one row; the CHECK constraints of
-- prisma/schema/migrations/20260405120100_final_constraints_and_seeds/migration.sql are a test of
-- each write. Quantities are numbers that are not negative: the constraints hold them so, and a
-- subtraction is written where its test has shown that it does not go below zero.
pub mod Consistency
pub mod Reserved
use shop_verse.Base.{
  ℕ, ◌+◌, ◌-◌, ◌≤◌, ◌≡◌, Bool, true, false, ◌&&◌, Option, none, some, List, [], ◌∷◌, find_first,
  replace_first, leb, ◌==◌, if◌then◌else◌, Result, ok, err, Tx, foreign_key_violation,
  check_violation, fault,
}

pub record WarehouseInventory : Type 0 where
  pub warehouse_id : ℕ
  pub variant_id : ℕ
  pub stock : ℕ
  pub reserved : ℕ

pub record Variant : Type 0 where
  pub id : ℕ
  pub stock : ℕ
  pub reserved_stock : ℕ
  pub sold_count : ℕ
  pub backorder_allowed : Bool

-- `default_warehouse` is the id of the row of `Warehouse` with code DEFAULT.
pub record Stock : Type 0 where
  pub inventory : List WarehouseInventory
  pub variants : List Variant
  pub default_warehouse : Option ℕ

abbrev pub is_row : ℕ → ℕ → WarehouseInventory → Bool
is_row wh v r = wh == r.warehouse_id && v == r.variant_id

abbrev pub is_variant : ℕ → Variant → Bool
is_variant v r = v == r.id

-- The resolved id is cached by the services; the row of the DEFAULT warehouse is never removed.
unfoldable pub get_default_warehouse_id : Tx Stock ℕ
get_default_warehouse_id s = elim s.default_warehouse [ none ↦ err fault | some wh ↦ ok (wh, s) ]

-- INSERT … ON CONFLICT DO NOTHING. The variant is a foreign key.
unfoldable pub ensure_row : ℕ → ℕ → Tx Stock (Unit {0})
ensure_row wh v s = elim (find_first (is_row wh v) s.inventory) [
  | some r ↦ ok (tt, s)
  | none ↦ elim (find_first (is_variant v) s.variants) [
    | none ↦ err foreign_key_violation
    | some x ↦ ok (
      tt,
      record s {
        inventory =
            record { warehouse_id = wh; variant_id = v; stock = 0; reserved = 0 } ∷ s.inventory;
      },
    )
  ]
]

-- UPDATE "WarehouseInventory" SET … WHERE the key AND `cond`; the answer says whether a row was
-- changed. `check` is the CHECK constraint on the row that `set` gives.
abbrev pub update_inventory :
    ℕ
    → ℕ
    → (WarehouseInventory → Bool)
    → (WarehouseInventory → Bool)
    → (WarehouseInventory → WarehouseInventory)
    → Tx Stock Bool
update_inventory wh v cond check set s = elim (find_first (is_row wh v) s.inventory) [
  | none ↦ ok (false, s)
  | some r ↦
      if cond r
      then (if check r
          then ok (true, record s { inventory = replace_first (is_row wh v) (set r) s.inventory })
          else err check_violation)
      else ok (false, s)
]

-- UPDATE "Variant" SET … WHERE id = `v`.
abbrev pub update_variant : ℕ → (Variant → Bool) → (Variant → Variant) → Tx Stock Bool
update_variant v check set s = elim (find_first (is_variant v) s.variants) [
  | none ↦ ok (false, s)
  | some r ↦
      if check r
      then ok (true, record s { variants = replace_first (is_variant v) (set r) s.variants })
      else err check_violation
]
