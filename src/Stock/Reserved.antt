-- ===== src/Stock/Reserved.antt =====
-- The reserved quantity of a variant in a warehouse, under the movements of its row.
use shop_verse.Base.{
  ℕ, ◌≡◌, refl, true, false, ◌&&◌, none, some, List, [], ◌∷◌, find_first, replace_first,
  find_first-replace_first_self, arith, ok, ◌==◌, if◌then◌else◌,
}
use shop_verse.Stock.{Stock, WarehouseInventory, is_row, ensure_row}

abbrev pub reserved_at : ℕ → ℕ → Stock → ℕ
reserved_at wh v s = elim (find_first (is_row wh v) s.inventory) [ none ↦ 0 | some r ↦ r.reserved ]

-- The row of another key is not touched.
find_first-replace_first_ne :
    (a u wh v : ℕ) (y : WarehouseInventory) (xs : List WarehouseInventory)
    → is_row wh v y ≡ true
    → (a == wh && u == v) ≡ false
    → find_first (is_row a u) (replace_first (is_row wh v) y xs) ≡ find_first (is_row a u) xs
find_first-replace_first_ne a u wh v y [] t n = refl
find_first-replace_first_ne a u wh v y (x ∷ xs) t n =
    ground (arith, find_first-replace_first_ne a u wh v y xs t n)

-- What a lookup finds after the row of (`wh`, `v`) was given anew.
pub reserved_at-replace_first :
    (a u wh v : ℕ) (y r : WarehouseInventory) (s : Stock)
    → find_first (is_row wh v) s.inventory ≡ some r
    → is_row wh v y ≡ true
    → reserved_at a u (record s { inventory = replace_first (is_row wh v) y s.inventory })
      ≡ (if a == wh && u == v then y.reserved else reserved_at a u s)
reserved_at-replace_first a u wh v y r s e t = ground (
  arith,
  find_first-replace_first_ne a u wh v y s.inventory t,
  find_first-replace_first_self (is_row wh v) y s.inventory r e t,
)

pub reserved_at-ensure_row :
    (a u wh v : ℕ) (s s' : Stock)
    → ensure_row wh v s ≡ ok (tt, s')
    → reserved_at a u s' ≡ reserved_at a u s
unfolding ensure_row
reserved_at-ensure_row a u wh v s s' h = ground arith
