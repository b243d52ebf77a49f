-- ===== src/Stock/Consistency.antt =====
-- The invariants of the stock tables: the CHECK constraints on every row, and I-1, the cache on a
-- variant is the sum of its warehouse rows.
use shop_verse.Base.{
  ℕ, ◌+◌, ◌≤◌, ◌≡◌, Option, none, some, List, [], ◌∷◌, find_first, replace_first, sum_by, All, ◌==◌,
  if◌then◌else◌, arith, sum_by-replace_first, All-replace_first, find_first-test, ok, inl, inr,
  subst, Option-cases,
}
use shop_verse.Stock.{Stock, WarehouseInventory, Variant, is_row, is_variant, ensure_row}

abbrev pub stock_of : ℕ → WarehouseInventory → ℕ
stock_of v r = if v == r.variant_id then r.stock else 0

abbrev pub reserved_of : ℕ → WarehouseInventory → ℕ
reserved_of v r = if v == r.variant_id then r.reserved else 0

abbrev pub total_stock : ℕ → Stock → ℕ
total_stock v s = sum_by (stock_of v) s.inventory

abbrev pub total_reserved : ℕ → Stock → ℕ
total_reserved v s = sum_by (reserved_of v) s.inventory

abbrev pub IsWithin : WarehouseInventory → Type 0
IsWithin r = r.reserved ≤ r.stock

-- The cached totals on the row of variant `v`, if there is one, are the sums over the warehouses.
abbrev pub IsCache : Stock → ℕ → Option Variant → Type 0
IsCache s v none = Unit
IsCache s v (some x) = (x.stock ≡ total_stock v s) × (x.reserved_stock ≡ total_reserved v s)

pub record IsConsistent (s : Stock) : Type 0 where
  pub within : All IsWithin s.inventory
  pub cached : (v : ℕ) → IsCache s v (find_first (is_variant v) s.variants)

pub find_first-replace_first :
    (u v : ℕ) (y r : Variant) (xs : List Variant)
    → find_first (is_variant v) xs ≡ some r
    → y.id ≡ v
    → find_first (is_variant u) (replace_first (is_variant v) y xs)
      ≡ (if u == v then some y else find_first (is_variant u) xs)
find_first-replace_first u v y r [] h e = ground arith
find_first-replace_first u v y r (x ∷ xs) h e = ground (arith, find_first-replace_first u v y r xs)

pub within-total :
    (v : ℕ) (xs : List WarehouseInventory)
    → All IsWithin xs
    → sum_by (reserved_of v) xs ≤ sum_by (stock_of v) xs
within-total v [] h = omega arith
within-total v (x ∷ xs) (h, hs) = ground (arith, within-total v xs hs)

-- A write of one warehouse row and the same write of its variant's cache keep the tables
-- consistent.
pub replace-IsConsistent :
    (wh v : ℕ) (r y : WarehouseInventory) (x z : Variant) (s : Stock)
    → IsConsistent s
    → find_first (is_row wh v) s.inventory ≡ some r
    → find_first (is_variant v) s.variants ≡ some x
    → IsWithin y
    → y.variant_id ≡ v
    → z.id ≡ v
    → z.stock + r.stock ≡ x.stock + y.stock
    → z.reserved_stock + r.reserved ≡ x.reserved_stock + y.reserved
    → IsConsistent (record s {
      inventory = replace_first (is_row wh v) y s.inventory;
      variants = replace_first (is_variant v) z s.variants;
    })
replace-IsConsistent wh v r y x z s c er ex wy vy vz hs hr = record {
  within = All-replace_first IsWithin (is_row wh v) y s.inventory c.within wy;
  cached = λ u. ground (
    arith,
    c.cached u,
    find_first-test (is_row wh v) s.inventory r er,
    find_first-replace_first u v z x s.variants ex vz,
    sum_by-replace_first (stock_of u) (is_row wh v) y s.inventory r er,
    sum_by-replace_first (reserved_of u) (is_row wh v) y s.inventory r er,
  );
}

-- The same where the variant has no row, so that there is no cache to write.
pub replace_uncached-IsConsistent :
    (wh v : ℕ) (r y : WarehouseInventory) (s : Stock)
    → IsConsistent s
    → find_first (is_row wh v) s.inventory ≡ some r
    → find_first (is_variant v) s.variants ≡ none
    → IsWithin y
    → y.variant_id ≡ v
    → IsConsistent (record s { inventory = replace_first (is_row wh v) y s.inventory })
replace_uncached-IsConsistent wh v r y s c er ex wy vy = record {
  within = All-replace_first IsWithin (is_row wh v) y s.inventory c.within wy;
  cached = λ u. elim (Option-cases (find_first (is_variant u) s.variants)) [
    | inl e ↦ rw e tt
    | inr (x, e) ↦ ground (
      arith,
      c.cached u,
      e,
      find_first-test (is_row wh v) s.inventory r er,
      find_first-test (is_variant u) s.variants x e,
      sum_by-replace_first (stock_of u) (is_row wh v) y s.inventory r er,
      sum_by-replace_first (reserved_of u) (is_row wh v) y s.inventory r er,
    )
  ];
}

abbrev pub with_row : ℕ → ℕ → Stock → Stock
with_row wh v s = record s {
  inventory = record { warehouse_id = wh; variant_id = v; stock = 0; reserved = 0 } ∷ s.inventory;
}

new_row-IsConsistent : (wh v : ℕ) (s : Stock) → IsConsistent s → IsConsistent (with_row wh v s)
new_row-IsConsistent wh v s c = record {
  within = (omega arith, c.within);
  cached = λ u. elim (Option-cases (find_first (is_variant u) s.variants)) [
    | inl e ↦ rw e tt
    | inr (x, e) ↦ ground (arith, c.cached u, e)
  ];
}

-- A new row holds nothing.
pub ensure_row-IsConsistent :
    (wh v : ℕ) (s s' : Stock) → IsConsistent s → ensure_row wh v s ≡ ok (tt, s') → IsConsistent s'
unfolding ensure_row
ensure_row-IsConsistent wh v s s' c h = elim (Option-cases (find_first (is_row wh v) s.inventory)) [
  | inl e ↦ elim (Option-cases (find_first (is_variant v) s.variants)) [
    | inl ex ↦ ground arith
    | inr (x, ex) ↦ subst IsConsistent (ground arith) (new_row-IsConsistent wh v s c)
  ]
  | inr (r, e) ↦ subst IsConsistent (ground arith) c
]

-- After it the row is there, and so is the warehouse that was the default one.
pub ensure_row-finds :
    (wh v : ℕ) (s s' : Stock)
    → ensure_row wh v s ≡ ok (tt, s')
    → (r : WarehouseInventory) × (find_first (is_row wh v) s'.inventory ≡ some r)
      × (s'.default_warehouse ≡ s.default_warehouse)
unfolding ensure_row
ensure_row-finds wh v s s' h = elim (Option-cases (find_first (is_row wh v) s.inventory)) [
  | inl e ↦ (
    record { warehouse_id = wh; variant_id = v; stock = 0; reserved = 0 },
    ground arith,
    ground arith,
  )
  | inr (r, e) ↦ (r, ground arith, ground arith)
]

-- The cache of a variant obeys its CHECK constraint.
pub cache_within :
    (v : ℕ) (s : Stock) (x : Variant)
    → IsConsistent s
    → find_first (is_variant v) s.variants ≡ some x
    → x.reserved_stock ≤ x.stock
cache_within v s x c ex =
    let cached : IsCache s v (some x) = rw ex at (c.cached v) in
    omega (arith, cached, within-total v s.inventory c.within)
