-- ===== src/Warehouse/Cache.antt =====
-- The cache on a variant after the writes of backend/src/warehouse/warehouse.service.ts.
use shop_verse.Base.{
  ap, ◌∙◌, ℕ, ◌≡◌, refl, Bool, true, false, Option, none, some, List, [], ◌∷◌, find_first,
  replace_first, All, leb, ◌==◌, arith, ok, inl, inr, subst, sym, Option-cases, Bool-cases,
  Result-cases, find_first-test, sum_by-replace_first, All-replace_first,
}
use shop_verse.Stock.{Stock, WarehouseInventory, Variant, is_row, is_variant}
use shop_verse.Stock.Consistency.{
  IsConsistent, IsWithin, IsCache, total_stock, total_reserved, stock_of, reserved_of,
  find_first-replace_first,
}
use shop_verse.Warehouse.{
  sync_variant_cache, put_stock, set_inventory, ShipmentStep, ShipmentItem, created, delivered,
  returned, allows, moved, move_item, move_items,
}

-- The tables are consistent but for the cache of one variant.
pub record IsConsistentBut (v : ℕ) (s : Stock) : Type 0 where
  pub within : All IsWithin s.inventory
  pub cached : (u : ℕ) → (u == v) ≡ false → IsCache s u (find_first (is_variant u) s.variants)

unsynced-IsCache :
    (v u : ℕ) (s : Stock)
    → find_first (is_variant v) s.variants ≡ none
    → u ≡ v
    → IsCache s u (find_first (is_variant u) s.variants)
unsynced-IsCache v u s n e =
    subst (λ w. IsCache s w (find_first (is_variant w) s.variants)) (sym e)
      (subst (IsCache s v) (sym n) tt)

-- The row with the sums.
abbrev synced : ℕ → Stock → Variant → Variant
synced v s x = record x { stock = total_stock v s; reserved_stock = total_reserved v s }

abbrev put_variant : ℕ → Stock → Variant → Stock
put_variant v s x = record s { variants = replace_first (is_variant v) (synced v s x) s.variants }

synced-IsCache :
    (v u : ℕ) (s : Stock) (x : Variant)
    → IsConsistentBut v s
    → find_first (is_variant v) s.variants ≡ some x
    → IsCache (put_variant v s x) u (find_first (is_variant u) (put_variant v s x).variants)
synced-IsCache v u s x h f =
    let id_is : x.id ≡ v = ground (arith, find_first-test (is_variant v) s.variants x f) in
    let reads = find_first-replace_first u v (synced v s x) x s.variants f id_is in
    elim (Bool-cases (u == v)) [
      | inl same ↦
          let e : u ≡ v = ground (arith, same) in
          subst (IsCache (put_variant v s x) u) (sym (rw same at reads))
            (ap (λ w. total_stock w s) (sym e), ap (λ w. total_reserved w s) (sym e))
      | inr other ↦
          subst (IsCache (put_variant v s x) u) (sym (rw other at reads)) (h.cached u other)
    ]

sync-IsConsistent :
    (v : ℕ) (s s' : Stock) (b : Bool)
    → IsConsistentBut v s
    → sync_variant_cache v s ≡ ok (b, s')
    → IsConsistent s'
unfolding sync_variant_cache
sync-IsConsistent v s s' b h e = elim (Option-cases (find_first (is_variant v) s.variants)) [
  | inl n ↦
      let kept : IsConsistent s = record {
        within = h.within;
        cached = λ u. elim (Bool-cases (u == v)) [
          | inl same ↦ unsynced-IsCache v u s n (ground (arith, same))
          | inr other ↦ h.cached u other
        ];
      } in
      subst IsConsistent (ground arith) kept
  | inr (x, f) ↦ elim (Bool-cases (leb (total_reserved v s) (total_stock v s))) [
    | inr broken ↦ ground arith
    | inl fits ↦
        let made : IsConsistent (put_variant v s x) = record {
          within = h.within;
          cached = λ u. synced-IsCache v u s x h f;
        } in
        subst IsConsistent (ground arith) made
  ]
]

unmoved-IsCache :
    (u : ℕ) (s s' : Stock) (o : Option Variant)
    → total_stock u s' ≡ total_stock u s
    → total_reserved u s' ≡ total_reserved u s
    → IsCache s u o
    → IsCache s' u o
unmoved-IsCache u s s' none a b h = tt
unmoved-IsCache u s s' (some x) a b (h, k) = (h ∙ sym a, k ∙ sym b)

-- A row of the variant that is written within its constraint leaves the other variants' caches.
written-IsConsistentBut :
    (wh v : ℕ) (r y : WarehouseInventory) (s : Stock)
    → IsConsistentBut v s
    → find_first (is_row wh v) s.inventory ≡ some r
    → IsWithin y
    → y.variant_id ≡ r.variant_id
    → IsConsistentBut v (record s { inventory = replace_first (is_row wh v) y s.inventory })
written-IsConsistentBut wh v r y s c f w same = record {
  within = All-replace_first IsWithin (is_row wh v) y s.inventory c.within w;
  cached = λ u other.
      unmoved-IsCache u s (record s { inventory = replace_first (is_row wh v) y s.inventory })
        (find_first (is_variant u) s.variants)
        (ground (
          arith,
          find_first-test (is_row wh v) s.inventory r f,
          sum_by-replace_first (stock_of u) (is_row wh v) y s.inventory r f,
        ))
        (ground (
          arith,
          find_first-test (is_row wh v) s.inventory r f,
          sum_by-replace_first (reserved_of u) (is_row wh v) y s.inventory r f,
        ))
        (c.cached u other);
}

but : {s : Stock} → IsConsistent s → (v : ℕ) → IsConsistentBut v s
but c v = record { within = c.within; cached = λ u o. c.cached u }

moved-IsWithin :
    (step : ShipmentStep) (q : ℕ) (r : WarehouseInventory)
    → allows step q r ≡ true
    → IsWithin (moved step q r)
moved-IsWithin created q r h = ground arith
moved-IsWithin delivered q r h = ground arith
moved-IsWithin returned q r h = ground arith

moved_variant :
    (step : ShipmentStep) (q : ℕ) (r : WarehouseInventory)
    → (moved step q r).variant_id ≡ r.variant_id
moved_variant created q r = refl
moved_variant delivered q r = refl
moved_variant returned q r = refl

move_item-IsConsistent :
    (step : ShipmentStep) (wh : ℕ) (it : ShipmentItem) (s s' : Stock) (b : Bool)
    → IsConsistent s
    → move_item step wh it s ≡ ok (b, s')
    → IsConsistent s'
unfolding move_item
move_item-IsConsistent step wh it s s' b c e =
    let v : ℕ = it.variant_id in
    elim (Option-cases (find_first (is_row wh v) s.inventory)) [
      | inl n ↦ sync-IsConsistent v s s' b (but c v) (ground arith)
      | inr (r, f) ↦ elim (Bool-cases (allows step it.quantity r)) [
        | inr broken ↦ ground arith
        | inl fits ↦
            let y : WarehouseInventory = moved step it.quantity r in
            sync-IsConsistent v (record s { inventory = replace_first (is_row wh v) y s.inventory })
              s' b
              (written-IsConsistentBut wh v r y s (but c v) f
                (moved-IsWithin step it.quantity r fits) (moved_variant step it.quantity r))
              (ground arith)
      ]
    ]

-- When the items of a shipment are created, delivered or returned, tables that are consistent stay
-- so: no row has more reserved than in stock, and each cached total on a variant is the sum over
-- its warehouse rows.
pub move_items-IsConsistent :
    (step : ShipmentStep) (wh : ℕ) (items : List ShipmentItem) (s s' : Stock) (u : Unit {0})
    → IsConsistent s
    → move_items step wh items s ≡ ok (u, s')
    → IsConsistent s'
unfolding move_items
move_items-IsConsistent step wh [] s s' u c e = subst IsConsistent (ground arith) c
move_items-IsConsistent step wh (it ∷ its) s s' u c e =
    elim (Result-cases (move_item step wh it s)) [
      | inr (x, v) ↦ ground arith
      | inl ((b, t), v) ↦
          move_items-IsConsistent step wh its t s' u (move_item-IsConsistent step wh it s t b c v)
            (ground arith)
    ]

-- To set the stock of a variant in a warehouse gives consistent tables, also where the cache on
-- that variant was not the sum over its rows before.
pub set_inventory_repairs :
    (wh v n : ℕ) (s s' : Stock) (b : Bool)
    → IsConsistentBut v s
    → set_inventory wh v n s ≡ ok (b, s')
    → IsConsistent s'
unfolding set_inventory put_stock
set_inventory_repairs wh v n s s' b c e =
    elim (Option-cases (find_first (is_row wh v) s.inventory)) [
      | inr (r, f) ↦ elim (Bool-cases (leb r.reserved n)) [
        | inr broken ↦ ground arith
        | inl fits ↦
            let y : WarehouseInventory = record r { stock = n } in
            sync-IsConsistent v (record s { inventory = replace_first (is_row wh v) y s.inventory })
              s' b (written-IsConsistentBut wh v r y s c f (ground arith) refl) (ground arith)
      ]
      | inl none_yet ↦ elim (Option-cases (find_first (is_variant v) s.variants)) [
        | inl unknown ↦ ground arith
        | inr (x, f) ↦
            let y : WarehouseInventory = record {
              warehouse_id = wh;
              variant_id = v;
              stock = n;
              reserved = 0;
            } in
            let s1 : Stock = record s { inventory = y ∷ s.inventory } in
            sync-IsConsistent v s1 s' b
              (record {
                within = (omega arith, c.within);
                cached = λ u other.
                    unmoved-IsCache u s s1 (find_first (is_variant u) s.variants) (ground arith)
                      (ground arith) (c.cached u other);
              })
              (ground arith)
      ]
    ]
