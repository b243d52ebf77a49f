-- ===== src/Reservation/Release/Items.antt =====
-- The items of a reservation are given back exactly.
use shop_verse.Base.{
  ℕ, ◌-◌, ◌≤◌, ◌≡◌, refl, true, none, some, List, [], ◌∷◌, sum_by, find_first, replace_first,
  replace_first_same, ◌∙◌, find_first-test, arith, ok, inl, inr, Option-cases,
}
use shop_verse.Stock.{Stock, WarehouseInventory, Variant, is_row, is_variant}
use shop_verse.Stock.Consistency.{
  IsConsistent, cache_within, replace-IsConsistent, replace_uncached-IsConsistent,
}
use shop_verse.Stock.Reserved.{reserved_at, reserved_at-replace_first}
use shop_verse.Inventory.Movements.{row_facts, cache_covers}
use shop_verse.Reservation.Tables.{CartReservationItem, quantity_in}
use shop_verse.Reservation.Release.{release_item, release_items}

-- What giving back the items `its` makes of the tables.
pub record IsReleased (its : List CartReservationItem) (s s' : Stock) : Type 0 where
  pub consistent : IsConsistent s'
  pub given_back :
      (wh v : ℕ) → reserved_at wh v s' ≡ reserved_at wh v s - sum_by (quantity_in wh v) its
  pub default_kept : s'.default_warehouse ≡ s.default_warehouse

module _ (it : CartReservationItem) (s : Stock) (c : IsConsistent s) where
  open it use {warehouse_id, variant_id, quantity}

  module _ (r : WarehouseInventory)
      (er : find_first (is_row warehouse_id variant_id) s.inventory ≡ some r)
      (fits : quantity ≤ r.reserved) where
    abbrev y : WarehouseInventory
    y = record r { reserved = r.reserved - quantity }

    row_known : (is_row warehouse_id variant_id r ≡ true) × (r.reserved ≤ r.stock)
    row_known = row_facts warehouse_id variant_id s r c er

    given :
        (a u : ℕ)
        → reserved_at a u
            (record s { inventory = replace_first (is_row warehouse_id variant_id) y s.inventory })
          ≡ reserved_at a u s - sum_by (quantity_in a u) (it ∷ [])
    given a u =
        ground
          (arith, row_known, er, reserved_at-replace_first a u warehouse_id variant_id y r s er)

    release_uncached :
        find_first (is_variant variant_id) s.variants ≡ none
        → (s' : Stock) × (release_item it s ≡ ok (tt, s')) × IsReleased (it ∷ []) s s'
    unfolding release_item
    release_uncached ex = (
      record s { inventory = replace_first (is_row warehouse_id variant_id) y s.inventory },
      ground (arith, row_known),
      record {
        consistent =
            replace_uncached-IsConsistent warehouse_id variant_id r y s c er ex
              (omega (arith, row_known)) (ground (arith, row_known));
        given_back = given;
        default_kept = refl;
      },
    )

    release_cached :
        (x : Variant)
        → find_first (is_variant variant_id) s.variants ≡ some x
        → (s' : Stock) × (release_item it s ≡ ok (tt, s')) × IsReleased (it ∷ []) s s'
    unfolding release_item
    release_cached x ex =
        let z : Variant = record x { reserved_stock = x.reserved_stock - quantity } in
        let covers = cache_covers warehouse_id variant_id 0 s s r c er x ex in
        (
          record s {
            inventory = replace_first (is_row warehouse_id variant_id) y s.inventory;
            variants = replace_first (is_variant variant_id) z s.variants;
          },
          ground (arith, row_known, cache_within variant_id s x c ex),
          record {
            consistent =
                replace-IsConsistent warehouse_id variant_id r y x z s c er ex
                  (omega (arith, row_known)) (ground (arith, row_known))
                  (ground (arith, find_first-test (is_variant variant_id) s.variants x ex)) refl
                  (omega (arith, covers));
            given_back = given;
            default_kept = refl;
          },
        )

  release_nothing :
      find_first (is_row warehouse_id variant_id) s.inventory ≡ none
      → quantity ≡ 0
      → (s' : Stock) × (release_item it s ≡ ok (tt, s')) × IsReleased (it ∷ []) s s'
  unfolding release_item
  release_nothing er z = (
    s,
    elim (Option-cases (find_first (is_variant variant_id) s.variants)) [
      | inl ex ↦ ground arith
      | inr (x, ex) ↦ ground (
        arith,
        cache_within variant_id s x c ex,
        replace_first_same (is_variant variant_id) s.variants x ex,
      )
    ],
    record { consistent = c; given_back = λ a u. ground arith; default_kept = refl },
  )

  -- An item whose quantity is reserved in its row is given back, on consistent tables, without an
  -- error.
  pub release_item_lem :
      quantity ≤ reserved_at warehouse_id variant_id s
      → (s' : Stock) × (release_item it s ≡ ok (tt, s')) × IsReleased (it ∷ []) s s'
  release_item_lem h =
      elim (Option-cases (find_first (is_row warehouse_id variant_id) s.inventory)) [
        | inl er ↦ release_nothing er (ground arith)
        | inr (r, er) ↦ elim (Option-cases (find_first (is_variant variant_id) s.variants)) [
          | inl ex ↦ release_uncached r er (ground arith) ex
          | inr (x, ex) ↦ release_cached r er (ground arith) x ex
        ]
      ]

-- So are the items of a whole reservation, where the rows have reserved what they sum to.
pub release_items_lem :
    (its : List CartReservationItem) (s : Stock)
    → IsConsistent s
    → ((wh v : ℕ) → sum_by (quantity_in wh v) its ≤ reserved_at wh v s)
    → (s' : Stock) × (release_items its s ≡ ok (tt, s')) × IsReleased its s s'
unfolding release_items
release_items_lem [] s c h =
    (s, refl, record { consistent = c; given_back = λ wh v. omega arith; default_kept = refl })
release_items_lem (it ∷ its) s c h =
    let (t, et, rt) = release_item_lem it s c (ground (arith, h it.warehouse_id it.variant_id)) in
    let (s', es, rs) =
      release_items_lem its t rt.consistent (λ wh v. omega (arith, h wh v, rt.given_back wh v)) in
    (
      s',
      ground arith,
      record {
        consistent = rs.consistent;
        given_back = λ wh v. omega (arith, rt.given_back wh v, rs.given_back wh v);
        default_kept = rs.default_kept ∙ rt.default_kept;
      },
    )
