-- ===== src/Inventory/Invariant.antt =====
-- Every call of backend/src/inventory/inventory.service.ts keeps the stock tables consistent.
use shop_verse.Base.{
  ℕ, ◌≤◌, ◌≡◌, Bool, Option, none, some, find_first, arith, ok, err, Tx, inl, inr, Option-cases,
  Bool-cases, Result-cases, bad_request, subst, leb,
}
use shop_verse.Stock.{Stock, WarehouseInventory, is_row, ensure_row, get_default_warehouse_id}
use shop_verse.Stock.Consistency.{IsConsistent, ensure_row-IsConsistent, ensure_row-finds}
use shop_verse.Inventory.{reserve, release, commit_shipment, restock, release_row, commit_row}
use shop_verse.Inventory.Movements.{
  reserve_sellable-IsConsistent, reserve_backorder-IsConsistent, release_row-IsConsistent,
  commit_row-IsConsistent, restock_row-IsConsistent,
}

-- The row of a variant in the DEFAULT warehouse.
abbrev pub default_row : ℕ → Stock → Option WarehouseInventory
default_row v s = elim s.default_warehouse [
  | none ↦ none
  | some wh ↦ find_first (is_row wh v) s.inventory
]

abbrev pub Covers : ℕ → Option WarehouseInventory → Type 0
Covers qty none = Unit
Covers qty (some r) = qty ≤ r.reserved

module _ (wh v qty : ℕ) (s : Stock) (er : find_first (is_row wh v) s.inventory ≡ none) where
  release_row_missing : release_row wh v qty s ≡ ok (tt, s)
  unfolding release_row
  release_row_missing = ground arith

  commit_row_missing : commit_row wh v qty s ≡ err bad_request
  unfolding commit_row
  commit_row_missing = ground arith

module _ (v qty : ℕ) (s s' : Stock) (c : IsConsistent s) where
  -- A reservation, with or without backorder, keeps every CHECK constraint and the cache.
  pub reserve-IsConsistent :
      (backorder : Bool) → reserve v qty backorder s ≡ ok (tt, s') → IsConsistent s'
  unfolding reserve get_default_warehouse_id
  reserve-IsConsistent backorder h = elim (Option-cases s.default_warehouse) [
    | inl e ↦ ground arith
    | inr (wh, e) ↦ elim (Result-cases (ensure_row wh v s)) [
      | inr (x, en) ↦ ground arith
      | inl ((u, t), en) ↦
          let ct = ensure_row-IsConsistent wh v s t c en in
          let (r, er, same) = ensure_row-finds wh v s t en in
          ground (
            arith,
            reserve_sellable-IsConsistent wh v qty t s' r ct er,
            reserve_backorder-IsConsistent wh v qty t s' r ct er,
          )
    ]
  ]

  -- So does a release of no more than the DEFAULT warehouse has reserved of the variant.
  pub release-IsConsistent :
      Covers qty (default_row v s) → release v qty s ≡ ok (tt, s') → IsConsistent s'
  unfolding release get_default_warehouse_id
  release-IsConsistent g h = elim (Bool-cases (leb qty 0)) [
    | inl z ↦ subst IsConsistent (ground arith) c
    | inr p ↦ elim (Option-cases s.default_warehouse) [
      | inl e ↦ ground arith
      | inr (wh, e) ↦ elim (Option-cases (find_first (is_row wh v) s.inventory)) [
        | inl er ↦ subst IsConsistent (ground (arith, release_row_missing wh v qty s er)) c
        | inr (r, er) ↦ ground (arith, release_row-IsConsistent wh v qty s s' r c er)
      ]
    ]
  ]

  pub commit_shipment-IsConsistent : commit_shipment v qty s ≡ ok (tt, s') → IsConsistent s'
  unfolding commit_shipment get_default_warehouse_id
  commit_shipment-IsConsistent h = elim (Bool-cases (leb qty 0)) [
    | inl z ↦ subst IsConsistent (ground arith) c
    | inr p ↦ elim (Option-cases s.default_warehouse) [
      | inl e ↦ ground arith
      | inr (wh, e) ↦ elim (Option-cases (find_first (is_row wh v) s.inventory)) [
        | inl er ↦ ground (arith, commit_row_missing wh v qty s er)
        | inr (r, er) ↦ ground (arith, commit_row-IsConsistent wh v qty s s' r c er)
      ]
    ]
  ]

  pub restock-IsConsistent : restock v qty s ≡ ok (tt, s') → IsConsistent s'
  unfolding restock get_default_warehouse_id
  restock-IsConsistent h = elim (Bool-cases (leb qty 0)) [
    | inl z ↦ subst IsConsistent (ground arith) c
    | inr p ↦ elim (Option-cases s.default_warehouse) [
      | inl e ↦ ground arith
      | inr (wh, e) ↦ elim (Result-cases (ensure_row wh v s)) [
        | inr (x, en) ↦ ground arith
        | inl ((u, t), en) ↦
            let ct = ensure_row-IsConsistent wh v s t c en in
            let (r, er, same) = ensure_row-finds wh v s t en in
            ground (arith, restock_row-IsConsistent wh v qty t s' r ct er)
      ]
    ]
  ]

-- The calls that the other services make.
pub data Movement : Type 0 where
  -- the variant, the quantity, and whether a backorder is allowed
  reserved : ℕ → ℕ → Bool → Movement
  released committed restocked : ℕ → ℕ → Movement

abbrev pub apply : Movement → Tx Stock (Unit {0})
apply (reserved v qty backorder) = reserve v qty backorder
apply (released v qty) = release v qty
apply (committed v qty) = commit_shipment v qty
apply (restocked v qty) = restock v qty

abbrev pub IsBacked : Movement → Stock → Type 0
IsBacked (released v qty) s = Covers qty (default_row v s)
IsBacked m s = Unit

-- A movement that succeeds on consistent tables leaves them consistent: every row has no more
-- reserved than in stock, and every cached total on a variant is the sum over its warehouse rows.
-- A release must give back no more than the DEFAULT warehouse has reserved of the variant.
pub movement-IsConsistent :
    (m : Movement) (s s' : Stock)
    → IsConsistent s
    → IsBacked m s
    → apply m s ≡ ok (tt, s')
    → IsConsistent s'
movement-IsConsistent (reserved v qty backorder) s s' c g h =
    reserve-IsConsistent v qty s s' c backorder h
movement-IsConsistent (released v qty) s s' c g h = release-IsConsistent v qty s s' c g h
movement-IsConsistent (committed v qty) s s' c g h = commit_shipment-IsConsistent v qty s s' c h
movement-IsConsistent (restocked v qty) s s' c g h = restock-IsConsistent v qty s s' c h
