-- ===== src/Reservation/Invariant/Creation.antt =====
-- `createReservation` keeps the invariant.
use shop_verse.Base.{
  ℕ, ◌+◌, ◌≡◌, refl, subst, Bool, List, [], ◌∷◌, ◌++◌, map, sum_by, sum_by-append, find_first,
  arith, ok, inl, inr, Option-cases, Result-cases,
}
use shop_verse.Stock.{Stock, WarehouseInventory, is_row, ensure_row, get_default_warehouse_id}
use shop_verse.Stock.Consistency.{IsConsistent, ensure_row-IsConsistent}
use shop_verse.Stock.Reserved.{reserved_at, reserved_at-replace_first, reserved_at-ensure_row}
use shop_verse.Inventory.{reserve_sellable}
use shop_verse.Inventory.Movements.{reserve_sellable-IsConsistent, row_facts}
use shop_verse.Gate.{Gates}
use shop_verse.Reservation.Tables.{
  CartReservation, CartReservationItem, Db, active, quantity_in, Cart,
}
use shop_verse.Reservation.Create.{
  reserve_line, pass_line, pass_lines, insert_reservation, committed, new_reservation,
  with_reservation, is_flash_cart, locked_item, ask_gate, CreatedReservation,
}
use shop_verse.Reservation.Invariant.Held.{held_by, IsSound}

-- What reserving the items `its` makes of the tables.
pub record IsReserved (its : List CartReservationItem) (s s' : Stock) : Type 0 where
  pub consistent : IsConsistent s'
  pub reserved_more :
      (wh v : ℕ) → reserved_at wh v s' ≡ reserved_at wh v s + sum_by (quantity_in wh v) its

pub reserve_sellable_lem :
    (it : CartReservationItem) (s s' : Stock)
    → IsConsistent s
    → reserve_sellable it.warehouse_id it.variant_id it.quantity s ≡ ok (tt, s')
    → IsReserved (it ∷ []) s s'
unfolding reserve_sellable
reserve_sellable_lem it s s' c h =
    elim (Option-cases (find_first (is_row it.warehouse_id it.variant_id) s.inventory)) [
      | inl e ↦ ground arith
      | inr (r, er) ↦
          let y : WarehouseInventory = record r { reserved = r.reserved + it.quantity } in
          record {
            consistent =
                reserve_sellable-IsConsistent it.warehouse_id it.variant_id it.quantity s s' r c er
                  h;
            reserved_more = λ a u. ground (
              arith,
              row_facts it.warehouse_id it.variant_id s r c er,
              reserved_at-replace_first a u it.warehouse_id it.variant_id y r s er,
            );
          }
    ]

-- An item's pass that ends well has reserved it, whatever the gates said.
reserve_line-IsReserved :
    (it : CartReservationItem) (tokens : List CartReservationItem) (s s' : Stock) (g : Gates)
    → IsConsistent s
    → (reserve_line it tokens s g).0 ≡ ok s'
    → IsReserved (it ∷ []) s s'
unfolding reserve_line
reserve_line-IsReserved it tokens s s' g c h =
    elim (Result-cases (reserve_sellable it.warehouse_id it.variant_id it.quantity s)) [
      | inl ((u, t), e) ↦ ground (arith, reserve_sellable_lem it s t c e)
      | inr (x, e) ↦ ground arith
    ]

pass_line-IsReserved :
    (flash : Bool) (it : CartReservationItem) (tokens : List CartReservationItem) (s s' : Stock)
    (g : Gates)
    → IsConsistent s
    → (pass_line flash it tokens s g).0 ≡ ok s'
    → IsReserved (it ∷ []) s s'
unfolding pass_line
pass_line-IsReserved flash it tokens s s' g c h =
    elim (Result-cases (ensure_row it.warehouse_id it.variant_id s)) [
      | inr (x, e) ↦ ground arith
      | inl ((u, t), e) ↦
          let (answer, g') = ask_gate it.warehouse_id it.variant_id it.quantity t g in
          let c' = ensure_row-IsConsistent it.warehouse_id it.variant_id s t c e in
          let r : IsReserved (it ∷ []) t s' = ground (
            arith,
            reserve_line-IsReserved it tokens t s' g c',
            reserve_line-IsReserved it tokens t s' g' c',
            reserve_line-IsReserved it (tokens ++ (it ∷ [])) t s' g' c',
          ) in
          record {
            consistent = r.consistent;
            reserved_more = λ a v. omega (
              arith,
              r.reserved_more a v,
              reserved_at-ensure_row a v it.warehouse_id it.variant_id s t e,
            );
          }
    ]

pass_lines-IsReserved :
    (flash : Bool) (its tokens : List CartReservationItem) (s s' : Stock) (g : Gates)
    → IsConsistent s
    → (pass_lines flash its tokens s g).0 ≡ ok s'
    → IsReserved its s s'
unfolding pass_lines
pass_lines-IsReserved flash [] tokens s s' g c h =
    subst (IsReserved [] s) (ground arith)
      (record { consistent = c; reserved_more = λ a v. omega arith })
pass_lines-IsReserved flash (it ∷ its) tokens s s' g c h =
    elim (Result-cases (pass_line flash it tokens s g).0) [
      | inr (x, e) ↦ ground arith
      | inl (t, e) ↦
          let (end, tokens', g') = pass_line flash it tokens s g in
          let first = pass_line-IsReserved flash it tokens s t g c e in
          let rest =
            pass_lines-IsReserved flash its tokens' t s' g' first.consistent (ground arith) in
          record {
            consistent = rest.consistent;
            reserved_more = λ a v. omega (arith, first.reserved_more a v, rest.reserved_more a v);
          }
    ]

committed-IsSound :
    (r : CartReservation) (s : Db) (flash : Bool) (g : Gates) (s' : Db) (g' : Gates)
    (created : CreatedReservation)
    → IsSound s
    → r.status ≡ active
    → committed r s (pass_lines flash r.items [] s.stock g) ≡ (ok created, (s', g'))
    → IsSound s' × IsReserved created.items s.stock s'.stock
committed-IsSound r s flash g s' g' created v live h =
    elim (Result-cases (pass_lines flash r.items [] s.stock g).0) [
      | inr (x, e) ↦ absurd (ground arith)
      | inl (t, e) ↦
          let more = pass_lines-IsReserved flash r.items [] s.stock t g v.consistent e in
          let here : with_reservation r t s ≡ s' = ground arith in
          let items : r.items ≡ created.items = ground arith in
          (
            subst IsSound here (record {
              consistent = more.consistent;
              backed = λ wh u. ground (
                arith,
                v.backed wh u,
                more.reserved_more wh u,
                sum_by-append (held_by wh u) s.reservations (r ∷ []),
              );
            }),
            subst (λ its. IsReserved its s.stock s'.stock) items
                (subst (λ w. IsReserved r.items s.stock w.stock) here more),
          )
    ]

-- A reservation that is created keeps the invariant: the stock tables stay consistent, every ACTIVE
-- reservation is backed by reserved stock, and each warehouse row has reserved exactly the
-- quantities of the items more.
pub insert_reservation-IsSound :
    (cart : Cart) (now : ℕ) (s : Db) (g : Gates) (s' : Db) (g' : Gates)
    (created : CreatedReservation)
    → IsSound s
    → insert_reservation cart now (s, g) ≡ (ok created, (s', g'))
    → IsSound s' × IsReserved created.items s.stock s'.stock
unfolding insert_reservation get_default_warehouse_id
insert_reservation-IsSound cart now s g s' g' created v h =
    elim (Option-cases s.stock.default_warehouse) [
      | inl e ↦ absurd (ground arith)
      | inr (wh, e) ↦
          let flash = is_flash_cart now cart.items in
          let r = new_reservation flash now cart s.next_id (map (locked_item wh) cart.items) in
          committed-IsSound r s flash g s' g' created v refl (ground arith)
    ]
