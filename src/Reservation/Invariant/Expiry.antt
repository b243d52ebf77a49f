-- ===== src/Reservation/Invariant/Expiry.antt =====
-- The statement of the expiry cron gives back exactly what the expired reservations held.
use shop_verse.Base.{
  ℕ, ◌+◌, ◌-◌, ◌≤◌, ◌≡◌, refl, false, none, some, List, [], ◌∷◌, map, sum_by, find_first, arith,
  All,
}
use shop_verse.Stock.{WarehouseInventory, is_row}
use shop_verse.Stock.Consistency.{IsWithin}
use shop_verse.Stock.Reserved.{reserved_at}
use shop_verse.Reservation.Tables.{CartReservation, Db}
use shop_verse.Reservation.Release.{
  expire_batch, expiring_quantity, mark_expired, is_expiring, release_row_expiring,
}
use shop_verse.Reservation.Invariant.Held.{held, held_by, IsSound}

held-mark_expired :
    (ids : List ℕ) (wh v : ℕ) (rs : List CartReservation)
    → sum_by (held_by wh v) (map (mark_expired ids) rs) + expiring_quantity ids wh v rs
      ≡ sum_by (held_by wh v) rs
held-mark_expired ids wh v [] = refl
held-mark_expired ids wh v (r ∷ rs) = ground (arith, held-mark_expired ids wh v rs)

find_first-release_row :
    (ids : List ℕ) (rs : List CartReservation) (wh v : ℕ) (ws : List WarehouseInventory)
    → (elim (find_first (is_row wh v) (map (release_row_expiring ids rs) ws)) [
      | none ↦ 0
      | some w ↦ w.reserved
    ])
      ≡ (elim (find_first (is_row wh v) ws) [ none ↦ 0 | some w ↦ w.reserved ])
        - expiring_quantity ids wh v rs
find_first-release_row ids rs wh v [] = omega arith
find_first-release_row ids rs wh v (w ∷ ws) = ground (arith, find_first-release_row ids rs wh v ws)

IsWithin-release_row :
    (ids : List ℕ) (rs : List CartReservation) (ws : List WarehouseInventory)
    → All IsWithin ws
    → All IsWithin (map (release_row_expiring ids rs) ws)
IsWithin-release_row ids rs [] h = tt
IsWithin-release_row ids rs (w ∷ ws) (h, hs) = (omega arith, IsWithin-release_row ids rs ws hs)

none_active :
    (ids : List ℕ) (rs : List CartReservation)
    → All (λ r. is_expiring ids r ≡ false) (map (mark_expired ids) rs)
none_active ids [] = tt
none_active ids (r ∷ rs) = (ground arith, none_active ids rs)

-- Under the invariant the batch statement lowers what is held and what is reserved of each variant
-- in each warehouse by the same quantity, that of the reservations it expires, with no clamping; so
-- what the others hold stays reserved. None of the selected reservations is ACTIVE afterwards.
pub expire_batch_lem :
    (ids : List ℕ) (s : Db)
    → IsSound s
    → ((wh v : ℕ)
        → let q = expiring_quantity ids wh v s.reservations in
          (held wh v (expire_batch ids s) + q ≡ held wh v s)
          × (reserved_at wh v (expire_batch ids s).stock + q ≡ reserved_at wh v s.stock)
          × (held wh v (expire_batch ids s) ≤ reserved_at wh v (expire_batch ids s).stock))
      × All IsWithin (expire_batch ids s).stock.inventory
      × All (λ r. is_expiring ids r ≡ false) (expire_batch ids s).reservations
unfolding expire_batch
expire_batch_lem ids s v = (
  λ wh u.
      let held' = held-mark_expired ids wh u s.reservations in
      let reserved' = find_first-release_row ids s.reservations wh u s.stock.inventory in
      let b = v.backed wh u in (held', omega arith, omega arith),
  IsWithin-release_row ids s.reservations s.stock.inventory v.consistent.within,
  none_active ids s.reservations,
)
