-- ===== src/Reservation/Release.antt =====
-- The ways in which backend/src/cart/cart-reservation.service.ts gives reserved stock back: by the
-- user, by the cap on concurrent reservations and by the expiry cron.
pub mod Items
use shop_verse.Base.{
  order_by, ℕ, suc, ◌+◌, ◌-◌, ◌≤◌, Bool, true, false, not, ◌&&◌, Option, none, some, List, [], ◌∷◌,
  ◌++◌, map, find_first, filter_where, sum_by, take, length, contains, leb, ltb, ◌==◌,
  if◌then◌else◌, Tx, Action, Result, ok, err, pure, ◌>>=◌, ◌>>◌, transact, not_found,
}
use shop_verse.Stock.{Stock, WarehouseInventory, Variant, update_inventory, update_variant}
use shop_verse.Gate.{Gates, release_reserve_gate}
use shop_verse.Reservation.Tables.{
  CartReservation, CartReservationItem, Db, active, expired, is_active, is_reservation, is_live,
  flip_active, lift_stock, quantity_in,
}

abbrev pub max_concurrent_reservations_per_user : ℕ
max_concurrent_reservations_per_user = 3

-- The two UPDATEs of an item. The subtraction of ℕ is GREATEST(0, … - …).
unfoldable pub release_item : CartReservationItem → Tx Stock (Unit {0})
release_item it = do
  update_inventory it.warehouse_id it.variant_id (λ r. true)
      (λ r. leb (r.reserved - it.quantity) r.stock)
      (λ r. record r { reserved = r.reserved - it.quantity })
  update_variant it.variant_id (λ x. leb (x.reserved_stock - it.quantity) x.stock)
      (λ x. record x { reserved_stock = x.reserved_stock - it.quantity })
  pure tt

unfoldable pub release_items : List CartReservationItem → Tx Stock (Unit {0})
release_items [] = pure tt
release_items (it ∷ its) = release_item it >> release_items its

-- The transaction of `releaseById`, on the reservation that was read before it. The answer is
-- `didExpire`.
unfoldable pub expire_reservation : CartReservation → Tx Db Bool
expire_reservation r = do
  flipped ← flip_active r.id expired
  if flipped then (lift_stock (release_items r.items) >> pure true) else pure false

unfoldable pub release_gates : List CartReservationItem → Gates → Gates
release_gates [] g = g
release_gates (it ∷ its) g =
    release_gates its (release_reserve_gate it.warehouse_id it.variant_id it.quantity g)

-- The rest of `releaseById`: the transaction, and the gates if it was this call that expired a
-- flash-sale reservation.
unfoldable pub release_found : CartReservation → Db × Gates → Result (Unit {0}) × (Db × Gates)
release_found r (s, g) = elim (expire_reservation r s) [
  | err e ↦ (err e, (s, g))
  | ok (did_expire, s') ↦
      (ok tt, (s', if did_expire && r.is_flash then release_gates r.items g else g))
]

unfoldable pub release_by_id : ℕ → ℕ → Db × Gates → Result (Unit {0}) × (Db × Gates)
unfolding release_found
release_by_id id user (s, g) = elim (find_first (is_reservation id) s.reservations) [
  | none ↦ (err not_found, (s, g))
  | some r ↦
      if not (r.user_id == user)
      then (err not_found, (s, g))
      else if not (is_active r.status)
      then (ok tt, (s, g))
      else release_found r (s, g)
]

-- An error of a release is swallowed.
unfoldable pub release_each : List CartReservation → ℕ → Db × Gates → Db × Gates
release_each [] user s = s
release_each (r ∷ rs) user s = release_each rs user (release_by_id r.id user s).1

unfoldable pub enforce_concurrent_cap : ℕ → ℕ → Db × Gates → Db × Gates
enforce_concurrent_cap user now (s, g) =
    let live = order_by (λ r. r.created_at) (filter_where (is_live user now) s.reservations) in
    if ltb (length live) max_concurrent_reservations_per_user
    then (s, g)
    else release_each (take (length live - max_concurrent_reservations_per_user + 1) live) user
        (s, g)

-- The snapshot of the cron: ACTIVE and past its time, oldest first, at most 500, without the rows
-- that another transaction has locked.
abbrev pub is_due : ℕ → (ℕ → Bool) → CartReservation → Bool
is_due now locked r = is_active r.status && leb r.expires_at now && not (locked r.id)

abbrev pub due : ℕ → (ℕ → Bool) → Db → List ℕ
due now locked s =
    map (λ r. r.id)
      (take 500 (order_by (λ r. r.expires_at) (filter_where (is_due now locked) s.reservations)))

abbrev pub is_expiring : List ℕ → CartReservation → Bool
is_expiring ids r = contains r.id ids && is_active r.status

abbrev pub mark_expired : List ℕ → CartReservation → CartReservation
mark_expired ids r = if is_expiring ids r then record r { status = expired } else r

-- SUM(quantity) over the items of the reservations that the statement expires.
abbrev pub expiring_quantity : List ℕ → ℕ → ℕ → List CartReservation → ℕ
expiring_quantity ids wh v =
    sum_by λ r. if is_expiring ids r then sum_by (quantity_in wh v) r.items else 0

abbrev pub quantity_of : ℕ → CartReservationItem → ℕ
quantity_of v it = if v == it.variant_id then it.quantity else 0

abbrev pub expiring_variant_quantity : List ℕ → ℕ → List CartReservation → ℕ
expiring_variant_quantity ids v =
    sum_by λ r. if is_expiring ids r then sum_by (quantity_of v) r.items else 0

abbrev pub release_row_expiring :
    List ℕ → List CartReservation → WarehouseInventory → WarehouseInventory
release_row_expiring ids rs w = record w {
  reserved = w.reserved - expiring_quantity ids w.warehouse_id w.variant_id rs;
}

abbrev pub release_variant_expiring : List ℕ → List CartReservation → Variant → Variant
release_variant_expiring ids rs x = record x {
  reserved_stock = x.reserved_stock - expiring_variant_quantity ids x.id rs;
}

-- The statement WITH expired, items_agg, variant_agg, wi_upd UPDATE "Variant".
unfoldable pub expire_batch : List ℕ → Db → Db
expire_batch ids s =
    let rs = s.reservations in
    let t = s.stock in
    let released : Stock = record t {
      inventory = map (release_row_expiring ids rs) t.inventory;
      variants = map (release_variant_expiring ids rs) t.variants;
    } in
    record s { stock = released; reservations = map (mark_expired ids) rs }

abbrev pub flash_items : List ℕ → List CartReservation → List CartReservationItem
flash_items ids [] = []
flash_items ids (r ∷ rs) =
    (if contains r.id ids && r.is_flash then r.items else []) ++ flash_items ids rs

-- The body of the cron. The gates are released for the flash items of the snapshot.
unfoldable pub expire_old_reservations : ℕ → (ℕ → Bool) → Db × Gates → Db × Gates
unfolding expire_batch
expire_old_reservations now locked (s, g) =
    let ids = due now locked s in
    (expire_batch ids s, release_gates (flash_items ids s.reservations) g)
