-- ===== src/Orders/Placement/Invariants.antt =====
-- What placeOrder in backend/src/orders/orders.service.ts keeps, and a second placement of the same
-- reservation.
use shop_verse.Base.{
  ℕ, ◌≡◌, ◌⊎◌, refl, some, find_first, ◌==◌, arith, ok, err, bad_request, inl, inr, subst,
  Bool-cases, find_first-test, find_first-replace_first_self,
}
use shop_verse.Wallet.Conservation
use shop_verse.Reservation.Invariant
use shop_verse.Wallet.Conservation.{debiting, serve-IsSound}
use shop_verse.Coupons.Limits.{IsLimited}
use shop_verse.Reservation.{Db, CartReservation, consumed, is_reservation}
use shop_verse.Reservation.Checkout.{Product, not_active, not_owner, validate_for_checkout}
use shop_verse.Reservation.Invariant.Transitions.{consume_lem}
use shop_verse.Orders.Tables.{Shop, Order, reservation_db}
use shop_verse.Orders.Placement.{Environment, PlaceOrder, prepare, after_order, place_order}
use shop_verse.Orders.Placement.Writes.{pay_from_wallet_lem}
use shop_verse.Orders.Placement.Composition.{
  created, committed, place_order-cases, place_order-IsPlaced,
}

-- The invariants of the tables that a placement touches: the reserved stock covers the
-- reservations, the books of the wallets balance, and no coupon is used too often.
pub record IsWellFormed (s : Shop) : Type 0 where
  pub reserved : Invariant.IsSound (reservation_db s)
  pub booked : Conservation.IsSound s.books
  pub limited : IsLimited s.promotions

-- A placement keeps every invariant of the tables that it touches, whether it succeeds or fails:
-- the stock's tables agree and cover the live reservations, every wallet holds its credits less its
-- debits, and no coupon is used more often than it may be.
pub place_order-IsWellFormed :
    (env : Environment) (now user : ℕ) (dto : PlaceOrder) (s : Shop)
    → IsWellFormed s
    → IsWellFormed (place_order env now user dto s).1
place_order-IsWellFormed env now user dto s h = elim (place_order-cases env now user dto s) [
  | inl (x, q) ↦ subst IsWellFormed (ground arith) h
  | inr (w, q) ↦
      let made : Order = created env now user dto s w in
      let s1 : Shop = committed env now user dto s w in
      let (b, paid, booked) = pay_from_wallet_lem user made s1 in
      let (flipped, sound) =
        consume_lem (reservation_db s) w.draft.reservation h.reserved
          (ground (arith, w.found, w.key)) w.live in
      let after : IsWellFormed (after_order now user made s1) = record {
        reserved = rw paid sound;
        booked = rw paid (booked h.booked);
        limited = rw paid (w.limited h.limited);
      } in
      subst IsWellFormed (ground (arith, q)) after
]

validate-consumed :
    (product : ℕ → Product) (id user now : ℕ) (d : Db) (r : CartReservation)
    → find_first (is_reservation id) d.reservations ≡ some r
    → r.status ≡ consumed
    → (validate_for_checkout product id user now d ≡ not_owner)
      ⊎ (validate_for_checkout product id user now d ≡ not_active consumed)
unfolding validate_for_checkout
validate-consumed product id user now d r found dead = elim (Bool-cases (r.user_id == user)) [
  | inl mine ↦ inr (ground arith)
  | inr not_mine ↦ inl (ground arith)
]

refused-consumed :
    (env : Environment) (now user : ℕ) (dto : PlaceOrder) (s : Shop) (r : CartReservation)
    → find_first (is_reservation dto.reservation_id) s.reservations ≡ some r
    → r.status ≡ consumed
    → place_order env now user dto s ≡ (err bad_request, s)
unfolding place_order prepare
refused-consumed env now user dto s r found dead = elim (Bool-cases env.is_blocked) [
  | inl b ↦ ground arith
  | inr b ↦ elim (Bool-cases (dto.reservation_id == 0)) [
    | inl z ↦ ground arith
    | inr z ↦
        elim (validate-consumed env.product dto.reservation_id user now (reservation_db s) r found
          dead) [ inl not_mine ↦ ground arith | inr gone ↦ ground arith ]
  ]
]

-- A reservation that a placement consumed cannot be placed again: whatever else the second request
-- says, and whenever and by whomever it is made, it is a bad request.
pub placed_once :
    (env later_env : Environment) (now later user other : ℕ) (dto again : PlaceOrder) (s s' : Shop)
    (o : Order)
    → place_order env now user dto s ≡ (ok o, s')
    → again.reservation_id ≡ dto.reservation_id
    → place_order later_env later other again s' ≡ (err bad_request, s')
placed_once env later_env now later user other dto again s s' o h same =
    let w = place_order-IsPlaced env now user dto s s' o h in
    let r : CartReservation = record w.reservation { status = consumed } in
    let reads : find_first (is_reservation again.reservation_id) s'.reservations ≡ some r = ground (
      arith,
      same,
      w.used_up,
      find_first-replace_first_self (is_reservation dto.reservation_id) r s.reservations
          w.reservation w.found
          (find_first-test (is_reservation dto.reservation_id) s.reservations w.reservation
            w.found),
    ) in
    refused-consumed later_env later other again s' r reads refl
