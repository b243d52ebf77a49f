-- ===== src/Reservation/Checkout.antt =====
-- The checks of backend/src/cart/cart-reservation.service.ts at checkout, `consume`, and the
-- wrappers that look up a user's reservation.
pub mod Validity
use shop_verse.Base.{
  order_by, ℕ, ◌+◌, ◌-◌, ◌*◌, Bool, true, false, not, ◌&&◌, ◌||◌, Option, none, some, List, [], ◌∷◌,
  map, find_first, filter_where, length, leb, ltb, ◌==◌, if◌then◌else◌, Tx, Result, ok, err, pure,
  throw_if, ◌>>=◌, ◌>>◌, conflict,
}
use shop_verse.Gate.{Gates}
use shop_verse.Reservation.Tables.{
  Cart, CartReservation, CartReservationItem, CartReservationStatus, Db, active, expired, consumed,
  is_active, is_live, is_reservation, effective_price, flip_active,
}
use shop_verse.Reservation.Release.{release_by_id}
use shop_verse.Reservation.Create.{CreatedReservation, create_reservation}

-- The price fields of the product of a variant.
pub record Product : Type 0 where
  pub base_price : ℕ
  pub discount_pct : ℕ

pub record ChangedItem : Type 0 where
  pub variant_id : ℕ
  pub locked_price : ℕ
  pub current_price : ℕ

pub data Validation : Type 0 where
  valid : CartReservation → Validation
  missing not_owner ran_out : Validation
  not_active : CartReservationStatus → Validation
  price_drift : List ChangedItem → Validation

abbrev pub distance : ℕ → ℕ → ℕ
distance a b = (a - b) + (b - a)

-- |current - locked| / locked > 0.005, multiplied out. At a locked price of 0 the quotient of the
-- source is infinite, or not a number where the current price is 0 too, and this test agrees.
abbrev pub drifts : ℕ → ℕ → Bool
drifts current locked = ltb (5 * locked) (1000 * distance current locked)

module _ (product : ℕ → Product) where
  abbrev pub current_price : ℕ → ℕ
  current_price v = effective_price (product v).base_price (product v).discount_pct

  abbrev changed : CartReservationItem → ChangedItem
  changed it = record {
    variant_id = it.variant_id;
    locked_price = it.locked_price;
    current_price = current_price it.variant_id;
  }

  unfoldable pub changed_items : List CartReservationItem → List ChangedItem
  changed_items [] = []
  changed_items (it ∷ its) =
      let rest = changed_items its in
      if drifts (current_price it.variant_id) it.locked_price then changed it ∷ rest else rest

  abbrev drift_answer : CartReservation → List ChangedItem → Validation
  drift_answer r [] = valid r
  drift_answer r (c ∷ cs) = price_drift (c ∷ cs)

  unfoldable pub validate_for_checkout : ℕ → ℕ → ℕ → Db → Validation
  validate_for_checkout id user now s = elim (find_first (is_reservation id) s.reservations) [
    | none ↦ missing
    | some r ↦
        if not (r.user_id == user)
        then not_owner
        else if not (is_active r.status)
        then not_active r.status
        else if leb r.expires_at now
        then ran_out
        else drift_answer r (changed_items r.items)
  ]

-- Inside the transaction of placeOrder.
unfoldable pub consume : ℕ → Tx Db (Unit {0})
unfolding flip_active
consume id = do done ← flip_active id consumed; throw_if (not done) conflict

abbrev last? : List CartReservation → Option CartReservation
last? [] = none
last? (r ∷ []) = some r
last? (r ∷ q ∷ rs) = last? (q ∷ rs)

-- The newest live reservation of the user.
unfoldable pub get_active_for_user : ℕ → ℕ → Db → Option CartReservation
get_active_for_user user now s =
    last? (order_by (λ r. r.created_at) (filter_where (is_live user now) s.reservations))

unfoldable pub has_valid_reservation : ℕ → ℕ → Db → Bool
unfolding get_active_for_user
has_valid_reservation user now s = elim (get_active_for_user user now s) [
  | none ↦ false
  | some r ↦ true
]

unfoldable pub release_reservation : ℕ → ℕ → Db × Gates → Db × Gates
unfolding get_active_for_user
release_reservation user now (s, g) = elim (get_active_for_user user now s) [
  | none ↦ (s, g)
  | some r ↦ (release_by_id r.id user (s, g)).1
]

unfoldable pub reserve_cart_items :
    Option (Cart → Bool) → List Cart → ℕ → ℕ → Db × Gates → Result CreatedReservation × (Db × Gates)
unfolding release_reservation
reserve_cart_items rejects carts user now s =
    create_reservation rejects carts user now (release_reservation user now s)

unfoldable pub get_locked_prices : ℕ → ℕ → Db → List (ℕ × ℕ)
unfolding get_active_for_user
get_locked_prices user now s = elim (get_active_for_user user now s) [
  | none ↦ []
  | some r ↦ map (λ it. (it.variant_id, it.locked_price)) r.items
]
