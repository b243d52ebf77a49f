-- ===== src/Reservation/Checkout/Validity.antt =====
-- When a reservation passes the checks of checkout.
use shop_verse.Base.{
  ℕ, ◌*◌, ◌≤◌, ◌<◌, ◌≡◌, ◌↔◌, refl, some, List, [], ◌∷◌, find_first, arith, All, inl, inr,
  Option-cases,
}
use shop_verse.Reservation.Tables.{CartReservation, CartReservationItem, Db, active, is_reservation}
use shop_verse.Reservation.Checkout.{
  Product, valid, validate_for_checkout, changed_items, current_price, distance,
}

module _ (product : ℕ → Product) where
  -- The current price is within half a percent of the locked one.
  abbrev pub IsNear : CartReservationItem → Type 0
  IsNear it =
      1000 * distance (current_price product it.variant_id) it.locked_price ≤ 5 * it.locked_price

  changed_items_iff :
      (its : List CartReservationItem) → (changed_items product its ≡ []) ↔ All IsNear its
  unfolding changed_items
  changed_items_iff [] = (λ e. tt, λ h. refl)
  changed_items_iff (it ∷ its) = ground (arith, changed_items_iff its)

  -- A reservation is valid for checkout exactly if it is there, belongs to the user, is ACTIVE and
  -- not yet expired, and the current price of every item is within half a percent of the locked
  -- price.
  pub validate_for_checkout_iff :
      (id user now : ℕ) (s : Db) (r : CartReservation)
      → (validate_for_checkout product id user now s ≡ valid r) ↔ (
          (find_first (is_reservation id) s.reservations ≡ some r)
          × (r.user_id ≡ user)
          × (r.status ≡ active)
          × (now < r.expires_at)
          × All IsNear r.items)
  unfolding validate_for_checkout
  validate_for_checkout_iff id user now s r =
      elim (Option-cases (find_first (is_reservation id) s.reservations)) [
        | inl e ↦ ground arith
        | inr (q, e) ↦ ground (arith, changed_items_iff q.items)
      ]
