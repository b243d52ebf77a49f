-- ===== src/Reservation/Invariant/Transitions.antt =====
-- The two ends of an ACTIVE reservation: `consume` and `expire_reservation`.
use shop_verse.Base.{
  ℕ, ◌+◌, ◌≤◌, ◌≡◌, refl, Bool, true, false, some, List, [], ◌∷◌, sum_by, find_first, replace_first,
  sum_by-replace_first, find_first-test, find_first-replace_first_self, arith, ok, err, inl, inr,
  Option-cases, if◌then◌else◌, All,
}
use shop_verse.Stock.Reserved.{reserved_at}
use shop_verse.Reservation.Tables.{
  CartReservation, CartReservationStatus, Db, active, expired, consumed, is_active, is_reservation,
  quantity_in, flip_active,
}
use shop_verse.Reservation.Release.{expire_reservation}
use shop_verse.Reservation.Release.Items.{release_items_lem}
use shop_verse.Reservation.Checkout.{consume}
use shop_verse.Reservation.Invariant.Held.{held, held_by, IsSound}

module _ (s : Db) (r : CartReservation) (v : IsSound s)
    (er : find_first (is_reservation r.id) s.reservations ≡ some r) (live : r.status ≡ active) where
  abbrev pub closed : CartReservationStatus → Db
  closed status = record s {
    reservations =
        replace_first (is_reservation r.id) (record r { status = status }) s.reservations;
  }

  flip_active_lem :
      (status : CartReservationStatus) → flip_active r.id status s ≡ ok (true, closed status)
  unfolding flip_active
  flip_active_lem status = ground arith

  held-closed :
      (status : CartReservationStatus) (wh u : ℕ)
      → is_active status ≡ false
      → held wh u (closed status) + sum_by (quantity_in wh u) r.items ≡ held wh u s
  held-closed status wh u dead = ground (
    arith,
    sum_by-replace_first (held_by wh u) (is_reservation r.id) (record r { status = status })
        s.reservations r er,
  )

  -- A reservation that is ACTIVE can be consumed. The stock that it held stays reserved, for the
  -- order, and the invariant holds.
  pub consume_lem : (consume r.id s ≡ ok (tt, closed consumed)) × IsSound (closed consumed)
  unfolding consume
  consume_lem = (
    ground (arith, flip_active_lem consumed),
    record {
      consistent = v.consistent;
      backed = λ wh u. omega (arith, held-closed consumed wh u refl, v.backed wh u);
    },
  )

  -- A reservation that is ACTIVE can be expired: the transaction succeeds, gives back exactly the
  -- quantities of the items in each row, and the invariant holds.
  pub expire_reservation_lem :
      (s' : Db) × (expire_reservation r s ≡ ok (true, s'))
      × IsSound s'
      × ((wh u : ℕ)
          → reserved_at wh u s'.stock + sum_by (quantity_in wh u) r.items
            ≡ reserved_at wh u s.stock)
  unfolding expire_reservation
  expire_reservation_lem =
      let holds : (wh u : ℕ) → sum_by (quantity_in wh u) r.items ≤ reserved_at wh u s.stock =
        λ wh u. omega (arith, held-closed expired wh u refl, v.backed wh u) in
      let (t, et, rt) = release_items_lem r.items s.stock v.consistent holds in
      (
        record (closed expired) { stock = t },
        ground (arith, flip_active_lem expired),
        record {
          consistent = rt.consistent;
          backed = λ wh u.
              omega (arith, held-closed expired wh u refl, v.backed wh u, rt.given_back wh u);
        },
        λ wh u. omega (arith, holds wh u, rt.given_back wh u),
      )

-- The answers to attempts to end one reservation, each with the status that it wants to set.
abbrev pub answers : ℕ → List CartReservationStatus → Db → List Bool
answers id [] s = []
answers id (end ∷ ends) s = elim (flip_active id end s) [
  | ok (done, s') ↦ done ∷ answers id ends s'
  | err e ↦ answers id ends s
]

abbrev pub wins : List Bool → ℕ
wins [] = 0
wins (b ∷ bs) = (if b then 1 else 0) + wins bs

none_wins :
    (id : ℕ) (ends : List CartReservationStatus) (s : Db) (r : CartReservation)
    → find_first (is_reservation id) s.reservations ≡ some r
    → is_active r.status ≡ false
    → wins (answers id ends s) ≡ 0
unfolding flip_active
none_wins id [] s r e dead = refl
none_wins id (end ∷ ends) s r e dead = ground (arith, none_wins id ends s r e dead)

-- Of any attempts to consume or expire one reservation, in any order, at most one succeeds.
pub at_most_one_wins :
    (id : ℕ) (ends : List CartReservationStatus) (s : Db)
    → All (λ end. is_active end ≡ false) ends
    → wins (answers id ends s) ≤ 1
unfolding flip_active
at_most_one_wins id [] s h = omega arith
at_most_one_wins id (end ∷ ends) s (h, hs) =
    elim (Option-cases (find_first (is_reservation id) s.reservations)) [
      | inl e ↦ ground (arith, at_most_one_wins id ends s hs)
      | inr (r, e) ↦
          let y : CartReservation = record r { status = end } in
          ground (
            arith,
            at_most_one_wins id ends s hs,
            find_first-test (is_reservation id) s.reservations r e,
            find_first-replace_first_self (is_reservation id) y s.reservations r e,
            none_wins id ends
                (record s { reservations = replace_first (is_reservation id) y s.reservations }) y,
          )
    ]

-- To consume an ACTIVE reservation changes its status and nothing else.
pub consume-active :
    (s : Db) (r : CartReservation)
    → find_first (is_reservation r.id) s.reservations ≡ some r
    → r.status ≡ active
    → consume r.id s
      ≡ ok (
        tt,
        record s {
          reservations =
              replace_first (is_reservation r.id) (record r { status = consumed }) s.reservations;
        },
      )
unfolding consume flip_active
consume-active s r e live = ground arith
