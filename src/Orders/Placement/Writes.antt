-- ===== src/Orders/Placement/Writes.antt =====
-- The transaction of placeOrder in backend/src/orders/orders.service.ts.
use shop_verse.Base.{
  [], List, ◌*◌, sum_by, map, ℕ, ◌+◌, ◌≡◌, Option, none, some, ◌∷◌, ◌++◌, find_first, replace_first,
  arith, ok, inl, inr, Result-cases, refl, ltb, Bool-cases,
}
use shop_verse.Wallet.Tables.{Books, order_wallet}
use shop_verse.Wallet.{debit}
use shop_verse.Wallet.Conservation
use shop_verse.Wallet.Conservation.{debiting, serve-IsSound}
use shop_verse.Coupons.{Promotions, use_coupon}
use shop_verse.Coupons.Limits.{IsLimited, use_coupon-IsLimited}
use shop_verse.Reservation.{active, consumed, is_reservation}
use shop_verse.Reservation.Invariant.Transitions.{consume-active}
use shop_verse.Orders.Tables.{Shop, Order, reservation_db}
use shop_verse.Orders.Placement.{
  NewItem, new_total, of_line, of_new, locked_item, Draft, new_order, order_lines, count_items,
  create_order, use_code, write_order, pay_from_wallet,
}

use_code_lem :
    (now : ℕ) (code user : Option ℕ) (s s' : Shop) (u : Unit {0})
    → use_code now code user s ≡ ok (u, s')
    → (p : Promotions) × (s' ≡ record s { promotions = p }) × (IsLimited s.promotions → IsLimited p)
unfolding use_code
use_code_lem now none user s s' u e = (s.promotions, ground arith, λ h. h)
use_code_lem now (some code) user s s' u e =
    elim (Result-cases (use_coupon now code user s.promotions)) [
      | inr (x, v) ↦ ground arith
      | inl ((a, p), v) ↦
          (p, ground arith, λ h. use_coupon-IsLimited now code user s.promotions p a h v)
    ]

-- The rows that the transaction writes.
abbrev pub written : (now user : ℕ) → Draft → Shop → Promotions → Shop
written now user d s p = record s {
  orders = new_order now s.next_order (some user) d ∷ s.orders;
  items = order_lines s.next_order s.next_item (map locked_item d.reservation.items) ++ s.items;
  next_order = s.next_order + 1;
  next_item = s.next_item + count_items (map locked_item d.reservation.items);
  reservations =
      replace_first (is_reservation d.reservation.id) (record d.reservation { status = consumed })
        s.reservations;
  promotions = p;
}

pub write_order_lem :
    (now user : ℕ) (d : Draft) (s s' : Shop) (o : Order)
    → find_first (is_reservation d.reservation.id) s.reservations ≡ some d.reservation
    → d.reservation.status ≡ active
    → write_order now user d s ≡ ok (o, s')
    → (p : Promotions) × (o ≡ new_order now s.next_order (some user) d)
      × (s' ≡ written now user d s p)
      × (IsLimited s.promotions → IsLimited p)
unfolding write_order create_order
write_order_lem now user d s s' o found live e =
    let s1 : Shop = written now user d s s.promotions in
    elim (Result-cases (use_code now d.coupon_code (some user) s1)) [
      | inr (x, v) ↦ ground (arith, consume-active (reservation_db s) d.reservation found live)
      | inl ((a, s2), v) ↦
          let (p, written_p, limited) = use_code_lem now d.coupon_code (some user) s1 s2 a v in
          (
            p,
            ground (arith, consume-active (reservation_db s) d.reservation found live),
            ground (arith, consume-active (reservation_db s) d.reservation found live),
            limited,
          )
    ]

pub pay_from_wallet_lem :
    (user : ℕ) (o : Order) (s : Shop)
    → (b : Books) × (pay_from_wallet user o s ≡ record s { books = b })
      × (Conservation.IsSound s.books → Conservation.IsSound b)
unfolding pay_from_wallet
pay_from_wallet_lem user o s =
    let used : ℕ = o.wallet_amount_used in
    let asked = debiting user used (order_wallet o.id) in
    elim (Bool-cases (ltb 0 used)) [
      | inl t ↦
          ((debit user used (order_wallet o.id) s.books).1, rw t refl, serve-IsSound asked s.books)
      | inr f ↦ (s.books, rw f refl, λ h. h)
    ]

pub lines_total :
    (order item : ℕ) (its : List NewItem)
    → sum_by (λ l. l.price * l.quantity) (order_lines order item its) ≡ new_total its * 100
lines_total order item [] = refl
lines_total order item (it ∷ its) = omega (arith, lines_total order (item + 1) its)

-- The variant and the quantity of each line are those of the item.
pub lines_ordered :
    (order item : ℕ) (its : List NewItem)
    → map of_line (order_lines order item its) ≡ map of_new its
lines_ordered order item [] = refl
lines_ordered order item (it ∷ its) = ground (arith, lines_ordered order (item + 1) its)
