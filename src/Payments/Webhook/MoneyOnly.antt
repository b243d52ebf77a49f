-- ===== src/Payments/Webhook/MoneyOnly.antt =====
-- Changes of the tables by backend/src/payments/payments.service.ts that are about money only.
use shop_verse.Base.{ℕ, ◌≡◌, refl, replace_first, arith, ok, subst, sym}
use shop_verse.Wallet.Tables.{Books}
use shop_verse.Wallet.Conservation
use shop_verse.Wallet.Conservation.{crediting, debiting, serve-IsSound}
use shop_verse.Reservation.Invariant
use shop_verse.Coupons.Limits.{IsLimited}
use shop_verse.Orders.Tables.{reservation_db, is_order, Shop, Order, OrderStatus, update_order}
use shop_verse.Orders.Writes.{update_order_lem}
use shop_verse.Orders.Placement.Invariants.{IsWellFormed}
use shop_verse.Payments.Webhook.{track}

-- A change that leaves the stock, the reservations and the coupons alone, and the books balanced.
pub record IsMoneyOnly (s s' : Shop) : Type 0 where
  pub stock : s'.stock ≡ s.stock
  pub reservations : s'.reservations ≡ s.reservations
  pub next_reservation : s'.next_reservation ≡ s.next_reservation
  pub promotions : s'.promotions ≡ s.promotions
  pub booked : Conservation.IsSound s.books → Conservation.IsSound s'.books

pub IsMoneyOnly-refl : (s s' : Shop) → s' ≡ s → IsMoneyOnly s s'
IsMoneyOnly-refl s s' e = record {
  stock = ground (arith, e);
  reservations = ground (arith, e);
  next_reservation = ground (arith, e);
  promotions = ground (arith, e);
  booked = λ h. subst (λ x. Conservation.IsSound x.books) (sym e) h;
}

pub IsMoneyOnly-trans : (a b c : Shop) → IsMoneyOnly a b → IsMoneyOnly b c → IsMoneyOnly a c
IsMoneyOnly-trans a b c p q = record {
  stock = ground (arith, p.stock, q.stock);
  reservations = ground (arith, p.reservations, q.reservations);
  next_reservation = ground (arith, p.next_reservation, q.next_reservation);
  promotions = ground (arith, p.promotions, q.promotions);
  booked = λ h. q.booked (p.booked h);
}

pub IsMoneyOnly-IsWellFormed : (s s' : Shop) → IsMoneyOnly s s' → IsWellFormed s → IsWellFormed s'
IsMoneyOnly-IsWellFormed s s' m h =
    let db : reservation_db s' ≡ reservation_db s =
      ground (arith, m.stock, m.reservations, m.next_reservation) in
    record {
      reserved = subst Invariant.IsSound (sym db) h.reserved;
      booked = m.booked h.booked;
      limited = subst IsLimited (sym m.promotions) h.limited;
    }

-- The books after a credit or a debit.
pub with_books-IsMoneyOnly :
    (s : Shop) (b : Books)
    → (Conservation.IsSound s.books → Conservation.IsSound b)
    → IsMoneyOnly s (record s { books = b })
with_books-IsMoneyOnly s b h = record {
  stock = refl;
  reservations = refl;
  next_reservation = refl;
  promotions = refl;
  booked = h;
}

pub track-IsMoneyOnly :
    (now order : ℕ) (st : OrderStatus) (s : Shop) → IsMoneyOnly s (track now order st s)
track-IsMoneyOnly now order st s = record {
  stock = refl;
  reservations = refl;
  next_reservation = refl;
  promotions = refl;
  booked = λ h. h;
}

pub update_order-IsMoneyOnly :
    (now id : ℕ) (f : Order → Order) (s s' : Shop) (o : Order)
    → update_order now id f s ≡ ok (o, s')
    → IsMoneyOnly s s'
update_order-IsMoneyOnly now id f s s' o e =
    let (before, found, eo, es) = update_order_lem now id f s o s' e in
    let kept : IsMoneyOnly s (record s { orders = replace_first (is_order id) o s.orders }) =
      record {
        stock = refl;
        reservations = refl;
        next_reservation = refl;
        promotions = refl;
        booked = λ h. h;
      } in
    subst (IsMoneyOnly s) (sym es) kept
