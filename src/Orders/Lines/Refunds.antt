-- ===== src/Orders/Lines/Refunds.antt =====
-- The refund of a line in backend/src/orders/orders.service.ts: it is paid once, and the books and
-- the refund requests record the same amount.
use shop_verse.Base.{
  ℕ, ◌+◌, ◌≡◌, ◌⊎◌, ◌==◌, some, List, refl, true, ◌∷◌, find_first, replace_first, any, sum_by,
  arith, Result, ok, err, inl, inr, subst, sym, Error, Option-cases, Bool-cases, Result-cases,
  find_first-test, find_first-replace_first_self,
}
use shop_verse.Wallet.Tables.{Books, Reference, refund_item, upsert_wallet, is_same_reference}
use shop_verse.Wallet.Keys.{create_transaction-cases}
use shop_verse.Wallet.Balance.{IsBalanced, IsMoved, credit_of, upsert_wallet-IsMoved}
use shop_verse.Wallet.Conservation.{credit_record, post_credit-IsBalanced}
use shop_verse.Orders.Tables.{
  Shop, Order, OrderItem, PaymentStatus, RefundRequest, is_item, is_order, payment_code,
  update_order,
}
use shop_verse.Orders.Writes.{update_order_lem, find_order-update_order}
use shop_verse.Orders.Lines.{
  line_refund, write_payment, already_refunded, refunded_line, mark_refunded, create_refund_request,
  credit_refund, roll_up, pay_refund, write_refund, line_total, rolled_up, eligible, set_payment,
}

abbrev request_amount : RefundRequest → ℕ
request_amount r = r.amount

-- What the credit of a refund does to the books.
record IsCredited (b b' : Books) (amount : ℕ) : Type 0 where
  balanced : IsBalanced b → IsBalanced b'
  grown : sum_by credit_of b'.transactions ≡ sum_by credit_of b.transactions + amount

credit_refund-IsCredited :
    (user amount : ℕ) (ref : Reference) (s s' : Books)
    → credit_refund user amount ref s ≡ ok (tt, s')
    → IsCredited s s' amount
unfolding credit_refund
credit_refund-IsCredited user amount ref s s' e =
    elim (Result-cases (upsert_wallet user amount s)) [
      | inr (x, u) ↦ ground arith
      | inl ((w, b), u) ↦
          let m : IsMoved s b w.id amount 0 = upsert_wallet-IsMoved user amount s b w u in
          elim (create_transaction-cases (credit_record w.id amount ref w.balance) b) [
            | inl taken ↦ ground arith
            | inr (fresh, written) ↦ record {
              balanced = λ h.
                  subst IsBalanced (ground arith)
                    (post_credit-IsBalanced s b w.id amount w.balance ref h m fresh);
              grown = ground (arith, m.transactions_kept);
            }
          ]
    ]

-- What is left alone by the write of the order's payment status.
write_payment_keeps :
    (now : ℕ) (read : Order) (next p : PaymentStatus) (s s' : Shop)
    → write_payment now read next s ≡ ok (p, s')
    → (s'.items ≡ s.items) × (s'.books ≡ s.books) × (s'.refunds ≡ s.refunds) × (p ≡ next)
unfolding write_payment
write_payment_keeps now read next p s s' e =
    elim (Result-cases (update_order now read.id (set_payment next) s)) [
      | inr (x, u) ↦ ground arith
      | inl ((o, b), u) ↦
          let (before, h, eo, es) = update_order_lem now read.id (set_payment next) s o b u in
          ground (arith, es)
    ]

roll_up_keeps :
    (now : ℕ) (read : Order) (p : PaymentStatus) (s s' : Shop)
    → roll_up now read s ≡ ok (p, s')
    → (s'.items ≡ s.items)
      × (s'.books ≡ s.books)
      × (s'.refunds ≡ s.refunds)
      × (p ≡ rolled_up (eligible read.id s.items) read.payment_status)
unfolding roll_up
roll_up_keeps now read p s s' e =
    write_payment_keeps now read (rolled_up (eligible read.id s.items) read.payment_status) p s s' e

-- The row of the order has the payment status that is answered; a status that is as it was read is
-- not written.
abbrev pub IsWritten : Order → PaymentStatus → (before after : List Order) → Type 0
IsWritten read p before after =
    ((payment_code p ≡ payment_code read.payment_status) × (after ≡ before))
    ⊎ ((o : Order) × (find_first (is_order read.id) after ≡ some o) × (o.payment_status ≡ p))

write_payment-IsWritten :
    (now : ℕ) (read : Order) (next p : PaymentStatus) (s s' : Shop)
    → write_payment now read next s ≡ ok (p, s')
    → IsWritten read p s.orders s'.orders
unfolding write_payment
write_payment-IsWritten now read next p s s' e =
    elim (Bool-cases (payment_code next == payment_code read.payment_status)) [
      | inl same ↦ inl (ground arith, ground arith)
      | inr differs ↦ elim (Result-cases (update_order now read.id (set_payment next) s)) [
        | inr (x, u) ↦ ground arith
        | inl ((o, b), u) ↦
            let (before, h, eo, es) = update_order_lem now read.id (set_payment next) s o b u in
            let row = find_order-update_order now read.id (set_payment next) s b o (λ x. refl) u in
            inr (o, ground (arith, row), ground (arith, eo))
      ]
    ]

roll_up-IsWritten :
    (now : ℕ) (read : Order) (p : PaymentStatus) (s s' : Shop)
    → roll_up now read s ≡ ok (p, s')
    → IsWritten read p s.orders s'.orders
unfolding roll_up
roll_up-IsWritten now read p s s' e =
    write_payment-IsWritten now read (rolled_up (eligible read.id s.items) read.payment_status) p s
      s' e

-- A refund that is paid: what it does to the lines, the requests and the books.
pub record IsPaid (s s' : Shop) (read : Order) (it : OrderItem) (amount : ℕ) (p : PaymentStatus)
    : Type 0 where
  pub amount_is : amount ≡ line_total it
  pub items_kept : s'.items ≡ s.items
  pub balanced : IsBalanced s.books → IsBalanced s'.books
  pub credited :
      sum_by credit_of s'.books.transactions ≡ sum_by credit_of s.books.transactions + amount
  pub requested : sum_by request_amount s'.refunds ≡ sum_by request_amount s.refunds + amount
  pub status_is : p ≡ rolled_up (eligible read.id s.items) read.payment_status
  pub order_row : IsWritten read p s.orders s'.orders

err-ok : {A : Type 0} {x : Error} {a : A} → err x ≡ ok a → ⊥
err-ok e = cc

abbrev done : Unit {0} → Shop → Result (Unit {0} × Shop)
done u s = ok (u, s)

done-injective : {u v : Unit {0}} {s t : Shop} → done u s ≡ done v t → s ≡ t
done-injective e = ground arith

create_refund_request_lem :
    (r : RefundRequest) (s s' : Shop) (u : Unit {0})
    → create_refund_request r s ≡ ok (u, s')
    → s' ≡ record s { refunds = r ∷ s.refunds }
unfolding create_refund_request
create_refund_request_lem r s s' u e = elim (Bool-cases (r.amount == 0)) [
  | inl nothing ↦ absurd (err-ok (rw nothing at e))
  | inr due ↦
      let e' = rw due at e in
      elim (Bool-cases (any (λ x. is_same_reference r.reference x.reference) s.refunds)) [
        | inl taken ↦ absurd (err-ok (rw taken at e'))
        | inr fresh ↦ sym (done-injective (rw fresh at e'))
      ]
]

pay_steps :
    (now user amount : ℕ) (read : Order) (it : OrderItem) (p q : PaymentStatus) (s s1 s' : Shop)
    (b : Books)
    → s1 ≡ record s { refunds = line_refund now read it ∷ s.refunds }
    → IsCredited s1.books b (line_total it)
    → roll_up now read (record s1 { books = b }) ≡ ok (q, s')
    → amount ≡ line_total it
    → p ≡ q
    → IsPaid s s' read it amount p
pay_steps now user amount read it p q s s1 s' b es c er ea ep =
    let (items, books, refunds, status) =
      roll_up_keeps now read q (record s1 { books = b }) s' er in
    record {
      amount_is = ea;
      items_kept = ground (arith, es);
      balanced =
          λ h. subst IsBalanced (sym books) (c.balanced (subst IsBalanced (ground (arith, es)) h));
      credited = ground (arith, c.grown, es);
      requested = ground (arith, es);
      status_is = ground (arith, es, status);
      order_row =
          subst (λ o. IsWritten read o s.orders s'.orders) (sym ep)
            (subst (λ os. IsWritten read q os s'.orders) (ground (arith, es))
              (roll_up-IsWritten now read q (record s1 { books = b }) s' er));
    }

pay_refund-IsPaid :
    (now user amount : ℕ) (read : Order) (it : OrderItem) (p : PaymentStatus) (s s' : Shop)
    → pay_refund now user read it s ≡ ok (refunded_line amount p, s')
    → IsPaid s s' read it amount p
unfolding pay_refund
pay_refund-IsPaid now user amount read it p s s' e =
    let ref : Reference = refund_item read.id it.id in
    let r : RefundRequest = line_refund now read it in
    elim (Result-cases (create_refund_request r s)) [
      | inr (x, u) ↦ ground arith
      | inl ((a, s1), u) ↦ elim (Result-cases (credit_refund user (line_total it) ref s1.books)) [
        | inr (x, v) ↦ ground arith
        | inl ((c, b), v) ↦
            let s2 : Shop = record s1 { books = b } in
            elim (Result-cases (roll_up now read s2)) [
              | inr (x, w) ↦ ground arith
              | inl ((q, s3), w) ↦
                  pay_steps now user amount read it p q s s1 s' b
                    (create_refund_request_lem r s s1 a u)
                    (credit_refund-IsCredited user (line_total it) ref s1.books b v) (ground arith)
                    (ground arith) (ground arith)
            ]
      ]
    ]

-- After a refund that was paid, every other request for the line, also one that had read the rows
-- before it, is answered as already refunded and changes nothing.
pub refunded_once :
    (now later user other amount : ℕ) (read late : Order) (it : OrderItem) (p : PaymentStatus)
    (s s' : Shop)
    → write_refund now user read it s ≡ ok (refunded_line amount p, s')
    → write_refund later other late it s' ≡ ok (already_refunded, s')
unfolding write_refund mark_refunded
refunded_once now later user other amount read late it p s s' e =
    elim (Option-cases (find_first (is_item it.id) s.items)) [
      | inl n ↦ ground arith
      | inr (x, f) ↦ elim (Bool-cases x.is_refunded) [
        | inl old ↦ ground arith
        | inr new ↦
            let y : OrderItem = record x { is_refunded = true } in
            let marked : Shop = record s { items = replace_first (is_item it.id) y s.items } in
            let paid = pay_refund-IsPaid now user amount read it p marked s' (ground arith) in
            ground (
              arith,
              paid.items_kept,
              find_first-test (is_item it.id) s.items x f,
              find_first-replace_first_self (is_item it.id) y s.items x f,
            )
      ]
    ]
