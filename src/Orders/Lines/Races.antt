-- ===== src/Orders/Lines/Races.antt =====
-- backend/src/orders/orders.service.ts: requests whose transaction does not look again at what was
-- read before it, and the total that a partial cancellation leaves.
use shop_verse.Base.{
  ℕ, ◌+◌, ◌≡◌, ◌⊎◌, ◌∙◌, refl, true, false, not, List, [], ◌∷◌, find_first, filter_where, all,
  sum_by, if◌then◌else◌, arith, ok, inl, inr, Option-cases, Bool-cases, Result-cases,
}
use shop_verse.Inventory.{release}
use shop_verse.Orders.Tables.{Shop, Order, OrderItem, is_item, update_item}
use shop_verse.Orders.Writes.{update_order_lem}
use shop_verse.Orders.Lines.{
  write_cancelled_item, recalculate, remaining, new_total, is_all_cancelled, line_total,
}

update_item_keeps :
    (id : ℕ) (f : OrderItem → OrderItem) (s s' : Shop) (u : Unit {0})
    → update_item id f s ≡ ok (u, s')
    → (s'.stock ≡ s.stock) × (s'.orders ≡ s.orders)
unfolding update_item
update_item_keeps id f s s' u e = elim (Option-cases (find_first (is_item id) s.items)) [
  | inl n ↦ ground arith
  | inr (x, h) ↦ ground arith
]

-- A cancellation of a line that was written: the stock is released and the order recalculated.
cancelled_item_steps :
    (now : ℕ) (read : Order) (lines : List OrderItem) (it : OrderItem) (s s' : Shop) (o : Order)
    → write_cancelled_item now read lines it s ≡ ok (o, s')
    → (release it.variant_id it.quantity s.stock ≡ ok (tt, s'.stock))
      × (o.total ≡ (if is_all_cancelled it.id lines then 0 else new_total it.id lines))
unfolding write_cancelled_item
cancelled_item_steps now read lines it s s' o e =
    elim (Result-cases (update_item it.id (λ i. record i { is_cancelled = true }) s)) [
      | inr (x, u) ↦ ground arith
      | inl ((a, s1), u) ↦ elim (Result-cases (release it.variant_id it.quantity s1.stock)) [
        | inr (x, v) ↦ ground arith
        | inl ((c, t), v) ↦
            let (same, orders) =
              update_item_keeps it.id (λ i. record i { is_cancelled = true }) s s1 a u in
            let (b, f, eo, es) =
              update_order_lem now read.id (recalculate it.id read lines) (record s1 { stock = t })
                o s' (ground arith) in
            (ground arith, ground arith)
      ]
    ]

-- Two cancellations of a line that had both read it as active, run one after the other, release its
-- quantity twice if both succeed: the transaction does not ask again whether it is cancelled.
pub released_twice :
    (now later : ℕ) (read : Order) (lines : List OrderItem) (it : OrderItem) (s s1 s2 : Shop)
    (o1 o2 : Order)
    → write_cancelled_item now read lines it s ≡ ok (o1, s1)
    → write_cancelled_item later read lines it s1 ≡ ok (o2, s2)
    → (release it.variant_id it.quantity s.stock ≡ ok (tt, s1.stock))
      × (release it.variant_id it.quantity s1.stock ≡ ok (tt, s2.stock))
released_twice now later read lines it s s1 s2 o1 o2 e1 e2 = (
  (cancelled_item_steps now read lines it s s1 o1 e1).0,
  (cancelled_item_steps later read lines it s1 s2 o2 e2).0,
)

sum_by-split :
    (lines : List OrderItem)
    → sum_by line_total lines
      ≡ sum_by line_total (filter_where (λ i. not i.is_cancelled) lines)
        + sum_by line_total (filter_where (λ i. i.is_cancelled) lines)
sum_by-split [] = refl
sum_by-split (x ∷ xs) = elim (Bool-cases x.is_cancelled) [
  | inl c ↦ rw c (omega (arith, sum_by-split xs))
  | inr a ↦ rw a (omega (arith, sum_by-split xs))
]

-- A cancellation of a line leaves the order with a total of 0 if the other lines that were read are
-- all cancelled. Otherwise the total is the price of the others that are active and, besides, of
-- those that were cancelled before.
pub cancelled_item_total :
    (now : ℕ) (read : Order) (lines : List OrderItem) (it : OrderItem) (s s' : Shop) (o : Order)
    → write_cancelled_item now read lines it s ≡ ok (o, s')
    → let others = remaining it.id lines in
      ((all (λ i. i.is_cancelled) others ≡ true) × (o.total ≡ 0))
      ⊎ ((all (λ i. i.is_cancelled) others ≡ false)
          × (o.total
              ≡ sum_by line_total (filter_where (λ i. not i.is_cancelled) others)
                + sum_by line_total (filter_where (λ i. i.is_cancelled) others)))
cancelled_item_total now read lines it s s' o e =
    let others : List OrderItem = remaining it.id lines in
    let (released, total) = cancelled_item_steps now read lines it s s' o e in
    elim (Bool-cases (all (λ i. i.is_cancelled) others)) [
      | inl t ↦ inl (t, rw t at total)
      | inr f ↦ inr (f, (rw f at total) ∙ sum_by-split others)
    ]
