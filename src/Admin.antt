-- ===== src/Admin.antt =====
-- backend/src/admin/admin.service.ts: the refunds above a threshold, which one person asks for and
-- another one approves. A `RefundRequest` is found by its reference, which is unique.
pub mod Checkers
pub mod Payouts
mod Tests
use shop_verse.Base.{
  ℕ, ◌+◌, Bool, true, false, Option, none, some, List, [], ◌∷◌, find_first, replace_first, leb,
  ◌==◌, if◌then◌else◌, not, Result, ok, err, Tx, Action, ◌>>=◌, ◌>>◌, pure, throw_if, gets,
  or_throw, transact, not_found, bad_request, forbidden, fault,
}
use shop_verse.Wallet.Tables.{Reference, refund_approval, is_same_reference}
use shop_verse.Wallet.{refund_to_wallet}
use shop_verse.Orders.Tables.{
  Shop, Order, OrderStatus, set_status, update_order, RefundRequest, RefundRequestStatus,
  in_process, completed, to_wallet, is_order,
}

pub data ApprovalStatus : Type 0 where
  pending executed rejected : ApprovalStatus

abbrev pub is_pending : ApprovalStatus → Bool
is_pending pending = true
is_pending _ = false

-- The reasons and the dates are left out; the person is the one that approved or rejected.
pub record RefundApproval : Type 0 where
  pub id : ℕ
  pub order_id : ℕ
  pub amount : ℕ
  pub requested_by : ℕ
  pub status : ApprovalStatus
  pub approved_by : Option ℕ
  pub rejected_by : Option ℕ

pub record Desk : Type 0 where
  pub shop : Shop
  pub approvals : List RefundApproval
  pub next_approval : ℕ

-- HIGH_VALUE_THRESHOLD: the setting of the environment, of which 0 counts as none.
abbrev pub high_value_threshold : (setting : Option ℕ) → ℕ
high_value_threshold none = 5000000000
high_value_threshold (some n) = if n == 0 then 5000000000 else n

abbrev pub is_approval : ℕ → RefundApproval → Bool
is_approval i a = i == a.id

unfoldable pub request_high_value_refund :
    (setting : Option ℕ) → (order amount by : ℕ) → Tx Desk RefundApproval
request_high_value_refund setting order amount by d =
    elim (find_first (is_order order) d.shop.orders) [
      | none ↦ err not_found
      | some o ↦
          if leb amount (high_value_threshold setting)
          then err bad_request
          else let a : RefundApproval = record {
            id = d.next_approval;
            order_id = order;
            amount = amount;
            requested_by = by;
            status = pending;
            approved_by = none;
            rejected_by = none;
          } in
            ok (a, record d { approvals = a ∷ d.approvals; next_approval = d.next_approval + 1 })
    ]

-- The checks that an approval and a rejection share.
unfoldable pub find_pending : (id by : ℕ) → Tx Desk RefundApproval
find_pending id by = do
  found ← gets (λ d. find_first (is_approval id) d.approvals)
  a ← or_throw found not_found
  throw_if (not (is_pending a.status)) bad_request
  throw_if (a.requested_by == by) forbidden
  pure a

abbrev pub is_request : Reference → RefundRequest → Bool
is_request ref r = is_same_reference ref r.reference

abbrev pub new_request : (now : ℕ) → RefundApproval → RefundRequest
new_request now a = record {
  order_id = a.order_id;
  order_item_id = none;
  amount = a.amount;
  status = in_process;
  destination = to_wallet;
  gateway_ref = none;
  reference = refund_approval a.id;
  retry_count = 0;
  updated_at = now;
}

abbrev pub mark : (now : ℕ) → RefundRequestStatus → RefundRequest → RefundRequest
mark now status r = record r { status = status; updated_at = now }

-- refundRequest.upsert.
abbrev pub upsert_request : (now : ℕ) → RefundApproval → Shop → Shop
upsert_request now a s = elim (find_first (is_request (refund_approval a.id)) s.refunds) [
  | none ↦ record s { refunds = new_request now a ∷ s.refunds }
  | some r ↦ record s {
    refunds = replace_first (is_request (refund_approval a.id)) (mark now in_process r) s.refunds;
  }
]

-- refundApproval.update: the fields that are set, in the row as it is by now.
abbrev pub write_approval : (id : ℕ) → (RefundApproval → RefundApproval) → Tx Desk (Unit {0})
write_approval id f d = elim (find_first (is_approval id) d.approvals) [
  | none ↦ err fault
  | some x ↦ ok (tt, record d { approvals = replace_first (is_approval id) (f x) d.approvals })
]

abbrev pub set_executed : (by : ℕ) → RefundApproval → RefundApproval
set_executed by a = record a { status = executed; approved_by = some by }

abbrev pub set_rejected : (by : ℕ) → RefundApproval → RefundApproval
set_rejected by a = record a { status = rejected; rejected_by = some by }

abbrev pub complete_request : (now : ℕ) → Reference → Tx Desk (Unit {0})
complete_request now ref d = elim (find_first (is_request ref) d.shop.refunds) [
  | none ↦ err fault
  | some r ↦ ok (
    tt,
    record d {
      shop = record (d.shop) {
        refunds = replace_first (is_request ref) (mark now completed r) d.shop.refunds;
      };
    },
  )
]

-- The transaction at the end. It asks for nothing: the approval is EXECUTED whatever it is by now.
unfoldable pub settle : (now by : ℕ) → RefundApproval → Tx Desk ℕ
settle now by a = do
  complete_request now (refund_approval a.id)
  write_approval a.id (set_executed by)
  pure a.amount

-- What follows the checks, on the approval and the user of its order that were read with it.
unfoldable pub execute_refund : (now by : ℕ) → RefundApproval → (user : Option ℕ) → Action Desk ℕ
execute_refund now by a user d =
    let d1 = record d { shop = upsert_request now a d.shop } in
    elim user [
      | none ↦ (err bad_request, d1)
      | some u ↦
          let (answer, b) = refund_to_wallet u a.amount a.order_id d1.shop.books in
          let d2 = record d1 { shop = record (d1.shop) { books = b } } in
          elim answer [ err e ↦ (err e, d2) | ok t ↦ transact (settle now by a) d2 ]
    ]

-- An approval has its order, by the foreign key.
abbrev pub buyer_of : ℕ → Desk → Option ℕ
buyer_of order d = elim (find_first (is_order order) d.shop.orders) [
  | none ↦ none
  | some o ↦ o.user_id
]

unfoldable pub approve_refund_request : (now id by : ℕ) → Action Desk ℕ
approve_refund_request now id by d = elim (find_pending id by d) [
  | err e ↦ (err e, d)
  | ok (a, d') ↦ execute_refund now by a (buyer_of a.order_id d) d
]

unfoldable pub reject_refund_request : (id by : ℕ) → Tx Desk (Unit {0})
reject_refund_request id by = do a ← find_pending id by; write_approval a.id (set_rejected by)

-- The status of an order as an administrator sets it: neither stock nor points follow.
abbrev pub update_order_status : (now id : ℕ) → OrderStatus → Tx Shop Order
update_order_status now id status = update_order now id (set_status status)
