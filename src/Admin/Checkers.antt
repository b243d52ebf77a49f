-- ===== src/Admin/Checkers.antt =====
-- That a high refund in backend/src/admin/admin.service.ts is decided by another person than the
-- one who asked for it.
use shop_verse.Base.{
  ℕ, ◌<◌, ◌≡◌, refl, true, false, Option, none, some, List, [], ◌∷◌, find_first, find_first-test,
  replace_first, All, All-replace_first, leb, ◌==◌, arith, ◌>>=◌, Result, ok, err, transact, inl,
  inr, subst, Bool-cases, Option-cases, Result-cases,
}
use shop_verse.Wallet.{refund_to_wallet}
use shop_verse.Wallet.Tables.{refund_approval}
use shop_verse.Orders.Tables.{is_order}
use shop_verse.Admin.{
  RefundApproval, Desk, executed, rejected, is_pending, is_approval, is_request,
  high_value_threshold, request_high_value_refund, find_pending, upsert_request, complete_request,
  write_approval, set_executed, set_rejected, settle, execute_refund, buyer_of,
  approve_refund_request, reject_refund_request,
}

-- The refund is above the threshold; the person who approved or rejected it did not ask for it.
pub record IsChecked (threshold : ℕ) (a : RefundApproval) : Type 0 where
  pub is_high : threshold < a.amount
  pub checked :
      a.status ≡ executed → (by : ℕ) × (a.approved_by ≡ some by) × ((a.requested_by == by) ≡ false)
  pub refused :
      a.status ≡ rejected → (by : ℕ) × (a.rejected_by ≡ some by) × ((a.requested_by == by) ≡ false)

abbrev pub IsCheckedDesk : ℕ → Desk → Type 0
IsCheckedDesk threshold d = All (IsChecked threshold) d.approvals

found-All :
    (P : RefundApproval → Type 0) (id : ℕ) (xs : List RefundApproval) (a : RefundApproval)
    → All P xs
    → find_first (is_approval id) xs ≡ some a
    → P a
found-All P id [] a h f = ground arith
found-All P id (x ∷ xs) a (h, hs) f = elim (Bool-cases (is_approval id x)) [
  | inl here ↦ subst P (ground arith) h
  | inr there ↦ found-All P id xs a hs (ground arith)
]

find_pending_lem :
    (id by : ℕ) (d d' : Desk) (a : RefundApproval)
    → find_pending id by d ≡ ok (a, d')
    → (find_first (is_approval id) d.approvals ≡ some a)
      × (is_pending a.status ≡ true)
      × ((a.requested_by == by) ≡ false)
      × (d' ≡ d)
unfolding find_pending
find_pending_lem id by d d' a e = elim (Option-cases (find_first (is_approval id) d.approvals)) [
  | inl gone ↦ ground arith
  | inr (x, f) ↦ ground arith
]

-- The row of an id is the row of its own id.
by_own_id :
    (id : ℕ) (xs : List RefundApproval) (a : RefundApproval)
    → find_first (is_approval id) xs ≡ some a
    → find_first (is_approval a.id) xs ≡ some a
by_own_id id xs a f =
    let same : id ≡ a.id = ground (arith, find_first-test (is_approval id) xs a f) in
    subst (λ i. find_first (is_approval i) xs ≡ some a) same f

write_approval-IsChecked :
    (threshold id : ℕ) (f : RefundApproval → RefundApproval) (a : RefundApproval) (d d' : Desk)
    (u : Unit {0})
    → IsCheckedDesk threshold d
    → find_first (is_approval id) d.approvals ≡ some a
    → IsChecked threshold (f a)
    → write_approval id f d ≡ ok (u, d')
    → IsCheckedDesk threshold d'
write_approval-IsChecked threshold id f a d d' u h found k e =
    let written : Desk = record d {
      approvals = replace_first (is_approval id) (f a) d.approvals;
    } in
    let same : written ≡ d' = ground (arith, found, e) in
    subst (IsCheckedDesk threshold) same
      (All-replace_first (IsChecked threshold) (is_approval id) (f a) d.approvals h k)

complete_request_keeps :
    (now id : ℕ) (d d' : Desk) (u : Unit {0})
    → complete_request now (refund_approval id) d ≡ ok (u, d')
    → d'.approvals ≡ d.approvals
complete_request_keeps now id d d' u e =
    elim (Option-cases (find_first (is_request (refund_approval id)) d.shop.refunds)) [
      | inl gone ↦ ground arith
      | inr (r, f) ↦ ground arith
    ]

settle-IsChecked :
    (threshold now by n : ℕ) (a : RefundApproval) (d d' : Desk)
    → IsCheckedDesk threshold d
    → find_first (is_approval a.id) d.approvals ≡ some a
    → (a.requested_by == by) ≡ false
    → settle now by a d ≡ ok (n, d')
    → IsCheckedDesk threshold d'
unfolding settle
settle-IsChecked threshold now by n a d d' h found other e =
    let high = (found-All (IsChecked threshold) a.id d.approvals a h found).is_high in
    elim (Result-cases (complete_request now (refund_approval a.id) d)) [
      | inr (x, f) ↦ ground arith
      | inl ((u, d1), f) ↦ elim (Result-cases (write_approval a.id (set_executed by) d1)) [
        | inr (x, g) ↦ ground arith
        | inl ((v, d2), g) ↦
            let same : d2 ≡ d' = ground arith in
            subst (IsCheckedDesk threshold) same (
              write_approval-IsChecked threshold a.id (set_executed by) a d1 d2 v
                (rw (complete_request_keeps now a.id d d1 u f) h)
                (rw (complete_request_keeps now a.id d d1 u f) found)
                (record {
                  is_high = high;
                  checked = λ s. (by, refl, other);
                  refused = λ s. ground arith;
                })
                g)
      ]
    ]

execute_refund-IsChecked :
    (threshold now by : ℕ) (a : RefundApproval) (user : Option ℕ) (d : Desk)
    → IsCheckedDesk threshold d
    → find_first (is_approval a.id) d.approvals ≡ some a
    → (a.requested_by == by) ≡ false
    → IsCheckedDesk threshold (execute_refund now by a user d).1
unfolding execute_refund
execute_refund-IsChecked threshold now by a none d h k other = h
execute_refund-IsChecked threshold now by a (some u) d h k other =
    let d1 : Desk = record d { shop = upsert_request now a d.shop } in
    let paid = refund_to_wallet u a.amount a.order_id d1.shop.books in
    let d2 : Desk = record d1 { shop = record (d1.shop) { books = paid.1 } } in
    elim (Result-cases paid.0) [
      | inr (x, f) ↦ rw (execute_refund, f) h
      | inl (t, f) ↦ elim (Result-cases (settle now by a d2)) [
        | inr (x, g) ↦ rw (execute_refund, f, transact, g) h
        | inl ((n, d3), g) ↦
            rw (execute_refund, f, transact, g)
              (settle-IsChecked threshold now by n a d2 d3 h k other g)
      ]
    ]

-- What the administrators ask for.
pub data Request : Type 0 where
  requesting : (order amount by : ℕ) → Request
  approving : (now id by : ℕ) → Request
  rejecting : (id by : ℕ) → Request

abbrev pub or_before : {A : Type 0} → Result (A × Desk) → Desk → Desk
or_before (ok (a, d')) d = d'
or_before (err e) d = d

abbrev pub serve : Option ℕ → Request → Desk → Desk
serve setting (requesting order amount by) d =
    or_before (request_high_value_refund setting order amount by d) d
serve setting (approving now id by) d = (approve_refund_request now id by d).1
serve setting (rejecting id by) d = or_before (reject_refund_request id by d) d

abbrev pub serve_all : Option ℕ → List Request → Desk → Desk
serve_all setting [] d = d
serve_all setting (q ∷ qs) d = serve_all setting qs (serve setting q d)

serve-IsChecked :
    (setting : Option ℕ) (q : Request) (d : Desk)
    → IsCheckedDesk (high_value_threshold setting) d
    → IsCheckedDesk (high_value_threshold setting) (serve setting q d)
unfolding request_high_value_refund approve_refund_request reject_refund_request
serve-IsChecked setting (requesting order amount by) d h =
    elim (Option-cases (find_first (is_order order) d.shop.orders)) [
      | inl gone ↦ rw (request_high_value_refund, gone) h
      | inr (o, f) ↦ elim (Bool-cases (leb amount (high_value_threshold setting))) [
        | inl low ↦ rw (request_high_value_refund, f, low) h
        | inr high ↦
            rw (request_high_value_refund, f, high)
              (
                record {
                  is_high = ground (arith, high);
                  checked = λ s. ground arith;
                  refused = λ s. ground arith;
                },
                h,
              )
      ]
    ]
serve-IsChecked setting (approving now id by) d h = elim (Result-cases (find_pending id by d)) [
  | inr (x, e) ↦ rw (serve, approve_refund_request, e) h
  | inl ((a, d'), e) ↦
      let (f, waits, other, same) = find_pending_lem id by d d' a e in
      rw (serve, approve_refund_request, e)
        (execute_refund-IsChecked (high_value_threshold setting) now by a (buyer_of a.order_id d) d
          h (by_own_id id d.approvals a f) other)
]
serve-IsChecked setting (rejecting id by) d h = elim (Result-cases (find_pending id by d)) [
  | inr (x, e) ↦ rw (serve, or_before, reject_refund_request, ◌>>=◌, e) h
  | inl ((a, d'), e) ↦
      let (f, waits, other, same) = find_pending_lem id by d d' a e in
      let k = found-All (IsChecked (high_value_threshold setting)) id d.approvals a h f in
      let before : IsCheckedDesk (high_value_threshold setting) d' = rw same h in
      elim (Result-cases (write_approval a.id (set_rejected by) d')) [
        | inr (x, g) ↦ rw (serve, or_before, reject_refund_request, ◌>>=◌, e, g) h
        | inl ((u, d2), g) ↦
            rw (serve, or_before, reject_refund_request, ◌>>=◌, e, g)
              (write_approval-IsChecked (high_value_threshold setting) a.id (set_rejected by) a d'
                d2 u before (rw same (by_own_id id d.approvals a f))
                (record {
                  is_high = k.is_high;
                  checked = λ s. ground arith;
                  refused = λ s. (by, refl, other);
                })
                g)
      ]
]

-- Through any sequence of requests, approvals and rejections, whichever of them fail, every refund
-- on the desk is above the threshold, and the person who approved or rejected it is another one
-- than the one who asked for it.
pub serve_all-IsChecked :
    (setting : Option ℕ) (qs : List Request) (d : Desk)
    → IsCheckedDesk (high_value_threshold setting) d
    → IsCheckedDesk (high_value_threshold setting) (serve_all setting qs d)
serve_all-IsChecked setting [] d h = h
serve_all-IsChecked setting (q ∷ qs) d h =
    serve_all-IsChecked setting qs (serve setting q d) (serve-IsChecked setting q d h)
