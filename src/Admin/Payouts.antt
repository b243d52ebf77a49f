-- ===== src/Admin/Payouts.antt =====
-- What the approved refunds of one order in backend/src/admin/admin.service.ts pay.
use shop_verse.Base.{
  ℕ, ◌+◌, ◌≡◌, refl, sym, ap, true, some, List, [], ◌∷◌, any, find_first, ltb, arith, ok, transact,
  inl, inr, subst, Bool-cases, Option-cases, Result-cases, find_first-test,
  find_first-replace_first_self,
}
use shop_verse.Wallet.Tables.{
  Books, Wallet, WalletTransaction, credit_type, refund_order, refund_approval, is_user, has_key,
  upsert_wallet,
}
use shop_verse.Wallet.{max_wallet_balance, refund_to_wallet, credit, credit_transaction}
use shop_verse.Wallet.Keys.{create_transaction-cases}
use shop_verse.Wallet.Effects.{credit_again}
use shop_verse.Wallet.Conservation.{credit_record}
use shop_verse.Admin.{
  RefundApproval, Desk, is_approval, is_request, upsert_request, settle, execute_refund,
}

-- The wallet of the user has the transaction of a refund of the order.
pub record IsPaidBack (user order : ℕ) (s : Books) : Type 0 where
  pub wallet : Wallet
  pub found : find_first (is_user user) s.wallets ≡ some wallet
  pub recorded : any (has_key wallet.id (refund_order order) credit_type) s.transactions ≡ true

upserted :
    (user amount : ℕ) (s b : Books) (w : Wallet)
    → upsert_wallet user amount s ≡ ok (w, b)
    → find_first (is_user user) b.wallets ≡ some w
unfolding upsert_wallet
upserted user amount s b w e = elim (Option-cases (find_first (is_user user) s.wallets)) [
  | inl fresh ↦ ground arith
  | inr (x, f) ↦ ground (
    arith,
    find_first-test (is_user user) s.wallets x f,
    find_first-replace_first_self (is_user user) (record x { balance = x.balance + amount })
        s.wallets x f,
  )
]

credit_transaction-IsPaidBack :
    (user amount order : ℕ) (s s' : Books) (t : WalletTransaction)
    → credit_transaction user amount (refund_order order) s ≡ ok (t, s')
    → IsPaidBack user order s'
unfolding credit_transaction
credit_transaction-IsPaidBack user amount order s s' t e =
    elim (Result-cases (upsert_wallet user amount s)) [
      | inr (x, u) ↦ ground arith
      | inl ((w, b), u) ↦ elim (Bool-cases (ltb max_wallet_balance w.balance)) [
        | inl over ↦ ground arith
        | inr under ↦
            elim (create_transaction-cases
              (credit_record w.id amount (refund_order order) w.balance) b) [
                | inl taken ↦ ground arith
                | inr (fresh, written) ↦ record {
                  wallet = w;
                  found = ground (arith, upserted user amount s b w u);
                  recorded = ground arith;
                }
              ]
      ]
    ]

upsert_keeps :
    (now : ℕ) (a : RefundApproval) (d : Desk) → (upsert_request now a d.shop).books ≡ d.shop.books
upsert_keeps now a d =
    elim (Option-cases (find_first (is_request (refund_approval a.id)) d.shop.refunds)) [
      | inl fresh ↦ ground arith
      | inr (r, f) ↦ ground arith
    ]

settle_keeps :
    (now by n : ℕ) (a : RefundApproval) (d d' : Desk)
    → settle now by a d ≡ ok (n, d')
    → d'.shop.books ≡ d.shop.books
unfolding settle
settle_keeps now by n a d d' e =
    elim (Option-cases (find_first (is_request (refund_approval a.id)) d.shop.refunds)) [
      | inl gone ↦ ground arith
      | inr (r, f) ↦ elim (Option-cases (find_first (is_approval a.id) d.approvals)) [
        | inl gone ↦ ground arith
        | inr (x, g) ↦ ground arith
      ]
    ]

-- The books after an execution are those after its credit.
execute_refund-books :
    (now by u : ℕ) (a : RefundApproval) (d : Desk)
    → (execute_refund now by a (some u) d).1.shop.books
      ≡ (refund_to_wallet u a.amount a.order_id d.shop.books).1
unfolding execute_refund
execute_refund-books now by u a d =
    let s1 = upsert_request now a d.shop in
    let paid = refund_to_wallet u a.amount a.order_id s1.books in
    let d2 : Desk = record d { shop = record s1 { books = paid.1 } } in
    let kept : paid.1 ≡ (refund_to_wallet u a.amount a.order_id d.shop.books).1 =
      ap (λ b. (refund_to_wallet u a.amount a.order_id b).1) (upsert_keeps now a d) in
    elim (Result-cases paid.0) [
      | inr (x, f) ↦ rw (execute_refund, f) kept
      | inl (t, f) ↦ elim (Result-cases (settle now by a d2)) [
        | inr (x, g) ↦ rw (execute_refund, f, transact, g) kept
        | inl ((n, d3), g) ↦
            rw (execute_refund, f, transact, g)
              (ground (arith, kept, settle_keeps now by n a d2 d3 g))
      ]
    ]

refund-again :
    (u amount order : ℕ) (s : Books)
    → IsPaidBack u order s
    → (refund_to_wallet u amount order s).1 ≡ s
unfolding refund_to_wallet
refund-again u amount order s p =
    elim (credit_again u amount (refund_order order) s p.wallet p.found p.recorded) [
      | inl (over, e) ↦ ground (arith, e)
      | inr (t, e, k) ↦ ground (arith, e)
    ]

refund-first :
    (u amount order : ℕ) (s b : Books) (t : WalletTransaction)
    → credit_transaction u amount (refund_order order) s ≡ ok (t, b)
    → (refund_to_wallet u amount order s).1 ≡ b
unfolding refund_to_wallet credit
refund-first u amount order s b t e = ground arith

-- An execution: when, by whom, and the approval that had been read.
pub record Execution : Type 0 where
  pub now : ℕ
  pub by : ℕ
  pub approval : RefundApproval

abbrev pub execute_all : (user : ℕ) → List Execution → Desk → Desk
execute_all u [] d = d
execute_all u (x ∷ xs) d = execute_all u xs (execute_refund x.now x.by x.approval (some u) d).1

abbrev pub IsOf : (order : ℕ) → List Execution → Type 0
IsOf order [] = Unit
IsOf order (x ∷ xs) = (x.approval.order_id ≡ order) × IsOf order xs

execute_all-again :
    (u order : ℕ) (xs : List Execution) (d : Desk)
    → IsOf order xs
    → IsPaidBack u order d.shop.books
    → (execute_all u xs d).shop.books ≡ d.shop.books
execute_all-again u order [] d h p = refl
execute_all-again u order (x ∷ xs) d (h, hs) p =
    let d1 : Desk = (execute_refund x.now x.by x.approval (some u) d).1 in
    let of_order : IsPaidBack u x.approval.order_id d.shop.books =
      subst (λ o. IsPaidBack u o d.shop.books) (sym h) p in
    let same : d1.shop.books ≡ d.shop.books = ground (
      arith,
      execute_refund-books x.now x.by u x.approval d,
      refund-again u x.approval.amount x.approval.order_id d.shop.books of_order,
    ) in
    ground
      (arith, same, execute_all-again u order xs d1 hs (subst (IsPaidBack u order) (sym same) p))

-- Once an approved refund has credited the buyer's wallet, no execution of an approval of the same
-- order moves money again: neither of the same approval by others that had read it as PENDING, nor
-- of another approval, whatever its amount. The wallets, the transactions and the ledger stay as
-- the first credit left them.
pub pays_once :
    (u now by : ℕ) (a : RefundApproval) (xs : List Execution) (d : Desk) (t : WalletTransaction)
    (b : Books)
    → credit_transaction u a.amount (refund_order a.order_id) d.shop.books ≡ ok (t, b)
    → IsOf a.order_id xs
    → (execute_all u xs (execute_refund now by a (some u) d).1).shop.books ≡ b
pays_once u now by a xs d t b e h =
    let d1 : Desk = (execute_refund now by a (some u) d).1 in
    let paid : d1.shop.books ≡ b = ground (
      arith,
      execute_refund-books now by u a d,
      refund-first u a.amount a.order_id d.shop.books b t e,
    ) in
    let p = credit_transaction-IsPaidBack u a.amount a.order_id d.shop.books b t e in
    ground (
      arith,
      paid,
      execute_all-again u a.order_id xs d1 h (subst (IsPaidBack u a.order_id) (sym paid) p),
    )
