-- ===== src/Admin/Tests.antt =====
-- Two refunds of one order of 6000, which agent 3 asks for and 4 approves.
use shop_verse.Base.{◌≡◌, refl, none, some, List, [], ◌∷◌, map, ok, err, forbidden}
use shop_verse.Wallet.Tables.{
  Books, WalletTransaction, credit_type, wallet_credit, refund_order, upsert_wallet,
  create_transaction,
}
use shop_verse.Wallet.{credit, credit_transaction, refund_to_wallet, recover}
use shop_verse.Orders.Tables.{Shop, Order, delivered, stripe, paid, completed}
use shop_verse.Admin.{
  Desk, RefundApproval, pending, executed, request_high_value_refund, find_pending, settle,
  execute_refund, approve_refund_request,
}
use shop_verse.Admin.Checkers.{
  IsCheckedDesk, Request, requesting, approving, rejecting, serve_all, serve_all-IsChecked,
}
use shop_verse.Admin.Payouts.{execute_all, pays_once}

abbrev purchase : Order
purchase = record {
  id = 42;
  user_id = some 7;
  status = delivered;
  payment_method = stripe;
  payment_status = paid;
  subtotal = 6000000000;
  discount_amount = 0;
  shipping_fee = 0;
  tax_amount = 0;
  total = 6000000000;
  wallet_amount_used = 0;
  currency = "eur";
  coupon_code = none;
  payment_id = none;
  updated_at = 10;
}

abbrev shop : Shop
shop = record {
  stock = record { inventory = []; variants = []; default_warehouse = none };
  books = record { wallets = []; next_wallet = 1; transactions = []; ledger = [] };
  orders = purchase ∷ [];
  items = [];
  tracking = [];
  returns = [];
  refunds = [];
  reconciliations = [];
  reservations = [];
  next_reservation = 1;
  promotions = record { coupons = []; usages = []; delivered_orders = λ u. 0 };
  next_order = 43;
  next_item = 3;
}

abbrev empty : Desk
empty = record { shop = shop; approvals = []; next_approval = 1 }

abbrev two_requests : List Request
two_requests = requesting 42 6000000000 3 ∷ requesting 42 5500000000 3 ∷ []

abbrev asked : Desk
asked = serve_all none two_requests empty

abbrev first : RefundApproval
first = record {
  id = 1;
  order_id = 42;
  amount = 6000000000;
  requested_by = 3;
  status = pending;
  approved_by = none;
  rejected_by = none;
}

abbrev second : RefundApproval
second = record first { id = 2; amount = 5500000000 }

asks : asked.approvals ≡ second ∷ first ∷ []
unfolding request_high_value_refund
asks = refl

self_approval : approve_refund_request 60 1 3 asked ≡ (err forbidden, asked)
unfolding request_high_value_refund approve_refund_request find_pending
self_approval = refl

abbrev receipt : WalletTransaction
receipt = record {
  wallet_id = 1;
  amount = 6000000000;
  type = credit_type;
  reference = refund_order 42;
  balance_after = 6000000000;
}

abbrev paid_books : Books
paid_books = record {
  wallets = record { id = 1; user_id = 7; balance = 6000000000 } ∷ [];
  next_wallet = 2;
  transactions = receipt ∷ [];
  ledger =
      record {
        type = wallet_credit;
        debit_amount = 0;
        credit_amount = 6000000000;
        reference = refund_order 42;
      }
      ∷ [];
}

credits : credit_transaction 7 6000000000 (refund_order 42) shop.books ≡ ok (receipt, paid_books)
unfolding credit_transaction upsert_wallet create_transaction
credits = refl

-- The second refund is answered with its amount, and its request is COMPLETED, but the wallet has
-- only the first.
abbrev approved : Desk
approved = serve_all none (approving 60 1 4 ∷ approving 70 2 4 ∷ []) asked

second_unpaid :
    (approved.shop.books ≡ paid_books)
    × (map (λ r. r.status) approved.shop.refunds ≡ completed ∷ completed ∷ [])
    × (map (λ a. a.status) approved.approvals ≡ executed ∷ executed ∷ [])
unfolding request_high_value_refund approve_refund_request find_pending execute_refund settle
    refund_to_wallet credit credit_transaction upsert_wallet create_transaction recover
second_unpaid = (refl, refl, refl)

pays_once_example :
    (execute_all 7
      (record { now = 61; by = 5; approval = first }
        ∷ record { now = 70; by = 4; approval = second }
        ∷ [])
      (execute_refund 60 4 first (some 7) asked).1).shop.books
    ≡ paid_books
unfolding request_high_value_refund
pays_once_example =
    pays_once 7 60 4 first
      (record { now = 61; by = 5; approval = first }
        ∷ record { now = 70; by = 4; approval = second }
        ∷ [])
      asked receipt paid_books credits (refl, (refl, tt))

serve_all-IsChecked_example :
    IsCheckedDesk 5000000000
      (serve_all none (requesting 42 6000000000 3 ∷ approving 60 1 4 ∷ rejecting 1 4 ∷ []) empty)
serve_all-IsChecked_example =
    serve_all-IsChecked none (requesting 42 6000000000 3 ∷ approving 60 1 4 ∷ rejecting 1 4 ∷ [])
      empty tt
