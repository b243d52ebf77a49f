-- ===== src/Wallet/Tests.antt =====
-- One wallet, credited once.
use shop_verse.Base.{
  ◌+◌, ◌≡◌, ◌<◌, ◌⊎◌, refl, true, [], ◌∷◌, arith, ok, err, bad_request, leb, if◌then◌else◌,
}
use shop_verse.Wallet.Tables.{
  Books, Wallet, WalletTransaction, LedgerEntry, credit_type, wallet_credit, refund_order, named,
  upsert_wallet, create_transaction,
}
use shop_verse.Wallet.{
  credit, debit, withdraw, refund_to_wallet, credit_transaction, debit_transaction,
  withdraw_if_covered, recover, belongs, max_wallet_balance,
}
use shop_verse.Wallet.Balance.{IsBalanced}
use shop_verse.Wallet.Conservation.{
  IsSound, crediting, debiting, serve_all, serve_all-IsSound, post, debit_booking,
}
use shop_verse.Wallet.Effects.{credit_again, debit_outcome, debited, receipt}

abbrev purse : Wallet
purse = record { id = 1; user_id = 7; balance = 500 }

abbrev refund : WalletTransaction
refund = record {
  wallet_id = 1;
  amount = 500;
  type = credit_type;
  reference = refund_order 42;
  balance_after = 500;
}

abbrev refund_booking : LedgerEntry
refund_booking = record {
  type = wallet_credit;
  debit_amount = 0;
  credit_amount = 500;
  reference = refund_order 42;
}

abbrev refunded : Books
refunded = record {
  wallets = purse ∷ [];
  next_wallet = 2;
  transactions = refund ∷ [];
  ledger = refund_booking ∷ [];
}

abbrev empty_books : Books
empty_books = record { wallets = []; next_wallet = 1; transactions = []; ledger = [] }

first_refund : refund_to_wallet 7 500 42 empty_books ≡ (ok refund, refunded)
unfolding refund_to_wallet credit credit_transaction upsert_wallet create_transaction
first_refund = refl

second_refund : refund_to_wallet 7 500 42 refunded ≡ (ok refund, refunded)
unfolding refund_to_wallet credit credit_transaction upsert_wallet create_transaction recover
second_refund = refl

overdraft : (withdraw 1 7 501 refunded) ≡ (err bad_request, refunded)
unfolding withdraw debit debit_transaction withdraw_if_covered recover
overdraft = refl

empty_books-IsBalanced : IsBalanced empty_books
empty_books-IsBalanced = record {
  conserved = λ i. refl;
  credits_booked = refl;
  debits_booked = refl;
  once = λ i ref ty. omega arith;
}

serve_all-IsSound_example : IsSound (
    serve_all
      (crediting 7 500 (refund_order 42)
        ∷ crediting 7 500 (refund_order 42)
        ∷ debiting 7 200 (named 3)
        ∷ debiting 7 400 (named 4)
        ∷ [])
      empty_books)
serve_all-IsSound_example =
    serve_all-IsSound
      (crediting 7 500 (refund_order 42)
        ∷ crediting 7 500 (refund_order 42)
        ∷ debiting 7 200 (named 3)
        ∷ debiting 7 400 (named 4)
        ∷ [])
      empty_books (empty_books-IsBalanced, tt)

credit_again_run :
    ((max_wallet_balance < 500 + 100000000000)
      × (credit 7 100000000000 (refund_order 42) refunded ≡ (err bad_request, refunded)))
    ⊎ ((t : WalletTransaction) × (credit 7 100000000000 (refund_order 42) refunded
          ≡ (ok t, refunded))
        × (belongs refunded 7 (refund_order 42) credit_type t ≡ true))
credit_again_run = credit_again 7 100000000000 (refund_order 42) refunded purse refl refl

debit_outcome_run : debit 7 200 (named 3) refunded ≡ (
    if leb 200 500
    then (
      ok (receipt 7 200 (named 3) refunded purse refl refl refl),
      post
          (debited 7 200 (named 3) refunded purse refl refl refl)
          (receipt 7 200 (named 3) refunded purse refl refl refl)
          (debit_booking 200 (named 3)),
    )
    else (err bad_request, refunded))
debit_outcome_run = debit_outcome 7 200 (named 3) refunded purse refl refl refl
