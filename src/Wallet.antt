-- ===== src/Wallet.antt =====
-- backend/src/wallet/wallet.service.ts: credits and debits of a user's wallet. A reference that the
-- caller leaves out is a fresh one, an argument here. Amounts are millionths of the currency, as
-- the tables' are.
pub mod Tables
pub mod Keys
pub mod Balance
pub mod Conservation
pub mod Effects
mod Tests
use shop_verse.Base.{
  ℕ, ◌+◌, ◌-◌, Bool, true, false, not, ◌&&◌, Option, none, some, List, [], ◌∷◌, find_first,
  replace_first, filter_where, any, take, leb, ltb, ◌==◌, if◌then◌else◌, Result, ok, err, Error, Tx,
  Action, ◌>>=◌, ◌>>◌, pure, throw_if, or_throw, unique_violation, bad_request, not_found, fault,
}
use shop_verse.Wallet.Tables.{
  Books, Wallet, WalletTransaction, WalletTxType, Reference, LedgerEntry, credit_type, debit_type,
  wallet_credit, wallet_debit, withdrawal, refund_order, is_user, is_wallet, is_same_reference,
  type_code, upsert_wallet, create_transaction, create_entry,
}

abbrev pub max_wallet_balance : ℕ
max_wallet_balance = 100000000000

-- The wallet with its twenty newest transactions, created empty where there is none.
unfoldable pub get_wallet : ℕ → Tx Books (Wallet × List WalletTransaction)
get_wallet user = do
  w ← upsert_wallet user 0
  λ s. ok ((w, take 20 (filter_where (λ t. w.id == t.wallet_id) s.transactions)), s)

unfoldable pub credit_transaction : ℕ → ℕ → Reference → Tx Books WalletTransaction
credit_transaction user amount ref = do
  w ← upsert_wallet user amount
  throw_if (ltb max_wallet_balance w.balance) bad_request
  let t : WalletTransaction = record {
    wallet_id = w.id;
    amount = amount;
    type = credit_type;
    reference = ref;
    balance_after = w.balance;
  }
  create_transaction t
  create_entry
      (record { type = wallet_credit; debit_amount = 0; credit_amount = amount; reference = ref })
  pure t

-- wallet.updateMany where the id and `balance >= amount`. The answer says whether a row changed.
unfoldable pub withdraw_if_covered : ℕ → ℕ → Tx Books Bool
withdraw_if_covered id amount s = elim (find_first (is_wallet id) s.wallets) [
  | none ↦ ok (false, s)
  | some w ↦
      if leb amount w.balance
      then ok (
        true,
        record s {
          wallets =
              replace_first (is_wallet id) (record w { balance = w.balance - amount }) s.wallets;
        },
      )
      else ok (false, s)
]

unfoldable pub debit_transaction : ℕ → ℕ → Reference → Tx Books WalletTransaction
debit_transaction user amount ref = do
  w ← λ s. or_throw (find_first (is_user user) s.wallets) not_found s
  covered ← withdraw_if_covered w.id amount
  throw_if (not covered) bad_request
  refreshed ← λ s. or_throw (find_first (is_wallet w.id) s.wallets) fault s
  let t : WalletTransaction = record {
    wallet_id = w.id;
    amount = amount;
    type = debit_type;
    reference = ref;
    balance_after = refreshed.balance;
  }
  create_transaction t
  create_entry
      (record { type = wallet_debit; debit_amount = amount; credit_amount = 0; reference = ref })
  pure t

-- The query of the `catch`: the transaction of the user with the reference and the type.
abbrev pub belongs : Books → ℕ → Reference → WalletTxType → WalletTransaction → Bool
belongs s user ref ty t =
    any (λ w. is_wallet t.wallet_id w && is_user user w) s.wallets
    && is_same_reference ref t.reference
    && type_code ty == type_code t.type

abbrev pub found_or : Error → Option WalletTransaction → Result WalletTransaction
found_or e none = err e
found_or e (some t) = ok t

-- The `catch`: a unique violation is answered with the transaction that there is.
unfoldable pub recover : ℕ → Reference → WalletTxType → Error → Books → Result WalletTransaction
recover user ref ty e s = elim e [
  | unique_violation ↦ found_or unique_violation (find_first (belongs s user ref ty) s.transactions)
  | other ↦ err other
]

unfoldable pub credit : ℕ → ℕ → Reference → Action Books WalletTransaction
credit user amount ref s = elim (credit_transaction user amount ref s) [
  | ok (t, s') ↦ (ok t, s')
  | err e ↦ (recover user ref credit_type e s, s)
]

unfoldable pub debit : ℕ → ℕ → Reference → Action Books WalletTransaction
debit user amount ref s = elim (debit_transaction user amount ref s) [
  | ok (t, s') ↦ (ok t, s')
  | err e ↦ (recover user ref debit_type e s, s)
]

unfoldable pub withdraw : (uuid user amount : ℕ) → Action Books WalletTransaction
unfolding debit
withdraw uuid user amount = debit user amount (withdrawal uuid)

unfoldable pub refund_to_wallet : (user amount order : ℕ) → Action Books WalletTransaction
unfolding credit
refund_to_wallet user amount order = credit user amount (refund_order order)

unfoldable pub get_transaction_history : ℕ → Books → Result (List WalletTransaction)
get_transaction_history user s = elim (find_first (is_user user) s.wallets) [
  | none ↦ err not_found
  | some w ↦ ok (filter_where (λ t. w.id == t.wallet_id) s.transactions)
]
