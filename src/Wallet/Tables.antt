-- ===== src/Wallet/Tables.antt =====
-- The tables of money: `Wallet`, `WalletTransaction` and `LedgerEntry` (prisma/schema/main.prisma).
-- Amounts are millionths of the currency, so that percentages of cents are whole. The unique keys
-- of the schema are tests of the writes.
use shop_verse.Base.{
  ℕ, ◌+◌, Bool, ◌&&◌, none, some, List, ◌∷◌, find_first, replace_first, any, ◌==◌, if◌then◌else◌,
  ok, err, Tx, unique_violation,
}

pub data WalletTxType : Type 0 where
  credit_type debit_type refund_type bonus_type : WalletTxType

pub data LedgerType : Type 0 where
  order_payment refund_entry wallet_credit wallet_debit commission commission_payout adjustment :
      LedgerType

-- The strings that the services build as references; `named` is any other that a caller passes.
pub data Reference : Type 0 where
  refund_order : (order : ℕ) → Reference
  refund_item : (order item : ℕ) → Reference
  cod_confirm : (order : ℕ) → Reference
  order_wallet : (order : ℕ) → Reference
  refund_stripe : (order : ℕ) → Reference
  wallet_reversal : (order : ℕ) → Reference
  refund_chargeback : (order : ℕ) → Reference
  refund_approval : (approval : ℕ) → Reference
  withdrawal : (uuid : ℕ) → Reference
  generated : (uuid : ℕ) → Reference
  named : (text : ℕ) → Reference

abbrev pub prefix : Reference → ℕ
prefix (refund_order o) = 0
prefix (refund_item o i) = 1
prefix (cod_confirm o) = 2
prefix (withdrawal u) = 3
prefix (generated u) = 4
prefix (order_wallet o) = 5
prefix (named t) = 6
prefix (refund_stripe o) = 7
prefix (wallet_reversal o) = 8
prefix (refund_chargeback o) = 9
prefix (refund_approval a) = 10

abbrev pub first_key : Reference → ℕ
first_key (refund_order o) = o
first_key (refund_item o i) = o
first_key (cod_confirm o) = o
first_key (withdrawal u) = u
first_key (generated u) = u
first_key (order_wallet o) = o
first_key (named t) = t
first_key (refund_stripe o) = o
first_key (wallet_reversal o) = o
first_key (refund_chargeback o) = o
first_key (refund_approval a) = a

abbrev pub second_key : Reference → ℕ
second_key (refund_order o) = 0
second_key (refund_item o i) = i
second_key (cod_confirm o) = 0
second_key (withdrawal u) = 0
second_key (generated u) = 0
second_key (order_wallet o) = 0
second_key (named t) = 0
second_key (refund_stripe o) = 0
second_key (wallet_reversal o) = 0
second_key (refund_chargeback o) = 0
second_key (refund_approval a) = 0

abbrev pub is_same_reference : Reference → Reference → Bool
is_same_reference a b =
    prefix a == prefix b && first_key a == first_key b && second_key a == second_key b

abbrev pub type_code : WalletTxType → ℕ
type_code credit_type = 0
type_code debit_type = 1
type_code refund_type = 2
type_code bonus_type = 3

pub record Wallet : Type 0 where
  pub id : ℕ
  pub user_id : ℕ
  pub balance : ℕ

pub record WalletTransaction : Type 0 where
  pub wallet_id : ℕ
  pub amount : ℕ
  pub type : WalletTxType
  pub reference : Reference
  pub balance_after : ℕ

pub record LedgerEntry : Type 0 where
  pub type : LedgerType
  pub debit_amount : ℕ
  pub credit_amount : ℕ
  pub reference : Reference

-- The lists of transactions and entries have the newest first. `next_wallet` is the next value of
-- the autoincrement of `Wallet.id`.
pub record Books : Type 0 where
  pub wallets : List Wallet
  pub next_wallet : ℕ
  pub transactions : List WalletTransaction
  pub ledger : List LedgerEntry

abbrev pub is_user : ℕ → Wallet → Bool
is_user u w = u == w.user_id

abbrev pub is_wallet : ℕ → Wallet → Bool
is_wallet i w = i == w.id

-- The unique key (walletId, reference, type).
abbrev pub has_key : ℕ → Reference → WalletTxType → WalletTransaction → Bool
has_key i ref ty t =
    i == t.wallet_id && is_same_reference ref t.reference && type_code ty == type_code t.type

-- wallet.upsert: create with the balance given, or increment.
unfoldable pub upsert_wallet : ℕ → ℕ → Tx Books Wallet
upsert_wallet user amount s = elim (find_first (is_user user) s.wallets) [
  | some w ↦
      let w' : Wallet = record w { balance = w.balance + amount } in
      ok (w', record s { wallets = replace_first (is_user user) w' s.wallets })
  | none ↦
      let w : Wallet = record { id = s.next_wallet; user_id = user; balance = amount } in
      ok (w, record s { wallets = w ∷ s.wallets; next_wallet = s.next_wallet + 1 })
]

unfoldable pub create_transaction : WalletTransaction → Tx Books (Unit {0})
create_transaction t s =
    if any (has_key t.wallet_id t.reference t.type) s.transactions
    then err unique_violation
    else ok (tt, record s { transactions = t ∷ s.transactions })

abbrev pub create_entry : LedgerEntry → Tx Books (Unit {0})
create_entry e s = ok (tt, record s { ledger = e ∷ s.ledger })
