-- ===== src/Wallet/Balance.antt =====
-- The invariant of the tables of backend/src/wallet/wallet.service.ts: each wallet holds what was
-- credited less what was debited, the ledger records the same amounts; and no
-- two transactions share a unique key.
use shop_verse.Base.{
  ℕ, ◌+◌, ◌-◌, ◌≤◌, ◌≡◌, Bool, true, find_first, count_where, sum_by, All, ◌==◌, if◌then◌else◌,
  arith, ok, inl, inr, Option-cases, sum_by-replace_first, All-replace_first, All-find_first,
  find_first-test,
}
use shop_verse.Wallet.Tables.{
  Books, Wallet, WalletTransaction, WalletTxType, LedgerEntry, Reference, wallet_credit,
  wallet_debit, is_user, is_wallet, has_key, upsert_wallet, type_code,
}
use shop_verse.Wallet.{max_wallet_balance, withdraw_if_covered}

abbrev pub balance_in : ℕ → Wallet → ℕ
balance_in i w = if i == w.id then w.balance else 0

abbrev pub credit_of : WalletTransaction → ℕ
credit_of t = if type_code t.type == 0 then t.amount else 0

abbrev pub debit_of : WalletTransaction → ℕ
debit_of t = if type_code t.type == 1 then t.amount else 0

abbrev pub credit_in : ℕ → WalletTransaction → ℕ
credit_in i t = if i == t.wallet_id then credit_of t else 0

abbrev pub debit_in : ℕ → WalletTransaction → ℕ
debit_in i t = if i == t.wallet_id then debit_of t else 0

-- What an entry of the two wallet types books.
abbrev pub credit_entry : LedgerEntry → ℕ
credit_entry e = elim e.type [ wallet_credit ↦ e.credit_amount | _ ↦ 0 ]

abbrev pub debit_entry : LedgerEntry → ℕ
debit_entry e = elim e.type [ wallet_debit ↦ e.debit_amount | _ ↦ 0 ]

abbrev pub IsCapped : Wallet → Type 0
IsCapped w = w.balance ≤ max_wallet_balance

pub record IsBalanced (s : Books) : Type 0 where
  pub conserved :
      (i : ℕ)
      → sum_by (balance_in i) s.wallets + sum_by (debit_in i) s.transactions
        ≡ sum_by (credit_in i) s.transactions
  pub credits_booked : sum_by credit_entry s.ledger ≡ sum_by credit_of s.transactions
  pub debits_booked : sum_by debit_entry s.ledger ≡ sum_by debit_of s.transactions
  pub once :
      (i : ℕ) (ref : Reference) (ty : WalletTxType)
      → count_where (has_key i ref ty) s.transactions ≤ 1

-- What a write of the wallets gives: the tables but for the wallets, and the balances by id.
pub record IsMoved (s s' : Books) (id plus minus : ℕ) : Type 0 where
  pub balances :
      (i : ℕ)
      → sum_by (balance_in i) s'.wallets + (if i == id then minus else 0)
        ≡ sum_by (balance_in i) s.wallets + (if i == id then plus else 0)
  pub transactions_kept : s'.transactions ≡ s.transactions
  pub ledger_kept : s'.ledger ≡ s.ledger

pub upsert_wallet-IsMoved :
    (user amount : ℕ) (s s' : Books) (w : Wallet)
    → upsert_wallet user amount s ≡ ok (w, s')
    → IsMoved s s' w.id amount 0
unfolding upsert_wallet
upsert_wallet-IsMoved user amount s s' w e =
    elim (Option-cases (find_first (is_user user) s.wallets)) [
      | inl n ↦ record {
        balances = λ i. ground arith;
        transactions_kept = ground arith;
        ledger_kept = ground arith;
      }
      | inr (r, h) ↦ record {
        balances = λ i. ground (
          arith,
          sum_by-replace_first (balance_in i) (is_user user)
              (record r { balance = r.balance + amount }) s.wallets r h,
        );
        transactions_kept = ground arith;
        ledger_kept = ground arith;
      }
    ]

pub withdraw_if_covered-IsMoved :
    (id amount : ℕ) (s s' : Books)
    → withdraw_if_covered id amount s ≡ ok (true, s')
    → IsMoved s s' id 0 amount
unfolding withdraw_if_covered
withdraw_if_covered-IsMoved id amount s s' e =
    let p : Wallet → Bool = is_wallet id in
    elim (Option-cases (find_first p s.wallets)) [
      | inl n ↦ ground arith
      | inr (r, h) ↦ record {
        balances = λ i. ground (
          arith,
          find_first-test p s.wallets r h,
          sum_by-replace_first (balance_in i) p (record r { balance = r.balance - amount })
              s.wallets r h,
        );
        transactions_kept = ground arith;
        ledger_kept = ground arith;
      }
    ]

pub upsert_wallet-IsCapped :
    (user amount : ℕ) (s s' : Books) (w : Wallet)
    → All IsCapped s.wallets
    → upsert_wallet user amount s ≡ ok (w, s')
    → IsCapped w
    → All IsCapped s'.wallets
unfolding upsert_wallet
upsert_wallet-IsCapped user amount s s' w c e h =
    elim (Option-cases (find_first (is_user user) s.wallets)) [
      | inl n ↦ ground (arith, h, c)
      | inr (r, f) ↦ ground (arith, All-replace_first IsCapped (is_user user) w s.wallets c h)
    ]

pub withdraw_if_covered-IsCapped :
    (id amount : ℕ) (s s' : Books)
    → All IsCapped s.wallets
    → withdraw_if_covered id amount s ≡ ok (true, s')
    → All IsCapped s'.wallets
unfolding withdraw_if_covered
withdraw_if_covered-IsCapped id amount s s' c e =
    let p : Wallet → Bool = is_wallet id in
    elim (Option-cases (find_first p s.wallets)) [
      | inl n ↦ ground arith
      | inr (r, f) ↦
          let w : Wallet = record r { balance = r.balance - amount } in
          let hr : IsCapped r = All-find_first IsCapped p s.wallets r f c in
          let fits : IsCapped w = omega (arith, hr) in
          ground (arith, fits, All-replace_first IsCapped p w s.wallets c fits)
    ]
