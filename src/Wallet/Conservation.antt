-- ===== src/Wallet/Conservation.antt =====
-- Credits and debits of backend/src/wallet/wallet.service.ts keep the books balanced.
use shop_verse.Base.{
  ℕ, ◌≡◌, true, false, List, [], ◌∷◌, any, All, ltb, arith, ok, inl, inr, subst, Option-cases,
  Bool-cases, Result-cases, find_first,
}
use shop_verse.Wallet.Tables.{
  Books, WalletTransaction, LedgerEntry, Reference, credit_type, debit_type, wallet_credit,
  wallet_debit, is_user, is_wallet, has_key, upsert_wallet,
}
use shop_verse.Wallet.{
  max_wallet_balance, credit_transaction, debit_transaction, withdraw_if_covered, credit, debit,
}
use shop_verse.Wallet.Keys.{create_transaction-once, create_transaction-cases}
use shop_verse.Wallet.Balance.{
  IsBalanced, IsMoved, IsCapped, upsert_wallet-IsMoved, withdraw_if_covered-IsMoved,
  upsert_wallet-IsCapped, withdraw_if_covered-IsCapped,
}

-- A write of the wallets that is recorded by a transaction and an entry.
abbrev pub post : Books → WalletTransaction → LedgerEntry → Books
post s t e = record s { transactions = t ∷ s.transactions; ledger = e ∷ s.ledger }

abbrev pub credit_record : ℕ → ℕ → Reference → ℕ → WalletTransaction
credit_record id amount ref after = record {
  wallet_id = id;
  amount = amount;
  type = credit_type;
  reference = ref;
  balance_after = after;
}

abbrev pub debit_record : ℕ → ℕ → Reference → ℕ → WalletTransaction
debit_record id amount ref after = record {
  wallet_id = id;
  amount = amount;
  type = debit_type;
  reference = ref;
  balance_after = after;
}

abbrev pub credit_booking : ℕ → Reference → LedgerEntry
credit_booking amount ref = record {
  type = wallet_credit;
  debit_amount = 0;
  credit_amount = amount;
  reference = ref;
}

abbrev pub debit_booking : ℕ → Reference → LedgerEntry
debit_booking amount ref = record {
  type = wallet_debit;
  debit_amount = amount;
  credit_amount = 0;
  reference = ref;
}

pub post_credit-IsBalanced :
    (s b : Books) (id amount after : ℕ) (ref : Reference)
    → IsBalanced s
    → IsMoved s b id amount 0
    → any (has_key id ref credit_type) b.transactions ≡ false
    → IsBalanced (post b (credit_record id amount ref after) (credit_booking amount ref))
post_credit-IsBalanced s b id amount after ref h m fresh = record {
  conserved = λ i. ground (arith, h.conserved i, m.balances i, m.transactions_kept);
  credits_booked = ground (arith, h.credits_booked, m.transactions_kept, m.ledger_kept);
  debits_booked = ground (arith, h.debits_booked, m.transactions_kept, m.ledger_kept);
  once = λ i r ty.
      create_transaction-once (credit_record id amount ref after) b.transactions i r ty fresh
        (rw m.transactions_kept (h.once i r ty));
}

post_debit-IsBalanced :
    (s b : Books) (id amount after : ℕ) (ref : Reference)
    → IsBalanced s
    → IsMoved s b id 0 amount
    → any (has_key id ref debit_type) b.transactions ≡ false
    → IsBalanced (post b (debit_record id amount ref after) (debit_booking amount ref))
post_debit-IsBalanced s b id amount after ref h m fresh = record {
  conserved = λ i. ground (arith, h.conserved i, m.balances i, m.transactions_kept);
  credits_booked = ground (arith, h.credits_booked, m.transactions_kept, m.ledger_kept);
  debits_booked = ground (arith, h.debits_booked, m.transactions_kept, m.ledger_kept);
  once = λ i r ty.
      create_transaction-once (debit_record id amount ref after) b.transactions i r ty fresh
        (rw m.transactions_kept (h.once i r ty));
}

abbrev pub IsSound : Books → Type 0
IsSound s = IsBalanced s × All IsCapped s.wallets

credit_transaction-IsSound :
    (user amount : ℕ) (ref : Reference) (s s' : Books) (t : WalletTransaction)
    → IsSound s
    → credit_transaction user amount ref s ≡ ok (t, s')
    → IsSound s'
unfolding credit_transaction
credit_transaction-IsSound user amount ref s s' t (h, c) e =
    elim (Result-cases (upsert_wallet user amount s)) [
      | inr (x, u) ↦ ground arith
      | inl ((w, b), u) ↦ elim (Bool-cases (ltb max_wallet_balance w.balance)) [
        | inl over ↦ ground arith
        | inr under ↦ elim (create_transaction-cases (credit_record w.id amount ref w.balance) b) [
          | inl taken ↦ ground arith
          | inr (fresh, written) ↦ subst IsSound (ground arith) (
            post_credit-IsBalanced s b w.id amount w.balance ref h
                (upsert_wallet-IsMoved user amount s b w u) fresh,
            upsert_wallet-IsCapped user amount s b w c u (ground arith),
          )
        ]
      ]
    ]

debit_transaction-IsSound :
    (user amount : ℕ) (ref : Reference) (s s' : Books) (t : WalletTransaction)
    → IsSound s
    → debit_transaction user amount ref s ≡ ok (t, s')
    → IsSound s'
unfolding debit_transaction
debit_transaction-IsSound user amount ref s s' t (h, c) e =
    elim (Option-cases (find_first (is_user user) s.wallets)) [
      | inl n ↦ ground arith
      | inr (w, f) ↦ elim (Result-cases (withdraw_if_covered w.id amount s)) [
        | inr (x, u) ↦ ground arith
        | inl ((false, b), u) ↦ ground arith
        | inl ((true, b), u) ↦ elim (Option-cases (find_first (is_wallet w.id) b.wallets)) [
          | inl n ↦ ground arith
          | inr (y, g) ↦
              elim (create_transaction-cases (debit_record w.id amount ref y.balance) b) [
                | inl taken ↦ ground arith
                | inr (fresh, written) ↦ subst IsSound (ground arith) (
                  post_debit-IsBalanced s b w.id amount y.balance ref h
                      (withdraw_if_covered-IsMoved w.id amount s b u) fresh,
                  withdraw_if_covered-IsCapped w.id amount s b c u,
                )
              ]
        ]
      ]
    ]

-- What a client of the service asks for.
pub data Request : Type 0 where
  crediting : (user amount : ℕ) → Reference → Request
  debiting : (user amount : ℕ) → Reference → Request

abbrev pub serve : Request → Books → Books
serve (crediting user amount ref) s = (credit user amount ref s).1
serve (debiting user amount ref) s = (debit user amount ref s).1

abbrev pub serve_all : List Request → Books → Books
serve_all [] s = s
serve_all (q ∷ qs) s = serve_all qs (serve q s)

pub serve-IsSound : (q : Request) (s : Books) → IsSound s → IsSound (serve q s)
unfolding credit debit
serve-IsSound (crediting user amount ref) s h =
    elim (Result-cases (credit_transaction user amount ref s)) [
      | inl ((t, s'), e) ↦
          subst IsSound (ground arith) (credit_transaction-IsSound user amount ref s s' t h e)
      | inr (x, e) ↦ subst IsSound (ground arith) h
    ]
serve-IsSound (debiting user amount ref) s h =
    elim (Result-cases (debit_transaction user amount ref s)) [
      | inl ((t, s'), e) ↦
          subst IsSound (ground arith) (debit_transaction-IsSound user amount ref s s' t h e)
      | inr (x, e) ↦ subst IsSound (ground arith) h
    ]

-- Balanced books with no wallet above the limit stay so through any sequence of credits and debits,
-- whichever of them fail: each wallet holds its credits less its debits and at most 100,000, the
-- ledger's wallet entries add up to the same amounts, and no two transactions share wallet,
-- reference and type.
pub serve_all-IsSound : (qs : List Request) (s : Books) → IsSound s → IsSound (serve_all qs s)
serve_all-IsSound [] s h = h
serve_all-IsSound (q ∷ qs) s h = serve_all-IsSound qs (serve q s) (serve-IsSound q s h)
