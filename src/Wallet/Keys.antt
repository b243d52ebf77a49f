-- ===== src/Wallet/Keys.antt =====
-- The unique key of `WalletTransaction`: a write that the key admits keeps it unique.
use shop_verse.Base.{
  ok, err, unique_violation, ◌⊎◌, ℕ, ◌≤◌, ◌≡◌, refl, Bool, true, false, ◌&&◌, List, [], ◌∷◌, any,
  count_where, ◌==◌, arith, inl, inr, Bool-cases,
}
use shop_verse.Wallet.Tables.{
  Books, create_transaction, WalletTransaction, WalletTxType, Reference, has_key, prefix, first_key,
  second_key, type_code,
}

-- The tests of a key, on its numbers.
abbrev agree : ℕ → ℕ → ℕ → ℕ → ℕ → ℕ → ℕ → ℕ → ℕ → ℕ → Bool
agree a b c d e a' b' c' d' e' = a == a' && (b == b' && c == c' && d == d') && e == e'

agree_trans :
    (a b c d e a' b' c' d' e' x y z u v : ℕ)
    → agree a b c d e a' b' c' d' e' ≡ true
    → agree a b c d e x y z u v ≡ true
    → agree a' b' c' d' e' x y z u v ≡ true
agree_trans a b c d e a' b' c' d' e' x y z u v h k = ground arith

-- Keys that are the same select the same rows.
has_key_trans :
    (i : ℕ) (ref : Reference) (ty : WalletTxType) (t x : WalletTransaction)
    → has_key i ref ty t ≡ true
    → has_key i ref ty x ≡ true
    → has_key t.wallet_id t.reference t.type x ≡ true
has_key_trans i ref ty t x =
    agree_trans i (prefix ref) (first_key ref) (second_key ref) (type_code ty) t.wallet_id
      (prefix t.reference) (first_key t.reference) (second_key t.reference) (type_code t.type)
      x.wallet_id (prefix x.reference) (first_key x.reference) (second_key x.reference)
      (type_code x.type)

count_where-none :
    (p q : WalletTransaction → Bool) (ts : List WalletTransaction)
    → ((x : WalletTransaction) → q x ≡ true → p x ≡ true)
    → any p ts ≡ false
    → count_where q ts ≡ 0
count_where-none p q [] f h = refl
count_where-none p q (x ∷ xs) f h = ground (arith, f x, count_where-none p q xs f)

pub create_transaction-once :
    (t : WalletTransaction) (ts : List WalletTransaction) (i : ℕ) (ref : Reference)
    (ty : WalletTxType)
    → any (has_key t.wallet_id t.reference t.type) ts ≡ false
    → count_where (has_key i ref ty) ts ≤ 1
    → count_where (has_key i ref ty) (t ∷ ts) ≤ 1
create_transaction-once t ts i ref ty h k =
    let p : WalletTransaction → Bool = has_key t.wallet_id t.reference t.type in
    let q : WalletTransaction → Bool = has_key i ref ty in
    elim (Bool-cases (q t)) [
      | inl y ↦
          let none_yet : count_where q ts ≡ 0 =
            count_where-none p q ts (λ x. has_key_trans i ref ty t x y) h in
          rw y (omega (arith, none_yet))
      | inr n ↦ rw n (omega (arith, k))
    ]

-- A transaction is written if its key is new.
pub create_transaction-cases :
    (t : WalletTransaction) (s : Books)
    → (create_transaction t s ≡ err unique_violation)
      ⊎ ((any (has_key t.wallet_id t.reference t.type) s.transactions ≡ false)
          × (create_transaction t s ≡ ok (tt, record s { transactions = t ∷ s.transactions })))
unfolding create_transaction
create_transaction-cases t s =
    elim (Bool-cases (any (has_key t.wallet_id t.reference t.type) s.transactions)) [
      | inl taken ↦ inl (rw taken)
      | inr fresh ↦ inr (fresh, rw fresh)
    ]

pub create_transaction-taken :
    (t : WalletTransaction) (s : Books)
    → any (has_key t.wallet_id t.reference t.type) s.transactions ≡ true
    → create_transaction t s ≡ err unique_violation
unfolding create_transaction
create_transaction-taken t s h = rw h

pub create_transaction-fresh :
    (t : WalletTransaction) (s : Books)
    → any (has_key t.wallet_id t.reference t.type) s.transactions ≡ false
    → create_transaction t s ≡ ok (tt, record s { transactions = t ∷ s.transactions })
unfolding create_transaction
create_transaction-fresh t s h = rw h
