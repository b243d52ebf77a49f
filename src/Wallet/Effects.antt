-- ===== src/Wallet/Effects.antt =====
-- What one call of backend/src/wallet/wallet.service.ts does, a repeated one included.
use shop_verse.Base.{
  ℕ, ◌+◌, ◌-◌, ◌<◌, ◌≡◌, ap, ◌⊎◌, refl, Bool, true, false, ◌&&◌, some, List, [], ◌∷◌, find_first,
  replace_first, any, leb, ltb, ◌==◌, if◌then◌else◌, arith, ok, err, inl, inr, Bool-cases,
  unique_violation, bad_request, find_first-test, find_first-replace_first_self,
}
use shop_verse.Wallet.Tables.{
  Books, Wallet, WalletTransaction, WalletTxType, Reference, credit_type, debit_type, is_user,
  is_wallet, has_key, upsert_wallet, is_same_reference, type_code,
}
use shop_verse.Wallet.{
  max_wallet_balance, credit_transaction, debit_transaction, withdraw_if_covered, recover, found_or,
  belongs, credit, debit,
}
use shop_verse.Wallet.Keys.{create_transaction-taken, create_transaction-fresh}
use shop_verse.Wallet.Conservation.{post, credit_record, debit_record, debit_booking}

any-find_first {ℓ} :
    {A : Type ℓ} (p q : A → Bool) (xs : List A) (x : A)
    → find_first p xs ≡ some x
    → q x ≡ true
    → any q xs ≡ true
any-find_first p q [] x h k = ground arith
any-find_first p q (y ∷ ys) x h k = ground (arith, any-find_first p q ys x)

find_first-any {ℓ} :
    {A : Type ℓ} (p q : A → Bool) (xs : List A)
    → any p xs ≡ true
    → ((x : A) → p x ≡ true → q x ≡ true)
    → (x : A) × (find_first q xs ≡ some x) × (q x ≡ true)
find_first-any p q [] h f = ground arith
find_first-any p q (y ∷ ys) h f = elim (Bool-cases (q y)) [
  | inl t ↦ (y, ground arith, t)
  | inr n ↦ let (x, e, t) = find_first-any p q ys (ground (arith, f y)) f in (x, ground arith, t)
]

recover-found :
    (user : ℕ) (ref : Reference) (ty : WalletTxType) (s : Books) (t : WalletTransaction)
    → find_first (belongs s user ref ty) s.transactions ≡ some t
    → recover user ref ty unique_violation s ≡ ok t
unfolding recover
recover-found user ref ty s t e = ap (found_or unique_violation) e

recover-bad_request :
    (user : ℕ) (ref : Reference) (ty : WalletTxType) (s : Books)
    → recover user ref ty bad_request s ≡ err bad_request
unfolding recover
recover-bad_request user ref ty s = refl

swap_test : (a b t c : Bool) → (a && b && t) ≡ true → (a ≡ true → c ≡ true) → (c && b && t) ≡ true
swap_test true b t c h f = rw (f refl) h
swap_test false b t c h f = ground arith

both : (i j : ℕ) (b : Bool) → (i == j) ≡ true → b ≡ true → (j == i && b) ≡ true
both i j b h k = ground arith

recover-belongs :
    (user : ℕ) (ref : Reference) (ty : WalletTxType) (s : Books) (w : Wallet)
    → find_first (is_user user) s.wallets ≡ some w
    → any (has_key w.id ref ty) s.transactions ≡ true
    → (t : WalletTransaction) × (recover user ref ty unique_violation s ≡ ok t)
      × (belongs s user ref ty t ≡ true)
recover-belongs user ref ty s w f h =
    let owned : (t : WalletTransaction)
        → has_key w.id ref ty t ≡ true
        → belongs s user ref ty t ≡ true =
      λ t k.
        swap_test (w.id == t.wallet_id) (is_same_reference ref t.reference)
          (type_code ty == type_code t.type)
          (any (λ x. is_wallet t.wallet_id x && is_user user x) s.wallets) k
          (λ same.
            any-find_first (is_user user) (λ x. is_wallet t.wallet_id x && is_user user x) s.wallets
              w f
              (both w.id t.wallet_id (is_user user w) same
                (find_first-test (is_user user) s.wallets w f))) in
    let (t, e, k) =
      find_first-any (has_key w.id ref ty) (belongs s user ref ty) s.transactions h owned in
    (t, recover-found user ref ty s t e, k)

-- A credit whose reference is already on the user's wallet changes nothing. It is answered with a
-- transaction of the user that has the reference and the type CREDIT, except that it is a bad
-- request if the amount would now take the balance over the limit.
pub credit_again :
    (user amount : ℕ) (ref : Reference) (s : Books) (w : Wallet)
    → find_first (is_user user) s.wallets ≡ some w
    → any (has_key w.id ref credit_type) s.transactions ≡ true
    → ((max_wallet_balance < w.balance + amount)
        × (credit user amount ref s ≡ (err bad_request, s)))
      ⊎ ((t : WalletTransaction) × (credit user amount ref s ≡ (ok t, s))
          × (belongs s user ref credit_type t ≡ true))
unfolding credit credit_transaction upsert_wallet
credit_again user amount ref s w f h =
    elim (Bool-cases (ltb max_wallet_balance (w.balance + amount))) [
      | inl over ↦ inl (ground arith, ground (arith, recover-bad_request user ref credit_type s))
      | inr under ↦
          let (t, e, k) = recover-belongs user ref credit_type s w f h in
          let after : Books = record s {
            wallets =
                replace_first (is_user user) (record w { balance = w.balance + amount }) s.wallets;
          } in
          inr (
            t,
            ground (
              arith,
              e,
              create_transaction-taken (credit_record w.id amount ref (w.balance + amount)) after h,
            ),
            k,
          )
    ]

module _ (user amount : ℕ) (ref : Reference) (s : Books) (w : Wallet)
    (f : find_first (is_user user) s.wallets ≡ some w)
    (pk : find_first (is_wallet w.id) s.wallets ≡ some w)
    (fresh : any (has_key w.id ref debit_type) s.transactions ≡ false) where
  abbrev pub debited : Books
  debited = record s {
    wallets = replace_first (is_wallet w.id) (record w { balance = w.balance - amount }) s.wallets;
  }

  abbrev pub receipt : WalletTransaction
  receipt = debit_record w.id amount ref (w.balance - amount)

  -- A debit with a reference that is new to the wallet succeeds exactly if the balance covers the
  -- amount. It then takes the amount off, records the balance that is left and books the entry;
  -- otherwise it is a bad request and nothing changes.
  pub debit_outcome : debit user amount ref s ≡ (
      if leb amount w.balance
      then (ok receipt, post debited receipt (debit_booking amount ref))
      else (err bad_request, s))
  unfolding debit debit_transaction withdraw_if_covered
  debit_outcome = ground (
    arith,
    recover-bad_request user ref debit_type s,
    create_transaction-fresh receipt debited fresh,
    find_first-replace_first_self (is_wallet w.id) (record w { balance = w.balance - amount })
        s.wallets w pk,
    find_first-test (is_wallet w.id) s.wallets w pk,
  )
