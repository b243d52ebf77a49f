-- ===== src/Orders/Pricing.antt =====
-- The amounts of an order that backend/src/orders/orders.service.ts computes at placement. Amounts
-- are millionths of the currency, a tax rate is in ten-thousandths.
use shop_verse.Base.{
  ℕ, ◌+◌, ◌-◌, ◌*◌, ◌/◌, ◌≤◌, ◌<◌, ◌≡◌, ◌⊎◌, Option, none, some, leb, ltb, min, if◌then◌else◌,
  arith, inl, inr, Bool-cases,
}
use Prim.Native.String.{String}

pub record StoreConfig : Type 0 where
  pub currency : String
  pub tax_rate : ℕ
  pub free_shipping_threshold : ℕ
  pub shipping_fee : ℕ

-- The row of `StoreSettings`, if there is one; a fresh store has USD and nothing to pay.
abbrev pub get_store_config : Option StoreConfig → StoreConfig
get_store_config (some c) = c
get_store_config none = record {
  currency = "USD";
  tax_rate = 0;
  free_shipping_threshold = 0;
  shipping_fee = 0;
}

abbrev pub cent : ℕ
cent = 10000

-- `Math.round(x * 100) / 100`, where `x` is `n / d` millionths: the nearest cent, and a tie goes
-- up.
unfoldable pub round_cents : (n d : ℕ) → ℕ
round_cents n d = (2 * n + d * cent) / (2 * d * cent) * cent

-- A strategy of a plugin answers with an amount; it is rounded. Otherwise the store's rate is
-- taken.
unfoldable pub compute_tax : Option (ℕ → ℕ) → StoreConfig → ℕ → ℕ
unfolding round_cents
compute_tax (some strategy) store taxable = round_cents (strategy taxable) 1
compute_tax none store taxable = round_cents (taxable * store.tax_rate) 10000

pub record Quote : Type 0 where
  pub subtotal : ℕ
  pub discount_amount : ℕ
  pub shipping_fee : ℕ
  pub tax_amount : ℕ
  pub total : ℕ

unfoldable pub quote : Option (ℕ → ℕ) → StoreConfig → (subtotal discount : ℕ) → Quote
unfolding compute_tax
quote strategy store subtotal discount =
    let taxable = subtotal - discount in
    let fee = if leb store.free_shipping_threshold taxable then 0 else store.shipping_fee in
    let tax = compute_tax strategy store taxable in
    record {
      subtotal = subtotal;
      discount_amount = discount;
      shipping_fee = fee;
      tax_amount = tax;
      total = taxable + fee + tax;
    }

-- The part that the wallet pays: what is asked for, but no more than the balance and the total,
-- rounded to a cent.
unfoldable pub wallet_part : (requested balance total : ℕ) → ℕ
unfolding round_cents
wallet_part requested balance total =
    if ltb 0 requested then round_cents (min (min requested balance) total) 1 else 0

round_whole : (n : ℕ) → (round_cents n 1 ≤ n + 5000) × (n < round_cents n 1 + 5000)
unfolding round_cents
round_whole n = omega arith

round_rate :
    (n : ℕ)
    → (10000 * round_cents n 10000 ≤ n + 50000000) × (n < 10000 * round_cents n 10000 + 50000000)
unfolding round_cents
round_rate n = omega arith

-- A quote without a tax strategy, for a discount that is at most the subtotal: the total is the
-- subtotal less the discount, with the shipping fee and the tax. The fee is 0 from the threshold on
-- and else the store's, and the tax is within half a cent of the rate times what is taxable.
pub quote_adds_up :
    (store : StoreConfig) (subtotal discount : ℕ)
    → discount ≤ subtotal
    → let q = quote none store subtotal discount in
      let taxable = subtotal - discount in
      (q.total + discount ≡ subtotal + q.shipping_fee + q.tax_amount)
      × ((store.free_shipping_threshold ≤ taxable) × (q.shipping_fee ≡ 0)
          ⊎ (taxable < store.free_shipping_threshold) × (q.shipping_fee ≡ store.shipping_fee))
      × (10000 * q.tax_amount ≤ taxable * store.tax_rate + 50000000)
      × (taxable * store.tax_rate < 10000 * q.tax_amount + 50000000)
unfolding quote compute_tax
quote_adds_up store subtotal discount h =
    let taxable : ℕ = subtotal - discount in
    elim (Bool-cases (leb store.free_shipping_threshold taxable)) [
      | inl free ↦ (
        omega (arith, h),
        inl (ground (arith, free), ground (arith, free)),
        omega (arith, round_rate (taxable * store.tax_rate)),
        omega (arith, round_rate (taxable * store.tax_rate)),
      )
      | inr pays ↦ (
        omega (arith, h),
        inr (ground (arith, pays), ground (arith, pays)),
        omega (arith, round_rate (taxable * store.tax_rate)),
        omega (arith, round_rate (taxable * store.tax_rate)),
      )
    ]

-- The wallet pays at most half a cent more than what was asked for, than its balance and than the
-- total.
pub wallet_part_bounded :
    (requested balance total : ℕ)
    → (wallet_part requested balance total ≤ requested + 5000)
      × (wallet_part requested balance total ≤ balance + 5000)
      × (wallet_part requested balance total ≤ total + 5000)
unfolding wallet_part
wallet_part_bounded requested balance total =
    let m : ℕ = min (min requested balance) total in
    elim (Bool-cases (ltb 0 requested)) [
      | inl some_part ↦ ground (arith, round_whole m)
      | inr no_part ↦ ground arith
    ]
