-- ===== src/Pricing/Bounds.antt =====
-- What a quote is worth: the total is the sum of the parts, it is positive, and it grows with the
-- weight and the COD amount.
use project_logictic.Prelude.{ℕ, ◌≡◌, refl, ◌≤◌, ◌<◌, ◌+◌, ◌-◌, ◌*◌, true, arith}
use mathlib.Core.Path.{subst, subst₂}
use project_logictic.Prelude.Int.{pos, sub_ℕ, ◌≤ℤ◌}
use project_logictic.Store.{ok, err, conflict, pricing_total_fee_invalid}
use project_logictic.Fees.Checks.{is_positive_integer, max_safe_integer}
use project_logictic.Store.{PricingConfig}
use project_logictic.Pricing.Quote.{
  PricingBreakdown, excess_kg, weight_fee, cod_fee, total_fee, breakdown, calculate,
}

-- The rounding of the weight: the smallest number of kilograms that covers the excess.
weight_fee_lem :
    (weight : ℕ) (config : PricingConfig)
    → weight_fee weight config ≡ excess_kg weight config * config.extra_weight_fee_per_kg
unfolding weight_fee
weight_fee_lem weight config = refl

excess_kg_bounds :
    (weight : ℕ) (config : PricingConfig)
    → (weight ≤ config.included_weight_grams + 1000 * excess_kg weight config)
      × (1000 * excess_kg weight config < weight - config.included_weight_grams + 1000)
unfolding excess_kg
excess_kg_bounds weight config = omega arith

cod_fee_bounds :
    (cod : ℕ) (config : PricingConfig)
    → (cod * config.cod_fee_basis_points ≤ 10000 * cod_fee cod config)
      × (10000 * cod_fee cod config < cod * config.cod_fee_basis_points + 10000)
unfolding cod_fee
cod_fee_bounds cod config = omega arith

-- What is charged before the discount.
abbrev pub gross : PricingBreakdown → ℕ
gross quote =
    quote.base_fee + quote.weight_fee + quote.cod_fee + quote.distance_fee + quote.surcharge

payable_total :
    (charged discount : ℕ)
    → is_positive_integer (sub_ℕ charged discount) ≡ true
    → (sub_ℕ charged discount ≡ pos (charged - discount))
      × (discount < charged)
      × (charged ≤ discount + max_safe_integer)
payable_total charged discount h = ground arith

-- A quote that is given is the breakdown, and its total passes the test.
calculate_inv :
    (weight cod : ℕ) (config : PricingConfig) {quote : PricingBreakdown}
    → calculate weight cod config ≡ ok quote
    → (breakdown weight cod config ≡ quote)
      × (is_positive_integer (total_fee weight cod config) ≡ true)
unfolding calculate
calculate_inv weight cod config e = ground arith

-- What a quote says of its request.
abbrev pub IsQuote : ℕ → ℕ → PricingConfig → PricingBreakdown → Type 0
IsQuote weight cod config quote =
    (quote.total_fee ≡ pos (gross quote - quote.discount))
    × (quote.discount < gross quote)
    × (gross quote ≤ quote.discount + max_safe_integer)
    × (quote.weight_fee ≡ excess_kg weight config * config.extra_weight_fee_per_kg)
    × (weight ≤ config.included_weight_grams + 1000 * excess_kg weight config)
    × (1000 * excess_kg weight config < weight - config.included_weight_grams + 1000)
    × (cod * config.cod_fee_basis_points ≤ 10000 * quote.cod_fee)
    × (10000 * quote.cod_fee < cod * config.cod_fee_basis_points + 10000)

breakdown-IsQuote :
    (weight cod : ℕ) (config : PricingConfig)
    → is_positive_integer (total_fee weight cod config) ≡ true
    → IsQuote weight cod config (breakdown weight cod config)
unfolding breakdown total_fee
breakdown-IsQuote weight cod config pays =
    let (sum, above, below) =
      payable_total (gross (breakdown weight cod config)) config.discount pays in
    let kg = excess_kg_bounds weight config in
    let percent = cod_fee_bounds cod config in
    (sum, above, below, weight_fee_lem weight config, kg.0, kg.1, percent.0, percent.1)

-- The total of a quote is what is charged less the discount, which is a positive safe integer; the
-- weight fee charges the fewest kilograms that cover the weight above the included one, and the COD
-- fee is the percentage of the COD amount in basis points, rounded up.
pub calculate-IsQuote :
    (weight cod : ℕ) (config : PricingConfig) {quote : PricingBreakdown}
    → calculate weight cod config ≡ ok quote
    → IsQuote weight cod config quote
calculate-IsQuote weight cod config e =
    let (same, pays) = calculate_inv weight cod config e in
    subst (IsQuote weight cod config) same (breakdown-IsQuote weight cod config pays)

-- A configuration whose discount covers all that is charged gives no quote, but a conflict.
pub calculate_refuses :
    (weight cod : ℕ) (config : PricingConfig)
    → gross (breakdown weight cod config) ≤ config.discount
    → calculate weight cod config ≡ err (conflict pricing_total_fee_invalid)
unfolding calculate total_fee
calculate_refuses weight cod config h = ground arith

weight_fee_mono :
    (weight weight' : ℕ) (config : PricingConfig)
    → weight ≤ weight'
    → weight_fee weight config ≤ weight_fee weight' config
unfolding weight_fee excess_kg
weight_fee_mono weight weight' config w = grind arith

cod_fee_mono :
    (cod cod' : ℕ) (config : PricingConfig) → cod ≤ cod' → cod_fee cod config ≤ cod_fee cod' config
unfolding cod_fee
cod_fee_mono cod cod' config c = grind arith

breakdown_mono :
    (weight weight' cod cod' : ℕ) (config : PricingConfig)
    → weight ≤ weight'
    → cod ≤ cod'
    → (breakdown weight cod config).total_fee ≤ℤ (breakdown weight' cod' config).total_fee
unfolding breakdown total_fee
breakdown_mono weight weight' cod cod' config w c =
    ground (arith, weight_fee_mono weight weight' config w, cod_fee_mono cod cod' config c)

-- A heavier parcel, or a higher COD amount, never costs less.
pub calculate_mono :
    (weight weight' cod cod' : ℕ) (config : PricingConfig) {quote quote' : PricingBreakdown}
    → weight ≤ weight'
    → cod ≤ cod'
    → calculate weight cod config ≡ ok quote
    → calculate weight' cod' config ≡ ok quote'
    → quote.total_fee ≤ℤ quote'.total_fee
calculate_mono weight weight' cod cod' config w c e e' =
    let (same, _) = calculate_inv weight cod config e in
    let (same', _) = calculate_inv weight' cod' config e' in
    subst₂ (λ q q'. q.total_fee ≤ℤ q'.total_fee) same same'
      (breakdown_mono weight weight' cod cod' config w c)
