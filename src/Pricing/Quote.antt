-- ===== src/Pricing/Quote.antt =====
-- `calculate` of PricingService (backend/src/modules/pricing/pricing.service.ts). Grams, counts,
-- fees of the configuration and the COD amount are validated by the DTOs as whole numbers of at
-- least 0; the surcharge and the distance fee are columns of the same table. The discount is what
-- can make the total negative. Products and sums stay below 2^53 for 32-bit columns, where the
-- numbers of the source are exact.
use project_logictic.Prelude.{ℕ, ◌+◌, ◌-◌, ◌*◌, ◌/◌, if◌then◌else◌}
use project_logictic.Prelude.Int.{ℤ, sub_ℕ}
use project_logictic.Store.{PricingConfig, Result, ok, err, conflict, pricing_total_fee_invalid}
use project_logictic.Fees.Checks.{is_positive_integer}

pub record PricingBreakdown : Type 0 where
  pub config_version : ℕ
  pub base_fee : ℕ
  pub distance_fee : ℕ
  pub weight_fee : ℕ
  pub cod_fee : ℕ
  pub surcharge : ℕ
  pub discount : ℕ
  pub total_fee : ℤ

-- `Math.ceil(n / d)`
abbrev pub ceil_div : ℕ → ℕ → ℕ
ceil_div n d = (n + (d - 1)) / d

-- `Math.max(0, weightGrams - includedWeightGrams)`, where `-` stops at 0.
unfoldable pub excess_kg : ℕ → PricingConfig → ℕ
excess_kg weight_grams config = ceil_div (weight_grams - config.included_weight_grams) 1000

unfoldable pub weight_fee : ℕ → PricingConfig → ℕ
unfolding excess_kg
weight_fee weight_grams config = excess_kg weight_grams config * config.extra_weight_fee_per_kg

unfoldable pub cod_fee : ℕ → PricingConfig → ℕ
cod_fee cod_amount config = ceil_div (cod_amount * config.cod_fee_basis_points) 10000

unfoldable pub total_fee : ℕ → ℕ → PricingConfig → ℤ
total_fee weight_grams cod_amount config =
    sub_ℕ
      (config.base_fee
        + weight_fee weight_grams config
        + cod_fee cod_amount config
        + config.distance_fee
        + config.surcharge)
      config.discount

unfoldable pub breakdown : ℕ → ℕ → PricingConfig → PricingBreakdown
breakdown weight_grams cod_amount config = record {
  config_version = config.version;
  base_fee = config.base_fee;
  distance_fee = config.distance_fee;
  weight_fee = weight_fee weight_grams config;
  cod_fee = cod_fee cod_amount config;
  surcharge = config.surcharge;
  discount = config.discount;
  total_fee = total_fee weight_grams cod_amount config;
}

unfoldable pub calculate : ℕ → ℕ → PricingConfig → Result PricingBreakdown
unfolding breakdown
calculate weight_grams cod_amount config =
    if is_positive_integer (total_fee weight_grams cod_amount config)
    then ok (breakdown weight_grams cod_amount config)
    else err (conflict pricing_total_fee_invalid)
