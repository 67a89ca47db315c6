-- ===== src/Pricing/Configs.antt =====
-- getActiveConfigEntity, createConfig and quote of PricingService
-- (backend/src/modules/pricing/pricing.service.ts). createConfig runs at the isolation level
-- Serializable, so its calls run one after another.
use project_logictic.Prelude.{
  ℕ, ◌+◌, Bool, true, false, Option, none, some, List, [], ◌∷◌, ◌++◌, String, leb, any_of,
  update_many, if◌then◌else◌,
}
use project_logictic.Prelude.Int.{pos}
use project_logictic.Prelude.Eq.{◌==◌, nat_eq}
use project_logictic.Schema.{UserRole}
use project_logictic.Store.{
  PricingConfig, AuditLog, Json, number, Result, ok, err, Tx, pure, throw, throw_if, or_throw, gets,
  modify, audit, ◌>>=◌, ◌>>◌, conflict, service_unavailable, pricing_config_unavailable,
  pricing_config_conflict,
}
use project_logictic.Pricing.Quote.{PricingBreakdown, calculate}

pub record CreatePricingConfig : Type 0 where
  pub base_fee : ℕ
  pub included_weight_grams : ℕ
  pub extra_weight_fee_per_kg : ℕ
  pub cod_fee_basis_points : ℕ

-- The first by the version, from the highest down.
abbrev pub newer : PricingConfig → Option PricingConfig → PricingConfig
newer config none = config
newer config (some other) = if leb other.version config.version then config else other

unfoldable pub newest_where : (PricingConfig → Bool) → List PricingConfig → Option PricingConfig
newest_where test [] = none
newest_where test (config ∷ configs) =
    let rest = newest_where test configs in if test config then some (newer config rest) else rest

abbrev pub is_active_config : PricingConfig → Bool
is_active_config config = config.is_active

unfoldable pub active_config_entity : Tx PricingConfig
unfolding newest_where
active_config_entity = do
  found ← gets (λ s. newest_where is_active_config s.pricing_configs)
  or_throw found (service_unavailable pricing_config_unavailable)

abbrev pub version_of : Option PricingConfig → ℕ
version_of none = 0
version_of (some config) = config.version

unfoldable pub deactivated : PricingConfig → PricingConfig
deactivated config = record config { is_active = false }

unfoldable pub new_config : (new_id actor_id version : ℕ) → CreatePricingConfig → PricingConfig
new_config new_id actor_id version dto = record {
  id = new_id;
  version = version;
  base_fee = dto.base_fee;
  included_weight_grams = dto.included_weight_grams;
  extra_weight_fee_per_kg = dto.extra_weight_fee_per_kg;
  cod_fee_basis_points = dto.cod_fee_basis_points;
  distance_fee = 0;
  surcharge = 0;
  discount = 0;
  is_active = true;
  created_by_id = some actor_id;
}

config_entry : PricingConfig → List (String × Json)
config_entry config =
    ("version", number (pos config.version))
    ∷ ("baseFee", number (pos config.base_fee))
    ∷ ("includedWeightGrams", number (pos config.included_weight_grams))
    ∷ ("extraWeightFeePerKg", number (pos config.extra_weight_fee_per_kg))
    ∷ ("codFeeBasisPoints", number (pos config.cod_fee_basis_points))
    ∷ []

latest_entry : Option PricingConfig → Option (List (String × Json))
latest_entry none = none
latest_entry (some config) = some (config_entry config)

pub config_audit : ℕ → Option PricingConfig → PricingConfig → AuditLog
config_audit actor_id latest created = record {
  actor_id = actor_id;
  actor_role = UserRole.admin;
  action = "PRICING_CONFIG_ACTIVATE";
  entity_type = "PricingConfig";
  entity_id = created.id;
  before = latest_entry latest;
  after = some (config_entry created);
  metadata = none;
  ip_address = none;
  user_agent = none;
}

-- The unique index on the version refuses a second row; `createConfig` answers with a conflict.
unfoldable pub insert_config : PricingConfig → Tx (Unit {0})
insert_config config = do
  known ← gets (λ s. any_of (λ row. row.version == config.version) s.pricing_configs)
  throw_if known (conflict pricing_config_conflict)
  modify (λ s. record s { pricing_configs = s.pricing_configs ++ (config ∷ []) })

unfoldable pub create_config : (new_id actor_id : ℕ) → CreatePricingConfig → Tx PricingConfig
unfolding newest_where deactivated new_config insert_config config_audit config_entry latest_entry
create_config new_id actor_id dto = do
  latest ← gets (λ s. newest_where (λ config. true) s.pricing_configs)
  modify (λ s. record s {
    pricing_configs = update_many is_active_config deactivated s.pricing_configs;
  })
  insert_config (new_config new_id actor_id (version_of latest + 1) dto)
  audit (config_audit actor_id latest (new_config new_id actor_id (version_of latest + 1) dto))
  pure (new_config new_id actor_id (version_of latest + 1) dto)

-- The breakdown, or its exception.
abbrev pub calculated : Result PricingBreakdown → Tx PricingBreakdown
calculated (ok breakdown) = pure breakdown
calculated (err e) = throw e

unfoldable pub quote : (weight_grams cod_amount : ℕ) → Tx PricingBreakdown
unfolding active_config_entity
quote weight_grams cod_amount = do
  config ← active_config_entity
  calculated (calculate weight_grams cod_amount config)
