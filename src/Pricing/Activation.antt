-- ===== src/Pricing/Activation.antt =====
-- A new configuration always becomes the one that quotes use.
use project_logictic.Prelude.{
  ℕ, ◌+◌, ◌≡◌, ◌≤◌, ◌<◌, refl, true, false, Option, none, some, List, [], ◌∷◌, ◌++◌, arith, All,
  count_where, update_many, any_of, count_where-add,
}
use project_logictic.Prelude.Eq.{◌==◌, nat_eq}
use project_logictic.Store.{Store, PricingConfig, ok}
use project_logictic.Pricing.Quote.{calculate}
use project_logictic.Pricing.Configs.{
  CreatePricingConfig, newer, newest_where, is_active_config, active_config_entity, version_of,
  deactivated, new_config, config_audit, insert_config, create_config, calculated, quote,
}

below_more :
    (configs : List PricingConfig) (low high : ℕ)
    → low ≤ high
    → All (λ row. row.version ≤ low) configs
    → All (λ row. row.version ≤ high) configs
below_more [] low high h below = tt
below_more (config ∷ configs) low high h below =
    (omega (arith, below.0), below_more configs low high h below.1)

newer_bound :
    (config : PricingConfig) (rest : Option PricingConfig)
    → (config.version ≤ (newer config rest).version)
      × (version_of rest ≤ (newer config rest).version)
newer_bound config none = ground arith
newer_bound config (some other) = ground arith

below_next :
    (configs : List PricingConfig) (version : ℕ)
    → All (λ row. row.version ≤ version) configs
    → All (λ row. row.version < version + 1) configs
below_next [] version below = tt
below_next (config ∷ configs) version below =
    (omega (arith, below.0), below_next configs version below.1)

-- No version is above that of the newest configuration.
newest_bound :
    (configs : List PricingConfig)
    → All (λ row. row.version ≤ version_of (newest_where (λ config. true) configs)) configs
unfolding newest_where
newest_bound [] = tt
newest_bound (config ∷ configs) =
    let (first, others) = newer_bound config (newest_where (λ config. true) configs) in
    (first, below_more configs _ _ others (newest_bound configs))

no_version :
    (version : ℕ) (configs : List PricingConfig)
    → All (λ row. row.version < version) configs
    → any_of (λ row. row.version == version) (update_many is_active_config deactivated configs)
      ≡ false
unfolding any_of update_many deactivated
no_version version [] below = refl
no_version version (config ∷ configs) below =
    let rest = no_version version configs below.1 in let h = below.0 in ground arith

none_active :
    (configs : List PricingConfig)
    → count_where is_active_config (update_many is_active_config deactivated configs) ≡ 0
unfolding count_where update_many deactivated
none_active [] = refl
none_active (config ∷ configs) = let rest = none_active configs in ground arith

only_active :
    (configs : List PricingConfig) (created : PricingConfig)
    → created.is_active ≡ true
    → newest_where is_active_config
        (update_many is_active_config deactivated configs ++ (created ∷ []))
      ≡ some created
unfolding newest_where update_many deactivated
only_active [] created active = ground arith
only_active (config ∷ configs) created active =
    let rest = only_active configs created active in ground arith

-- What activates: the new configuration, the database after it, and what holds of them.
abbrev pub Activates : (new_id actor_id : ℕ) → CreatePricingConfig → Store → Type 0
Activates new_id actor_id dto s =
    (created : PricingConfig) × (left : Store) × (create_config new_id actor_id dto s
      ≡ ok (created, left))
    × All (λ row. row.version < created.version) s.pricing_configs
    × (count_where is_active_config left.pricing_configs ≡ 1)
    × ((weight_grams cod_amount : ℕ)
        → quote weight_grams cod_amount left
          ≡ calculated (calculate weight_grams cod_amount created) left)

-- `createConfig`, alone, always succeeds: the version of the new configuration is above all others,
-- it is the only active one, and every quote is calculated with it from then on.
pub create_config-Activates :
    (new_id actor_id : ℕ) (dto : CreatePricingConfig) (s : Store) → Activates new_id actor_id dto s
unfolding create_config insert_config quote active_config_entity new_config
create_config-Activates new_id actor_id dto s =
    let version : ℕ = version_of (newest_where (λ config. true) s.pricing_configs) + 1 in
    let created : PricingConfig = new_config new_id actor_id version dto in
    let below : All (λ row. row.version < version) s.pricing_configs =
      below_next s.pricing_configs _ (newest_bound s.pricing_configs) in
    let free = no_version version s.pricing_configs below in
    let configs : List PricingConfig =
      update_many is_active_config deactivated s.pricing_configs ++ (created ∷ []) in
    let left : Store = record s {
      pricing_configs = configs;
      audits =
          s.audits
          ++ (config_audit actor_id (newest_where (λ config. true) s.pricing_configs) created ∷ []);
    } in
    let chosen : newest_where is_active_config configs ≡ some created =
      only_active s.pricing_configs created refl in
    (
      created,
      left,
      ground arith,
      below,
      ground (
        arith,
        count_where-add is_active_config
            (update_many is_active_config deactivated s.pricing_configs) created,
        none_active s.pricing_configs,
      ),
      λ weight_grams cod_amount. ground arith,
    )
