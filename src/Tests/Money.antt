-- ===== src/Tests/Money.antt =====
-- Fees, cash on delivery and prices at concrete inputs.
use project_logictic.Prelude.{
  true, count_where, ◌≡◌, refl, none, some, List, [], ◌∷◌, All, Grows, arith,
}
use project_logictic.Prelude.Int.{pos, ◌≤ℤ◌}
use project_logictic.Schema.{
  UserRole, ShippingFeePayer, ShippingFeeTransactionStatus as FeeStatus, CodTransactionStatus,
  DriverStatus,
}
use project_logictic.Store.{
  Store, empty_store, ShippingFeeTransaction, CodTransaction, DriverProfile, Actor, ClientContext,
  int, ok,
}
use project_logictic.Fees.Custody.{Custody}
use project_logictic.Fees.Schedule.{
  Schedule, done, call, remit_fee, settle_fee, Reaches, run, run-Custody, run-Reaches,
}
use project_logictic.Cod.Invariant.{StoreIsValid}
use project_logictic.Cod.Handover.{is_pending_of}
use project_logictic.Cod.Service.{Command, settle_cod, execute_all, execute_all-StoreIsValid}
use project_logictic.Store.{PricingConfig}
use project_logictic.Pricing.Quote.{PricingBreakdown, calculate, total_fee, weight_fee, cod_fee}
use project_logictic.Pricing.Configs.{CreatePricingConfig}
use project_logictic.Pricing.Activation.{Activates, create_config-Activates}
use project_logictic.Pricing.Bounds.{IsQuote, calculate-IsQuote, calculate_mono}

abbrev nowhere : ClientContext
nowhere = record { ip_address = none; user_agent = none }

abbrev driver_user : Actor
driver_user = record { id = 20; role = UserRole.driver }

abbrev admin_user : Actor
admin_user = record { id = 30; role = UserRole.admin }

abbrev driver : DriverProfile
driver = record {
  id = 2;
  user_id = 20;
  operating_warehouse_id = none;
  capabilities = [];
  status = DriverStatus.available;
  is_online = true;
  is_available = true;
  version = 0;
}

abbrev collected_fee : ShippingFeeTransaction
collected_fee = record {
  id = 1;
  shipment_id = 7;
  payer = ShippingFeePayer.sender;
  expected_amount = pos 25000;
  collected_amount = some (pos 25000);
  remitted_amount = none;
  paid_amount = none;
  status = FeeStatus.collected;
  collected_by_driver_id = some 2;
  remitted_by_driver_id = none;
  settled_by_id = none;
  collected_at = some 100;
  remitted_at = none;
  settled_at = none;
  paid_at = none;
  cancelled_at = none;
}

abbrev fee_store : Store
fee_store = record empty_store { fees = collected_fee ∷ []; drivers = driver ∷ [] }

-- The driver remits, and remits once more while the first call is between its read and its update.
abbrev day : Schedule
day =
    call (remit_fee driver_user 1 (some (int (pos 25000))) 200 nowhere)
      (call (remit_fee driver_user 1 (some (int (pos 25000))) 150 nowhere) done done)
      (call (settle_fee admin_user 1 300 nowhere) done done)

collected_fee-Custody : Custody collected_fee
collected_fee-Custody = ground arith

run-Custody_example : All Custody (run day fee_store).fees
run-Custody_example = run-Custody day fee_store (collected_fee-Custody, tt)

run-Reaches_example : Grows Reaches fee_store.fees (run day fee_store).fees
run-Reaches_example = run-Reaches day fee_store

abbrev remitted_cod : CodTransaction
remitted_cod = record {
  id = 5;
  shipment_id = 7;
  expected_amount = pos 90000;
  collected_amount = some (pos 90000);
  remitted_amount = some (pos 90000);
  status = CodTransactionStatus.remitted;
  collected_by_driver_id = some 2;
  collected_at = some 100;
  remitted_at = some 200;
  settled_at = none;
  version = 2;
}

abbrev cod_store : Store
cod_store = record empty_store { cods = remitted_cod ∷ [] }

cod_store-IsValid : StoreIsValid cod_store
unfolding count_where is_pending_of
cod_store-IsValid = record {
  amounts = ((refl, refl), tt);
  backed = tt;
  paid_once = λ k. ground arith;
  unique = λ k. ground arith;
  handed_once = λ k. ground arith;
}

abbrev pay_out : List Command
pay_out = settle_cod admin_user 5 300 nowhere ∷ []

execute_all-StoreIsValid_example : StoreIsValid (execute_all pay_out cod_store)
execute_all-StoreIsValid_example = execute_all-StoreIsValid pay_out cod_store cod_store-IsValid

abbrev tariff : PricingConfig
tariff = record {
  id = 8;
  version = 3;
  base_fee = 20000;
  included_weight_grams = 2000;
  extra_weight_fee_per_kg = 5000;
  cod_fee_basis_points = 100;
  distance_fee = 0;
  surcharge = 1000;
  discount = 500;
  is_active = true;
  created_by_id = none;
}

-- 2.5 kg with 100 001 of COD.
abbrev quote : PricingBreakdown
quote = record {
  config_version = 3;
  base_fee = 20000;
  distance_fee = 0;
  weight_fee = 5000;
  cod_fee = 1001;
  surcharge = 1000;
  discount = 500;
  total_fee = pos 26501;
}

calculate-quote : calculate 2500 100001 tariff ≡ ok quote
unfolding calculate total_fee weight_fee cod_fee
calculate-quote = refl

calculate-IsQuote_example : IsQuote 2500 100001 tariff quote
calculate-IsQuote_example = calculate-IsQuote 2500 100001 tariff calculate-quote

calculate_mono_example : pos 26501 ≤ℤ pos 26501
calculate_mono_example =
    calculate_mono 2500 2500 100001 100001 tariff (ground arith) (ground arith) calculate-quote
      calculate-quote

abbrev tariff_store : Store
tariff_store = record empty_store { pricing_configs = tariff ∷ [] }

abbrev next_tariff : CreatePricingConfig
next_tariff = record {
  base_fee = 22000;
  included_weight_grams = 2000;
  extra_weight_fee_per_kg = 5500;
  cod_fee_basis_points = 80;
}

create_config-Activates_example : Activates 9 30 next_tariff tariff_store
create_config-Activates_example = create_config-Activates 9 30 next_tariff tariff_store
