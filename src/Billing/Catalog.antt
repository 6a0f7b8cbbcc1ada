-- ===== src/Billing/Catalog.antt =====
-- The packages on sale (src/modules/billing/billing.catalog.ts).
use neura_gen.Base.{
  ℕ, String, Option, none, some, List, [], ◌∷◌, ◌=ₛ◌, ◌&&◌, not, truthy, get_or, find,
  if◌then◌else◌, map_option,
}
use neura_gen.Store.{PaymentOrderType, credit_topup, pro_subscription}

pub record CreditTopupPackage : Type 0 where
  pub code : String
  pub label : String
  pub amount_usd : String
  pub amount_vnd : ℕ
  pub credits : ℕ

pub record ProPlanPackage : Type 0 where
  pub code : String
  pub label : String
  pub amount_usd : String
  pub amount_vnd : ℕ
  pub credits : ℕ
  pub duration_days : ℕ

abbrev pub starter : CreditTopupPackage
starter = record {
  code = "TOPUP_STARTER_0_99";
  label = "Starter";
  amount_usd = "0.99";
  amount_vnd = 24750;
  credits = 50;
}

-- `CREDIT_TOPUP_PACKAGES[1]`, the default.
abbrev pub popular : CreditTopupPackage
popular = record {
  code = "TOPUP_POPULAR_4_99";
  label = "Popular";
  amount_usd = "4.99";
  amount_vnd = 124750;
  credits = 250;
}

abbrev pub credit_topup_packages : List CreditTopupPackage
credit_topup_packages =
    starter
    ∷ popular
    ∷ record {
      code = "TOPUP_PRO_9_99";
      label = "Pro";
      amount_usd = "9.99";
      amount_vnd = 249750;
      credits = 500;
    }
    ∷ record {
      code = "TOPUP_MAX_19_99";
      label = "Max";
      amount_usd = "19.99";
      amount_vnd = 499750;
      credits = 1000;
    }
    ∷ []

abbrev pub pro_plan_package : ProPlanPackage
pro_plan_package = record {
  code = "PRO_MONTHLY_14_99";
  label = "Pro Monthly";
  amount_usd = "14.99";
  amount_vnd = 375000;
  credits = 1000;
  duration_days = 30;
}

pub record ResolvedPackage : Type 0 where
  pub package_code : String
  pub amount_usd : String
  pub amount_vnd : ℕ
  pub credit_amount : ℕ
  pub pro_duration_days : ℕ

abbrev pub resolved_topup : CreditTopupPackage → ResolvedPackage
resolved_topup p = record {
  package_code = p.code;
  amount_usd = p.amount_usd;
  amount_vnd = p.amount_vnd;
  credit_amount = p.credits;
  pro_duration_days = 0;
}

abbrev pub resolved_pro : ResolvedPackage
resolved_pro = record {
  package_code = pro_plan_package.code;
  amount_usd = pro_plan_package.amount_usd;
  amount_vnd = pro_plan_package.amount_vnd;
  credit_amount = pro_plan_package.credits;
  pro_duration_days = pro_plan_package.duration_days;
}

-- An empty code counts as none.
unfoldable pub resolve_package : PaymentOrderType → Option String → Option ResolvedPackage
resolve_package credit_topup code = map_option resolved_topup (
    if truthy code
    then find (λ p. p.code =ₛ get_or code "") credit_topup_packages
    else some popular)
resolve_package pro_subscription code =
    if truthy code && not (get_or code "" =ₛ pro_plan_package.code) then none else some resolved_pro
