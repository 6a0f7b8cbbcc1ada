-- ===== src/Tests/Data.antt =====
-- The data of the tests: a user with a wallet, orders, jobs, and the outside world.
use Prim.Native.String.{◌++◌}
use neura_gen.Base.{String, Option, none, some, [], ◌∷◌, pos}
use neura_gen.Store.{
  GenerateJob, Db, User, UserRole, PaymentOrder, PaymentOrderStatus, PaymentOrderType,
  PaymentProvider, CreditReason, TransactionMetadata,
}
use neura_gen.Js.{Js}
use neura_gen.System.{World, empty_db}
use neura_gen.Billing.Catalog.{starter, resolved_topup, resolved_pro}
use neura_gen.Billing.Orders.{CreatePaymentOrderDto, new_order}
use neura_gen.Jobs.Catalog.{standard_wan22_ti2v}
use neura_gen.Jobs.Create.{new_job, CreateVideoJobDto}

abbrev pub js : Js
js = record {
  number_of_text = λ s. none;
  number_of_items = λ xs. none;
  stringify = λ v. "{}";
  to_upper_case = λ s. s;
  string_of_object = λ v. "[object Object]";
}

-- A signature that is the key before the text.
abbrev pub sign : String → String → String
sign text key = key ++ "|" ++ text

abbrev pub env : String → Option String
env key = some "set"

abbrev pub world : World
world = record {
  js = js;
  sign = sign;
  env = env;
  extra = λ id o. "";
  momo_gateway = λ r. some (record { result_code = 0; pay_url = some "https://pay"; message = "" });
  payos_gateway = λ r. none;
  ask = λ r. none;
}

abbrev pub topup_dto : CreatePaymentOrderDto
topup_dto = record {
  order_type = PaymentOrderType.credit_topup;
  provider = PaymentProvider.momo;
  package_code = some "TOPUP_STARTER_0_99";
}

abbrev pub pro_dto : CreatePaymentOrderDto
pro_dto = record {
  order_type = PaymentOrderType.pro_subscription;
  provider = PaymentProvider.momo;
  package_code = none;
}

abbrev pub topup_order : PaymentOrder
topup_order = new_order 0 1 topup_dto (resolved_topup starter)

abbrev pub pro_order : PaymentOrder
pro_order = new_order 0 1 pro_dto resolved_pro

abbrev pub failed_order : PaymentOrder
failed_order = record topup_order { status = PaymentOrderStatus.failed }

abbrev pub free_user : User
free_user = record { role = UserRole.free; pro_expires_at = none }

-- The user 1 with a hundred credits, and three orders.
abbrev pub shop : Db
shop = record empty_db {
  users = (1, free_user) ∷ [];
  wallets = (1, pos 100) ∷ [];
  transactions =
      record {
        user_id = 1;
        amount = pos 100;
        reason = CreditReason.register_bonus;
        metadata = TransactionMetadata.empty;
      }
      ∷ [];
  orders = (7, topup_order) ∷ (8, pro_order) ∷ (9, failed_order) ∷ [];
}

abbrev pub job_dto : CreateVideoJobDto
job_dto = record {
  input_asset_id = none;
  prompt = "a cat";
  negative_prompt = none;
  preset_id = none;
  include_background_audio = none;
}

-- A job that has cost ten credits.
abbrev pub job : GenerateJob
job = new_job env 1 job_dto standard_wan22_ti2v 10 0

abbrev pub studio : Db
studio = record shop { jobs = (3, job) ∷ [] }
