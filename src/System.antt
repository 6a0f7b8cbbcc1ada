-- ===== src/System.antt =====
-- The services together: every call that moves credits, over one database, in any order. A call
-- whose first read may be out of date when it writes takes what it read as an argument, whatever
-- it was: so a history is an interleaving of calls, not only a sequence of them.
pub mod Books
pub mod Removals
pub mod Refunds
pub mod Races
pub mod Workers
use neura_gen.Base.{ℕ, String, Option, List, [], ◌∷◌, Bool}
use neura_gen.Store.{Db, User, PaymentOrder, GenerateJob, Action, transaction, Result}
use neura_gen.Js.{Js, Fields}
use neura_gen.Credits.{refund_failed_job, pay_failed_refund}
use neura_gen.Users.{create_account, top_up_my_credits}
use neura_gen.Billing.Sync.{
  PaymentRequestId, PayosLookup, sync_my_order, sync_pending, apply_payos_lookup,
  sync_payos_order_status,
}
use neura_gen.Billing.Orders.{
  CreatePaymentOrderDto, MomoCreateRequest, MomoCreateResponse, PayosCreateRequest,
  PayosCreateResponse, create_order,
}
use neura_gen.Billing.Paid.{mark_order_paid, settle}
use neura_gen.Billing.Momo.{MomoIpnPayload, apply_momo_ipn, handle_momo_ipn}
use neura_gen.Billing.Payos.{PayosWebhookEnvelope, apply_payos_webhook, handle_payos_webhook}
use neura_gen.Jobs.Create.{charge_and_create, enqueue, CreateVideoJobDto, create_video_job}
use neura_gen.Jobs.Catalog.{VideoGenerationPreset}
use neura_gen.Jobs.Cancel.{Removal, cancel_job, finish_cancel}

-- What the services take from outside.
pub record World : Type 0 where
  pub js : Js
  pub sign : String → String → String
  pub env : String → Option String
  pub extra : ℕ → PaymentOrder → String
  pub momo_gateway : MomoCreateRequest → Option MomoCreateResponse
  pub payos_gateway : PayosCreateRequest → Option PayosCreateResponse
  pub ask : PaymentRequestId → Option PayosLookup

pub data Call : Type 0 where
  register : (id : ℕ) → Call
  top_up : (user_id amount : ℕ) → Option String → Call
  order : (ℕ → ℕ) → (now id user_id : ℕ) → CreatePaymentOrderDto → Call
  mark_paid : (now id : ℕ) → Option String → Call
  settle_read : (now id : ℕ) → Option String → PaymentOrder → User → Call
  momo_ipn : (now : ℕ) → Fields → Call
  payos_webhook : (now : ℕ) → Fields → Call
  sync_order : (silent : Bool) → (now id user_id : ℕ) → Call
  create_job : (now id user_id : ℕ) → CreateVideoJobDto → Option String → Call
  cancel : (now user_id id : ℕ) → Removal → Call
  cancel_read : (now id : ℕ) → GenerateJob → Call
  refund : (id : ℕ) → GenerateJob → String → Call
  refund_read : (id : ℕ) → GenerateJob → String → Call
  momo_read : (now : ℕ) → MomoIpnPayload → (id : ℕ) → PaymentOrder → Call
  payos_read : (now : ℕ) → PayosWebhookEnvelope → (id : ℕ) → PaymentOrder → Call
  sync_read : (now id : ℕ) → PaymentOrder → Fields → Call
  charge_read : (now id user_id : ℕ) → CreateVideoJobDto → VideoGenerationPreset → Call
  enqueue_read : (now id : ℕ) → GenerateJob → VideoGenerationPreset → Option String → Call

-- The database after a call, returned or thrown.
unfoldable pub run : World → Call → Db → Db
run w (register id) db = (create_account id db).1
run w (top_up u n note) db = (top_up_my_credits u n note db).1
run w (order draws now id u dto) db =
    (create_order w.js w.sign w.env w.extra w.momo_gateway w.payos_gateway draws now id u dto db).1
run w (mark_paid now id ref) db = (mark_order_paid now id ref db).1
run w (settle_read now id ref o u) db = (transaction (settle now id ref o u) db).1
run w (momo_ipn now raw) db = (handle_momo_ipn w.sign w.js w.env now raw db).1
run w (payos_webhook now raw) db = (handle_payos_webhook w.js w.sign w.env now raw db).1
run w (sync_order silent now id u) db =
    (sync_payos_order_status w.js w.sign w.env w.ask silent now id u db).1
run w (create_job now id u dto queue) db = (create_video_job w.env now id u dto queue db).1
run w (cancel now u id removal) db = (cancel_job now u id removal db).1
run w (cancel_read now id job) db = (finish_cancel now id job db).1
run w (refund id job message) db = (refund_failed_job id job message db).1
run w (refund_read id job message) db = (pay_failed_refund id job message db).1
run w (momo_read now p id o) db = (apply_momo_ipn w.sign now p id o db).1
run w (payos_read now p id o) db = (apply_payos_webhook w.js w.sign now p id o db).1
run w (sync_read now id o d) db = (apply_payos_lookup w.js w.sign now id o d db).1
run w (charge_read now id u dto preset) db = (charge_and_create w.env now id u dto preset db).1
run w (enqueue_read now id job preset queue) db = (enqueue now id job preset queue db).1

unfoldable pub run_all : World → List Call → Db → Db
run_all w [] db = db
run_all w (c ∷ cs) db = run_all w cs (run w c db)

abbrev pub empty_db : Db
empty_db = record {
  users = [];
  wallets = [];
  transactions = [];
  usages = [];
  orders = [];
  jobs = [];
  assets = [];
  logs = [];
}
