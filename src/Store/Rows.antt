-- ===== src/Store/Rows.antt =====
-- The enums and rows of prisma/schema.prisma that the modelled services read or write. A date is
-- its time in milliseconds. Of a row, the columns that these services neither read nor write are
-- left out. A JSON column is the record of the keys that the code puts there.
use neura_gen.Base.{ℕ, String, Bool, Option, List, ℤ}

pub data UserRole : Type 0 where
  free pro admin : UserRole

pub data JobStatus : Type 0 where
  pending queued processing completed failed cancelled : JobStatus

pub data AssetType : Type 0 where
  image video thumbnail audio : AssetType

pub data AssetRole : Type 0 where
  input output thumbnail preview temp : AssetRole

pub data CreditReason : Type 0 where
  register_bonus admin_topup test_reward purchase_topup purchase_pro_subscription : CreditReason
  pro_daily_free_usage create_image_to_video_job refund_failed_job refund_canceled_job :
      CreditReason

pub data PaymentProvider : Type 0 where
  momo payos bank_transfer : PaymentProvider

pub data PaymentOrderType : Type 0 where
  credit_topup pro_subscription : PaymentOrderType

pub data PaymentOrderStatus : Type 0 where
  pending paid failed canceled expired : PaymentOrderStatus

pub record User : Type 0 where
  pub role : UserRole
  pub pro_expires_at : Option ℕ

-- The metadata of a credit transaction: a constructor for each object that the code writes.
pub data TransactionMetadata : Type 0 where
  empty : TransactionMetadata
  purchase :
      (payment_order_id : ℕ)
      → PaymentProvider
      → (provider_order_id : Option String) → (package_code : String) → TransactionMetadata
  free_usage :
      (input_asset_id : Option ℕ)
      → (prompt preset_id : String) → (date_key free_credit_applied : ℕ) → TransactionMetadata
  charge :
      (input_asset_id : Option ℕ)
      → (prompt preset_id : String) → (base_credit_cost charged_credit_cost free_credit_applied : ℕ)
      → TransactionMetadata
  refund : (job_id : ℕ) → (failed_message : Option String) → TransactionMetadata
  manual_topup : (note : Option String) → TransactionMetadata

pub record CreditTransaction : Type 0 where
  pub user_id : ℕ
  pub amount : ℤ
  pub reason : CreditReason
  pub metadata : TransactionMetadata

pub record UserDailyUsage : Type 0 where
  pub user_id : ℕ
  pub date_key : ℕ
  pub premium_free_credits_used : ℕ

-- The metadata of an order: an object that only the billing service writes.
pub record OrderMetadata : Type 0 where
  pub amount_vnd : Option ℕ
  pub integration_status : String
  pub payos_order_code : Option ℕ
  pub payment_link_id : Option String

pub record PaymentOrder : Type 0 where
  pub user_id : ℕ
  pub provider : PaymentProvider
  pub order_type : PaymentOrderType
  pub status : PaymentOrderStatus
  pub package_code : String
  pub amount_usd : String
  pub credit_amount : ℕ
  pub pro_duration_days : ℕ
  pub provider_order_id : Option String
  pub metadata : OrderMetadata
  pub paid_at : Option ℕ
  pub expires_at : Option ℕ

pub data Workflow : Type 0 where
  i2v ti2v t2v : Workflow

pub data ProviderName : Type 0 where
  vast modal : ProviderName

pub record ExtraConfig : Type 0 where
  pub input_asset_id : Option ℕ
  pub preset_id : String
  pub workflow : Workflow
  pub provider_plan : List ProviderName
  pub preset_workflow : Workflow
  pub input_mode : Workflow
  pub include_background_audio : Bool
  pub base_credit_cost : ℕ
  pub charged_credit_cost : ℕ
  pub free_credit_applied : ℕ

pub record GenerateJob : Type 0 where
  pub user_id : ℕ
  pub status : JobStatus
  pub prompt : String
  pub negative_prompt : Option String
  pub model_name : String
  pub turbo_enabled : Bool
  pub progress : ℕ
  pub credit_cost : ℕ
  pub provider : Option String
  pub extra_config : ExtraConfig
  pub error_message : Option String
  pub started_at : Option ℕ
  pub completed_at : Option ℕ
  pub failed_at : Option ℕ

pub record AssetVersion : Type 0 where
  pub version : ℕ
  pub object_key : String

pub record Asset : Type 0 where
  pub user_id : ℕ
  pub job_id : Option ℕ
  pub asset_type : AssetType
  pub role : AssetRole
  pub versions : List AssetVersion

pub record JobLog : Type 0 where
  pub job_id : ℕ
  pub message : String
