-- ===== src/Tests/Jobs.antt =====
-- Jobs that are charged, refused by the queue, and cancelled.
use neura_gen.Base.{none, false, ◌&&◌, not, ◌≡◌, refl, some, pos, ◌+ℤ◌, lookup}
use neura_gen.Store.{UserRole, Db, Error, ok, err}
use neura_gen.Credits.{refund_credit_if_missing, increment_wallet, create_transaction}
use neura_gen.Ledger.{balance}
use neura_gen.Jobs.Catalog.{standard_wan22_ti2v, resolve_video_preset, is_pro_only_preset}
use neura_gen.Jobs.Create.{
  check_input_asset, is_pro, is_admin, charge_and_create, create_video_job, update_job, add_log,
}
use neura_gen.Jobs.Cancel.{removed, still_running, finish_cancel, cancel_job}
use neura_gen.Jobs.Cancel.Once.{cancel_job_once, cancel_job_refunds}
use neura_gen.Jobs.Charge.Outcome.{Charges, charge_and_create-Charges}
use neura_gen.Jobs.Charge.Billing.{Bills}
use neura_gen.Jobs.Charge.Success.{IsQueued, create_video_job-IsQueued}
use neura_gen.Store.Rules.{Returns}
use neura_gen.Jobs.Charge.Request.{create_video_job-Bills}
use neura_gen.Tests.Data.{shop, free_user, env, job_dto, job, studio}

charge_and_create-Charges_example :
    Charges 10 3 1 job_dto standard_wan22_ti2v shop
      (charge_and_create env 10 3 1 job_dto standard_wan22_ti2v shop)
charge_and_create-Charges_example =
    charge_and_create-Charges env 10 3 1 job_dto standard_wan22_ti2v shop

create_video_job-Bills_example :
    Bills 1 shop (create_video_job env 10 3 1 job_dto (some "redis is down") shop)
create_video_job-Bills_example =
    create_video_job-Bills env 10 3 1 job_dto (some "redis is down") shop refl

abbrev cancelled_studio : Db
cancelled_studio = (cancel_job 12 1 3 removed studio).1

first_cancel :
    cancel_job 12 1 3 removed studio
    ≡ (ok (record { job_id = 3; refunded_credit = 10 }), cancelled_studio)
unfolding cancel_job finish_cancel update_job add_log refund_credit_if_missing increment_wallet
    create_transaction lookup
first_cancel = refl

cancel_job_once_example :
    cancel_job 13 1 3 still_running cancelled_studio
    ≡ (err (Error.bad_request "Job already canceled"), cancelled_studio)
cancel_job_once_example =
    cancel_job_once 12 13 1 3 removed still_running studio
      (record { job_id = 3; refunded_credit = 10 }) cancelled_studio first_cancel

job_stored : lookup 3 studio.jobs ≡ some job
unfolding lookup
job_stored = refl

wallet_stored : lookup 1 studio.wallets ≡ some (pos 100)
unfolding lookup
wallet_stored = refl

cancel_job_refunds_example :
    ((cancel_job 12 1 3 removed studio).0 ≡ ok (record { job_id = 3; refunded_credit = 10 }))
    × (balance 1 (cancel_job 12 1 3 removed studio).1 ≡ pos 100 +ℤ pos 10)
cancel_job_refunds_example =
    cancel_job_refunds 12 3 removed job studio (pos 100) job_stored refl refl wallet_stored refl

preset_known : resolve_video_preset job_dto.preset_id ≡ some standard_wan22_ti2v
unfolding resolve_video_preset
preset_known = refl

input_accepted : check_input_asset 1 job_dto standard_wan22_ti2v.workflow shop ≡ (ok tt, shop)
unfolding check_input_asset
input_accepted = refl

user_stored : lookup 1 shop.users ≡ some free_user
unfolding lookup
user_stored = refl

allowed_preset :
    (is_pro_only_preset standard_wan22_ti2v.id
      && (not (is_pro UserRole.free) && not (is_admin UserRole.free)))
    ≡ false
unfolding is_pro_only_preset
allowed_preset = refl

shop_wallet : lookup 1 shop.wallets ≡ some (pos 100)
unfolding lookup
shop_wallet = refl

no_job : lookup 4 shop.jobs ≡ none
unfolding lookup
no_job = refl

create_video_job-IsQueued_example :
    Returns (IsQueued 4) (create_video_job env 10 4 1 job_dto none shop)
create_video_job-IsQueued_example =
    create_video_job-IsQueued env 10 4 1 job_dto standard_wan22_ti2v shop free_user (pos 100)
      preset_known input_accepted user_stored allowed_preset shop_wallet refl no_job
