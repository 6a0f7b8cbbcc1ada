-- ===== src/Tests/Paid.antt =====
-- Orders that are paid, paid again, and refused.
use neura_gen.Base.{
  arith, false, find_row, ◌≡◌, refl, none, some, pos, lookup, update, put, find_row, ◌+ℤ◌,
}
use neura_gen.Store.{User, UserRole, Db, ok}
use neura_gen.Credits.{upsert_wallet, create_transaction}
use neura_gen.Ledger.{balance}
use neura_gen.Billing.Paid.{
  is_reference_used, already_paid, marked_paid, mark_order_paid, settle, claim, fulfil, grant_pro,
  paid_row,
}
use neura_gen.Billing.Paid.Marking.{Marks, mark_order_paid-Marks}
use neura_gen.Billing.Paid.Once.{IsMarked, mark_order_paid_once, mark_order_paid_settles}
use neura_gen.Billing.Paid.Pro.{mark_order_paid_grants_pro}
use neura_gen.Jobs.Create.{resolve_effective_role}
use neura_gen.Tests.Data.{shop, pro_order, topup_order, failed_order, free_user}

mark_order_paid-Marks_example : Marks 5 8 (some "T1") shop (mark_order_paid 5 8 (some "T1") shop)
mark_order_paid-Marks_example = mark_order_paid-Marks 5 8 (some "T1") shop

-- The shop once the PRO order is paid.
abbrev paid_shop : Db
paid_shop = (mark_order_paid 5 8 (some "T1") shop).1

pro_paid :
    mark_order_paid 5 8 (some "T1") shop
    ≡ (ok (marked_paid 8 (paid_row 5 (some "T1") pro_order) (some 2592000005)), paid_shop)
unfolding mark_order_paid settle claim fulfil grant_pro upsert_wallet create_transaction lookup
    update put find_row
pro_paid = refl

credited : balance 1 paid_shop ≡ pos 1100
unfolding mark_order_paid settle claim fulfil grant_pro upsert_wallet create_transaction lookup
    update put find_row ◌+ℤ◌
credited = refl

mark_order_paid_once_example : mark_order_paid 6 8 none paid_shop ≡ (ok (already_paid 8), paid_shop)
mark_order_paid_once_example =
    mark_order_paid_once 5 6 8 (some "T1") none shop 8 (paid_row 5 (some "T1") pro_order)
      (some 2592000005) paid_shop pro_paid

pro_stored : lookup 8 shop.orders ≡ some pro_order
unfolding lookup
pro_stored = refl

topup_stored : lookup 7 shop.orders ≡ some topup_order
unfolding lookup
topup_stored = refl

failed_stored : lookup 9 shop.orders ≡ some failed_order
unfolding lookup
failed_stored = refl

user_stored : lookup 1 shop.users ≡ some free_user
unfolding lookup
user_stored = refl

no_reference : is_reference_used 7 (some "T2") shop.orders ≡ false
unfolding find_row
no_reference = refl

mark_order_paid_settles_example : IsMarked (mark_order_paid 5 7 (some "T2") shop)
mark_order_paid_settles_example =
    mark_order_paid_settles 5 7 (some "T2") shop topup_order free_user topup_stored user_stored refl
      no_reference

mark_order_paid_grants_pro_example :
    (after : User) × (lookup 1 paid_shop.users ≡ some after)
    × (resolve_effective_role 2592000004 after.role after.pro_expires_at ≡ UserRole.pro)
mark_order_paid_grants_pro_example =
    mark_order_paid_grants_pro 5 8 (some "T1") shop 8 (paid_row 5 (some "T1") pro_order)
      (some 2592000005) paid_shop free_user 2592000004 pro_paid refl user_stored (omega arith)
