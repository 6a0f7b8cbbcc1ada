-- ===== src/System/Books.antt =====
-- Histories of calls and the machine of the books.
use neura_gen.Base.{◌++◌, ◌≤◌, arith, lookup, ℕ, ◌≡◌, refl, List, [], ◌∷◌}
use neura_gen.Store.{Db, CreditTransaction}
use neura_gen.Ledger.Steps.{Reaches, here}
use neura_gen.Ledger.{balance, ledger_sum}
use neura_gen.Ledger.Invariants.{Reaches-IsBalanced, Reaches-Extends, Reaches-IsWithinQuota}
use neura_gen.Jobs.Create.{used_on}
use neura_gen.Jobs.Catalog.{pro_daily_free_premium_credits}
use neura_gen.Ledger.Refunds.{pay_failed_refund-Reaches, refund_failed_job-Reaches}
use neura_gen.Users.Books.{create_account-Reaches, top_up_my_credits-Reaches}
use neura_gen.Billing.Paid.Books.{mark_order_paid-Reaches, settle-Reaches}
use neura_gen.Billing.Books.{
  apply_momo_ipn-Reaches, apply_payos_webhook-Reaches, handle_momo_ipn-Reaches,
  handle_payos_webhook-Reaches,
}
use neura_gen.Billing.Books.Requests.{
  apply_payos_lookup-Reaches, create_order-Reaches, sync_payos_order_status-Reaches,
}
use neura_gen.Jobs.Books.{
  charge_and_create-Reaches, enqueue-Reaches, create_video_job-Reaches, cancel_job-Reaches,
  finish_cancel-Reaches,
}
use neura_gen.System.{
  World, Call, register, top_up, order, mark_paid, settle_read, momo_ipn, payos_webhook, sync_order,
  create_job, cancel, cancel_read, refund, refund_read, momo_read, payos_read, sync_read,
  charge_read, enqueue_read, run, run_all, empty_db,
}

pub run-Reaches :
    {start : Db} (w : World) (c : Call) (db : Db) → Reaches start db → Reaches start (run w c db)
unfolding run
run-Reaches w (register id) db h = create_account-Reaches id db h
run-Reaches w (top_up u n note) db h = top_up_my_credits-Reaches u n note db h
run-Reaches w (order draws now id u dto) db h =
    create_order-Reaches w.js w.sign w.env w.extra w.momo_gateway w.payos_gateway draws now id u dto
      db h
run-Reaches w (mark_paid now id ref) db h = mark_order_paid-Reaches now id ref db h
run-Reaches w (settle_read now id ref o u) db h = settle-Reaches now id ref o u db h
run-Reaches w (momo_ipn now raw) db h = handle_momo_ipn-Reaches w.sign w.js w.env now raw db h
run-Reaches w (payos_webhook now raw) db h =
    handle_payos_webhook-Reaches w.js w.sign w.env now raw db h
run-Reaches w (sync_order silent now id u) db h =
    sync_payos_order_status-Reaches w.js w.sign w.env w.ask silent now id u db h
run-Reaches w (create_job now id u dto queue) db h =
    create_video_job-Reaches w.env now id u dto queue db h
run-Reaches w (cancel now u id removal) db h = cancel_job-Reaches now u id removal db h
run-Reaches w (cancel_read now id job) db h = finish_cancel-Reaches now id job db h
run-Reaches w (refund id job message) db h = refund_failed_job-Reaches id job message db h
run-Reaches w (refund_read id job message) db h = pay_failed_refund-Reaches id job message db h
run-Reaches w (momo_read now p id o) db h = apply_momo_ipn-Reaches w.sign now p id o db h
run-Reaches w (payos_read now p id o) db h = apply_payos_webhook-Reaches w.js w.sign now p id o db h
run-Reaches w (sync_read now id o d) db h = apply_payos_lookup-Reaches w.js w.sign now id o d db h
run-Reaches w (charge_read now id u dto preset) db h =
    charge_and_create-Reaches w.env now id u dto preset db h
run-Reaches w (enqueue_read now id job preset queue) db h =
    enqueue-Reaches now id job preset queue db h

pub run_all-Reaches :
    {start : Db} (w : World) (cs : List Call) (db : Db)
    → Reaches start db
    → Reaches start (run_all w cs db)
unfolding run_all
run_all-Reaches w [] db h = h
run_all-Reaches w (c ∷ cs) db h = run_all-Reaches w cs (run w c db) (run-Reaches w c db h)

-- Every history of calls, interleaved as they may be between transactions, is a run of the abstract
-- machine of the books: it only posts entries to a wallet and the ledger together, where a charge
-- is covered, and uses up free credits within the quota.
pub run_all_refines : (w : World) (cs : List Call) (db : Db) → Reaches db (run_all w cs db)
run_all_refines w cs db = run_all-Reaches w cs db here

-- After any history of calls, interleaved as they may be between transactions, that began with an
-- empty database, every user's balance is the sum of that user's credit transactions.
pub run_all_balances :
    (w : World) (cs : List Call) (u : ℕ)
    → balance u (run_all w cs empty_db) ≡ ledger_sum u (run_all w cs empty_db).transactions
unfolding lookup
run_all_balances w cs u =
    (Reaches-IsBalanced empty_db _ (record { books = λ _. refl })
        (run_all_refines w cs empty_db)).books
      u

-- A history of these calls leaves the entries of the ledger that were there, in their order, and puts
-- its own before them.
pub run_all_appends :
    (w : World) (cs : List Call) (db : Db)
    → (newer : List CreditTransaction) × ((run_all w cs db).transactions ≡ newer ++ db.transactions)
run_all_appends w cs db = Reaches-Extends db _ (run_all_refines w cs db)

-- After any history of calls that began with an empty database, no user has used more than the
-- daily quota of free credits on any day.
pub run_all_within_quota :
    (w : World) (cs : List Call) (u day : ℕ)
    → used_on u day (run_all w cs empty_db).usages ≤ pro_daily_free_premium_credits
unfolding used_on
run_all_within_quota w cs u day =
    (Reaches-IsWithinQuota empty_db _ (record { within = λ _ _. omega arith })
        (run_all_refines w cs empty_db)).within
      u day
