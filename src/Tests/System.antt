-- ===== src/Tests/System.antt =====
-- A history of the whole system.
use neura_gen.Base.{All, refl, ◌≤◌, ◌++◌, lookup, ℕ, lookup, ◌≡◌, none, some, List, [], ◌∷◌}
use neura_gen.Ledger.{balance, ledger_sum, IsBalanced}
use neura_gen.System.Removals.{
  Event, call, removal, run_events, Spares, entries_of, run_events_books,
}
use neura_gen.System.{top_up}
use neura_gen.Jobs.Cancel.{removed}
use neura_gen.System.{
  Call, register, order, mark_paid, settle_read, create_job, cancel, run_all, empty_db,
}
use neura_gen.System.Books.{run_all_refines, run_all_balances, run_all_within_quota}
use neura_gen.Ledger.Steps.{Reaches}
use neura_gen.Store.{CreditTransaction}
use neura_gen.Jobs.Create.{used_on}
use neura_gen.Jobs.Catalog.{pro_daily_free_premium_credits}
use neura_gen.Tests.Data.{world, topup_dto, topup_order, free_user, job_dto}

-- An order is paid twice, the second time from a read before the first; a job is cancelled.
abbrev history : List Call
history =
    register 1
    ∷ order (λ k. k) 0 7 1 topup_dto
    ∷ mark_paid 5 7 (some "T1")
    ∷ settle_read 6 7 (some "T1") topup_order free_user
    ∷ create_job 10 3 1 job_dto none
    ∷ create_job 11 4 1 job_dto none
    ∷ cancel 12 1 3 removed
    ∷ []

run_all_balances_example :
    balance 1 (run_all world history empty_db)
    ≡ ledger_sum 1 (run_all world history empty_db).transactions
run_all_balances_example = run_all_balances world history 1

run_all_refines_example : Reaches empty_db (run_all world history empty_db)
run_all_refines_example = run_all_refines world history empty_db

-- A user who leaves, and one who stays.
abbrev events : List Event
events = call (register 1) ∷ call (register 2) ∷ removal 2 ∷ call (top_up 1 50 none) ∷ []

empty-IsBalanced : IsBalanced empty_db
unfolding lookup
empty-IsBalanced = record { books = λ u. refl }

run_events_books_example :
    ((u : ℕ)
      → balance u (run_events world events empty_db)
        ≡ ledger_sum u (run_events world events empty_db).transactions)
    × ((u : ℕ)
        → All (Spares u) events
        → (newer : List CreditTransaction) × (entries_of u
              (run_events world events empty_db).transactions
            ≡ newer ++ entries_of u empty_db.transactions))
run_events_books_example = run_events_books world events empty_db empty-IsBalanced

run_all_within_quota_example :
    used_on 1 0 (run_all world history empty_db).usages ≤ pro_daily_free_premium_credits
run_all_within_quota_example = run_all_within_quota world history 1 0
