-- ===== src/System/Workers.antt =====
-- A run of the worker (src/workers/video.worker.ts) among the calls of the other services.
use neura_gen.Worker.Books.Handler.{handle-Reaches}
use neura_gen.System.{empty_db, run_all, Call, World}
use neura_gen.Ledger.Steps.{Reaches, here}
use neura_gen.Ledger.{balance, ledger_sum}
use neura_gen.Ledger.Invariants.{Reaches-IsBalanced}
use neura_gen.System.Books.{run_all-Reaches}
use neura_gen.Worker.Handle.{handle}
use neura_gen.Worker.Steps.{Outside, BullJob}
use neura_gen.Worker.Task.{Run}
use neura_gen.Base.{ℕ, ◌≡◌, refl, List, lookup}

-- Before each access to the database that the run makes, a history of calls.
abbrev pub among : World → (ℕ → List Call) → Outside → Outside
among w cs o = record o { meanwhile = λ n db. run_all w (cs n) db }

pub handle_refines :
    (w : World) (cs : ℕ → List Call) (o : Outside) (bull : BullJob) (s : Run)
    → Reaches s.db (handle (among w cs o) bull s).1.db
handle_refines w cs o bull s =
    handle-Reaches (among w cs o) (λ n db h. run_all-Reaches w (cs n) db h) bull s here

-- A run of the worker's handler may be interleaved with any history of calls before each of its
-- accesses to the database: where all began with an empty database, every user's balance is the sum
-- of that user's credit transactions after the run, however the run ends.
pub handle_balances :
    (w : World) (before : List Call) (cs : ℕ → List Call) (o : Outside) (bull : BullJob) (s : Run)
    (u : ℕ)
    → s.db ≡ run_all w before empty_db
    → balance u (handle (among w cs o) bull s).1.db
      ≡ ledger_sum u (handle (among w cs o) bull s).1.db.transactions
unfolding lookup
handle_balances w before cs o bull s u e =
    let start : Reaches empty_db s.db = rw e (run_all-Reaches w before empty_db here) in
    (Reaches-IsBalanced empty_db (handle (among w cs o) bull s).1.db (record { books = λ _. refl })
        (handle-Reaches (among w cs o) (λ n db h. run_all-Reaches w (cs n) db h) bull s
          start)).books
      u
