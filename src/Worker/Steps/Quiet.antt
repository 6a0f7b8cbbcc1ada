-- ===== src/Worker/Steps/Quiet.antt =====
-- A run where the other services write nothing between the accesses to the database.
use neura_gen.Store.{Action, Db}
use neura_gen.Worker.Task.{lift_result, Run, query}
use neura_gen.Worker.Steps.{Outside}
use neura_gen.Base.{ℕ, ◌≡◌, refl}

abbrev pub IsQuiet : Outside → Type 0
IsQuiet w = (n : ℕ) (db : Db) → w.meanwhile n db ≡ db

pub query-quiet {ℓ} :
    {A : Type ℓ} (w : Outside) (m : Action A) (s : Run)
    → IsQuiet w
    → query w.meanwhile m s ≡ lift_result s (m s.db)
unfolding query
query-quiet w m s quiet = rw (quiet s.queries s.db) refl
