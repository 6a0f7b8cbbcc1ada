-- ===== src/Jobs/Charge/Outcome.antt =====
-- The transaction of `createVideoJob` (src/modules/jobs/jobs.service.ts) as a whole, by how it ends.
use neura_gen.Base.{ℕ, ◌≡◌, refl, Option, some, String, lookup, Bool-cases, Option-cases, inl, inr}
use neura_gen.Store.{Db, User, UserRole, GenerateJob, Result, ok, err, roll_back}
use neura_gen.Store.Rules.{Ensures, after-Ensures, Ensures-mono}
use neura_gen.Jobs.Catalog.{VideoGenerationPreset}
use neura_gen.Jobs.Create.{
  CreateVideoJobDto, refresh_role, charge_and_create, resolve_effective_role, same_role,
}
use neura_gen.Jobs.Charge.{IsCharged, charge_job-IsCharged}

pub record IsRefreshed (now : ℕ) (user : User) (db : Db) (role : UserRole) (db' : Db) : Type 0 where
  pub same : role ≡ resolve_effective_role now user.role user.pro_expires_at
  pub wallets : db'.wallets ≡ db.wallets
  pub usages : db'.usages ≡ db.usages
  pub transactions : db'.transactions ≡ db.transactions
  pub jobs : db'.jobs ≡ db.jobs

pub refresh_role-IsRefreshed :
    (now user_id : ℕ) (user : User) (db : Db)
    → Ensures (IsRefreshed now user db) (refresh_role now user_id user db)
unfolding refresh_role
refresh_role-IsRefreshed now user_id user db =
    elim (Bool-cases
      (same_role user.role (resolve_effective_role now user.role user.pro_expires_at))) [
        | inl kept ↦ rw kept (record {
          same = refl;
          wallets = refl;
          usages = refl;
          transactions = refl;
          jobs = refl;
        })
        | inr lapsed ↦ rw lapsed (record {
          same = refl;
          wallets = refl;
          usages = refl;
          transactions = refl;
          jobs = refl;
        })
      ]

IsCharged-refreshed :
    (now id user_id : ℕ) (user : User) (role : UserRole) (dto : CreateVideoJobDto)
    (preset : VideoGenerationPreset) (db db₁ : Db) (job : GenerateJob) (db' : Db)
    → IsRefreshed now user db role db₁
    → IsCharged now id user_id role dto preset db₁ job db'
    → IsCharged now id user_id
        (resolve_effective_role now user.role user.pro_expires_at)
        dto
        preset
        db
        job
        db'
IsCharged-refreshed now id user_id user role dto preset db db₁ job db' r c = rw (← r.same) (record {
  entitled = c.entitled;
  free = rw r.usages at c.free;
  cost = c.cost;
  covered = λ due. rw r.wallets at (c.covered due);
  wallets = rw r.wallets at c.wallets;
  usages = rw r.usages at c.usages;
  jobs = rw r.jobs at c.jobs;
  is_new = rw r.jobs at c.is_new;
  transactions = rw r.transactions at c.transactions;
  owner = c.owner;
  status = c.status;
})

-- What a call that began at `db` has done, by how it ended.
abbrev pub Charges :
    (now id user_id : ℕ)
    → CreateVideoJobDto
    → VideoGenerationPreset
    → Db
    → Result GenerateJob × Db
    → Type 0
Charges now id user_id dto preset db (err e, db') = db' ≡ db
Charges now id user_id dto preset db (ok job, db') =
    (user : User) × (lookup user_id db.users ≡ some user)
    × IsCharged now id user_id (resolve_effective_role now user.role user.pro_expires_at) dto preset
        db job db'

rolled-Charges :
    (now id user_id : ℕ) (dto : CreateVideoJobDto) (preset : VideoGenerationPreset) (db : Db)
    (user : User) (r : Result GenerateJob × Db)
    → lookup user_id db.users ≡ some user
    → Ensures
        (IsCharged now id user_id
          (resolve_effective_role now user.role user.pro_expires_at)
          dto
          preset
          db)
        r
    → Charges now id user_id dto preset db (roll_back db r)
rolled-Charges now id user_id dto preset db user (ok job, db') found h = (user, found, h)
rolled-Charges now id user_id dto preset db user (err e, db') found h = refl

-- The transaction of a new job is atomic: an exception changes nothing. If it returns, the user is
-- there, a preset for PRO users was asked for by a user whose PRO time has not run out or by an
-- administrator, the cost of the preset is what the job is charged and its share of the day's free
-- credits, the wallet covered the charge and has paid exactly that, the quota of the day has used
-- up exactly that share, and the job is stored as pending under its new identifier.
pub charge_and_create-Charges :
    (env : String → Option String) (now id user_id : ℕ) (dto : CreateVideoJobDto)
    (preset : VideoGenerationPreset) (db : Db)
    → Charges now id user_id dto preset db (charge_and_create env now id user_id dto preset db)
unfolding charge_and_create
charge_and_create-Charges env now id user_id dto preset db =
    elim (Option-cases (lookup user_id db.users)) [
      | inl missing ↦ rw missing refl
      | inr (user, found) ↦ rw found (
          rolled-Charges now id user_id dto preset db user _ found (
            after-Ensures (IsRefreshed now user db) _ _ _
              (refresh_role-IsRefreshed now user_id user db)
              λ role db₁ r.
                Ensures-mono _ _ _
                  (λ job db' c.
                    IsCharged-refreshed now id user_id user role dto preset db db₁ job db' r c)
                  (charge_job-IsCharged env now id user_id role dto preset db₁)))
    ]
