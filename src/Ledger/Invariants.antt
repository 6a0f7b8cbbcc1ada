-- ===== src/Ledger/Invariants.antt =====
-- Invariants of the abstract machine of the books.
use neura_gen.Base.{
  ℕ, ◌≡◌, refl, ap, ◌∙◌, List, [], ◌∷◌, ◌++◌, ◌≤◌, ◌+◌, ◌&&◌, ◌==◌, ltb, if◌then◌else◌, inl, inr,
  Bool-cases, arith,
}
use neura_gen.Store.{Db, CreditTransaction, UserDailyUsage}
use neura_gen.Ledger.{IsBalanced, entry-IsBalanced, same-IsBalanced, zero-IsBalanced}
use neura_gen.Ledger.Steps.{Reaches, here, leave, post, use_free, IsFreeUse}
use neura_gen.Jobs.Catalog.{pro_daily_free_premium_credits}
use neura_gen.Jobs.Create.{used_on, add_usage}

free_use-IsBalanced :
    (user day n : ℕ) (t : CreditTransaction) (db db' : Db)
    → IsBalanced db
    → IsFreeUse user day n t db db'
    → IsBalanced db'
free_use-IsBalanced user day n t db db' h f = elim (Bool-cases (ltb 0 n)) [
  | inl some_left ↦
      zero-IsBalanced user t db db' h f.amount f.wallets (rw some_left at f.transactions)
  | inr nothing ↦ same-IsBalanced db db' h f.wallets (rw nothing at f.transactions)
]

pub Reaches-IsBalanced : (start db : Db) → IsBalanced start → Reaches start db → IsBalanced db
Reaches-IsBalanced start db h here = h
Reaches-IsBalanced start db h (leave {db = db₀} _ r s) =
    same-IsBalanced db₀ db (Reaches-IsBalanced start db₀ h r) s.wallets s.transactions
Reaches-IsBalanced start db h (post {db = db₀} _ user x t r p) =
    entry-IsBalanced user x t db₀ db (Reaches-IsBalanced start db₀ h r) p.owner p.sum p.wallets
      p.transactions
Reaches-IsBalanced start db h (use_free {db = db₀} _ user day n t r f) =
    free_use-IsBalanced user day n t db₀ db (Reaches-IsBalanced start db₀ h r) f

-- The ledger of `db` is that of `start` with newer entries before it.
abbrev pub Extends : Db → Db → Type 0
Extends start db =
    (newer : List CreditTransaction) × (db.transactions ≡ newer ++ start.transactions)

Extends-entry :
    (t : CreditTransaction) (start db db' : Db)
    → Extends start db
    → db'.transactions ≡ t ∷ db.transactions
    → Extends start db'
Extends-entry t start db db' (newer, e) p = (t ∷ newer, p ∙ ap (λ l. t ∷ l) e)

pub Reaches-Extends : (start db : Db) → Reaches start db → Extends start db
Reaches-Extends start db here = ([], refl)
Reaches-Extends start db (leave {db = db₀} _ r s) =
    let (newer, e) = Reaches-Extends start db₀ r in (newer, s.transactions ∙ e)
Reaches-Extends start db (post {db = db₀} _ user x t r p) =
    Extends-entry t start db₀ db (Reaches-Extends start db₀ r) p.transactions
Reaches-Extends start db (use_free {db = db₀} _ user day n t r f) = elim (Bool-cases (ltb 0 n)) [
  | inl some_left ↦
      Extends-entry t start db₀ db (Reaches-Extends start db₀ r) (rw some_left at f.transactions)
  | inr nothing ↦
      let (newer, e) = Reaches-Extends start db₀ r in
      let same : db.transactions ≡ db₀.transactions = rw nothing at f.transactions in
      (newer, same ∙ e)
]

-- Nobody has used more free credits on a day than the quota.
pub record IsWithinQuota (db : Db) : Type 0 where
  pub within : (u d : ℕ) → used_on u d db.usages ≤ pro_daily_free_premium_credits

used_on-add_usage :
    (u d user day n : ℕ) (us : List UserDailyUsage)
    → used_on u d (add_usage user day n us)
      ≡ (if (u == user) && (d == day) then used_on user day us + n else used_on u d us)
unfolding used_on add_usage
used_on-add_usage u d user day n [] = ground arith
used_on-add_usage u d user day n (x ∷ us) = ground (arith, used_on-add_usage u d user day n us)

free_use-IsWithinQuota :
    (user day n : ℕ) (t : CreditTransaction) (db db' : Db)
    → IsWithinQuota db
    → IsFreeUse user day n t db db'
    → IsWithinQuota db'
free_use-IsWithinQuota user day n t db db' h f = record {
  within = λ u d. rw f.usages (
      rw (used_on-add_usage u d user day n db.usages)
        (ground (arith, h.within u d, h.within user day, f.quota)));
}

pub Reaches-IsWithinQuota :
    (start db : Db) → IsWithinQuota start → Reaches start db → IsWithinQuota db
Reaches-IsWithinQuota start db h here = h
Reaches-IsWithinQuota start db h (leave {db = db₀} _ r s) = record {
  within = λ u d. rw s.usages ((Reaches-IsWithinQuota start db₀ h r).within u d);
}
Reaches-IsWithinQuota start db h (post {db = db₀} _ user x t r p) = record {
  within = λ u d. rw p.usages ((Reaches-IsWithinQuota start db₀ h r).within u d);
}
Reaches-IsWithinQuota start db h (use_free {db = db₀} _ user day n t r f) =
    free_use-IsWithinQuota user day n t db₀ db (Reaches-IsWithinQuota start db₀ h r) f
