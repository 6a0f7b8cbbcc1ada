-- ===== src/Worker/Task/Rules.antt =====
-- Rules of proof for the steps of a run of the worker's handler.
use neura_gen.Worker.Steps.{await}
use neura_gen.Worker.Plan.{responded, Answer}
use neura_gen.Worker.Task.{followed_by, Task, Outcome, Failure, Run, done, raised}
use neura_gen.Base.{◌≡◌, String}

-- `Q` holds where the step returns, `E` where it throws.
abbrev pub Fares {ℓ κ} :
    {A : Type ℓ} → (A → Run → Type κ) → (Failure → Run → Type κ) → Outcome A × Run → Type κ
Fares Q E (done a, s) = Q a s
Fares Q E (raised f, s) = E f s

-- The step returns.
abbrev pub Succeeds {ℓ} : {A : Type ℓ} → (A → Run → Type 0) → Outcome A × Run → Type 0
Succeeds Q r = Fares Q (λ _ _. ⊥) r

module _ {ℓ κ} {A : Type ℓ} {B : Type κ} where
  pub followed_by_rule {μ} :
      (P : A → Run → Type μ) (Q : B → Run → Type μ) (E : Failure → Run → Type μ)
      (r : Outcome A × Run) (f : A → Task B)
      → Fares P E r
      → ((a : A) (s : Run) → P a s → Fares Q E (f a s))
      → Fares Q E (followed_by r f)
  followed_by_rule P Q E (done a, s) f h k = k a s h
  followed_by_rule P Q E (raised e, s) f h k = h

pub await_rule :
    (Q : String → Run → Type 0) (a : Answer) (x : String) (s : Run)
    → a ≡ responded x
    → Q x s
    → Succeeds Q (await a s)
await_rule Q a x s e h = rw e h

pub Succeeds-mono {ℓ} :
    {A : Type ℓ} (P Q : A → Run → Type 0) (r : Outcome A × Run)
    → ((a : A) (s : Run) → P a s → Q a s)
    → Succeeds P r
    → Succeeds Q r
Succeeds-mono P Q (done a, s) f h = f a s h
Succeeds-mono P Q (raised e, s) f h = h

pub then_rule {ℓ κ} :
    {A : Type ℓ} {B : Type κ} (P : A → Run → Type 0) (Q : B → Run → Type 0) (r : Outcome A × Run)
    (f : A → Task B)
    → Succeeds P r
    → ((a : A) (s : Run) → P a s → Succeeds Q (f a s))
    → Succeeds Q (followed_by r f)
then_rule P Q r f h k = followed_by_rule P Q (λ _ _. ⊥) r f h k

-- After a step that returns.
pub after_success {ℓ κ} :
    {A : Type ℓ} {B : Type κ} (P : A → Run → Type 0) (Q : B → Run → Type 0)
    (E : Failure → Run → Type 0) (r : Outcome A × Run) (f : A → Task B)
    → Succeeds P r
    → ((a : A) (s : Run) → P a s → Fares Q E (f a s))
    → Fares Q E (followed_by r f)
after_success P Q E (done a, s) f h k = k a s h
after_success P Q E (raised e, s) f h k = absurd h
