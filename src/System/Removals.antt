-- ===== src/System/Removals.antt =====
-- Histories of calls in which accounts are removed (DELETE /users/me,
-- src/modules/users/users.service.ts).
use mathlib.Core.List.{append_assoc}
use neura_gen.Users.{remove_user}
use neura_gen.System.{World, Call, run, run_all}
use neura_gen.System.Books.{run_all_refines, run_all_appends}
use neura_gen.Ledger.{balance, ledger_sum, IsBalanced}
use neura_gen.Ledger.Invariants.{Reaches-IsBalanced}
use neura_gen.Store.{Db, CreditTransaction}
use neura_gen.Base.{
  ℕ, ◌≡◌, ◌∷◌, ◌++◌, ◌==◌, not, refl, sym, ap, ◌∙◌, Bool, true, false, inl, inr, Bool-cases, List,
  [], All, filterb, filterb-keep, filterb-drop, is_some, lookup, lookup-delete_row, arith, pos, ℤ,
  ◌+ℤ◌, if◌then◌else◌,
}

pub data Event : Type 0 where
  call : Call → Event
  removal : (user_id : ℕ) → Event

unfoldable pub run_event : World → Event → Db → Db
run_event w (call c) db = run w c db
run_event w (removal u) db = (remove_user u db).1

unfoldable pub run_events : World → List Event → Db → Db
run_events w [] db = db
run_events w (e ∷ es) db = run_events w es (run_event w e db)

-- The entries of a user, and an event that does not remove this user.
abbrev pub entries_of : ℕ → List CreditTransaction → List CreditTransaction
entries_of u ts = filterb (λ t. t.user_id == u) ts

abbrev pub Spares : ℕ → Event → Type 0
Spares u (call c) = Unit
Spares u (removal v) = (u == v) ≡ false

abbrev Appends : ℕ → List CreditTransaction → List CreditTransaction → Type 0
Appends u ts ts' = (newer : List CreditTransaction) × (entries_of u ts' ≡ newer ++ entries_of u ts)

module _ {ℓ} {A : Type ℓ} (p : A → Bool) where
  filterb-append : (xs ys : List A) → filterb p (xs ++ ys) ≡ filterb p xs ++ filterb p ys
  filterb-append [] ys = refl
  filterb-append (x ∷ xs) ys = elim (Bool-cases (p x)) [
    | inl keep ↦
        filterb-keep p x (xs ++ ys) keep
        ∙ ap (λ l. x ∷ l) (filterb-append xs ys)
        ∙ ap (λ l. l ++ filterb p ys) (sym (filterb-keep p x xs keep))
    | inr drop ↦
        filterb-drop p x (xs ++ ys) drop
        ∙ filterb-append xs ys
        ∙ ap (λ l. l ++ filterb p ys) (sym (filterb-drop p x xs drop))
  ]

  filterb-filterb :
      (q : A → Bool) (xs : List A)
      → ((x : A) → p x ≡ true → q x ≡ true)
      → filterb p (filterb q xs) ≡ filterb p xs
  filterb-filterb q [] h = refl
  filterb-filterb q (x ∷ xs) h = elim (Bool-cases (p x)) [
    | inl keep ↦
        ap (filterb p) (filterb-keep q x xs (h x keep))
        ∙ filterb-keep p x (filterb q xs) keep
        ∙ ap (λ l. x ∷ l) (filterb-filterb q xs h)
        ∙ sym (filterb-keep p x xs keep)
    | inr drop ↦ elim (Bool-cases (q x)) [
      | inl own ↦
          ap (filterb p) (filterb-keep q x xs own)
          ∙ filterb-drop p x (filterb q xs) drop
          ∙ filterb-filterb q xs h
          ∙ sym (filterb-drop p x xs drop)
      | inr other ↦
          ap (filterb p) (filterb-drop q x xs other)
          ∙ filterb-filterb q xs h
          ∙ sym (filterb-drop p x xs drop)
    ]
  ]

other_owner : (a u v : ℕ) → (u == v) ≡ false → (a == u) ≡ true → not (a == v) ≡ true
other_owner a u v h e = ground (arith, h, e)

gone_sum :
    (a u v : ℕ) (s d : ℤ)
    → (a == v) ≡ true
    → (if u == v then pos 0 else s) ≡ (if u == v then pos 0 else (if a == u then s +ℤ d else s))
gone_sum a u v s d h = ground (arith, h)

left_sum :
    (a u v : ℕ) (x s d : ℤ)
    → (a == v) ≡ false
    → x ≡ (if u == v then pos 0 else s)
    → (if a == u then x +ℤ d else x) ≡ (if u == v then pos 0 else (if a == u then s +ℤ d else s))
left_sum a u v x s d h e = ground (arith, h, e)

-- What is left of the ledger after the removal of an account.
ledger_sum-removed :
    (u v : ℕ) (ts : List CreditTransaction)
    → ledger_sum u (filterb (λ t. not (t.user_id == v)) ts)
      ≡ (if u == v then pos 0 else ledger_sum u ts)
ledger_sum-removed u v [] = ground arith
ledger_sum-removed u v (t ∷ ts) = elim (Bool-cases (t.user_id == v)) [
  | inl gone ↦
      ap (ledger_sum u) (filterb-drop (λ x. not (x.user_id == v)) t ts (ap not gone))
      ∙ ledger_sum-removed u v ts
      ∙ gone_sum t.user_id u v (ledger_sum u ts) t.amount gone
  | inr left ↦
      ap (ledger_sum u) (filterb-keep (λ x. not (x.user_id == v)) t ts (ap not left))
      ∙ left_sum t.user_id u v (ledger_sum u (filterb (λ x. not (x.user_id == v)) ts))
          (ledger_sum u ts) t.amount left (ledger_sum-removed u v ts)
]

remove_user-IsBalanced : (v : ℕ) (db : Db) → IsBalanced db → IsBalanced (remove_user v db).1
unfolding remove_user
remove_user-IsBalanced v db h = elim (Bool-cases (is_some (lookup v db.users))) [
  | inr unknown ↦ rw unknown h
  | inl known ↦ rw known (record {
    books = λ u.
        rw (lookup-delete_row u v db.wallets, ledger_sum-removed u v db.transactions)
          (elim (Bool-cases (u == v)) [ inl own ↦ rw own refl | inr other ↦ rw other (h.books u) ]);
  })
]

remove_user-Appends :
    (u v : ℕ) (db : Db)
    → (u == v) ≡ false
    → entries_of u (remove_user v db).1.transactions ≡ entries_of u db.transactions
unfolding remove_user
remove_user-Appends u v db other = elim (Bool-cases (is_some (lookup v db.users))) [
  | inr unknown ↦ rw unknown refl
  | inl known ↦ rw known (
      filterb-filterb (λ t. t.user_id == u) (λ t. not (t.user_id == v)) db.transactions
        (λ t own. other_owner t.user_id u v other own))
]

run_event-IsBalanced :
    (w : World) (e : Event) (db : Db) → IsBalanced db → IsBalanced (run_event w e db)
unfolding run_event run_all
run_event-IsBalanced w (call c) db h =
    Reaches-IsBalanced db (run w c db) h (run_all_refines w (c ∷ []) db)
run_event-IsBalanced w (removal v) db h = remove_user-IsBalanced v db h

run_event-Appends :
    (w : World) (u : ℕ) (e : Event) (db : Db)
    → Spares u e
    → Appends u db.transactions (run_event w e db).transactions
unfolding run_event run_all
run_event-Appends w u (call c) db h =
    let (newer, e) = run_all_appends w (c ∷ []) db in
    (
      entries_of u newer,
      ap (entries_of u) e ∙ filterb-append (λ t. t.user_id == u) newer db.transactions,
    )
run_event-Appends w u (removal v) db h = ([], remove_user-Appends u v db h)

run_events-IsBalanced :
    (w : World) (es : List Event) (db : Db) → IsBalanced db → IsBalanced (run_events w es db)
unfolding run_events
run_events-IsBalanced w [] db h = h
run_events-IsBalanced w (e ∷ es) db h =
    run_events-IsBalanced w es (run_event w e db) (run_event-IsBalanced w e db h)

run_events-Appends :
    (w : World) (u : ℕ) (es : List Event) (db : Db)
    → All (Spares u) es
    → Appends u db.transactions (run_events w es db).transactions
unfolding run_events
run_events-Appends w u [] db h = ([], refl)
run_events-Appends w u (e ∷ es) db (spared, h) =
    let (first, a) = run_event-Appends w u e db spared in
    let (later, b) = run_events-Appends w u es (run_event w e db) h in
    (
      later ++ first,
      b ∙ ap (λ l. later ++ l) a ∙ sym (append_assoc later first (entries_of u db.transactions)),
    )

-- Histories of calls in which accounts are removed as well, from a database where every wallet
-- holds the sum of its owner's transactions: after any of them every wallet does, and the ledger of
-- a user whose account is not removed is append-only, with the entries that were there left in
-- their order behind the newer ones.
pub run_events_books :
    (w : World) (es : List Event) (db : Db)
    → IsBalanced db
    → ((u : ℕ) → balance u (run_events w es db) ≡ ledger_sum u (run_events w es db).transactions)
      × ((u : ℕ)
          → All (Spares u) es
          → (newer : List CreditTransaction) × (entries_of u (run_events w es db).transactions
              ≡ newer ++ entries_of u db.transactions))
run_events_books w es db h =
    ((run_events-IsBalanced w es db h).books, λ u. run_events-Appends w u es db)
