-- ===== src/Worker/Steps/Cleanup.antt =====
-- What `cleanupOutputArtifacts` of src/workers/video.worker.ts leaves, where the other services
-- write nothing in between.
use neura_gen.Worker.Task.Rules.{Succeeds}
use neura_gen.Worker.Steps.Quiet.{query-quiet, IsQuiet}
use neura_gen.Worker.Steps.{
  query, artifact_keys, return, is_empty, Outside, is_artifact, cleanup_output_artifacts, artifacts,
  delete_assets, delete_file, delete_files,
}
use mathlib.Core.Path.{subst}
use neura_gen.Worker.Task.{Run}
use neura_gen.Store.{modify, gets, Asset}
use neura_gen.Base.{
  All-map, not_both, find-skip, filterb-drop, filterb-keep, ==_refl, ℕ, ◌≡◌, suc, not, ◌∷◌, ◌==◌,
  ◌=ₛ◌, if◌then◌else◌, arith, refl, sym, ap, inl, inr, Bool-cases, String, Bool, true, false, List,
  [], All, is_some, Table, lookup, filterb, find,
}

-- No file with this key.
abbrev pub IsAbsent : String → List String → Type 0
IsAbsent key files = is_some (find (λ f. f =ₛ key) files) ≡ false

module _ {ℓ} {A : Type ℓ} (p : A → Bool) where
  find-parts :
      (x : A) (xs : List A)
      → is_some (find p (x ∷ xs)) ≡ false
      → (p x ≡ false) × (is_some (find p xs) ≡ false)
  find-parts x xs h = ground arith

  -- What is not there is not there among fewer.
  find-filterb :
      (q : A → Bool) (xs : List A)
      → is_some (find p xs) ≡ false
      → is_some (find p (filterb q xs)) ≡ false
  find-filterb q [] h = h
  find-filterb q (x ∷ xs) h =
      let (misses, rest) = find-parts x xs h in
      elim (Bool-cases (q x)) [
        | inl keep ↦
            rw (filterb-keep q x xs keep)
              (find-skip p x (filterb q xs) false misses (find-filterb q xs rest))
        | inr drop ↦ rw (filterb-drop q x xs drop) (find-filterb q xs rest)
      ]

  find-removed : (xs : List A) → is_some (find p (filterb (λ x. not (p x)) xs)) ≡ false
  find-removed [] = refl
  find-removed (x ∷ xs) = elim (Bool-cases (p x)) [
    | inl fits ↦ rw (filterb-drop (λ y. not (p y)) x xs (ap not fits)) (find-removed xs)
    | inr other ↦
        rw (filterb-keep (λ y. not (p y)) x xs (ap not other))
          (find-skip p x (filterb (λ y. not (p y)) xs) false other (find-removed xs))
  ]

pub delete_files-IsAbsent :
    (key : String) (ks files : List String)
    → IsAbsent key files
    → IsAbsent key (delete_files ks files)
unfolding delete_files delete_file
delete_files-IsAbsent key [] files h = h
delete_files-IsAbsent key (k ∷ ks) files h =
    delete_files-IsAbsent key ks (delete_file k files)
      (find-filterb (λ f. f =ₛ key) (λ f. not (f =ₛ k)) files h)

delete_file-IsAbsent : (key : String) (files : List String) → IsAbsent key (delete_file key files)
unfolding delete_file
delete_file-IsAbsent key files = find-removed (λ f. f =ₛ key) files

-- What has been deleted is gone.
pub delete_files-gone : (ks files : List String) → All (λ k. IsAbsent k (delete_files ks files)) ks
unfolding delete_files
delete_files-gone [] files = tt
delete_files-gone (k ∷ ks) files = (
  delete_files-IsAbsent k ks (delete_file k files) (delete_file-IsAbsent k files),
  delete_files-gone ks (delete_file k files),
)

-- Every row that fits is found by its key among those that fit.
abbrev IsFound : (ℕ × Asset → Bool) → Table Asset → ℕ × Asset → Type 0
IsFound p gone a = p a ≡ true → is_some (lookup a.0 gone) ≡ true

lookup-cons :
    (k j : ℕ) (a : Asset) (t : Table Asset)
    → is_some (lookup k t) ≡ true
    → is_some (lookup k ((j, a) ∷ t)) ≡ true
unfolding lookup
lookup-cons k j a t h = elim (Bool-cases (k == j)) [
  | inl here ↦ rw here refl
  | inr there ↦ rw there h
]

IsFound-All : (p : ℕ × Asset → Bool) (t : Table Asset) → All (IsFound p (filterb p t)) t
unfolding lookup
IsFound-All p [] = tt
IsFound-All p ((k, a) ∷ t) = elim (Bool-cases (p (k, a))) [
  | inl fits ↦
      subst (λ u. All (IsFound p u) ((k, a) ∷ t)) (sym (filterb-keep p (k, a) t fits))
        (
          (λ _. rw (==_refl k) refl),
          All-map (IsFound p (filterb p t)) (IsFound p ((k, a) ∷ filterb p t)) t
              (λ b f q. lookup-cons b.0 k a (filterb p t) (f q)) (IsFound-All p t),
        )
  | inr other ↦
      subst (λ u. All (IsFound p u) ((k, a) ∷ t)) (sym (filterb-drop p (k, a) t other))
        ((λ q. not_both (p (k, a)) q other), IsFound-All p t)
]

delete_assets-filterb :
    (p : ℕ × Asset → Bool) (gone t : Table Asset)
    → All (IsFound p gone) t
    → filterb p (delete_assets gone t) ≡ []
unfolding delete_assets
delete_assets-filterb p gone [] h = refl
delete_assets-filterb p gone (a ∷ t) (h, hs) =
    let kept : (ℕ × Asset → Bool) = λ b. not (is_some (lookup b.0 gone)) in
    elim (Bool-cases (is_some (lookup a.0 gone))) [
      | inl found ↦ rw (filterb-drop kept a t (ap not found)) (delete_assets-filterb p gone t hs)
      | inr lost ↦ elim (Bool-cases (p a)) [
        | inl fits ↦ not_both (is_some (lookup a.0 gone)) (h fits) lost
        | inr other ↦
            rw (filterb-keep kept a t (ap not lost), filterb-drop p a (filterb kept t) other)
              (delete_assets-filterb p gone t hs)
      ]
    ]

-- No artifact of the job is left.
pub delete_assets-artifacts :
    (id : ℕ) (t : Table Asset) → artifacts id (delete_assets (artifacts id t) t) ≡ []
unfolding artifacts
delete_assets-artifacts id t =
    delete_assets-filterb (is_artifact id) (filterb (is_artifact id) t) t
      (IsFound-All (is_artifact id) t)

-- What the cleanup leaves.
pub record IsCleaned (id : ℕ) (s t : Run) : Type 0 where
  pub same_jobs : t.db.jobs ≡ s.db.jobs
  pub same_wallets : t.db.wallets ≡ s.db.wallets
  pub same_transactions : t.db.transactions ≡ s.db.transactions
  pub same_progress : t.current_progress ≡ s.current_progress
  pub no_artifacts : artifacts id t.db.assets ≡ []
  pub no_new_files : (key : String) → IsAbsent key s.files → IsAbsent key t.files

-- The run after the deletes in the storage.
abbrev without_files : List String → Run → Run
without_files keys s = record s { files = delete_files keys s.files; queries = suc s.queries }

delete_found-cleans :
    (w : Outside) (id : ℕ) (keys : List String) (s : Run)
    → IsQuiet w
    → (found : Table Asset) → artifacts id s.db.assets ≡ found
    → Succeeds
        (λ _ t. IsCleaned id s t)
        ((if is_empty found
            then return tt
            else query w.meanwhile
                (modify (λ db. record db { assets = delete_assets found db.assets })))
          (without_files keys s))
delete_found-cleans w id keys s quiet [] e = record {
  same_jobs = refl;
  same_wallets = refl;
  same_transactions = refl;
  same_progress = refl;
  no_artifacts = e;
  no_new_files = λ key h. delete_files-IsAbsent key keys s.files h;
}
delete_found-cleans w id keys s quiet (a ∷ found) e =
    rw
      (query-quiet w (modify (λ db. record db { assets = delete_assets (a ∷ found) db.assets }))
        (without_files keys s) quiet)
      (record {
        same_jobs = refl;
        same_wallets = refl;
        same_transactions = refl;
        same_progress = refl;
        no_artifacts =
            subst (λ f. artifacts id (delete_assets f s.db.assets) ≡ []) e
              (delete_assets-artifacts id s.db.assets);
        no_new_files = λ key h. delete_files-IsAbsent key keys s.files h;
      })

pub cleanup_output_artifacts-cleans :
    (w : Outside) (id : ℕ) (s : Run)
    → IsQuiet w
    → Succeeds (λ _ t. IsCleaned id s t) (cleanup_output_artifacts w id s)
unfolding cleanup_output_artifacts
cleanup_output_artifacts-cleans w id s quiet =
    rw (query-quiet w (gets (λ db. artifacts id db.assets)) s quiet) (
      delete_found-cleans w id (artifact_keys (artifacts id s.db.assets)) s quiet
        (artifacts id s.db.assets) refl)
