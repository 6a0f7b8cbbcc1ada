-- ===== src/Worker/Pipeline/Fresh.antt =====
-- New identifiers and storage keys, for the asset rows of src/workers/video.worker.ts.
use neura_gen.Worker.Pipeline.{is_key_taken, holds_key, folder_of, video_name, thumbnail_name}
use neura_gen.Worker.Pipeline.Delivery.{Delivers}
use neura_gen.Worker.Plan.{ProviderExecution}
use neura_gen.Worker.Steps.{Outside}
use neura_gen.Store.{Asset}
use neura_gen.Base.{
  if◌then◌else◌, ℕ, ◌≡◌, ◌∷◌, ◌==◌, ◌=ₛ◌, refl, inl, inr, some, none, Option, String, Bool, true,
  false, List, is_some, Table, lookup, put, find, find_row, lookup-put, ==_refl, arith, Bool-cases,
  [],
}

pub put-here : (out : ℕ) (a : Asset) (t : Table Asset) → lookup out (put out a t) ≡ some a
put-here out a t = rw (lookup-put out out a t, ==_refl out) refl

pub put-elsewhere :
    (out other : ℕ) (a : Asset) (t : Table Asset)
    → (out == other) ≡ false
    → lookup out (put other a t) ≡ lookup out t
put-elsewhere out other a t h = rw (lookup-put out other a t, h) refl

pub apart_sym : (m n : ℕ) → (m == n) ≡ false → (n == m) ≡ false
apart_sym m n h = ground arith

-- A search that passes over its first entry.
passed_over :
    {A : Type 0}
    → (b : Bool) (x : A) (rest : Option A) → b ≡ false
    → is_some rest ≡ false
    → is_some (if b then some x else rest) ≡ false
passed_over b x rest e h = rw e h

not_found :
    {A : Type 0}
    → (b : Bool) (x : A) (rest : Option A) → is_some (if b then some x else rest) ≡ false
    → (b ≡ false) × (is_some rest ≡ false)
not_found false x rest h = (refl, h)
not_found true x rest h = ground arith

find_row-put :
    (p : ℕ → Asset → Bool) (k : ℕ) (a : Asset) (t : Table Asset)
    → ((n : ℕ) → p n a ≡ false)
    → is_some (find_row p t) ≡ false
    → is_some (find_row p (put k a t)) ≡ false
unfolding find_row put
find_row-put p k a [] own h = rw (own k, is_some) refl
find_row-put p k a ((j, b) ∷ t) own h =
    let (other, none_after) = not_found (p j b) (j, b) (find_row p t) h in
    elim (Bool-cases (k == j)) [
      | inl same ↦ rw same (passed_over (p j a) (j, a) (find_row p t) (own j) none_after)
      | inr apart ↦ rw apart (
          passed_over (p j b) (j, b) (find_row p (put k a t)) other
            (find_row-put p k a t own none_after))
    ]

pub is_key_taken-put :
    (key : String) (k : ℕ) (a : Asset) (t : Table Asset)
    → holds_key key a ≡ false
    → is_key_taken key t ≡ false
    → is_key_taken key (put k a t) ≡ false
unfolding is_key_taken
is_key_taken-put key k a t own h = find_row-put (λ _ b. holds_key key b) k a t (λ _. own) h

find-past :
    {A : Type 0}
    → (p : A → Bool) (x : A) (xs : List A) → p x ≡ false
    → is_some (find p xs) ≡ false
    → is_some (find p (x ∷ xs)) ≡ false
find-past p x xs e h = rw (e, is_some) h

pub holds_key-other :
    (key own : String) (a : Asset)
    → (own =ₛ key) ≡ false
    → holds_key key a ≡ false
    → holds_key key (record a { versions = record { version = 1; object_key = own } ∷ a.versions })
      ≡ false
unfolding holds_key
holds_key-other key own a other h =
    find-past (λ v. v.object_key =ₛ key) (record { version = 1; object_key = own }) a.versions other
      h

-- The keys that the storage gives to the two outputs of a job.
abbrev pub video_key : {w : Outside} {r : ProviderExecution} → Delivers w r → ℕ → String → String
video_key d id v = (d.upload v (folder_of id) (video_name id)).0

abbrev pub thumbnail_key :
    {w : Outside} {r : ProviderExecution} → Delivers w r → ℕ → String → String
thumbnail_key d id v = (d.upload v (folder_of id) (thumbnail_name id)).0

-- No row of `t` has the identifiers drawn for the two assets, or a key of the two files, and the
-- two files have different keys.
pub record IsNew (w : Outside) (r : ProviderExecution) (d : Delivers w r) (id : ℕ) (t : Table Asset)
    : Type 0 where
  pub new_output : lookup w.output_id t ≡ none
  pub new_thumbnail : lookup w.thumbnail_id t ≡ none
  pub new_video_key : (video : String) → is_key_taken (video_key d id video) t ≡ false
  pub new_thumbnail_key : (picture : String) → is_key_taken (thumbnail_key d id picture) t ≡ false
  pub distinct_keys :
      (video picture : String) → (video_key d id video =ₛ thumbnail_key d id picture) ≡ false
