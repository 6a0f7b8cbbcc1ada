-- ===== src/Worker/Pipeline/Outputs.antt =====
-- The uploads and inserts of outputs in src/workers/video.worker.ts, as rules on a run.
use neura_gen.Worker.Steps.Quiet.{query-quiet, IsQuiet}
use neura_gen.Worker.Plan.{responded}
use neura_gen.Worker.Task.Rules.{Succeeds}
use neura_gen.Worker.Pipeline.{query, create_version, create_asset, upload}
use neura_gen.Worker.Pipeline.Fresh.{put-elsewhere}
use neura_gen.Worker.Pipeline.{is_key_taken, has_first_version}
use neura_gen.Worker.Pipeline.Rules.{Knows}
use neura_gen.Worker.Plan.{responded}
use neura_gen.Worker.Steps.{Outside}
use neura_gen.Worker.Task.{Run}
use neura_gen.Base.{=ₛ_iff, find-here, find-there}
use neura_gen.Store.{AssetVersion, Asset, GenerateJob}
use neura_gen.Base.{
  none, ℕ, ◌≡◌, ◌∷◌, ◌==◌, ◌=ₛ◌, refl, ◌∙◌, some, String, true, false, List, is_some, Table, lookup,
  put, find,
}

-- `key` is a file of the storage.
abbrev pub IsStored : String → List String → Type 0
IsStored key files = is_some (find (λ f. f =ₛ key) files) ≡ true

pub IsStored-here : (key : String) (files : List String) → IsStored key (key ∷ files)
IsStored-here key files = find-here (λ f. f =ₛ key) key files ((=ₛ_iff key key).1 refl)

-- The asset `out` has `key` as its newest version, and `key` is stored.
abbrev pub HasVideo : (out : ℕ) (key : String) → Table Asset → List String → Type 0
HasVideo out key t files =
    ((a : Asset) × (vs : List AssetVersion) × (lookup out t ≡ some a)
      × (a.versions ≡ record { version = 1; object_key = key } ∷ vs))
    × IsStored key files

pub IsStored-there :
    (key other : String) (files : List String) → IsStored key files → IsStored key (other ∷ files)
IsStored-there key other files h = find-there (λ f. f =ₛ key) other files h

pub HasVideo-put :
    (out other : ℕ) (key : String) (a : Asset) (t : Table Asset) (files : List String)
    → (out == other) ≡ false
    → HasVideo out key t files
    → HasVideo out key (put other a t) files
HasVideo-put out other key a t files h ((b, vs, e, v), k) =
    ((b, vs, put-elsewhere out other a t h ∙ e, v), k)

-- The two outputs.
abbrev pub Published : (out thumb : ℕ) (key : String) → Table Asset → List String → Type 0
Published out thumb key t files =
    HasVideo out key t files × ((thumb_key : String) × HasVideo thumb thumb_key t files)

module _ (w : Outside) (quiet : IsQuiet w) (id : ℕ) where
  pub upload_rule :
      (K : Table Asset → List String → Type 0) (L : String → Table Asset → List String → Type 0)
      (P : GenerateJob → Type 0) (buffer folder name key : String) (s : Run)
      → w.upload_key buffer folder name ≡ responded key
      → ((t : Table Asset) (files : List String) → K t files → L key t (key ∷ files))
      → Knows w quiet id K P s
      → Succeeds (λ x t. Knows w quiet id (L x) P t) (upload w buffer folder name s)
  unfolding upload
  upload_rule K L P buffer folder name key s e f (row, k) = rw e (row, f s.db.assets s.files k)

  module _ (K L : Table Asset → List String → Type 0) (P : GenerateJob → Type 0) where
    pub create_asset_rule :
        (asset_id : ℕ) (a : Asset) (s : Run)
        → ((t : Table Asset) (files : List String)
            → K t files
            → (lookup asset_id t ≡ none) × L (put asset_id a t) files)
        → Knows w quiet id K P s
        → Succeeds (λ _ t. Knows w quiet id L P t) (query w.meanwhile (create_asset asset_id a) s)
    unfolding create_asset
    create_asset_rule asset_id a s f (row, k) =
        let (new, l) = f s.db.assets s.files k in
        rw (query-quiet w (create_asset asset_id a) s quiet, new, is_some) (row, l)

    pub create_version_rule :
        (asset_id : ℕ) (key : String) (s : Run)
        → ((t : Table Asset) (files : List String)
            → K t files
            → (a : Asset) × (lookup asset_id t ≡ some a)
              × (is_key_taken key t ≡ false)
              × (has_first_version a ≡ false)
              × L
                  (put asset_id
                    (record a { versions = record { version = 1; object_key = key } ∷ a.versions })
                    t)
                  files)
        → Knows w quiet id K P s
        → Succeeds
            (λ _ t. Knows w quiet id L P t)
            (query w.meanwhile (create_version asset_id key) s)
    unfolding create_version
    create_version_rule asset_id key s f (row, k) =
        let (a, e, new, first, l) = f s.db.assets s.files k in
        rw (query-quiet w (create_version asset_id key) s quiet, e, new, first) (row, l)
