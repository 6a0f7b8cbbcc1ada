-- ===== src/Worker/Pipeline/Publishing.antt =====
-- The end of a run of the handler of src/workers/video.worker.ts: the assets of the outputs.
use neura_gen.Worker.Steps.Quiet.{IsQuiet}
use neura_gen.Worker.Task.Rules.{await_rule, then_rule, Succeeds}
use neura_gen.Worker.Pipeline.{
  deliver, no_extra, thumbnail_name, video_name, folder_of, publish_thumbnail, publish_video,
  new_artifact, publish, with_provider,
}
use neura_gen.Worker.Pipeline.Outputs.{
  IsStored, IsStored-here, IsStored-there, HasVideo, HasVideo-put, Published, upload_rule,
  create_asset_rule, create_version_rule,
}
use neura_gen.Worker.Pipeline.Fresh.{
  IsNew, video_key, thumbnail_key, put-here, put-elsewhere, apart_sym, is_key_taken-put,
  holds_key-other,
}
use neura_gen.Worker.Pipeline.{is_key_taken, has_first_version, holds_key}
use neura_gen.Worker.Pipeline.Delivery.{
  fetch_video-Keeps, Delivers, then-Keeps, processing_rule, IsProcessing,
}
use neura_gen.Worker.Pipeline.Rules.{Row, set_status_rule, At, Knows}
use neura_gen.Worker.Plan.{ProviderExecution}
use neura_gen.Worker.Steps.{Outside}
use neura_gen.Worker.Task.{Run}
use neura_gen.Store.{Asset, JobStatus, GenerateJob, AssetRole, AssetType}
use neura_gen.Base.{
  none, [], ℕ, ◌≡◌, ◌∷◌, ◌=ₛ◌, refl, ◌∙◌, some, String, false, List, Table, lookup, put,
}

module _ (w : Outside) (quiet : IsQuiet w) (id : ℕ) where
  module _ (job : GenerateJob) where
    abbrev output : Asset
    output = new_artifact job.user_id id AssetType.video AssetRole.output

    abbrev thumbnail : Asset
    thumbnail = new_artifact job.user_id id AssetType.thumbnail AssetRole.thumbnail

    module _ (r : ProviderExecution) (d : Delivers w r) (video : String) where
      -- What is known on the way: the key, the new asset, the key of the thumbnail and its asset.
      abbrev Spare : String → Table Asset → Type 0
      Spare key t =
          (lookup w.thumbnail_id t ≡ none)
          × ((x : String)
              → (is_key_taken (thumbnail_key d id x) t ≡ false)
                × ((key =ₛ thumbnail_key d id x) ≡ false))

      abbrev Uploaded : String → Table Asset → List String → Type 0
      Uploaded key t files =
          IsStored key files
          × (lookup w.output_id t ≡ none)
          × (is_key_taken key t ≡ false)
          × Spare key t

      abbrev Created : String → Table Asset → List String → Type 0
      Created key t files =
          IsStored key files
          × (lookup w.output_id t ≡ some output)
          × (is_key_taken key t ≡ false)
          × Spare key t

      abbrev Versioned : String → Table Asset → List String → Type 0
      Versioned key t files = HasVideo w.output_id key t files × Spare key t

      abbrev Pictured : (key thumb_key : String) → Table Asset → List String → Type 0
      Pictured key thumb_key t files =
          HasVideo w.output_id key t files
          × IsStored thumb_key files
          × (lookup w.thumbnail_id t ≡ none)
          × (is_key_taken thumb_key t ≡ false)

      abbrev Framed : (key thumb_key : String) → Table Asset → List String → Type 0
      Framed key thumb_key t files =
          HasVideo w.output_id key t files
          × IsStored thumb_key files
          × (lookup w.thumbnail_id t ≡ some thumbnail)
          × (is_key_taken thumb_key t ≡ false)

      upload-Uploaded :
          (t : Table Asset) (files : List String)
          → IsNew w r d id t
          → Uploaded (video_key d id video) t (video_key d id video ∷ files)
      upload-Uploaded t files n = (
        IsStored-here (video_key d id video) files,
        n.new_output,
        n.new_video_key video,
        (n.new_thumbnail, λ x. (n.new_thumbnail_key x, n.distinct_keys video x)),
      )

      create-Created :
          (key : String) (t : Table Asset) (files : List String)
          → Uploaded key t files
          → Created key (put w.output_id output t) files
      unfolding holds_key
      create-Created key t files (k, _, free, (gone, spare)) = (
        k,
        put-here w.output_id output t,
        is_key_taken-put key w.output_id output t refl free,
        (
          put-elsewhere w.thumbnail_id w.output_id output t
                (apart_sym w.output_id w.thumbnail_id d.distinct_ids)
              ∙ gone,
          λ x. (
            is_key_taken-put (thumbnail_key d id x) w.output_id output t refl (spare x).0,
            (spare x).1,
          ),
        ),
      )

      version-Versioned :
          (key : String) (t : Table Asset) (files : List String)
          → Created key t files
          → Versioned key
              (put w.output_id
                (record output { versions = record { version = 1; object_key = key } ∷ [] })
                t)
              files
      unfolding holds_key
      version-Versioned key t files (k, _, _, (gone, spare)) = (
        ((_, _, put-here w.output_id _ t, refl), k),
        (
          put-elsewhere w.thumbnail_id w.output_id _ t
                (apart_sym w.output_id w.thumbnail_id d.distinct_ids)
              ∙ gone,
          λ x. (
            is_key_taken-put (thumbnail_key d id x) w.output_id _ t
                (holds_key-other (thumbnail_key d id x) key output (spare x).1 refl) (spare x).0,
            (spare x).1,
          ),
        ),
      )

      publish_video-Versioned :
          (s : Run)
          → Knows w quiet id (λ t _. IsNew w r d id t) IsProcessing s
          → Succeeds
              (λ key t. Knows w quiet id (Versioned key) IsProcessing t)
              (publish_video w id job video s)
      unfolding publish_video has_first_version
      publish_video-Versioned s h =
          let (first, stored) = d.upload video (folder_of id) (video_name id) in
          then_rule (λ x t. Knows w quiet id (Uploaded x) IsProcessing t) _ _ _
            (upload_rule w quiet id (λ t _. IsNew w r d id t) Uploaded IsProcessing video
              (folder_of id) (video_name id) first s stored upload-Uploaded h)
            (λ key s₁ h₁.
              then-Keeps w quiet id (Uploaded key) _ _ _
                (processing_rule w quiet id (Uploaded key) IsProcessing 90 no_extra s₁ h₁
                  (λ j. (refl, refl)))
                (λ _ s₂ h₂.
                  then_rule (λ _ t. Knows w quiet id (Created key) IsProcessing t) _ _ _
                    (create_asset_rule w quiet id (Uploaded key) (Created key) IsProcessing
                      w.output_id output s₂ (λ t files k. (k.1, create-Created key t files k)) h₂)
                    (λ _ s₃ h₃.
                      then-Keeps w quiet id (Created key) _ _ _
                        (processing_rule w quiet id (Created key) IsProcessing 95 no_extra s₃ h₃
                          (λ j. (refl, refl)))
                        (λ _ s₄ h₄.
                          then_rule (λ _ t. Knows w quiet id (Versioned key) IsProcessing t) _ _ _
                            (create_version_rule w quiet id (Created key) (Versioned key)
                              IsProcessing w.output_id key s₄
                              (λ t files k.
                                (output, k.1, k.2, refl, version-Versioned key t files k))
                              h₄)
                            (λ _ s₅ h₅. h₅)))))

      publish_thumbnail-Published :
          (key : String) (s : Run)
          → Knows w quiet id (Versioned key) IsProcessing s
          → Succeeds
              (λ _ t. Knows w quiet id (Published w.output_id w.thumbnail_id key) IsProcessing t)
              (publish_thumbnail w id job video s)
      unfolding publish_thumbnail holds_key has_first_version
      publish_thumbnail-Published key s h =
          let out = w.output_id in
          let thumb = w.thumbnail_id in
          let (picture, made) = d.thumbnail video in
          then_rule (λ x t. Knows w quiet id (Versioned key) IsProcessing t) _ _ _
            (await_rule _ (w.generate_thumbnail video) picture s made h)
            (λ x s₁ h₁.
              let (second, stored) = d.upload x (folder_of id) (thumbnail_name id) in
              then_rule (λ y t. Knows w quiet id (Pictured key y) IsProcessing t) _ _ _
                (upload_rule w quiet id (Versioned key) (Pictured key) IsProcessing x (folder_of id)
                  (thumbnail_name id) second s₁ stored
                  (λ t files ((a, k), (gone, spare)). (
                    (a, IsStored-there key second files k),
                    IsStored-here second files,
                    gone,
                    (spare x).0,
                  ))
                  h₁)
                (λ y s₂ h₂.
                  then_rule (λ _ t. Knows w quiet id (Framed key y) IsProcessing t) _ _ _
                    (create_asset_rule w quiet id (Pictured key y) (Framed key y) IsProcessing thumb
                      thumbnail s₂
                      (λ t files (v, k, gone, free). (
                        gone,
                        (
                          HasVideo-put out thumb key thumbnail t files d.distinct_ids v,
                          k,
                          put-here thumb thumbnail t,
                          is_key_taken-put y thumb thumbnail t refl free,
                        ),
                      ))
                      h₂)
                    (λ _ s₃ h₃.
                      create_version_rule w quiet id (Framed key y) (Published out thumb key)
                        IsProcessing thumb y s₃
                        (λ t files (v, k, e, free). (
                          thumbnail,
                          e,
                          free,
                          refl,
                          (
                            HasVideo-put out thumb key _ t files d.distinct_ids v,
                            (y, ((_, _, put-here thumb _ t, refl), k)),
                          ),
                        ))
                        h₃)))

    publish-Published :
        (r : ProviderExecution) (d : Delivers w r) (video : String) (s : Run)
        → Knows w quiet id (λ t _. IsNew w r d id t) IsProcessing s
        → Succeeds
            (λ key t.
              Knows w quiet id
                (Published w.output_id w.thumbnail_id key)
                (At JobStatus.completed 100)
                t)
            (publish w id job r video s)
    unfolding publish
    publish-Published r d video s h =
        then_rule (λ key t. Knows w quiet id (Versioned r d video key) IsProcessing t) _ _ _
          (publish_video-Versioned r d video s h)
          (λ key s₁ h₁.
            then_rule
              (λ _ t. Knows w quiet id (Published w.output_id w.thumbnail_id key) IsProcessing t) _
              _ _ (publish_thumbnail-Published r d video key s₁ h₁)
              (λ _ s₂ h₂.
                then_rule
                  (λ _ t.
                    Knows w quiet id (Published w.output_id w.thumbnail_id key)
                      (At JobStatus.completed 100) t)
                  _ _ _
                  (set_status_rule w quiet id (Published w.output_id w.thumbnail_id key)
                    IsProcessing JobStatus.completed 100
                    (λ j. record (with_provider r.provider j) { completed_at = some w.now }) s₂ h₂
                    (λ j. (refl, refl)))
                  (λ _ s₃ h₃. h₃)))

  -- If a provider has responded, and the storage and the video tools answer, then the run returns,
  -- the job is completed, and the video and its thumbnail are assets with a stored file, whatever
  -- the status of the job was when the provider responded, a cancellation included; no other
  -- service writes after the response, the two asset identifiers differ and no asset has one, and
  -- the two storage keys differ and no version has one.
  pub deliver-completes :
      (job : GenerateJob) (r : ProviderExecution)
      → (d : Delivers w r) (s : Run) → Row id (λ j. Unit) s
      → IsNew w r d id s.db.assets
      → Succeeds
          (λ key t.
            Row id (At JobStatus.completed 100) t
            × Published w.output_id w.thumbnail_id key t.db.assets t.files)
          (deliver w id job r s)
  unfolding deliver
  deliver-completes job r d s h new =
      then_rule (λ _ t. Knows w quiet id (λ a _. IsNew w r d id a) IsProcessing t) _ _ _
        (fetch_video-Keeps w quiet id (λ a _. IsNew w r d id a) job r d s (h, new))
        (λ video t k. publish-Published job r d video t k)
