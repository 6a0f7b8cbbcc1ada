-- ===== src/Jobs/Catalog.antt =====
-- The presets of video generation (src/modules/jobs/video-generation.catalog.ts).
use neura_gen.Base.{ℕ, String, Bool, true, false, Option, get_or, List, [], ◌∷◌, ◌=ₛ◌, find, ◌||◌}
use neura_gen.Store.{Workflow, i2v, ti2v}

pub data Tier : Type 0 where
  preview standard quality turbo : Tier

abbrev pub tier_text : Tier → String
tier_text Tier.preview = "preview"
tier_text Tier.standard = "standard"
tier_text Tier.quality = "quality"
tier_text Tier.turbo = "turbo"

pub record VideoGenerationPreset : Type 0 where
  pub id : String
  pub label : String
  pub tier : Tier
  pub provider : String
  pub workflow : Workflow
  pub model_name : String
  pub turbo_enabled : Bool
  pub credit_cost : ℕ
  pub estimated_duration_seconds : ℕ
  pub requires_explicit_selection : Bool

abbrev pub pro_daily_free_premium_credits : ℕ
pro_daily_free_premium_credits = 20

abbrev pub default_video_preset_id : String
default_video_preset_id = "standard_wan22_ti2v"

abbrev pub preview_ltx_i2v : VideoGenerationPreset
preview_ltx_i2v = record {
  id = "preview_ltx_i2v";
  label = "LTX-Video Preview I2V";
  tier = Tier.preview;
  provider = "modal";
  workflow = i2v;
  model_name = "ltx-video-i2v-preview";
  turbo_enabled = false;
  credit_cost = 5;
  estimated_duration_seconds = 300;
  requires_explicit_selection = true;
}

abbrev pub turbo_wan22_i2v_a14b : VideoGenerationPreset
turbo_wan22_i2v_a14b = record {
  id = "turbo_wan22_i2v_a14b";
  label = "Turbo Wan 2.2 I2V A14B";
  tier = Tier.turbo;
  provider = "modal";
  workflow = i2v;
  model_name = "wan2.2-i2v-a14b-turbo";
  turbo_enabled = true;
  credit_cost = 15;
  estimated_duration_seconds = 240;
  requires_explicit_selection = true;
}

abbrev pub standard_wan22_ti2v : VideoGenerationPreset
standard_wan22_ti2v = record {
  id = "standard_wan22_ti2v";
  label = "Wan 2.2 Standard TI2V";
  tier = Tier.standard;
  provider = "modal";
  workflow = ti2v;
  model_name = "wan2.2-ti2v-standard";
  turbo_enabled = false;
  credit_cost = 10;
  estimated_duration_seconds = 420;
  requires_explicit_selection = false;
}

abbrev pub standard_wan22_ti2v_8s : VideoGenerationPreset
standard_wan22_ti2v_8s = record {
  id = "standard_wan22_ti2v_8s";
  label = "Wan 2.2 Standard TI2V (8s)";
  tier = Tier.standard;
  provider = "modal";
  workflow = ti2v;
  model_name = "wan2.2-ti2v-standard";
  turbo_enabled = false;
  credit_cost = 14;
  estimated_duration_seconds = 660;
  requires_explicit_selection = true;
}

abbrev pub quality_hunyuan_i2v : VideoGenerationPreset
quality_hunyuan_i2v = record {
  id = "quality_hunyuan_i2v";
  label = "Hunyuan Video Quality I2V";
  tier = Tier.quality;
  provider = "modal";
  workflow = i2v;
  model_name = "hunyuan-video-i2v-quality";
  turbo_enabled = false;
  credit_cost = 20;
  estimated_duration_seconds = 1320;
  requires_explicit_selection = true;
}

abbrev pub video_generation_presets : List VideoGenerationPreset
video_generation_presets =
    preview_ltx_i2v ∷ turbo_wan22_i2v_a14b ∷ standard_wan22_ti2v ∷ standard_wan22_ti2v_8s
    ∷ quality_hunyuan_i2v ∷ []

-- `resolveVideoPreset`; none is its exception.
unfoldable pub resolve_video_preset : Option String → Option VideoGenerationPreset
resolve_video_preset preset_id =
    find (λ p. p.id =ₛ get_or preset_id default_video_preset_id) video_generation_presets

-- `isProOnlyPreset`
unfoldable pub is_pro_only_preset : String → Bool
is_pro_only_preset id = (id =ₛ "turbo_wan22_i2v_a14b") || (id =ₛ "quality_hunyuan_i2v")
