-- ===== src/Voice/Providers.antt =====
-- The providers of a session (backend/app/services/voice/provider_factory.py, the set of
-- interfaces.py) and the user's own keys (backend/app/services/byok.py). Fernet is a parameter.
pub mod Keys
use interviewcraft.Prelude.{
  ◌-◌, String, Bool, not, Option, none, some, get_or, List, [], ◌∷◌, if◌then◌else◌, ◌==◌, nat_eq,
  string_eq, contains, Dict, lookup, is_empty,
}

pub data Vendor : Type 0 where
  claude open_ai deepgram_stt deepgram_tts elevenlabs : Vendor

-- A client of a vendor: its key, and its model or voice if one is passed.
pub record Provider : Type 0 where
  pub vendor : Vendor
  pub api_key : String
  pub model : Option String

pub record ProviderSet : Type 0 where
  pub stt : Provider
  pub voice_llm : Provider
  pub scoring_llm : Provider
  pub diff_llm : Provider
  pub memory_llm : Provider
  pub tts : Provider
  pub quality_profile : String
  pub fallback_tts : Option Provider

-- The platform's keys.
pub record Settings : Type 0 where
  pub deepgram_api_key : String
  pub anthropic_api_key : String
  pub elevenlabs_api_key : String

abbrev pub supported_providers : List String
supported_providers = "anthropic" ∷ "openai" ∷ "deepgram" ∷ "elevenlabs" ∷ []

-- `decrypt` is `decrypt_api_key` under the application's secret, `none` for a key that it refuses.
unfoldable pub decrypt_byok_keys :
    (String → Option String) → Dict String String → Dict String String
decrypt_byok_keys decrypt [] = []
decrypt_byok_keys decrypt ((provider, encrypted) ∷ keys) =
    let rest = decrypt_byok_keys decrypt keys in
    if not (contains provider supported_providers) then rest else elim (decrypt encrypted) [
      | none ↦ rest
      | some plaintext ↦ if is_empty plaintext then rest else (provider, plaintext) ∷ rest
    ]

-- `byok.get(provider) or platform`
unfoldable pub key_of : String → Dict String String → String → String
key_of provider byok platform =
    let own = get_or (lookup provider byok) "" in if is_empty own then platform else own

abbrev pub sonnet : String
sonnet = "claude-sonnet-4-6"

abbrev pub haiku : String
haiku = "claude-haiku-4-5"

abbrev pub gpt4o_mini : String
gpt4o_mini = "gpt-4o-mini"

abbrev pub provider : Vendor → String → Option String → Provider
provider vendor key model = record { vendor = vendor; api_key = key; model = model }

-- `if voice_id`
abbrev pub non_empty : Option String → Option String
non_empty none = none
non_empty (some s) = if is_empty s then none else some s

-- `ProviderFactory.create`; `starts_with` is `str.startswith`.
module _ (starts_with : String → String → Bool) (settings : Settings) where
  unfoldable pub create_primary : Dict String String → String → Provider
  create_primary byok openai_model =
      let openai_key = get_or (lookup "openai" byok) "" in
      if is_empty openai_key
      then provider claude (key_of "anthropic" byok settings.anthropic_api_key) (some sonnet)
      else provider open_ai openai_key (some openai_model)

  unfoldable pub create_secondary : String → Dict String String → String → Provider
  create_secondary quality_profile byok openai_model =
      let openai_key = get_or (lookup "openai" byok) "" in
      if is_empty openai_key
      then provider claude (key_of "anthropic" byok settings.anthropic_api_key) (some haiku)
      else provider open_ai openai_key
          (some (if quality_profile == "quality" then openai_model else gpt4o_mini))

  unfoldable pub create_elevenlabs : Option String → Dict String String → Provider
  create_elevenlabs voice_id byok =
      provider elevenlabs (key_of "elevenlabs" byok settings.elevenlabs_api_key)
        (non_empty voice_id)

  unfoldable pub create_deepgram_tts : Option String → Dict String String → Provider
  create_deepgram_tts voice_id byok =
      provider deepgram_tts (key_of "deepgram" byok settings.deepgram_api_key)
        (elim (non_empty voice_id) [
          | none ↦ none
          | some v ↦ if starts_with v "aura-" then some v else none
        ])

  unfoldable pub create : String → Option String → Dict String String → String → ProviderSet
  create quality_profile voice_id byok openai_model =
      let primary = create_primary byok openai_model in
      let secondary = create_secondary quality_profile byok openai_model in
      let spoken = create_elevenlabs voice_id byok in
      let backup = create_deepgram_tts voice_id byok in
      let stt = provider deepgram_stt (key_of "deepgram" byok settings.deepgram_api_key) none in
      if quality_profile == "quality"
      then record {
        stt = stt;
        voice_llm = primary;
        scoring_llm = primary;
        diff_llm = primary;
        memory_llm = primary;
        tts = spoken;
        quality_profile = quality_profile;
        fallback_tts = some backup;
      }
      else if quality_profile == "balanced"
      then record {
        stt = stt;
        voice_llm = primary;
        scoring_llm = secondary;
        diff_llm = secondary;
        memory_llm = secondary;
        tts = spoken;
        quality_profile = quality_profile;
        fallback_tts = some backup;
      }
      else record {
        stt = stt;
        voice_llm = secondary;
        scoring_llm = secondary;
        diff_llm = secondary;
        memory_llm = secondary;
        tts = backup;
        quality_profile = quality_profile;
        fallback_tts = none;
      }
