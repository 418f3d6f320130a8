-- ===== src/Accounts.antt =====
-- backend/app/api/v1/settings.py and backend/app/services/byok.py: a user's preferences and keys. Fernet,
-- under the application's secret, the parts of a text and the order of texts are parameters.

pub mod Keys
pub mod Gate
pub mod Deletion
mod Tests
use interviewcraft.Prelude.{
  ℕ, ◌-◌, ◌*◌, String, Bool, false, not, Option, none, some, get_or, List, [], ◌∷◌, map, leb,
  if◌then◌else◌, ◌==◌, nat_eq, string_eq, contains, Dict, insert, concat, is_empty,
}
use interviewcraft.Voice.Providers.{supported_providers}

-- `profile["app_settings"]`, and the rest of the profile.
pub record AppSettings : Type 0 where
  pub default_quality_profile : Option String
  pub email_digest : Option Bool
  pub openai_model : Option String

pub record Profile : Type 0 where
  pub app_settings : Option AppSettings
  pub others : List String

-- The columns of a user that the settings write.
pub record Account : Type 0 where
  pub profile : Option Profile
  pub byok_keys : Option (Dict String String)

abbrev pub no_settings : AppSettings
no_settings = record { default_quality_profile = none; email_digest = none; openai_model = none }

abbrev pub no_profile : Profile
no_profile = record { app_settings = none; others = [] }

unfoldable pub get_profile_settings : Option Profile → AppSettings
get_profile_settings profile = get_or ((get_or profile no_profile).app_settings) no_settings

-- `encrypt_api_key` and `decrypt_api_key`, `len(key)`, `key[:7]` and `key[-4:]`, and `sorted`.
pub record Keyring : Type 0 where
  pub encrypt : String → String
  pub decrypt : String → Option String
  pub len : String → ℕ
  pub prefix : String → String
  pub suffix : String → String
  pub sorted : List String → List String

unfoldable pub mask_key : Keyring → String → String
mask_key kr raw_key =
    if leb (kr.len raw_key) 8
    then "****"
    else concat (kr.prefix raw_key ∷ "..." ∷ kr.suffix raw_key ∷ [])

-- The keys that can be read, as previews.
unfoldable pub previews : Keyring → Dict String String → Dict String String
unfolding mask_key
previews kr [] = []
previews kr ((provider, encrypted) ∷ keys) =
    let rest = previews kr keys in
    if not (contains provider supported_providers) then rest else elim (kr.decrypt encrypted) [
      | none ↦ rest
      | some plaintext ↦
          if is_empty plaintext then rest else (provider, mask_key kr plaintext) ∷ rest
    ]

pub record SettingsResponse : Type 0 where
  pub default_quality_profile : String
  pub email_digest : Bool
  pub openai_model : String
  pub byok_providers : List String
  pub byok_key_previews : Dict String String

unfoldable pub get_settings : Keyring → Account → SettingsResponse
unfolding get_profile_settings previews
get_settings kr a =
    let profile_settings = get_profile_settings a.profile in
    let byok_key_previews = previews kr (get_or a.byok_keys []) in
    record {
      default_quality_profile = get_or profile_settings.default_quality_profile "balanced";
      email_digest = get_or profile_settings.email_digest false;
      openai_model = get_or profile_settings.openai_model "gpt-4o";
      byok_providers = kr.sorted (map (λ e. e.0) byok_key_previews);
      byok_key_previews = byok_key_previews;
    }

-- `SettingsPatch`
pub record SettingsPatch : Type 0 where
  pub default_quality_profile : Option String
  pub email_digest : Option Bool
  pub openai_model : Option String

-- The new value, if one is given.
unfoldable pub patched {ℓ} : {A : Type ℓ} → Option A → Option A → Option A
patched none old = old
patched (some value) old = some value

unfoldable pub update_settings : Keyring → SettingsPatch → Account → SettingsResponse × Account
unfolding patched get_settings
update_settings kr body a =
    let profile = get_or a.profile no_profile in
    let profile_settings = get_or profile.app_settings no_settings in
    let after : Account = record a {
      profile = some (record profile {
        app_settings = some (record {
          default_quality_profile =
              patched body.default_quality_profile profile_settings.default_quality_profile;
          email_digest = patched body.email_digest profile_settings.email_digest;
          openai_model = patched body.openai_model profile_settings.openai_model;
        });
      });
    } in
    (get_settings kr after, after)

-- `ByokUpdate`
pub record ByokUpdate : Type 0 where
  pub anthropic : Option String
  pub openai : Option String
  pub deepgram : Option String
  pub elevenlabs : Option String

abbrev pub updates_of : ByokUpdate → Dict String (Option String)
updates_of body =
    ("anthropic", body.anthropic)
    ∷ ("openai", body.openai)
    ∷ ("deepgram", body.deepgram)
    ∷ ("elevenlabs", body.elevenlabs)
    ∷ []

-- `byok.pop(provider, None)`
unfoldable pub pop : String → Dict String String → Dict String String
pop provider [] = []
pop provider ((p, key) ∷ byok) =
    let rest = pop provider byok in if p == provider then rest else (p, key) ∷ rest

unfoldable pub update_key :
    Keyring → String → Option String → Dict String String → Dict String String
unfolding pop
update_key kr provider none byok = byok
update_key kr provider (some raw_key) byok =
    if is_empty raw_key then pop provider byok else insert provider (kr.encrypt raw_key) byok

unfoldable pub update_keys :
    Keyring → Dict String (Option String) → Dict String String → Dict String String
unfolding update_key
update_keys kr [] byok = byok
update_keys kr ((provider, raw_key) ∷ updates) byok =
    update_keys kr updates (update_key kr provider raw_key byok)

-- `byok or None`
unfoldable pub stored_keys : Dict String String → Option (Dict String String)
stored_keys [] = none
stored_keys (e ∷ byok) = some (e ∷ byok)

unfoldable pub upsert_byok_keys : Keyring → ByokUpdate → Account → SettingsResponse × Account
unfolding update_keys stored_keys get_settings
upsert_byok_keys kr body a =
    let byok = update_keys kr (updates_of body) (get_or a.byok_keys []) in
    let after : Account = record a { byok_keys = stored_keys byok } in
    (get_settings kr after, after)

unfoldable pub delete_byok_keys : Keyring → Account → SettingsResponse × Account
unfolding get_settings
delete_byok_keys kr a =
    let after : Account = record a { byok_keys = none } in (get_settings kr after, after)
