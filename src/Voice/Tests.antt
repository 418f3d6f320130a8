-- ===== src/Voice/Tests.antt =====
-- The theorems on providers and their fallback at a concrete session.
use interviewcraft.Prelude.{
  String, ◌≡◌, Bool, false, ◌&&◌, none, some, get_or, List, [], ◌∷◌, if◌then◌else◌, All, ◌==◌,
  nat_eq, string_eq, Dict,
}
use interviewcraft.Voice.Providers.{Provider, ProviderSet, Settings, create, create_deepgram_tts}
use interviewcraft.Voice.Providers.Keys.{HasItsKey, create-HasItsKey}
use interviewcraft.Voice.Fallback.{
  Synthesis, speaker_of, say_all, has_fallback, has_failed, say_all-has_failed,
}

abbrev settings : Settings
settings = record {
  deepgram_api_key = "dg-platform";
  anthropic_api_key = "an-platform";
  elevenlabs_api_key = "el-platform";
}

abbrev byok : Dict String String
byok = ("elevenlabs", "el-own") ∷ ("openai", "oa-own") ∷ []

abbrev starts_with : String → String → Bool
starts_with s prefix = false

abbrev set : ProviderSet
set = create starts_with settings "balanced" none byok "gpt-4o"

create-HasItsKey_example : All (HasItsKey settings byok) (
    set.stt
    ∷ set.voice_llm
    ∷ set.scoring_llm
    ∷ set.diff_llm
    ∷ set.memory_llm
    ∷ set.tts
    ∷ elim set.fallback_tts [ none ↦ [] | some p ↦ p ∷ [] ])
create-HasItsKey_example = create-HasItsKey starts_with settings byok "balanced" "gpt-4o" none

-- ElevenLabs is refused after one chunk; Deepgram speaks.
abbrev refused : Synthesis
refused p text = record { chunks = "he" ∷ []; error = some "401" }

abbrev spoken : Synthesis
spoken p text = record { chunks = text ∷ []; error = none }

abbrev is_in : String → String → Bool
is_in a b = a == b

abbrev backup : Provider
backup = create_deepgram_tts starts_with settings none byok

abbrev one_refused : List (Synthesis × Synthesis × String)
one_refused = (refused, spoken, "hello") ∷ []

say_all-has_failed_example :
    let s = say_all is_in one_refused (speaker_of set) in
    let switched = has_fallback set.fallback_tts && has_failed set.tts one_refused in
    (s.tts ≡ (if switched then get_or set.fallback_tts set.tts else set.tts))
    × (s.tts_fallback_active ≡ switched)
say_all-has_failed_example = say_all-has_failed is_in set one_refused
