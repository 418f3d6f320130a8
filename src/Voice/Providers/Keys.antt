-- ===== src/Voice/Providers/Keys.antt =====
-- Whose keys the providers of a session use.
use interviewcraft.Prelude.{
  String, ◌≡◌, refl, inl, inr, Bool, Option, none, some, [], ◌∷◌, arith, if◌then◌else◌, Bool-cases,
  Option-cases, All, ◌==◌, nat_eq, string_eq, Dict, lookup, is_empty,
}
use interviewcraft.Voice.Providers.{
  Vendor, claude, open_ai, deepgram_stt, deepgram_tts, elevenlabs, Provider, Settings, key_of,
  create_primary, create_secondary, create_elevenlabs, create_deepgram_tts, create,
}

-- The stored key, if it is not empty, and else the platform's.
unfoldable pub own_or : Option String → String → String
own_or none platform = platform
own_or (some own) platform = if is_empty own then platform else own

key_of-own_or :
    (provider : String) (byok : Dict String String) (platform : String)
    → key_of provider byok platform ≡ own_or (lookup provider byok) platform
unfolding key_of own_or
key_of-own_or provider byok platform = elim (Option-cases (lookup provider byok)) [
  | inl e ↦ rw e refl
  | inr (own, e) ↦ rw e refl
]

-- The key that a vendor's client should have: the one that the user has stored for the vendor, or else
-- the platform's; the platform has none for OpenAI.
unfoldable pub vendor_key : Settings → Dict String String → Vendor → String
unfolding own_or
vendor_key settings byok claude = own_or (lookup "anthropic" byok) settings.anthropic_api_key
vendor_key settings byok open_ai = own_or (lookup "openai" byok) ""
vendor_key settings byok deepgram_stt = own_or (lookup "deepgram" byok) settings.deepgram_api_key
vendor_key settings byok deepgram_tts = own_or (lookup "deepgram" byok) settings.deepgram_api_key
vendor_key settings byok elevenlabs = own_or (lookup "elevenlabs" byok) settings.elevenlabs_api_key

abbrev pub HasItsKey : Settings → Dict String String → Provider → Type 0
HasItsKey settings byok p = p.api_key ≡ vendor_key settings byok p.vendor

module _ (starts_with : String → String → Bool) (settings : Settings)
    (byok : Dict String String) where
  primary-HasItsKey :
      (model : String) → HasItsKey settings byok (create_primary starts_with settings byok model)
  unfolding create_primary vendor_key own_or
  primary-HasItsKey model = elim (Option-cases (lookup "openai" byok)) [
    | inl e ↦ rw e (key_of-own_or "anthropic" byok settings.anthropic_api_key)
    | inr (own, e) ↦
        rw e (ground (arith, e, key_of-own_or "anthropic" byok settings.anthropic_api_key))
  ]

  secondary-HasItsKey :
      (profile model : String)
      → HasItsKey settings byok (create_secondary starts_with settings profile byok model)
  unfolding create_secondary vendor_key own_or
  secondary-HasItsKey profile model = elim (Option-cases (lookup "openai" byok)) [
    | inl e ↦ rw e (key_of-own_or "anthropic" byok settings.anthropic_api_key)
    | inr (own, e) ↦
        rw e (ground (arith, e, key_of-own_or "anthropic" byok settings.anthropic_api_key))
  ]

  -- For every profile each provider of the set has its vendor's key: the user's own key wherever there
  -- is one that is not empty, and else the platform's.
  pub create-HasItsKey :
      (profile model : String) (voice : Option String)
      → let set = create starts_with settings profile voice byok model in
        All (HasItsKey settings byok) (
          set.stt
          ∷ set.voice_llm
          ∷ set.scoring_llm
          ∷ set.diff_llm
          ∷ set.memory_llm
          ∷ set.tts
          ∷ elim set.fallback_tts [ none ↦ [] | some p ↦ p ∷ [] ])
  unfolding create create_elevenlabs create_deepgram_tts vendor_key
  create-HasItsKey profile model voice =
      let p = primary-HasItsKey model in
      let s = secondary-HasItsKey profile model in
      let d = key_of-own_or "deepgram" byok settings.deepgram_api_key in
      let l = key_of-own_or "elevenlabs" byok settings.elevenlabs_api_key in
      elim (Bool-cases (profile == "quality")) [
        | inl q ↦ rw q (d, (p, (p, (p, (p, (l, (d, tt)))))))
        | inr n ↦ elim (Bool-cases (profile == "balanced")) [
          | inl b ↦ rw (n, b) (d, (p, (s, (s, (s, (l, (d, tt)))))))
          | inr m ↦ rw (n, m) (d, (s, (s, (s, (s, (d, tt))))))
        ]
      ]
