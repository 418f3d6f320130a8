-- ===== src/Voice/Fallback.antt =====
-- The fallback of speech synthesis: `_activate_tts_fallback` and `_synthesize_with_fallback` of
-- backend/app/services/voice/pipeline.py.
use interviewcraft.Prelude.{
  String, ◌≡◌, refl, ap, ◌∙◌, inl, inr, Bool, true, false, ◌&&◌, ◌||◌, Option, none, some, get_or,
  List, [], ◌∷◌, ◌++◌, arith, if◌then◌else◌, Option-cases, nat_eq, string_eq,
}
use interviewcraft.Voice.Providers.{Provider, ProviderSet}

-- What a synthesis streams: its chunks, and the message of the exception that ended it.
pub record Stream : Type 0 where
  pub chunks : List String
  pub error : Option String

-- One call of `synthesize_stream`.
abbrev pub Synthesis : Type 0
Synthesis = Provider → String → Stream

-- The pipeline's `_providers.tts`, `_providers.fallback_tts`, `_tts_fallback_active` and `..._reason`.
pub record Speaker : Type 0 where
  pub tts : Provider
  pub fallback_tts : Option Provider
  pub tts_fallback_active : Bool
  pub tts_fallback_reason : String

unfoldable pub speaker_of : ProviderSet → Speaker
speaker_of set = record {
  tts = set.tts;
  fallback_tts = set.fallback_tts;
  tts_fallback_active = false;
  tts_fallback_reason = "";
}

-- `none` is the `RuntimeError` of a session without a fallback.
unfoldable pub activate_tts_fallback : Speaker → Option Speaker
activate_tts_fallback s = if s.tts_fallback_active then some s else elim s.fallback_tts [
  | none ↦ none
  | some p ↦ some (record s { tts = p; tts_fallback_active = true })
]

-- Whether the first synthesis of one of the sentences ends in an error, with this voice.
abbrev pub is_failed : Option String → Bool
is_failed none = false
is_failed (some err) = true

unfoldable pub has_failed : Provider → List (Synthesis × Synthesis × String) → Bool
has_failed voice [] = false
has_failed voice ((first, second, text) ∷ rest) =
    is_failed (first voice text).error || has_failed voice rest

abbrev pub has_fallback : Option Provider → Bool
has_fallback none = false
has_fallback (some p) = true

-- `is_in` is Python's `in` on texts.
module _ (is_in : String → String → Bool) where
  unfoldable pub reason_of : String → String
  reason_of err = if is_in "401" err || is_in "Unauthorized" err then "auth" else "error"

  -- The second call, after the switch.
  unfoldable pub resume :
      Synthesis → String → List String → Speaker → Option Speaker → Stream × Speaker
  resume second text heard s none =
      (record { chunks = heard; error = some "No TTS fallback configured for this session" }, s)
  resume second text heard s (some switched) =
      let again = second switched.tts text in
      (record { chunks = heard ++ again.chunks; error = again.error }, switched)

  -- `first` and `second` are what the services do at the two calls.
  unfoldable pub synthesize_with_fallback :
      Synthesis → Synthesis → String → Speaker → Stream × Speaker
  synthesize_with_fallback first second text s =
      let stream = first s.tts text in
      elim stream.error [
        | none ↦ (stream, s)
        | some err ↦ elim s.fallback_tts [
          | none ↦ (stream, s)
          | some _ ↦
              if s.tts_fallback_active
              then (stream, s)
              else let failing = record s { tts_fallback_reason = reason_of err } in
                resume second text stream.chunks failing (activate_tts_fallback failing)
        ]
      ]

  -- A session's sentences, each with what the services do.
  pub say_all : List (Synthesis × Synthesis × String) → Speaker → Speaker
  say_all [] s = s
  say_all ((first, second, text) ∷ rest) s =
      say_all rest (synthesize_with_fallback first second text s).1

  synthesize-active :
      (next later : Synthesis) (words : String) (s : Speaker)
      → s.tts_fallback_active ≡ true
      → synthesize_with_fallback next later words s ≡ (next s.tts words, s)
  unfolding synthesize_with_fallback
  synthesize-active next later words s a = ground arith

  switched :
      (first second : Synthesis) (text err : String) (s : Speaker) (p : Provider)
      → (first s.tts text).error ≡ some err
      → s.fallback_tts ≡ some p
      → s.tts_fallback_active ≡ false
      → synthesize_with_fallback first second text s ≡ (
        record {
          chunks = (first s.tts text).chunks ++ (second p text).chunks;
          error = (second p text).error;
        },
        record s { tts = p; tts_fallback_active = true; tts_fallback_reason = reason_of err },
      )
  unfolding synthesize_with_fallback activate_tts_fallback resume
  switched first second text err s p e f a = ground arith

  say_all-active :
      (ws : List (Synthesis × Synthesis × String)) (s : Speaker)
      → s.tts_fallback_active ≡ true
      → say_all ws s ≡ s
  unfolding say_all
  say_all-active [] s a = refl
  say_all-active ((first, second, text) ∷ ws) s a =
      ap (λ r. say_all ws r.1) (synthesize-active first second text s a) ∙ say_all-active ws s a

  unable :
      (first second : Synthesis) (text : String) (s : Speaker)
      → s.fallback_tts ≡ none
      → (synthesize_with_fallback first second text s).1 ≡ s
  unfolding synthesize_with_fallback
  unable first second text s e = ground arith

  unspoken :
      (first second : Synthesis) (text : String) (s : Speaker)
      → (first s.tts text).error ≡ none
      → (synthesize_with_fallback first second text s).1 ≡ s
  unfolding synthesize_with_fallback
  unspoken first second text s e = ground arith

  -- The same from a speaker that has not switched.
  say_all-inactive :
      (ws : List (Synthesis × Synthesis × String)) (s : Speaker)
      → s.tts_fallback_active ≡ false
      → let after = say_all ws s in
        let on = has_fallback s.fallback_tts && has_failed s.tts ws in
        (after.tts ≡ (if on then get_or s.fallback_tts s.tts else s.tts))
        × (after.tts_fallback_active ≡ on)
  unfolding say_all has_failed
  say_all-inactive [] s a = ground arith
  say_all-inactive ((first, second, text) ∷ ws) s a = elim (Option-cases (first s.tts text).error) [
    | inl n ↦
        let same = unspoken first second text s n in
        rw (say_all, has_failed, same, n) (say_all-inactive ws s a)
    | inr (err, e) ↦ elim (Option-cases s.fallback_tts) [
      | inl n ↦
          let same = unable first second text s n in
          let rest = say_all-inactive ws s a in ground (arith, same, rest)
      | inr (p, f) ↦
          let on = switched first second text err s p e f a in
          let rest =
            say_all-active ws (synthesize_with_fallback first second text s).1 (rw on refl) in
          rw (say_all, has_failed, rest, on, e, f) (refl, refl)
    ]
  ]

  -- After any sentences, whatever the services do at each call: a session with a fallback speaks with the
  -- voice it was made with as long as no synthesis of that voice has failed, and with its fallback from
  -- the first failure on; a session without a fallback keeps its voice.
  pub say_all-has_failed :
      (set : ProviderSet) (ws : List (Synthesis × Synthesis × String))
      → let s = say_all ws (speaker_of set) in
        let switched = has_fallback set.fallback_tts && has_failed set.tts ws in
        (s.tts ≡ (if switched then get_or set.fallback_tts set.tts else set.tts))
        × (s.tts_fallback_active ≡ switched)
  unfolding speaker_of
  say_all-has_failed set ws = say_all-inactive ws (speaker_of set) refl

  -- A sentence whose first synthesis fails with a fallback at hand is spoken in full by the fallback,
  -- after the chunks already heard, and the answer has the error of the fallback only.
  pub synthesize_with_fallback_lem :
      (first second : Synthesis) (text err : String) (s : Speaker) (p : Provider)
      → (first s.tts text).error ≡ some err
      → s.fallback_tts ≡ some p
      → s.tts_fallback_active ≡ false
      → let (stream, after) = synthesize_with_fallback first second text s in
        (stream.chunks ≡ (first s.tts text).chunks ++ (second p text).chunks)
        × (stream.error ≡ (second p text).error)
        × (after.tts ≡ p)
        × ((next later : Synthesis) (words : String)
            → synthesize_with_fallback next later words after ≡ (next p words, after))
  synthesize_with_fallback_lem first second text err s p e f a =
      rw (switched first second text err s p e f a)
        (refl, refl, refl, λ next later words. synthesize-active next later words _ refl)
