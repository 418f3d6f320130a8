-- ===== src/Voice/Costs.antt =====
-- backend/app/services/voice/costs.py: what a call of a service costs, in millionths of a dollar, and how
-- backend/app/services/voice/pipeline.py adds it to the cost of a session.
-- Python's floats are the parameter that the drill planner uses, with `micro` for the conversion
-- `Decimal(str(round(cost, 6)))`.
pub mod Pricing
mod Tests
use interviewcraft.Prelude.{
  ℕ, ◌+◌, ◌-◌, String, Bool, true, false, ◌&&◌, Option, none, some, [], ◌∷◌, ◌==ℕ◌, if◌then◌else◌,
  ℤ, pos, leb_ℤ, ◌+ℤ◌, ◌-ℤ◌, ◌==◌, nat_eq, string_eq, Dict, lookup,
}
use interviewcraft.Memory.DrillPlanner.{Floats}

-- Dollars per million tokens.
pub record Rates : Type 0 where
  pub input : ℤ
  pub output : ℤ

abbrev rates : ℤ → ℤ → Rates
rates i o = record { input = i; output = o }

unfoldable pub anthropic_prices : Dict String Rates
anthropic_prices =
    ("claude-sonnet-4-6", rates (pos 3) (pos 15))
    ∷ ("claude-haiku-4-5", rates (pos 1) (pos 5))
    ∷ ("claude-haiku-4-5-20251001", rates (pos 1) (pos 5))
    ∷ []

-- The tokens of a call: ordinary input, output, and the reads and writes of the cache.
pub record Usage : Type 0 where
  pub input_tokens : ℤ
  pub output_tokens : ℤ
  pub cached_tokens : ℤ
  pub cache_creation_tokens : ℤ

unfoldable pub is_counted : Usage → Bool
is_counted u =
    leb_ℤ (pos 0) u.input_tokens
    && leb_ℤ (pos 0) u.output_tokens
    && leb_ℤ (pos 0) u.cached_tokens
    && leb_ℤ (pos 0) u.cache_creation_tokens

module _ (fl : Floats) (micro : fl.Float → ℤ) where
  -- `count / 1_000_000 * rate`
  abbrev per_million : ℤ → ℤ → fl.Float
  per_million count rate =
      fl.mul (fl.div (fl.of_int count) (fl.of_int (pos 1_000_000))) (fl.of_int rate)

  unfoldable pub priced : Rates → Usage → fl.Float
  priced r u =
      fl.add
        (fl.add
          (fl.add (per_million u.input_tokens r.input)
            (fl.mul (per_million u.cached_tokens r.input) (fl.decimal (pos 10) 2)))
          (fl.mul (per_million u.cache_creation_tokens r.input) (fl.decimal (pos 125) 2)))
        (per_million u.output_tokens r.output)

  -- `none` is a `ValueError`.
  unfoldable pub cost_at : Option Rates → Usage → Option ℤ
  unfolding is_counted
  cost_at none u = none
  cost_at (some r) u = if is_counted u then some (micro (priced r u)) else none

  unfoldable pub calc_anthropic_cost : String → Usage → Option ℤ
  unfolding anthropic_prices cost_at
  calc_anthropic_cost model u = cost_at (lookup model anthropic_prices) u

  unfoldable pub calc_deepgram_stt_cost : fl.Float → ℤ
  calc_deepgram_stt_cost audio_seconds =
      micro (fl.mul (fl.div audio_seconds (fl.of_int (pos 60))) (fl.decimal (pos 58) 4))

  abbrev per_thousand : ℕ → fl.Float → fl.Float
  per_thousand characters rate =
      fl.mul (fl.div (fl.of_int (pos characters)) (fl.of_int (pos 1000))) rate

  unfoldable pub calc_deepgram_tts_cost : ℕ → ℤ
  calc_deepgram_tts_cost characters = micro (per_thousand characters (fl.decimal (pos 15) 3))

  unfoldable pub calc_elevenlabs_cost : ℕ → ℤ
  calc_elevenlabs_cost characters = micro (per_thousand characters (fl.decimal (pos 6) 2))

  -- `_log_stt_cost`, on the times of a chunk: one without an end costs nothing.
  unfoldable pub log_stt_cost : ℕ → ℕ → ℤ → ℤ
  unfolding calc_deepgram_stt_cost
  log_stt_cost start_ms end_ms total_cost =
      if end_ms ==ℕ 0
      then total_cost
      else total_cost
        +ℤ calc_deepgram_stt_cost
            (fl.div (fl.of_int (pos end_ms -ℤ pos start_ms)) (fl.of_int (pos 1000)))

  -- `_log_tts_cost`, on the number of characters and whether ElevenLabs speaks.
  unfoldable pub log_tts_cost : Bool → ℕ → ℤ → ℤ
  unfolding calc_elevenlabs_cost calc_deepgram_tts_cost
  log_tts_cost true characters total_cost = total_cost +ℤ calc_elevenlabs_cost characters
  log_tts_cost false characters total_cost = total_cost +ℤ calc_deepgram_tts_cost characters

  unfoldable pub added : ℤ → Option ℤ → Option ℤ
  added total_cost none = none
  added total_cost (some cost) = some (total_cost +ℤ cost)

  -- `_log_llm_cost`; `none` is the `ValueError` of a model without a price.
  unfoldable pub log_llm_cost : String → Usage → ℤ → Option ℤ
  unfolding calc_anthropic_cost added
  log_llm_cost model u total_cost = added total_cost (calc_anthropic_cost model u)
