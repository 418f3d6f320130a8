-- ===== src/Voice/Costs/Tests.antt =====
-- The price of an answer of a user with an OpenAI key, with integers for floats.
use interviewcraft.Prelude.{
  String, ◌≡◌, refl, true, false, none, get_or, [], ◌∷◌, ℤ, pos, ltb_ℤ, nat_eq, string_eq, Dict,
  lookup, has_key, is_empty,
}
use interviewcraft.Memory.DrillPlanner.{Floats}
use interviewcraft.Voice.Providers.{Settings, create}
use interviewcraft.Voice.Costs.{Usage, is_counted, anthropic_prices}
use interviewcraft.Voice.Costs.Pricing.{IsLogged, log_llm_cost-create}

abbrev floats : Floats
floats = record {
  Float = ℤ;
  of_int = λ n. n;
  decimal = λ n d. n;
  add = λ a b. a;
  mul = λ a b. a;
  div = λ a b. a;
  lt = ltb_ℤ;
}

abbrev settings : Settings
settings = record { deepgram_api_key = "dg"; anthropic_api_key = "ant"; elevenlabs_api_key = "el" }

abbrev usage : Usage
usage = record {
  input_tokens = pos 900;
  output_tokens = pos 120;
  cached_tokens = pos 0;
  cache_creation_tokens = pos 0;
}

abbrev byok : Dict String String
byok = ("openai", "sk-2") ∷ []

is_other : has_key "gpt-4o" anthropic_prices ≡ false
unfolding anthropic_prices
is_other = refl

usage_counted : is_counted usage ≡ true
unfolding is_counted
usage_counted = refl

log_llm_cost-create_example :
    IsLogged floats
      (λ x. x)
      usage
      (pos 0)
      (is_empty (get_or (lookup "openai" byok) ""))
      (create (λ s p. false) settings "balanced" none byok "gpt-4o").voice_llm.model
log_llm_cost-create_example =
    log_llm_cost-create floats (λ x. x) usage (pos 0) (λ s p. false) settings byok "gpt-4o"
      "balanced" none usage_counted is_other
