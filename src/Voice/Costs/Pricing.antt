-- ===== src/Voice/Costs/Pricing.antt =====
-- Whether the answers of a voice session have a price, for the language model that its keys choose.
use interviewcraft.Prelude.{
  String, ◌≡◌, refl, ap, ◌∙◌, inl, inr, Bool, true, false, Option, none, some, get_or, Bool-cases,
  ℤ, pos, ◌+ℤ◌, ◌==◌, nat_eq, string_eq, Dict, lookup, has_key, lookup-has_key, is_empty,
}
use interviewcraft.Memory.DrillPlanner.{Floats}
use interviewcraft.Voice.Providers.{
  Settings, create, create_primary, create_secondary, sonnet, haiku, gpt4o_mini,
}
use interviewcraft.Voice.Costs.{
  added, cost_at, Rates, Usage, anthropic_prices, is_counted, priced, calc_anthropic_cost,
  log_llm_cost,
}

module _ (fl : Floats) (micro : fl.Float → ℤ) (u : Usage) (total_cost : ℤ) where
  -- The price list has rates for the model, and the cost after a call of it is the cost before with the
  -- price of the call at these rates added.
  abbrev pub IsPriced : Option String → Type 0
  IsPriced none = ⊥
  IsPriced (some model) =
      (r : Rates) × (lookup model anthropic_prices ≡ some r)
      × (log_llm_cost fl micro model u total_cost
          ≡ some (total_cost +ℤ micro (priced fl micro r u)))

  abbrev pub IsUnpriced : Option String → Type 0
  IsUnpriced none = ⊥
  IsUnpriced (some model) = log_llm_cost fl micro model u total_cost ≡ none

  -- Without an OpenAI key, and with one.
  abbrev pub IsLogged : Bool → Option String → Type 0
  IsLogged true model = IsPriced model
  IsLogged false model = IsUnpriced model

  known-IsPriced :
      (model : String) (r : Rates)
      → lookup model anthropic_prices ≡ some r
      → is_counted u ≡ true
      → IsPriced (some model)
  unfolding log_llm_cost calc_anthropic_cost cost_at added
  known-IsPriced model r e c =
      (r, e, ap (λ o. added fl micro total_cost (cost_at fl micro o u)) e ∙ rw c refl)

  unknown-IsUnpriced :
      (model : String) → lookup model anthropic_prices ≡ none → IsUnpriced (some model)
  unfolding log_llm_cost calc_anthropic_cost cost_at added
  unknown-IsUnpriced model e = ap (λ o. added fl micro total_cost (cost_at fl micro o u)) e

  module _ (starts_with : String → String → Bool) (settings : Settings) (byok : Dict String String)
      (openai_model : String) where
    abbrev own_key : String
    own_key = get_or (lookup "openai" byok) ""

    primary-IsPriced :
        is_empty own_key ≡ true
        → is_counted u ≡ true
        → IsPriced (create_primary starts_with settings byok openai_model).model
    unfolding create_primary
    primary-IsPriced e c = rw e (
        known-IsPriced sonnet (record { input = pos 3; output = pos 15 })
          (unfold anthropic_prices in refl) c)

    secondary-IsPriced :
        (profile : String)
        → is_empty own_key ≡ true
        → is_counted u ≡ true
        → IsPriced (create_secondary starts_with settings profile byok openai_model).model
    unfolding create_secondary
    secondary-IsPriced profile e c = rw e (
        known-IsPriced haiku (record { input = pos 1; output = pos 5 })
          (unfold anthropic_prices in refl) c)

    primary-IsUnpriced :
        is_empty own_key ≡ false
        → has_key openai_model anthropic_prices ≡ false
        → IsUnpriced (create_primary starts_with settings byok openai_model).model
    unfolding create_primary
    primary-IsUnpriced e k =
        rw e (unknown-IsUnpriced openai_model (lookup-has_key openai_model anthropic_prices k))

    secondary-IsUnpriced :
        (profile : String)
        → is_empty own_key ≡ false
        → has_key openai_model anthropic_prices ≡ false
        → IsUnpriced (create_secondary starts_with settings profile byok openai_model).model
    unfolding create_secondary
    secondary-IsUnpriced profile e k = elim (Bool-cases (profile == "quality")) [
      | inl y ↦
          rw (e, y)
            (unknown-IsUnpriced openai_model (lookup-has_key openai_model anthropic_prices k))
      | inr n ↦ rw (e, n) (unknown-IsUnpriced gpt4o_mini (unfold anthropic_prices in refl))
    ]

    voice_model :
        (P : Option String → Type 0) (profile : String) (voice : Option String)
        → P (create_primary starts_with settings byok openai_model).model
        → P (create_secondary starts_with settings profile byok openai_model).model
        → P (create starts_with settings profile voice byok openai_model).voice_llm.model
    unfolding create
    voice_model P profile voice p s = elim (Bool-cases (profile == "quality")) [
      | inl q ↦ rw q p
      | inr n ↦ elim (Bool-cases (profile == "balanced")) [
        | inl b ↦ rw (n, b) p
        | inr m ↦ rw (n, m) s
      ]
    ]

    -- For an answer whose token counts the cost function accepts, whatever the profile: if the user has no
    -- OpenAI key, the answer's price, at the rates that the price list has for the model, is added to the
    -- session's cost; if they have one, and their OpenAI model is none of Anthropic's, logging the answer's
    -- cost raises.
    pub log_llm_cost-create :
        (profile : String) (voice : Option String)
        → is_counted u ≡ true
        → has_key openai_model anthropic_prices ≡ false
        → IsLogged
            (is_empty (get_or (lookup "openai" byok) ""))
            (create starts_with settings profile voice byok openai_model).voice_llm.model
    log_llm_cost-create profile voice c k = elim (Bool-cases (is_empty own_key)) [
      | inl e ↦ rw e (
          voice_model IsPriced profile voice (primary-IsPriced e c)
            (secondary-IsPriced profile e c))
      | inr e ↦ rw e (
          voice_model IsUnpriced profile voice (primary-IsUnpriced e k)
            (secondary-IsUnpriced profile e k))
    ]
