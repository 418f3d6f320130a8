-- ===== src/Scoring/Retry.antt =====
-- `_call_anthropic` and `_call_with_retry` of backend/app/services/scoring/scorer.py. Anthropic's SDK
-- is a parameter: what each attempt's prompt is answered by.
pub mod Outcome
use interviewcraft.Prelude.{
  ℕ, zero, suc, ◌+◌, String, Bool, true, false, not, ◌&&◌, Option, none, some, get_or, List, [],
  ◌∷◌, if◌then◌else◌, find?, ◌==◌, nat_eq, string_eq, concat,
}
use interviewcraft.Scoring.Json.{
  Json, null, object, Members, no_members, Error, value_error, key_error, json_decode_error,
  attribute_error, runtime_error, api_error, Result, returned, failed, get, put, truthy,
}

-- A block of the answer, with its `input`, and the answer's usage.
pub record Block : Type 0 where
  pub type : String
  pub name : String
  pub input : Members

pub record Metrics : Type 0 where
  pub input_tokens : ℕ
  pub output_tokens : ℕ
  pub cached_tokens : ℕ
  pub cache_creation_tokens : ℕ
  pub retries : ℕ

pub record Usage : Type 0 where
  pub input_tokens : ℕ
  pub output_tokens : ℕ
  pub cache_read_input_tokens : Option ℕ
  pub cache_creation_input_tokens : Option ℕ

pub record Response : Type 0 where
  pub content : List Block
  pub usage : Usage

abbrev pub max_retries : ℕ
max_retries = 2

abbrev pub is_output : Block → Bool
is_output b = b.type == "tool_use" && b.name == "structured_output"

-- `client.messages.create` at the number of the attempt and its prompt; `none` is an `APIError`.
abbrev pub Api : Type 0
Api = ℕ → String → Option Response

unfoldable pub call_anthropic : Api → ℕ → String → Result (Members × Metrics)
call_anthropic api attempt prompt = elim (api attempt prompt) [
  | none ↦ failed api_error
  | some response ↦ elim (find? is_output response.content) [
    | none ↦ failed value_error
    | some block ↦ returned (
      block.input,
      record {
        input_tokens = response.usage.input_tokens;
        output_tokens = response.usage.output_tokens;
        cached_tokens = get_or response.usage.cache_read_input_tokens 0;
        cache_creation_tokens = get_or response.usage.cache_creation_input_tokens 0;
        retries = 0;
      },
    )
  ]
]

-- A value of which `.get` is called.
unfoldable pub members_of : Json → Result Members
members_of (object d) = returned d
members_of _ = failed attribute_error

unfoldable pub and_then : {A B : Type 0} → Result A → (A → Result B) → Result B
and_then (returned a) f = f a
and_then (failed e) f = failed e

-- `bool(diff.get(version, {}).get("text"))`
unfoldable pub has_text : String → Members → Result Bool
has_text version diff =
    and_then (members_of (get_or (get version diff) (object no_members)))
      (λ d. returned (truthy (get_or (get "text" d) null)))

-- `result.get("diff_versions") or {}`, of which `.get` is called next.
unfoldable pub diff_of : Members → Result Members
diff_of result =
    let diff = get_or (get "diff_versions" result) null in
    members_of (if truthy diff then diff else object no_members)

-- The check on the rewrites; an ideal one that is missing is stood in for by the medium one.
unfoldable pub repaired : Members → Members → Bool → Bool → Bool → Result Members
repaired result diff has_minimal has_medium has_ideal =
    if not (has_minimal && has_medium)
    then failed value_error
    else if has_ideal
    then returned result
    else returned (
        put "diff_versions"
          (object (put "ideal" (get_or (get "medium" diff) (object no_members)) diff)) result)

unfoldable pub check_diff : Members → Result Members
check_diff result = and_then (diff_of result) (λ diff.
    and_then (has_text "minimal" diff) (λ has_minimal.
      and_then (has_text "medium" diff) (λ has_medium.
        and_then (has_text "ideal" diff)
          (λ has_ideal. repaired result diff has_minimal has_medium has_ideal))))

-- The body of the loop, with its `try`.
unfoldable pub attempt_once : Api → ℕ → String → Result (Members × Metrics)
attempt_once api attempt prompt = and_then (call_anthropic api attempt prompt) (λ (result, metrics).
    and_then (check_diff result)
      (λ checked. returned (checked, record metrics { retries = attempt })))

-- `except (ValueError, KeyError, json.JSONDecodeError)`
abbrev pub is_caught : Error → Bool
is_caught value_error = true
is_caught key_error = true
is_caught json_decode_error = true
is_caught _ = false

abbrev pub nudge : String
nudge =
    "\n\nPREVIOUS ATTEMPT FAILED TO PRODUCE VALID JSON. You MUST include diff_versions with ALL THREE keys: minimal, medium, and ideal. Each must have: text (string), changes (array), estimated_new_score (number). Please output ONLY the structured_output tool call with valid JSON. Do not include any other text."

-- The loop with this many attempts left.
unfoldable pub retry_loop : Api → ℕ → ℕ → String → Result (Members × Metrics)
retry_loop api zero attempt prompt = failed runtime_error
retry_loop api (suc left) attempt prompt =
    let rest = retry_loop api left (attempt + 1) (concat (prompt ∷ nudge ∷ [])) in
    elim (attempt_once api attempt prompt) [
      | returned r ↦ returned r
      | failed e ↦ if is_caught e then rest else failed e
    ]

unfoldable pub call_with_retry : Api → String → Result (Members × Metrics)
call_with_retry api prompt = retry_loop api (max_retries + 1) 0 prompt
