-- ===== src/Scoring/Tests.antt =====
-- Scoring's theorems at concrete answers.
use interviewcraft.Prelude.{
  ℕ, zero, suc, ◌≤◌, String, ◌≡◌, refl, true, false, Option, none, some, List, [], ◌∷◌, map, arith,
  pos, nat_eq, string_eq, Runtime,
}
use interviewcraft.Scoring.Json.{
  truthy, Json, number, text, object, no_items, item, Members, no_members, member, returned, get,
  put,
}
use interviewcraft.Scoring.Retry.{
  Api, Response, Metrics, call_anthropic, check_diff, diff_of, has_text, members_of, and_then,
  repaired, retry_loop, attempt_once, call_with_retry,
}
use interviewcraft.Scoring.Retry.Outcome.{
  is_retried, nudged, has_rewrite, call_with_retry_settles, call_with_retry_complete,
}
use interviewcraft.Scoring.Quotes.{Turn, Word, segment_prompt, ts_offset, fill_evidence_quotes}
use interviewcraft.Scoring.Quotes.Shift.{later_turn, later_word, segment-later}

abbrev rewrite : String → Json
rewrite s = object (member "text" (text s) no_members)

abbrev diff_input : Json → Members
diff_input diff = member "overall_score" (number (pos 70)) (member "diff_versions" diff no_members)

-- The second attempt has a minimal and a medium rewrite, the first one none.
abbrev two_rewrites : Json
two_rewrites = object (member "minimal" (rewrite "a") (member "medium" (rewrite "b") no_members))

abbrev response : Json → Response
response diff = record {
  content = record { type = "tool_use"; name = "structured_output"; input = diff_input diff } ∷ [];
  usage = record {
    input_tokens = 1300;
    output_tokens = 900;
    cache_read_input_tokens = some 1200;
    cache_creation_input_tokens = none;
  };
}

unfoldable api : Api
api zero prompt = some (response (object no_members))
api (suc _) prompt = some (response two_rewrites)

abbrev result : Members
result = diff_input (
    object (
      member "minimal" (rewrite "a")
        (member "medium" (rewrite "b") (member "ideal" (rewrite "b") no_members))))

abbrev metrics : Metrics
metrics = record {
  input_tokens = 1300;
  output_tokens = 900;
  cached_tokens = 1200;
  cache_creation_tokens = 0;
  retries = 1;
}

second_attempt : call_with_retry api "Score." ≡ returned (result, metrics)
unfolding api call_with_retry retry_loop attempt_once call_anthropic check_diff diff_of has_text
    members_of and_then repaired get put truthy
second_attempt = refl

first_failed : (k : ℕ) → suc k ≤ 1 → is_retried (attempt_once api k (nudged "Score." k)) ≡ true
unfolding api attempt_once call_anthropic check_diff diff_of has_text members_of and_then repaired
    get put truthy
first_failed zero le = refl
first_failed (suc k) le = absurd (omega arith)

second_settled : is_retried (attempt_once api 1 (nudged "Score." 1)) ≡ false
unfolding api attempt_once call_anthropic check_diff diff_of has_text members_of and_then repaired
    get put truthy
second_settled = refl

call_with_retry_settles_example :
    call_with_retry api "Score." ≡ attempt_once api 1 (nudged "Score." 1)
call_with_retry_settles_example =
    call_with_retry_settles api "Score." 1 (omega arith) first_failed (λ le. second_settled)

call_with_retry_complete_example :
    (has_rewrite "minimal" result ≡ returned true)
    × (has_rewrite "medium" result ≡ returned true)
    × (has_rewrite "ideal" result ≡ returned true)
    × (metrics.retries ≤ 2)
call_with_retry_complete_example =
    call_with_retry_complete api "Score." result metrics second_attempt

-- Every text parses to an empty dict.
unfoldable loads : String → Option Json
loads s = some (object no_members)

abbrev key : String
key = "categories"

abbrev as_texts : Members
as_texts = member "categories" (text "{}") no_members

abbrev rt : Runtime
rt = record { str_int = λ n. "0"; isoformat_date = λ d. "2026-01-01"; set_order = λ xs. xs }

abbrev turn : Turn
turn = record { role = some "user"; content = some "We cut it"; ts_ms = some (pos 4000) }

abbrev words : List Word
words =
    record { word = "We"; start_ms = pos 4000 } ∷ record { word = "cut"; start_ms = pos 4300 } ∷ []

abbrev evidence : Members
evidence = member "start_ms" (number (pos 0)) (member "end_ms" (number (pos 500)) no_members)

abbrev hit : Members
hit = member "rule" (text "rambling") (member "evidence" (object evidence) no_members)

segment-later_example :
    (segment_prompt rt "Why?" (map (later_turn (pos 60_000)) (turn ∷ [])) "L5" "note"
      ≡ segment_prompt rt "Why?" (turn ∷ []) "L5" "note")
    × (fill_evidence_quotes
          (map (later_word (pos 60_000)) words)
          (ts_offset (map (later_turn (pos 60_000)) (turn ∷ [])))
          (item (object hit) no_items)
        ≡ fill_evidence_quotes words (ts_offset (turn ∷ [])) (item (object hit) no_items))
segment-later_example =
    segment-later rt "Why?" "L5" "note" (pos 60_000) turn [] words (item (object hit) no_items)
      ((pos 4000, refl), tt)
