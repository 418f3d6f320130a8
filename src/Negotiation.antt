-- ===== src/Negotiation.antt =====
-- backend/app/api/v1/negotiation.py: the sessions of the salary negotiation, their analysis, and the pattern
-- across the last three. The language model's analysis of a transcript, and floats, are parameters.
pub mod Analyses
mod Tests
use interviewcraft.Prelude.{
  ℕ, ◌+◌, String, Bool, true, false, not, ◌&&◌, ◌||◌, Option, none, some, get_or, List, [], ◌∷◌,
  ◌++◌, map, ltb, ◌==ℕ◌, if◌then◌else◌, length, take, filter, find?, ℤ, pos, ltb_ℤ, max_ℤ, min_ℤ,
  ◌==◌, nat_eq, string_eq, sorted_reverse,
}
use interviewcraft.Auth.Users.{Http, ok, raised}
use interviewcraft.Memory.DrillPlanner.{Floats}
use interviewcraft.Progress.{Forms, is_completed}
use interviewcraft.Interviews.{
  InterviewSession, NegotiationContext, NegotiationAnalysis, active, of_user, save,
}
use interviewcraft.Interviews.Scores.{no_lint}

-- `NegotiationStartRequest`
pub record NegotiationStart : Type 0 where
  pub company : String
  pub role : String
  pub level : String
  pub offer_amount : ℕ
  pub market_rate : ℕ
  pub quality_profile : String

module _ (fl : Floats) (fm : Forms fl) where
  -- `int(offer * 1.15)` and `int(offer * 0.9)`
  unfoldable pub context_of : NegotiationStart → NegotiationContext
  context_of body = record {
    company = body.company;
    role = body.role;
    level = body.level;
    offer_amount = body.offer_amount;
    market_rate = body.market_rate;
    hidden_max = fm.trunc (fl.mul (fl.of_int (pos body.offer_amount)) (fl.decimal (pos 115) 2));
    lowball = fm.trunc (fl.mul (fl.of_int (pos body.offer_amount)) (fl.decimal (pos 9) 1));
  }

  -- The row that is inserted, with the columns' defaults; `id` and `now` are drawn as for every session.
  unfoldable pub start_negotiation :
      ℕ
      → ℕ
      → NegotiationStart
      → ℕ
      → List InterviewSession
      → InterviewSession × List InterviewSession
  unfolding context_of
  start_negotiation id now body user_id table =
      let s : InterviewSession = record {
        id = id;
        user_id = user_id;
        type = "negotiation";
        interview_type = none;
        status = active;
        quality_profile = body.quality_profile;
        voice_id = none;
        persona = "neutral";
        company = none;
        focus_skill = none;
        duration_limit_minutes = none;
        transcript = [];
        lint_results = some (record no_lint { negotiation_context = some (context_of body) });
        total_cost_usd = pos 0;
        created_at = now;
        ended_at = none;
      } in
      (s, table ++ (s ∷ []))

abbrev pub is_negotiation : InterviewSession → Bool
is_negotiation s = InterviewSession.type s == "negotiation"

abbrev pub analysis_of : InterviewSession → Option NegotiationAnalysis
analysis_of s = (get_or (InterviewSession.lint_results s) no_lint).negotiation_analysis

-- The texts of `_detect_pattern`; the last one names the least and the most money and the number of rounds.
pub data Pattern : Type 0 where
  emotional counter : Pattern
  money_left : ℤ → ℤ → ℕ → Pattern

-- `a.get(key, 0)` on the analysis of a round, `{}` if it has none.
abbrev pub measure : (NegotiationAnalysis → ℤ) → InterviewSession → ℤ
measure f s = elim (analysis_of s) [ none ↦ pos 0 | some a ↦ f a ]

-- `all(test(x) for x in xs if x > 0)`
unfoldable pub all_positive : (ℤ → Bool) → List ℤ → Bool
all_positive test [] = true
all_positive test (x ∷ xs) = (not (ltb_ℤ (pos 0) x) || test x) && all_positive test xs

unfoldable pub least : ℤ → List ℤ → ℤ
least m [] = m
least m (x ∷ xs) = least (min_ℤ m x) xs

unfoldable pub most : ℤ → List ℤ → ℤ
most m [] = m
most m (x ∷ xs) = most (max_ℤ m x) xs

unfoldable pub last_of : InterviewSession → List InterviewSession → InterviewSession
last_of s [] = s
last_of s (x ∷ rounds) = last_of x rounds

-- The heuristics, on at least two rounds, the latest first.
unfoldable pub pattern_of : InterviewSession → List InterviewSession → Option Pattern
unfolding all_positive least most last_of
pattern_of s rounds =
    let emotional_control = λ (a : NegotiationAnalysis). a.emotional_control in
    let anchoring = λ (a : NegotiationAnalysis). a.anchoring in
    let counter_strategy = λ (a : NegotiationAnalysis). a.counter_strategy in
    let left = map (measure (λ a. a.money_left_on_table)) rounds in
    let first_left = measure (λ a. a.money_left_on_table) s in
    if all_positive (λ c. ltb_ℤ c (pos 60)) (map (measure emotional_control) (s ∷ rounds))
    then some emotional
    else if ltb_ℤ (measure anchoring (last_of s rounds)) (measure anchoring s)
        && ltb_ℤ (measure counter_strategy s) (pos 55)
    then some counter
    else if all_positive (λ m. ltb_ℤ (pos 10_000) m) (first_left ∷ left)
    then some (money_left (least first_left left) (most first_left left) (length (s ∷ rounds)))
    else none

-- The latest three completed rounds of a user.
unfoldable pub last_rounds : ℕ → List InterviewSession → List InterviewSession
last_rounds user_id table = take 3 (
    sorted_reverse ltb (λ s. InterviewSession.created_at s)
      (filter (λ s. is_negotiation s && is_completed s) (of_user user_id table)))

abbrev pub pattern_in : List InterviewSession → Option Pattern
pattern_in [] = none
pattern_in (s ∷ []) = none
pattern_in (s ∷ r ∷ rounds) = pattern_of s (r ∷ rounds)

unfoldable pub detect_pattern : ℕ → List InterviewSession → Option Pattern
unfolding pattern_of last_rounds
detect_pattern user_id table = pattern_in (last_rounds user_id table)

-- The answer: the context if there is one, the scores, and the pattern.
pub record AnalysisResponse : Type 0 where
  pub session_id : ℕ
  pub context : Option NegotiationContext
  pub analysis : NegotiationAnalysis
  pub pattern_detected : Option Pattern

abbrev pub no_analysis : NegotiationAnalysis
no_analysis = record {
  anchoring = pos 0;
  value_articulation = pos 0;
  counter_strategy = pos 0;
  emotional_control = pos 0;
  money_left_on_table = pos 0;
  overall_score = pos 0;
  improvement_notes = [];
}

abbrev pub Answered : Type 0
Answered = Http AnalysisResponse × List InterviewSession

unfoldable pub analysed :
    ℕ → InterviewSession → NegotiationAnalysis → List InterviewSession → Answered
unfolding detect_pattern
analysed user_id s a table = (
  ok (record {
    session_id = s.id;
    context = (get_or s.lint_results no_lint).negotiation_context;
    analysis = a;
    pattern_detected = detect_pattern user_id table;
  }),
  table,
)

-- `{**(session.lint_results or {}), "negotiation_analysis": analysis}`
abbrev pub with_analysis : NegotiationAnalysis → InterviewSession → InterviewSession
with_analysis a s = record s {
  lint_results = some (record (get_or s.lint_results no_lint) { negotiation_analysis = some a });
}

-- `_analyze_negotiation`, `model` being the language model's answer: without a context the amounts of the
-- prompt cannot be formatted, which is an exception as well.
unfoldable pub analyze_negotiation :
    (InterviewSession → Option NegotiationAnalysis) → InterviewSession → Option NegotiationAnalysis
analyze_negotiation model s = elim (get_or s.lint_results no_lint).negotiation_context [
  | none ↦ none
  | some context ↦ model s
]

-- A completed session with a transcript is analysed; `none` is an exception of the analysis.
unfoldable pub analysed_now :
    ℕ → Option NegotiationAnalysis → InterviewSession → List InterviewSession → Answered
unfolding analysed
analysed_now user_id none s table = (raised 500 "Internal Server Error", table)
analysed_now user_id (some a) s table = analysed user_id s a (save (with_analysis a s) table)

abbrev pub has_turns : InterviewSession → Bool
has_turns s = elim (InterviewSession.transcript s) [ [] ↦ false | t ∷ ts ↦ true ]

unfoldable pub row_analysis :
    (InterviewSession → Option NegotiationAnalysis)
    → ℕ
    → Option NegotiationAnalysis
    → InterviewSession
    → List InterviewSession
    → Answered
unfolding analysed analysed_now analyze_negotiation
row_analysis model user_id (some a) s table = analysed user_id s a table
row_analysis model user_id none s table =
    if is_completed s && has_turns s
    then analysed_now user_id (analyze_negotiation model s) s table
    else analysed user_id s no_analysis table

abbrev pub is_round : ℕ → ℕ → InterviewSession → Bool
is_round session_id user_id s = s.id ==ℕ session_id && s.user_id ==ℕ user_id && is_negotiation s

unfoldable pub found_analysis :
    (InterviewSession → Option NegotiationAnalysis)
    → ℕ
    → Option InterviewSession
    → List InterviewSession
    → Answered
unfolding row_analysis
found_analysis model user_id none table = (raised 404 "Negotiation session not found", table)
found_analysis model user_id (some s) table = row_analysis model user_id (analysis_of s) s table

unfoldable pub get_negotiation_analysis :
    (InterviewSession → Option NegotiationAnalysis) → ℕ → ℕ → List InterviewSession → Answered
unfolding found_analysis
get_negotiation_analysis model session_id user_id table =
    found_analysis model user_id (find? (is_round session_id user_id) table) table
