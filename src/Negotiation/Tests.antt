-- ===== src/Negotiation/Tests.antt =====
-- The theorems on negotiations, at a completed round with an offer and one without.
use interviewcraft.Prelude.{
  ◌≡◌, refl, none, some, [], ◌∷◌, pos, nat_eq, string_eq, insert_ranked, sorted_reverse,
}
use interviewcraft.Auth.Users.{ok}
use interviewcraft.Voice.Turns.{user}
use interviewcraft.Interviews.{
  save, SessionCreate, InterviewSession, NegotiationContext, NegotiationAnalysis, completed,
  new_session,
}
use interviewcraft.Interviews.Scores.{no_lint}
use interviewcraft.Negotiation.{
  AnalysisResponse, get_negotiation_analysis, found_analysis, row_analysis, analysed_now, analysed,
  analyze_negotiation, detect_pattern, last_rounds, no_analysis,
}
use interviewcraft.Negotiation.Analyses.{get_negotiation_analysis-again}

abbrev request : SessionCreate
request = record {
  type = "negotiation";
  interview_type = none;
  quality_profile = "balanced";
  voice_id = none;
  persona = "neutral";
  company = none;
  focus_skill = none;
  duration_limit_minutes = none;
}

abbrev plain : InterviewSession
plain = record (new_session 11 6 1 "negotiation" request) {
  status = completed;
  transcript = record { role = user; content = "I expect more."; ts_ms = none } ∷ [];
}

abbrev offer : NegotiationContext
offer = record {
  company = "Acme";
  role = "Engineer";
  level = "L5";
  offer_amount = 100_000;
  market_rate = 120_000;
  hidden_max = pos 115_000;
  lowball = pos 90_000;
}

abbrev round : InterviewSession
round = record plain {
  id = 10;
  lint_results = some (record no_lint { negotiation_context = some offer });
}

abbrev good : NegotiationAnalysis
good = record no_analysis { emotional_control = pos 70; overall_score = pos 66 }

abbrev answered : AnalysisResponse
answered = record {
  session_id = 10;
  context = some offer;
  analysis = good;
  pattern_detected = none;
}

analysed_first : (get_negotiation_analysis (λ s. some good) 10 1 (round ∷ [])).0 ≡ ok answered
unfolding get_negotiation_analysis found_analysis row_analysis analysed_now analysed
    analyze_negotiation detect_pattern last_rounds sorted_reverse save insert_ranked
analysed_first = refl

get_negotiation_analysis-again_example :
    let after = (get_negotiation_analysis (λ s. some good) 10 1 (round ∷ [])).1 in
    get_negotiation_analysis (λ s. none) 10 1 after ≡ (ok answered, after)
get_negotiation_analysis-again_example =
    get_negotiation_analysis-again (λ s. some good) (λ s. none) 10 1 (round ∷ []) answered
      analysed_first
