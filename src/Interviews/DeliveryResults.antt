-- ===== src/Interviews/DeliveryResults.antt =====
-- `get_delivery_analysis` of backend/app/api/v1/scoring.py: the delivery of a session is analysed once and
-- kept with its results. The words are those of the session's rows in transcript_words.
use interviewcraft.Prelude.{ℕ, Option, none, some, get_or, List, nat_eq, string_eq}
use interviewcraft.Auth.Users.{ok}
use interviewcraft.Delivery.{TranscriptWord, Speech, DeliveryAnalysis, analyze_delivery}
use interviewcraft.Interviews.{InterviewSession, Answer, get_owned_session, save, not_found}
use interviewcraft.Interviews.Scores.{no_lint}

-- The row with an analysis.
abbrev pub with_delivery : DeliveryAnalysis → InterviewSession → InterviewSession
with_delivery a s = record s {
  lint_results = some (record (get_or s.lint_results no_lint) { delivery = some a });
}

module _ (sp : Speech) (words : List TranscriptWord) where
  unfoldable pub cached_delivery :
      Option DeliveryAnalysis → InterviewSession → List InterviewSession → Answer DeliveryAnalysis
  cached_delivery (some a) s table = (ok a, table)
  cached_delivery none s table =
      let a : DeliveryAnalysis = analyze_delivery sp words s.transcript in
      (ok a, save (with_delivery a s) table)

  unfoldable pub found_delivery :
      Option InterviewSession → List InterviewSession → Answer DeliveryAnalysis
  unfolding cached_delivery
  found_delivery none table = (not_found, table)
  found_delivery (some s) table = cached_delivery (get_or s.lint_results no_lint).delivery s table

  unfoldable pub get_delivery_analysis : ℕ → ℕ → List InterviewSession → Answer DeliveryAnalysis
  unfolding found_delivery get_owned_session
  get_delivery_analysis session_id user_id table =
      found_delivery (get_owned_session session_id user_id table) table
