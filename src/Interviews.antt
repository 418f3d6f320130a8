-- ===== src/Interviews.antt =====
-- backend/app/api/v1/sessions.py and backend/app/models/interview_session.py: the table of sessions, what
-- the endpoints do to it, and the end of a voice session in backend/app/services/voice/pipeline.py. The
-- columns of the scoring are those of Interviews.Scores; costs are in millionths of a dollar.
pub mod Rows
pub mod Rewritten
pub mod Lifecycle
pub mod Endings
pub mod Requests
pub mod Scores
pub mod DeliveryResults
pub mod SessionScoring
pub mod Rescoring
pub mod Ideal
pub mod Rewinds
mod Tests
mod ScoringTests
use interviewcraft.Prelude.{
  ℕ, ◌+◌, String, Bool, true, false, not, ◌&&◌, Option, none, some, List, [], ◌∷◌, ◌++◌, leb, ◌==ℕ◌,
  if◌then◌else◌, length, filter, find?, ℤ, pos, ◌==◌, nat_eq, string_eq, Dict, has_key,
}
use interviewcraft.Auth.Users.{User, Http, ok, raised}
use interviewcraft.Auth.Tokens.{Libraries, token_user}
use interviewcraft.Auth.Sessions.{active_user}
use interviewcraft.Delivery.{Turn, TranscriptWord, Speech, DeliveryAnalysis, analyze_delivery}
use interviewcraft.Scoring.Json.{Json}

pub data SessionStatus : Type 0 where
  active completed abandoned : SessionStatus

abbrev pub is_active_status : SessionStatus → Bool
is_active_status active = true
is_active_status completed = false
is_active_status abandoned = false

-- What the summary of a scoring says of a segment.
pub record LintScore : Type 0 where
  pub segment_index : ℕ
  pub overall_score : ℤ
  pub confidence : String
  pub rules_count : ℕ
  pub level_assessment : Json

-- Under `lint_results`: the offer that a negotiation is about, and its analysis.
pub record NegotiationContext : Type 0 where
  pub company : String
  pub role : String
  pub level : String
  pub offer_amount : ℕ
  pub market_rate : ℕ
  pub hidden_max : ℤ
  pub lowball : ℤ

pub record NegotiationAnalysis : Type 0 where
  pub anchoring : ℤ
  pub value_articulation : ℤ
  pub counter_strategy : ℤ
  pub emotional_control : ℤ
  pub money_left_on_table : ℤ
  pub overall_score : ℤ
  pub improvement_notes : List String

-- The keys of `lint_results` that the program writes.
pub record LintResults : Type 0 where
  pub segments_scored : Option ℕ
  pub average_score : Option ℤ
  pub scores : Option (List LintScore)
  pub skill_graph_updated : Bool
  pub delivery : Option DeliveryAnalysis
  pub negotiation_context : Option NegotiationContext
  pub negotiation_analysis : Option NegotiationAnalysis

pub record InterviewSession : Type 0 where
  pub id : ℕ
  pub user_id : ℕ
  pub type : String
  pub interview_type : Option String
  pub status : SessionStatus
  pub quality_profile : String
  pub voice_id : Option String
  pub persona : String
  pub company : Option String
  pub focus_skill : Option String
  pub duration_limit_minutes : Option ℕ
  pub transcript : List Turn
  pub lint_results : Option LintResults
  pub total_cost_usd : ℤ
  pub created_at : ℕ
  pub ended_at : Option ℕ

-- `_get_owned_session`, whose query is on both columns.
abbrev pub is_owned : ℕ → ℕ → InterviewSession → Bool
is_owned session_id user_id s = s.id ==ℕ session_id && s.user_id ==ℕ user_id

unfoldable pub get_owned_session : ℕ → ℕ → List InterviewSession → Option InterviewSession
get_owned_session session_id user_id table = find? (is_owned session_id user_id) table

-- The assignments to a row, committed.
unfoldable pub save : InterviewSession → List InterviewSession → List InterviewSession
save s [] = []
save s (r ∷ table) = (if r.id ==ℕ s.id then s else r) ∷ save s table

unfoldable pub remove : ℕ → List InterviewSession → List InterviewSession
remove session_id table = filter (λ r. not (r.id ==ℕ session_id)) table

abbrev pub of_user : ℕ → List InterviewSession → List InterviewSession
of_user user_id table = filter (λ s. s.user_id ==ℕ user_id) table

-- `SessionCreate`, once pydantic has checked its patterns.
pub record SessionCreate : Type 0 where
  pub type : String
  pub interview_type : Option String
  pub quality_profile : String
  pub voice_id : Option String
  pub persona : String
  pub company : Option String
  pub focus_skill : Option String
  pub duration_limit_minutes : Option ℕ

-- An answer, and the table after it.
abbrev pub Answer : Type 0 → Type 0
Answer A = Http A × List InterviewSession

abbrev pub not_found : {A : Type 0} → Http A
not_found = raised 404 "Session not found"

abbrev pub byok_required : {A : Type 0} → Http A
byok_required =
    raised 402
      "Your free session has been used. Add your Anthropic API key in Settings to continue — get one free at console.anthropic.com. Deepgram and ElevenLabs are still covered by the platform."

abbrev pub already_over : {A : Type 0} → SessionStatus → Http A
already_over active = raised 409 "Session is already active"
already_over completed = raised 409 "Session is already completed"
already_over abandoned = raised 409 "Session is already abandoned"

abbrev pub still_active : {A : Type 0} → Http A
still_active = raised 409 "Cannot delete an active session — end it first"

abbrev pub free_session_limit : ℕ
free_session_limit = 1

-- The row that is inserted; `id` is the fresh `uuid4()` and `now` the server's time.
abbrev pub new_session : ℕ → ℕ → ℕ → String → SessionCreate → InterviewSession
new_session id now user_id session_type body = record {
  id = id;
  user_id = user_id;
  type = session_type;
  interview_type = body.interview_type;
  status = active;
  quality_profile = body.quality_profile;
  voice_id = body.voice_id;
  persona = body.persona;
  company = body.company;
  focus_skill = body.focus_skill;
  duration_limit_minutes = body.duration_limit_minutes;
  transcript = [];
  lint_results = none;
  total_cost_usd = pos 0;
  created_at = now;
  ended_at = none;
}

-- The first session of a user is a diagnostic one.
unfoldable pub routed_type : ℕ → String → String
routed_type session_count type = if session_count ==ℕ 0 then "diagnostic" else type

-- From the second session on, without the user's own key and without the platform's.
unfoldable pub is_refused : ℕ → Bool → Dict String String → Bool
is_refused session_count has_platform_key byok =
    leb free_session_limit session_count && not (has_key "anthropic" byok) && not has_platform_key

unfoldable pub create_session :
    ℕ
    → ℕ
    → Bool
    → Dict String String
    → SessionCreate
    → ℕ
    → List InterviewSession
    → Answer InterviewSession
unfolding routed_type is_refused
create_session id now has_platform_key byok body user_id table =
    let session_count = length (of_user user_id table) in
    let s = new_session id now user_id (routed_type session_count body.type) body in
    if is_refused session_count has_platform_key byok
    then (byok_required, table)
    else (ok s, table ++ (s ∷ []))

-- `SessionEnd.status`, `completed` or `abandoned`.
pub data Ending : Type 0 where
  complete abandon : Ending

abbrev pub status_of : Ending → SessionStatus
status_of complete = completed
status_of abandon = abandoned

-- On the row that was found.
unfoldable pub ended :
    ℕ → Ending → Option InterviewSession → List InterviewSession → Answer InterviewSession
ended now ending none table = (not_found, table)
ended now ending (some s) table =
    let s' : InterviewSession = record s { status = status_of ending; ended_at = some now } in
    if is_active_status s.status then (ok s', save s' table) else (already_over s.status, table)

unfoldable pub end_session : ℕ → Ending → ℕ → ℕ → List InterviewSession → Answer InterviewSession
unfolding ended get_owned_session
end_session now ending session_id user_id table =
    ended now ending (get_owned_session session_id user_id table) table

unfoldable pub deleted : Option InterviewSession → List InterviewSession → Answer Unit
deleted none table = (not_found, table)
deleted (some s) table =
    if is_active_status s.status then (still_active, table) else (ok tt, remove s.id table)

unfoldable pub delete_session : ℕ → ℕ → List InterviewSession → Answer Unit
unfolding deleted get_owned_session
delete_session session_id user_id table = deleted (get_owned_session session_id user_id table) table

-- The row that the voice endpoint hands to its pipeline; `none` closes the socket with 1008.
abbrev pub if_active : Option InterviewSession → Option InterviewSession
if_active none = none
if_active (some s) = if is_active_status s.status then some s else none

-- `_authenticate_ws`
unfoldable pub authenticate_ws : (lib : Libraries) → ℕ → lib.Token → List User → Option User
authenticate_ws lib now token users = active_user (token_user lib "access" now token) users

unfoldable pub voice_session :
    (lib : Libraries)
    → ℕ
    → lib.Token
    → ℕ
    → List User
    → List InterviewSession
    → Option InterviewSession
unfolding authenticate_ws get_owned_session
voice_session lib now token session_id users table = elim (authenticate_ws lib now token users) [
  | none ↦ none
  | some u ↦ if_active (get_owned_session session_id u.id table)
]

-- What `_finalize_session` writes to the row of its session.
abbrev pub finalized : ℕ → List Turn → ℤ → InterviewSession → InterviewSession
finalized now transcript total_cost s = record s {
  transcript = transcript;
  status = completed;
  ended_at = some now;
  total_cost_usd = total_cost;
}

unfoldable pub finalize_session :
    ℕ → List Turn → ℤ → ℕ → List InterviewSession → List InterviewSession
finalize_session now transcript total_cost session_id [] = []
finalize_session now transcript total_cost session_id (s ∷ table) =
    (if s.id ==ℕ session_id then finalized now transcript total_cost s else s)
    ∷ finalize_session now transcript total_cost session_id table

-- `_save_transcript_turn`, of a voice loop: the row of its session with the conversation so far.
unfoldable pub save_transcript : List Turn → ℕ → List InterviewSession → List InterviewSession
save_transcript transcript session_id [] = []
save_transcript transcript session_id (s ∷ table) =
    (if s.id ==ℕ session_id then record s { transcript = transcript } else s)
    ∷ save_transcript transcript session_id table
