-- ===== src/Interviews/Scores.antt =====
-- The rows of the scores, backend/app/models/segment_score.py, and the helpers with which
-- backend/app/api/v1/scoring.py makes them of the results of the scorer. The scorer and the texts of
-- identifiers are parameters.
use interviewcraft.Prelude.{
  ℕ, zero, suc, ◌+◌, String, Bool, true, false, Option, none, some, get_or, List, [], ◌∷◌, map, ltb,
  leb, ◌==ℕ◌, if◌then◌else◌, length, filter, ℤ, pos, ltb_ℤ, ◌+ℤ◌, ◌-ℤ◌, floor_div, nat_eq,
  string_eq, Dict, join, Runtime,
}
use interviewcraft.Auth.Users.{Http}
use interviewcraft.Delivery.{Turn}
use interviewcraft.Voice.Turns.{user, assistant}
use interviewcraft.Memory.DrillPlanner.{Floats}
use interviewcraft.Memory.Documents.{Tables}
use interviewcraft.Memory.SkillGraph.{RuleHit, SkillSignal}
use interviewcraft.Scoring.Json.{Json, Members}
use interviewcraft.Scoring.Sessions.{Segment, ScoredSegment, StoryTexts}
use interviewcraft.Voice.Costs.{Usage}
use interviewcraft.Interviews.{InterviewSession, LintResults, LintScore}

-- An entry of `rules_triggered`, without its evidence.
pub record RuleTriggered : Type 0 where
  pub rule : String
  pub confidence : Option String
  pub fix : Option String

abbrev pub hit_of : RuleTriggered → RuleHit
hit_of r = record { rule = r.rule; confidence = r.confidence }

pub record SegmentScore : Type 0 where
  pub id : ℕ
  pub session_id : ℕ
  pub segment_index : ℕ
  pub question_text : String
  pub answer_text : String
  pub overall_score : ℤ
  pub confidence : String
  pub category_scores : Dict String ℤ
  pub rules_triggered : List RuleTriggered
  pub level_assessment : Json
  pub diff_versions : Option Members
  pub rewind_count : ℕ
  pub best_rewind_score : Option ℤ

-- `ScoringResult`; the hints are those that are read.
pub record ScoringResult : Type 0 where
  pub overall_score : ℤ
  pub confidence : String
  pub categories : Dict String ℤ
  pub rules_triggered : List RuleTriggered
  pub level_assessment : Json
  pub diff_versions : Option Members
  pub skill_signals : Option (List SkillSignal)
  pub story_detected : Bool
  pub story_title : Option String
  pub communication_notes : Option String
  pub model : String
  pub usage : Usage

-- The sessions and their scores, and the candidate's other rows.
pub record Db : Type 0 where
  pub sessions : List InterviewSession
  pub segment_scores : List SegmentScore
  pub tables : Tables

-- `select(SegmentScore).where(session_id == …).order_by(segment_index)`
unfoldable pub insert_by_index : SegmentScore → List SegmentScore → List SegmentScore
insert_by_index r [] = r ∷ []
insert_by_index r (x ∷ rows) =
    let rest = insert_by_index r rows in
    if leb r.segment_index x.segment_index then r ∷ x ∷ rows else x ∷ rest

unfoldable pub by_index : List SegmentScore → List SegmentScore
unfolding insert_by_index
by_index [] = []
by_index (r ∷ rows) = insert_by_index r (by_index rows)

abbrev pub of_session : ℕ → List SegmentScore → List SegmentScore
of_session session_id rows = filter (λ r. r.session_id ==ℕ session_id) rows

unfoldable pub get_segment_scores : ℕ → List SegmentScore → List SegmentScore
get_segment_scores session_id rows = by_index (of_session session_id rows)

-- `_turns_to_text`
unfoldable pub turns_to_text : List Turn → String
turns_to_text turns = join " " (
    map (λ t. Turn.content t)
      (filter (λ t. elim (Turn.role t) [ user ↦ true | assistant ↦ false ]) turns))

-- `round(total / count)`: to the nearest integer, and to the even one from halfway.
abbrev times : ℤ → ℕ → ℤ
times q zero = pos 0
times q (suc n) = q +ℤ times q n

abbrev rounded : ℤ → ℤ → ℕ → ℤ
rounded q r2 count =
    if ltb_ℤ r2 (pos count)
    then q
    else if ltb_ℤ (pos count) r2
    then q +ℤ pos 1
    else q +ℤ (q -ℤ times (floor_div q 2) 2)

unfoldable pub round_mean : ℤ → ℕ → ℤ
round_mean total count =
    let q = floor_div total count in rounded q (times (total -ℤ times q count) 2) count

unfoldable pub sum_scores : List SegmentScore → ℤ
sum_scores [] = pos 0
sum_scores (r ∷ rows) = r.overall_score +ℤ sum_scores rows

abbrev lint_score : SegmentScore → LintScore
lint_score r = record {
  segment_index = r.segment_index;
  overall_score = r.overall_score;
  confidence = r.confidence;
  rules_count = length r.rules_triggered;
  level_assessment = r.level_assessment;
}

abbrev pub no_lint : LintResults
no_lint = record {
  segments_scored = none;
  average_score = none;
  scores = none;
  skill_graph_updated = false;
  delivery = none;
  negotiation_context = none;
  negotiation_analysis = none;
}

-- `_build_lint_summary`, put into the results so far, with the flag of the skill graph.
unfoldable pub with_summary : List SegmentScore → Option LintResults → LintResults
unfolding round_mean sum_scores
with_summary rows lint = record (get_or lint no_lint) {
  segments_scored = some (length rows);
  average_score = some (round_mean (sum_scores rows) (length rows));
  scores = some (map lint_score rows);
  skill_graph_updated = true;
}

-- `session.lint_results and session.lint_results.get("segments_scored")`
unfoldable pub is_scored : Option LintResults → Bool
is_scored none = false
is_scored (some lint) = ltb 0 (get_or lint.segments_scored 0)

-- A segment with its index and its result.
pub record Scored : Type 0 where
  pub segment_index : ℕ
  pub segment : Segment
  pub result : ScoringResult

-- The services of one request: `score` is `none` where the scorer raises, `row_id` draws the rows' ids.
pub record Services : Type 1 where
  pub rt : Runtime
  pub now : ℕ
  pub str_uuid : ℕ → String
  pub word_count : String → ℕ
  pub stories : StoryTexts
  pub fl : Floats
  pub micro : fl.Float → ℤ
  pub score : ℕ → Segment → Option ScoringResult
  pub row_id : ℕ → ℕ

abbrev pub Response : Type 0
Response = Http (List SegmentScore) × Db

-- `asyncio.gather`, with a result or an exception for each segment.
unfoldable pub gather :
    (ℕ → Segment → Option ScoringResult) → ℕ → List Segment → List (Option Scored)
gather score idx [] = []
gather score idx (s ∷ segments) =
    elim (score idx s) [
      | none ↦ none
      | some r ↦ some (record { segment_index = idx; segment = s; result = r })
    ]
    ∷ gather score (idx + 1) segments

unfoldable pub without_failures : List (Option Scored) → List Scored
without_failures [] = []
without_failures (none ∷ results) = without_failures results
without_failures (some s ∷ results) = s ∷ without_failures results

abbrev pub story_hint : Option Scored → Option ScoredSegment
story_hint none = none
story_hint (some s) = some (record {
  question = s.segment.0;
  story_detected = s.result.story_detected;
  story_title = s.result.story_title;
  communication_notes = s.result.communication_notes;
})
