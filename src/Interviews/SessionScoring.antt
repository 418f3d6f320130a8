-- ===== src/Interviews/SessionScoring.antt =====
-- `score_session` and `play_ideal_answer` of backend/app/api/v1/scoring.py, over the rows of one candidate.
-- The background task that `score_session` starts is `build_memory` of Memory.Builder.Sessions; the speech
-- service is a parameter.
use interviewcraft.Prelude.{
  ℕ, Bool, true, not, ◌&&◌, Option, none, some, List, [], ◌∷◌, ◌++◌, map, if◌then◌else◌, ℤ, pos,
  ◌+ℤ◌, nat_eq, string_eq,
}
use interviewcraft.Auth.Users.{Http, ok, raised}
use interviewcraft.Memory.SkillGraph.{SkillSignal, update_from_scoring_result}
use interviewcraft.Memory.Skills.{SkillGraphNode}
use interviewcraft.Scoring.Sessions.{Segment, extract_qa_segments, stories_after}
use interviewcraft.Voice.Costs.{calc_anthropic_cost}
use interviewcraft.Interviews.{
  InterviewSession, LintResults, get_owned_session, save, is_active_status, not_found,
}
use interviewcraft.Interviews.Scores.{
  SegmentScore, Scored, Services, Db, Response, ScoringResult, RuleTriggered, hit_of, gather,
  without_failures, story_hint, with_summary, is_scored, turns_to_text, get_segment_scores,
}

abbrev pub active_error : {A : Type 0} → Http A
active_error = raised 409 "Session is still active — end it before scoring."

abbrev pub no_segments : {A : Type 0} → Http A
no_segments = raised 422 "No Q&A segments found in transcript."

abbrev pub internal_error : {A : Type 0} → Http A
internal_error = raised 500 "Internal Server Error"

module _ (sv : Services) (s : InterviewSession) where
  abbrev pub row_of : Scored → SegmentScore
  row_of x = record {
    id = sv.row_id x.segment_index;
    session_id = s.id;
    segment_index = x.segment_index;
    question_text = x.segment.0;
    answer_text = turns_to_text (x.segment.1);
    overall_score = x.result.overall_score;
    confidence = x.result.confidence;
    category_scores = x.result.categories;
    rules_triggered = x.result.rules_triggered;
    level_assessment = x.result.level_assessment;
    diff_versions = x.result.diff_versions;
    rewind_count = 0;
    best_rewind_score = none;
  }

  -- `_calc_segment_cost`, which passes no cache writes on; `none` is the `ValueError`.
  unfoldable pub segment_cost : ScoringResult → Option ℤ
  unfolding calc_anthropic_cost
  segment_cost r =
      calc_anthropic_cost sv.fl sv.micro r.model
        (record (r.usage) { cache_creation_tokens = pos 0 })

  unfoldable pub total_cost : List Scored → Option ℤ
  unfolding segment_cost
  total_cost [] = some (pos 0)
  total_cost (x ∷ scored) = elim (segment_cost x.result) [
    | none ↦ none
    | some cost ↦ elim (total_cost scored) [ none ↦ none | some rest ↦ some (cost +ℤ rest) ]
  ]

  -- One call of the skill graph.
  abbrev pub graph_update :
      ℕ
      → ℤ
      → List RuleTriggered
      → Option (List SkillSignal)
      → List SkillGraphNode
      → List SkillGraphNode
  graph_update index score rules signals skills =
      (update_from_scoring_result sv.rt
        (record {
          now = sv.now;
          user = s.user_id;
          session_id = sv.str_uuid s.id;
          segment_index = index;
          overall_score = score;
          rules_triggered = map hit_of rules;
          skill_signals = signals;
          question_type = s.type;
        })
        skills).1

  unfoldable pub graph_after : List Scored → List SkillGraphNode → List SkillGraphNode
  graph_after [] skills = skills
  graph_after (x ∷ scored) skills = graph_after scored (
      graph_update x.segment_index x.result.overall_score x.result.rules_triggered
        x.result.skill_signals skills)

  -- The backfill, whose hints are empty.
  unfoldable pub backfill : List SegmentScore → List SkillGraphNode → List SkillGraphNode
  backfill [] skills = skills
  backfill (r ∷ rows) skills =
      backfill rows (graph_update r.segment_index r.overall_score r.rules_triggered none skills)

  abbrev pub flagged : LintResults → LintResults
  flagged lint = record lint { skill_graph_updated = true }

  -- The answer of a session that is scored already.
  unfoldable pub existing : LintResults → Db → Response
  unfolding backfill
  existing lint db =
      let rows = get_segment_scores s.id db.segment_scores in
      if lint.skill_graph_updated then (ok rows, db) else (
        ok rows,
        record db {
          sessions = save (record s { lint_results = some (flagged lint) }) db.sessions;
          tables = record (db.tables) { skills = backfill rows (db.tables).skills };
        },
      )

  -- The row of the session, after rows that cost as much.
  unfoldable pub summarised : List SegmentScore → ℤ → List InterviewSession → List InterviewSession
  summarised [] cost sessions = sessions
  summarised (r ∷ rows) cost sessions =
      save
        (record s {
          lint_results = some (with_summary (r ∷ rows) s.lint_results);
          total_cost_usd = s.total_cost_usd +ℤ cost;
        })
        sessions

  unfoldable pub store_results : List (Option Scored) → Option ℤ → Db → Response
  unfolding graph_after summarised
  store_results results none db = (internal_error, db)
  store_results results (some cost) db =
      let scored = without_failures results in
      let rows = map row_of scored in
      (
        ok rows,
        record {
          sessions = summarised rows cost db.sessions;
          segment_scores = db.segment_scores ++ rows;
          tables = record (db.tables) {
            skills = graph_after scored (db.tables).skills;
            stories = stories_after sv.stories (map story_hint results) (db.tables).stories;
          };
        },
      )

  unfoldable pub score_segments : List Segment → Db → Response
  unfolding store_results total_cost
  score_segments [] db = (no_segments, db)
  score_segments (x ∷ segments) db =
      let results = gather sv.score 0 (x ∷ segments) in
      store_results results (total_cost (without_failures results)) db

  -- `force` is `body.force_rescore`.
  unfoldable pub score_lint : Bool → Option LintResults → Db → Response
  unfolding existing score_segments
  score_lint force none db = score_segments (extract_qa_segments sv.word_count s.transcript) db
  score_lint force (some lint) db =
      if is_scored (some lint) && not force
      then existing lint db
      else score_segments (extract_qa_segments sv.word_count s.transcript) db

  unfoldable pub score_row : Bool → Db → Response
  unfolding score_lint
  score_row force db =
      if is_active_status s.status then (active_error, db) else score_lint force s.lint_results db

unfoldable pub score_found : Services → Bool → Option InterviewSession → Db → Response
score_found sv force none db = (not_found, db)
score_found sv force (some s) db = score_row sv s force db

unfoldable pub score_session : Services → Bool → ℕ → ℕ → Db → Response
unfolding score_found get_owned_session
score_session sv force session_id user_id db =
    score_found sv force (get_owned_session session_id user_id db.sessions) db
