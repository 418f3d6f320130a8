-- ===== src/Interviews/ScoringTests.antt =====
-- The theorems on scores, at a session with one answer: it is scored, again, again by force, and rewound.
use interviewcraft.Prelude.{
  ◌+◌, String, ◌≡◌, refl, true, false, none, some, List, [], ◌∷◌, arith, ℤ, pos, ltb_ℤ, nat_eq,
  string_eq, join,
}
use interviewcraft.Auth.Users.{ok}
use interviewcraft.Voice.Turns.{assistant, user}
use interviewcraft.Voice.Costs.{cost_at, calc_anthropic_cost, anthropic_prices, is_counted}
use interviewcraft.Memory.DrillPlanner.{Floats}
use interviewcraft.Scoring.Json.{object, text, member, no_members, null, returned}
use interviewcraft.Scoring.Sessions.{
  extract_qa_segments, is_substantive, answer_words, captured, read_as, read_turns,
}
use interviewcraft.Interviews.{
  InterviewSession, SessionCreate, completed, get_owned_session, new_session,
}
use interviewcraft.Interviews.Scores.{
  Services, Db, ScoringResult, SegmentScore, gather, without_failures, get_segment_scores,
  turns_to_text,
}
use interviewcraft.Interviews.SessionScoring.{
  score_session, score_found, score_row, score_lint, score_segments, store_results, total_cost,
  segment_cost, internal_error,
}
use interviewcraft.Interviews.Rescoring.{score_session-again}
use interviewcraft.Interviews.Ideal.{Speech, play_ideal_answer, play_ideal_answer-score_session}
use interviewcraft.Interviews.Rewinds.{get_segment}
use interviewcraft.Interviews.Rewinds.Best.{
  Scorer, new_scores, rewinds, IsRewound, rewinds-IsRewound,
}

abbrev floats : Floats
floats = record {
  Float = ℤ;
  of_int = λ n. n;
  decimal = λ n d. n;
  add = λ a b. a;
  mul = λ a b. a;
  div = λ a b. a;
  lt = ltb_ℤ;
}

abbrev result_of : ℤ → ScoringResult
result_of score = record {
  overall_score = score;
  confidence = "high";
  categories = [];
  rules_triggered = [];
  level_assessment = null;
  diff_versions =
      some
        (member "ideal" (object (member "text" (text "We cut it by half.") no_members)) no_members);
  skill_signals = none;
  story_detected = false;
  story_title = none;
  communication_notes = none;
  model = "claude-haiku-4-5";
  usage = record {
    input_tokens = pos 900;
    output_tokens = pos 200;
    cached_tokens = pos 0;
    cache_creation_tokens = pos 0;
  };
}

abbrev services : Services
services = record {
  rt = record { str_int = λ n. "n"; isoformat_date = λ t. "2026-02-01"; set_order = λ l. l };
  now = 50;
  str_uuid = λ n. "u";
  word_count = λ s. 20;
  stories = record { strip = λ s. s; quoted = λ s. s };
  fl = floats;
  micro = λ x. x;
  score = λ i s. some (result_of (pos 70));
  row_id = λ i. i + 100;
}

abbrev request : SessionCreate
request = record {
  type = "behavioral";
  interview_type = none;
  quality_profile = "balanced";
  voice_id = none;
  persona = "neutral";
  company = none;
  focus_skill = none;
  duration_limit_minutes = none;
}

abbrev session : InterviewSession
session = record (new_session 10 5 1 "behavioral" request) {
  status = completed;
  ended_at = some 40;
  transcript =
      record { role = assistant; content = "Why?"; ts_ms = none }
      ∷ record { role = user; content = "We had an outage"; ts_ms = none }
      ∷ [];
}

abbrev before : Db
before = record {
  sessions = session ∷ [];
  segment_scores = [];
  tables = record { cache = none; memory = none; stories = []; skills = [] };
}

abbrev scored_row : SegmentScore
scored_row = record {
  id = 100;
  session_id = 10;
  segment_index = 0;
  question_text = "Why?";
  answer_text = "We had an outage";
  overall_score = pos 70;
  confidence = "high";
  category_scores = [];
  rules_triggered = [];
  level_assessment = null;
  diff_versions = (result_of (pos 70)).diff_versions;
  rewind_count = 0;
  best_rewind_score = none;
}

one_row : (score_session services false 10 1 before).0 ≡ ok (scored_row ∷ [])
unfolding score_session score_found score_row score_lint score_segments store_results total_cost
    segment_cost calc_anthropic_cost cost_at anthropic_prices is_counted gather without_failures
    get_owned_session extract_qa_segments read_turns read_as captured is_substantive answer_words
    turns_to_text join
one_row = refl

score_session-again_example :
    let after = (score_session services false 10 1 before).1 in
    score_session services false 10 1 after
    ≡ (ok (get_segment_scores 10 after.segment_scores), after)
score_session-again_example =
    score_session-again services services false 10 1 before scored_row [] one_row

-- The session with its score, as a forced scoring finds it.
abbrev scored_db : Db
scored_db = record before { segment_scores = scored_row ∷ [] }

forced_row : (score_session services true 10 1 scored_db).0 ≡ ok (scored_row ∷ [])
unfolding score_session score_found score_row score_lint score_segments store_results total_cost
    segment_cost calc_anthropic_cost cost_at anthropic_prices is_counted gather without_failures
    get_owned_session extract_qa_segments read_turns read_as captured is_substantive answer_words
    turns_to_text join
forced_row = refl

abbrev spoken : Speech
spoken = record { cut = λ s. s; len = λ s. 18; speak = λ s. some "audio" }

play_ideal_answer-score_session_example :
    let after = (score_session services true 10 1 scored_db).1 in
    (after.segment_scores ≡ scored_row ∷ scored_row ∷ [])
    × (play_ideal_answer spoken 10 0 1 after ≡ internal_error)
play_ideal_answer-score_session_example =
    play_ideal_answer-score_session services spoken 10 0 1 scored_db (scored_row ∷ []) forced_row
      (omega arith) (omega arith)

found_session : get_owned_session 10 1 scored_db.sessions ≡ some session
unfolding get_owned_session
found_session = refl

found_row : get_segment 100 10 scored_db.segment_scores ≡ some scored_row
unfolding get_segment
found_row = refl

-- The second answer is better than the first, the same answer is then scored lower, the last is blank.
abbrev scored_as : ℤ → Scorer
scored_as score index question answer = returned (result_of score)

abbrev attempts : List (Scorer × String)
attempts =
    (scored_as (pos 64), "Somehow")
    ∷ (scored_as (pos 82), "By half")
    ∷ (scored_as (pos 70), "By half")
    ∷ (scored_as (pos 90), "")
    ∷ []

rewinds-IsRewound_example :
    (x : SegmentScore) × (get_segment 100 10
        (rewinds services attempts 100 10 1 scored_db).segment_scores
      ≡ some x)
    × IsRewound scored_row (new_scores services 0 "Why?" attempts) x
rewinds-IsRewound_example =
    rewinds-IsRewound services attempts 100 10 1 session scored_row scored_db found_session
      found_row
