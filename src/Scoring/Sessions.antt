-- ===== src/Scoring/Sessions.antt =====
-- backend/app/api/v1/scoring.py: the segments of a transcript that are scored, and the stories that
-- the scoring of a session adds to the candidate's. The number of words of a text and `str.strip` are
-- parameters.
pub mod Segments
pub mod Stories
mod Tests
use interviewcraft.Prelude.{
  ℕ, ◌+◌, String, Bool, true, false, not, ◌&&◌, Option, none, some, get_or, List, [], ◌∷◌, ◌++◌,
  leb, if◌then◌else◌, nat_eq, string_eq, contains, is_empty,
}
use interviewcraft.Voice.Turns.{Role, user, assistant}
use interviewcraft.Delivery.{Turn}
use interviewcraft.Memory.Documents.{Story}

abbrev pub min_answer_words : ℕ
min_answer_words = 15

-- A question and the turns that answer it.
abbrev pub Segment : Type 0
Segment = String × List Turn

-- The loop's variables; no question yet is an empty one, since both are passed over.
pub record Reading : Type 0 where
  pub segments : List Segment
  pub current_question : String
  pub current_answer : List Turn

abbrev pub start : Reading
start = record { segments = []; current_question = ""; current_answer = [] }

module _ (word_count : String → ℕ) where
  unfoldable pub answer_words : List Turn → ℕ
  answer_words [] = 0
  answer_words (t ∷ answer) =
      elim t.role [ user ↦ word_count t.content | assistant ↦ 0 ] + answer_words answer

  unfoldable pub is_substantive : Segment → Bool
  unfolding answer_words
  is_substantive (question, []) = false
  is_substantive (question, t ∷ answer) =
      not (is_empty question) && leb min_answer_words (answer_words (t ∷ answer))

  -- The segments with the current one, if it is substantive.
  unfoldable pub captured : Reading → List Segment
  captured r =
      if is_substantive (r.current_question, r.current_answer)
      then r.segments ++ ((r.current_question, r.current_answer) ∷ [])
      else r.segments

  unfoldable pub read_as : Role → Turn → Reading → Reading
  unfolding captured
  read_as assistant t r = record {
    segments = captured r;
    current_question = t.content;
    current_answer = [];
  }
  read_as user t r =
      if is_empty r.current_question
      then r
      else record r { current_answer = r.current_answer ++ (t ∷ []) }

  unfoldable pub read_turns : List Turn → Reading → Reading
  read_turns [] r = r
  read_turns (t ∷ transcript) r = read_turns transcript (read_as t.role t r)

  -- `_extract_qa_segments`
  unfoldable pub extract_qa_segments : List Turn → List Segment
  extract_qa_segments transcript = captured (read_turns transcript start)

-- What a scored segment hints at, with its question.
pub record ScoredSegment : Type 0 where
  pub question : String
  pub story_detected : Bool
  pub story_title : Option String
  pub communication_notes : Option String

-- `strip`, and the summary of a story without notes, which quotes the question.
pub record StoryTexts : Type 0 where
  pub strip : String → String
  pub quoted : String → String

-- `(hints.get("communication_notes") or "").strip() or f'…'`
unfoldable pub summary_of : StoryTexts → ScoredSegment → String
summary_of st s =
    let notes : String = st.strip (get_or s.communication_notes "") in
    if is_empty notes then st.quoted s.question else notes

abbrev pub detected_story : StoryTexts → String → ScoredSegment → Story
detected_story st title s = record {
  title = title;
  summary = summary_of st s;
  competencies = [];
  best_score_with_this_story = none;
  times_used = 0;
  auto_detected = true;
}

-- The title that is saved: one that is detected and has more than spaces.
unfoldable pub title_of : StoryTexts → Bool → Option String → Option String
title_of st false title = none
title_of st true none = none
title_of st true (some title) = if is_empty (st.strip title) then none else some (st.strip title)

-- The titles seen in this session and the table, after a segment.
unfoldable pub add_titled :
    StoryTexts → Option String → ScoredSegment → List String × List Story → List String × List Story
add_titled st none s (seen, stories) = (seen, stories)
add_titled st (some title) s (seen, stories) =
    if contains title seen
    then (seen, stories)
    else (title ∷ seen, stories ++ (detected_story st title s ∷ []))

-- The loop over the results, of which those that failed are passed over.
unfoldable pub add_stories :
    StoryTexts → List (Option ScoredSegment) → List String × List Story → List String × List Story
add_stories st [] t = t
add_stories st (none ∷ results) t = add_stories st results t
add_stories st (some s ∷ results) t =
    add_stories st results (add_titled st (title_of st s.story_detected s.story_title) s t)

-- `score_session`, as to the candidate's stories.
unfoldable pub stories_after : StoryTexts → List (Option ScoredSegment) → List Story → List Story
stories_after st results stories = (add_stories st results ([], stories)).1
