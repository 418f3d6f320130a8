-- ===== src/Scoring/Sessions/Tests.antt =====
-- A short transcript, and two sessions with the same story.
use interviewcraft.Prelude.{
  ℕ, String, ◌≡◌, refl, true, none, some, List, [], ◌∷◌, if◌then◌else◌, length, filter, ◌==◌,
  nat_eq, string_eq,
}
use interviewcraft.Voice.Turns.{user, assistant}
use interviewcraft.Delivery.{Turn}
use interviewcraft.Memory.Documents.{Tables}
use interviewcraft.Memory.Builder.{Json, Extraction, merge_extraction}
use interviewcraft.Scoring.Sessions.{
  ScoredSegment, StoryTexts, stories_after, title_of, extract_qa_segments, is_substantive,
  answer_words, captured, read_as, read_turns,
}
use interviewcraft.Scoring.Sessions.Segments.{blocks, is_kept, extract_qa_segments-blocks}
use interviewcraft.Scoring.Sessions.Stories.{merge_extraction-twice}

abbrev many_words : String → ℕ
many_words s = if s == "Yes" then 1 else 9

abbrev transcript : List Turn
transcript =
    record { role = assistant; content = "Ready?"; ts_ms = none }
    ∷ record { role = user; content = "Yes"; ts_ms = none }
    ∷ record { role = assistant; content = "Why?"; ts_ms = none }
    ∷ record { role = user; content = "We had"; ts_ms = none }
    ∷ record { role = user; content = "an outage"; ts_ms = none }
    ∷ []

one_segment : length (extract_qa_segments many_words transcript) ≡ 1
unfolding extract_qa_segments read_turns read_as captured is_substantive answer_words
one_segment = refl

extract_qa_segments-blocks_example :
    extract_qa_segments many_words transcript ≡ filter (is_kept many_words) (blocks transcript)
extract_qa_segments-blocks_example = extract_qa_segments-blocks many_words transcript

abbrev st : StoryTexts
st = record { strip = λ s. s; quoted = λ s. s }

abbrev scored : ScoredSegment
scored = record {
  question = "Why?";
  story_detected = true;
  story_title = some "The outage";
  communication_notes = none;
}

abbrev js : Json
js = record { words = λ s. s ∷ []; dumps_length = λ doc. 400 }

abbrev outage : Extraction
outage = record {
  recurring_mistakes = [];
  story_detected = record {
    found = true;
    title = some "The outage";
    competencies = [];
    tip = none;
  };
  communication_observations = [];
  coaching_observation = none;
  focus_suggestion = none;
}

abbrev newcomer : Tables
newcomer = record { cache = none; memory = none; stories = []; skills = [] }

merge_extraction-twice_example :
    let first = stories_after st (some scored ∷ []) newcomer.stories in
    let both = stories_after st (some scored ∷ none ∷ []) first in
    merge_extraction js outage (70 ∷ []) (record newcomer { stories = both }) ≡ none
unfolding title_of
merge_extraction-twice_example =
    merge_extraction-twice st js "The outage" scored scored [] (none ∷ []) outage (70 ∷ []) newcomer
      refl refl refl refl refl
