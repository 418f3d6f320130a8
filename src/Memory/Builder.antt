-- ===== src/Memory/Builder.antt =====
-- backend/app/services/memory/builder.py: what a completed session adds to the candidate's memory. The
-- model's extraction, the split of a text into words and the length of a document's JSON are
-- parameters.
pub mod Items
pub mod Average
pub mod Limits
pub mod Merge
pub mod Sessions
pub mod Mistakes
mod Tests
use interviewcraft.Prelude.{
  ℕ, suc, ◌+◌, ◌*◌, ◌/◌, max, String, Bool, true, false, not, ◌&&◌, ◌||◌, Option, none, some,
  get_or, List, [], ◌∷◌, ◌++◌, map, ltb, ◌==ℕ◌, if◌then◌else◌, length, take, take_last, filter,
  sum_by, ◌==◌, nat_eq, string_eq, contains, is_empty, sorted_reverse,
}
use interviewcraft.Memory.Documents.{
  BestStory, CoachingInsight, MemoryDocument, empty_document, UserMemory, new_memory, Story, Tables,
  snapshots,
}

pub record StoryDetected : Type 0 where
  pub found : Bool
  pub title : Option String
  pub competencies : List String
  pub tip : Option String

-- The input of the tool call `update_memory`, a missing key as its default.
pub record Extraction : Type 0 where
  pub recurring_mistakes : List String
  pub story_detected : StoryDetected
  pub communication_observations : List String
  pub coaching_observation : Option String
  pub focus_suggestion : Option String

-- `text.lower().split()`, and `len(json.dumps(doc))`.
pub record Json : Type 0 where
  pub words : String → List String
  pub dumps_length : MemoryDocument → ℕ

-- The loops that append what is not yet there.
unfoldable pub append_new : List String → List String → List String
append_new existing [] = existing
append_new existing (m ∷ ms) =
    let next : List String =
      if not (is_empty m) && not (contains m existing) then existing ++ (m ∷ []) else existing in
    append_new next ms

-- `set(words)`, its size and its intersection with another.
unfoldable pub set_of : List String → List String
set_of [] = []
set_of (w ∷ ws) = let rest = set_of ws in if contains w rest then rest else w ∷ rest

unfoldable pub overlap_size : List String → List String → ℕ
overlap_size [] ys = 0
overlap_size (x ∷ xs) ys = (if contains x ys then 1 else 0) + overlap_size xs ys

-- `len(e & n) / max(len(e), len(n)) > 0.6`, of sets neither of which is empty.
unfoldable pub similar_insight : Json → String → String → Bool
similar_insight js existing new =
    let e_words : List String = set_of (js.words existing) in
    let n_words : List String = set_of (js.words new) in
    if (length e_words ==ℕ 0) || (length n_words ==ℕ 0)
    then false
    else ltb (6 * max (length e_words) (length n_words)) (10 * overlap_size e_words n_words)

-- The loop over the insights: the first similar one counts once more, else the new one is appended.
unfoldable pub add_insight : Json → String → List CoachingInsight → List CoachingInsight
add_insight js coaching [] = record { insight = coaching; evidence_count = 1 } ∷ []
add_insight js coaching (ci ∷ rest) =
    let added = add_insight js coaching rest in
    if similar_insight js ci.insight coaching
    then record ci { evidence_count = ci.evidence_count + 1 } ∷ rest
    else ci ∷ added

abbrev pub total_score : List ℕ → ℕ
total_score scores = sum_by (λ s. s) scores

-- `sum(…) // len(segments)`, of at least one segment.
unfoldable pub session_average : List ℕ → ℕ
session_average [] = 0
session_average (s ∷ scores) = total_score (s ∷ scores) / length (s ∷ scores)

-- `int((prev_avg * prev_total + session_avg) / (prev_total + 1))`
unfoldable pub new_average : Option ℕ → ℕ → ℕ → ℕ
new_average none prev_total session_avg = session_avg
new_average (some prev_avg) prev_total session_avg =
    if ltb 0 prev_total
    then (prev_avg * prev_total + session_avg) / (prev_total + 1)
    else session_avg

-- The story with the title, where one row at most has it; more rows are an error.
pub data StoryRows : Type 0 where
  no_row : StoryRows
  one_row : Story → StoryRows
  more_rows : StoryRows

unfoldable pub rows_of : List Story → StoryRows
rows_of [] = no_row
rows_of (s ∷ []) = one_row s
rows_of (s ∷ t ∷ rest) = more_rows

abbrev pub has_title : String → Story → Bool
has_title title s = s.title == title

unfoldable pub use_again : String → ℕ → List Story → List Story
use_again title avg_score [] = []
use_again title avg_score (s ∷ rest) =
    (if has_title title s
      then record s {
        best_score_with_this_story = some (max (get_or s.best_score_with_this_story 0) avg_score);
        times_used = s.times_used + 1;
      }
      else s)
    ∷ use_again title avg_score rest

-- `tip or title`
abbrev pub or_else : Option String → String → String
or_else none title = title
or_else (some tip) title = if is_empty tip then title else tip

unfoldable pub upsert_story : String → StoryDetected → ℕ → List Story → Option (List Story)
upsert_story title detected avg_score stories = elim (rows_of (filter (has_title title) stories)) [
  | no_row ↦ some (
      stories
      ++ (record {
        title = title;
        summary = or_else detected.tip title;
        competencies = detected.competencies;
        best_score_with_this_story = some avg_score;
        times_used = 1;
        auto_detected = true;
      }
          ∷ []))
  | one_row row ↦ some (use_again title avg_score stories)
  | more_rows ↦ none
]

unfoldable pub best_story : Story → BestStory
best_story s = record {
  title = s.title;
  best_score = get_or s.best_score_with_this_story 0;
  competencies = s.competencies;
  tip = if s.summary == s.title then none else some s.summary;
}

-- The place of a score in the order that has the rows without one last.
abbrev pub score_rank : Story → ℕ
score_rank s = elim s.best_score_with_this_story [ none ↦ 0 | some n ↦ suc n ]

-- `order_by(best_score_with_this_story.desc().nulls_last()).limit(4)`, rows with equal scores in the
-- order of the table.
abbrev pub top_stories : List Story → List Story
top_stories stories = take 4 (sorted_reverse ltb score_rank stories)

unfoldable pub with_best_stories : List Story → MemoryDocument → MemoryDocument
with_best_stories [] doc = doc
with_best_stories (s ∷ top) doc = record doc { best_stories = map best_story (s ∷ top) }

unfoldable pub rebuilt : Option (List Story) → MemoryDocument → Option (List Story × MemoryDocument)
rebuilt none doc = none
rebuilt (some stories) doc = some (stories, with_best_stories (top_stories stories) doc)

-- The story with the title of the one detected.
unfoldable pub merge_titled :
    Option String
    → StoryDetected
    → List ℕ
    → List Story
    → MemoryDocument
    → Option (List Story × MemoryDocument)
merge_titled none detected scores stories doc = some (stories, doc)
merge_titled (some title) detected scores stories doc =
    if detected.found && not (is_empty title)
    then rebuilt (upsert_story title detected (session_average scores) stories) doc
    else some (stories, doc)

unfoldable pub merge_story :
    StoryDetected → List ℕ → List Story → MemoryDocument → Option (List Story × MemoryDocument)
merge_story detected scores stories doc = merge_titled detected.title detected scores stories doc

unfoldable pub with_mistakes : List String → MemoryDocument → MemoryDocument
with_mistakes mistakes doc = record doc {
  recurring_mistakes = take_last 6 (append_new doc.recurring_mistakes mistakes);
}

unfoldable pub with_communication : List String → MemoryDocument → MemoryDocument
with_communication [] doc = doc
with_communication (note ∷ notes) doc = record doc {
  communication_notes = take_last 3 (append_new doc.communication_notes (note ∷ notes));
}

unfoldable pub with_coaching : Json → Option String → MemoryDocument → MemoryDocument
with_coaching js none doc = doc
with_coaching js (some coaching) doc = if is_empty coaching then doc else record doc {
  coaching_insights = take_last 3 (add_insight js coaching doc.coaching_insights);
}

unfoldable pub with_focus : Option String → MemoryDocument → MemoryDocument
with_focus none doc = doc
with_focus (some focus) doc =
    if is_empty focus then doc else record doc { current_focus = some focus }

unfoldable pub with_stats : List ℕ → MemoryDocument → MemoryDocument
with_stats [] doc = record doc { total_sessions = doc.total_sessions + 1 }
with_stats (s ∷ scores) doc = record doc {
  total_sessions = doc.total_sessions + 1;
  avg_score = some (new_average doc.avg_score doc.total_sessions (session_average (s ∷ scores)));
}

unfoldable pub write_memory : Json → MemoryDocument → UserMemory → UserMemory
write_memory js doc memory = record memory {
  memory_document = some doc;
  version = memory.version + 1;
  token_count = js.dumps_length doc / 4;
  sessions_since_consolidation = memory.sessions_since_consolidation + 1;
}

abbrev pub memory_of : Tables → UserMemory
memory_of tables = get_or tables.memory new_memory

abbrev pub document_of : UserMemory → MemoryDocument
document_of memory = get_or memory.memory_document empty_document

-- The part of the merge after the story.
unfoldable pub merged :
    Json → Extraction → List ℕ → Tables → Option (List Story × MemoryDocument) → Option Tables
merged js ex scores tables none = none
merged js ex scores tables (some (stories, doc)) =
    let doc1 = with_communication ex.communication_observations doc in
    let doc2 = with_coaching js ex.coaching_observation doc1 in
    let doc3 = snapshots tables.skills (with_focus ex.focus_suggestion doc2) in
    some (record tables {
      stories = stories;
      memory = some (write_memory js (with_stats scores doc3) (memory_of tables));
    })

-- `_merge_extraction`, of a session with these scores of its segments; `none` is an error raised.
unfoldable pub merge_extraction : Json → Extraction → List ℕ → Tables → Option Tables
merge_extraction js ex scores tables =
    let doc = document_of (memory_of tables) in
    merged js ex scores tables (
      merge_story ex.story_detected scores tables.stories (with_mistakes ex.recurring_mistakes doc))
