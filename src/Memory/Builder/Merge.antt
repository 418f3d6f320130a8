-- ===== src/Memory/Builder/Merge.antt =====
-- What the merge of a session keeps of the memory document.
use interviewcraft.Prelude.{
  ℕ, ◌+◌, String, ◌≡◌, refl, inl, inr, not, ◌&&◌, Option, none, some, List, ltb, Bool-cases, nat_eq,
  string_eq, is_empty, sorted_reverse,
}
use interviewcraft.Memory.Documents.{MemoryDocument, Story, UserMemory, Tables, snapshots}
use interviewcraft.Memory.Builder.{
  session_average, Json, with_communication, with_focus, with_coaching, with_stats, with_mistakes,
  Extraction, StoryDetected, rebuilt, merge_story, merge_titled, merged, merge_extraction,
  write_memory, top_stories, document_of, memory_of, upsert_story, score_rank,
}
use interviewcraft.Memory.Builder.Average.{IsScored}
use interviewcraft.Memory.Builder.Limits.{
  IsBounded, length-take_le, with_mistakes-IsBounded, with_communication-IsBounded,
  with_coaching-IsBounded, with_focus-IsBounded, snapshots-IsBounded, with_best_stories-IsBounded,
  with_stats-IsBounded,
}

-- What the row of the candidate is after the merge, of the row before it.
abbrev pub IsMerged : UserMemory → UserMemory → Type 0
IsMerged before after =
    (doc : MemoryDocument) × (after.memory_document ≡ some doc)
    × IsBounded ((document_of before).total_sessions + 1) doc
    × (after.version ≡ before.version + 1)
    × (after.sessions_since_consolidation ≡ before.sessions_since_consolidation + 1)
    × (after.batch_job_id ≡ before.batch_job_id)

abbrev pub IsMergedTables : Tables → Option Tables → Type 0
IsMergedTables tables none = Unit
IsMergedTables tables (some after) =
    (memory : UserMemory) × (after.memory ≡ some memory) × IsMerged (memory_of tables) memory

merged-IsMergedTables :
    (js : Json) (ex : Extraction) (scores : List ℕ) (tables : Tables) (stories : List Story)
    (doc : MemoryDocument)
    → IsScored scores
    → IsBounded (document_of (memory_of tables)).total_sessions doc
    → IsMergedTables tables (merged js ex scores tables (some (stories, doc)))
unfolding merged write_memory
merged-IsMergedTables js ex scores tables stories doc scored h =
    let doc1 = with_communication ex.communication_observations doc in
    let doc2 = with_coaching js ex.coaching_observation doc1 in
    let doc3 = with_focus ex.focus_suggestion doc2 in
    let h1 = with_communication-IsBounded ex.communication_observations doc h in
    let h2 = with_coaching-IsBounded js ex.coaching_observation doc1 h1 in
    let h3 =
      snapshots-IsBounded tables.skills doc3 (with_focus-IsBounded ex.focus_suggestion doc2 h2) in
    let h4 = with_stats-IsBounded scores (snapshots tables.skills doc3) scored h3 in
    (
      write_memory js (with_stats scores (snapshots tables.skills doc3)) (memory_of tables),
      refl,
      (with_stats scores (snapshots tables.skills doc3), refl, h4, refl, refl, refl),
    )

-- The story that a merge goes on with leaves the document within its limits.
abbrev IsStoryMerged : ℕ → Option (List Story × MemoryDocument) → Type 0
IsStoryMerged total none = Unit
IsStoryMerged total (some (stories, doc)) = IsBounded total doc

rebuilt-IsStoryMerged :
    {total : ℕ} (upserted : Option (List Story)) (doc : MemoryDocument)
    → IsBounded total doc
    → IsStoryMerged total (rebuilt upserted doc)
unfolding rebuilt
rebuilt-IsStoryMerged none doc h = tt
rebuilt-IsStoryMerged (some stories) doc h =
    with_best_stories-IsBounded (top_stories stories) doc
      (length-take_le 4 (sorted_reverse ltb score_rank stories)) h

merge_titled-IsStoryMerged :
    {total : ℕ} (title : Option String) (detected : StoryDetected) (scores : List ℕ)
    (stories : List Story) (doc : MemoryDocument)
    → IsBounded total doc
    → IsStoryMerged total (merge_titled title detected scores stories doc)
unfolding merge_titled
merge_titled-IsStoryMerged none detected scores stories doc h = h
merge_titled-IsStoryMerged (some title) detected scores stories doc h =
    elim (Bool-cases (detected.found && not (is_empty title))) [
      | inl y ↦ rw y (
          rebuilt-IsStoryMerged (upsert_story title detected (session_average scores) stories) doc
            h)
      | inr n ↦ rw n h
    ]

merged-story :
    (js : Json) (ex : Extraction) (scores : List ℕ) (tables : Tables)
    (o : Option (List Story × MemoryDocument))
    → IsScored scores
    → IsStoryMerged (document_of (memory_of tables)).total_sessions o
    → IsMergedTables tables (merged js ex scores tables o)
unfolding merged
merged-story js ex scores tables none scored h = tt
merged-story js ex scores tables (some (stories, doc)) scored h =
    merged-IsMergedTables js ex scores tables stories doc scored h

-- The merge of any extraction into a document within the limits is within the limits, with one more
-- session counted; the row has its next version, and its pending job is kept.
pub merge_extraction-IsMergedTables :
    (js : Json) (ex : Extraction) (scores : List ℕ) (tables : Tables)
    → IsScored scores
    → (let doc = document_of (memory_of tables) in IsBounded doc.total_sessions doc)
    → IsMergedTables tables (merge_extraction js ex scores tables)
unfolding merge_extraction merge_story
merge_extraction-IsMergedTables js ex scores tables scored h =
    let doc = document_of (memory_of tables) in
    let mistaken = with_mistakes ex.recurring_mistakes doc in
    merged-story js ex scores tables (merge_story ex.story_detected scores tables.stories mistaken)
      scored
      (merge_titled-IsStoryMerged ex.story_detected.title ex.story_detected scores tables.stories
        mistaken (with_mistakes-IsBounded ex.recurring_mistakes doc h))
