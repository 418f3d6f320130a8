-- ===== src/Memory/Builder/Mistakes.antt =====
-- The recurring mistakes of the document that a session leaves: those before it and those of its
-- extraction, the last six.
use interviewcraft.Prelude.{
  ℕ, ◌+◌, String, ◌≡◌, refl, sym, ap, ◌∙◌, subst, inl, inr, Bool, true, false, not, ◌&&◌, Option,
  none, some, List, [], ◌∷◌, arith, Bool-cases, take_last, nat_eq, string_eq, is_empty,
}
use interviewcraft.Memory.Documents.{MemoryDocument, Story, UserMemory, Tables, snapshots}
use interviewcraft.Memory.Skills.{SkillGraphNode}
use interviewcraft.Memory.Builder.{
  Json, with_communication, with_focus, with_coaching, with_stats, with_mistakes, Extraction,
  StoryDetected, rebuilt, merge_story, merge_titled, merged, merge_extraction, write_memory,
  document_of, memory_of, upsert_story, append_new, with_best_stories, top_stories, session_average,
}
use interviewcraft.Memory.Builder.Sessions.{
  Writes, built, triggered, uncached, extract, extracted, build_memory, max_extraction_retries,
  triggered-IsKeptRow, uncached-memory,
}

-- The row has a document with these recurring mistakes.
abbrev pub HasMistakes : List String → Tables → Type 0
HasMistakes mistakes tables =
    (memory : UserMemory) × (doc : MemoryDocument) × (tables.memory ≡ some memory)
    × (memory.memory_document ≡ some doc)
    × (doc.recurring_mistakes ≡ mistakes)

-- What the merge writes after the mistakes leaves them.
communication-kept :
    (notes : List String) (doc : MemoryDocument)
    → (with_communication notes doc).recurring_mistakes ≡ doc.recurring_mistakes
unfolding with_communication
communication-kept [] doc = refl
communication-kept (note ∷ notes) doc = refl

coaching-kept :
    (js : Json) (o : Option String) (doc : MemoryDocument)
    → (with_coaching js o doc).recurring_mistakes ≡ doc.recurring_mistakes
unfolding with_coaching
coaching-kept js none doc = refl
coaching-kept js (some coaching) doc = ground arith

focus-kept :
    (o : Option String) (doc : MemoryDocument)
    → (with_focus o doc).recurring_mistakes ≡ doc.recurring_mistakes
unfolding with_focus
focus-kept none doc = refl
focus-kept (some focus) doc = ground arith

snapshots-kept :
    (skills : List SkillGraphNode) (doc : MemoryDocument)
    → (snapshots skills doc).recurring_mistakes ≡ doc.recurring_mistakes
unfolding snapshots
snapshots-kept [] doc = refl
snapshots-kept (s ∷ skills) doc = refl

stats-kept :
    (scores : List ℕ) (doc : MemoryDocument)
    → (with_stats scores doc).recurring_mistakes ≡ doc.recurring_mistakes
unfolding with_stats
stats-kept [] doc = refl
stats-kept (s ∷ scores) doc = refl

-- The document that the story leaves, if it leaves one.
abbrev IsKept : List String → Option (List Story × MemoryDocument) → Type 0
IsKept mistakes none = Unit
IsKept mistakes (some (stories, doc)) = doc.recurring_mistakes ≡ mistakes

best_stories-kept :
    (top : List Story) (doc : MemoryDocument)
    → (with_best_stories top doc).recurring_mistakes ≡ doc.recurring_mistakes
unfolding with_best_stories
best_stories-kept [] doc = refl
best_stories-kept (s ∷ top) doc = refl

rebuilt-IsKept :
    (upserted : Option (List Story)) (doc : MemoryDocument)
    → IsKept doc.recurring_mistakes (rebuilt upserted doc)
unfolding rebuilt
rebuilt-IsKept none doc = tt
rebuilt-IsKept (some stories) doc = best_stories-kept (top_stories stories) doc

merge_titled-IsKept :
    (title : Option String) (detected : StoryDetected) (scores : List ℕ) (stories : List Story)
    (doc : MemoryDocument)
    → IsKept doc.recurring_mistakes (merge_titled title detected scores stories doc)
unfolding merge_titled
merge_titled-IsKept none detected scores stories doc = refl
merge_titled-IsKept (some title) detected scores stories doc =
    elim (Bool-cases (detected.found && not (is_empty title))) [
      | inl y ↦
          rw y (rebuilt-IsKept (upsert_story title detected (session_average scores) stories) doc)
      | inr n ↦ rw n refl
    ]

abbrev IsObserved : List String → Option Tables → Type 0
IsObserved mistakes none = Unit
IsObserved mistakes (some tables) = HasMistakes mistakes tables

merged-IsObserved :
    (js : Json) (ex : Extraction) (scores : List ℕ) (tables : Tables) (mistakes : List String)
    (o : Option (List Story × MemoryDocument))
    → IsKept mistakes o
    → IsObserved mistakes (merged js ex scores tables o)
unfolding merged write_memory
merged-IsObserved js ex scores tables mistakes none h = tt
merged-IsObserved js ex scores tables mistakes (some (stories, doc)) h =
    let doc1 = with_communication ex.communication_observations doc in
    let doc2 = with_coaching js ex.coaching_observation doc1 in
    let doc3 = with_focus ex.focus_suggestion doc2 in
    let doc4 = snapshots tables.skills doc3 in
    (
      write_memory js (with_stats scores doc4) (memory_of tables),
      with_stats scores doc4,
      refl,
      refl,
      stats-kept scores doc4
          ∙ (snapshots-kept tables.skills doc3
              ∙ (focus-kept ex.focus_suggestion doc2
                  ∙ (coaching-kept js ex.coaching_observation doc1
                      ∙ (communication-kept ex.communication_observations doc ∙ h)))),
    )

abbrev pub mistakes_after : Extraction → Tables → List String
mistakes_after ex tables =
    take_last 6
      (append_new (document_of (memory_of tables)).recurring_mistakes ex.recurring_mistakes)

merge_extraction-IsObserved :
    (js : Json) (ex : Extraction) (scores : List ℕ) (tables : Tables)
    → IsObserved (mistakes_after ex tables) (merge_extraction js ex scores tables)
unfolding merge_extraction merge_story with_mistakes
merge_extraction-IsObserved js ex scores tables =
    merged-IsObserved js ex scores tables (mistakes_after ex tables) _ (
      merge_titled-IsKept ex.story_detected.title ex.story_detected scores tables.stories
        (with_mistakes ex.recurring_mistakes (document_of (memory_of tables))))

abbrev IsBuiltOf : List String → Bool × Tables → Type 0
IsBuiltOf mistakes (false, after) = Unit
IsBuiltOf mistakes (true, after) = HasMistakes mistakes after

built-IsBuiltOf :
    (created : Option String) (writes : Writes) (tables : Tables) (mistakes : List String)
    (o : Option Tables)
    → IsObserved mistakes o
    → IsBuiltOf mistakes (built created writes tables o)
unfolding built
built-IsBuiltOf created writes tables mistakes none h = tt
built-IsBuiltOf created writes tables mistakes (some merged) (memory, doc, e, d, same) =
    let fresh = uncached writes.cache_deleted merged in
    let row = uncached-memory writes.cache_deleted merged ∙ e in
    let (m, after, kept, version, cache) = triggered-IsKeptRow created memory fresh row in
    elim (Bool-cases writes.committed) [
      | inr n ↦ rw n tt
      | inl y ↦ rw y (
          subst (λ o. IsBuiltOf mistakes (true, triggered created o fresh)) (sym e)
            (m, doc, after, kept ∙ d, same))
    ]

succeeded :
    (mistakes : List String) (r : Bool × Tables)
    → r.0 ≡ true
    → IsBuiltOf mistakes r
    → HasMistakes mistakes r.1
succeeded mistakes (true, after) ok h = h
succeeded mistakes (false, after) ok h = absurd cc

-- The row that a build leaves which succeeds with an extraction.
pub build_memory-HasMistakes :
    (js : Json) (call : ℕ → Option Extraction) (created : Option String) (writes : Writes)
    (scores : List ℕ) (tables : Tables) (ex : Extraction)
    → extract (max_extraction_retries + 1) call 0 ≡ some ex
    → (build_memory js call created writes scores tables).0 ≡ true
    → HasMistakes (mistakes_after ex tables) (build_memory js call created writes scores tables).1
unfolding build_memory extracted
build_memory-HasMistakes js call created writes [] tables ex e ok = absurd cc
build_memory-HasMistakes js call created writes (s ∷ scores) tables ex e ok =
    let o = merge_extraction js ex (s ∷ scores) tables in
    let taken : build_memory js call created writes (s ∷ scores) tables
        ≡ built created writes tables o =
      ap (λ x. extracted js created writes (s ∷ scores) tables x) e in
    succeeded (mistakes_after ex tables) (build_memory js call created writes (s ∷ scores) tables)
      ok
      (subst (λ r. IsBuiltOf (mistakes_after ex tables) r) (sym taken)
        (built-IsBuiltOf created writes tables (mistakes_after ex tables) o
          (merge_extraction-IsObserved js ex (s ∷ scores) tables)))
