-- ===== src/Scoring/Sessions/Stories.antt =====
-- A story that the scoring of two sessions detects, and the merge of the memory after them.
use interviewcraft.Prelude.{
  ℕ, ◌+◌, ◌≤◌, String, ◌≡◌, refl, sym, ap, ◌∙◌, subst, inl, inr, true, false, not, ◌&&◌, Option,
  none, some, List, [], ◌∷◌, ◌++◌, arith, Bool-cases, length, filter, nat_eq, string_eq, ==_refl,
  contains, is_empty,
}
use interviewcraft.Memory.Documents.{MemoryDocument, Story, Tables}
use interviewcraft.Memory.Builder.{
  StoryDetected, Json, session_average, Extraction, document_of, memory_of, more_rows, rows_of,
  has_title, upsert_story, rebuilt, merge_titled, merge_story, merged, merge_extraction,
  with_mistakes,
}
use interviewcraft.Scoring.Sessions.{
  ScoredSegment, StoryTexts, title_of, detected_story, add_titled, add_stories, stories_after,
}

-- How many stories of a table have a title.
abbrev pub count_title : String → List Story → ℕ
count_title title stories = length (filter (has_title title) stories)

count_append :
    (title : String) (xs ys : List Story)
    → count_title title (xs ++ ys) ≡ count_title title xs + count_title title ys
count_append title [] ys = omega arith
count_append title (x ∷ xs) ys = ground (arith, count_append title xs ys)

-- No story is taken away.
add_titled_grows :
    (st : StoryTexts) (title : String) (o : Option String) (s : ScoredSegment) (seen : List String)
    (stories : List Story)
    → count_title title stories ≤ count_title title (add_titled st o s (seen, stories)).1
unfolding add_titled
add_titled_grows st title none s seen stories = omega arith
add_titled_grows st title (some t) s seen stories = elim (Bool-cases (contains t seen)) [
  | inl y ↦ rw y (omega arith)
  | inr n ↦ rw n (omega (arith, count_append title stories (detected_story st t s ∷ [])))
]

add_stories_grows :
    (st : StoryTexts) (title : String) (results : List (Option ScoredSegment)) (seen : List String)
    (stories : List Story)
    → count_title title stories ≤ count_title title (add_stories st results (seen, stories)).1
unfolding add_stories
add_stories_grows st title [] seen stories = omega arith
add_stories_grows st title (none ∷ results) seen stories =
    add_stories_grows st title results seen stories
add_stories_grows st title (some s ∷ results) seen stories =
    let found = title_of st s.story_detected s.story_title in
    let t = add_titled st found s (seen, stories) in
    omega (
      arith,
      add_titled_grows st title found s seen stories,
      add_stories_grows st title results t.0 t.1,
    )

one_more :
    (st : StoryTexts) (title : String) (s : ScoredSegment) (results : List (Option ScoredSegment))
    (stories : List Story)
    → title_of st s.story_detected s.story_title ≡ some title
    → count_title title stories + 1
      ≤ count_title title (stories_after st (some s ∷ results) stories)
unfolding stories_after add_stories add_titled
one_more st title s results stories e =
    let own : count_title title (detected_story st title s ∷ []) ≡ 1 = rw (==_refl title) refl in
    subst
      (λ o.
        count_title title stories + 1
        ≤ count_title title (add_stories st results (add_titled st o s ([], stories))).1)
      (sym e)
      (omega (
        arith,
        own,
        count_append title stories (detected_story st title s ∷ []),
        add_stories_grows st title results (title ∷ [])
            (stories ++ (detected_story st title s ∷ [])),
      ))

rows_of_many : (xs : List Story) → 2 ≤ length xs → rows_of xs ≡ more_rows
unfolding rows_of
rows_of_many [] h = absurd (omega arith)
rows_of_many (x ∷ []) h = absurd (omega arith)
rows_of_many (x ∷ y ∷ xs) h = refl

upsert_many :
    (title : String) (detected : StoryDetected) (score : ℕ) (stories : List Story)
    → 2 ≤ count_title title stories
    → upsert_story title detected score stories ≡ none
unfolding upsert_story
upsert_many title detected score stories many =
    rw (upsert_story, rows_of_many (filter (has_title title) stories) many) refl

merge_titled_many :
    (title : String) (detected : StoryDetected) (scores : List ℕ) (stories : List Story)
    (doc : MemoryDocument)
    → 2 ≤ count_title title stories
    → detected.found ≡ true
    → is_empty title ≡ false
    → merge_titled (some title) detected scores stories doc ≡ none
unfolding merge_titled rebuilt
merge_titled_many title detected scores stories doc many found filled =
    let test : (detected.found && not (is_empty title)) ≡ true = ground (arith, found, filled) in
    rw (test, upsert_many title detected (session_average scores) stories many) refl

merge_many :
    (js : Json) (ex : Extraction) (title : String) (scores : List ℕ) (tables : Tables)
    → 2 ≤ count_title title tables.stories
    → ex.story_detected.title ≡ some title
    → ex.story_detected.found ≡ true
    → is_empty title ≡ false
    → merge_extraction js ex scores tables ≡ none
unfolding merge_extraction merge_story merged
merge_many js ex title scores tables many t found filled =
    let doc = with_mistakes ex.recurring_mistakes (document_of (memory_of tables)) in
    ap
      (λ o. merged js ex scores tables (merge_titled o ex.story_detected scores tables.stories doc))
      t
    ∙ ap (merged js ex scores tables)
        (merge_titled_many title ex.story_detected scores tables.stories doc many found filled)

-- Once the scoring of two sessions has detected a story of the same title, both as the first scored
-- segment, the table has it twice, and every merge of an extraction with that story fails.
pub merge_extraction-twice :
    (st : StoryTexts) (js : Json) (title : String) (s1 s2 : ScoredSegment)
    (rest1 rest2 : List (Option ScoredSegment)) (ex : Extraction) (scores : List ℕ)
    (tables : Tables)
    → title_of st s1.story_detected s1.story_title ≡ some title
    → title_of st s2.story_detected s2.story_title ≡ some title
    → ex.story_detected.title ≡ some title
    → ex.story_detected.found ≡ true
    → is_empty title ≡ false
    → let first = stories_after st (some s1 ∷ rest1) tables.stories in
      let both = stories_after st (some s2 ∷ rest2) first in
      merge_extraction js ex scores (record tables { stories = both }) ≡ none
merge_extraction-twice st js title s1 s2 rest1 rest2 ex scores tables e1 e2 t found filled =
    let first = stories_after st (some s1 ∷ rest1) tables.stories in
    let both = stories_after st (some s2 ∷ rest2) first in
    merge_many js ex title scores (record tables { stories = both })
      (omega
        (arith, one_more st title s1 rest1 tables.stories e1, one_more st title s2 rest2 first e2))
      t found filled
