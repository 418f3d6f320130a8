-- ===== src/Memory/Loader/Format.antt =====
-- `_format_memory_block` of backend/app/services/memory/loader.py: the lines of the prompt's block.
use interviewcraft.Prelude.{
  ℕ, ◌+◌, String, Option, none, some, List, [], ◌∷◌, ◌++◌, map, ◌==ℕ◌, if◌then◌else◌, length, pos,
  nat_eq, string_eq, concat, join, is_empty, Runtime,
}
use interviewcraft.Memory.Skills.{SkillTrend, improving, declining, stable}
use interviewcraft.Memory.Documents.{BestStory, CoachingInsight, SkillSnapshot, MemoryDocument}

-- The texts of an optional value, none where it is missing or empty.
unfoldable pub given : Option String → List String
given none = []
given (some text) = if is_empty text then [] else text ∷ []

unfoldable pub trend_text : SkillTrend → String
trend_text improving = "improving"
trend_text declining = "declining"
trend_text stable = "stable"

module _ (rt : Runtime) where
  abbrev pub str : ℕ → String
  str n = rt.str_int (pos n)

  -- The lines of a section, or none where it has nothing to show.
  unfoldable pub section : String → List String → List String
  section title [] = []
  section title (line ∷ lines) = title ∷ line ∷ lines ++ ("" ∷ [])

  -- A title with the number of its entries between two texts.
  unfoldable pub counted : String → ℕ → String → String
  unfolding concat
  counted before n after = concat (before ∷ " [" ∷ str n ∷ after ∷ [])

  unfoldable pub numbered : {A : Type 0} → (A → List String) → ℕ → List A → List String
  unfolding concat
  numbered f i [] = []
  numbered f i (x ∷ xs) = concat (str i ∷ ". " ∷ f x) ∷ numbered f (i + 1) xs

  -- The line of a label with these texts, or none.
  unfoldable pub labelled : String → List String → List String
  unfolding concat join
  labelled label [] = []
  labelled label (t ∷ texts) = concat (label ∷ join ", " (t ∷ texts) ∷ []) ∷ []

  unfoldable pub career_lines : MemoryDocument → List String
  unfolding labelled given
  career_lines doc =
      labelled "- Target role: " (given doc.target_role ++ given doc.target_level)
      ++ (labelled "- Target companies: " doc.target_companies
          ++ labelled "- Goal: " (given doc.career_goal))

  unfoldable pub skill_parts : SkillSnapshot → List String
  unfolding trend_text
  skill_parts s = s.skill ∷ " (" ∷ rt.str_int s.score ∷ ", " ∷ trend_text s.trend ∷ ")" ∷ []

  unfoldable pub skill_mistakes : List SkillSnapshot → List String
  unfolding concat given
  skill_mistakes [] = []
  skill_mistakes (s ∷ rest) =
      map (λ mistake. concat ("- " ∷ s.skill ∷ ": " ∷ mistake ∷ [])) (given s.top_mistake)
      ++ skill_mistakes rest

  unfoldable pub story_parts : BestStory → List String
  unfolding concat join given
  story_parts s =
      "\""
      ∷ s.title
      ∷ "\" (score "
      ∷ str s.best_score
      ∷ ") -- "
      ∷ join ", " s.competencies
      ∷ map (λ tip. concat (" -- Tip: " ∷ tip ∷ [])) (given s.tip)

  unfoldable pub insight_parts : CoachingInsight → List String
  insight_parts ci = "[observed " ∷ str ci.evidence_count ∷ "x] " ∷ ci.insight ∷ []

  -- The focus and the statistics.
  unfoldable pub last_lines : MemoryDocument → List String
  unfolding concat given
  last_lines doc =
      let focus_lines : List String = elim (given doc.current_focus) [
        | [] ↦ []
        | f ∷ fs ↦ concat ("Current focus: " ∷ f ∷ []) ∷ "" ∷ []
      ] in
      let stats_lines : List String = elim doc.avg_score [
        | none ↦ []
        | some avg ↦
            concat (
              "Session stats: "
              ∷ str doc.total_sessions
              ∷ " sessions completed, average score "
              ∷ str avg
              ∷ [])
            ∷ []
      ] in
      focus_lines ++ stats_lines

  -- `_format_memory_block`, as the lines that it joins; no line is the empty block.
  unfoldable pub format_lines : MemoryDocument → List String
  unfolding section counted numbered career_lines skill_parts skill_mistakes story_parts
      insight_parts last_lines concat given
  format_lines doc =
      if doc.total_sessions ==ℕ 0
      then []
      else ("MEMORY CONTEXT -- RETURNING CANDIDATE:"
          ∷ concat (
              "You have coached this candidate across "
              ∷ str doc.total_sessions
              ∷ " previous sessions. Use the following context"
              ∷ [])
          ∷ "to personalize your questions and coaching. This context is a summary -- it may be"
          ∷ "slightly outdated or incomplete. Prioritize what you observe in THIS session over"
          ∷ "stored memory if they conflict."
          ∷ ""
          ∷ [])
        ++ (section "Career:" (career_lines doc)
            ++ (section
                  (counted "Weakest areas (focus your probing here)" (length doc.weakest_skills)
                    " tracked]:")
                  (numbered skill_parts 1 doc.weakest_skills)
                ++ (section
                      (counted "Common mistakes by skill"
                        (length (skill_mistakes doc.weakest_skills)) " noted, from skill history]:")
                      (skill_mistakes doc.weakest_skills)
                    ++ (section
                          (counted "Strongest areas" (length doc.strongest_skills) " tracked]:")
                          (numbered skill_parts 1 doc.strongest_skills)
                        ++ (section
                              (counted "Recurring session mistakes" (length doc.recurring_mistakes)
                                " recorded, most recent last]:")
                              (numbered (λ m. m ∷ []) 1 doc.recurring_mistakes)
                            ++ (section
                                  (counted "Best stories (reference naturally if relevant)"
                                    (length doc.best_stories) " total]:")
                                  (numbered story_parts 1 doc.best_stories)
                                ++ (section
                                      (counted "Communication patterns"
                                        (length doc.communication_notes) " observed]:")
                                      (numbered (λ note. note ∷ []) 1 doc.communication_notes)
                                    ++ (section
                                          (counted "Coaching notes" (length doc.coaching_insights)
                                            " recorded]:")
                                          (numbered insight_parts 1 doc.coaching_insights)
                                        ++ (last_lines doc)))))))))
