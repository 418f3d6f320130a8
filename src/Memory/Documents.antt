-- ===== src/Memory/Documents.antt =====
-- The memory document of a candidate (backend/app/models/user_memory.py, with the keys that
-- backend/app/services/memory writes), and the rows of the tables it is built from. A list that a
-- document does not have is an empty one.
use interviewcraft.Prelude.{
  ℕ, String, Bool, Option, none, some, List, [], ◌∷◌, map, length, take, ℤ, ltb_ℤ, nat_eq,
  string_eq, sorted_reverse,
}
use interviewcraft.Memory.Skills.{SkillTrend, SkillGraphNode}

pub record BestStory : Type 0 where
  pub title : String
  pub best_score : ℕ
  pub competencies : List String
  pub tip : Option String

pub record CoachingInsight : Type 0 where
  pub insight : String
  pub evidence_count : ℕ

pub record SkillSnapshot : Type 0 where
  pub skill : String
  pub score : ℤ
  pub trend : SkillTrend
  pub top_mistake : Option String
  pub sessions_practiced : ℕ

pub record MemoryDocument : Type 0 where
  pub recurring_mistakes : List String
  pub best_stories : List BestStory
  pub communication_notes : List String
  pub coaching_insights : List CoachingInsight
  pub current_focus : Option String
  pub weakest_skills : List SkillSnapshot
  pub strongest_skills : List SkillSnapshot
  pub total_sessions : ℕ
  pub avg_score : Option ℕ
  pub target_role : Option String
  pub target_level : Option String
  pub target_companies : List String
  pub career_goal : Option String

abbrev pub empty_document : MemoryDocument
empty_document = record {
  recurring_mistakes = [];
  best_stories = [];
  communication_notes = [];
  coaching_insights = [];
  current_focus = none;
  weakest_skills = [];
  strongest_skills = [];
  total_sessions = 0;
  avg_score = none;
  target_role = none;
  target_level = none;
  target_companies = [];
  career_goal = none;
}

-- A row of `user_memories`; the document `{}` is `none`.
pub record UserMemory : Type 0 where
  pub memory_document : Option MemoryDocument
  pub version : ℕ
  pub token_count : ℕ
  pub sessions_since_consolidation : ℕ
  pub batch_job_id : Option String

-- The row of a candidate without one, with the defaults of its columns.
abbrev pub new_memory : UserMemory
new_memory = record {
  memory_document = none;
  version = 1;
  token_count = 0;
  sessions_since_consolidation = 0;
  batch_job_id = none;
}

-- A row of `stories`.
pub record Story : Type 0 where
  pub title : String
  pub summary : String
  pub competencies : List String
  pub best_score_with_this_story : Option ℕ
  pub times_used : ℕ
  pub auto_detected : Bool

-- One candidate's rows, and what Redis holds under `memory:{user_id}`.
pub record Tables : Type 0 where
  pub cache : Option String
  pub memory : Option UserMemory
  pub stories : List Story
  pub skills : List SkillGraphNode

-- The first mistake of a skill that has one.
unfoldable pub first_mistake : SkillGraphNode → Option String
first_mistake s = elim s.typical_mistakes [ [] ↦ none | m ∷ ms ↦ some m ]

unfoldable pub weak_snapshot : SkillGraphNode → SkillSnapshot
weak_snapshot s = record {
  skill = s.skill_name;
  score = s.current_score;
  trend = s.trend;
  top_mistake = first_mistake s;
  sessions_practiced = length s.evidence_links;
}

unfoldable pub strong_snapshot : SkillGraphNode → SkillSnapshot
strong_snapshot s = record {
  skill = s.skill_name;
  score = s.current_score;
  trend = s.trend;
  top_mistake = none;
  sessions_practiced = length s.evidence_links;
}

-- `order_by(SkillGraphNode.current_score)`, rows with equal scores in the order of the table.
abbrev pub by_score : List SkillGraphNode → List SkillGraphNode
by_score skills = sorted_reverse (λ a b. ltb_ℤ b a) (λ s. s.current_score) skills

-- `sorted(all_skills, key=lambda s: s.current_score, reverse=True)`
abbrev pub by_score_reverse : List SkillGraphNode → List SkillGraphNode
by_score_reverse skills = sorted_reverse ltb_ℤ (λ s. s.current_score) skills

unfoldable pub snapshots : List SkillGraphNode → MemoryDocument → MemoryDocument
snapshots [] doc = doc
snapshots (s ∷ skills) doc =
    let all_skills = by_score (s ∷ skills) in
    record doc {
      weakest_skills = map weak_snapshot (take 4 all_skills);
      strongest_skills = map strong_snapshot (take 4 (by_score_reverse all_skills));
    }
