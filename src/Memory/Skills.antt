-- ===== src/Memory/Skills.antt =====
-- The rows of the skill graph: backend/app/models/skill_graph_node.py, and the map from rubric
-- rules to skills at the top of backend/app/services/memory/skill_graph.py.
use interviewcraft.Prelude.{
  ℕ, String, Bool, true, false, Option, List, [], ◌∷◌, ℤ, nat_eq, string_eq, Dict, insert,
}

pub data SkillTrend : Type 0 where
  improving declining stable : SkillTrend

abbrev pub is_declining : SkillTrend → Bool
is_declining declining = true
is_declining _ = false

abbrev pub is_improving : SkillTrend → Bool
is_improving improving = true
is_improving _ = false

abbrev pub skill_categories : Dict String (List String)
skill_categories =
    (
      "system_design",
      "capacity_estimation" ∷ "tradeoff_analysis" ∷ "component_design" ∷ "api_design"
          ∷ "scalability_thinking" ∷ "failure_modes" ∷ [],
    )
    ∷ (
      "behavioral",
      "star_structure" ∷ "quantifiable_results" ∷ "ownership_signal" ∷ "conflict_resolution"
          ∷ "leadership_stories" ∷ "mentoring_signal" ∷ [],
    )
    ∷ (
      "communication",
      "conciseness" ∷ "filler_word_control" ∷ "pacing" ∷ "confidence_under_pressure" ∷ [],
    )
    ∷ (
      "coding_discussion",
      "complexity_analysis" ∷ "edge_cases" ∷ "testing_approach" ∷ "code_review_reasoning" ∷ [],
    )
    ∷ (
      "negotiation",
      "anchoring" ∷ "value_articulation" ∷ "counter_strategy" ∷ "emotional_control" ∷ [],
    )
    ∷ []

unfoldable pub rule_skill_map : Dict String String
rule_skill_map =
    ("no_star_structure", "star_structure")
    ∷ ("missing_result", "quantifiable_results")
    ∷ ("result_not_specific", "quantifiable_results")
    ∷ ("missing_metrics", "quantifiable_results")
    ∷ ("no_tradeoff", "tradeoff_analysis")
    ∷ ("no_assumptions", "capacity_estimation")
    ∷ ("shallow_followup", "conciseness")
    ∷ ("rambling", "conciseness")
    ∷ ("filler_spike", "filler_word_control")
    ∷ ("no_ownership", "ownership_signal")
    ∷ ("no_scale_thinking", "scalability_thinking")
    ∷ ("no_stakeholder_mgmt", "leadership_stories")
    ∷ ("no_mentoring_signal", "mentoring_signal")
    ∷ ("weak_anchor", "anchoring")
    ∷ ("early_concession", "counter_strategy")
    ∷ []

-- The inner loop of the comprehension for `_SKILL_CATEGORY`.
add_skills : String → List String → Dict String String → Dict String String
add_skills cat [] d = d
add_skills cat (s ∷ r) d = add_skills cat r (insert s cat d)

flatten_categories : Dict String (List String) → Dict String String → Dict String String
unfolding add_skills
flatten_categories [] d = d
flatten_categories ((cat, skills) ∷ r) d = flatten_categories r (add_skills cat skills d)

-- `_SKILL_CATEGORY`
unfoldable pub skill_category : Dict String String
unfolding flatten_categories
skill_category = flatten_categories skill_categories []

pub record EvidenceLink : Type 0 where
  pub session_id : String
  pub segment_index : ℕ
  pub score : ℤ
  pub date : String
  pub note : String

-- A row; moments are seconds.
pub record SkillGraphNode : Type 0 where
  pub user_id : ℕ
  pub skill_name : String
  pub category : String
  pub current_score : ℤ
  pub best_score : ℤ
  pub trend : SkillTrend
  pub evidence_links : List EvidenceLink
  pub typical_mistakes : List String
  pub last_practiced : Option ℕ
  pub next_review_due : Option ℕ
