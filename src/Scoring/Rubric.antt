-- ===== src/Scoring/Rubric.antt =====
-- backend/app/services/scoring/rubric.py. The description and the weight of a rule are read by nothing.
use interviewcraft.Prelude.{
  String, ◌≡◌, refl, inl, inr, Bool, ◌||◌, some, List, [], ◌∷◌, map, Bool-cases, filter, All,
  nat_eq, string_eq, IsDistinct, contains, lookup,
}
use interviewcraft.Memory.Skills.{rule_skill_map, skill_category}

pub record Rule : Type 0 where
  pub id : String
  pub name : String
  pub category : String
  pub applies_to : List String

abbrev rule : String → String → String → List String → Rule
rule id name category applies_to = record {
  id = id;
  name = name;
  category = category;
  applies_to = applies_to;
}

unfoldable pub rules : List Rule
rules =
    rule "no_star_structure" "No STAR Structure" "structure" ("behavioral" ∷ "all" ∷ [])
    ∷ rule "missing_result" "No Outcome Stated" "structure" ("all" ∷ [])
    ∷ rule "result_not_specific" "Vague Result" "structure" ("all" ∷ [])
    ∷ rule "missing_metrics" "No Numbers" "structure" ("all" ∷ [])
    ∷ rule "no_tradeoff" "No Tradeoff Discussion" "depth"
        ("system_design" ∷ "behavioral" ∷ "coding_discussion" ∷ [])
    ∷ rule "no_assumptions" "No Stated Assumptions" "depth" ("system_design" ∷ [])
    ∷ rule "shallow_followup" "Couldn't Go Deeper" "depth" ("all" ∷ [])
    ∷ rule "rambling" "Answer Too Long" "communication" ("all" ∷ [])
    ∷ rule "filler_spike" "Excessive Filler Words" "communication" ("all" ∷ [])
    ∷ rule "no_ownership" "No Clear Ownership" "communication" ("behavioral" ∷ [])
    ∷ rule "no_scale_thinking" "No Scale / Growth Thinking" "seniority_signal"
        ("system_design" ∷ "coding_discussion" ∷ [])
    ∷ rule "no_stakeholder_mgmt" "No Stakeholder Management" "seniority_signal" ("behavioral" ∷ [])
    ∷ rule "no_mentoring_signal" "No Team Growth / Mentoring" "seniority_signal" ("behavioral" ∷ [])
    ∷ rule "weak_anchor" "Weak First Anchor" "seniority_signal" ("negotiation" ∷ [])
    ∷ rule "early_concession" "Early Concession" "seniority_signal" ("negotiation" ∷ [])
    ∷ []

unfoldable pub rules_for_question_type : String → List Rule
rules_for_question_type question_type =
    filter (λ r. contains "all" (Rule.applies_to r) || contains question_type (Rule.applies_to r))
      rules

-- A rule's skill and the category of the skill are known.
abbrev pub IsMapped : Rule → Type 0
IsMapped r =
    (skill : String) × (category : String) × (lookup r.id rule_skill_map ≡ some skill)
    × (lookup skill skill_category ≡ some category)

All-filter :
    {A : Type 0} (P : A → Type 0) (p : A → Bool) (xs : List A) → All P xs → All P (filter p xs)
All-filter P p [] h = tt
All-filter P p (x ∷ xs) h = elim (Bool-cases (p x)) [
  | inl t ↦ rw t (h.0, All-filter P p xs h.1)
  | inr f ↦ rw f (All-filter P p xs h.1)
]

rules-IsMapped : All IsMapped rules
unfolding rules rule_skill_map skill_category
rules-IsMapped = (
  ("star_structure", "behavioral", refl, refl),
  (
    ("quantifiable_results", "behavioral", refl, refl),
    (
      ("quantifiable_results", "behavioral", refl, refl),
      (
        ("quantifiable_results", "behavioral", refl, refl),
        (
          ("tradeoff_analysis", "system_design", refl, refl),
          (
            ("capacity_estimation", "system_design", refl, refl),
            (
              ("conciseness", "communication", refl, refl),
              (
                ("conciseness", "communication", refl, refl),
                (
                  ("filler_word_control", "communication", refl, refl),
                  (
                    ("ownership_signal", "behavioral", refl, refl),
                    (
                      ("scalability_thinking", "system_design", refl, refl),
                      (
                        ("leadership_stories", "behavioral", refl, refl),
                        (
                          ("mentoring_signal", "behavioral", refl, refl),
                          (
                            ("anchoring", "negotiation", refl, refl),
                            (("counter_strategy", "negotiation", refl, refl), tt),
                          ),
                        ),
                      ),
                    ),
                  ),
                ),
              ),
            ),
          ),
        ),
      ),
    ),
  ),
)

rules-IsDistinct : IsDistinct (map (λ r. Rule.id r) rules)
unfolding rules
rules-IsDistinct = (
  refl,
  (
    refl,
    (
      refl,
      (
        refl,
        (refl, (refl, (refl, (refl, (refl, (refl, (refl, (refl, (refl, (refl, (refl, tt))))))))))),
      ),
    ),
  ),
)

-- Whatever the type of the question, each rule that its answer is scored by has a skill in the skill
-- graph, and the skill a category; the rules' ids are distinct.
pub rules_for_question_type-IsMapped :
    (question_type : String)
    → All IsMapped (rules_for_question_type question_type) × IsDistinct (map (λ r. Rule.id r) rules)
unfolding rules_for_question_type
rules_for_question_type-IsMapped question_type =
    (All-filter IsMapped _ rules rules-IsMapped, rules-IsDistinct)
