-- ===== src/Memory/SkillGraph.antt =====
-- `SkillGraphService` of backend/app/services/memory/skill_graph.py. The table is the list of its
-- rows; a session's changes are written where the service assigns to a row's columns.
pub mod Schedule
pub mod Scores
pub mod Rows
pub mod Signals
pub mod Table
pub mod Update
mod Tests
use interviewcraft.Prelude.{
  ℕ, ◌+◌, ◌-◌, ◌*◌, String, Bool, not, ◌&&◌, ◌||◌, Option, none, some, get_or, List, [], ◌∷◌, ◌++◌,
  map, ◌==ℕ◌, if◌then◌else◌, take_last, find?, ℤ, pos, negsuc, ltb_ℤ, leb_ℤ, max_ℤ, min_ℤ, ◌+ℤ◌,
  ◌-ℤ◌, floor_div, ◌==◌, nat_eq, string_eq, contains, Dict, lookup, insert, has_key, concat,
  is_empty, Runtime,
}
use interviewcraft.Memory.Skills.{
  SkillTrend, improving, declining, stable, is_declining, rule_skill_map, skill_category,
  EvidenceLink, SkillGraphNode,
}

-- `_next_review_days`
unfoldable pub next_review_days : ℤ → SkillTrend → ℕ
next_review_days score trend =
    if ltb_ℤ score (pos 40)
    then 1
    else if ltb_ℤ score (pos 60)
    then (if is_declining trend then 3 else 4)
    else if ltb_ℤ score (pos 80)
    then (if is_declining trend then 7 else 10)
    else if is_declining trend
    then 7
    else 14

-- `_compute_trend`
unfoldable pub compute_trend : ℤ → ℤ → SkillTrend
compute_trend old_score new_score =
    let delta = new_score -ℤ old_score in
    if leb_ℤ (pos 5) delta then improving else if leb_ℤ delta (negsuc 4) then declining else stable

-- The filter of `get_or_create_node` and of the service's other queries.
abbrev pub is_row : ℕ → String → SkillGraphNode → Bool
is_row user skill n = n.user_id ==ℕ user && n.skill_name == skill

unfoldable pub new_node : ℕ → String → SkillGraphNode
unfolding skill_category
new_node user skill = record {
  user_id = user;
  skill_name = skill;
  category = get_or (lookup skill skill_category) "other";
  current_score = pos 0;
  best_score = pos 0;
  trend = stable;
  evidence_links = [];
  typical_mistakes = [];
  last_practiced = none;
  next_review_due = none;
}

-- The table's unique constraint lets one row match at most. The new row is flushed to the table.
unfoldable pub get_or_create_node :
    ℕ → String → List SkillGraphNode → SkillGraphNode × List SkillGraphNode
get_or_create_node user skill table = elim (find? (is_row user skill) table) [
  | some node ↦ (node, table)
  | none ↦ (new_node user skill, table ++ (new_node user skill ∷ []))
]

-- The assignments to the columns of a row.
unfoldable pub save : SkillGraphNode → List SkillGraphNode → List SkillGraphNode
save node [] = []
save node (r ∷ rest) = (if is_row node.user_id node.skill_name r then node else r) ∷ save node rest

-- An entry of `rules_triggered`, and one of `memory_hints["skill_signals"]`.
pub record RuleHit : Type 0 where
  pub rule : String
  pub confidence : Option String

pub record SkillSignal : Type 0 where
  pub skill : Option String
  pub direction : Option String
  pub note : Option String

-- skill name to direction and note
abbrev pub Signals : Type 0
Signals = Dict String (String × String)

-- The confidence of the first hit of the rule.
unfoldable pub rule_confidence : String → List RuleHit → String
rule_confidence id [] = "weak"
rule_confidence id (r ∷ rest) =
    if r.rule == id then get_or r.confidence "weak" else rule_confidence id rest

unfoldable pub rule_signals : List RuleHit → List String → Signals → Signals
unfolding rule_skill_map rule_confidence concat
rule_signals hits [] signals = signals
rule_signals hits (id ∷ ids) signals = rule_signals hits ids (elim (lookup id rule_skill_map) [
  | none ↦ signals
  | some skill ↦
      insert skill
        (
          "negative",
          concat ("Rule '" ∷ id ∷ "' triggered (confidence: " ∷ rule_confidence id hits ∷ ")" ∷ []),
        )
        signals
])

-- A hint counts if it names a known skill, and that skill has no signal yet or the hint is positive.
unfoldable pub is_known : String → Bool
unfolding skill_category
is_known skill = not (is_empty skill) && has_key skill skill_category

unfoldable pub hint_signal : SkillSignal → Signals → Signals
hint_signal sig signals =
    let name = get_or sig.skill "" in
    let direction = get_or sig.direction "positive" in
    if is_known name && (not (has_key name signals) || direction == "positive")
    then insert name (direction, get_or sig.note "") signals
    else signals

unfoldable pub hint_signals : List SkillSignal → Signals → Signals
unfolding hint_signal
hint_signals [] signals = signals
hint_signals (s ∷ r) signals = hint_signals r (hint_signal s signals)

abbrev pub type_primary_skills : Dict String (List String)
type_primary_skills =
    (
      "system_design",
      "tradeoff_analysis" ∷ "scalability_thinking" ∷ "capacity_estimation" ∷ "component_design"
          ∷ "failure_modes" ∷ [],
    )
    ∷ ("behavioral", "star_structure" ∷ "quantifiable_results" ∷ "ownership_signal" ∷ [])
    ∷ ("coding_discussion", "complexity_analysis" ∷ "edge_cases" ∷ "testing_approach" ∷ [])
    ∷ ("negotiation", "anchoring" ∷ "value_articulation" ∷ "counter_strategy" ∷ [])
    ∷ ("debrief", "confidence_under_pressure" ∷ "conciseness" ∷ [])
    ∷ ("diagnostic", "star_structure" ∷ "conciseness" ∷ [])
    ∷ []

abbrev pub base_direction : ℤ → String
base_direction overall_score = if leb_ℤ (pos 60) overall_score then "positive" else "negative"

-- Only skills with no signal yet are filled in.
unfoldable pub base_signals : String × String → List String → Signals → Signals
base_signals signal [] signals = signals
base_signals signal (s ∷ r) signals =
    base_signals signal r (if has_key s signals then signals else insert s signal signals)

-- The adjustment of a score. The division rounds down.
unfoldable pub adjusted_score : String → ℤ → ℤ → ℤ
adjusted_score direction overall_score old_score =
    if direction == "positive"
    then min_ℤ (pos 100)
        (old_score +ℤ max_ℤ (pos 5) (min_ℤ (pos 15) (floor_div (overall_score -ℤ old_score) 3)))
    else max_ℤ (pos 0) (
        old_score
        -ℤ max_ℤ (pos 3) (min_ℤ (pos 10) (floor_div (old_score -ℤ overall_score) 3 +ℤ pos 5)))

abbrev pub seconds_per_day : ℕ
seconds_per_day = 86_400

-- A negative signal's note joins the last five mistakes, once.
unfoldable pub kept_mistakes : String → String → List String → List String
kept_mistakes direction note mistakes =
    if direction == "negative" && not (contains note mistakes)
    then take_last 5 (mistakes ++ (note ∷ []))
    else mistakes

-- What one call of `update_from_scoring_result` is about.
pub record Scoring : Type 0 where
  pub now : ℕ
  pub user : ℕ
  pub session_id : String
  pub segment_index : ℕ
  pub overall_score : ℤ
  pub rules_triggered : List RuleHit
  pub skill_signals : Option (List SkillSignal)
  pub question_type : String

module _ (rt : Runtime) (sc : Scoring) where
  unfoldable pub skill_signals_of : Signals
  unfolding rule_signals hint_signals base_signals concat
  skill_signals_of =
      base_signals
        (
          base_direction sc.overall_score,
          concat (
              "Inferred from overall_score="
              ∷ rt.str_int sc.overall_score
              ∷ " ("
              ∷ sc.question_type
              ∷ " session)"
              ∷ []),
        )
        (get_or (lookup sc.question_type type_primary_skills) [])
        (hint_signals (get_or sc.skill_signals []) (
          rule_signals sc.rules_triggered
            (rt.set_order (map (λ r. RuleHit.rule r) sc.rules_triggered)) []))

  -- The body of the loop over the signals, on the row that it found.
  unfoldable pub updated_node : String → String → SkillGraphNode → SkillGraphNode
  unfolding adjusted_score compute_trend next_review_days kept_mistakes
  updated_node direction note node =
      let new_score = adjusted_score direction sc.overall_score node.current_score in
      let new_trend = compute_trend node.current_score new_score in
      let days = next_review_days new_score new_trend in
      record node {
        typical_mistakes = kept_mistakes direction note node.typical_mistakes;
        current_score = new_score;
        best_score = max_ℤ node.best_score new_score;
        trend = new_trend;
        last_practiced = some sc.now;
        next_review_due = some (sc.now + days * seconds_per_day);
        evidence_links = take_last 20 (
            node.evidence_links
            ++ (record {
              session_id = sc.session_id;
              segment_index = sc.segment_index;
              score = new_score;
              date = rt.isoformat_date sc.now;
              note = note;
            }
                ∷ []));
      }

  -- The loop over the signals: the updated rows, and the table.
  unfoldable pub apply_signals :
      Signals → List SkillGraphNode → List SkillGraphNode × List SkillGraphNode
  unfolding updated_node get_or_create_node save
  apply_signals [] table = ([], table)
  apply_signals ((skill, (direction, note)) ∷ rest) table =
      let (node, t) = get_or_create_node sc.user skill table in
      let node' = updated_node direction note node in
      let (updated, t') = apply_signals rest (save node' t) in (node' ∷ updated, t')

  unfoldable pub update_from_scoring_result :
      List SkillGraphNode → List SkillGraphNode × List SkillGraphNode
  update_from_scoring_result table = apply_signals skill_signals_of table
