-- ===== src/Memory/SkillGraph/Tests.antt =====
-- Concrete runs of the skill graph's update, and the theorems at inputs that meet their hypotheses.
use interviewcraft.Prelude.{
  String, ◌≡◌, refl, none, some, List, [], ◌∷◌, map, arith, All, ℤ, pos, ◌+ℤ◌, ◌-ℤ◌, floor_div,
  nat_eq, string_eq, Runtime,
}
use interviewcraft.Memory.Skills.{SkillGraphNode}
use interviewcraft.Memory.SkillGraph.{
  is_known, hint_signals, apply_signals, RuleHit, SkillSignal, Scoring, adjusted_score, new_node,
  skill_signals_of, update_from_scoring_result,
}
use interviewcraft.Memory.SkillGraph.Rows.{IsValid, new_node-IsValid}
use interviewcraft.Memory.SkillGraph.Signals.{direction_in, expected_direction}
use interviewcraft.Memory.SkillGraph.Table.{row}
use interviewcraft.Memory.SkillGraph.Update.{update_rows, update-IsValid, signal_precedence}

abbrev rt : Runtime
rt = record { str_int = λ n. "n"; isoformat_date = λ t. "2026-02-01"; set_order = λ l. l }

abbrev rambling : RuleHit
rambling = record { rule = "rambling"; confidence = some "strong" }

abbrev hint : SkillSignal
hint = record { skill = some "pacing"; direction = none; note = some "steady" }

abbrev scoring : Scoring
scoring = record {
  now = 1000;
  user = 7;
  session_id = "s";
  segment_index = 0;
  overall_score = pos 72;
  rules_triggered = rambling ∷ [];
  skill_signals = some (hint ∷ []);
  question_type = "diagnostic";
}

abbrev table : List SkillGraphNode
table =
    new_node 8 "pacing"
    ∷ record (new_node 7 "conciseness") { current_score = pos 50; best_score = pos 64 }
    ∷ []

table-IsValid : All IsValid table
unfolding new_node
table-IsValid = (new_node-IsValid 8 "pacing", (ground arith, tt))

moved_scores :
    (adjusted_score "positive" (pos 72) (pos 50) ≡ pos 57)
    × (adjusted_score "negative" (pos 72) (pos 50) ≡ pos 47)
unfolding adjusted_score ◌+ℤ◌ ◌-ℤ◌ floor_div
moved_scores = (refl, refl)

abbrev name_and_score : SkillGraphNode → String × ℤ
name_and_score n = (n.skill_name, n.current_score)

updated_skills :
    map name_and_score (update_from_scoring_result rt scoring table).0
    ≡ ("conciseness", pos 47) ∷ ("pacing", pos 15) ∷ ("star_structure", pos 15) ∷ []
unfolding update_from_scoring_result apply_signals skill_signals_of hint_signals is_known new_node
    ◌+ℤ◌ ◌-ℤ◌ floor_div
updated_skills = refl

update_rows_example :
    row 8 "pacing" (update_from_scoring_result rt scoring table).1 ≡ row 8 "pacing" table
update_rows_example = update_rows rt scoring table 8 "pacing"

update-IsValid_example :
    let (updated, t) = update_from_scoring_result rt scoring table in
    All IsValid updated × All IsValid t
update-IsValid_example = update-IsValid rt scoring table table-IsValid

signal_precedence_example :
    direction_in "conciseness" (skill_signals_of rt scoring)
    ≡ expected_direction scoring ("rambling" ∷ []) "conciseness"
signal_precedence_example = signal_precedence rt scoring "conciseness" (λ ids id. refl)
