-- ===== src/Memory/SkillGraph/Update.antt =====
-- What `update_from_scoring_result` (memory/skill_graph.py) promises: whose rows change, how, and
-- what stays true of the table.
use interviewcraft.Prelude.{
  ℕ, String, ◌≡◌, ◌∙◌, List, map, ◌==ℕ◌, if◌then◌else◌, All, nat_eq, string_eq, ==_refl, ==_ne,
  eq_discrete, contains, lookup, Runtime,
}
use interviewcraft.Memory.Skills.{SkillGraphNode}
use interviewcraft.Memory.SkillGraph.{
  RuleHit, Scoring, skill_signals_of, update_from_scoring_result,
}
use interviewcraft.Memory.SkillGraph.Rows.{IsValid}
use interviewcraft.Memory.SkillGraph.Signals.{
  expected_direction_congr, direction_in, expected_direction, direction_in-skill_signals_of,
  skill_signals_of-IsKeyed,
}
use interviewcraft.Memory.SkillGraph.Table.{
  row, signalled, apply_signals-All, row-apply_signals, row-apply_signals_other,
}

-- After an update, a row of another user is as it was, and so is the user's row of each skill without
-- a signal; the row of a skill with a signal, created if it was missing, has that signal applied to it
-- once, at its old content.
pub update_rows :
    (rt : Runtime) (sc : Scoring) (table : List SkillGraphNode) (u : ℕ) (skill : String)
    → row u skill (update_from_scoring_result rt sc table).1 ≡ (
        if u ==ℕ sc.user
        then signalled rt sc (lookup skill (skill_signals_of rt sc)) u skill table
        else row u skill table)
unfolding update_from_scoring_result
update_rows rt sc table u skill = elim (eq_discrete u sc.user) [
  | yes e ↦ rw (
    e,
    ==_refl sc.user,
    row-apply_signals rt sc (skill_signals_of rt sc) table skill (skill_signals_of-IsKeyed rt sc),
  )
  | no ne ↦
      rw (==_ne u sc.user ne)
        (row-apply_signals_other rt sc (skill_signals_of rt sc) table u skill ne)
]

-- If every row of the table is valid, then so is every row after an update, whatever the overall
-- score, the rules and the hints are, and every row that the update returns.
pub update-IsValid :
    (rt : Runtime) (sc : Scoring) (table : List SkillGraphNode)
    → All IsValid table
    → let (updated, t) = update_from_scoring_result rt sc table in
      All IsValid updated × All IsValid t
unfolding update_from_scoring_result
update-IsValid rt sc table h = apply_signals-All rt sc (skill_signals_of rt sc) table h

-- Whatever the order in which the set of triggered rules is iterated, the direction of each skill's
-- signal is decided by the inputs: positive if a hint is, else negative if a triggered rule maps to the
-- skill, else that of the first hint, else for a primary skill of the question's type positive exactly
-- if the overall score is 60 or more, else the skill has no signal.
pub signal_precedence :
    (rt : Runtime) (sc : Scoring) (skill : String)
    → ((ids : List String) (id : String) → contains id (rt.set_order ids) ≡ contains id ids)
    → direction_in skill (skill_signals_of rt sc)
      ≡ expected_direction sc (map (λ r. RuleHit.rule r) sc.rules_triggered) skill
signal_precedence rt sc skill order =
    let ids = map (λ r. RuleHit.rule r) sc.rules_triggered in
    direction_in-skill_signals_of rt sc skill
    ∙ expected_direction_congr sc skill (rt.set_order ids) ids (order ids)
