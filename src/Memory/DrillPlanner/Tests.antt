-- ===== src/Memory/DrillPlanner/Tests.antt =====
-- The planner's theorems for a small graph of skills, with integers for floats.
use interviewcraft.Prelude.{
  ℕ, String, ◌≡◌, false, none, some, List, [], ◌∷◌, map, arith, take, drop, All, sum_by, ℤ, pos,
  ltb_ℤ, ◌+ℤ◌, nat_eq, string_eq, Runtime, IsRanked,
}
use interviewcraft.Memory.Skills.{stable, SkillGraphNode}
use interviewcraft.Memory.DrillPlanner.{
  Floats, IsOrdered, urgency_score, DrillSlot, generate_weekly_plan,
}
use interviewcraft.Memory.DrillPlanner.Plans.{slot_limit, generate_weekly_plan-urgent}

-- Hundredths, rounded: enough for the order of these skills.
abbrev floats : Floats
floats = record {
  Float = ℤ;
  of_int = λ n. n;
  decimal = λ n d. n;
  add = λ a b. a +ℤ b;
  mul = λ a b. a;
  div = λ a b. a;
  lt = ltb_ℤ;
}

floats-IsOrdered : IsOrdered floats
floats-IsOrdered = record { asym = λ a b h. ground arith; trans = λ a b c h k. ground arith }

abbrev rt : Runtime
rt = record { str_int = λ n. "0"; isoformat_date = λ d. "2026-01-01"; set_order = λ xs. xs }

abbrev node : String → ℕ → ℕ → SkillGraphNode
node name current best = record {
  user_id = 1;
  skill_name = name;
  category = "depth";
  current_score = pos current;
  best_score = pos best;
  trend = stable;
  evidence_links = [];
  typical_mistakes = [];
  last_practiced = none;
  next_review_due = none;
}

abbrev nodes : List SkillGraphNode
nodes = node "pacing" 80 85 ∷ node "conciseness" 30 60 ∷ []

generate_weekly_plan-urgent_example :
    (ranked : List SkillGraphNode) × ((f : SkillGraphNode → ℕ) → sum_by f ranked ≡ sum_by f nodes)
    × IsRanked ltb_ℤ (urgency_score floats 1000) ranked
    × (map
          (λ s. DrillSlot.skill_name s)
          (generate_weekly_plan floats rt 1000 nodes (some (pos 5))).slots
        ≡ map (λ n. SkillGraphNode.skill_name n) (take (slot_limit (some (pos 5))) ranked))
    × All
        (λ a.
          All
            (λ b. ltb_ℤ (urgency_score floats 1000 a) (urgency_score floats 1000 b) ≡ false)
            (drop (slot_limit (some (pos 5))) ranked))
        (take (slot_limit (some (pos 5))) ranked)
generate_weekly_plan-urgent_example =
    generate_weekly_plan-urgent floats rt 1000 nodes (some (pos 5)) floats-IsOrdered
