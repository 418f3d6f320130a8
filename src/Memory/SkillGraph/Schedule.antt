-- ===== src/Memory/SkillGraph/Schedule.antt =====
-- The spaced repetition schedule of `_next_review_days` (memory/skill_graph.py).
use interviewcraft.Prelude.{◌≤◌, ◌≡◌, ◌⊎◌, arith, ℤ, ◌≤ℤ◌, nat_eq, string_eq}
use interviewcraft.Memory.Skills.{SkillTrend, declining}
use interviewcraft.Memory.SkillGraph.{next_review_days}

-- Every review falls one to fourteen days ahead. For scores a ≤ b, the review of a is no later than
-- that of b when the two trends agree, and also when the trend at a is declining.
pub next_review_days_order :
    (a b : ℤ) (t u : SkillTrend)
    → a ≤ℤ b
    → (t ≡ u) ⊎ (t ≡ declining)
    → (1 ≤ next_review_days a t)
      × (next_review_days a t ≤ next_review_days b u)
      × (next_review_days b u ≤ 14)
unfolding next_review_days
next_review_days_order a b t u h k = ground arith
