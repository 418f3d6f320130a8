-- ===== src/Memory/SkillGraph/Scores.antt =====
-- The effect of one signal on one row of the skill graph (memory/skill_graph.py).
use interviewcraft.Prelude.{
  String, ◌≡◌, ◌≢◌, arith, if◌then◌else◌, ℤ, pos, ◌≤ℤ◌, leb_ℤ, max_ℤ, min_ℤ, ◌+ℤ◌, ◌-ℤ◌, floor_div,
  nat_eq, string_eq, ==_ne,
}
use interviewcraft.Memory.Skills.{improving, stable}
use interviewcraft.Memory.SkillGraph.{adjusted_score, compute_trend}

-- A score that the graph may hold.
abbrev pub InRange : ℤ → Type 0
InRange s = (pos 0 ≤ℤ s) × (s ≤ℤ pos 100)

module _ (old d : ℤ) (h : InRange old) where
  raised :
      pos 5 ≤ℤ d
      → d ≤ℤ pos 15
      → let new = min_ℤ (pos 100) (old +ℤ d) in
        InRange new
        × (min_ℤ (pos 100) (old +ℤ pos 5) ≤ℤ new)
        × (new ≤ℤ min_ℤ (pos 100) (old +ℤ pos 15))
        × (compute_trend old new ≡ (if leb_ℤ old (pos 95) then improving else stable))
  unfolding compute_trend ◌+ℤ◌ ◌-ℤ◌
  raised lo hi = ground arith

  lowered :
      pos 3 ≤ℤ d
      → d ≤ℤ pos 10
      → let new = max_ℤ (pos 0) (old -ℤ d) in
        InRange new
        × (max_ℤ (pos 0) (old -ℤ pos 10) ≤ℤ new)
        × (new ≤ℤ max_ℤ (pos 0) (old -ℤ pos 3))
        × (compute_trend old new ≢ improving)
  unfolding compute_trend ◌-ℤ◌
  lowered lo hi = ground arith

clamped : (lo hi x : ℤ) → lo ≤ℤ hi → (lo ≤ℤ max_ℤ lo (min_ℤ hi x)) × (max_ℤ lo (min_ℤ hi x) ≤ℤ hi)
clamped lo hi x h = ground arith

-- A positive signal on a score from 0 to 100 adds 5 to 15 points, cut at 100, for every overall
-- score; the trend is improving if the score was at most 95, and else stable.
pub adjusted_score_positive :
    (overall old : ℤ)
    → InRange old
    → let new = adjusted_score "positive" overall old in
      InRange new
      × (min_ℤ (pos 100) (old +ℤ pos 5) ≤ℤ new)
      × (new ≤ℤ min_ℤ (pos 100) (old +ℤ pos 15))
      × (compute_trend old new ≡ (if leb_ℤ old (pos 95) then improving else stable))
unfolding adjusted_score
adjusted_score_positive overall old h =
    let (lo, hi) = clamped (pos 5) (pos 15) (floor_div (overall -ℤ old) 3) (omega arith) in
    raised old _ h lo hi

-- Any other signal on a score from 0 to 100 takes 3 to 10 points off, cut at 0, for every overall
-- score, and the trend is never improving.
pub adjusted_score_negative :
    (direction : String) (overall old : ℤ)
    → direction ≢ "positive"
    → InRange old
    → let new = adjusted_score direction overall old in
      InRange new
      × (max_ℤ (pos 0) (old -ℤ pos 10) ≤ℤ new)
      × (new ≤ℤ max_ℤ (pos 0) (old -ℤ pos 3))
      × (compute_trend old new ≢ improving)
unfolding adjusted_score
adjusted_score_negative direction overall old ne h =
    let (lo, hi) = clamped (pos 3) (pos 10) (floor_div (old -ℤ overall) 3 +ℤ pos 5) (omega arith) in
    rw (==_ne direction "positive" ne) (lowered old _ h lo hi)
