-- ===== src/Memory/SkillGraph/Rows.antt =====
-- What holds of every row of the skill graph, and that one signal keeps it.
use interviewcraft.Prelude.{
  ℕ, ◌≤◌, String, inl, inr, not, ◌&&◌, List, [], ◌∷◌, ◌++◌, arith, Bool-cases, length,
  length-take_last_le, ℤ, ◌≤ℤ◌, max_ℤ, ◌==◌, nat_eq, string_eq, eq_discrete, IsDistinct,
  IsDistinct-append_one, IsDistinct-drop, contains, Runtime,
}
use interviewcraft.Memory.Skills.{SkillGraphNode}
use interviewcraft.Memory.SkillGraph.{
  updated_node, new_node, adjusted_score, kept_mistakes, Scoring,
}
use interviewcraft.Memory.SkillGraph.Scores.{
  InRange, adjusted_score_positive, adjusted_score_negative,
}

-- The scores are from 0 to 100 and the best is no less than the current one; at most 20 links and
-- 5 mistakes are kept, and no mistake is listed twice.
pub record IsValid (n : SkillGraphNode) : Type 0 where
  pub in_range : InRange n.current_score
  pub best_range : InRange n.best_score
  pub best_least : n.current_score ≤ℤ n.best_score
  pub links_few : length n.evidence_links ≤ 20
  pub mistakes_few : length n.typical_mistakes ≤ 5
  pub mistakes_distinct : IsDistinct n.typical_mistakes

pub new_node-IsValid : (user : ℕ) (skill : String) → IsValid (new_node user skill)
unfolding new_node
new_node-IsValid user skill = ground arith

pub adjusted_score-InRange :
    (direction : String) (overall old : ℤ)
    → InRange old
    → InRange (adjusted_score direction overall old)
adjusted_score-InRange direction overall old h = elim (eq_discrete direction "positive") [
  | yes e ↦ rw e (adjusted_score_positive overall old h).0
  | no ne ↦ (adjusted_score_negative direction overall old ne h).0
]

kept_mistakes_lem :
    (direction note : String) (mistakes : List String)
    → length mistakes ≤ 5
    → IsDistinct mistakes
    → let kept = kept_mistakes direction note mistakes in (length kept ≤ 5) × IsDistinct kept
unfolding kept_mistakes
kept_mistakes_lem direction note mistakes few distinct =
    elim (Bool-cases (direction == "negative" && not (contains note mistakes))) [
      | inr old ↦ rw old (few, distinct)
      | inl new ↦ rw new (
        length-take_last_le 5 (mistakes ++ (note ∷ [])),
        IsDistinct-drop _ _ (IsDistinct-append_one note mistakes distinct (ground arith)),
      )
    ]

max_InRange : (a b : ℤ) → InRange a → InRange b → InRange (max_ℤ a b) × (b ≤ℤ max_ℤ a b)
max_InRange a b h k = ground arith

pub updated_node-IsValid :
    (rt : Runtime) (sc : Scoring) (direction note : String) (n : SkillGraphNode)
    → IsValid n
    → IsValid (updated_node rt sc direction note n)
unfolding updated_node
updated_node-IsValid rt sc direction note n v =
    let new : InRange _ =
      adjusted_score-InRange direction sc.overall_score n.current_score v.in_range in
    let (best, least) = max_InRange n.best_score _ v.best_range new in
    let (few, distinct) =
      kept_mistakes_lem direction note n.typical_mistakes v.mistakes_few v.mistakes_distinct in
    record {
      in_range = new;
      best_range = best;
      best_least = least;
      links_few = length-take_last_le 20 (n.evidence_links ++ (_ ∷ []));
      mistakes_few = few;
      mistakes_distinct = distinct;
    }
