-- ===== src/Progress/Readiness.antt =====
-- The two estimates of a candidate's readiness.
use interviewcraft.Prelude.{
  ℕ, ◌≤◌, ◌≡◌, refl, Bool, false, Option, none, some, List, [], ◌∷◌, arith, length, filter, ℤ, pos,
  ◌≤ℤ◌, min_ℤ, nat_eq, string_eq,
}
use interviewcraft.Memory.Skills.{SkillGraphNode}
use interviewcraft.Memory.DrillPlanner.{Floats, IsOrdered}
use interviewcraft.Interviews.{InterviewSession, of_user}
use interviewcraft.Progress.{
  Forms, is_completed, completed_count, session_signal, story_signal, weighted, mean1, scores_of,
  share_readiness, dashboard_readiness,
}

-- What IEEE 754 says of sums where no NaN arises, and Python of `int`: a larger summand gives no smaller
-- sum, a summand that is not negative makes no sum smaller, and truncation keeps the order.
pub record IsMonotone (fl : Floats) (fm : Forms fl) : Type 0 where
  pub add_mono :
      (x : fl.Float) (a b : ℕ)
      → a ≤ b
      → fl.lt (fl.add x (fl.of_int (pos b))) (fl.add x (fl.of_int (pos a))) ≡ false
  pub add_up : (x : fl.Float) (a : ℕ) → fl.lt (fl.add x (fl.of_int (pos a))) x ≡ false
  pub trunc_mono : (x y : fl.Float) → fl.lt y x ≡ false → fm.trunc x ≤ℤ fm.trunc y

length-filter_le : {A : Type 0} (p : A → Bool) (xs : List A) → length (filter p xs) ≤ length xs
length-filter_le p [] = omega arith
length-filter_le p (x ∷ xs) = ground (arith, length-filter_le p xs)

signal_mono : (a b : ℕ) → a ≤ b → session_signal a ≤ session_signal b
unfolding session_signal
signal_mono a b h = ground (arith, h)

capped : (a b : ℤ) → a ≤ℤ b → min_ℤ (pos 100) a ≤ℤ min_ℤ (pos 100) b
capped a b h = ground (arith, h)

capped_at : (a : ℤ) → min_ℤ (pos 100) a ≤ℤ pos 100
capped_at a = ground arith

-- An estimate, at most 100 and no less than the shared one; none without skills.
abbrev pub IsEstimate : List SkillGraphNode → ℤ → Option ℤ → Type 0
IsEstimate nodes shared none = nodes ≡ []
IsEstimate nodes shared (some readiness) = (readiness ≤ℤ pos 100) × (shared ≤ℤ readiness)

module _ (fl : Floats) (fm : Forms fl) (ordered : IsOrdered fl) (mono : IsMonotone fl fm) where
  -- Before there are skills there is no estimate on the dashboard. Otherwise it is at most 100, and a card
  -- shared at the same time shows no more than it, since the card counts the completed sessions only and no
  -- stories.
  pub share_readiness-dashboard_readiness :
      (user_id total_stories : ℕ) (nodes : List SkillGraphNode) (sessions : List InterviewSession)
      → IsEstimate nodes
          (share_readiness fl fm nodes (completed_count user_id sessions))
          (dashboard_readiness fl fm nodes (length (of_user user_id sessions)) total_stories)
  unfolding dashboard_readiness share_readiness
  share_readiness-dashboard_readiness user_id total_stories [] sessions = refl
  share_readiness-dashboard_readiness user_id total_stories (n ∷ nodes) sessions =
      let avg = mean1 fl fm (scores_of (n ∷ nodes)) in
      let done = session_signal (completed_count user_id sessions) in
      let all = session_signal (length (of_user user_id sessions)) in
      let x = fl.mul avg (fl.decimal (pos 6) 1) in
      let shared = weighted fl fm avg done in
      let shown = weighted fl fm avg all in
      let total = fl.add shown (fl.of_int (pos (story_signal total_stories))) in
      let fewer : completed_count user_id sessions ≤ length (of_user user_id sessions) =
        unfold completed_count in length-filter_le is_completed (of_user user_id sessions) in
      let le : fl.lt total shared ≡ false =
        ordered.trans total shown shared (mono.add_up shown (story_signal total_stories)) (
          mono.add_mono x done all (
            signal_mono (completed_count user_id sessions) (length (of_user user_id sessions))
              fewer)) in
      (
        capped_at (fm.trunc total),
        capped (fm.trunc shared) (fm.trunc total) (mono.trunc_mono shared total le),
      )
