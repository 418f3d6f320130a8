-- ===== src/Memory/DrillPlanner/Plans.antt =====
-- What a weekly plan and the list of best scores promise.
use interviewcraft.Prelude.{
  ℕ, zero, suc, ◌+◌, ◌*◌, ◌≤◌, min, String, ◌≡◌, refl, sym, ap, ◌∙◌, subst, Bool, false, Option,
  none, some, List, [], ◌∷◌, map, arith, if◌then◌else◌, length, take, drop, filter, All, sum_by, ℤ,
  pos, ltb_ℤ, leb_ℤ, nat_eq, string_eq, Runtime, IsRanked, sorted_reverse-sum,
  sorted_reverse-IsRanked, IsRanked-split, sorted_reverse,
}
use interviewcraft.Memory.Skills.{SkillGraphNode}
use interviewcraft.Memory.DrillPlanner.{
  best_of, BestScore, get_best_scores, Floats, IsOrdered, urgency_score, DrillSlot, intensity,
  questions_for, make_drill_slot, make_slots, generate_weekly_plan,
}

slots-skills :
    (rt : Runtime) (base : ℕ) (days : List String) (ranked : List SkillGraphNode)
    → map (λ s. DrillSlot.skill_name s) (make_slots rt base days ranked)
      ≡ map (λ n. SkillGraphNode.skill_name n) (take (length days) ranked)
unfolding make_slots make_drill_slot
slots-skills rt base [] ranked = refl
slots-skills rt base (day ∷ days) [] = refl
slots-skills rt base (day ∷ days) (n ∷ ranked) =
    ap (λ r. n.skill_name ∷ r) (slots-skills rt base days ranked)

questions_for-bounds :
    (base : ℕ) (n : SkillGraphNode)
    → (base ≤ questions_for base n) × (questions_for base n ≤ base + 1)
unfolding questions_for
questions_for-bounds base n = ground arith

slot-step :
    (base q len sum : ℕ)
    → base ≤ q
    → q ≤ base + 1
    → base * len ≤ sum
    → sum ≤ (base + 1) * len
    → (base * (1 + len) ≤ q + sum) × (q + sum ≤ (base + 1) * (1 + len))
slot-step base q len sum a b c d = ground arith

-- The minutes, the questions and the number of slots.
abbrev HasSize : ℕ → ℕ → List DrillSlot → Type 0
HasSize base count slots =
    let questions = sum_by (λ s. DrillSlot.questions s) slots in
    (sum_by (λ s. DrillSlot.estimated_minutes s) slots ≡ 7 * questions)
    × (base * count ≤ questions)
    × (questions ≤ (base + 1) * count)
    × (length slots ≡ count)

make_slots-HasSize :
    (rt : Runtime) (base : ℕ) (days : List String) (ranked : List SkillGraphNode)
    → HasSize base (min (length days) (length ranked)) (make_slots rt base days ranked)
unfolding make_slots make_drill_slot
make_slots-HasSize rt base [] ranked = ground arith
make_slots-HasSize rt base (day ∷ days) [] = ground arith
make_slots-HasSize rt base (day ∷ days) (n ∷ ranked) =
    let (m, low, high, len) = make_slots-HasSize rt base days ranked in
    let (a, b) = questions_for-bounds base n in
    let slots = make_slots rt base days ranked in
    let (low', high') =
      slot-step base (questions_for base n) (min (length days) (length ranked))
        (sum_by (λ s. DrillSlot.questions s) slots) a b low high in
    let more = 1 + min (length days) (length ranked) in
    let count : more ≡ min (suc (length days)) (suc (length ranked)) = omega arith in
    let asked = questions_for base n + sum_by (λ s. DrillSlot.questions s) slots in
    (
      omega arith,
      subst (λ c. base * c ≤ asked) count low',
      subst (λ c. asked ≤ (base + 1) * c) count high',
      omega arith,
    )

sum_by-one : {A : Type 0} (xs : List A) → sum_by (λ x. 1) xs ≡ length xs
sum_by-one [] = refl
sum_by-one (x ∷ xs) = omega (arith, sum_by-one xs)

sorted_reverse-length :
    {A K : Type 0} (lt : K → K → Bool) (key : A → K) (xs : List A)
    → length (sorted_reverse lt key xs) ≡ length xs
sorted_reverse-length lt key xs =
    sym (sum_by-one (sorted_reverse lt key xs))
    ∙ sorted_reverse-sum lt key (λ x. 1) xs
    ∙ sum_by-one xs

-- The limit of slots: seven within a week, five within three weeks, and else three.
unfoldable pub slot_limit : Option ℤ → ℕ
slot_limit none = 3
slot_limit (some d) = if leb_ℤ d (pos 7) then 7 else if leb_ℤ d (pos 21) then 5 else 3

intensity-length : (d : Option ℤ) → length (intensity d).0 ≡ slot_limit d
unfolding intensity slot_limit
intensity-length none = refl
intensity-length (some d) = ground arith

-- The questions of a slot, without the one that a weak skill adds.
unfoldable pub base_questions : Option ℤ → ℕ
base_questions none = 1
base_questions (some d) = if leb_ℤ d (pos 7) then 3 else if leb_ℤ d (pos 21) then 2 else 1

intensity-base : (d : Option ℤ) → (intensity d).1 ≡ base_questions d
unfolding intensity base_questions
intensity-base none = refl
intensity-base (some d) = ground arith

take-nil : {A : Type 0} (n : ℕ) → take {A = A} n [] ≡ []
take-nil zero = refl
take-nil (suc n) = refl

-- Where the comparison of floats is asymmetric and `not less` is transitive, the slots of a plan
-- are the most urgent skills, most urgent first: they are the first ones of a permutation of the
-- user's skills in which no skill stands before a more urgent one, seven within a week of the
-- interview, five within three weeks and else three, so no skill left out is more urgent than one
-- of them.
pub generate_weekly_plan-urgent :
    (fl : Floats) (rt : Runtime) (now : ℕ) (nodes : List SkillGraphNode) (days_until : Option ℤ)
    → IsOrdered fl
    → (ranked : List SkillGraphNode) × ((f : SkillGraphNode → ℕ) → sum_by f ranked ≡ sum_by f nodes)
      × IsRanked fl.lt (urgency_score fl now) ranked
      × (map (λ s. DrillSlot.skill_name s) (generate_weekly_plan fl rt now nodes days_until).slots
          ≡ map (λ n. SkillGraphNode.skill_name n) (take (slot_limit days_until) ranked))
      × All
          (λ a.
            All
              (λ b. fl.lt (urgency_score fl now a) (urgency_score fl now b) ≡ false)
              (drop (slot_limit days_until) ranked))
          (take (slot_limit days_until) ranked)
unfolding generate_weekly_plan
generate_weekly_plan-urgent fl rt now [] days_until doc = (
  [],
  (λ f. refl),
  tt,
  ap (λ ns. map (λ n. SkillGraphNode.skill_name n) ns) (sym (take-nil (slot_limit days_until))),
  IsRanked-split fl.lt (urgency_score fl now) (slot_limit days_until) [] tt,
)
generate_weekly_plan-urgent fl rt now (node ∷ nodes) days_until doc =
    let ranked = sorted_reverse fl.lt (urgency_score fl now) (node ∷ nodes) in
    (
      ranked,
      (λ f. sorted_reverse-sum fl.lt (urgency_score fl now) f (node ∷ nodes)),
      sorted_reverse-IsRanked fl.lt (urgency_score fl now) doc.asym doc.trans (node ∷ nodes),
      slots-skills rt (intensity days_until).1 (intensity days_until).0 ranked
          ∙ rw (intensity-length days_until) refl,
      IsRanked-split fl.lt (urgency_score fl now) (slot_limit days_until) ranked
          (sorted_reverse-IsRanked fl.lt (urgency_score fl now) doc.asym doc.trans (node ∷ nodes)),
    )

-- A plan has as many slots as the limit and the number of skills allow, seven minutes for each question,
-- and one to four questions a slot: the base of its urgency, or one more for a weak skill.
pub generate_weekly_plan-size :
    (fl : Floats) (rt : Runtime) (now : ℕ) (nodes : List SkillGraphNode) (days_until : Option ℤ)
    → let plan = generate_weekly_plan fl rt now nodes days_until in
      let questions = sum_by (λ s. DrillSlot.questions s) plan.slots in
      let count = min (slot_limit days_until) (length nodes) in
      (plan.estimated_minutes_per_week ≡ 7 * questions)
      × (base_questions days_until * count ≤ questions)
      × (questions ≤ (base_questions days_until + 1) * count)
      × (length plan.slots ≡ count)
      × (plan.total_skills ≡ length nodes)
unfolding generate_weekly_plan
generate_weekly_plan-size fl rt now [] days_until = ground arith
generate_weekly_plan-size fl rt now (node ∷ nodes) days_until =
    let key = urgency_score fl now in
    let ranked = sorted_reverse fl.lt key (node ∷ nodes) in
    let (m, low, high, len) =
      make_slots-HasSize rt (intensity days_until).1 (intensity days_until).0 ranked in
    rw
      (
        ← intensity-base days_until,
        ← intensity-length days_until,
        ← sorted_reverse-length fl.lt key (node ∷ nodes),
      )
      (m, low, high, len, refl)

best_of-sum :
    (f : BestScore → ℕ) (nodes : List SkillGraphNode)
    → sum_by f (map best_of (filter (λ n. ltb_ℤ (pos 0) (SkillGraphNode.best_score n)) nodes))
      ≡ sum_by (λ n. if ltb_ℤ (pos 0) (SkillGraphNode.best_score n) then f (best_of n) else 0) nodes
best_of-sum f [] = refl
best_of-sum f (n ∷ nodes) = ground (arith, best_of-sum f nodes)

-- The list of best scores holds each skill with a record above zero once, and no other, with the
-- largest gap to its record first.
pub get_best_scores_lem :
    (nodes : List SkillGraphNode)
    → IsRanked ltb_ℤ (λ b. BestScore.gap b) (get_best_scores nodes)
      × ((f : BestScore → ℕ)
          → sum_by f (get_best_scores nodes)
            ≡ sum_by
                (λ n. if ltb_ℤ (pos 0) (SkillGraphNode.best_score n) then f (best_of n) else 0)
                nodes)
unfolding get_best_scores
get_best_scores_lem nodes = (
  sorted_reverse-IsRanked ltb_ℤ (λ b. BestScore.gap b) (λ a b h. ground arith)
      (λ a b c h k. ground arith) _,
  (λ f. sorted_reverse-sum ltb_ℤ (λ b. BestScore.gap b) f _ ∙ best_of-sum f nodes),
)
