-- ===== src/Memory/DrillPlanner.antt =====
-- backend/app/services/memory/drill_planner.py. Python's floats are a parameter; moments are seconds.
pub mod Plans
mod Tests
use interviewcraft.Prelude.{
  ℕ, ◌+◌, ◌-◌, ◌*◌, ◌/◌, String, ◌≡◌, Bool, true, false, Option, none, some, List, [], ◌∷◌, map,
  if◌then◌else◌, length, filter, sum_by, ℤ, pos, negsuc, ltb_ℤ, leb_ℤ, min_ℤ, ◌+ℤ◌, ◌-ℤ◌, nat_eq,
  string_eq, concat, Runtime, sorted_reverse,
}
use interviewcraft.Memory.Skills.{SkillTrend, improving, declining, stable, SkillGraphNode}

-- The floats that the urgency is computed with. `decimal n d` is the literal n / 10^d.
pub record Floats : Type 1 where
  pub Float : Type 0
  pub of_int : ℤ → Float
  pub decimal : ℤ → ℕ → Float
  pub add : Float → Float → Float
  pub mul : Float → Float → Float
  pub div : Float → Float → Float
  pub lt : Float → Float → Bool

-- What IEEE 754 says of `<` where no NaN arises.
pub record IsOrdered (fl : Floats) : Type 0 where
  pub asym : (a b : fl.Float) → fl.lt a b ≡ true → fl.lt b a ≡ false
  pub trans : (a b c : fl.Float) → fl.lt a b ≡ false → fl.lt b c ≡ false → fl.lt a c ≡ false

abbrev pub mins_per_question : ℕ
mins_per_question = 7

unfoldable pub trend_bonus : (fl : Floats) → SkillTrend → fl.Float
trend_bonus fl declining = fl.decimal (pos 2) 1
trend_bonus fl improving = fl.decimal (negsuc 0) 1
trend_bonus fl stable = fl.decimal (pos 0) 1

-- `min(0.5, max(0.0, days_overdue * 0.1))`
unfoldable pub past_due_bonus : (fl : Floats) → ℕ → Option ℕ → fl.Float
past_due_bonus fl now none = fl.decimal (pos 0) 1
past_due_bonus fl now (some due) =
    let zero_f = fl.decimal (pos 0) 1 in
    let half = fl.decimal (pos 5) 1 in
    let days_overdue = fl.div (fl.of_int (pos now -ℤ pos due)) (fl.of_int (pos 86_400)) in
    let days = fl.mul days_overdue (fl.decimal (pos 1) 1) in
    let bonus = if fl.lt zero_f days then days else zero_f in
    if fl.lt bonus half then bonus else half

-- `_urgency_score`
unfoldable pub urgency_score : (fl : Floats) → ℕ → SkillGraphNode → fl.Float
urgency_score fl now node =
    fl.add
      (fl.add (fl.div (fl.of_int (pos 100 -ℤ node.current_score)) (fl.decimal (pos 1000) 1))
        (past_due_bonus fl now node.next_review_due))
      (trend_bonus fl node.trend)

pub record DrillSlot : Type 0 where
  pub day : String
  pub skill_name : String
  pub skill_category : String
  pub current_score : ℤ
  pub trend : SkillTrend
  pub questions : ℕ
  pub estimated_minutes : ℕ
  pub focus_note : String

abbrev pub is_declining_trend : SkillTrend → Bool
is_declining_trend declining = true
is_declining_trend _ = false

unfoldable pub focus_note : Runtime → SkillGraphNode → String
focus_note rt node =
    if ltb_ℤ node.current_score (pos 40)
    then concat (
        "Foundation needed — score "
        ∷ rt.str_int node.current_score
        ∷ "/100. Build the basics first."
        ∷ [])
    else if is_declining_trend node.trend
    then concat (
        "Slipping! Was "
        ∷ rt.str_int node.best_score
        ∷ ", now "
        ∷ rt.str_int node.current_score
        ∷ ". Reverse the trend."
        ∷ [])
    else if ltb_ℤ (node.current_score +ℤ pos 10) node.best_score
    then concat (
        "Beat Your Best: previous record "
        ∷ rt.str_int node.best_score
        ∷ ". Can you top it? Currently "
        ∷ rt.str_int node.current_score
        ∷ "."
        ∷ [])
    else concat (
        "Keep building on "
        ∷ rt.str_int node.current_score
        ∷ "/100. Target: "
        ∷ rt.str_int (min_ℤ (pos 100) (node.current_score +ℤ pos 15))
        ∷ "."
        ∷ [])

-- The day names, whose number is the limit of slots, and the questions of a slot.
unfoldable pub intensity : Option ℤ → List String × ℕ
intensity none = ("Monday" ∷ "Wednesday" ∷ "Friday" ∷ [], 1)
intensity (some days_until) =
    if leb_ℤ days_until (pos 7)
    then (
      "Monday" ∷ "Tuesday" ∷ "Wednesday" ∷ "Thursday" ∷ "Friday" ∷ "Saturday" ∷ "Sunday" ∷ [],
      3,
    )
    else if leb_ℤ days_until (pos 21)
    then ("Monday" ∷ "Tuesday" ∷ "Wednesday" ∷ "Thursday" ∷ "Friday" ∷ [], 2)
    else ("Monday" ∷ "Wednesday" ∷ "Friday" ∷ [], 1)

unfoldable pub questions_for : ℕ → SkillGraphNode → ℕ
questions_for base node = base + (if ltb_ℤ node.current_score (pos 60) then 1 else 0)

unfoldable pub make_drill_slot : Runtime → String → ℕ → SkillGraphNode → DrillSlot
make_drill_slot rt day base node = record {
  day = day;
  skill_name = node.skill_name;
  skill_category = node.category;
  current_score = node.current_score;
  trend = node.trend;
  questions = questions_for base node;
  estimated_minutes = questions_for base node * mins_per_question;
  focus_note = focus_note rt node;
}

-- The loop over `range(min(len(day_names), len(ranked)))`.
pub make_slots : Runtime → ℕ → List String → List SkillGraphNode → List DrillSlot
make_slots rt base [] ranked = []
make_slots rt base (day ∷ days) [] = []
make_slots rt base (day ∷ days) (node ∷ ranked) =
    make_drill_slot rt day base node ∷ make_slots rt base days ranked

pub record WeeklyPlan : Type 0 where
  pub slots : List DrillSlot
  pub total_skills : ℕ
  pub weakest_skill : Option String
  pub estimated_minutes_per_week : ℕ
  pub message : Option String

abbrev pub no_data : String
no_data = "No skill data yet. Complete an interview session and score it to build your skill graph."

-- `nodes` is what `get_user_graph` finds; `generated_at`, the moment, is left out.
unfoldable pub generate_weekly_plan :
    Floats → Runtime → ℕ → List SkillGraphNode → Option ℤ → WeeklyPlan
generate_weekly_plan fl rt now [] days_until = record {
  slots = [];
  total_skills = 0;
  weakest_skill = none;
  estimated_minutes_per_week = 0;
  message = some no_data;
}
generate_weekly_plan fl rt now (node ∷ nodes) days_until =
    let ranked = sorted_reverse fl.lt (urgency_score fl now) (node ∷ nodes) in
    let (days, base) = intensity days_until in
    let slots = make_slots rt base days ranked in
    record {
      slots = slots;
      total_skills = length (node ∷ nodes);
      weakest_skill = elim ranked [
        | [] ↦ none
        | first ∷ _ ↦ some (SkillGraphNode.skill_name first)
      ];
      estimated_minutes_per_week = sum_by (λ s. DrillSlot.estimated_minutes s) slots;
      message = none;
    }

pub record BestScore : Type 0 where
  pub skill_name : String
  pub skill_category : String
  pub current_score : ℤ
  pub best_score : ℤ
  pub gap : ℤ
  pub can_beat : Bool

unfoldable pub best_of : SkillGraphNode → BestScore
best_of node = record {
  skill_name = node.skill_name;
  skill_category = node.category;
  current_score = node.current_score;
  best_score = node.best_score;
  gap = node.best_score -ℤ node.current_score;
  can_beat = ltb_ℤ node.current_score node.best_score;
}

unfoldable pub get_best_scores : List SkillGraphNode → List BestScore
get_best_scores nodes =
    sorted_reverse ltb_ℤ (λ b. BestScore.gap b)
      (map best_of (filter (λ n. ltb_ℤ (pos 0) (SkillGraphNode.best_score n)) nodes))
