-- ===== src/Interviews/Rewinds.antt =====
-- backend/app/api/v1/rewind.py: an answer is given again and its segment scored anew. The scorer, with its
-- exceptions, `str.strip` and the texts of identifiers are parameters.
pub mod Best
use interviewcraft.Prelude.{
  ℕ, zero, suc, ◌+◌, ◌-◌, String, Bool, not, ◌&&◌, Option, none, some, get_or, List, [], ◌∷◌, ◌++◌,
  map, ltb, leb, ◌==ℕ◌, if◌then◌else◌, take, filter, find?, ℤ, pos, negsuc, ltb_ℤ, max_ℤ, ◌-ℤ◌,
  ◌==◌, nat_eq, string_eq, contains, Dict, lookup, concat, join, is_empty, Runtime,
}
use interviewcraft.Auth.Users.{Http, ok, raised}
use interviewcraft.Scoring.Json.{Result, returned, failed, runtime_error}
use interviewcraft.Interviews.{InterviewSession, get_owned_session, not_found}
use interviewcraft.Interviews.Scores.{Services, SegmentScore, ScoringResult, RuleTriggered, Db}
use interviewcraft.Interviews.SessionScoring.{graph_update, internal_error}

abbrev pub is_segment : ℕ → ℕ → SegmentScore → Bool
is_segment segment_id session_id r = r.id ==ℕ segment_id && r.session_id ==ℕ session_id

unfoldable pub get_segment : ℕ → ℕ → List SegmentScore → Option SegmentScore
get_segment segment_id session_id rows = find? (is_segment segment_id session_id) rows

unfoldable pub save_segment : SegmentScore → List SegmentScore → List SegmentScore
save_segment s [] = []
save_segment s (r ∷ rows) = (if r.id ==ℕ s.id then s else r) ∷ save_segment s rows

abbrev pub no_segment : {A : Type 0} → Http A
no_segment = raised 404 "Segment not found in this session"

unfoldable pub fixes : List RuleTriggered → List String
fixes [] = []
fixes (r ∷ rules) =
    let rest = fixes rules in
    let fix : String = get_or r.fix "" in if is_empty fix then rest else fix ∷ rest

unfoldable pub build_rewind_hint : List RuleTriggered → String
unfolding fixes
build_rewind_hint [] =
    "Good attempt! Try to sharpen your answer further — add more specific metrics and think about what the interviewer was really probing for."
build_rewind_hint (r ∷ rules) = elim (fixes (take 2 (r ∷ rules))) [
  | [] ↦ "This time, focus on making your answer more structured and specific."
  | f ∷ fs ↦ concat ("This time: " ∷ join " Also: " (f ∷ fs) ∷ [])
]

pub record RewindStart : Type 0 where
  pub segment_id : ℕ
  pub question : String
  pub original_score : ℤ
  pub original_answer_text : String
  pub hint : String
  pub rules_to_fix : List String

abbrev rule_ids : List RuleTriggered → List String
rule_ids rules = map (λ r. RuleTriggered.rule r) rules

unfoldable pub start_rewind : ℕ → ℕ → ℕ → Db → Http RewindStart
unfolding get_segment build_rewind_hint
start_rewind segment_id session_id user_id db =
    elim (get_owned_session session_id user_id db.sessions) [
      | none ↦ not_found
      | some s ↦ elim (get_segment segment_id session_id db.segment_scores) [
        | none ↦ no_segment
        | some r ↦ ok (record {
          segment_id = r.id;
          question = r.question_text;
          original_score = r.overall_score;
          original_answer_text = r.answer_text;
          hint = build_rewind_hint r.rules_triggered;
          rules_to_fix = rule_ids (take 3 r.rules_triggered);
        })
      ]
    ]

pub record CategoryDelta : Type 0 where
  pub structure : ℤ
  pub depth : ℤ
  pub communication : ℤ
  pub seniority_signal : ℤ

abbrev pub category_change : String → Dict String ℤ → Dict String ℤ → ℤ
category_change key orig_cats new_cats =
    get_or (lookup key new_cats) (pos 0) -ℤ get_or (lookup key orig_cats) (pos 0)

unfoldable pub category_delta : Dict String ℤ → Dict String ℤ → CategoryDelta
category_delta orig_cats new_cats = record {
  structure = category_change "structure" orig_cats new_cats;
  depth = category_change "depth" orig_cats new_cats;
  communication = category_change "communication" orig_cats new_cats;
  seniority_signal = category_change "seniority_signal" orig_cats new_cats;
}

-- `abs`
unfoldable pub magnitude : ℤ → ℕ
magnitude (pos n) = n
magnitude (negsuc n) = suc n

-- `max(cat_items, key=…)`, which keeps the first of the largest.
unfoldable pub biggest_of : String × ℤ → List (String × ℤ) → String × ℤ
unfolding magnitude
biggest_of best [] = best
biggest_of best (x ∷ items) =
    biggest_of (if ltb (magnitude best.1) (magnitude x.1) then x else best) items

unfoldable pub category_part : Runtime → String × ℤ → List String
unfolding magnitude
category_part rt (name, change) =
    if leb 5 (magnitude change)
    then concat (
        name
        ∷ ": "
        ∷ (if ltb_ℤ (pos 0) change then "↑" else "↓")
        ∷ rt.str_int (pos (magnitude change))
        ∷ "."
        ∷ [])
      ∷ []
    else []

unfoldable pub listed : String → ℕ → List String → List String
listed label n [] = []
listed label n (r ∷ rules) = concat (label ∷ join ", " (take n (r ∷ rules)) ∷ "." ∷ []) ∷ []

-- `_build_delta_reason`; the names of the categories are capitalised.
unfoldable pub build_delta_reason : Runtime → ℤ → List String → List String → CategoryDelta → String
unfolding biggest_of category_part listed magnitude
build_delta_reason rt (pos zero) rules_fixed rules_new cat =
    "Score unchanged. The rewind hit the same strengths and weaknesses."
build_delta_reason rt delta rules_fixed rules_new cat =
    let biggest =
      biggest_of ("Structure", cat.structure)
        (("Depth", cat.depth)
          ∷ ("Communication", cat.communication)
          ∷ ("Seniority", cat.seniority_signal)
          ∷ []) in
    join " " (
      concat (
        (if ltb_ℤ (pos 0) delta then "Improved by " else "Dropped by ")
        ∷ rt.str_int (pos (magnitude delta))
        ∷ " points."
        ∷ [])
      ∷ (listed "Fixed: " 3 rules_fixed
          ++ (listed "New issues: " 2 rules_new ++ category_part rt biggest)))

pub record RewindScore : Type 0 where
  pub segment_id : ℕ
  pub original_score : ℤ
  pub new_score : ℤ
  pub delta : ℤ
  pub categories_delta : CategoryDelta
  pub rules_fixed : List String
  pub rules_new : List String
  pub reason : String
  pub rewind_count : ℕ
  pub best_rewind_score : Option ℤ

-- `list(a - b)` on the sets of two lists of rules.
unfoldable pub difference : Runtime → List String → List String → List String
difference rt xs ys = rt.set_order (filter (λ r. not (contains r ys)) xs)

-- The row after a rewind with this score.
unfoldable pub rewound : ℤ → SegmentScore → SegmentScore
rewound new_score r = record r {
  rewind_count = r.rewind_count + 1;
  best_rewind_score = some (max_ℤ (get_or r.best_rewind_score (pos 0)) new_score);
}

abbrev pub empty_answer : {A : Type 0} → Http A
empty_answer = raised 422 "answer_text cannot be empty"

abbrev pub unavailable : {A : Type 0} → Http A
unavailable = raised 502 "Scoring service temporarily unavailable. Please try again."

-- `again` scores an answer to the question of a segment of this index.
module _ (sv : Services) (again : ℕ → String → String → Result ScoringResult) where
  unfoldable pub rewind_response : SegmentScore → ScoringResult → RewindScore
  unfolding category_delta build_delta_reason difference rewound
  rewind_response r result =
      let delta = result.overall_score -ℤ r.overall_score in
      let cat = category_delta r.category_scores result.categories in
      let original_rules = rule_ids r.rules_triggered in
      let new_rules = rule_ids result.rules_triggered in
      let rules_fixed = difference sv.rt original_rules new_rules in
      let rules_new = difference sv.rt new_rules original_rules in
      let after = rewound result.overall_score r in
      record {
        segment_id = r.id;
        original_score = r.overall_score;
        new_score = result.overall_score;
        delta = delta;
        categories_delta = cat;
        rules_fixed = rules_fixed;
        rules_new = rules_new;
        reason = build_delta_reason sv.rt delta rules_fixed rules_new cat;
        rewind_count = after.rewind_count;
        best_rewind_score = after.best_rewind_score;
      }

  unfoldable pub rescored :
      InterviewSession → SegmentScore → Result ScoringResult → Db → Http RewindScore × Db
  unfolding rewind_response rewound save_segment
  rescored s r (failed runtime_error) db = (unavailable, db)
  rescored s r (failed _) db = (internal_error, db)
  rescored s r (returned result) db = (
    ok (rewind_response r result),
    record db {
      segment_scores = save_segment (rewound result.overall_score r) db.segment_scores;
      tables = record (db.tables) {
        skills =
            graph_update sv s r.segment_index result.overall_score result.rules_triggered
              result.skill_signals (db.tables).skills;
      };
    },
  )

  unfoldable pub rewind_segment :
      InterviewSession → Option SegmentScore → String → Db → Http RewindScore × Db
  unfolding rescored
  rewind_segment s none answer_text db = (no_segment, db)
  rewind_segment s (some r) answer_text db =
      if is_empty ((sv.stories).strip answer_text)
      then (empty_answer, db)
      else rescored s r (again r.segment_index r.question_text answer_text) db

  unfoldable pub score_rewind : String → ℕ → ℕ → ℕ → Db → Http RewindScore × Db
  unfolding rewind_segment get_owned_session get_segment
  score_rewind answer_text segment_id session_id user_id db =
      elim (get_owned_session session_id user_id db.sessions) [
        | none ↦ (not_found, db)
        | some s ↦
            rewind_segment s (get_segment segment_id session_id db.segment_scores) answer_text db
      ]
