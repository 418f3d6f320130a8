-- ===== src/Progress.antt =====
-- backend/app/api/v1/share.py with backend/app/models/share_card.py, and the readiness of
-- backend/app/api/v1/dashboard.py. Floats, their rounding, and the forms of names and dates are parameters.
pub mod Cards
pub mod Readiness
mod Tests
use interviewcraft.Prelude.{
  ℕ, ◌+◌, ◌*◌, min, String, Bool, true, false, not, Option, none, some, get_or, List, [], ◌∷◌, ◌++◌,
  map, ltb, if◌then◌else◌, length, take, filter, find?, ℤ, pos, ltb_ℤ, min_ℤ, ◌+ℤ◌, ◌==◌, nat_eq,
  string_eq, Dict, lookup, insert, sorted_reverse,
}
use interviewcraft.Auth.Users.{Http, ok, raised}
use interviewcraft.Memory.Skills.{SkillGraphNode}
use interviewcraft.Memory.DrillPlanner.{Floats}
use interviewcraft.Interviews.{
  InterviewSession, SessionStatus, active, completed, abandoned, of_user,
}

-- `round(x, 1)` and `int(x)`, `name.replace("_", " ").title()`, and `isoformat`.
pub record Forms (fl : Floats) : Type 0 where
  pub round1 : fl.Float → fl.Float
  pub trunc : fl.Float → ℤ
  pub title : String → String
  pub isoformat : ℕ → String

pub record Snapshot (fl : Floats) : Type 0 where
  pub readiness_score : ℤ
  pub avg_skill_score : fl.Float
  pub skill_scores_by_category : Dict String fl.Float
  pub top_strengths : List String
  pub session_count : ℕ
  pub generated_at : String

pub record ShareCard (fl : Floats) : Type 0 where
  pub user_id : ℕ
  pub token : String
  pub snapshot_data : Snapshot fl
  pub created_at : ℕ
  pub expires_at : Option ℕ

pub record PublicCard (fl : Floats) : Type 0 where
  pub token : String
  pub snapshot : Snapshot fl
  pub created_at : String
  pub expires_at : Option String

-- `_SHARE_TTL_DAYS`, in seconds.
abbrev pub share_ttl : ℕ
share_ttl = 2_592_000

unfoldable pub sum_of : List ℤ → ℤ
sum_of [] = pos 0
sum_of (s ∷ scores) = s +ℤ sum_of scores

abbrev pub scores_of : List SkillGraphNode → List ℤ
scores_of nodes = map (λ n. SkillGraphNode.current_score n) nodes

abbrev pub is_completed : InterviewSession → Bool
is_completed s = elim (InterviewSession.status s) [
  | active ↦ false
  | completed ↦ true
  | abandoned ↦ false
]

-- `select(func.count(…))` on the completed sessions of a user.
unfoldable pub completed_count : ℕ → List InterviewSession → ℕ
completed_count user_id table = length (filter is_completed (of_user user_id table))

unfoldable pub session_signal : ℕ → ℕ
session_signal session_count = min 30 (session_count * 3)

unfoldable pub story_signal : ℕ → ℕ
story_signal total_stories = min 10 (total_stories * 2)

-- `cat_buckets[n.skill_category].append(n.current_score)`
unfoldable pub bucketed : List SkillGraphNode → Dict String (List ℤ) → Dict String (List ℤ)
bucketed [] buckets = buckets
bucketed (n ∷ nodes) buckets =
    bucketed nodes
      (insert n.category (get_or (lookup n.category buckets) [] ++ (n.current_score ∷ [])) buckets)

module _ (fl : Floats) (fm : Forms fl) where
  -- `round(sum(scores) / len(scores), 1)`
  unfoldable pub mean1 : List ℤ → fl.Float
  unfolding sum_of
  mean1 scores = fm.round1 (fl.div (fl.of_int (sum_of scores)) (fl.of_int (pos (length scores))))

  -- `avg_skill * 0.6 + session_signal`
  abbrev pub weighted : fl.Float → ℕ → fl.Float
  weighted avg_skill signal =
      fl.add (fl.mul avg_skill (fl.decimal (pos 6) 1)) (fl.of_int (pos signal))

  unfoldable pub share_readiness : List SkillGraphNode → ℕ → ℤ
  unfolding mean1 session_signal
  share_readiness nodes session_count =
      min_ℤ (pos 100) (fm.trunc (weighted (mean1 (scores_of nodes)) (session_signal session_count)))

  -- `none` is no estimate, before there are skills.
  unfoldable pub dashboard_readiness : List SkillGraphNode → ℕ → ℕ → Option ℤ
  unfolding mean1 session_signal story_signal
  dashboard_readiness [] total_sessions total_stories = none
  dashboard_readiness (n ∷ nodes) total_sessions total_stories = some (
      min_ℤ (pos 100) (
        fm.trunc (
          fl.add (weighted (mean1 (scores_of (n ∷ nodes))) (session_signal total_sessions))
            (fl.of_int (pos (story_signal total_stories))))))

  unfoldable pub snapshot_of : ℕ → List SkillGraphNode → ℕ → Snapshot fl
  unfolding share_readiness mean1 bucketed
  snapshot_of now nodes session_count = record {
    readiness_score = share_readiness nodes session_count;
    avg_skill_score = mean1 (scores_of nodes);
    skill_scores_by_category = map (λ b. (b.0, mean1 b.1)) (bucketed nodes []);
    top_strengths =
        map (λ n. fm.title (SkillGraphNode.skill_name n))
          (take 3 (sorted_reverse ltb_ℤ (λ n. SkillGraphNode.current_score n) nodes));
    session_count = session_count;
    generated_at = fm.isoformat now;
  }

  abbrev pub new_card : ℕ → String → ℕ → Snapshot fl → ShareCard fl
  new_card now token user_id snapshot = record {
    user_id = user_id;
    token = token;
    snapshot_data = snapshot;
    created_at = now;
    expires_at = some (now + share_ttl);
  }

  -- `token` is `secrets.token_urlsafe(24)`; the answer is the card's token and its expiry.
  unfoldable pub create_share_card :
      ℕ
      → String
      → ℕ
      → List SkillGraphNode
      → List InterviewSession
      → List (ShareCard fl)
      → Http (String × String) × List (ShareCard fl)
  unfolding snapshot_of completed_count
  create_share_card now token user_id [] sessions cards =
      (raised 422 "Complete at least one scored session before sharing.", cards)
  create_share_card now token user_id (n ∷ nodes) sessions cards =
      let snapshot = snapshot_of now (n ∷ nodes) (completed_count user_id sessions) in
      (
        ok (token, fm.isoformat (now + share_ttl)),
        cards ++ (new_card now token user_id snapshot ∷ []),
      )

  abbrev pub has_expired : ℕ → Option ℕ → Bool
  has_expired now none = false
  has_expired now (some expires_at) = ltb expires_at now

  abbrev pub public_card : ShareCard fl → PublicCard fl
  public_card card = record {
    token = card.token;
    snapshot = card.snapshot_data;
    created_at = fm.isoformat card.created_at;
    expires_at = elim card.expires_at [ none ↦ none | some t ↦ some (fm.isoformat t) ];
  }

  unfoldable pub shown_card : ℕ → Option (ShareCard fl) → Http (PublicCard fl)
  shown_card now none = raised 404 "Card not found."
  shown_card now (some card) =
      if has_expired now card.expires_at
      then raised 404 "Card has expired."
      else ok (public_card card)

  unfoldable pub get_share_card : ℕ → String → List (ShareCard fl) → Http (PublicCard fl)
  unfolding shown_card
  get_share_card now token cards = shown_card now (find? (λ c. ShareCard.token c == token) cards)
