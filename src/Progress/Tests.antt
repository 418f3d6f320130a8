-- ===== src/Progress/Tests.antt =====
-- The theorems on cards and on the readiness, with integers for floats.
use interviewcraft.Prelude.{
  ◌≡◌, refl, none, List, [], ◌∷◌, arith, length, ℤ, pos, ltb_ℤ, +ℤ_parts, ◌+ℤ◌, nat_eq, string_eq,
  ne_of_test,
}
use interviewcraft.Auth.Users.{raised}
use interviewcraft.Memory.Skills.{SkillGraphNode, stable}
use interviewcraft.Memory.DrillPlanner.{Floats, IsOrdered}
use interviewcraft.Interviews.{SessionCreate, InterviewSession, completed, new_session, of_user}
use interviewcraft.Progress.{
  Forms, ShareCard, snapshot_of, completed_count, new_card, create_share_card, get_share_card,
  share_readiness, dashboard_readiness,
}
use interviewcraft.Progress.Cards.{get-create_share_card}
use interviewcraft.Progress.Readiness.{IsMonotone, IsEstimate, share_readiness-dashboard_readiness}

abbrev floats : Floats
floats = record {
  Float = ℤ;
  of_int = λ n. n;
  decimal = λ n d. n;
  add = λ a b. a +ℤ b;
  mul = λ a b. a;
  div = λ a b. a;
  lt = ltb_ℤ;
}

abbrev forms : Forms floats
forms = record { round1 = λ x. x; trunc = λ x. x; title = λ s. s; isoformat = λ t. "2026-02-01" }

floats-IsOrdered : IsOrdered floats
floats-IsOrdered = record { asym = λ a b h. ground arith; trans = λ a b c h k. ground arith }

forms-IsMonotone : IsMonotone floats forms
forms-IsMonotone = record {
  add_mono = λ x a b h. ground (arith, h, +ℤ_parts x (pos a), +ℤ_parts x (pos b));
  add_up = λ x a. ground (arith, +ℤ_parts x (pos a));
  trunc_mono = λ x y h. ground (arith, h);
}

abbrev pacing : SkillGraphNode
pacing = record {
  user_id = 1;
  skill_name = "pacing";
  category = "communication";
  current_score = pos 62;
  best_score = pos 62;
  trend = stable;
  evidence_links = [];
  typical_mistakes = [];
  last_practiced = none;
  next_review_due = none;
}

abbrev request : SessionCreate
request = record {
  type = "behavioral";
  interview_type = none;
  quality_profile = "balanced";
  voice_id = none;
  persona = "neutral";
  company = none;
  focus_skill = none;
  duration_limit_minutes = none;
}

abbrev table : List InterviewSession
table =
    record (new_session 10 5 1 "diagnostic" request) { status = completed }
    ∷ new_session 11 6 1 "behavioral" request
    ∷ []

abbrev old_card : ShareCard floats
old_card = new_card floats forms 3 "tok-1" 2 (snapshot_of floats forms 3 (pacing ∷ []) 0)

get-create_share_card_example :
    let after =
      (create_share_card floats forms 10 "tok-2" 1 (pacing ∷ []) table (old_card ∷ [])).1 in
    (get_share_card floats forms 2_592_011 "tok-2" after ≡ raised 404 "Card has expired.")
    × (get_share_card floats forms 2_592_011 "tok-1" after
        ≡ get_share_card floats forms 2_592_011 "tok-1" (old_card ∷ []))
get-create_share_card_example =
    get-create_share_card floats forms 10 2_592_011 1 "tok-2" "tok-1" pacing [] table
      (old_card ∷ []) refl (ne_of_test "tok-1" "tok-2" refl)

share_readiness-dashboard_readiness_example :
    IsEstimate
      (pacing ∷ [])
      (share_readiness floats forms (pacing ∷ []) (completed_count 1 table))
      (dashboard_readiness floats forms (pacing ∷ []) (length (of_user 1 table)) 4)
share_readiness-dashboard_readiness_example =
    share_readiness-dashboard_readiness floats forms floats-IsOrdered forms-IsMonotone 1 4
      (pacing ∷ []) table
