-- ===== src/Interviews/Rewinds/Best.antt =====
-- Any number of rewinds of a segment: how many count, and the best of their scores.
use interviewcraft.Prelude.{
  ℕ, ◌+◌, String, ◌≡◌, refl, ap, ◌∙◌, subst, ◌⊎◌, inl, inr, false, Option, some, get_or, List, [],
  ◌∷◌, ◌++◌, arith, ◌==ℕ◌, if◌then◌else◌, Bool-cases, length, All, ℤ, pos, ◌≤ℤ◌, ltb_ℤ, max_ℤ,
  nat_eq, string_eq, is_empty,
}
use interviewcraft.Scoring.Json.{
  Result, returned, failed, value_error, key_error, json_decode_error, attribute_error, type_error,
  runtime_error, api_error,
}
use interviewcraft.Interviews.{InterviewSession, get_owned_session}
use interviewcraft.Interviews.Scores.{Services, SegmentScore, ScoringResult, Db}
use interviewcraft.Interviews.Rewinds.{
  get_segment, save_segment, rewound, rescored, rewind_segment, score_rewind,
}

-- A value of the list.
abbrev pub IsIn : ℤ → List ℤ → Type 0
IsIn m [] = ⊥
IsIn m (k ∷ ks) = (m ≡ k) ⊎ IsIn m ks

-- The best of the old best, 0 if there is none, and the new scores; as before without new scores.
abbrev pub IsBest : List ℤ → Option ℤ → Option ℤ → Type 0
IsBest [] old best = best ≡ old
IsBest (k ∷ ks) old best =
    (m : ℤ) × (best ≡ some m)
    × All (λ s. s ≤ℤ m) (get_or old (pos 0) ∷ k ∷ ks)
    × IsIn m (get_or old (pos 0) ∷ k ∷ ks)

max_upper : (a b m : ℤ) → max_ℤ a b ≤ℤ m → (a ≤ℤ m) × (b ≤ℤ m)
max_upper a b m h = ground (arith, h)

max_one : (a b : ℤ) → (max_ℤ a b ≡ a) ⊎ (max_ℤ a b ≡ b)
max_one a b = elim (Bool-cases (ltb_ℤ a b)) [ inl y ↦ rw y (inr refl) | inr n ↦ rw n (inl refl) ]

IsIn-max : (m a b : ℤ) (ks : List ℤ) → IsIn m (max_ℤ a b ∷ ks) → IsIn m (a ∷ b ∷ ks)
IsIn-max m a b ks (inl e) = elim (max_one a b) [ inl x ↦ inl (e ∙ x) | inr y ↦ inr (inl (e ∙ y)) ]
IsIn-max m a b ks (inr k) = inr (inr k)

IsBest-step :
    (k : ℤ) (ks : List ℤ) (old best : Option ℤ)
    → IsBest ks (some (max_ℤ (get_or old (pos 0)) k)) best
    → IsBest (k ∷ ks) old best
IsBest-step k [] old best e =
    let a = get_or old (pos 0) in
    let (p, q) = max_upper a k (max_ℤ a k) (omega arith) in
    (max_ℤ a k, e, (p, (q, tt)), IsIn-max (max_ℤ a k) a k [] (inl refl))
IsBest-step k (j ∷ ks) old best (m, e, (lo, rest), within) =
    let a = get_or old (pos 0) in
    let (p, q) = max_upper a k m lo in (m, e, (p, (q, rest)), IsIn-max m a k (j ∷ ks) within)

-- The row as it was, but for the number of rewinds and their best score.
abbrev pub IsRewound : SegmentScore → List ℤ → SegmentScore → Type 0
IsRewound r scores x =
    (x ≡ record r { rewind_count = x.rewind_count; best_rewind_score = x.best_rewind_score })
    × (x.rewind_count ≡ r.rewind_count + length scores)
    × IsBest scores r.best_rewind_score x.best_rewind_score

IsRewound-step :
    (k : ℤ) (ks : List ℤ) (r x : SegmentScore)
    → IsRewound (rewound k r) ks x
    → IsRewound r (k ∷ ks) x
unfolding rewound
IsRewound-step k ks r x (e, n, b) =
    (e, n ∙ omega arith, IsBest-step k ks r.best_rewind_score x.best_rewind_score b)

found_at :
    (segment_id session_id : ℕ) (rows : List SegmentScore) (r : SegmentScore)
    → get_segment segment_id session_id rows ≡ some r
    → (r.id ≡ segment_id) × (r.session_id ≡ session_id)
unfolding get_segment
found_at segment_id session_id [] r e = cc
found_at segment_id session_id (x ∷ rows) r e =
    ground (arith, found_at segment_id session_id rows r)

found-save_segment :
    (segment_id session_id : ℕ) (rows : List SegmentScore) (r r' : SegmentScore)
    → get_segment segment_id session_id rows ≡ some r
    → r'.id ≡ r.id
    → r'.session_id ≡ r.session_id
    → get_segment segment_id session_id (save_segment r' rows) ≡ some r'
unfolding save_segment get_segment
found-save_segment segment_id session_id [] r r' e i o = cc
found-save_segment segment_id session_id (x ∷ rows) r r' e i o =
    elim (Bool-cases (x.id ==ℕ r'.id)) [
      | inl y ↦ ground (arith, found_at segment_id session_id (x ∷ rows) r e)
      | inr n ↦
          let at = found_at segment_id session_id (x ∷ rows) r e in
          let other : (x.id ==ℕ segment_id) ≡ false = ground (arith, at) in
          let e' : get_segment segment_id session_id rows ≡ some r = rw other at e in
          rw (n, other) (found-save_segment segment_id session_id rows r r' e' i o)
    ]

-- What the scorer answers at one rewind.
abbrev pub Scorer : Type 0
Scorer = ℕ → String → String → Result ScoringResult

module _ (sv : Services) where
  abbrev pub score_in : Result ScoringResult → List ℤ
  score_in (returned result) = result.overall_score ∷ []
  score_in (failed x) = []

  -- The score of an answer, if it is not blank and the scorer scores it, and those of a list.
  abbrev pub scores_of : Scorer → ℕ → String → String → List ℤ
  scores_of again index question a =
      if is_empty ((sv.stories).strip a) then [] else score_in (again index question a)

  abbrev pub new_scores : ℕ → String → List (Scorer × String) → List ℤ
  new_scores index question [] = []
  new_scores index question ((again, a) ∷ answers) =
      scores_of again index question a ++ new_scores index question answers

  abbrev pub rewinds : List (Scorer × String) → ℕ → ℕ → ℕ → Db → Db
  rewinds [] segment_id session_id user_id db = db
  rewinds ((again, a) ∷ answers) segment_id session_id user_id db =
      rewinds answers segment_id session_id user_id
        (score_rewind sv again a segment_id session_id user_id db).1

  -- A rewind leaves a row from which later ones go on.
  abbrev IsStep : ℕ → ℕ → SegmentScore → List ℤ → Db → Db → Type 0
  IsStep segment_id session_id r scores db after =
      (r' : SegmentScore) × (get_segment segment_id session_id after.segment_scores ≡ some r')
      × (after.sessions ≡ db.sessions)
      × (r'.segment_index ≡ r.segment_index)
      × (r'.question_text ≡ r.question_text)
      × ((ks : List ℤ) (x : SegmentScore) → IsRewound r' ks x → IsRewound r (scores ++ ks) x)

  module _ (again : Scorer) (segment_id session_id : ℕ) (s : InterviewSession) (r : SegmentScore)
      (db : Db) (at : get_segment segment_id session_id db.segment_scores ≡ some r) where
    unchanged : IsStep segment_id session_id r [] db db
    unchanged = (r, at, refl, refl, refl, λ ks x h. h)

    rescored-IsStep :
        (result : Result ScoringResult)
        → IsStep segment_id session_id r (score_in result) db (rescored sv again s r result db).1
    unfolding rescored
    rescored-IsStep (failed runtime_error) = unchanged
    rescored-IsStep (failed value_error) = unchanged
    rescored-IsStep (failed key_error) = unchanged
    rescored-IsStep (failed json_decode_error) = unchanged
    rescored-IsStep (failed attribute_error) = unchanged
    rescored-IsStep (failed type_error) = unchanged
    rescored-IsStep (failed api_error) = unchanged
    rescored-IsStep (returned result) =
        let r' = rewound result.overall_score r in
        (
          r',
          found-save_segment segment_id session_id db.segment_scores r r' at
              (unfold rewound in refl) (unfold rewound in refl),
          refl,
          unfold rewound in refl,
          unfold rewound in refl,
          λ ks x h. IsRewound-step result.overall_score ks r x h,
        )

    segment-IsStep :
        (found : Option SegmentScore) (a : String)
        → found ≡ some r
        → IsStep segment_id session_id r
            (scores_of again r.segment_index r.question_text a)
            db
            (rewind_segment sv again s found a db).1
    unfolding rewind_segment
    segment-IsStep found a e = elim (Bool-cases (is_empty ((sv.stories).strip a))) [
      | inl y ↦ rw (e, y) unchanged
      | inr n ↦ rw (e, n) (rescored-IsStep (again r.segment_index r.question_text a))
    ]

    score_rewind-IsStep :
        (user_id : ℕ) (a : String)
        → get_owned_session session_id user_id db.sessions ≡ some s
        → IsStep segment_id session_id r
            (scores_of again r.segment_index r.question_text a)
            db
            (score_rewind sv again a segment_id session_id user_id db).1
    unfolding score_rewind get_segment
    score_rewind-IsStep user_id a f =
        rw (score_rewind, f)
          (segment-IsStep (get_segment segment_id session_id db.segment_scores) a at)

  -- However often a segment of an owned session is rewound, whatever the scorer answers at each, its row keeps all but two columns: the count is
  -- larger by the rewinds that were scored, blank answers and failed calls not counted, and the best score is
  -- the greatest of theirs and of the old best, 0 if there was none.
  pub rewinds-IsRewound :
      (answers : List (Scorer × String)) (segment_id session_id user_id : ℕ) (s : InterviewSession)
      (r : SegmentScore) (db : Db)
      → get_owned_session session_id user_id db.sessions ≡ some s
      → get_segment segment_id session_id db.segment_scores ≡ some r
      → (x : SegmentScore) × (get_segment segment_id session_id
            (rewinds answers segment_id session_id user_id db).segment_scores
          ≡ some x)
        × IsRewound r (new_scores r.segment_index r.question_text answers) x
  rewinds-IsRewound [] segment_id session_id user_id s r db f at =
      (r, at, (refl, omega arith, refl))
  rewinds-IsRewound ((again, a) ∷ answers) segment_id session_id user_id s r db f at =
      let after = (score_rewind sv again a segment_id session_id user_id db).1 in
      let (r', at', kept, index, question, go) =
        score_rewind-IsStep again segment_id session_id s r db at user_id a f in
      let (x, here, h) =
        rewinds-IsRewound answers segment_id session_id user_id s r' after
          (ap (λ t. get_owned_session session_id user_id t) kept ∙ f) at' in
      (
        x,
        here,
        go (new_scores r.segment_index r.question_text answers) x (
            subst (λ i. IsRewound r' (new_scores i r.question_text answers) x) index
              (subst (λ q. IsRewound r' (new_scores r'.segment_index q answers) x) question h)),
      )
