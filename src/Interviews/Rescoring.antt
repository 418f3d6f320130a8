-- ===== src/Interviews/Rescoring.antt =====
-- Scoring a session again: without force nothing changes, with force the rows of the scores are doubled.
use interviewcraft.Prelude.{
  ℕ, ◌≡◌, refl, ap, ◌∙◌, inl, inr, Bool, true, false, not, ◌&&◌, Option, none, some, List, [], ◌∷◌,
  map, arith, Bool-cases, ℤ, ◌+ℤ◌, nat_eq, string_eq,
}
use interviewcraft.Auth.Users.{ok}
use interviewcraft.Scoring.Sessions.{Segment, extract_qa_segments}
use interviewcraft.Interviews.{
  InterviewSession, LintResults, get_owned_session, save, is_active_status,
}
use interviewcraft.Interviews.Requests.{found-save, found-listed}
use interviewcraft.Interviews.Scores.{
  SegmentScore, Scored, Services, Db, Response, gather, without_failures, with_summary, is_scored,
  get_segment_scores,
}
use interviewcraft.Interviews.SessionScoring.{
  row_of, total_cost, flagged, existing, summarised, store_results, score_segments, score_lint,
  score_row, score_found, score_session,
}

-- A session that is over, scored, and whose skill graph is up to date.
abbrev IsSettled : InterviewSession → Type 0
IsSettled s =
    (lint : LintResults) × (s.lint_results ≡ some lint)
    × (is_scored (some lint) ≡ true)
    × (lint.skill_graph_updated ≡ true)
    × (is_active_status s.status ≡ false)

existing_settled :
    (sv : Services) (s : InterviewSession) (lint : LintResults) (db : Db)
    → lint.skill_graph_updated ≡ true
    → existing sv s lint db ≡ (ok (get_segment_scores s.id db.segment_scores), db)
unfolding existing
existing_settled sv s lint db u = rw u refl

score_lint_settled :
    (sv : Services) (s : InterviewSession) (l : Option LintResults) (lint : LintResults) (db : Db)
    → l ≡ some lint
    → is_scored (some lint) ≡ true
    → lint.skill_graph_updated ≡ true
    → score_lint sv s false l db ≡ (ok (get_segment_scores s.id db.segment_scores), db)
unfolding score_lint
score_lint_settled sv s l lint db e k u = rw (e, k) (existing_settled sv s lint db u)

score_row_settled :
    (sv : Services) (s : InterviewSession) (db : Db)
    → IsSettled s
    → score_row sv s false db ≡ (ok (get_segment_scores s.id db.segment_scores), db)
unfolding score_row
score_row_settled sv s db (lint, l, k, u, a) =
    rw a (score_lint_settled sv s s.lint_results lint db l k u)

-- What a call leaves: the session, settled, if it answers with a score.
abbrev IsLeft : ℕ → ℕ → Response → Type 0
IsLeft session_id user_id (a, db) =
    (r : SegmentScore) (rows : List SegmentScore)
    → a ≡ ok (r ∷ rows)
    → (s : InterviewSession) × (get_owned_session session_id user_id db.sessions ≡ some s)
      × IsSettled s

module _ (sv : Services) (session_id user_id : ℕ) (s : InterviewSession) (db : Db)
    (found : get_owned_session session_id user_id db.sessions ≡ some s)
    (over : is_active_status s.status ≡ false) where
  settled :
      (s' : InterviewSession)
      → s'.id ≡ s.id
      → s'.user_id ≡ s.user_id
      → IsSettled s'
      → (x : InterviewSession) × (get_owned_session session_id user_id (save s' db.sessions)
          ≡ some x)
        × IsSettled x
  settled s' i o h = (s', found-save session_id user_id db.sessions s s' found i o, h)

  existing-IsLeft :
      (lint : LintResults)
      → s.lint_results ≡ some lint
      → is_scored (some lint) ≡ true
      → IsLeft session_id user_id (existing sv s lint db)
  unfolding existing is_scored
  existing-IsLeft lint l k = elim (Bool-cases lint.skill_graph_updated) [
    | inl y ↦ rw y (λ r rows e. (s, found, (lint, l, k, y, over)))
    | inr n ↦ rw n (λ r rows e.
        settled (record s { lint_results = some (flagged sv s lint) }) refl refl
          (flagged sv s lint, refl, k, refl, over))
  ]

  summarised-IsSettled :
      (rows : List SegmentScore) (r : SegmentScore) (rest : List SegmentScore) (cost : ℤ)
      → rows ≡ r ∷ rest
      → (x : InterviewSession) × (get_owned_session session_id user_id
            (summarised sv s rows cost db.sessions)
          ≡ some x)
        × IsSettled x
  unfolding summarised with_summary is_scored
  summarised-IsSettled [] r rest cost e = absurd cc
  summarised-IsSettled (q ∷ rows) r rest cost e =
      settled
        (record s {
          lint_results = some (with_summary (q ∷ rows) s.lint_results);
          total_cost_usd = s.total_cost_usd +ℤ cost;
        })
        refl refl (with_summary (q ∷ rows) s.lint_results, refl, ground arith, refl, over)

  store_results-IsLeft :
      (results : List (Option Scored)) (cost : Option ℤ)
      → IsLeft session_id user_id (store_results sv s results cost db)
  unfolding store_results
  store_results-IsLeft results none = λ r rows e. absurd cc
  store_results-IsLeft results (some cost) = λ r rows e.
      summarised-IsSettled (map (λ x. row_of sv s x) (without_failures results)) r rows cost
        (ground arith)

  segments-IsLeft :
      (segments : List Segment) → IsLeft session_id user_id (score_segments sv s segments db)
  unfolding score_segments
  segments-IsLeft [] = λ r rows e. absurd cc
  segments-IsLeft (x ∷ segments) =
      let results = gather sv.score 0 (x ∷ segments) in
      store_results-IsLeft results (total_cost sv s (without_failures results))

  lint-IsLeft :
      (force : Bool) (l : Option LintResults)
      → s.lint_results ≡ l
      → IsLeft session_id user_id (score_lint sv s force l db)
  unfolding score_lint
  lint-IsLeft force none e = segments-IsLeft (extract_qa_segments sv.word_count s.transcript)
  lint-IsLeft force (some lint) e = elim (Bool-cases (is_scored (some lint) && not force)) [
    | inl y ↦ rw y (existing-IsLeft lint e (ground arith))
    | inr n ↦ rw n (segments-IsLeft (extract_qa_segments sv.word_count s.transcript))
  ]

row-IsLeft :
    (sv : Services) (force : Bool) (session_id user_id : ℕ) (s : InterviewSession) (db : Db)
    → get_owned_session session_id user_id db.sessions ≡ some s
    → IsLeft session_id user_id (score_row sv s force db)
unfolding score_row
row-IsLeft sv force session_id user_id s db found = elim (Bool-cases (is_active_status s.status)) [
  | inl y ↦ rw y (λ r rows e. absurd cc)
  | inr n ↦ rw n (lint-IsLeft sv session_id user_id s db found n force s.lint_results refl)
]

found-IsLeft :
    (sv : Services) (force : Bool) (session_id user_id : ℕ) (found : Option InterviewSession)
    (db : Db)
    → get_owned_session session_id user_id db.sessions ≡ found
    → IsLeft session_id user_id (score_found sv force found db)
unfolding score_found
found-IsLeft sv force session_id user_id none db e = λ r rows e. absurd cc
found-IsLeft sv force session_id user_id (some s) db e =
    row-IsLeft sv force session_id user_id s db e

found_settled :
    (sv : Services) (session_id user_id : ℕ) (s : InterviewSession) (db : Db)
    → get_owned_session session_id user_id db.sessions ≡ some s
    → IsSettled s
    → score_session sv false session_id user_id db
      ≡ (ok (get_segment_scores session_id db.segment_scores), db)
unfolding score_session score_found
found_settled sv session_id user_id s db e h =
    rw e (score_row_settled sv s db h)
    ∙ ap (λ i. (ok (get_segment_scores i db.segment_scores), db))
        (found-listed session_id user_id db.sessions s e).0

-- Once a call has answered with at least one score, every later call without force, whatever the scorer
-- would say, answers with the rows of the session and changes nothing.
pub score_session-again :
    (sv sv' : Services) (force : Bool) (session_id user_id : ℕ) (db : Db) (r : SegmentScore)
    (rows : List SegmentScore)
    → (score_session sv force session_id user_id db).0 ≡ ok (r ∷ rows)
    → let after = (score_session sv force session_id user_id db).1 in
      score_session sv' false session_id user_id after
      ≡ (ok (get_segment_scores session_id after.segment_scores), after)
unfolding score_session
score_session-again sv sv' force session_id user_id db r rows e =
    let (s, at, h) =
      found-IsLeft sv force session_id user_id (get_owned_session session_id user_id db.sessions) db
        refl r rows e in
    found_settled sv' session_id user_id s (score_session sv force session_id user_id db).1 at h
