-- ===== src/Interviews/Rewritten.antt =====
-- The requests that write the results of a session into its row: its scoring (backend/app/api/v1/scoring.py),
-- its delivery and the analysis of a negotiation (backend/app/api/v1/negotiation.py).
use interviewcraft.Prelude.{
  ℕ, ◌≡◌, refl, sym, subst, ◌⊎◌, inl, inr, Bool, not, ◌&&◌, Option, none, some, get_or, List, [],
  ◌∷◌, map, Bool-cases, Option-cases, find?, All-find?, ℤ, nat_eq, string_eq,
}
use interviewcraft.Delivery.{TranscriptWord, Speech, DeliveryAnalysis}
use interviewcraft.Scoring.Sessions.{Segment, extract_qa_segments}
use interviewcraft.Negotiation.{
  is_round, analysis_of, with_analysis, has_turns, analyze_negotiation, analysed, analysed_now,
  row_analysis, found_analysis, get_negotiation_analysis,
}
use interviewcraft.Progress.{is_completed}
use interviewcraft.Interviews.{
  InterviewSession, NegotiationAnalysis, LintResults, is_active_status, is_owned, save,
  get_owned_session,
}
use interviewcraft.Interviews.Scores.{
  SegmentScore, Scored, Services, Db, gather, without_failures, is_scored, no_lint,
}
use interviewcraft.Interviews.SessionScoring.{
  row_of, existing, summarised, store_results, total_cost, score_segments, score_lint, score_row,
  score_found, score_session,
}
use interviewcraft.Interviews.DeliveryResults.{
  cached_delivery, found_delivery, get_delivery_analysis,
}
use interviewcraft.Interviews.Rows.{IsTable, IsDated, save-IsTable}

-- A table is left as it is, or one row of it is written anew with the same identifier, status and end.
abbrev pub IsRewritten : List InterviewSession → List InterviewSession → Type 0
IsRewritten table after =
    (after ≡ table)
    ⊎ ((p : InterviewSession → Bool) × (s : InterviewSession) × (s' : InterviewSession) × (find? p
            table
          ≡ some s)
        × (s'.id ≡ s.id)
        × (s'.status ≡ s.status)
        × (s'.ended_at ≡ s.ended_at)
        × (after ≡ save s' table))

pub rewritten-IsTable :
    (used : List ℕ) (table after : List InterviewSession)
    → IsRewritten table after
    → IsTable used table
    → IsTable used after
rewritten-IsTable used table after (inl e) h = subst (IsTable used) (sym e) h
rewritten-IsTable used table after (inr (p, s, s', f, i, st, en, e)) (d, u, t) =
    let dated : IsDated s = All-find? IsDated p table s t f in
    subst (IsTable used) (sym e) (save-IsTable used s' table (rw (st, en) dated) (d, u, t))

-- The scoring.
module _ (sv : Services) (p : InterviewSession → Bool) (s : InterviewSession) where
  summarised-IsRewritten :
      (rows : List SegmentScore) (cost : ℤ) (sessions : List InterviewSession)
      → find? p sessions ≡ some s
      → IsRewritten sessions (summarised sv s rows cost sessions)
  unfolding summarised
  summarised-IsRewritten [] cost sessions f = inl refl
  summarised-IsRewritten (r ∷ rows) cost sessions f = inr (p, s, _, f, refl, refl, refl, refl)

  stored-IsRewritten :
      (results : List (Option Scored)) (cost : Option ℤ) (db : Db)
      → find? p db.sessions ≡ some s
      → IsRewritten db.sessions (store_results sv s results cost db).1.sessions
  unfolding store_results
  stored-IsRewritten results none db f = inl refl
  stored-IsRewritten results (some cost) db f =
      summarised-IsRewritten (map (row_of sv s) (without_failures results)) cost db.sessions f

  segments-IsRewritten :
      (segments : List Segment) (db : Db)
      → find? p db.sessions ≡ some s
      → IsRewritten db.sessions (score_segments sv s segments db).1.sessions
  unfolding score_segments
  segments-IsRewritten [] db f = inl refl
  segments-IsRewritten (x ∷ segments) db f =
      let results = gather sv.score 0 (x ∷ segments) in
      stored-IsRewritten results (total_cost sv s (without_failures results)) db f

  existing-IsRewritten :
      (lint : LintResults) (db : Db)
      → find? p db.sessions ≡ some s
      → IsRewritten db.sessions (existing sv s lint db).1.sessions
  unfolding existing
  existing-IsRewritten lint db f = elim (Bool-cases lint.skill_graph_updated) [
    | inl y ↦ rw y (inl refl)
    | inr n ↦ rw n (inr (p, s, _, f, refl, refl, refl, refl))
  ]

  lint-IsRewritten :
      (force : Bool) (lint : Option LintResults) (db : Db)
      → find? p db.sessions ≡ some s
      → IsRewritten db.sessions (score_lint sv s force lint db).1.sessions
  unfolding score_lint
  lint-IsRewritten force none db f =
      segments-IsRewritten (extract_qa_segments sv.word_count s.transcript) db f
  lint-IsRewritten force (some lint) db f = elim (Bool-cases (is_scored (some lint) && not force)) [
    | inl y ↦ rw y (existing-IsRewritten lint db f)
    | inr n ↦ rw n (segments-IsRewritten (extract_qa_segments sv.word_count s.transcript) db f)
  ]

  row-IsRewritten :
      (force : Bool) (db : Db)
      → find? p db.sessions ≡ some s
      → IsRewritten db.sessions (score_row sv s force db).1.sessions
  unfolding score_row
  row-IsRewritten force db f = elim (Bool-cases (is_active_status s.status)) [
    | inl y ↦ rw y (inl refl)
    | inr n ↦ rw n (lint-IsRewritten force s.lint_results db f)
  ]

pub score_session-IsRewritten :
    (sv : Services) (force : Bool) (session_id user_id : ℕ) (db : Db)
    → IsRewritten db.sessions (score_session sv force session_id user_id db).1.sessions
unfolding score_session score_found get_owned_session
score_session-IsRewritten sv force session_id user_id db =
    elim (Option-cases (find? (is_owned session_id user_id) db.sessions)) [
      | inl n ↦ rw n (inl refl)
      | inr (s, f) ↦ rw f (row-IsRewritten sv (is_owned session_id user_id) s force db f)
    ]

-- The analysis of a negotiation.
row_analysis-IsRewritten :
    (model : InterviewSession → Option NegotiationAnalysis) (p : InterviewSession → Bool)
    (user_id : ℕ) (a : Option NegotiationAnalysis) (s : InterviewSession)
    (table : List InterviewSession)
    → find? p table ≡ some s
    → IsRewritten table (row_analysis model user_id a s table).1
unfolding row_analysis analysed analysed_now
row_analysis-IsRewritten model p user_id (some a) s table f = inl refl
row_analysis-IsRewritten model p user_id none s table f =
    elim (Bool-cases (is_completed s && has_turns s)) [
      | inr n ↦ rw n (inl refl)
      | inl y ↦ elim (Option-cases (analyze_negotiation model s)) [
        | inl e ↦ rw (y, e) (inl refl)
        | inr (a, e) ↦ rw (y, e) (inr (p, s, with_analysis a s, f, refl, refl, refl, refl))
      ]
    ]

pub get_negotiation_analysis-IsRewritten :
    (model : InterviewSession → Option NegotiationAnalysis) (session_id user_id : ℕ)
    (table : List InterviewSession)
    → IsRewritten table (get_negotiation_analysis model session_id user_id table).1
unfolding get_negotiation_analysis found_analysis
get_negotiation_analysis-IsRewritten model session_id user_id table =
    elim (Option-cases (find? (is_round session_id user_id) table)) [
      | inl n ↦ rw n (inl refl)
      | inr (s, f) ↦ rw f (
          row_analysis-IsRewritten model (is_round session_id user_id) user_id (analysis_of s) s
            table f)
    ]

-- The delivery.
cached-IsRewritten :
    (sp : Speech) (words : List TranscriptWord) (p : InterviewSession → Bool)
    (o : Option DeliveryAnalysis) (s : InterviewSession) (table : List InterviewSession)
    → find? p table ≡ some s
    → IsRewritten table (cached_delivery sp words o s table).1
unfolding cached_delivery
cached-IsRewritten sp words p (some a) s table f = inl refl
cached-IsRewritten sp words p none s table f = inr (p, s, _, f, refl, refl, refl, refl)

pub get_delivery_analysis-IsRewritten :
    (sp : Speech) (words : List TranscriptWord) (session_id user_id : ℕ)
    (table : List InterviewSession)
    → IsRewritten table (get_delivery_analysis sp words session_id user_id table).1
unfolding get_delivery_analysis found_delivery get_owned_session
get_delivery_analysis-IsRewritten sp words session_id user_id table =
    elim (Option-cases (find? (is_owned session_id user_id) table)) [
      | inl n ↦ rw n (inl refl)
      | inr (s, f) ↦ rw f (
          cached-IsRewritten sp words (is_owned session_id user_id)
            (get_or s.lint_results no_lint).delivery s table f)
    ]
