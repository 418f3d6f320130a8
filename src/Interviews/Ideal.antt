-- ===== src/Interviews/Ideal.antt =====
-- `play_ideal_answer` of backend/app/api/v1/scoring.py, before and after a forced scoring. Cutting and
-- measuring a text, and the speech service with the encoding of its audio, are parameters.
use interviewcraft.Prelude.{
  ℕ, ◌≤◌, String, ◌≡◌, refl, ap, ◌∙◌, inl, inr, true, false, not, ◌&&◌, Option, none, some, List,
  [], ◌∷◌, ◌++◌, map, arith, ◌==ℕ◌, if◌then◌else◌, Bool-cases, length, filter, ℤ, ◌+ℤ◌, nat_eq,
  string_eq, is_empty,
}
use interviewcraft.Auth.Users.{Http, ok, raised}
use interviewcraft.Scoring.Json.{Json, Members, object, text, get}
use interviewcraft.Scoring.Sessions.{Segment, extract_qa_segments}
use interviewcraft.Interviews.{
  InterviewSession, LintResults, get_owned_session, is_active_status, not_found,
}
use interviewcraft.Interviews.Requests.{found-save}
use interviewcraft.Interviews.Scores.{
  is_scored, SegmentScore, Scored, Services, Db, Response, gather, without_failures, with_summary,
}
use interviewcraft.Interviews.SessionScoring.{
  row_of, total_cost, summarised, store_results, score_segments, score_lint, score_row, score_found,
  score_session, internal_error,
}

-- `ideal_text[:2000]`, `len(ideal_text)`, and the audio of a text, `none` where the request fails.
pub record Speech : Type 0 where
  pub cut : String → String
  pub len : String → ℕ
  pub speak : String → Option String

pub record IdealAudio : Type 0 where
  pub audio_data : String
  pub format : String
  pub text : String
  pub characters : ℕ

abbrev pub at_segment : ℕ → ℕ → List SegmentScore → List SegmentScore
at_segment session_id segment_index rows =
    filter (λ r. r.session_id ==ℕ session_id && r.segment_index ==ℕ segment_index) rows

-- `scalar_one_or_none`, which raises `MultipleResultsFound`.
unfoldable pub one_or_none : List SegmentScore → Http (Option SegmentScore)
one_or_none [] = ok none
one_or_none (r ∷ []) = ok (some r)
one_or_none (r ∷ q ∷ rows) = internal_error

-- `diff_versions["ideal"].get("text", "")`
unfoldable pub text_in : Option Json → Http String
text_in none = raised 404 "No ideal answer version available"
text_in (some (object version)) = elim (get "text" version) [
  | none ↦ ok ""
  | some (text t) ↦ ok t
  | some _ ↦ internal_error
]
text_in (some _) = internal_error

unfoldable pub ideal_text : Option Members → Http String
unfolding text_in
ideal_text none = raised 404 "No ideal answer version available"
ideal_text (some versions) = text_in (get "ideal" versions)

unfoldable pub played : Speech → Http String → Http IdealAudio
played sp (raised k m) = raised k m
played sp (ok t) =
    if is_empty t then raised 422 "Ideal answer text is empty" else elim (sp.speak (sp.cut t)) [
      | none ↦ raised 502 "Failed to generate audio"
      | some audio ↦
          ok (record { audio_data = audio; format = "mp3"; text = t; characters = sp.len t })
    ]

unfoldable pub played_row : Speech → Http (Option SegmentScore) → Http IdealAudio
unfolding played ideal_text
played_row sp (raised k m) = raised k m
played_row sp (ok none) = raised 404 "Segment score not found"
played_row sp (ok (some r)) = played sp (ideal_text r.diff_versions)

unfoldable pub play_ideal_answer : Speech → ℕ → ℕ → ℕ → Db → Http IdealAudio
unfolding played_row one_or_none
play_ideal_answer sp session_id segment_index user_id db =
    elim (get_owned_session session_id user_id db.sessions) [
      | none ↦ not_found
      | some s ↦ played_row sp (one_or_none (at_segment session_id segment_index db.segment_scores))
    ]

-- What a forced call that answers with rows leaves.
abbrev IsAppended : ℕ → ℕ → Db → Response → Type 0
IsAppended session_id user_id db (a, after) =
    (rows : List SegmentScore)
    → a ≡ ok rows
    → (after.segment_scores ≡ db.segment_scores ++ rows)
      × ((s : InterviewSession) × (get_owned_session session_id user_id after.sessions ≡ some s))

ok_rows : (xs ys : List SegmentScore) → ok xs ≡ ok ys → xs ≡ ys
ok_rows xs ys e = cc

module _ (sv : Services) (session_id user_id : ℕ) (s : InterviewSession) (db : Db)
    (found : get_owned_session session_id user_id db.sessions ≡ some s) where
  summarised-found :
      (rows : List SegmentScore) (cost : ℤ)
      → (x : InterviewSession) × (get_owned_session session_id user_id
            (summarised sv s rows cost db.sessions)
          ≡ some x)
  unfolding summarised
  summarised-found [] cost = (s, found)
  summarised-found (r ∷ rows) cost =
      let s' : InterviewSession = record s {
        lint_results = some (with_summary (r ∷ rows) s.lint_results);
        total_cost_usd = s.total_cost_usd +ℤ cost;
      } in
      (s', found-save session_id user_id db.sessions s s' found refl refl)

  store_results-IsAppended :
      (results : List (Option Scored)) (cost : Option ℤ)
      → IsAppended session_id user_id db (store_results sv s results cost db)
  unfolding store_results
  store_results-IsAppended results none = λ rows e. absurd cc
  store_results-IsAppended results (some cost) = λ rows e. (
    ap (λ x. db.segment_scores ++ x)
        (ok_rows (map (λ x. row_of sv s x) (without_failures results)) rows e),
    summarised-found (map (λ x. row_of sv s x) (without_failures results)) cost,
  )

  segments-IsAppended :
      (segments : List Segment) → IsAppended session_id user_id db (score_segments sv s segments db)
  unfolding score_segments
  segments-IsAppended [] = λ rows e. absurd cc
  segments-IsAppended (x ∷ segments) =
      let results = gather sv.score 0 (x ∷ segments) in
      store_results-IsAppended results (total_cost sv s (without_failures results))

  lint-IsAppended :
      (l : Option LintResults) → IsAppended session_id user_id db (score_lint sv s true l db)
  unfolding score_lint
  lint-IsAppended none = segments-IsAppended (extract_qa_segments sv.word_count s.transcript)
  lint-IsAppended (some lint) =
      let no : (is_scored (some lint) && not true) ≡ false = ground arith in
      rw no (segments-IsAppended (extract_qa_segments sv.word_count s.transcript))

  row-IsAppended : IsAppended session_id user_id db (score_row sv s true db)
  unfolding score_row
  row-IsAppended = elim (Bool-cases (is_active_status s.status)) [
    | inl y ↦ rw y (λ rows e. absurd cc)
    | inr n ↦ rw n (lint-IsAppended s.lint_results)
  ]

found-IsAppended :
    (sv : Services) (session_id user_id : ℕ) (found : Option InterviewSession) (db : Db)
    → get_owned_session session_id user_id db.sessions ≡ found
    → IsAppended session_id user_id db (score_found sv true found db)
unfolding score_found
found-IsAppended sv session_id user_id none db e = λ rows e. absurd cc
found-IsAppended sv session_id user_id (some s) db e = row-IsAppended sv session_id user_id s db e

at_segment-append :
    (session_id segment_index : ℕ) (xs ys : List SegmentScore)
    → at_segment session_id segment_index (xs ++ ys)
      ≡ at_segment session_id segment_index xs ++ at_segment session_id segment_index ys
at_segment-append session_id segment_index [] ys = refl
at_segment-append session_id segment_index (x ∷ xs) ys =
    ground (arith, at_segment-append session_id segment_index xs ys)

several :
    (xs ys : List SegmentScore)
    → 1 ≤ length xs
    → 1 ≤ length ys
    → one_or_none (xs ++ ys) ≡ internal_error
unfolding one_or_none
several [] ys p q = absurd (omega (arith, p))
several xs [] p q = absurd (omega (arith, q))
several (x ∷ []) (y ∷ ys) p q = refl
several (x ∷ x' ∷ xs) (y ∷ ys) p q = refl

play_several :
    (sp : Speech) (session_id segment_index user_id : ℕ) (db : Db) (s : InterviewSession)
    → get_owned_session session_id user_id db.sessions ≡ some s
    → one_or_none (at_segment session_id segment_index db.segment_scores) ≡ internal_error
    → play_ideal_answer sp session_id segment_index user_id db ≡ internal_error
unfolding play_ideal_answer played_row
play_several sp session_id segment_index user_id db s at e =
    rw (play_ideal_answer, at) (ap (λ r. played_row sp r) e)

-- A forced scoring keeps the old rows and adds its own after them; so once it has scored a segment that had
-- a row, the ideal answer of that segment can no longer be played: the endpoint fails, whatever the speech
-- service does.
pub play_ideal_answer-score_session :
    (sv : Services) (sp : Speech) (session_id segment_index user_id : ℕ) (db : Db)
    (rows : List SegmentScore)
    → (score_session sv true session_id user_id db).0 ≡ ok rows
    → 1 ≤ length (at_segment session_id segment_index db.segment_scores)
    → 1 ≤ length (at_segment session_id segment_index rows)
    → let after = (score_session sv true session_id user_id db).1 in
      (after.segment_scores ≡ db.segment_scores ++ rows)
      × (play_ideal_answer sp session_id segment_index user_id after ≡ internal_error)
unfolding score_session
play_ideal_answer-score_session sv sp session_id segment_index user_id db rows e old new =
    let (added, (s, at)) =
      found-IsAppended sv session_id user_id (get_owned_session session_id user_id db.sessions) db
        refl rows e in
    (
      added,
      play_several sp session_id segment_index user_id
          (score_session sv true session_id user_id db).1 s at
          (ap (λ l. one_or_none (at_segment session_id segment_index l)) added
            ∙ (ap (λ l. one_or_none l)
                  (at_segment-append session_id segment_index db.segment_scores rows)
                ∙ several (at_segment session_id segment_index db.segment_scores)
                    (at_segment session_id segment_index rows) old new)),
    )
