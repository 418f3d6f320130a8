-- ===== src/Negotiation/Analyses.antt =====
-- When a negotiation is analysed, when it cannot be, and what the pattern says of rounds without analysis.
use interviewcraft.Prelude.{
  ℕ, ◌≤◌, ◌≡◌, refl, ap, ◌∙◌, subst, inl, inr, Bool, true, false, not, ◌&&◌, ◌||◌, Option, none,
  some, List, [], ◌∷◌, map, arith, ◌==ℕ◌, Bool-cases, length, find?, All, ℤ, pos, ltb_ℤ, nat_eq,
  string_eq,
}
use interviewcraft.Interviews.{InterviewSession, NegotiationAnalysis, save}
use interviewcraft.Progress.{is_completed}
use interviewcraft.Auth.Users.{ok, raised}
use mathlib.Core.Option.{some-injective}
use interviewcraft.Negotiation.{
  no_analysis, analyze_negotiation, with_analysis, has_turns, analysed_now, row_analysis,
  found_analysis, measure, all_positive, pattern_of, pattern_in, last_rounds, detect_pattern,
  emotional, AnalysisResponse, Answered, is_round, analysis_of, analysed, get_negotiation_analysis,
}

-- The row that a query finds, once written in columns that the query does not read.
find-save :
    (p : InterviewSession → Bool) (table : List InterviewSession) (s s' : InterviewSession)
    → find? p table ≡ some s
    → s'.id ≡ s.id
    → p s' ≡ true
    → find? p (save s' table) ≡ some s'
unfolding save
find-save p [] s s' e i q = cc
find-save p (r ∷ table) s s' e i q = elim (Bool-cases (r.id ==ℕ s'.id)) [
  | inl y ↦ rw (y, q) refl
  | inr n ↦ elim (Bool-cases (p r)) [
    | inl t ↦ let same : some r ≡ some s = rw t at e in absurd (ground (arith, same, n, i))
    | inr f ↦
        let e' : find? p table ≡ some s = rw f at e in rw (n, f) (find-save p table s s' e' i q)
  ]
]

-- The answer to a round that has an analysis changes nothing.
answered_again :
    (model : InterviewSession → Option NegotiationAnalysis) (session_id user_id : ℕ)
    (s : InterviewSession) (a : NegotiationAnalysis) (table : List InterviewSession)
    → find? (is_round session_id user_id) table ≡ some s
    → analysis_of s ≡ some a
    → get_negotiation_analysis model session_id user_id table ≡ analysed user_id s a table
unfolding get_negotiation_analysis found_analysis row_analysis
answered_again model session_id user_id s a table f e = rw (get_negotiation_analysis, f, e) refl

unanswered :
    (model : InterviewSession → Option NegotiationAnalysis) (session_id user_id : ℕ)
    (s : InterviewSession) (table : List InterviewSession)
    → find? (is_round session_id user_id) table ≡ some s
    → analysis_of s ≡ none
    → (is_completed s && has_turns s) ≡ false
    → get_negotiation_analysis model session_id user_id table ≡ analysed user_id s no_analysis table
unfolding get_negotiation_analysis found_analysis row_analysis
unanswered model session_id user_id s table f e n = rw (get_negotiation_analysis, f, e, n) refl

find-true :
    (p : InterviewSession → Bool) (table : List InterviewSession) (s : InterviewSession)
    → find? p table ≡ some s
    → p s ≡ true
find-true p [] s e = cc
find-true p (r ∷ table) s e = elim (Bool-cases (p r)) [
  | inl t ↦
      let same : some r ≡ some s = rw t at e in subst (λ x. p x ≡ true) (some-injective r s same) t
  | inr n ↦ find-true p table s (rw n at e)
]

-- A call that answers leaves a table on which every later call answers the same and changes nothing.
abbrev IsStable : ℕ → ℕ → Answered → Type 0
IsStable session_id user_id (answer, after) =
    (model : InterviewSession → Option NegotiationAnalysis) (r : AnalysisResponse)
    → answer ≡ ok r
    → get_negotiation_analysis model session_id user_id after ≡ (answer, after)

module _ (session_id user_id : ℕ) (s : InterviewSession) (table : List InterviewSession)
    (f : find? (is_round session_id user_id) table ≡ some s) where
  now-IsStable :
      (a : Option NegotiationAnalysis)
      → IsStable session_id user_id (analysed_now user_id a s table)
  unfolding analysed_now analysed
  now-IsStable none = λ model r e. absurd cc
  now-IsStable (some a) = λ model r e.
      answered_again model session_id user_id (with_analysis a s) a (save (with_analysis a s) table)
        (find-save (is_round session_id user_id) table s (with_analysis a s) f refl
          (find-true (is_round session_id user_id) table s f))
        refl

  row-IsStable :
      (model : InterviewSession → Option NegotiationAnalysis) (o : Option NegotiationAnalysis)
      → analysis_of s ≡ o
      → IsStable session_id user_id (row_analysis model user_id o s table)
  unfolding row_analysis analysed
  row-IsStable model (some a) e =
      λ model' r h. answered_again model' session_id user_id s a table f e
  row-IsStable model none e = elim (Bool-cases (is_completed s && has_turns s)) [
    | inl y ↦ rw y (now-IsStable (analyze_negotiation model s))
    | inr n ↦ rw n (λ model' r h. unanswered model' session_id user_id s table f e n)
  ]

found-IsStable :
    (model : InterviewSession → Option NegotiationAnalysis) (session_id user_id : ℕ)
    (o : Option InterviewSession) (table : List InterviewSession)
    → find? (is_round session_id user_id) table ≡ o
    → IsStable session_id user_id (found_analysis model user_id o table)
unfolding found_analysis
found-IsStable model session_id user_id none table f = λ model' r e. absurd cc
found-IsStable model session_id user_id (some s) table f =
    row-IsStable session_id user_id s table f model (analysis_of s) refl

-- Once a call has answered, whether it analysed the round, found it analysed or could not analyse it yet, the
-- next call gives the same answer and changes nothing, whatever the language model would say: a round is
-- analysed once.
pub get_negotiation_analysis-again :
    (model later : InterviewSession → Option NegotiationAnalysis) (session_id user_id : ℕ)
    (table : List InterviewSession) (r : AnalysisResponse)
    → (get_negotiation_analysis model session_id user_id table).0 ≡ ok r
    → let after = (get_negotiation_analysis model session_id user_id table).1 in
      get_negotiation_analysis later session_id user_id after ≡ (ok r, after)
unfolding get_negotiation_analysis
get_negotiation_analysis-again model later session_id user_id table r e =
    found-IsStable model session_id user_id (find? (is_round session_id user_id) table) table refl
      later r e
    ∙ ap (λ x. (x, (get_negotiation_analysis model session_id user_id table).1)) e

-- A completed negotiation without the context of an offer, as an ordinary new session is, cannot be
-- analysed: the endpoint fails, whatever the language model would say, and changes nothing.
pub get_negotiation_analysis_without_context :
    (model : InterviewSession → Option NegotiationAnalysis) (session_id user_id : ℕ)
    (table : List InterviewSession) (s : InterviewSession)
    → find? (is_round session_id user_id) table ≡ some s
    → s.lint_results ≡ none
    → (is_completed s && has_turns s) ≡ true
    → get_negotiation_analysis model session_id user_id table
      ≡ (raised 500 "Internal Server Error", table)
unfolding get_negotiation_analysis found_analysis row_analysis analysed_now analyze_negotiation
get_negotiation_analysis_without_context model session_id user_id table s f l y =
    rw (get_negotiation_analysis, f, l, y) refl

abbrev IsUnanalysed : InterviewSession → Type 0
IsUnanalysed s = analysis_of s ≡ none

unmeasured :
    (f : NegotiationAnalysis → ℤ) (s : InterviewSession) → IsUnanalysed s → measure f s ≡ pos 0
unmeasured f s h =
    ap (λ (o : Option NegotiationAnalysis). elim o as (λ x. ℤ) [ none ↦ pos 0 | some a ↦ f a ]) h

controls_positive :
    (rounds : List InterviewSession)
    → All IsUnanalysed rounds
    → all_positive
        (λ c. ltb_ℤ c (pos 60))
        (map (measure (λ (a : NegotiationAnalysis). a.emotional_control)) rounds)
      ≡ true
unfolding all_positive
controls_positive [] h = refl
controls_positive (s ∷ rounds) h =
    ap
      (λ c.
        (not (ltb_ℤ (pos 0) c) || ltb_ℤ c (pos 60))
        && all_positive (λ k. ltb_ℤ k (pos 60))
            (map (measure (λ (a : NegotiationAnalysis). a.emotional_control)) rounds))
      (unmeasured (λ a. a.emotional_control) s h.0)
    ∙ controls_positive rounds h.1

pattern_unanalysed :
    (rounds : List InterviewSession)
    → 2 ≤ length rounds
    → All IsUnanalysed rounds
    → pattern_in rounds ≡ some emotional
unfolding pattern_of
pattern_unanalysed [] n h = absurd (omega (arith, n))
pattern_unanalysed (s ∷ []) n h = absurd (omega (arith, n))
pattern_unanalysed (s ∷ r ∷ rounds) n h = rw (controls_positive (s ∷ r ∷ rounds) h) refl

-- Two completed rounds or more, of whose latest three none has been analysed, are reported as a pattern of
-- losing emotional control.
pub detect_pattern_unanalysed :
    (user_id : ℕ) (table : List InterviewSession)
    → 2 ≤ length (last_rounds user_id table)
    → All (λ s. analysis_of s ≡ none) (last_rounds user_id table)
    → detect_pattern user_id table ≡ some emotional
unfolding detect_pattern
detect_pattern_unanalysed user_id table n h = pattern_unanalysed (last_rounds user_id table) n h
