-- ===== src/Delivery/Scores.antt =====
-- The range of the delivery's score.
use interviewcraft.Prelude.{
  ℕ, ◌-◌, ◌≤◌, max, String, ◌≡◌, refl, ◌⊎◌, inl, inr, Bool, true, false, none, List, [], ◌∷◌, map,
  arith, leb, length, filter, nat_eq, string_eq, Dict, join,
}
use interviewcraft.Delivery.{
  is_user_turn, TranscriptWord, turns_ms, timestamps, turn_gaps, word_gaps, count_fillers, fillers,
  largest, smallest, analyze_from_word_timestamps, grade_of, Turn, total_fillers, HesitationGap,
  Speech, analyze_from_turns, no_data, build_result, analyze_delivery, analyze_user_turns,
  score_delivery, DeliveryAnalysis, filler_penalty, pace_penalty, pause_penalty,
}

filler_penalty_le : (count words : ℕ) → (filler_penalty count words).0 ≤ 25
unfolding filler_penalty
filler_penalty_le count words = ground arith

pace_penalty_le : (wpm : ℕ) → (pace_penalty wpm).0 ≤ 10
unfolding pace_penalty
pace_penalty_le wpm = ground arith

pause_penalty_le : (has_words : Bool) (long : ℕ) → (pause_penalty has_words long).0 ≤ 15
unfolding pause_penalty
pause_penalty_le false long = omega arith
pause_penalty_le true long = ground arith

abbrev pub IsInRange : ℕ → Type 0
IsInRange score = (50 ≤ score) × (score ≤ 100)

score_delivery-IsInRange :
    (count words wpm long : ℕ) (has_words : Bool)
    → IsInRange (score_delivery count words wpm long has_words).0
unfolding score_delivery
score_delivery-IsInRange count words wpm long has_words =
    let f = filler_penalty_le count words in
    let p = pace_penalty_le wpm in
    let q = pause_penalty_le has_words long in (omega (arith, f, p, q), omega (arith, f, p, q))

-- An analysis of no data, or one with a score in the range and the grade of that score.
abbrev pub IsScored : DeliveryAnalysis → Type 0
IsScored a =
    ((a.delivery_score ≡ 0) × (a.total_words ≡ 0) × (a.coaching_tips ≡ no_data ∷ []))
    ⊎ (IsInRange a.delivery_score × (a.delivery_grade ≡ grade_of a.delivery_score))

build_result-IsScored :
    (total spoken wpm : ℕ) (by_type : Dict String ℕ) (gaps : List HesitationGap) (has_words : Bool)
    → IsScored (build_result total spoken wpm by_type gaps has_words)
unfolding build_result
build_result-IsScored total spoken wpm by_type gaps has_words = inr (
  score_delivery-IsInRange (total_fillers by_type) (max total 1) wpm
      (length (filter (λ g. leb 3000 g.duration_ms) gaps)) has_words,
  refl,
)

user_turns-IsScored : (sp : Speech) (turns : List Turn) → IsScored (analyze_user_turns sp turns)
unfolding analyze_user_turns
user_turns-IsScored sp [] = inl (refl, refl, refl)
user_turns-IsScored sp (t ∷ turns) =
    let text : String = join " " (map (λ u. u.content) (t ∷ turns)) in
    let total = sp.word_count text in
    let spoken = turns_ms total (timestamps (t ∷ turns)) in
    build_result-IsScored total spoken (sp.pace total spoken) (count_fillers sp text fillers)
      (turn_gaps none (t ∷ turns)) false

words-IsScored :
    (sp : Speech) (words : List TranscriptWord) → IsScored (analyze_from_word_timestamps sp words)
unfolding analyze_from_word_timestamps
words-IsScored sp [] = inl (refl, refl, refl)
words-IsScored sp (w ∷ words) =
    let text : String = join " " (map (λ v. v.word) (w ∷ words)) in
    let total = length (w ∷ words) in
    let last = largest w.end_ms (map (λ v. v.end_ms) words) in
    let spoken = max (last - smallest w.start_ms (map (λ v. v.start_ms) words)) 1000 in
    build_result-IsScored total spoken (sp.pace total spoken) (count_fillers sp text fillers)
      (word_gaps (w ∷ words)) true

-- Whatever was spoken, a delivery's score is 50 to 100 and its grade is that of the score; it is 0 only
-- where there is no data, which the advice then says.
pub analyze_delivery-IsScored :
    (sp : Speech) (words : List TranscriptWord) (transcript : List Turn)
    → IsScored (analyze_delivery sp words transcript)
unfolding analyze_delivery analyze_from_turns
analyze_delivery-IsScored sp [] transcript = user_turns-IsScored sp (filter is_user_turn transcript)
analyze_delivery-IsScored sp (w ∷ words) transcript = words-IsScored sp (w ∷ words)
