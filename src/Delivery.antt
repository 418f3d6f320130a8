-- ===== src/Delivery.antt =====
-- backend/app/services/delivery/analyzer.py: how a candidate spoke, from the words of a session with
-- their times, or from the turns of its transcript. Times are in milliseconds. The number of whole-word
-- matches of a pattern in a text, the number of words of a text and the rounded pace are parameters;
-- the rate of fillers, a quotient of counts, is compared exactly.
pub mod Measures
pub mod Scores
pub mod Saved
mod Tests
use interviewcraft.Prelude.{
  ℕ, ◌+◌, ◌-◌, ◌*◌, min, max, String, Bool, true, false, not, none, some, List, [], ◌∷◌, ◌++◌, map,
  ltb, leb, if◌then◌else◌, length, filter, nat_eq, string_eq, Dict, join, is_empty,
}
use interviewcraft.Voice.Turns.{Role, user, assistant}
pub use Measures.{
  fillers, gap_threshold_ms, wpm_low, wpm_high, total_fillers, TranscriptWord, Turn, HesitationGap,
  CoachingTip, Grade, DeliveryAnalysis, Speech, high_fillers, some_fillers, minor_fillers, slow,
  fast, long_pauses, notable_pauses, strong, no_data, excellent, good, fair, needs_work,
  nothing_to_grade,
}
unfoldable pub use Measures.{
  count_fillers, top_of, top_filler_of, gap, word_gaps, between_turns, turn_gaps,
}

-- The penalties of `_score_delivery`, each with its advice.
unfoldable pub filler_penalty : ℕ → ℕ → ℕ × List CoachingTip
filler_penalty count words =
    if ltb words (10 * count)
    then (25, high_fillers ∷ [])
    else if ltb words (20 * count)
    then (12, some_fillers ∷ [])
    else if ltb words (50 * count)
    then (4, minor_fillers ∷ [])
    else (0, [])

unfoldable pub pace_penalty : ℕ → ℕ × List CoachingTip
pace_penalty wpm =
    if ltb wpm (10 * wpm_low)
    then (10, slow ∷ [])
    else if ltb (10 * wpm_high) wpm
    then (8, fast ∷ [])
    else (0, [])

unfoldable pub pause_penalty : Bool → ℕ → ℕ × List CoachingTip
pause_penalty false long_pause_count = (0, [])
pause_penalty true long_pause_count =
    if ltb 3 long_pause_count
    then (min (long_pause_count * 3) 15, long_pauses ∷ [])
    else if ltb 0 long_pause_count
    then (0, notable_pauses ∷ [])
    else (0, [])

unfoldable pub or_strong : List CoachingTip → List CoachingTip
or_strong [] = strong ∷ []
or_strong (tip ∷ tips) = tip ∷ tips

-- `_score_delivery`, of counts of fillers and of words, the latter at least one. The subtractions stop
-- at 0, as `max(score, 0)` does at the end.
unfoldable pub score_delivery : ℕ → ℕ → ℕ → ℕ → Bool → ℕ × List CoachingTip
unfolding filler_penalty pace_penalty pause_penalty or_strong
score_delivery filler_count words wpm long_pause_count has_words =
    let (fillers_off, filler_tips) = filler_penalty filler_count words in
    let (pace_off, pace_tips) = pace_penalty wpm in
    let (pauses_off, pause_tips) = pause_penalty has_words long_pause_count in
    (
      100 - fillers_off - pace_off - pauses_off,
      or_strong (filler_tips ++ (pace_tips ++ pause_tips)),
    )

unfoldable pub grade_of : ℕ → Grade
grade_of score =
    if leb 90 score
    then excellent
    else if leb 75 score
    then good
    else if leb 60 score
    then fair
    else needs_work

-- `_build_result`
unfoldable pub build_result :
    ℕ → ℕ → ℕ → Dict String ℕ → List HesitationGap → Bool → DeliveryAnalysis
unfolding score_delivery grade_of top_filler_of
build_result total_words spoken_ms wpm by_type gaps has_words =
    let count = total_fillers by_type in
    let long = length (filter (λ g. leb 3000 g.duration_ms) gaps) in
    let (score, tips) = score_delivery count (max total_words 1) wpm long has_words in
    record {
      total_words = total_words;
      spoken_ms = spoken_ms;
      wpm = wpm;
      filler_count = count;
      fillers_by_type = by_type;
      top_filler = top_filler_of by_type;
      hesitation_gaps = gaps;
      long_pause_count = long;
      has_word_timestamps = has_words;
      delivery_score = score;
      delivery_grade = grade_of score;
      coaching_tips = tips;
    }

abbrev pub empty_analysis : Bool → DeliveryAnalysis
empty_analysis has_words = record {
  total_words = 0;
  spoken_ms = 0;
  wpm = 0;
  filler_count = 0;
  fillers_by_type = [];
  top_filler = none;
  hesitation_gaps = [];
  long_pause_count = 0;
  has_word_timestamps = has_words;
  delivery_score = 0;
  delivery_grade = nothing_to_grade;
  coaching_tips = no_data ∷ [];
}

-- `max(values)` and `min(values)` of a list that begins with `first`.
unfoldable pub largest : ℕ → List ℕ → ℕ
largest first [] = first
largest first (x ∷ xs) = largest (max first x) xs

unfoldable pub smallest : ℕ → List ℕ → ℕ
smallest first [] = first
smallest first (x ∷ xs) = smallest (min first x) xs

unfoldable pub analyze_from_word_timestamps : Speech → List TranscriptWord → DeliveryAnalysis
unfolding build_result count_fillers word_gaps largest smallest join
analyze_from_word_timestamps sp [] = empty_analysis true
analyze_from_word_timestamps sp (w ∷ words) =
    let text : String = join " " (map (λ v. v.word) (w ∷ words)) in
    let total = length (w ∷ words) in
    let last = largest w.end_ms (map (λ v. v.end_ms) words) in
    let span = last - smallest w.start_ms (map (λ v. v.start_ms) words) in
    let spoken = max span 1000 in
    build_result total spoken (sp.pace total spoken) (count_fillers sp text fillers)
      (word_gaps (w ∷ words)) true

unfoldable pub is_user_turn : Turn → Bool
is_user_turn t = elim t.role [ user ↦ not (is_empty t.content) | assistant ↦ false ]

unfoldable pub timestamps : List Turn → List ℕ
timestamps [] = []
timestamps (t ∷ rest) =
    let later = timestamps rest in elim t.ts_ms [ none ↦ later | some ms ↦ ms ∷ later ]

-- With two times or more, their span and five seconds for the last turn; else 2.5 words a second.
unfoldable pub turns_ms : ℕ → List ℕ → ℕ
unfolding largest smallest
turns_ms total_words (a ∷ b ∷ rest) = max (largest a (b ∷ rest) - smallest a (b ∷ rest) + 5000) 1000
turns_ms total_words (a ∷ []) = max (total_words * 400) 1000
turns_ms total_words [] = max (total_words * 400) 1000

unfoldable pub analyze_user_turns : Speech → List Turn → DeliveryAnalysis
unfolding build_result count_fillers turn_gaps turns_ms timestamps join
analyze_user_turns sp [] = empty_analysis false
analyze_user_turns sp (t ∷ turns) =
    let text : String = join " " (map (λ u. u.content) (t ∷ turns)) in
    let total = sp.word_count text in
    let spoken = turns_ms total (timestamps (t ∷ turns)) in
    build_result total spoken (sp.pace total spoken) (count_fillers sp text fillers)
      (turn_gaps none (t ∷ turns)) false

unfoldable pub analyze_from_turns : Speech → List Turn → DeliveryAnalysis
unfolding analyze_user_turns
analyze_from_turns sp transcript = analyze_user_turns sp (filter is_user_turn transcript)

-- `analyze_delivery`, of the words in the order of their starts.
unfoldable pub analyze_delivery : Speech → List TranscriptWord → List Turn → DeliveryAnalysis
unfolding analyze_from_word_timestamps analyze_from_turns
analyze_delivery sp [] transcript = analyze_from_turns sp transcript
analyze_delivery sp (w ∷ words) transcript = analyze_from_word_timestamps sp (w ∷ words)
