-- ===== src/Delivery/Measures.antt =====
-- What backend/app/services/delivery/analyzer.py measures of a candidate's speech: words, fillers and gaps.
use interviewcraft.Prelude.{
  ℕ, ◌-◌, String, Bool, Option, none, some, List, [], ◌∷◌, ◌++◌, ltb, leb, if◌then◌else◌, sum_by,
  nat_eq, string_eq, Dict,
}
use interviewcraft.Voice.Turns.{Role}

pub record TranscriptWord : Type 0 where
  pub word : String
  pub start_ms : ℕ
  pub end_ms : ℕ

-- A turn of the transcript, of which the time can be missing.
pub record Turn : Type 0 where
  pub role : Role
  pub content : String
  pub ts_ms : Option ℕ

pub record HesitationGap : Type 0 where
  pub start_ms : ℕ
  pub end_ms : ℕ
  pub duration_ms : ℕ

-- The texts of advice, one for each condition.
pub data CoachingTip : Type 0 where
  high_fillers some_fillers minor_fillers slow fast long_pauses notable_pauses strong no_data :
      CoachingTip

pub data Grade : Type 0 where
  excellent good fair needs_work nothing_to_grade : Grade

-- The pace is in tenths of a word per minute.
pub record DeliveryAnalysis : Type 0 where
  pub total_words : ℕ
  pub spoken_ms : ℕ
  pub wpm : ℕ
  pub filler_count : ℕ
  pub fillers_by_type : Dict String ℕ
  pub top_filler : Option String
  pub hesitation_gaps : List HesitationGap
  pub long_pause_count : ℕ
  pub has_word_timestamps : Bool
  pub delivery_score : ℕ
  pub delivery_grade : Grade
  pub coaching_tips : List CoachingTip

-- `len(re.findall(rf"\b{pattern}\b", text.lower()))`, `len(text.split())`, and ten times
-- `round(words / seconds * 60, 1)`.
pub record Speech : Type 0 where
  pub matches : String → String → ℕ
  pub word_count : String → ℕ
  pub pace : ℕ → ℕ → ℕ

abbrev pub fillers : Dict String (List String)
fillers =
    ("um_uh", "um" ∷ "uh" ∷ "uhh" ∷ "umm" ∷ [])
    ∷ ("like", "like" ∷ [])
    ∷ ("you_know", "you know" ∷ [])
    ∷ ("basically", "basically" ∷ [])
    ∷ ("literally", "literally" ∷ [])
    ∷ ("so", "so" ∷ [])
    ∷ ("actually", "actually" ∷ [])
    ∷ ("right", "right" ∷ [])
    ∷ ("kind_of", "kind of" ∷ "kinda" ∷ [])
    ∷ ("sort_of", "sort of" ∷ "sorta" ∷ [])
    ∷ []

abbrev pub gap_threshold_ms : ℕ
gap_threshold_ms = 1500

abbrev pub wpm_low : ℕ
wpm_low = 110

abbrev pub wpm_high : ℕ
wpm_high = 180

-- `_count_fillers`: the categories that occur, with their counts.
unfoldable pub count_fillers : Speech → String → Dict String (List String) → Dict String ℕ
count_fillers sp text [] = []
count_fillers sp text ((category, patterns) ∷ rest) =
    let count = sum_by (λ pattern. sp.matches pattern text) patterns in
    let later = count_fillers sp text rest in
    if ltb 0 count then (category, count) ∷ later else later

abbrev pub total_fillers : Dict String ℕ → ℕ
total_fillers by_type = sum_by (λ entry. entry.1) by_type

-- `max(fillers_by_type, key=…)`: the first of the largest.
unfoldable pub top_of : String × ℕ → Dict String ℕ → String
top_of best [] = best.0
top_of best (entry ∷ rest) = top_of (if ltb best.1 entry.1 then entry else best) rest

unfoldable pub top_filler_of : Dict String ℕ → Option String
unfolding top_of
top_filler_of [] = none
top_filler_of (entry ∷ rest) = some (top_of entry rest)

-- The gap between two moments, if it is as long as the threshold.
unfoldable pub gap : ℕ → ℕ → ℕ → List HesitationGap
gap threshold from to =
    if leb threshold (to - from)
    then record { start_ms = from; end_ms = to; duration_ms = to - from } ∷ []
    else []

unfoldable pub word_gaps : List TranscriptWord → List HesitationGap
unfolding gap
word_gaps [] = []
word_gaps (v ∷ []) = []
word_gaps (v ∷ w ∷ rest) = gap gap_threshold_ms v.end_ms w.start_ms ++ word_gaps (w ∷ rest)

unfoldable pub between_turns : Option ℕ → Option ℕ → List HesitationGap
unfolding gap
between_turns (some prev) (some curr) = gap 10000 prev curr
between_turns (some prev) none = []
between_turns none curr = []

-- The gaps of turns after one with this time.
unfoldable pub turn_gaps : Option ℕ → List Turn → List HesitationGap
unfolding between_turns
turn_gaps prev [] = []
turn_gaps prev (t ∷ rest) = between_turns prev t.ts_ms ++ turn_gaps t.ts_ms rest
