-- ===== src/Memory/Builder/Average.antt =====
-- The average score in the memory document, which each session updates in whole numbers.
use interviewcraft.Prelude.{
  ℕ, ◌+◌, ◌*◌, ◌/◌, ◌≤◌, ◌<◌, ◌≡◌, refl, some, List, [], ◌∷◌, arith, lt→ltb, length, All, nat_eq,
  string_eq,
}
use native.Mathlib.Nat.{div-lt_iff_lt-mul, mul-le-mul_right}
use interviewcraft.Memory.Documents.{MemoryDocument}
use interviewcraft.Memory.Builder.{session_average, new_average, total_score, with_stats}

div_lt : (a b k : ℕ) → 0 < k → a < b * k → a / k < b
div_lt a b k k_pos h = (div-lt_iff_lt-mul k_pos).1 h

abbrev pub IsScored : List ℕ → Type 0
IsScored scores = All (λ s. s ≤ 100) scores

total_score_le : (scores : List ℕ) → IsScored scores → total_score scores ≤ 100 * length scores
total_score_le [] h = omega arith
total_score_le (s ∷ scores) h = omega (arith, h.0, total_score_le scores h.1)

pub session_average_le : (scores : List ℕ) → IsScored scores → session_average scores ≤ 100
unfolding session_average
session_average_le [] h = omega arith
session_average_le (s ∷ scores) h =
    let total = total_score_le (s ∷ scores) h in
    let below =
      div_lt (total_score (s ∷ scores)) 101 (length (s ∷ scores)) (omega arith) (omega arith) in
    omega arith

pub new_average_le :
    (avg top n s : ℕ) → 0 < n → avg ≤ top → s ≤ top + n → new_average (some avg) n s ≤ top
unfolding new_average
new_average_le avg top n s n_pos le h =
    let grows : avg * n ≤ top * n = mul-le-mul_right n le in
    let below = div_lt (avg * n + s) (top + 1) (n + 1) (omega arith) (omega (arith, grows)) in
    rw (lt→ltb 0 n n_pos) (omega arith)

-- The document after sessions with these scores of their segments, as to its statistics.
unfoldable pub after_sessions : List (List ℕ) → MemoryDocument → MemoryDocument
after_sessions [] doc = doc
after_sessions (scores ∷ sessions) doc = after_sessions sessions (with_stats scores doc)

abbrev pub IsAverageAtMost : ℕ → MemoryDocument → Type 0
IsAverageAtMost top doc = (avg : ℕ) × (doc.avg_score ≡ some avg) × (avg ≤ top)

with_stats-total :
    (scores : List ℕ) (doc : MemoryDocument)
    → (with_stats scores doc).total_sessions ≡ doc.total_sessions + 1
unfolding with_stats
with_stats-total [] doc = refl
with_stats-total (s ∷ scores) doc = refl

with_stats-IsAverageAtMost :
    (top : ℕ) (scores : List ℕ) (doc : MemoryDocument)
    → 0 < doc.total_sessions
    → 100 ≤ top + doc.total_sessions
    → IsScored scores
    → IsAverageAtMost top doc
    → IsAverageAtMost top (with_stats scores doc)
unfolding with_stats
with_stats-IsAverageAtMost top [] doc some_before many scored h = h
with_stats-IsAverageAtMost top (s ∷ scores) doc some_before many scored (avg, e, le) =
    let below = session_average_le (s ∷ scores) scored in
    let mean = session_average (s ∷ scores) in
    (
      new_average (some avg) doc.total_sessions mean,
      rw e refl,
      new_average_le avg top doc.total_sessions mean some_before le (omega (arith, many, below)),
    )

-- Once the average score and the number of sessions add up to 100, no session raises the average, even
-- one in which every answer has the score 100.
pub after_sessions-IsAverageAtMost :
    (top : ℕ) (sessions : List (List ℕ)) (doc : MemoryDocument)
    → 0 < doc.total_sessions
    → 100 ≤ top + doc.total_sessions
    → All IsScored sessions
    → IsAverageAtMost top doc
    → IsAverageAtMost top (after_sessions sessions doc)
unfolding after_sessions with_stats
after_sessions-IsAverageAtMost top [] doc some_before many scored h = h
after_sessions-IsAverageAtMost top (scores ∷ sessions) doc some_before many scored h =
    let counted = with_stats-total scores doc in
    after_sessions-IsAverageAtMost top sessions (with_stats scores doc)
      (omega (arith, counted, some_before)) (omega (arith, counted, many)) scored.1
      (with_stats-IsAverageAtMost top scores doc some_before many scored.0 h)
