-- ===== src/Memory/Builder/Limits.antt =====
-- The limits of a memory document, and the parts of a merge that keep within them.
use interviewcraft.Prelude.{
  ℕ, suc, ◌+◌, ◌-◌, ◌≤◌, String, ◌≡◌, refl, ap, inl, inr, Option, none, some, List, [], ◌∷◌, map,
  arith, ltb, ltb→lt, Bool-cases, length, take, take_last, length-take, length-take_last_le, nat_eq,
  string_eq, IsDistinct, IsDistinct-drop, is_empty,
}
use interviewcraft.Memory.Skills.{SkillGraphNode}
use interviewcraft.Memory.Documents.{
  MemoryDocument, Story, snapshots, by_score, by_score_reverse, weak_snapshot, strong_snapshot,
}
use interviewcraft.Memory.Builder.{
  session_average, best_story, add_insight, Json, append_new, with_communication, with_focus,
  new_average, with_coaching, with_best_stories, with_stats, with_mistakes,
}
use interviewcraft.Memory.Builder.Items.{append_new-IsDistinct}
use interviewcraft.Memory.Builder.Average.{IsScored, session_average_le, new_average_le}

abbrev pub IsScore : Option ℕ → Type 0
IsScore none = Unit
IsScore (some n) = n ≤ 100

abbrev pub IsItems : ℕ → List String → Type 0
IsItems n xs = (length xs ≤ n) × IsDistinct xs

-- The limits of a document: six mistakes and three notes, none of them twice, four stories, three
-- insights, four skills on either side, and an average score of
-- 100 at most; `total` sessions are counted.
abbrev pub IsBounded : ℕ → MemoryDocument → Type 0
IsBounded total doc =
    IsItems 6 doc.recurring_mistakes
    × IsItems 3 doc.communication_notes
    × (length doc.best_stories ≤ 4)
    × (length doc.coaching_insights ≤ 3)
    × (length doc.weakest_skills ≤ 4)
    × (length doc.strongest_skills ≤ 4)
    × IsScore doc.avg_score
    × (doc.total_sessions ≡ total)

-- The last items of a list that is extended by new ones.
append_new-IsItems :
    (n : ℕ) (existing ms : List String)
    → IsDistinct existing
    → IsItems n (take_last n (append_new existing ms))
append_new-IsItems n existing ms d =
    let all_items = append_new existing ms in
    (
      length-take_last_le n all_items,
      IsDistinct-drop (length all_items - n) all_items (append_new-IsDistinct existing ms d),
    )

length-map : {A B : Type 0} (f : A → B) (xs : List A) → length (map f xs) ≡ length xs
length-map f [] = refl
length-map f (x ∷ xs) = ap suc (length-map f xs)

pub length-take_le : {A : Type 0} (n : ℕ) (xs : List A) → length (take n xs) ≤ n
length-take_le n xs = omega (arith, length-take n xs)

pub with_mistakes-IsBounded :
    {total : ℕ} (ms : List String) (doc : MemoryDocument)
    → IsBounded total doc
    → IsBounded total (with_mistakes ms doc)
unfolding with_mistakes
with_mistakes-IsBounded ms doc (m, n, t, i, w, g, a, c) =
    (append_new-IsItems 6 doc.recurring_mistakes ms m.1, n, t, i, w, g, a, c)

pub with_communication-IsBounded :
    {total : ℕ} (ms : List String) (doc : MemoryDocument)
    → IsBounded total doc
    → IsBounded total (with_communication ms doc)
unfolding with_communication
with_communication-IsBounded [] doc h = h
with_communication-IsBounded (x ∷ ms) doc (m, n, t, i, w, g, a, c) =
    (m, append_new-IsItems 3 doc.communication_notes (x ∷ ms) n.1, t, i, w, g, a, c)

pub with_coaching-IsBounded :
    {total : ℕ} (js : Json) (coaching : Option String) (doc : MemoryDocument)
    → IsBounded total doc
    → IsBounded total (with_coaching js coaching doc)
unfolding with_coaching
with_coaching-IsBounded js none doc h = h
with_coaching-IsBounded js (some text) doc (m, k, t, i, w, g, a, c) =
    elim (Bool-cases (is_empty text)) [
      | inl y ↦ rw y (m, k, t, i, w, g, a, c)
      | inr n ↦
          let limited = length-take_last_le 3 (add_insight js text doc.coaching_insights) in
          rw n (m, k, t, limited, w, g, a, c)
    ]

pub with_focus-IsBounded :
    {total : ℕ} (focus : Option String) (doc : MemoryDocument)
    → IsBounded total doc
    → IsBounded total (with_focus focus doc)
unfolding with_focus
with_focus-IsBounded none doc h = h
with_focus-IsBounded (some f) doc h = elim (Bool-cases (is_empty f)) [
  | inl y ↦ rw y h
  | inr n ↦ rw n h
]

pub snapshots-IsBounded :
    {total : ℕ} (skills : List SkillGraphNode) (doc : MemoryDocument)
    → IsBounded total doc
    → IsBounded total (snapshots skills doc)
unfolding snapshots
snapshots-IsBounded [] doc h = h
snapshots-IsBounded (s ∷ skills) doc (m, n, t, i, w, g, a, c) =
    let all_skills = by_score (s ∷ skills) in
    let top = take 4 (by_score_reverse all_skills) in
    (
      m,
      n,
      t,
      i,
      rw (length-map weak_snapshot (take 4 all_skills)) (length-take_le 4 all_skills),
      rw (length-map strong_snapshot top) (length-take_le 4 (by_score_reverse all_skills)),
      a,
      c,
    )

pub with_best_stories-IsBounded :
    {total : ℕ} (top : List Story) (doc : MemoryDocument)
    → length top ≤ 4
    → IsBounded total doc
    → IsBounded total (with_best_stories top doc)
unfolding with_best_stories
with_best_stories-IsBounded [] doc few h = h
with_best_stories-IsBounded (s ∷ top) doc few (m, n, t, i, w, g, a, c) =
    (m, n, rw (length-map best_story top) few, i, w, g, a, c)

new_average-IsScore : (avg : Option ℕ) (n s : ℕ) → IsScore avg → s ≤ 100 → new_average avg n s ≤ 100
unfolding new_average
new_average-IsScore none n s h le = le
new_average-IsScore (some avg) n s h le = elim (Bool-cases (ltb 0 n)) [
  | inl y ↦ new_average_le avg 100 n s (ltb→lt 0 n y) h (omega (arith, le))
  | inr z ↦ rw z le
]

pub with_stats-IsBounded :
    {total : ℕ} (scores : List ℕ) (doc : MemoryDocument)
    → IsScored scores
    → IsBounded total doc
    → IsBounded (total + 1) (with_stats scores doc)
unfolding with_stats
with_stats-IsBounded [] doc scored (m, n, t, i, w, g, a, c) =
    (m, n, t, i, w, g, a, ap (λ x. x + 1) c)
with_stats-IsBounded (s ∷ scores) doc scored (m, n, t, i, w, g, a, c) =
    let mean = session_average_le (s ∷ scores) scored in
    (
      m,
      n,
      t,
      i,
      w,
      g,
      new_average-IsScore doc.avg_score doc.total_sessions (session_average (s ∷ scores)) a mean,
      ap (λ x. x + 1) c,
    )
