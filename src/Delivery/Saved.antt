-- ===== src/Delivery/Saved.antt =====
-- The analysis of a transcript that the voice pipeline has saved, once the words of the session have
-- expired.
use interviewcraft.Prelude.{
  ℕ, ◌+◌, ◌*◌, ◌<◌, ◌≡◌, refl, ◌∙◌, subst, inl, inr, true, Option, none, some, List, [], ◌∷◌, map,
  arith, if◌then◌else◌, Bool-cases, filter, nat_eq, string_eq,
}
use interviewcraft.Voice.Turns.{Message, TranscriptTurn, Texts, transcript_from}
use interviewcraft.Delivery.{
  Speech, build_result, analyze_from_turns, analyze_user_turns, gap, turn_gaps, between_turns, Turn,
  is_user_turn,
}

-- A saved turn as the analyzer reads it.
abbrev pub as_turn : TranscriptTurn → Turn
as_turn t = record { role = t.role; content = t.content; ts_ms = some t.ts_ms }

abbrev saved_turn : Texts → ℕ → Message → TranscriptTurn
saved_turn tx idx m = record {
  role = m.role;
  content = tx.remove "</candidate_answer>" (tx.remove "<candidate_answer>" m.content);
  ts_ms = idx * 1000;
}

unfoldable pub saved : Texts → ℕ → List Message → List Turn
saved tx idx ms = map as_turn (transcript_from tx idx ms)

-- Fewer than ten turns lie between an answer of the candidate and the next; `since` counts the turns
-- since the last one.
abbrev pub IsPaced : Option ℕ → List Turn → Type 0
IsPaced since [] = Unit
IsPaced none (t ∷ rest) = IsPaced (if is_user_turn t then some 1 else none) rest
IsPaced (some k) (t ∷ rest) =
    (is_user_turn t ≡ true → k < 10) × IsPaced (some (if is_user_turn t then 1 else k + 1)) rest

close_turns :
    (p k idx : ℕ)
    → p + k * 1000 ≡ idx * 1000
    → k < 10
    → between_turns (some p) (some (idx * 1000)) ≡ []
unfolding between_turns gap
close_turns p k idx e h = ground (arith, e, h)

-- The turns after an answer at `p`, `k` turns before the first of them.
later_gaps :
    (tx : Texts) (p k idx : ℕ) (ms : List Message)
    → p + k * 1000 ≡ idx * 1000
    → IsPaced (some k) (saved tx idx ms)
    → turn_gaps (some p) (filter is_user_turn (saved tx idx ms)) ≡ []
unfolding saved transcript_from turn_gaps
later_gaps tx p k idx [] e paced = refl
later_gaps tx p k idx (m ∷ ms) e (near, paced) =
    let t : Turn = as_turn (saved_turn tx idx m) in
    elim (Bool-cases (is_user_turn t)) [
      | inl y ↦
          let rest : IsPaced (some 1) (saved tx (idx + 1) ms) =
            subst (λ b. IsPaced (some (if b then 1 else k + 1)) (saved tx (idx + 1) ms)) y paced in
          rw (y, close_turns p k idx e (near y))
            (later_gaps tx (idx * 1000) 1 (idx + 1) ms (omega arith) rest)
      | inr n ↦
          let rest : IsPaced (some (k + 1)) (saved tx (idx + 1) ms) =
            subst (λ b. IsPaced (some (if b then 1 else k + 1)) (saved tx (idx + 1) ms)) n paced in
          rw n (later_gaps tx p (k + 1) (idx + 1) ms (omega (arith, e)) rest)
    ]

first_gaps :
    (tx : Texts) (idx : ℕ) (ms : List Message)
    → IsPaced none (saved tx idx ms)
    → turn_gaps none (filter is_user_turn (saved tx idx ms)) ≡ []
unfolding saved transcript_from turn_gaps between_turns
first_gaps tx idx [] paced = refl
first_gaps tx idx (m ∷ ms) paced =
    let t : Turn = as_turn (saved_turn tx idx m) in
    elim (Bool-cases (is_user_turn t)) [
      | inl y ↦
          let rest : IsPaced (some 1) (saved tx (idx + 1) ms) =
            subst (λ b. IsPaced (if b then some 1 else none) (saved tx (idx + 1) ms)) y paced in
          rw y (later_gaps tx (idx * 1000) 1 (idx + 1) ms (omega arith) rest)
      | inr n ↦
          let rest : IsPaced none (saved tx (idx + 1) ms) =
            subst (λ b. IsPaced (if b then some 1 else none) (saved tx (idx + 1) ms)) n paced in
          rw n (first_gaps tx (idx + 1) ms rest)
    ]

user_turns-gaps :
    (sp : Speech) (turns : List Turn)
    → (analyze_user_turns sp turns).hesitation_gaps ≡ turn_gaps none turns
unfolding analyze_user_turns build_result turn_gaps
user_turns-gaps sp [] = refl
user_turns-gaps sp (t ∷ turns) = refl

-- In a transcript that the pipeline has saved, in which fewer than ten turns lead from an answer to the
-- next, the analysis of the turns finds no gap, however long the candidate was silent.
pub analyze_from_turns-saved :
    (sp : Speech) (tx : Texts) (conversation : List Message)
    → IsPaced none (saved tx 0 conversation)
    → (analyze_from_turns sp (saved tx 0 conversation)).hesitation_gaps ≡ []
unfolding analyze_from_turns
analyze_from_turns-saved sp tx conversation paced =
    user_turns-gaps sp (filter is_user_turn (saved tx 0 conversation))
    ∙ first_gaps tx 0 conversation paced
