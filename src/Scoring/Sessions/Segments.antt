-- ===== src/Scoring/Sessions/Segments.antt =====
-- The segments of a transcript, by an independent description.
use interviewcraft.Prelude.{
  ℕ, String, ◌≡◌, refl, sym, ap, ◌∙◌, inl, inr, Bool, true, false, List, [], ◌∷◌, ◌++◌, Bool-cases,
  filter, nat_eq, string_eq, is_empty,
}
use interviewcraft.Voice.Turns.{Role, user, assistant}
use interviewcraft.Delivery.{Turn}
use interviewcraft.Scoring.Sessions.{
  Segment, Reading, start, is_substantive, captured, read_as, read_turns, extract_qa_segments,
}

-- The candidate's turns up to the next question.
abbrev pub lead_as : Role → Turn → List Turn → List Turn
lead_as assistant t later = []
lead_as user t later = t ∷ later

unfoldable pub lead : List Turn → List Turn
lead [] = []
lead (t ∷ transcript) = lead_as t.role t (lead transcript)

-- Every question of a transcript with the turns up to the next one.
abbrev pub blocks_as : Role → Segment → List Segment → List Segment
blocks_as assistant block later = block ∷ later
blocks_as user block later = later

unfoldable pub blocks : List Turn → List Segment
unfolding lead
blocks [] = []
blocks (t ∷ transcript) = blocks_as t.role (t.content, lead transcript) (blocks transcript)

module _ (word_count : String → ℕ) where
  abbrev pub is_kept : Segment → Bool
  is_kept s = is_substantive word_count s

  append_segments : (xs ys zs : List Segment) → (xs ++ ys) ++ zs ≡ xs ++ (ys ++ zs)
  append_segments [] ys zs = refl
  append_segments (x ∷ xs) ys zs = ap (λ r. x ∷ r) (append_segments xs ys zs)

  append_turns : (xs ys zs : List Turn) → (xs ++ ys) ++ zs ≡ xs ++ (ys ++ zs)
  append_turns [] ys zs = refl
  append_turns (x ∷ xs) ys zs = ap (λ r. x ∷ r) (append_turns xs ys zs)

  append_nothing : {A : Type 0} (xs : List A) → xs ++ [] ≡ xs
  append_nothing [] = refl
  append_nothing (x ∷ xs) = ap (λ r. x ∷ r) (append_nothing xs)

  -- What a reading comes to: the segments so far, its own one with the lead of the rest, and the rest's.
  abbrev expected : Reading → List Turn → List Segment → List Segment
  expected r ahead later =
      r.segments ++ filter is_kept ((r.current_question, r.current_answer ++ ahead) ∷ later)

  captured-filter :
      (r : Reading)
      → captured word_count r
        ≡ r.segments ++ filter is_kept ((r.current_question, r.current_answer) ∷ [])
  unfolding captured
  captured-filter r = elim (Bool-cases (is_kept (r.current_question, r.current_answer))) [
    | inl y ↦ rw y refl
    | inr n ↦ rw n (sym (append_nothing r.segments))
  ]

  -- A segment without a question is none, whatever its answer.
  unasked :
      (question : String) (answer : List Turn)
      → is_empty question ≡ true
      → is_kept (question, answer) ≡ false
  unfolding is_substantive
  unasked question [] e = refl
  unasked question (t ∷ answer) e = rw e refl

  filter-unasked :
      (question : String) (answer : List Turn) (later : List Segment)
      → is_empty question ≡ true
      → filter is_kept ((question, answer) ∷ later) ≡ filter is_kept later
  filter-unasked question answer later e = rw (unasked question answer e) refl

  filter_first :
      (x : Segment) (ys : List Segment)
      → filter is_kept (x ∷ []) ++ filter is_kept ys ≡ filter is_kept (x ∷ ys)
  filter_first x ys = elim (Bool-cases (is_kept x)) [ inl y ↦ rw y refl | inr n ↦ rw n refl ]

  -- One turn, of the rest for which the reading is as expected.
  read_as-expected :
      (role : Role) (t : Turn) (ts : List Turn) (r : Reading)
      → ((q : Reading)
          → captured word_count (read_turns word_count ts q) ≡ expected q (lead ts) (blocks ts))
      → captured word_count (read_turns word_count ts (read_as word_count role t r))
        ≡ expected r (lead_as role t (lead ts)) (blocks_as role (t.content, lead ts) (blocks ts))
  unfolding read_as
  read_as-expected assistant t ts r rest =
      rest (record {
        segments = captured word_count r;
        current_question = t.content;
        current_answer = [];
      })
      ∙ (ap (λ x. x ++ filter is_kept ((t.content, lead ts) ∷ blocks ts)) (captured-filter r)
          ∙ (append_segments r.segments
                (filter is_kept ((r.current_question, r.current_answer) ∷ []))
                (filter is_kept ((t.content, lead ts) ∷ blocks ts))
              ∙ (ap (λ x. r.segments ++ x)
                    (filter_first (r.current_question, r.current_answer)
                      ((t.content, lead ts) ∷ blocks ts))
                  ∙ ap
                      (λ x.
                        r.segments
                        ++ filter is_kept
                            ((r.current_question, x) ∷ (t.content, lead ts) ∷ blocks ts))
                      (sym (append_nothing r.current_answer)))))
  read_as-expected user t ts r rest = elim (Bool-cases (is_empty r.current_question)) [
    | inl y ↦ rw y (
        rest r
        ∙ ap (λ x. r.segments ++ x)
            (filter-unasked r.current_question (r.current_answer ++ lead ts) (blocks ts) y
              ∙ sym (
                  filter-unasked r.current_question (r.current_answer ++ (t ∷ lead ts)) (blocks ts)
                    y)))
    | inr n ↦ rw n (
        rest (record r { current_answer = r.current_answer ++ (t ∷ []) })
        ∙ ap (λ x. r.segments ++ filter is_kept ((r.current_question, x) ∷ blocks ts))
            (append_turns r.current_answer (t ∷ []) (lead ts)))
  ]

  read_turns-expected :
      (ts : List Turn) (r : Reading)
      → captured word_count (read_turns word_count ts r) ≡ expected r (lead ts) (blocks ts)
  unfolding read_turns lead blocks
  read_turns-expected [] r =
      captured-filter r
      ∙ ap (λ x. r.segments ++ filter is_kept ((r.current_question, x) ∷ []))
          (sym (append_nothing r.current_answer))
  read_turns-expected (t ∷ ts) r = read_as-expected t.role t ts r (λ q. read_turns-expected ts q)

  -- The segments that are scored are the transcript's questions, each with the candidate's turns up to
  -- the next one, in their order, but for those that have no text, no answer or one of fewer than 15
  -- words.
  pub extract_qa_segments-blocks :
      (transcript : List Turn)
      → extract_qa_segments word_count transcript ≡ filter is_kept (blocks transcript)
  unfolding extract_qa_segments
  extract_qa_segments-blocks transcript =
      read_turns-expected transcript start
      ∙ filter-unasked "" (lead transcript) (blocks transcript) refl
