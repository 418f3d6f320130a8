-- ===== src/Scoring/Quotes/Shift.antt =====
-- The prompt and the quotes do not depend on when in the session a segment begins.
use interviewcraft.Prelude.{
  String, ◌≡◌, refl, sym, ap, subst, none, some, List, [], ◌∷◌, map, arith, All, ℤ, pos, leb_ℤ,
  min_ℤ, +ℤ_parts, -ℤ_parts, eq_of_parts, ◌+ℤ◌, ◌-ℤ◌, nat_eq, string_eq, join, Runtime,
}
use interviewcraft.Scoring.Json.{
  Json, null, number, object, Items, no_items, item, Members, Result, returned, failed, get, put,
  truthy,
}
use interviewcraft.Scoring.Retry.{and_then, members_of}
use interviewcraft.Scoring.Quotes.{
  add_part, with_quote, with_evidence, Turn, Word, user_parts, extract_answer_text, ts_offset,
  transcript_line, build_dynamic_prompt, prompt_text, segment_prompt, span_words, in_span, integer,
  quoted, fill_rule, fill_evidence_quotes,
}

-- The same turn and the same word, later.
abbrev pub later_turn : ℤ → Turn → Turn
later_turn d t = record t { ts_ms = elim t.ts_ms [ none ↦ none | some ts ↦ some (ts +ℤ d) ] }

abbrev pub later_word : ℤ → Word → Word
later_word d w = record w { start_ms = w.start_ms +ℤ d }

abbrev pub HasTime : Turn → Type 0
HasTime t = (ts : ℤ) × (t.ts_ms ≡ some ts)

leb-later : (a b d : ℤ) → leb_ℤ (a +ℤ d) (b +ℤ d) ≡ leb_ℤ a b
unfolding ◌+ℤ◌
leb-later a b d = ground arith

sub-later : (a b d : ℤ) → (a +ℤ d) -ℤ (b +ℤ d) ≡ a -ℤ b
unfolding ◌+ℤ◌ ◌-ℤ◌
sub-later a b d = ground arith

add-later : (s o d : ℤ) → s +ℤ (o +ℤ d) ≡ (s +ℤ o) +ℤ d
add-later s o d =
    eq_of_parts _ _
      (omega (arith, +ℤ_parts s (o +ℤ d), +ℤ_parts o d, +ℤ_parts (s +ℤ o) d, +ℤ_parts s o))

-- A bound that moves along with the words.
tolerance-later : (x d e : ℤ) → (x +ℤ d) +ℤ e ≡ (x +ℤ e) +ℤ d
tolerance-later x d e =
    eq_of_parts _ _
      (omega (arith, +ℤ_parts (x +ℤ d) e, +ℤ_parts x d, +ℤ_parts (x +ℤ e) d, +ℤ_parts x e))

tolerance_before-later : (x d e : ℤ) → (x +ℤ d) -ℤ e ≡ (x -ℤ e) +ℤ d
tolerance_before-later x d e =
    eq_of_parts _ _
      (omega (arith, -ℤ_parts (x +ℤ d) e, +ℤ_parts x d, +ℤ_parts (x -ℤ e) d, -ℤ_parts x e))

in_span-later :
    (s e o d : ℤ) (w : Word)
    → in_span (s +ℤ (o +ℤ d)) (e +ℤ (o +ℤ d)) (later_word d w) ≡ in_span (s +ℤ o) (e +ℤ o) w
unfolding in_span
in_span-later s e o d w =
    rw
      (
        add-later s o d,
        add-later e o d,
        tolerance_before-later (s +ℤ o) d (pos 200),
        tolerance-later (e +ℤ o) d (pos 200),
        leb-later ((s +ℤ o) -ℤ pos 200) w.start_ms d,
        leb-later w.start_ms ((e +ℤ o) +ℤ pos 200) d,
      )
      refl

span_words-later :
    (s e o d : ℤ) (words : List Word)
    → span_words (s +ℤ (o +ℤ d)) (e +ℤ (o +ℤ d)) (map (later_word d) words)
      ≡ span_words (s +ℤ o) (e +ℤ o) words
unfolding span_words
span_words-later s e o d [] = refl
span_words-later s e o d (w ∷ words) =
    ground (arith, in_span-later s e o d w, span_words-later s e o d words)

and_then-ap :
    {A B : Type 0} (r : Result A) (f g : A → Result B)
    → ((a : A) → f a ≡ g a)
    → and_then r f ≡ and_then r g
unfolding and_then
and_then-ap (returned a) f g h = h a
and_then-ap (failed e) f g h = refl

quoted-later :
    (o d : ℤ) (words : List Word) (evidence : Members)
    → quoted (map (later_word d) words) (o +ℤ d) evidence ≡ quoted words o evidence
unfolding quoted
quoted-later o d words evidence = and_then-ap _ _ _ (λ start.
    and_then-ap _ _ _ (λ end. ap (with_quote _ _ evidence) (span_words-later start end o d words)))

fill_rule-later :
    (o d : ℤ) (words : List Word) (rule : Json)
    → fill_rule (map (later_word d) words) (o +ℤ d) rule ≡ fill_rule words o rule
unfolding fill_rule
fill_rule-later o d words rule = and_then-ap _ _ _ (λ members.
    and_then-ap _ _ _
      (λ evidence. ap (λ q. and_then q (with_evidence members)) (quoted-later o d words evidence)))

fill_evidence_quotes-later :
    (o d : ℤ) (words : List Word) (rules : Items)
    → fill_evidence_quotes (map (later_word d) words) (o +ℤ d) rules
      ≡ fill_evidence_quotes words o rules
unfolding fill_evidence_quotes
fill_evidence_quotes-later o d words no_items = refl
fill_evidence_quotes-later o d words (item rule rules) =
    rw (fill_rule-later o d words rule, fill_evidence_quotes-later o d words rules) refl

user_parts-later :
    (d : ℤ) (turns : List Turn) → user_parts (map (later_turn d) turns) ≡ user_parts turns
unfolding user_parts add_part
user_parts-later d [] = refl
user_parts-later d (t ∷ turns) = ap (add_part t) (user_parts-later d turns)

min-later : (a b d : ℤ) → min_ℤ (a +ℤ d) (b +ℤ d) ≡ min_ℤ a b +ℤ d
unfolding ◌+ℤ◌
min-later a b d = ground arith

ts_offset-later :
    (d : ℤ) (t : Turn) (turns : List Turn)
    → All HasTime (t ∷ turns)
    → ts_offset (map (later_turn d) (t ∷ turns)) ≡ ts_offset (t ∷ turns) +ℤ d
unfolding ts_offset
ts_offset-later d t [] h = rw h.0.1 refl
ts_offset-later d t (u ∷ turns) h =
    rw (ts_offset-later d u turns h.1, h.0.1) (min-later h.0.0 (ts_offset (u ∷ turns)) d)

lines-later :
    (rt : Runtime) (o d : ℤ) (turns : List Turn)
    → All HasTime turns
    → map (transcript_line rt (o +ℤ d)) (map (later_turn d) turns)
      ≡ map (transcript_line rt o) turns
unfolding transcript_line
lines-later rt o d [] h = refl
lines-later rt o d (t ∷ turns) h =
    rw (lines-later rt o d turns h.1, h.0.1, sub-later h.0.0 o d) refl

prompt-later :
    (rt : Runtime) (question answer target_level note : String) (d : ℤ) (t : Turn)
    (turns : List Turn)
    → All HasTime (t ∷ turns)
    → let later = map (later_turn d) (t ∷ turns) in
      build_dynamic_prompt rt question answer later target_level note (ts_offset later)
      ≡ build_dynamic_prompt rt question answer
          (t ∷ turns)
          target_level
          note
          (ts_offset (t ∷ turns))
unfolding build_dynamic_prompt
prompt-later rt question answer target_level note d t turns h =
    let later = map (later_turn d) (t ∷ turns) in
    let lines = map (transcript_line rt (ts_offset (t ∷ turns))) (t ∷ turns) in
    let same : map (transcript_line rt (ts_offset later)) later ≡ lines =
      subst (λ o. map (transcript_line rt o) later ≡ lines) (sym (ts_offset-later d t turns h))
        (lines-later rt (ts_offset (t ∷ turns)) d (t ∷ turns) h) in
    ap (λ ls. prompt_text question answer (join "\n" ls) target_level note) same

answer-later :
    (d : ℤ) (turns : List Turn)
    → extract_answer_text (map (later_turn d) turns) ≡ extract_answer_text turns
unfolding extract_answer_text
answer-later d turns = rw (user_parts-later d turns) refl

-- If every turn of a segment has its time, then a segment that begins later by any amount, its turns and
-- the session's words with it, gives the same prompt, and every answer to it gets the same quotes.
pub segment-later :
    (rt : Runtime) (question target_level note : String) (d : ℤ) (t : Turn) (turns : List Turn)
    (words : List Word) (rules : Items)
    → All HasTime (t ∷ turns)
    → (segment_prompt rt question (map (later_turn d) (t ∷ turns)) target_level note
        ≡ segment_prompt rt question (t ∷ turns) target_level note)
      × (fill_evidence_quotes
            (map (later_word d) words)
            (ts_offset (map (later_turn d) (t ∷ turns)))
            rules
          ≡ fill_evidence_quotes words (ts_offset (t ∷ turns)) rules)
unfolding segment_prompt
segment-later rt question target_level note d t turns words rules h =
    let at = ts_offset-later d t turns h in
    (
      rw (answer-later d (t ∷ turns)) (
          and_then-ap _ _ _ (λ answer.
            ap returned (prompt-later rt question answer target_level note d t turns h))),
      rw at (fill_evidence_quotes-later (ts_offset (t ∷ turns)) d words rules),
    )

with_evidence-object :
    (rule filled : Members) (v : Json)
    → get "evidence" rule ≡ some v
    → with_evidence rule filled ≡ returned (object (put "evidence" (object filled) rule))
unfolding with_evidence
with_evidence-object rule filled v h = rw (h, with_evidence) refl

-- Evidence that begins at the segment's first millisecond gets no quote, whatever words were spoken.
pub fill_rule_zero :
    (words : List Word) (offset end : ℤ) (rule evidence : Members)
    → get "evidence" rule ≡ some (object evidence)
    → get "start_ms" evidence ≡ some (number (pos 0))
    → get "end_ms" evidence ≡ some (number end)
    → fill_rule words offset (object rule)
      ≡ returned
          (object (put "evidence" (object (put "server_extracted_quote" null evidence)) rule))
unfolding fill_rule with_quote quoted integer members_of and_then truthy
fill_rule_zero words offset end rule evidence h s e =
    rw (h, s, e) (with_evidence-object rule _ (object evidence) h)
