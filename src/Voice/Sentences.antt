-- ===== src/Voice/Sentences.antt =====
-- `SentenceBuffer` of backend/app/services/voice/pipeline.py, which cuts the model's tokens into
-- sentences, the queue of these sentences and what the speech task makes of each. A text is the list of
-- its code points; which of them are space, for `\s` as for `str.strip`, and the substitutions of the
-- markdown patterns, which are Python's `re`, are parameters. The loop's fuel is the length of its buffer.
pub mod Kept
pub mod Queue
mod Tests
use interviewcraft.Prelude.{
  ℕ, zero, suc, ◌+◌, Bool, false, ◌&&◌, ◌||◌, Option, none, some, List, [], ◌∷◌, ◌++◌, ◌==ℕ◌,
  if◌then◌else◌, length, ◌==◌, nat_eq, string_eq,
}

-- One of `.!?…`
unfoldable pub is_end : ℕ → Bool
is_end c = c ==ℕ 46 || c ==ℕ 33 || c ==ℕ 63 || c ==ℕ 8230

-- What stands before a match, its first space, and what stands after that.
abbrev pub Match : Type 0
Match = List ℕ × ℕ × List ℕ

module _ (is_space : ℕ → Bool) where
  unfoldable pub lstrip : List ℕ → List ℕ
  lstrip [] = []
  lstrip (c ∷ cs) = let rest = lstrip cs in if is_space c then rest else c ∷ cs

  -- A space is cut where no other character follows.
  unfoldable pub cut_space : ℕ → List ℕ → List ℕ
  cut_space c [] = if is_space c then [] else c ∷ []
  cut_space c (d ∷ rest) = c ∷ d ∷ rest

  unfoldable pub rstrip : List ℕ → List ℕ
  rstrip [] = []
  rstrip (c ∷ cs) = cut_space c (rstrip cs)

  abbrev pub strip : List ℕ → List ℕ
  strip s = rstrip (lstrip s)

  unfoldable pub prefixed : ℕ → Option Match → Option Match
  prefixed c none = none
  prefixed c (some (before, space, rest)) = some (c ∷ before, space, rest)

  -- `_SENTENCE_BOUNDARY.search`: what stands before the first space that follows an end of a sentence,
  -- that space, and what stands after it; the flag says whether an end was just read.
  unfoldable pub search : Bool → List ℕ → Option Match
  search ended [] = none
  search ended (c ∷ cs) =
      let later = search (is_end c) cs in
      if ended && is_space c then some ([], c, cs) else prefixed c later

  -- A sentence that is not empty comes before those that the rest of the buffer gives.
  unfoldable pub append_sentence : List ℕ → List (List ℕ) × List ℕ → List (List ℕ) × List ℕ
  append_sentence [] (sentences, buf) = (sentences, buf)
  append_sentence (c ∷ cs) (sentences, buf) = ((c ∷ cs) ∷ sentences, buf)

  -- The loop of `add`: the sentences it finds, and the buffer it leaves.
  unfoldable pub split : ℕ → List ℕ → List (List ℕ) × List ℕ
  split zero buf = ([], buf)
  split (suc fuel) buf = elim (search false buf) [
    | none ↦ ([], buf)
    | some found ↦ append_sentence (strip (found.0 ++ (found.1 ∷ []))) (split fuel (lstrip found.2))
  ]

  -- `add`, of a token to a buffer.
  unfoldable pub add : List ℕ → List ℕ → List (List ℕ) × List ℕ
  add buf token = split (length (buf ++ token)) (buf ++ token)

  -- `text or None`, as the texts there are.
  unfoldable pub as_text : List ℕ → List (List ℕ)
  as_text [] = []
  as_text (c ∷ cs) = (c ∷ cs) ∷ []

  -- `flush`
  unfoldable pub flush : List ℕ → List (List ℕ)
  unfolding as_text
  flush buf = as_text (strip buf)

  -- The tokens of an answer, after a buffer, with the text flushed at the end: all that is queued for the
  -- speech task.
  unfoldable pub queued : List ℕ → List (List ℕ) → List (List ℕ)
  queued buf [] = flush buf
  queued buf (token ∷ tokens) =
      let found : List (List ℕ) × List ℕ = add buf token in found.0 ++ queued found.1 tokens

  -- `_strip_markdown`, `subs` being what `pattern.sub(repl, text)` does for the patterns, in their order.
  unfoldable pub strip_markdown : List (List ℕ → List ℕ) → List ℕ → List ℕ
  strip_markdown [] text = strip text
  strip_markdown (sub ∷ subs) text = strip_markdown subs (sub text)

  -- The speech task without an interruption: each sentence without its markdown, if anything is left.
  unfoldable pub spoken : List (List ℕ → List ℕ) → List (List ℕ) → List (List ℕ)
  unfolding as_text strip_markdown
  spoken subs [] = []
  spoken subs (sentence ∷ sentences) =
      as_text (strip_markdown subs sentence) ++ spoken subs sentences
