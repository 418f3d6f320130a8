-- ===== src/Voice/Debounce.antt =====
-- The debounce of an answer (backend/app/services/voice/pipeline.py, `_turn_consumer`): final chunks of
-- speech are joined until the candidate has been silent for long enough. A pass of the loop is given
-- with the times its clock reads and what its wait for the next chunk ends in. Times are in
-- milliseconds, a confidence is in hundredths, and Python's operations on texts are parameters.
pub mod Commits
pub mod Listens
mod Tests
use interviewcraft.Prelude.{
  ℕ, ◌+◌, ◌-◌, String, Bool, Option, none, some, List, [], ◌∷◌, ◌++◌, ltb, leb, if◌then◌else◌,
  nat_eq, string_eq, concat,
}
use interviewcraft.Voice.SmartPause.{SmartPause, Thresholds, is_user_still_speaking}

pub record TranscriptChunk : Type 0 where
  pub text : String
  pub confidence : ℕ

-- `str.strip` and the number of words `str.split` gives.
pub record Words : Type 0 where
  pub strip : String → String
  pub word_count : String → ℕ

abbrev pub confidence_threshold : ℕ
confidence_threshold = 60

abbrev pub hard_cap_ms : ℕ
hard_cap_ms = 30000

abbrev pub commit_short_ms : ℕ
commit_short_ms = 500

abbrev pub commit_long_ms : ℕ
commit_long_ms = 1500

abbrev pub commit_threshold_words : ℕ
commit_threshold_words = 10

-- What `wait_for(final_queue.get(), …)` ends in: its timeout, with the pause detector as it is then, the
-- end of the stream, or a chunk.
pub data Wait : Type 0 where
  timeout : SmartPause → Wait
  closed : Wait
  next_chunk : TranscriptChunk → Wait

-- A pass of the loop: the clock at its head and after its wait.
pub record Pass : Type 0 where
  pub head : ℕ
  pub now : ℕ
  pub wait : Wait

pub data Reason : Type 0 where
  stalled silent ended : Reason

-- The loop's local variables.
pub record Debounce : Type 0 where
  pub pending_finals : List TranscriptChunk
  pub accumulated_text : String
  pub quiet_since : Option ℕ
  pub last_activity : ℕ

-- The outcome of one pass: the loop goes on, or the text is committed.
pub data Outcome : Type 0 where
  more : Debounce → Outcome
  done : Reason → ℕ → Debounce → Outcome

abbrev pub is_confident : TranscriptChunk → Bool
is_confident c = leb confidence_threshold c.confidence

unfoldable pub started : TranscriptChunk → ℕ → Debounce
started first now = record {
  pending_finals = first ∷ [];
  accumulated_text = first.text;
  quiet_since = none;
  last_activity = now;
}

unfoldable pub commit_extra_ms : Words → String → ℕ
commit_extra_ms ws text =
    if ltb (ws.word_count text) commit_threshold_words then commit_short_ms else commit_long_ms

-- The timeout of a wait while the candidate makes no sound.
unfoldable pub quiet : Words → ℕ → Option ℕ → Debounce → Outcome
quiet ws now none d = more (record d { quiet_since = some now })
quiet ws now (some since) d =
    if leb (commit_extra_ms ws d.accumulated_text) (now - since) then done silent now d else more d

unfoldable pub heard : Words → ℕ → TranscriptChunk → Debounce → Debounce
heard ws now chunk d =
    let d1 : Debounce = record d { quiet_since = none; last_activity = now } in
    if is_confident chunk
    then record d1 {
      pending_finals = d.pending_finals ++ (chunk ∷ []);
      accumulated_text = ws.strip (concat (d.accumulated_text ∷ " " ∷ chunk.text ∷ []));
    }
    else d1

unfoldable pub after_wait : Words → Thresholds → ℕ → Wait → Debounce → Outcome
after_wait ws t now (timeout pause) d =
    if is_user_still_speaking t now pause
    then more (record d { quiet_since = none; last_activity = now })
    else quiet ws now d.quiet_since d
after_wait ws t now closed d = done ended now d
after_wait ws t now (next_chunk chunk) d = more (heard ws now chunk d)

unfoldable pub pass : Words → Thresholds → Pass → Debounce → Outcome
pass ws t p d =
    if ltb hard_cap_ms (p.head - d.last_activity)
    then done stalled p.head d
    else after_wait ws t p.now p.wait d

-- The loop on its passes; none is made once it has ended.
unfoldable pub debounce : Words → Thresholds → List Pass → Outcome → Outcome
debounce ws t [] o = o
debounce ws t (p ∷ rest) (done reason at d) = done reason at d
debounce ws t (p ∷ rest) (more d) = debounce ws t rest (pass ws t p d)
