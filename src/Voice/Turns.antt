-- ===== src/Voice/Turns.antt =====
-- The turns of a voice session (backend/app/services/voice/pipeline.py): the conversation and what
-- carries an answer over from one turn to the next. A turn of the language model with its speech is
-- taken as one step; Python's operations on texts and the model's answers are parameters. Of the
-- messages to the client those that mark the turns are kept.
pub mod State
pub mod Waits
pub mod Losses
pub mod Listening
mod Tests
use interviewcraft.Prelude.{
  ℕ, ◌+◌, ◌-◌, String, Bool, false, not, ◌&&◌, ◌||◌, Option, none, some, List, [], ◌∷◌, ◌++◌, ltb,
  leb, ◌==ℕ◌, if◌then◌else◌, ◌==◌, nat_eq, string_eq, concat, is_empty,
}
use interviewcraft.Voice.SmartPause.{Thresholds, nothing, soft_prompt, re_engage, check}
pub use State.{
  Llm, max_wait_count, min_words_for_llm, carryover_timeout_ms, user_message, assistant_message,
  is_listening, push, send, PipelineState, Role, Message, TranscriptTurn, ServerMessage, Pipeline,
  Texts, LlmRun, idle, listening, processing, speaking, prompting, user, assistant, session_state,
  transcript_final, transcript_rollback, not_clear, low_confidence_fallback, llm_final,
  soft_prompt_text,
}
unfoldable pub use State.{
  pop_user, pop_assistant, set_state, llm_messages, transcript_from, save_transcript_turn,
}

-- Whether the text received so far begins with the signal after some token, while waits are left.
unfoldable pub is_wait : Texts → ℕ → String → List String → Bool
is_wait tx count response [] = false
is_wait tx count response (token ∷ tokens) =
    let full_response = concat (response ∷ token ∷ []) in
    (tx.starts_with_wait full_response && ltb count max_wait_count)
    || is_wait tx count full_response tokens

-- `llm_ttft_ms` stays 0 where no token came.
unfoldable pub ttft_of : LlmRun → ℕ
ttft_of run = elim run.tokens [ [] ↦ 0 | _ ∷ _ ↦ run.ttft_ms ]

-- `_llm_tts_turn`: the two latencies, of which (0, 0) stands for the signal.
unfoldable pub llm_tts_turn : Texts → Llm → Pipeline → (ℕ × ℕ) × Pipeline
llm_tts_turn tx llm p =
    let run = llm (llm_messages p.tool_context p.conversation) in
    if is_wait tx p.wait_count "" run.tokens
    then ((0, 0), record p { interrupted = false; conversation = pop_user p.conversation })
    else (
      (ttft_of run, run.first_byte_ms),
      record p {
        interrupted = false;
        conversation = p.conversation ++ (assistant_message (concat run.tokens) ∷ []);
        sent = p.sent ++ (llm_final ∷ []);
      },
    )

abbrev pub is_zero : ℕ × ℕ → Bool
is_zero (ttft, fb) = ttft ==ℕ 0 && fb ==ℕ 0

-- `_do_llm_turn`, on the text of the answer.
unfoldable pub after_turn : Texts → ℕ → String → (ℕ × ℕ) × Pipeline → Pipeline
after_turn tx now text (latency, p) =
    if is_zero latency
    then set_state now listening (
        send transcript_rollback (record p {
          wait_count = p.wait_count + 1;
          carryover_text = text;
          carryover_set_at = some now;
        }))
    else set_state now listening (save_transcript_turn tx (record p { wait_count = 0 }))

unfoldable pub do_llm_turn : Texts → Llm → ℕ → String → Pipeline → Pipeline
do_llm_turn tx llm now text p =
    after_turn tx now text (llm_tts_turn tx llm (set_state now processing p))

-- The text that a turn commits: what was carried over comes first.
unfoldable pub with_carryover : Texts → String → Pipeline → String
with_carryover tx text p =
    if is_empty p.carryover_text
    then text
    else tx.strip (concat (p.carryover_text ∷ " " ∷ text ∷ []))

abbrev pub taken : Pipeline → Pipeline
taken p =
    if is_empty p.carryover_text
    then p
    else record p { carryover_text = ""; carryover_set_at = none }

-- The part of `_turn_consumer` after the debounce, up to the turn of the model: a fragment that is too
-- short is carried over.
unfoldable pub commit : Texts → String → Pipeline → Option String × Pipeline
commit tx accumulated p =
    let text = with_carryover tx accumulated p in
    let q = taken p in
    if is_empty (tx.strip text)
    then (none, q)
    else if ltb (tx.word_count text) min_words_for_llm
    then (none, record q { carryover_text = text })
    else (some text, push (user_message text) (send (transcript_final text) q))

unfoldable pub turn_committed : Texts → Llm → ℕ → Option String × Pipeline → Pipeline
turn_committed tx llm now (none, q) = q
turn_committed tx llm now (some text, q) = do_llm_turn tx llm now text q

unfoldable pub voice_turn : Texts → Llm → ℕ → String → Pipeline → Pipeline
voice_turn tx llm now accumulated p = turn_committed tx llm now (commit tx accumulated p)

abbrev pub low_confidence_limit : ℕ
low_confidence_limit = 3

-- A final of low confidence that begins an answer is not taken up: the candidate is asked to repeat it,
-- and from the third one in a row on to type.
unfoldable pub unclear_final : Pipeline → Pipeline
unclear_final p =
    let count = p.low_confidence_count + 1 in
    send (if leb low_confidence_limit count then low_confidence_fallback else not_clear)
      (record p { low_confidence_count = count })

-- One of enough confidence.
abbrev pub clear_final : Pipeline → Pipeline
clear_final p = record p { low_confidence_count = 0 }

-- The handler of a cancelled turn: what the candidate said is carried over.
unfoldable pub recover : ℕ → String → Pipeline → Pipeline
recover now text p =
    set_state now listening
      (record p { conversation = pop_assistant p.conversation; carryover_text = text })

-- A turn that is cancelled after its answer was added, or before (`none`).
unfoldable pub cancel_committed : Option String → ℕ → Option String × Pipeline → Pipeline
cancel_committed answer now (none, q) = q
cancel_committed none now (some text, q) = recover now text (set_state now processing q)
cancel_committed (some a) now (some text, q) =
    recover now text (push (assistant_message a) (set_state now processing q))

unfoldable pub cancelled_turn : Texts → Option String → ℕ → String → Pipeline → Pipeline
cancelled_turn tx answer now accumulated p = cancel_committed answer now (commit tx accumulated p)

abbrev pub force_note : String
force_note = "[The candidate finished their answer. Please respond now.]"

-- The first call of the model for a typed answer, and what follows if it signals to wait.
unfoldable pub force_answer : Texts → Llm → Pipeline → Pipeline
force_answer tx llm p =
    let forced = (llm_tts_turn tx llm (push (record { role = user; content = force_note }) p)).1 in
    record forced { conversation = pop_user forced.conversation }

unfoldable pub typed_after : Texts → Llm → (ℕ × ℕ) × Pipeline → Pipeline
typed_after tx llm (latency, p) = if is_zero latency then force_answer tx llm p else p

-- A pass of `_text_process_loop`.
unfoldable pub text_turn : Texts → Llm → ℕ → String → Pipeline → Pipeline
text_turn tx llm now typed p =
    let text = with_carryover tx typed p in
    let q = push (user_message text) (record p { low_confidence_count = 0; carryover_text = "" }) in
    let r = typed_after tx llm (llm_tts_turn tx llm (set_state now processing q)) in
    set_state now listening (save_transcript_turn tx (record r { wait_count = 0 }))

abbrev pub is_due : ℕ → Option ℕ → Bool
is_due now none = false
is_due now (some at) = ltb carryover_timeout_ms (now - at)

-- `_pause_monitor`: the forced answer, and a poll that finds the session listening.
unfoldable pub force_respond : Texts → Llm → ℕ → Pipeline → Pipeline
force_respond tx llm now p =
    let text = p.carryover_text in
    let q = push (user_message text) (
      send (transcript_final text)
        (record p { carryover_text = ""; carryover_set_at = none; wait_count = 0 })) in
    set_state now listening (llm_tts_turn tx llm (set_state now processing q)).1

unfoldable pub prompt : Thresholds → ℕ → Pipeline → Pipeline
prompt t now p =
    let (action, pause) = check t now p.smart_pause in
    let q = record p { smart_pause = pause } in
    elim action [
      | nothing ↦ q
      | soft_prompt ↦ send (soft_prompt_text soft_prompt) q
      | re_engage ↦ send (soft_prompt_text re_engage) q
    ]

unfoldable pub poll : Texts → Thresholds → Llm → ℕ → Pipeline → Pipeline
poll tx t llm now p =
    if not (is_listening p.state)
    then p
    else if not (is_empty p.carryover_text) && is_due now p.carryover_set_at
    then force_respond tx llm now p
    else prompt t now p
