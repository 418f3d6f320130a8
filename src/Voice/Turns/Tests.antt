-- ===== src/Voice/Turns/Tests.antt =====
-- The turns of a short session, and the theorems on them at its answers.
use interviewcraft.Prelude.{
  ◌+◌, ◌≤◌, ◌≡◌, refl, ◌⊎◌, true, some, List, [], ◌∷◌, arith, if◌then◌else◌, length, ◌==◌, nat_eq,
  string_eq, concat,
}
use interviewcraft.Voice.SmartPause.{default_thresholds}
use interviewcraft.Voice.Turns.{
  Pipeline, Texts, Llm, user_message, listening, push, set_state, llm_messages, is_wait, after_turn,
  llm_tts_turn, do_llm_turn,
}
use interviewcraft.Voice.Turns.Waits.{
  IsPutOff, IsAnswered, Answer, all_put_off, do_llm_turn_cases, all_put_off-length,
}
use interviewcraft.Voice.Turns.Listening.{
  new_pipeline, interrupt, spoke, polled, partial, handle_all, open_session, open_session-IsReady,
}

-- Texts with no space around them, of many words.
abbrev tx : Texts
tx = record {
  strip = λ s. s;
  word_count = λ s. 5;
  starts_with_wait = λ s. s == "[WAIT]";
  remove = λ old s. s;
}

abbrev fine : Llm
fine ms = record { tokens = "Fine." ∷ []; ttft_ms = 300; first_byte_ms = 120 }

abbrev wait : Llm
wait ms = record { tokens = "[WAIT]" ∷ []; ttft_ms = 300; first_byte_ms = 120 }

abbrev start : Pipeline
start = new_pipeline 0

do_llm_turn_cases_example :
    let q = do_llm_turn tx wait 9 "I led" (push (user_message "I led") start) in
    IsPutOff "I led" start q ⊎ IsAnswered "I led" start q
do_llm_turn_cases_example = do_llm_turn_cases tx wait 9 "I led" start (λ ms. ground arith)

abbrev two : List Answer
two = (9, "I led", wait) ∷ (19, "a team", wait) ∷ []

all_put_off-length_example : length two + 0 ≤ 2
unfolding all_put_off do_llm_turn llm_tts_turn llm_messages is_wait after_turn set_state
    new_pipeline concat
all_put_off-length_example =
    all_put_off-length tx two start (ground arith)
      ((λ ms. ground arith), ((λ ms. ground arith), tt)) refl

-- Signals to wait for the candidate's own text, and answers the note.
unfoldable answers_note : Llm
answers_note [] = wait []
answers_note (m ∷ ms) =
    if m.content == "[The candidate finished their answer. Please respond now.]"
    then fine ms
    else wait ms

abbrev carried : Pipeline
carried =
    set_state 5 listening
      (record start { carryover_text = "I led a team"; carryover_set_at = some 1000 })

open_session-IsReady_example :
    let p =
      handle_all tx default_thresholds
        (partial 4 ∷ spoke wait 9 "I led" ∷ interrupt ∷ polled fine 9500 ∷ [])
        (open_session 0) in
    (p.state ≡ listening) × (p.smart_pause.active ≡ true)
open_session-IsReady_example =
    open_session-IsReady tx default_thresholds 0
      (partial 4 ∷ spoke wait 9 "I led" ∷ interrupt ∷ polled fine 9500 ∷ [])
