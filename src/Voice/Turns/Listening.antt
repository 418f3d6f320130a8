-- ===== src/Voice/Turns/Listening.antt =====
-- The events of a session, and the state that the pipeline is in between them: the opening of `run`,
-- the messages of `_receive_loop` and `_stt_reader` that change it, the turns and the polls.
use interviewcraft.Prelude.{
  ℕ, String, ◌≡◌, refl, inl, inr, true, false, not, ◌&&◌, Option, none, some, List, [], ◌∷◌, arith,
  if◌then◌else◌, Bool-cases, nat_eq, string_eq, is_empty,
}
use interviewcraft.Voice.SmartPause.{Thresholds, init, activate, check, on_partial, on_final}
use interviewcraft.Voice.Turns.{
  clear_final, unclear_final, processing, llm_tts_turn, turn_committed, Pipeline, idle, listening,
  speaking, Texts, Llm, assistant_message, llm_final, set_state, push, send, is_zero, after_turn,
  do_llm_turn, commit, voice_turn, recover, cancel_committed, cancelled_turn, text_turn, is_due,
  force_respond, prompt, poll,
}

-- `__init__`, of which the prompt and the costs are left out.
unfoldable pub new_pipeline : ℕ → Pipeline
new_pipeline now = record {
  state = idle;
  smart_pause = init now;
  conversation = [];
  carryover_text = "";
  carryover_set_at = none;
  wait_count = 0;
  low_confidence_count = 0;
  interrupted = false;
  tool_context = none;
  transcript = [];
  sent = [];
}

abbrev pub opening : String
opening = "Hello! I'm ready to begin your interview. Whenever you're ready, let's start."

-- `_send_opening`
unfoldable pub send_opening : ℕ → Pipeline → Pipeline
send_opening now p = set_state now listening (
    push (assistant_message opening)
      (record (set_state now speaking (send llm_final p)) { interrupted = false }))

unfoldable pub open_session : ℕ → Pipeline
open_session now = send_opening now (set_state now listening (new_pipeline now))

-- What happens to a session: the frontend's messages, the transcripts of the candidate's speech, a final
-- that is not clear enough to begin an answer, a turn that the voice loop commits, one that is cancelled,
-- a typed answer, and a poll of the pause monitor.
pub data Event : Type 0 where
  interrupt unclear : Event
  tool_context_sent : String → Event
  partial final : ℕ → Event
  spoke : Llm → ℕ → String → Event
  cancelled : Option String → ℕ → String → Event
  typed : Llm → ℕ → String → Event
  polled : Llm → ℕ → Event

module _ (tx : Texts) (t : Thresholds) where
  unfoldable pub handle : Event → Pipeline → Pipeline
  handle interrupt p = record p { interrupted = true }
  handle (tool_context_sent context) p =
      let raw = tx.strip context in
      record p { tool_context = if is_empty raw then none else some raw }
  handle (partial now) p = record p { smart_pause = on_partial now p.smart_pause }
  handle (final now) p = record p { smart_pause = on_final now p.smart_pause }
  handle unclear p = unclear_final p
  handle (spoke llm now text) p = voice_turn tx llm now text (clear_final p)
  handle (cancelled answer now text) p = cancelled_turn tx answer now text (clear_final p)
  handle (typed llm now text) p = text_turn tx llm now text p
  handle (polled llm now) p = poll tx t llm now p

  pub handle_all : List Event → Pipeline → Pipeline
  handle_all [] p = p
  handle_all (e ∷ es) p = handle_all es (handle e p)

  abbrev IsReady : Pipeline → Type 0
  IsReady p = (p.state ≡ listening) × (p.smart_pause.active ≡ true)

  set_state-IsReady : (now : ℕ) (p : Pipeline) → IsReady (set_state now listening p)
  unfolding set_state activate
  set_state-IsReady now p = (refl, refl)

  commit-IsReady : (text : String) (p : Pipeline) → IsReady p → IsReady (commit tx text p).1
  unfolding commit
  commit-IsReady text p h = ground arith

  after_turn-IsReady :
      (now : ℕ) (text : String) (latency : ℕ × ℕ) (p : Pipeline)
      → IsReady (after_turn tx now text (latency, p))
  unfolding after_turn
  after_turn-IsReady now text latency p = elim (Bool-cases (is_zero latency)) [
    | inl z ↦ rw z (set_state-IsReady now _)
    | inr s ↦ rw s (set_state-IsReady now _)
  ]

  prompt-IsReady : (now : ℕ) (p : Pipeline) → IsReady p → IsReady (prompt t now p)
  unfolding prompt check
  prompt-IsReady now p h = ground arith

  turn_committed-IsReady :
      (llm : Llm) (now : ℕ) (r : Option String × Pipeline)
      → IsReady r.1
      → IsReady (turn_committed tx llm now r)
  unfolding turn_committed do_llm_turn
  turn_committed-IsReady llm now (none, q) h = h
  turn_committed-IsReady llm now (some text, q) h =
      let asked = llm_tts_turn tx llm (set_state now processing q) in
      after_turn-IsReady now text (asked.0) (asked.1)

  cancel_committed-IsReady :
      (answer : Option String) (now : ℕ) (r : Option String × Pipeline)
      → IsReady r.1
      → IsReady (cancel_committed answer now r)
  unfolding cancel_committed recover
  cancel_committed-IsReady answer now (none, q) h = h
  cancel_committed-IsReady none now (some text, q) h = set_state-IsReady now _
  cancel_committed-IsReady (some a) now (some text, q) h = set_state-IsReady now _

  poll-IsReady : (llm : Llm) (now : ℕ) (p : Pipeline) → IsReady p → IsReady (poll tx t llm now p)
  unfolding poll force_respond
  poll-IsReady llm now p h =
      elim (Bool-cases (not (is_empty p.carryover_text) && is_due now p.carryover_set_at)) [
        | inl due ↦ rw (h.0, due) (set_state-IsReady now _)
        | inr quiet ↦
            rw (h.0, quiet) (prompt-IsReady now (record p { state = listening }) (refl, h.1))
      ]

  handle-IsReady : (e : Event) (p : Pipeline) → IsReady p → IsReady (handle e p)
  unfolding handle
  handle-IsReady interrupt p h = h
  handle-IsReady unclear p h = unfold unclear_final in h
  handle-IsReady (tool_context_sent context) p h = h
  handle-IsReady (partial now) p h = unfold on_partial in h
  handle-IsReady (final now) p h = unfold on_final in h
  handle-IsReady (spoke llm now text) p h =
      unfold voice_turn in
      turn_committed-IsReady llm now (commit tx text (clear_final p))
        (commit-IsReady text (clear_final p) h)
  handle-IsReady (cancelled answer now text) p h =
      unfold cancelled_turn in
      cancel_committed-IsReady answer now (commit tx text (clear_final p))
        (commit-IsReady text (clear_final p) h)
  handle-IsReady (typed llm now text) p h = unfold text_turn in set_state-IsReady now _
  handle-IsReady (polled llm now) p h = poll-IsReady llm now p h

  handle_all-IsReady : (es : List Event) (p : Pipeline) → IsReady p → IsReady (handle_all es p)
  unfolding handle_all
  handle_all-IsReady [] p h = h
  handle_all-IsReady (e ∷ es) p h = handle_all-IsReady es (handle e p) (handle-IsReady e p h)

  -- After the opening and any sequence of frontend messages, transcripts, unclear finals,
  -- committed, cancelled and typed turns and polls, the pipeline listens and its pause detector is
  -- active.
  pub open_session-IsReady :
      (now : ℕ) (es : List Event)
      → let p = handle_all es (open_session now) in
        (p.state ≡ listening) × (p.smart_pause.active ≡ true)
  unfolding open_session send_opening
  open_session-IsReady now es = handle_all-IsReady es (open_session now) (set_state-IsReady now _)
