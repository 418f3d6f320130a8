-- ===== src/Voice/Turns/State.antt =====
-- The state of a voice session (`VoicePipeline` of backend/app/services/voice/pipeline.py), its messages
-- and the steps that change one part of it.
use interviewcraft.Prelude.{
  ℕ, ◌+◌, ◌*◌, String, Bool, true, false, Option, none, some, List, [], ◌∷◌, ◌++◌, if◌then◌else◌,
  nat_eq, string_eq, concat, is_empty,
}
use interviewcraft.Voice.SmartPause.{SmartPause, PauseAction, activate, deactivate}

-- `prompting` is SOFT_PROMPT, which no code sets.
pub data PipelineState : Type 0 where
  idle listening processing speaking prompting : PipelineState

pub data Role : Type 0 where
  user assistant : Role

pub record Message : Type 0 where
  pub role : Role
  pub content : String

pub record TranscriptTurn : Type 0 where
  pub role : Role
  pub content : String
  pub ts_ms : ℕ

pub data ServerMessage : Type 0 where
  session_state : PipelineState → ServerMessage
  transcript_final : String → ServerMessage
  transcript_rollback : ServerMessage
  not_clear low_confidence_fallback : ServerMessage
  llm_final : ServerMessage
  soft_prompt_text : PauseAction → ServerMessage

-- `VoicePipeline`
pub record Pipeline : Type 0 where
  pub state : PipelineState
  pub smart_pause : SmartPause
  pub conversation : List Message
  pub carryover_text : String
  pub carryover_set_at : Option ℕ
  pub wait_count : ℕ
  pub low_confidence_count : ℕ
  pub interrupted : Bool
  pub tool_context : Option String
  pub transcript : List TranscriptTurn
  pub sent : List ServerMessage

-- `s.strip()`, `len(s.split())`, `s.strip().startswith("[WAIT]")` and `s.replace(old, "")`.
pub record Texts : Type 0 where
  pub strip : String → String
  pub word_count : String → ℕ
  pub starts_with_wait : String → Bool
  pub remove : String → String → String

-- A streamed answer: its tokens, and the times to the first token and the first byte of speech.
pub record LlmRun : Type 0 where
  pub tokens : List String
  pub ttft_ms : ℕ
  pub first_byte_ms : ℕ

-- `generate_stream` on the messages of the conversation.
abbrev pub Llm : Type 0
Llm = List Message → LlmRun

abbrev pub max_wait_count : ℕ
max_wait_count = 2

abbrev pub min_words_for_llm : ℕ
min_words_for_llm = 2

abbrev pub carryover_timeout_ms : ℕ
carryover_timeout_ms = 8000

abbrev pub user_message : String → Message
user_message text = record {
  role = user;
  content = concat ("<candidate_answer>" ∷ text ∷ "</candidate_answer>" ∷ []);
}

abbrev pub assistant_message : String → Message
assistant_message text = record { role = assistant; content = text }

-- `if conversation and conversation[-1]["role"] == role: conversation.pop()`
unfoldable pub pop_user : List Message → List Message
pop_user [] = []
pop_user (m ∷ []) = elim m.role [ user ↦ [] | assistant ↦ m ∷ [] ]
pop_user (m ∷ n ∷ rest) = m ∷ pop_user (n ∷ rest)

unfoldable pub pop_assistant : List Message → List Message
pop_assistant [] = []
pop_assistant (m ∷ []) = elim m.role [ user ↦ m ∷ [] | assistant ↦ [] ]
pop_assistant (m ∷ n ∷ rest) = m ∷ pop_assistant (n ∷ rest)

abbrev pub is_listening : PipelineState → Bool
is_listening listening = true
is_listening _ = false

-- `_set_state`
unfoldable pub set_state : ℕ → PipelineState → Pipeline → Pipeline
set_state now s p = record p {
  state = s;
  smart_pause = if is_listening s then activate now p.smart_pause else deactivate p.smart_pause;
  sent = p.sent ++ (session_state s ∷ []);
}

abbrev pub push : Message → Pipeline → Pipeline
push m p = record p { conversation = p.conversation ++ (m ∷ []) }

abbrev pub send : ServerMessage → Pipeline → Pipeline
send m p = record p { sent = p.sent ++ (m ∷ []) }

-- The context of the board or the code before the last message of the candidate.
unfoldable pub llm_messages : Option String → List Message → List Message
llm_messages none conversation = conversation
llm_messages (some context) [] = []
llm_messages (some context) (m ∷ []) = if is_empty context then m ∷ [] else elim m.role [
  | user ↦ record { role = user; content = concat (context ∷ "\n\n---\n" ∷ m.content ∷ []) } ∷ []
  | assistant ↦ m ∷ []
]
llm_messages (some context) (m ∷ n ∷ rest) = m ∷ llm_messages (some context) (n ∷ rest)

-- The `enumerate` of the conversation that saves each message, with its tags removed.
unfoldable pub transcript_from : Texts → ℕ → List Message → List TranscriptTurn
transcript_from tx idx [] = []
transcript_from tx idx (m ∷ rest) =
    record {
      role = m.role;
      content = tx.remove "</candidate_answer>" (tx.remove "<candidate_answer>" m.content);
      ts_ms = idx * 1000;
    }
    ∷ transcript_from tx (idx + 1) rest

-- `_save_transcript_turn`, and the same assignment in `_finalize_session`.
unfoldable pub save_transcript_turn : Texts → Pipeline → Pipeline
save_transcript_turn tx p = record p { transcript = transcript_from tx 0 p.conversation }
