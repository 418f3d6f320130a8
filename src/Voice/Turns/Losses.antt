-- ===== src/Voice/Turns/Losses.antt =====
-- Where an answer of the candidate is lost or doubled.
use interviewcraft.Prelude.{
  ℕ, ◌+◌, ◌-◌, ◌<◌, String, ◌≡◌, refl, ap, ◌∙◌, subst, true, false, Option, none, some, List, [],
  ◌∷◌, ◌++◌, arith, ltb, nat_eq, string_eq, concat, is_empty,
}
use interviewcraft.Voice.SmartPause.{Thresholds}
use interviewcraft.Voice.Turns.{
  cancel_committed, transcript_final, Pipeline, Texts, Llm, Message, user, assistant, user_message,
  assistant_message, processing, listening, pop_user, pop_assistant, push, set_state, llm_messages,
  is_wait, save_transcript_turn, with_carryover, commit, recover, cancelled_turn, force_note,
  force_answer, typed_after, text_turn, force_respond, poll,
}
use interviewcraft.Voice.Turns.Waits.{
  pop_user-append, llm_tts_turn_waits, llm_tts_turn_answers, append-two,
}

abbrev pub note_message : Message
note_message = record { role = user; content = force_note }

pop_user-answered :
    (c : List Message) (m : Message) (response : String)
    → pop_user (c ++ (m ∷ assistant_message response ∷ []))
      ≡ c ++ (m ∷ assistant_message response ∷ [])
pop_user-answered c m response =
    subst (λ l. pop_user l ≡ l) (append-two c m (assistant_message response))
      (pop_user-append (c ++ (m ∷ [])) (assistant_message response))

force_answer-conversation :
    (tx : Texts) (llm : Llm) (p : Pipeline)
    → let run = llm (llm_messages p.tool_context (p.conversation ++ (note_message ∷ []))) in
      is_wait tx p.wait_count "" run.tokens ≡ false
      → (force_answer tx llm p).conversation
        ≡ p.conversation ++ (note_message ∷ assistant_message (concat run.tokens) ∷ [])
unfolding force_answer
force_answer-conversation tx llm p a =
    let run = llm (llm_messages p.tool_context (p.conversation ++ (note_message ∷ []))) in
    rw (llm_tts_turn_answers tx llm (push note_message p) a) (
      ap pop_user (append-two p.conversation note_message (assistant_message (concat run.tokens)))
      ∙ pop_user-answered p.conversation note_message (concat run.tokens))

-- If the model signals to wait for a typed answer and then answers when it is forced to, the
-- conversation keeps the note that forced it and not what the candidate typed.
pub text_turn_forced :
    (tx : Texts) (llm : Llm) (now : ℕ) (typed : String) (p : Pipeline)
    → let text = with_carryover tx typed p in
      let run = llm (llm_messages p.tool_context (p.conversation ++ (user_message text ∷ []))) in
      let forced = llm (llm_messages p.tool_context (p.conversation ++ (note_message ∷ []))) in
      is_wait tx p.wait_count "" run.tokens ≡ true
      → is_wait tx p.wait_count "" forced.tokens ≡ false
      → (text_turn tx llm now typed p).conversation
        ≡ p.conversation ++ (note_message ∷ assistant_message (concat forced.tokens) ∷ [])
unfolding text_turn set_state save_transcript_turn typed_after
text_turn_forced tx llm now typed p w a =
    let text = with_carryover tx typed p in
    let q = push (user_message text) (record p { low_confidence_count = 0; carryover_text = "" }) in
    let asked = set_state now processing q in
    rw (llm_tts_turn_waits tx llm asked w, pop_user-append p.conversation (user_message text))
      (force_answer-conversation tx llm
        (record asked { interrupted = false; conversation = p.conversation }) a)

-- If the model signals to wait again when the pause monitor forces an answer, the answer is in the
-- conversation no more and is not carried over.
pub poll_forced :
    (tx : Texts) (t : Thresholds) (llm : Llm) (now at : ℕ) (p : Pipeline)
    → p.state ≡ listening
    → is_empty p.carryover_text ≡ false
    → p.carryover_set_at ≡ some at
    → at + 8000 < now
    → let run =
        llm
          (llm_messages p.tool_context (p.conversation ++ (user_message p.carryover_text ∷ []))) in
      is_wait tx 0 "" run.tokens ≡ true
      → let q = poll tx t llm now p in (q.conversation ≡ p.conversation) × (q.carryover_text ≡ "")
unfolding poll force_respond set_state
poll_forced tx t llm now at p s e c d w =
    let q = push (user_message p.carryover_text) (record p {
      carryover_text = "";
      carryover_set_at = none;
      wait_count = 0;
      sent = p.sent ++ (transcript_final p.carryover_text ∷ []);
    }) in
    let asked = set_state now processing q in
    let due : ltb 8000 (now - at) ≡ true = ground arith in
    rw (s, e, c, due, llm_tts_turn_waits tx llm asked w)
      (pop_user-append p.conversation (user_message p.carryover_text), refl)

pop_assistant-append :
    (c : List Message) (m : Message)
    → pop_assistant (c ++ (m ∷ [])) ≡ (elim m.role [ user ↦ c ++ (m ∷ []) | assistant ↦ c ])
unfolding pop_assistant
pop_assistant-append [] m = refl
pop_assistant-append (n ∷ []) m = ground arith
pop_assistant-append (n ∷ k ∷ c) m = ground (arith, pop_assistant-append (k ∷ c) m)

commit-some :
    (tx : Texts) (accumulated text : String) (p : Pipeline)
    → (commit tx accumulated p).0 ≡ some text
    → (text ≡ with_carryover tx accumulated p)
      × ((commit tx accumulated p).1.conversation ≡ p.conversation ++ (user_message text ∷ []))
unfolding commit
commit-some tx accumulated text p c = ground arith

cancel_committed-fields :
    (answer : Option String) (now : ℕ) (text : String) (c : List Message)
    (r : Option String × Pipeline)
    → r.0 ≡ some text
    → r.1.conversation ≡ c ++ (user_message text ∷ [])
    → let q = cancel_committed answer now r in
      (q.carryover_text ≡ text) × (q.conversation ≡ c ++ (user_message text ∷ []))
unfolding cancel_committed recover set_state
cancel_committed-fields answer now text c (none, q) h conv = cc
cancel_committed-fields none now text c (some t, q) h conv =
    let same : t ≡ text = cc in (same, rw conv (pop_assistant-append c (user_message text)))
cancel_committed-fields (some a) now text c (some t, q) h conv =
    let same : t ≡ text = cc in
    (same, pop_assistant-append q.conversation (assistant_message a) ∙ conv)

cancelled-fields :
    (tx : Texts) (answer : Option String) (now : ℕ) (accumulated text : String) (p : Pipeline)
    → (commit tx accumulated p).0 ≡ some text
    → let q = cancelled_turn tx answer now accumulated p in
      (q.carryover_text ≡ text) × (q.conversation ≡ p.conversation ++ (user_message text ∷ []))
unfolding cancelled_turn
cancelled-fields tx answer now accumulated text p c =
    let (e, conv) = commit-some tx accumulated text p c in
    cancel_committed-fields answer now text p.conversation (commit tx accumulated p) c conv

with_carryover-text :
    (tx : Texts) (next text : String) (p : Pipeline)
    → p.carryover_text ≡ text
    → is_empty text ≡ false
    → with_carryover tx next p ≡ tx.strip (concat (text ∷ " " ∷ next ∷ []))
unfolding with_carryover
with_carryover-text tx next text p h e = rw (h, e) refl

-- The answer of a cancelled turn stays in the conversation and is also carried over, so once the next
-- one is committed the conversation holds it twice.
pub cancelled_turn_twice :
    (tx : Texts) (answer : Option String) (now : ℕ) (accumulated next text text' : String)
    (p : Pipeline)
    → (commit tx accumulated p).0 ≡ some text
    → is_empty text ≡ false
    → let q = cancelled_turn tx answer now accumulated p in
      (commit tx next q).0 ≡ some text'
      → (text' ≡ tx.strip (concat (text ∷ " " ∷ next ∷ [])))
        × ((commit tx next q).1.conversation
            ≡ p.conversation ++ (user_message text ∷ user_message text' ∷ []))
cancelled_turn_twice tx answer now accumulated next text text' p c e c' =
    let q = cancelled_turn tx answer now accumulated p in
    let (carried, conv) = cancelled-fields tx answer now accumulated text p c in
    let (same, conv') = commit-some tx next text' q c' in
    (
      same ∙ with_carryover-text tx next text q carried e,
      conv' ∙ rw conv (append-two p.conversation (user_message text) (user_message text')),
    )
