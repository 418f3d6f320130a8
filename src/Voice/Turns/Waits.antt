-- ===== src/Voice/Turns/Waits.antt =====
-- What a turn of the voice loop comes to, and how often the model may put an answer off.
use interviewcraft.Prelude.{
  ℕ, ◌+◌, ◌≤◌, ◌<◌, String, ◌≡◌, refl, ap, ◌∙◌, ◌⊎◌, inl, inr, Bool, true, false, not, ◌&&◌, List,
  [], ◌∷◌, ◌++◌, arith, ltb, ◌==ℕ◌, ltb→lt, Bool-cases, length, All, nat_eq, string_eq, concat,
}
use interviewcraft.Voice.Turns.{
  llm_final, llm_final, Pipeline, Texts, Llm, Message, user, assistant, user_message,
  assistant_message, processing, pop_user, push, set_state, llm_messages, is_wait, ttft_of,
  llm_tts_turn, is_zero, after_turn, do_llm_turn, save_transcript_turn,
}

pub pop_user-append :
    (c : List Message) (m : Message)
    → pop_user (c ++ (m ∷ [])) ≡ (elim m.role [ user ↦ c | assistant ↦ c ++ (m ∷ []) ])
unfolding pop_user
pop_user-append [] m = refl
pop_user-append (n ∷ []) m = ground arith
pop_user-append (n ∷ k ∷ c) m = ground (arith, pop_user-append (k ∷ c) m)

-- No signal is left once the limit is reached.
is_wait_capped :
    (tx : Texts) (count : ℕ) (response : String) (tokens : List String)
    → 2 ≤ count
    → is_wait tx count response tokens ≡ false
unfolding is_wait
is_wait_capped tx count response [] h = refl
is_wait_capped tx count response (t ∷ ts) h =
    ground (arith, is_wait_capped tx count (concat (response ∷ t ∷ [])) ts h)

-- Every answer of the model that is not a signal is heard for some time.
abbrev pub IsHeard : Llm → Type 0
IsHeard llm = (ms : List Message) → 0 < (llm ms).first_byte_ms

-- The pipeline that put an answer off, and the one that answered it.
abbrev pub IsPutOff : String → Pipeline → Pipeline → Type 0
IsPutOff text p q =
    (q.wait_count ≡ p.wait_count + 1)
    × (q.wait_count ≤ 2)
    × (q.conversation ≡ p.conversation)
    × (q.carryover_text ≡ text)

abbrev pub IsAnswered : String → Pipeline → Pipeline → Type 0
IsAnswered text p q =
    (response : String) × (q.wait_count ≡ 0)
    × (q.conversation ≡ p.conversation ++ (user_message text ∷ assistant_message response ∷ []))

pub append-two :
    {A : Type 0} (xs : List A) (a b : A) → (xs ++ (a ∷ [])) ++ (b ∷ []) ≡ xs ++ (a ∷ b ∷ [])
append-two [] a b = refl
append-two (x ∷ xs) a b = ap (λ r. x ∷ r) (append-two xs a b)

pub llm_tts_turn_waits :
    (tx : Texts) (llm : Llm) (p : Pipeline)
    → is_wait tx p.wait_count "" (llm (llm_messages p.tool_context p.conversation)).tokens ≡ true
    → llm_tts_turn tx llm p
      ≡ ((0, 0), record p { interrupted = false; conversation = pop_user p.conversation })
unfolding llm_tts_turn
llm_tts_turn_waits tx llm p w = rw w refl

pub llm_tts_turn_answers :
    (tx : Texts) (llm : Llm) (p : Pipeline)
    → let run = llm (llm_messages p.tool_context p.conversation) in
      is_wait tx p.wait_count "" run.tokens ≡ false
      → llm_tts_turn tx llm p ≡ (
        (ttft_of run, run.first_byte_ms),
        record p {
          interrupted = false;
          conversation = p.conversation ++ (assistant_message (concat run.tokens) ∷ []);
          sent = p.sent ++ (llm_final ∷ []);
        },
      )
unfolding llm_tts_turn
llm_tts_turn_answers tx llm p a = rw a refl

after_turn_zero :
    (tx : Texts) (now : ℕ) (text : String) (p : Pipeline)
    → let q = after_turn tx now text ((0, 0), p) in
      (q.wait_count ≡ p.wait_count + 1)
      × (q.conversation ≡ p.conversation)
      × (q.carryover_text ≡ text)
unfolding after_turn set_state
after_turn_zero tx now text p = (refl, refl, refl)

after_turn_spoke :
    (tx : Texts) (now : ℕ) (text : String) (latency : ℕ × ℕ) (p : Pipeline)
    → is_zero latency ≡ false
    → let q = after_turn tx now text (latency, p) in
      (q.wait_count ≡ 0) × (q.conversation ≡ p.conversation)
unfolding after_turn set_state save_transcript_turn
after_turn_spoke tx now text latency p z = rw z (refl, refl)

heard_is_zero : (ttft fb : ℕ) → 0 < fb → is_zero (ttft, fb) ≡ false
heard_is_zero ttft fb h = ground arith

is_wait_few :
    (tx : Texts) (count : ℕ) (tokens : List String) → is_wait tx count "" tokens ≡ true → count < 2
is_wait_few tx count tokens w = elim (Bool-cases (ltb count 2)) [
  | inl few ↦ ltb→lt _ _ few
  | inr many ↦ let none_left = is_wait_capped tx count "" tokens (ground arith) in absurd (cc)
]

-- A committed answer, whose response is heard for some time, is either put off (the conversation is
-- as before it, the answer is carried over, the count of waits is one larger and two at most) or
-- answered (the answer and the response are the last messages and the count is zero).
pub do_llm_turn_cases :
    (tx : Texts) (llm : Llm) (now : ℕ) (text : String) (p : Pipeline)
    → IsHeard llm
    → let q = do_llm_turn tx llm now text (push (user_message text) p) in
      IsPutOff text p q ⊎ IsAnswered text p q
unfolding do_llm_turn set_state
do_llm_turn_cases tx llm now text p heard =
    let asked = set_state now processing (push (user_message text) p) in
    let run = llm (llm_messages asked.tool_context asked.conversation) in
    elim (Bool-cases (is_wait tx asked.wait_count "" run.tokens)) [
      | inl w ↦
          let few = is_wait_few tx asked.wait_count run.tokens w in
          let left = record asked {
            interrupted = false;
            conversation = pop_user asked.conversation;
          } in
          let (n, c, t) = after_turn_zero tx now text left in
          inl (
            rw (llm_tts_turn_waits tx llm asked w)
              (n, omega (arith, n), c ∙ pop_user-append p.conversation (user_message text), t))
      | inr a ↦
          let response = concat run.tokens in
          let told = record asked {
            interrupted = false;
            conversation = asked.conversation ++ (assistant_message response ∷ []);
            sent = asked.sent ++ (llm_final ∷ []);
          } in
          let (n, c) =
            after_turn_spoke tx now text (ttft_of run, run.first_byte_ms) told
              (heard_is_zero (ttft_of run) run.first_byte_ms (heard _)) in
          inr (
            rw (llm_tts_turn_answers tx llm asked a) (
              response,
              n,
              c ∙ append-two p.conversation (user_message text) (assistant_message response),
            ))
    ]

-- An answer of the candidate, already long enough to commit, and what the model does with it.
abbrev pub Answer : Type 0
Answer = ℕ × String × Llm

-- Whether every one of the answers is put off.
unfoldable pub all_put_off : Texts → List Answer → Pipeline → Bool
all_put_off tx [] p = true
all_put_off tx ((now, text, llm) ∷ rest) p =
    let q = do_llm_turn tx llm now text (push (user_message text) p) in
    not (q.wait_count ==ℕ 0) && all_put_off tx rest q

and_parts : (a b : Bool) → (a && b) ≡ true → (a ≡ true) × (b ≡ true)
and_parts true b h = (refl, h)
and_parts false b h = cc

-- Of answers that are committed one right after the other, with no poll of the pause monitor and no
-- other event in between, the model puts off at most two, less the waits already counted, which are
-- two at most: whatever it generates, if it is heard to answer each, of any three in a row one is
-- answered.
pub all_put_off-length :
    (tx : Texts) (turns : List Answer) (p : Pipeline)
    → p.wait_count ≤ 2
    → All (λ a. IsHeard (a.2)) turns
    → all_put_off tx turns p ≡ true
    → length turns + p.wait_count ≤ 2
unfolding all_put_off
all_put_off-length tx [] p few heard off = omega arith
all_put_off-length tx ((now, text, llm) ∷ rest) p few heard off =
    let q = do_llm_turn tx llm now text (push (user_message text) p) in
    elim (do_llm_turn_cases tx llm now text p heard.0) [
      | inl (n, le, c, t) ↦
          let (waits, tail) = and_parts (not (q.wait_count ==ℕ 0)) (all_put_off tx rest q) off in
          omega (arith, n, all_put_off-length tx rest q le heard.1 tail)
      | inr (response, n, c) ↦
          let (waits, tail) = and_parts (not (q.wait_count ==ℕ 0)) (all_put_off tx rest q) off in
          absurd (ground arith)
    ]
