-- ===== src/Interviews/Tests.antt =====
-- The theorems on sessions, at a candidate with one session: its life, its scoring and a rewind of its answer.
use interviewcraft.Prelude.{
  ℕ, String, ◌≡◌, refl, Bool, true, false, none, some, List, [], ◌∷◌, ◌++◌, arith, ltb,
  if◌then◌else◌, pos, ◌==◌, nat_eq, string_eq, Dict,
}
use interviewcraft.Auth.Users.{by_id, User, user, ok}
use interviewcraft.Auth.Tokens.{Payload, Libraries, token_user}
use interviewcraft.Auth.Sessions.{active_user}
use interviewcraft.Voice.Turns.{assistant}
use interviewcraft.Delivery.{Turn}
use interviewcraft.Interviews.{
  InterviewSession, SessionCreate, Ending, abandon, completed, abandoned, of_user, save,
  create_session, end_session, delete_session, voice_session, finalize_session, ended,
  get_owned_session, finalized, new_session, routed_type, is_refused, authenticate_ws,
  byok_required,
}
use interviewcraft.Interviews.Lifecycle.{
  Store, Step, creates, ends, connects, finalizes, analyses, erases, Reach, here, next,
  IsWellFormed, Reach-IsWellFormed,
}
use interviewcraft.Negotiation.{get_negotiation_analysis}
use interviewcraft.Accounts.Deletion.{Rows, delete_account}
use interviewcraft.Interviews.Endings.{is_open, Reach-is_open}
use interviewcraft.Interviews.Requests.{others_kept, create-delete_session, finalize-end_session}

abbrev payload : Payload
payload = record {
  sub = some "1";
  email = none;
  role = none;
  type = some "access";
  jti = none;
  exp = 100;
}

-- Tokens are numbers, and those below 100 are of the user 1.
abbrev lib : Libraries
lib = record {
  Token = ℕ;
  is_blank = λ t. false;
  encode = λ p. 0;
  decode = λ now t. if ltb t 100 then some payload else none;
  hash_password = λ s. s;
  verify_password = λ s h. s == h;
  str_uuid = λ n. "1";
  parse_uuid = λ s. some 1;
}

abbrev body : SessionCreate
body = record {
  type = "behavioral";
  interview_type = none;
  quality_profile = "balanced";
  voice_id = none;
  persona = "neutral";
  company = none;
  focus_skill = none;
  duration_limit_minutes = some 30;
}

abbrev candidate_row : User
candidate_row = record {
  id = 1;
  email = "ann@example.org";
  hashed_password = none;
  role = user;
  is_active = true;
  failed_login_attempts = 0;
  locked_until = none;
  google_id = none;
}

abbrev spoken_turns : List Turn
spoken_turns = record { role = assistant; content = "Why?"; ts_ms = none } ∷ []

-- The first session of the candidate, and of another one.
abbrev first_session : InterviewSession
first_session = new_session 10 5 1 "diagnostic" body

abbrev other_session : InterviewSession
other_session = new_session 11 6 2 "diagnostic" body

abbrev over_session : InterviewSession
over_session = record first_session { status = completed; ended_at = some 7 }

abbrev store0 : Store
store0 = record { used = []; live = []; sessions = [] }

abbrev store1 : Store
store1 = record { used = 10 ∷ []; live = []; sessions = (create_session 10 5 false [] body 1 []).1 }

abbrev store2 : Store
store2 = record store1 { live = 10 ∷ [] }

abbrev store3 : Store
store3 = record store2 { sessions = (end_session 6 abandon 10 1 store2.sessions).1 }

abbrev store4 : Store
store4 = record store3 { sessions = finalize_session 8 spoken_turns (pos 40) 10 store3.sessions }

one_session : store1.sessions ≡ first_session ∷ []
unfolding create_session is_refused routed_type
one_session = refl

voice_joined : Step lib store1 store2
unfolding voice_session authenticate_ws active_user token_user get_owned_session create_session
    is_refused routed_type by_id
voice_joined = connects store1 6 3 (candidate_row ∷ []) 10 first_session refl

whole_run : Reach lib store0 store4
whole_run =
    next
      (next (next (next here (creates store0 10 5 1 false [] body refl)) voice_joined)
        (ends store2 6 abandon 10 1))
      (finalizes store3 8 spoken_turns (pos 40) 10 refl)

-- The session is analysed, as if it were a negotiation, and the candidate's account is deleted.
abbrev store5 : Store
store5 = record store4 { sessions = (get_negotiation_analysis (λ r. none) 10 1 store4.sessions).1 }

abbrev account_rows : Rows
account_rows = record {
  users = 1 ∷ [];
  sessions = store5.sessions;
  transcript_words = [];
  segment_scores = [];
  session_metrics = [];
  skill_graph = [];
  stories = [];
  usage_logs = [];
  cascading = [];
  cached_memories = [];
}

abbrev store6 : Store
store6 = record store5 { sessions = (delete_account 1 account_rows).sessions }

erased_run : Reach lib store0 store6
erased_run =
    next (next whole_run (analyses store4 (λ r. none) 10 1)) (erases store5 1 account_rows refl)

Reach-IsWellFormed_example : IsWellFormed store6
Reach-IsWellFormed_example = Reach-IsWellFormed lib erased_run (tt, tt, tt)

later_run : Reach lib store3 store4
later_run = next here (finalizes store3 8 spoken_turns (pos 40) 10 refl)

closed_over : is_open 10 store3.sessions ≡ false
unfolding is_open end_session ended save get_owned_session create_session is_refused routed_type
closed_over = refl

Reach-is_open_example :
    (is_open 10 store4.sessions ≡ false)
    × ((now : ℕ) (token : ℕ) (users : List User)
        → voice_session lib now token 10 users store4.sessions ≡ none)
    × ((now user_id : ℕ) (ending : Ending)
        → (end_session now ending 10 user_id store4.sessions).1 ≡ store4.sessions)
Reach-is_open_example = Reach-is_open lib 10 later_run (refl, closed_over)

others_kept_example :
    ((id now : ℕ) (has_platform_key : Bool) (byok : Dict String String) (request : SessionCreate)
      → of_user 2
          (create_session id now has_platform_key byok request 1
            (first_session ∷ other_session ∷ [])).1
        ≡ of_user 2 (first_session ∷ other_session ∷ []))
    × ((now : ℕ) (ending : Ending) (session_id : ℕ)
        → of_user 2 (end_session now ending session_id 1 (first_session ∷ other_session ∷ [])).1
          ≡ of_user 2 (first_session ∷ other_session ∷ []))
    × ((session_id : ℕ)
        → of_user 2 (delete_session session_id 1 (first_session ∷ other_session ∷ [])).1
          ≡ of_user 2 (first_session ∷ other_session ∷ []))
others_kept_example =
    others_kept (first_session ∷ other_session ∷ []) 1 2 (refl, (refl, tt))
      (λ e. absurd (omega (arith, e)))

create-delete_session_example :
    let after = (delete_session 10 1 (over_session ∷ other_session ∷ [])).1 in
    let again = new_session 12 9 1 "diagnostic" body in
    (create_session 12 9 false [] body 1 (over_session ∷ other_session ∷ [])
      ≡ (byok_required, over_session ∷ other_session ∷ []))
    × (create_session 12 9 false [] body 1 after ≡ (ok again, after ++ (again ∷ [])))
create-delete_session_example =
    create-delete_session 12 9 1 [] body (over_session ∷ other_session ∷ []) over_session refl refl
      refl

found_first : get_owned_session 10 1 (first_session ∷ other_session ∷ []) ≡ some first_session
unfolding get_owned_session
found_first = refl

finalize-end_session_example :
    let after = (end_session 6 abandon 10 1 (first_session ∷ other_session ∷ [])).1 in
    (get_owned_session 10 1 after
      ≡ some (record first_session { status = abandoned; ended_at = some 6 }))
    × (get_owned_session 10 1 (finalize_session 8 spoken_turns (pos 40) 10 after)
        ≡ some (finalized 8 spoken_turns (pos 40) first_session))
finalize-end_session_example =
    finalize-end_session 6 8 abandon spoken_turns (pos 40) 10 1 (first_session ∷ other_session ∷ [])
      first_session found_first refl
