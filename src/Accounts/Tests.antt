-- ===== src/Accounts/Tests.antt =====
-- The theorems on keys, at an account with two of them.
use interviewcraft.Prelude.{
  ◌≡◌, refl, false, none, some, get_or, List, [], ◌∷◌, ◌++◌, arith, nat_eq, string_eq, lookup,
}
use interviewcraft.Auth.Users.{ok}
use interviewcraft.Interviews.{SessionCreate, InterviewSession, create_session, new_session}
use interviewcraft.Accounts.{Keyring, ByokUpdate, Account, updates_of, upsert_byok_keys}
use interviewcraft.Accounts.Keys.{key_read, renewed, decrypt-upsert_byok_keys}
use interviewcraft.Accounts.Deletion.{Rows, delete_account}
use interviewcraft.Accounts.Deletion.References.{IsReferential}
use interviewcraft.Accounts.Deletion.Erasure.{IsErased, delete_account-IsErased}
use interviewcraft.Accounts.Gate.{create_session-upsert_byok_keys}

-- A key is stored as it is.
abbrev keyring : Keyring
keyring = record {
  encrypt = λ s. s;
  decrypt = λ s. some s;
  len = λ s. 20;
  prefix = λ s. s;
  suffix = λ s. s;
  sorted = λ l. l;
}

abbrev account : Account
account = record {
  profile = none;
  byok_keys = some (("anthropic", "sk-1") ∷ ("openai", "sk-2") ∷ []);
}

-- A new Anthropic key, and the OpenAI key removed.
abbrev update : ByokUpdate
update = record { anthropic = some "sk-3"; openai = some ""; deepgram = none; elevenlabs = none }

decrypt-upsert_byok_keys_example :
    key_read keyring "openai" (upsert_byok_keys keyring update account).1
    ≡ renewed (lookup "openai" (updates_of update)) (key_read keyring "openai" account)
decrypt-upsert_byok_keys_example =
    decrypt-upsert_byok_keys keyring (λ raw. refl) update account "openai" (refl, (refl, tt)) refl

abbrev request : SessionCreate
request = record {
  type = "behavioral";
  interview_type = none;
  quality_profile = "balanced";
  voice_id = none;
  persona = "neutral";
  company = none;
  focus_skill = none;
  duration_limit_minutes = none;
}

abbrev table : List InterviewSession
table = new_session 10 5 1 "diagnostic" request ∷ []

create_session-upsert_byok_keys_example :
    let byok = get_or (Account.byok_keys (upsert_byok_keys keyring update account).1) [] in
    let s = new_session 11 9 1 "behavioral" request in
    create_session 11 9 false byok request 1 table ≡ (ok s, table ++ (s ∷ []))
create_session-upsert_byok_keys_example =
    create_session-upsert_byok_keys keyring update "sk-3" account 11 9 1 request table refl
      (omega arith)

-- Two users with a session, the first one with a story of it and a cached memory.
abbrev account_rows : Rows
account_rows = record {
  users = 1 ∷ 2 ∷ [];
  sessions = new_session 10 5 1 "diagnostic" request ∷ new_session 11 6 2 "diagnostic" request ∷ [];
  transcript_words = record { id = 1; session_id = 10 } ∷ [];
  segment_scores = record { id = 1; session_id = 11 } ∷ record { id = 2; session_id = 10 } ∷ [];
  session_metrics = [];
  skill_graph = record { id = 1; user_id = 2 } ∷ [];
  stories =
      record { id = 1; user_id = 1; source_session_id = some 10 }
      ∷ record { id = 2; user_id = 2; source_session_id = some 11 }
      ∷ [];
  usage_logs = record { id = 1; user_id = none; session_id = some 10 } ∷ [];
  cascading = record { id = 1; user_id = 1 } ∷ [];
  cached_memories = 1 ∷ [];
}

account_rows-IsReferential : IsReferential account_rows
account_rows-IsReferential = record {
  sessions = (refl, (refl, tt));
  transcript_words = (refl, tt);
  segment_scores = (refl, (refl, tt));
  session_metrics = tt;
  skill_graph = (refl, tt);
  stories = ((refl, refl), ((refl, refl), tt));
  usage_logs = ((tt, refl), tt);
  cascading = (refl, tt);
}

delete_account-IsErased_example :
    IsReferential (delete_account 1 account_rows)
    × IsErased 1 2 11 account_rows (delete_account 1 account_rows)
delete_account-IsErased_example =
    delete_account-IsErased 1 2 11 account_rows (λ e. absurd (omega (arith, e))) refl
      account_rows-IsReferential
