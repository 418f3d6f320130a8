-- ===== src/Interviews/Lifecycle.antt =====
-- The life of a session, from its creation to its deletion: the requests and the voice loops of all users
-- as steps on the table. Each request is one step. The steps are every operation of the program that
-- writes the table: of backend/app/api/v1/sessions.py, scoring.py, negotiation.py and settings.py, and of
-- a voice loop.
use interviewcraft.Prelude.{
  ℕ, String, ◌≡◌, refl, sym, ap, subst, Bool, true, false, not, Option, some, List, ◌∷◌, ◌==ℕ◌,
  filter, All, ℤ, nat_eq, string_eq, IsDistinct, contains, Dict,
}
use interviewcraft.Auth.Users.{User}
use interviewcraft.Auth.Tokens.{Libraries}
use interviewcraft.Delivery.{Turn, TranscriptWord, Speech}
use interviewcraft.Memory.DrillPlanner.{Floats}
use interviewcraft.Progress.{Forms}
use interviewcraft.Negotiation.{NegotiationStart, start_negotiation, get_negotiation_analysis}
use interviewcraft.Accounts.Deletion.{Rows, delete_account, delete_sessions, delete_user_rows}
use interviewcraft.Accounts.Deletion.References.{delete_account-erased}
use interviewcraft.Interviews.{
  InterviewSession, NegotiationAnalysis, SessionCreate, Ending, create_session, end_session,
  delete_session, voice_session, finalize_session, save_transcript, get_owned_session,
}
use interviewcraft.Interviews.Scores.{Services, Db}
use interviewcraft.Interviews.SessionScoring.{score_session}
use interviewcraft.Interviews.DeliveryResults.{get_delivery_analysis}
use interviewcraft.Interviews.Rows.{
  ids, IsUsed, IsDated, append-IsTable, create-IsTable, ended-IsTable, deleted-IsTable,
  finalize-IsTable, transcript-IsTable, filter-IsTable, IsTable,
}
use interviewcraft.Interviews.Rewritten.{
  rewritten-IsTable, score_session-IsRewritten, get_negotiation_analysis-IsRewritten,
  get_delivery_analysis-IsRewritten,
}

-- The identifiers drawn so far, the sessions that a voice loop was started for, and the table.
pub record Store : Type 0 where
  pub used : List ℕ
  pub live : List ℕ
  pub sessions : List InterviewSession

module _ (lib : Libraries) where
  -- A request of a user, a voice loop that starts, one that saves its conversation, and one that ends at
  -- any time after it. The services of a scoring, the model of an analysis, and what other tables hold
  -- are any of each step.
  pub data Step : Store → Store → Type 1 where
    creates :
        (s : Store) (id now user_id : ℕ) (has_platform_key : Bool) (byok : Dict String String)
        (body : SessionCreate)
        → contains id s.used ≡ false
        → Step s (record s {
          used = id ∷ s.used;
          sessions = (create_session id now has_platform_key byok body user_id s.sessions).1;
        })
    negotiates :
        (s : Store) (fl : Floats) (fm : Forms fl) (id now user_id : ℕ) (body : NegotiationStart)
        → contains id s.used ≡ false
        → Step s (record s {
          used = id ∷ s.used;
          sessions = (start_negotiation fl fm id now body user_id s.sessions).1;
        })
    ends :
        (s : Store) (now : ℕ) (ending : Ending) (session_id user_id : ℕ)
        → Step s (record s { sessions = (end_session now ending session_id user_id s.sessions).1 })
    deletes :
        (s : Store) (session_id user_id : ℕ)
        → Step s (record s { sessions = (delete_session session_id user_id s.sessions).1 })
    erases :
        (s : Store) (user_id : ℕ) (db : Rows)
        → db.sessions ≡ s.sessions
        → Step s (record s { sessions = (delete_account user_id db).sessions })
    scores :
        (s : Store) (sv : Services) (force : Bool) (session_id user_id : ℕ) (db : Db)
        → db.sessions ≡ s.sessions
        → Step s (record s { sessions = (score_session sv force session_id user_id db).1.sessions })
    analyses :
        (s : Store) (model : InterviewSession → Option NegotiationAnalysis) (session_id user_id : ℕ)
        → Step s (record s {
          sessions = (get_negotiation_analysis model session_id user_id s.sessions).1;
        })
    delivers :
        (s : Store) (sp : Speech) (words : List TranscriptWord) (session_id user_id : ℕ)
        → Step s (record s {
          sessions = (get_delivery_analysis sp words session_id user_id s.sessions).1;
        })
    connects :
        (s : Store) (now : ℕ) (token : lib.Token) (users : List User) (session_id : ℕ)
        (row : InterviewSession)
        → voice_session lib now token session_id users s.sessions ≡ some row
        → Step s (record s { live = session_id ∷ s.live })
    records :
        (s : Store) (transcript : List Turn) (session_id : ℕ)
        → contains session_id s.live ≡ true
        → Step s (record s { sessions = save_transcript transcript session_id s.sessions })
    finalizes :
        (s : Store) (now : ℕ) (transcript : List Turn) (total_cost : ℤ) (session_id : ℕ)
        → contains session_id s.live ≡ true
        → Step s (record s {
          sessions = finalize_session now transcript total_cost session_id s.sessions;
        })

  pub data Reach (s : Store) : Store → Type 1 where
    here : Reach s s
    next : {t u : Store} → Reach s t → Step t u → Reach s u

-- The identifiers of the rows were drawn and are distinct, and each row is active until it has its end.
abbrev pub IsWellFormed : Store → Type 0
IsWellFormed s =
    IsDistinct (ids s.sessions) × All (IsUsed s.used) s.sessions × All IsDated s.sessions

pub erased_sessions :
    (user_id : ℕ) (db : Rows)
    → (delete_account user_id db).sessions
      ≡ filter (λ s. not (InterviewSession.user_id s ==ℕ user_id)) db.sessions
unfolding delete_sessions delete_user_rows
erased_sessions user_id db = ap (λ r. Rows.sessions r) (delete_account-erased user_id db)

module _ (lib : Libraries) where
  Step-IsWellFormed : {s t : Store} → Step lib s t → IsWellFormed s → IsWellFormed t
  unfolding end_session delete_session start_negotiation
  Step-IsWellFormed (creates s id now user_id has_platform_key byok body fresh) h =
      create-IsTable s.used id now user_id has_platform_key byok body s.sessions fresh h
  Step-IsWellFormed (negotiates s fl fm id now user_id body fresh) h =
      append-IsTable s.used _ s.sessions fresh refl h
  Step-IsWellFormed (ends s now ending session_id user_id) h =
      ended-IsTable s.used now ending (get_owned_session session_id user_id s.sessions) s.sessions h
  Step-IsWellFormed (deletes s session_id user_id) h =
      deleted-IsTable s.used (get_owned_session session_id user_id s.sessions) s.sessions h
  Step-IsWellFormed (erases s user_id db e) h =
      subst (IsTable s.used) (sym (erased_sessions user_id db)) (
        filter-IsTable s.used (λ r. not (InterviewSession.user_id r ==ℕ user_id)) db.sessions
          (subst (IsTable s.used) (sym e) h))
  Step-IsWellFormed (scores s sv force session_id user_id db e) h =
      rewritten-IsTable s.used db.sessions _
        (score_session-IsRewritten sv force session_id user_id db)
        (subst (IsTable s.used) (sym e) h)
  Step-IsWellFormed (analyses s model session_id user_id) h =
      rewritten-IsTable s.used s.sessions _
        (get_negotiation_analysis-IsRewritten model session_id user_id s.sessions) h
  Step-IsWellFormed (delivers s sp words session_id user_id) h =
      rewritten-IsTable s.used s.sessions _
        (get_delivery_analysis-IsRewritten sp words session_id user_id s.sessions) h
  Step-IsWellFormed (connects s now token users session_id row e) h = h
  Step-IsWellFormed (records s transcript session_id l) h =
      transcript-IsTable s.used transcript session_id s.sessions h
  Step-IsWellFormed (finalizes s now transcript cost session_id l) h =
      finalize-IsTable s.used now transcript cost session_id s.sessions h

  -- Whatever the users request, from the creation of a session or a negotiation over its end, its results
  -- and its deletion to the deletion of an account, and however long the voice loops of their sessions
  -- run: from a well-formed store every reachable one is well formed, so the identifiers of the rows are
  -- distinct and were drawn, and a row has an end exactly if it is not active.
  pub Reach-IsWellFormed : {s t : Store} → Reach lib s t → IsWellFormed s → IsWellFormed t
  Reach-IsWellFormed here h = h
  Reach-IsWellFormed (next r st) h = Step-IsWellFormed st (Reach-IsWellFormed r h)
