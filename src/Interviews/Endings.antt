-- ===== src/Interviews/Endings.antt =====
-- The end of a session is final: what the requests and the voice loops leave of a session that is over.
use interviewcraft.Prelude.{
  ℕ, String, ◌≡◌, refl, subst, ◌≢◌, inl, inr, Bool, true, false, not, ◌&&◌, ◌||◌, Option, none,
  some, List, [], ◌∷◌, ◌++◌, arith, ◌==ℕ◌, Bool-cases, length, filter, find?, ℤ, nat_eq, string_eq,
  contains, Dict,
}
use interviewcraft.Auth.Tokens.{Libraries}
use interviewcraft.Delivery.{Turn}
use interviewcraft.Interviews.{
  save_transcript, voice_session, User, if_active, authenticate_ws, get_owned_session,
  InterviewSession, SessionCreate, Ending, is_active_status, of_user, save, remove, create_session,
  end_session, delete_session, finalize_session, ended, deleted, get_owned_session, new_session,
  status_of, routed_type, is_refused, if_active, authenticate_ws,
}
use interviewcraft.Interviews.Lifecycle.{
  Store, Step, creates, ends, deletes, connects, finalizes, Reach, here, next, negotiates, erases,
  scores, analyses, delivers, records, erased_sessions,
}
use interviewcraft.Interviews.Rows.{not_active}
use interviewcraft.Interviews.Rewritten.{
  IsRewritten, score_session-IsRewritten, get_negotiation_analysis-IsRewritten,
  get_delivery_analysis-IsRewritten,
}
use interviewcraft.Negotiation.{start_negotiation}

-- A row of the table has the identifier and is active.
unfoldable pub is_open : ℕ → List InterviewSession → Bool
is_open session_id [] = false
is_open session_id (s ∷ table) =
    (s.id ==ℕ session_id && is_active_status s.status) || is_open session_id table

save-is_open :
    (k : ℕ) (s : InterviewSession) (table : List InterviewSession)
    → (s.id ==ℕ k && is_active_status s.status) ≡ false
    → is_open k table ≡ false
    → is_open k (save s table) ≡ false
unfolding is_open save
save-is_open k s [] e h = h
save-is_open k s (r ∷ table) e h = ground (arith, save-is_open k s table)

-- A row of such a table, and the table after a request that writes results into a row.
found-is_open :
    (k : ℕ) (p : InterviewSession → Bool) (table : List InterviewSession) (s : InterviewSession)
    → find? p table ≡ some s
    → is_open k table ≡ false
    → (s.id ==ℕ k && is_active_status s.status) ≡ false
unfolding is_open
found-is_open k p [] s f h = cc
found-is_open k p (r ∷ table) s f h = ground (arith, found-is_open k p table s)

rewritten-is_open :
    (k : ℕ) (table after : List InterviewSession)
    → IsRewritten table after
    → is_open k table ≡ false
    → is_open k after ≡ false
rewritten-is_open k table after (inl e) h = rw e h
rewritten-is_open k table after (inr (p, s, s', f, i, st, en, e)) h =
    rw e (save-is_open k s' table (rw (i, st) (found-is_open k p table s f h)) h)

filter-is_open :
    (k : ℕ) (p : InterviewSession → Bool) (table : List InterviewSession)
    → is_open k table ≡ false
    → is_open k (filter p table) ≡ false
unfolding is_open
filter-is_open k p [] h = h
filter-is_open k p (s ∷ table) h = ground (arith, filter-is_open k p table)

transcript-is_open :
    (k : ℕ) (transcript : List Turn) (session_id : ℕ) (table : List InterviewSession)
    → is_open k table ≡ false
    → is_open k (save_transcript transcript session_id table) ≡ false
unfolding is_open save_transcript
transcript-is_open k transcript session_id [] h = h
transcript-is_open k transcript session_id (s ∷ table) h =
    ground (arith, transcript-is_open k transcript session_id table)

finalize-is_open :
    (k now : ℕ) (transcript : List Turn) (cost : ℤ) (session_id : ℕ) (table : List InterviewSession)
    → is_open k table ≡ false
    → is_open k (finalize_session now transcript cost session_id table) ≡ false
unfolding is_open finalize_session
finalize-is_open k now transcript cost session_id [] h = h
finalize-is_open k now transcript cost session_id (s ∷ table) h =
    ground (arith, finalize-is_open k now transcript cost session_id table)

append-is_open :
    (k : ℕ) (s : InterviewSession) (table : List InterviewSession)
    → s.id ≢ k
    → is_open k table ≡ false
    → is_open k (table ++ (s ∷ [])) ≡ false
unfolding is_open
append-is_open k s [] ne h = ground arith
append-is_open k s (r ∷ table) ne h = ground (arith, append-is_open k s table)

create-is_open :
    (k id now user_id : ℕ) (has_platform_key : Bool) (byok : Dict String String)
    (body : SessionCreate) (table : List InterviewSession)
    → id ≢ k
    → is_open k table ≡ false
    → is_open k (create_session id now has_platform_key byok body user_id table).1 ≡ false
unfolding create_session
create-is_open k id now user_id has_platform_key byok body table ne h =
    let session_count = length (of_user user_id table) in
    let s = new_session id now user_id (routed_type session_count body.type) body in
    elim (Bool-cases (is_refused session_count has_platform_key byok)) [
      | inl y ↦ rw y h
      | inr n ↦ rw n (append-is_open k s table ne h)
    ]

ended-is_open :
    (k now : ℕ) (ending : Ending) (found : Option InterviewSession) (table : List InterviewSession)
    → is_open k table ≡ false
    → is_open k (ended now ending found table).1 ≡ false
unfolding ended
ended-is_open k now ending none table h = h
ended-is_open k now ending (some s) table h = elim (Bool-cases (is_active_status s.status)) [
  | inl y ↦ rw y (
      save-is_open k (record s { status = status_of ending; ended_at = some now }) table
        (ground (arith, not_active ending)) h)
  | inr n ↦ rw n h
]

deleted-is_open :
    (k : ℕ) (found : Option InterviewSession) (table : List InterviewSession)
    → is_open k table ≡ false
    → is_open k (deleted found table).1 ≡ false
unfolding deleted remove
deleted-is_open k none table h = h
deleted-is_open k (some s) table h = elim (Bool-cases (is_active_status s.status)) [
  | inl y ↦ rw y h
  | inr n ↦ rw n (filter-is_open k (λ r. not (r.id ==ℕ s.id)) table h)
]

-- The session's identifier was drawn, and no row of it is active.
abbrev pub IsOver : ℕ → Store → Type 0
IsOver k s = (contains k s.used ≡ true) × (is_open k s.sessions ≡ false)

module _ (lib : Libraries) where
  Step-IsOver : (k : ℕ) {s t : Store} → Step lib s t → IsOver k s → IsOver k t
  unfolding end_session delete_session start_negotiation
  Step-IsOver k (creates s id now user_id has_platform_key byok body fresh) (u, h) =
      let ne : id ≢ k = λ e. ground (arith, subst (λ i. contains i s.used ≡ false) e fresh, u) in
      (
        ground (arith, u),
        create-is_open k id now user_id has_platform_key byok body s.sessions ne h,
      )
  Step-IsOver k (negotiates s fl fm id now user_id body fresh) (u, h) =
      let ne : id ≢ k = λ e. ground (arith, subst (λ i. contains i s.used ≡ false) e fresh, u) in
      (ground (arith, u), append-is_open k _ s.sessions ne h)
  Step-IsOver k (ends s now ending session_id user_id) (u, h) =
      (u, ended-is_open k now ending (get_owned_session session_id user_id s.sessions) s.sessions h)
  Step-IsOver k (deletes s session_id user_id) (u, h) =
      (u, deleted-is_open k (get_owned_session session_id user_id s.sessions) s.sessions h)
  Step-IsOver k (erases s user_id db e) (u, h) = (
    u,
    rw (erased_sessions user_id db)
        (filter-is_open k (λ r. not (InterviewSession.user_id r ==ℕ user_id)) db.sessions (rw e h)),
  )
  Step-IsOver k (scores s sv force session_id user_id db e) (u, h) = (
    u,
    rewritten-is_open k db.sessions _ (score_session-IsRewritten sv force session_id user_id db)
        (rw e h),
  )
  Step-IsOver k (analyses s model session_id user_id) (u, h) = (
    u,
    rewritten-is_open k s.sessions _
        (get_negotiation_analysis-IsRewritten model session_id user_id s.sessions) h,
  )
  Step-IsOver k (delivers s sp words session_id user_id) (u, h) = (
    u,
    rewritten-is_open k s.sessions _
        (get_delivery_analysis-IsRewritten sp words session_id user_id s.sessions) h,
  )
  Step-IsOver k (records s transcript session_id l) (u, h) =
      (u, transcript-is_open k transcript session_id s.sessions h)
  Step-IsOver k (connects s now token users session_id row e) h = h
  Step-IsOver k (finalizes s now transcript cost session_id l) (u, h) =
      (u, finalize-is_open k now transcript cost session_id s.sessions h)

  Reach-IsOver : (k : ℕ) {s t : Store} → Reach lib s t → IsOver k s → IsOver k t
  Reach-IsOver k here h = h
  Reach-IsOver k (next r st) h = Step-IsOver k st (Reach-IsOver k r h)

-- What the owner finds of a session without an active row is over.
found_over :
    (k user_id : ℕ) (table : List InterviewSession) (s : InterviewSession)
    → get_owned_session k user_id table ≡ some s
    → is_open k table ≡ false
    → is_active_status s.status ≡ false
unfolding is_open get_owned_session
found_over k user_id [] s e h = cc
found_over k user_id (r ∷ table) s e h = ground (arith, found_over k user_id table s)

if_active_over :
    (found : Option InterviewSession)
    → ((s : InterviewSession) → found ≡ some s → is_active_status s.status ≡ false)
    → if_active found ≡ none
if_active_over none f = refl
if_active_over (some s) f = rw (f s refl) refl

ended_over :
    (now : ℕ) (ending : Ending) (found : Option InterviewSession) (table : List InterviewSession)
    → ((s : InterviewSession) → found ≡ some s → is_active_status s.status ≡ false)
    → (ended now ending found table).1 ≡ table
unfolding ended
ended_over now ending none table f = refl
ended_over now ending (some s) table f = rw (f s refl) refl

module _ (lib : Libraries) where
  voice_over :
      (k now : ℕ) (users : List User) (u : Option User) (table : List InterviewSession)
      → is_open k table ≡ false
      → elim u [ none ↦ none | some u ↦ if_active (get_owned_session k u.id table) ] ≡ none
  voice_over k now users none table h = refl
  voice_over k now users (some u) table h =
      if_active_over (get_owned_session k u.id table) (λ s e. found_over k u.id table s e h)

  -- A session that is over stays so whatever steps follow, of all those that write the table: at every
  -- reachable store no row of it is active, the voice endpoint refuses it to every token, and a request
  -- to end it again changes nothing.
  pub Reach-is_open :
      (k : ℕ) {s t : Store}
      → Reach lib s t
      → IsOver k s
      → (is_open k t.sessions ≡ false)
        × ((now : ℕ) (token : lib.Token) (users : List User)
            → voice_session lib now token k users t.sessions ≡ none)
        × ((now user_id : ℕ) (ending : Ending)
            → (end_session now ending k user_id t.sessions).1 ≡ t.sessions)
  unfolding voice_session end_session
  Reach-is_open k {s = s} {t = t} r h =
      let o = (Reach-IsOver lib k r h).1 in
      (
        o,
        λ now token users.
            voice_over k now users (authenticate_ws lib now token users) t.sessions o,
        λ now user_id ending.
            ended_over now ending (get_owned_session k user_id t.sessions) t.sessions
              (λ s e. found_over k user_id t.sessions s e o),
      )
