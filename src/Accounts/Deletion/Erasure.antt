-- ===== src/Accounts/Deletion/Erasure.antt =====
-- What the deletion of an account leaves.
use interviewcraft.Prelude.{
  ℕ, ◌≡◌, refl, sym, ap, subst, ◌≢◌, inl, inr, false, not, List, [], ◌∷◌, map, arith, ◌==ℕ◌,
  ==ℕ_iff, Bool-cases, filter, All, nat_eq, string_eq, contains,
}
use interviewcraft.Interviews.{InterviewSession, of_user}
use interviewcraft.Accounts.Deletion.{
  SessionRow, outside, UserRow, StoryRow, UsageRow, Rows, ids, not_of, is_of, unlinked_story,
  unlinked_usage, delete_sessions, delete_user_rows, delete_account,
}
use interviewcraft.Accounts.Deletion.References.{
  IsReferential, erased, delete_account-erased, erased-IsReferential, rows_of,
}

-- The rows of a session, and those of a user.
abbrev pub rows_in : ℕ → List SessionRow → List SessionRow
rows_in k rows = filter (λ r. r.session_id ==ℕ k) rows

abbrev pub stories_of : ℕ → List StoryRow → List StoryRow
stories_of v stories = filter (λ s. s.user_id ==ℕ v) stories

abbrev pub usage_of : ℕ → List UsageRow → List UsageRow
usage_of v logs = filter (λ u. is_of v u.user_id) logs

-- No row is the user's; the rows of another user `v` and of a session `k` are as they were, but that
-- stories and usage logs of `v` have lost their references to the user's sessions; the cache is as it
-- was.
pub record IsErased (uid v k : ℕ) (db after : Rows) : Type 0 where
  pub users : contains uid after.users ≡ false
  pub sessions : of_user uid after.sessions ≡ []
  pub skill_graph : rows_of uid after.skill_graph ≡ []
  pub cascading : rows_of uid after.cascading ≡ []
  pub stories : All (λ s. (StoryRow.user_id s ==ℕ uid) ≡ false) after.stories
  pub usage_logs : All (λ u. is_of uid (UsageRow.user_id u) ≡ false) after.usage_logs
  pub other_sessions : of_user v after.sessions ≡ of_user v db.sessions
  pub other_skills : rows_of v after.skill_graph ≡ rows_of v db.skill_graph
  pub other_cascading : rows_of v after.cascading ≡ rows_of v db.cascading
  pub other_stories :
      stories_of v after.stories
      ≡ map (unlinked_story (ids (of_user uid db.sessions))) (stories_of v db.stories)
  pub other_usage :
      usage_of v after.usage_logs
      ≡ map (unlinked_usage (ids (of_user uid db.sessions))) (usage_of v db.usage_logs)
  pub session_words : rows_in k after.transcript_words ≡ rows_in k db.transcript_words
  pub session_scores : rows_in k after.segment_scores ≡ rows_in k db.segment_scores
  pub session_measures : rows_in k after.session_metrics ≡ rows_in k db.session_metrics
  pub cached_memories : after.cached_memories ≡ db.cached_memories

no_user : (uid : ℕ) (users : List ℕ) → contains uid (filter (λ u. not (u ==ℕ uid)) users) ≡ false
no_user uid [] = refl
no_user uid (u ∷ users) = ground (arith, no_user uid users)

no_sessions :
    (uid : ℕ) (table : List InterviewSession)
    → of_user uid (filter (λ s. not (InterviewSession.user_id s ==ℕ uid)) table) ≡ []
no_sessions uid [] = refl
no_sessions uid (s ∷ table) = ground (arith, no_sessions uid table)

sessions_of_other :
    (uid v : ℕ) (table : List InterviewSession)
    → v ≢ uid
    → of_user v (filter (λ s. not (InterviewSession.user_id s ==ℕ uid)) table) ≡ of_user v table
sessions_of_other uid v [] ne = refl
sessions_of_other uid v (s ∷ table) ne = ground (arith, sessions_of_other uid v table ne)

no_rows : (uid : ℕ) (rows : List UserRow) → rows_of uid (not_of uid rows) ≡ []
no_rows uid [] = refl
no_rows uid (r ∷ rows) = ground (arith, no_rows uid rows)

rows_of_other :
    (uid v : ℕ) (rows : List UserRow) → v ≢ uid → rows_of v (not_of uid rows) ≡ rows_of v rows
rows_of_other uid v [] ne = refl
rows_of_other uid v (r ∷ rows) ne = ground (arith, rows_of_other uid v rows ne)

no_stories :
    (uid : ℕ) (stories : List StoryRow)
    → All
        (λ s. (StoryRow.user_id s ==ℕ uid) ≡ false)
        (filter (λ s. not (StoryRow.user_id s ==ℕ uid)) stories)
no_stories uid [] = tt
no_stories uid (s ∷ stories) = elim (Bool-cases (StoryRow.user_id s ==ℕ uid)) [
  | inl y ↦ rw y (no_stories uid stories)
  | inr n ↦ rw n (n, no_stories uid stories)
]

no_usage :
    (uid : ℕ) (logs : List UsageRow)
    → All
        (λ u. is_of uid (UsageRow.user_id u) ≡ false)
        (filter (λ u. not (is_of uid (UsageRow.user_id u))) logs)
no_usage uid [] = tt
no_usage uid (u ∷ logs) = elim (Bool-cases (is_of uid (UsageRow.user_id u))) [
  | inl y ↦ rw y (no_usage uid logs)
  | inr n ↦ rw n (n, no_usage uid logs)
]

stories_of_other :
    (uid v : ℕ) (gone : List ℕ) (stories : List StoryRow)
    → v ≢ uid
    → stories_of v
        (filter (λ s. not (StoryRow.user_id s ==ℕ uid)) (map (λ s. unlinked_story gone s) stories))
      ≡ map (unlinked_story gone) (stories_of v stories)
stories_of_other uid v gone [] ne = refl
stories_of_other uid v gone (s ∷ stories) ne =
    ground (arith, stories_of_other uid v gone stories ne)

usage_of_other :
    (uid v : ℕ) (gone : List ℕ) (logs : List UsageRow)
    → v ≢ uid
    → usage_of v
        (filter (λ u. not (is_of uid (UsageRow.user_id u))) (map (λ u. unlinked_usage gone u) logs))
      ≡ map (unlinked_usage gone) (usage_of v logs)
usage_of_other uid v gone [] ne = refl
usage_of_other uid v gone (u ∷ logs) ne = ground (arith, usage_of_other uid v gone logs ne)

rows_in_other :
    (k : ℕ) (session_ids : List ℕ) (rows : List SessionRow)
    → contains k session_ids ≡ false
    → rows_in k (outside session_ids rows) ≡ rows_in k rows
rows_in_other k session_ids [] h = refl
rows_in_other k session_ids (r ∷ rows) h = elim (Bool-cases (r.session_id ==ℕ k)) [
  | inl y ↦
      let same : r.session_id ≡ k = (==ℕ_iff r.session_id k).0 y in
      let out : contains r.session_id session_ids ≡ false = rw same h in
      rw (out, y) (ap (λ l. r ∷ l) (rows_in_other k session_ids rows h))
  | inr n ↦ elim (Bool-cases (contains r.session_id session_ids)) [
    | inl c ↦ rw (c, n) (rows_in_other k session_ids rows h)
    | inr o ↦ rw (o, n) (rows_in_other k session_ids rows h)
  ]
]

erased-IsErased :
    (uid v k : ℕ) (db : Rows)
    → v ≢ uid
    → contains k (ids (of_user uid db.sessions)) ≡ false
    → IsErased uid v k db (erased uid db)
unfolding delete_user_rows delete_sessions
erased-IsErased uid v k db ne other = record {
  users = no_user uid db.users;
  sessions = no_sessions uid db.sessions;
  skill_graph = no_rows uid db.skill_graph;
  cascading = no_rows uid db.cascading;
  stories = no_stories uid (map (λ s. unlinked_story (ids (of_user uid db.sessions)) s) db.stories);
  usage_logs =
      no_usage uid (map (λ u. unlinked_usage (ids (of_user uid db.sessions)) u) db.usage_logs);
  other_sessions = sessions_of_other uid v db.sessions ne;
  other_skills = rows_of_other uid v db.skill_graph ne;
  other_cascading = rows_of_other uid v db.cascading ne;
  other_stories = stories_of_other uid v (ids (of_user uid db.sessions)) db.stories ne;
  other_usage = usage_of_other uid v (ids (of_user uid db.sessions)) db.usage_logs ne;
  session_words = rows_in_other k (ids (of_user uid db.sessions)) db.transcript_words other;
  session_scores = rows_in_other k (ids (of_user uid db.sessions)) db.segment_scores other;
  session_measures = rows_in_other k (ids (of_user uid db.sessions)) db.session_metrics other;
  cached_memories = refl;
}

-- From tables whose foreign keys all refer to a row, the deletion of an account leaves such tables, with no
-- row of the user. Of any other user the sessions, the skills, the stories, the usage logs and the other
-- own rows are as they were, but that a story or a log loses a reference to a session that is deleted;
-- the words, scores and metrics of any session that is not the user's are as they were. The cached memory
-- of the user is not deleted.
pub delete_account-IsErased :
    (uid v k : ℕ) (db : Rows)
    → v ≢ uid
    → contains k (ids (of_user uid db.sessions)) ≡ false
    → IsReferential db
    → IsReferential (delete_account uid db) × IsErased uid v k db (delete_account uid db)
delete_account-IsErased uid v k db ne other h =
    subst (λ after. IsReferential after × IsErased uid v k db after)
      (sym (delete_account-erased uid db))
      (erased-IsReferential uid db h, erased-IsErased uid v k db ne other)
