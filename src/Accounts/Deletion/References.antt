-- ===== src/Accounts/Deletion/References.antt =====
-- The foreign keys, before and after the deletion of an account.
use interviewcraft.Prelude.{
  ℕ, ◌≡◌, refl, sym, ap, ◌∙◌, inl, inr, Bool, true, false, not, Option, none, some, List, [], ◌∷◌,
  map, arith, ◌==ℕ◌, Bool-cases, filter, All, nat_eq, string_eq, contains,
}
use interviewcraft.Interviews.{InterviewSession, of_user}
use interviewcraft.Accounts.Deletion.{
  is_of, unlinked_story, unlinked_usage, delete_user_rows, delete_sessions, delete_sessions,
  delete_session_rows, delete_user_rows, not_of, delete_account, outside, SessionRow, UserRow,
  StoryRow, UsageRow, Rows, ids, set_null,
}

-- A reference that may be null.
abbrev pub Refers : List ℕ → Option ℕ → Type 0
Refers present none = Unit
Refers present (some id) = contains id present ≡ true

abbrev pub rows_of : ℕ → List UserRow → List UserRow
rows_of v rows = filter (λ r. r.user_id ==ℕ v) rows

-- Every foreign key refers to a row.
pub record IsReferential (db : Rows) : Type 0 where
  pub sessions : All (λ s. contains (InterviewSession.user_id s) db.users ≡ true) db.sessions
  pub transcript_words :
      All (λ r. contains (SessionRow.session_id r) (ids db.sessions) ≡ true) db.transcript_words
  pub segment_scores :
      All (λ r. contains (SessionRow.session_id r) (ids db.sessions) ≡ true) db.segment_scores
  pub session_metrics :
      All (λ r. contains (SessionRow.session_id r) (ids db.sessions) ≡ true) db.session_metrics
  pub skill_graph : All (λ r. contains (UserRow.user_id r) db.users ≡ true) db.skill_graph
  pub stories :
      All
        (λ s.
          (contains (StoryRow.user_id s) db.users ≡ true)
          × Refers (ids db.sessions) (StoryRow.source_session_id s))
        db.stories
  pub usage_logs :
      All
        (λ u.
          Refers db.users (UsageRow.user_id u) × Refers (ids db.sessions) (UsageRow.session_id u))
        db.usage_logs
  pub cascading : All (λ r. contains (UserRow.user_id r) db.users ≡ true) db.cascading

module _ {A : Type 0} where
  -- What holds of the kept rows, and what the test says of them.
  All-filter_to :
      (P Q : A → Type 0) (p : A → Bool) (xs : List A)
      → ((x : A) → P x → p x ≡ true → Q x)
      → All P xs
      → All Q (filter p xs)
  All-filter_to P Q p [] f h = h
  All-filter_to P Q p (x ∷ xs) f h = elim (Bool-cases (p x)) [
    | inl y ↦ rw y (f x h.0 y, All-filter_to P Q p xs f h.1)
    | inr n ↦ rw n (All-filter_to P Q p xs f h.1)
  ]

  All-map_to :
      (P Q : A → Type 0) (g : A → A) (xs : List A)
      → ((x : A) → P x → Q (g x))
      → All P xs
      → All Q (map g xs)
  All-map_to P Q g [] f h = h
  All-map_to P Q g (x ∷ xs) f h = (f x h.0, All-map_to P Q g xs f h.1)

-- A user or a session that stays is still there.
users_kept :
    (uid u : ℕ) (users : List ℕ)
    → contains u users ≡ true
    → not (u ==ℕ uid) ≡ true
    → contains u (filter (λ x. not (x ==ℕ uid)) users) ≡ true
users_kept uid u [] h k = h
users_kept uid u (x ∷ users) h k = ground (arith, users_kept uid u users)

sessions_kept :
    (uid k : ℕ) (table : List InterviewSession)
    → contains k (ids table) ≡ true
    → contains k (ids (of_user uid table)) ≡ false
    → contains k (ids (filter (λ s. not (InterviewSession.user_id s ==ℕ uid)) table)) ≡ true
sessions_kept uid k [] h g = h
sessions_kept uid k (s ∷ table) h g = ground (arith, sessions_kept uid k table)

kept-Refers :
    (uid : ℕ) (o : Option ℕ) (users : List ℕ)
    → Refers users o
    → not (is_of uid o) ≡ true
    → Refers (filter (λ u. not (u ==ℕ uid)) users) o
kept-Refers uid none users h k = h
kept-Refers uid (some u) users h k = users_kept uid u users h k

set_null-Refers :
    (uid : ℕ) (o : Option ℕ) (table : List InterviewSession)
    → Refers (ids table) o
    → Refers
        (ids (filter (λ s. not (InterviewSession.user_id s ==ℕ uid)) table))
        (set_null (ids (of_user uid table)) o)
unfolding set_null
set_null-Refers uid none table h = h
set_null-Refers uid (some k) table h = elim (Bool-cases (contains k (ids (of_user uid table)))) [
  | inl y ↦ rw y tt
  | inr n ↦ rw n (sessions_kept uid k table h n)
]

outside-none : (rows : List SessionRow) → outside [] rows ≡ rows
outside-none [] = refl
outside-none (r ∷ rows) = ap (λ l. r ∷ l) (outside-none rows)

-- The guard on an empty list of sessions makes no difference.
delete_session_rows_lem :
    (session_ids : List ℕ) (db : Rows)
    → delete_session_rows session_ids db ≡ record db {
      transcript_words = outside session_ids db.transcript_words;
      segment_scores = outside session_ids db.segment_scores;
      session_metrics = outside session_ids db.session_metrics;
    }
unfolding delete_session_rows
delete_session_rows_lem [] db = sym (
    ap
      (λ l. record db {
        transcript_words = l;
        segment_scores = outside [] db.segment_scores;
        session_metrics = outside [] db.session_metrics;
      })
      (outside-none db.transcript_words)
    ∙ (ap (λ l. record db { segment_scores = l; session_metrics = outside [] db.session_metrics })
          (outside-none db.segment_scores)
        ∙ ap (λ l. record db { session_metrics = l }) (outside-none db.session_metrics)))
delete_session_rows_lem (s ∷ session_ids) db = refl

-- The tables after the deletion, in one step.
abbrev pub erased : ℕ → Rows → Rows
erased uid db =
    let gone = ids (of_user uid db.sessions) in
    delete_user_rows uid (
      delete_sessions uid gone (record db {
        transcript_words = outside gone db.transcript_words;
        segment_scores = outside gone db.segment_scores;
        session_metrics = outside gone db.session_metrics;
      }))

pub delete_account-erased : (uid : ℕ) (db : Rows) → delete_account uid db ≡ erased uid db
unfolding delete_account
delete_account-erased uid db =
    let gone = ids (of_user uid db.sessions) in
    ap (λ r. delete_user_rows uid (delete_sessions uid gone r)) (delete_session_rows_lem gone db)

child-kept :
    (uid : ℕ) (rows : List SessionRow) (table : List InterviewSession)
    → All (λ r. contains (SessionRow.session_id r) (ids table) ≡ true) rows
    → All
        (λ r.
          contains
            (SessionRow.session_id r)
            (ids (filter (λ s. not (InterviewSession.user_id s ==ℕ uid)) table))
          ≡ true)
        (outside (ids (of_user uid table)) rows)
child-kept uid rows table h =
    All-filter_to (λ r. contains (SessionRow.session_id r) (ids table) ≡ true)
      (λ r.
        contains (SessionRow.session_id r)
          (ids (filter (λ s. not (InterviewSession.user_id s ==ℕ uid)) table))
        ≡ true)
      (λ r. not (contains (SessionRow.session_id r) (ids (of_user uid table)))) rows
      (λ r p k. sessions_kept uid (SessionRow.session_id r) table p (ground (arith, k))) h

user_row-kept :
    (uid : ℕ) (rows : List UserRow) (users : List ℕ)
    → All (λ r. contains (UserRow.user_id r) users ≡ true) rows
    → All
        (λ r. contains (UserRow.user_id r) (filter (λ u. not (u ==ℕ uid)) users) ≡ true)
        (not_of uid rows)
user_row-kept uid rows users h =
    All-filter_to (λ r. contains (UserRow.user_id r) users ≡ true)
      (λ r. contains (UserRow.user_id r) (filter (λ u. not (u ==ℕ uid)) users) ≡ true)
      (λ r. not (UserRow.user_id r ==ℕ uid)) rows
      (λ r p k. users_kept uid (UserRow.user_id r) users p k) h

pub erased-IsReferential : (uid : ℕ) (db : Rows) → IsReferential db → IsReferential (erased uid db)
unfolding delete_user_rows delete_sessions
erased-IsReferential uid db h =
    let gone = ids (of_user uid db.sessions) in
    let users = filter (λ u. not (u ==ℕ uid)) db.users in
    let sessions = filter (λ s. not (InterviewSession.user_id s ==ℕ uid)) db.sessions in
    record {
      sessions =
          All-filter_to (λ s. contains (InterviewSession.user_id s) db.users ≡ true)
            (λ s. contains (InterviewSession.user_id s) users ≡ true)
            (λ s. not (InterviewSession.user_id s ==ℕ uid)) db.sessions
            (λ s p k. users_kept uid (InterviewSession.user_id s) db.users p k) h.sessions;
      transcript_words = child-kept uid db.transcript_words db.sessions h.transcript_words;
      segment_scores = child-kept uid db.segment_scores db.sessions h.segment_scores;
      session_metrics = child-kept uid db.session_metrics db.sessions h.session_metrics;
      skill_graph = user_row-kept uid db.skill_graph db.users h.skill_graph;
      stories =
          All-filter_to
            (λ s.
              (contains (StoryRow.user_id s) db.users ≡ true)
              × Refers (ids sessions) (StoryRow.source_session_id s))
            (λ s.
              (contains (StoryRow.user_id s) users ≡ true)
              × Refers (ids sessions) (StoryRow.source_session_id s))
            (λ s. not (StoryRow.user_id s ==ℕ uid)) (map (λ s. unlinked_story gone s) db.stories)
            (λ s p k. (users_kept uid (StoryRow.user_id s) db.users p.0 k, p.1))
            (All-map_to
              (λ s.
                (contains (StoryRow.user_id s) db.users ≡ true)
                × Refers (ids db.sessions) (StoryRow.source_session_id s))
              (λ s.
                (contains (StoryRow.user_id s) db.users ≡ true)
                × Refers (ids sessions) (StoryRow.source_session_id s))
              (λ s. unlinked_story gone s) db.stories
              (λ s p. (p.0, set_null-Refers uid (StoryRow.source_session_id s) db.sessions p.1))
              h.stories);
      usage_logs =
          All-filter_to
            (λ u.
              Refers db.users (UsageRow.user_id u) × Refers (ids sessions) (UsageRow.session_id u))
            (λ u. Refers users (UsageRow.user_id u) × Refers (ids sessions) (UsageRow.session_id u))
            (λ u. not (is_of uid (UsageRow.user_id u)))
            (map (λ u. unlinked_usage gone u) db.usage_logs)
            (λ u p k. (kept-Refers uid (UsageRow.user_id u) db.users p.0 k, p.1))
            (All-map_to
              (λ u.
                Refers db.users (UsageRow.user_id u)
                × Refers (ids db.sessions) (UsageRow.session_id u))
              (λ u.
                Refers db.users (UsageRow.user_id u)
                × Refers (ids sessions) (UsageRow.session_id u))
              (λ u. unlinked_usage gone u) db.usage_logs
              (λ u p. (p.0, set_null-Refers uid (UsageRow.session_id u) db.sessions p.1))
              h.usage_logs);
      cascading = user_row-kept uid db.cascading db.users h.cascading;
    }
