-- ===== src/Accounts/Deletion.antt =====
-- `delete_account` of backend/app/api/v1/settings.py: the rows that it deletes, in its order, with what the
-- foreign keys of backend/app/models do at each deletion. The questions that the user contributed, which only
-- lose their contributor, are left out.
pub mod References
pub mod Erasure
use interviewcraft.Prelude.{
  ℕ, Bool, false, not, Option, none, some, List, [], ◌∷◌, map, ◌==ℕ◌, if◌then◌else◌, filter, ◌==◌,
  nat_eq, string_eq, contains,
}
use interviewcraft.Interviews.{InterviewSession, of_user}

-- A row that belongs to a session: of transcript_words, segment_scores and session_metrics.
pub record SessionRow : Type 0 where
  pub id : ℕ
  pub session_id : ℕ

-- A row that belongs to a user: of skill_graph, and of the tables that cascade from the users,
-- user_memories, share_cards, company_intel and question_upvotes.
pub record UserRow : Type 0 where
  pub id : ℕ
  pub user_id : ℕ

pub record StoryRow : Type 0 where
  pub id : ℕ
  pub user_id : ℕ
  pub source_session_id : Option ℕ

pub record UsageRow : Type 0 where
  pub id : ℕ
  pub user_id : Option ℕ
  pub session_id : Option ℕ

-- The tables, and the users whose memory block is cached in Redis.
pub record Rows : Type 0 where
  pub users : List ℕ
  pub sessions : List InterviewSession
  pub transcript_words : List SessionRow
  pub segment_scores : List SessionRow
  pub session_metrics : List SessionRow
  pub skill_graph : List UserRow
  pub stories : List StoryRow
  pub usage_logs : List UsageRow
  pub cascading : List UserRow
  pub cached_memories : List ℕ

abbrev pub ids : List InterviewSession → List ℕ
ids table = map (λ s. InterviewSession.id s) table

-- `delete(…).where(….session_id.in_(session_ids))`
abbrev pub outside : List ℕ → List SessionRow → List SessionRow
outside session_ids rows = filter (λ r. not (contains r.session_id session_ids)) rows

abbrev pub not_of : ℕ → List UserRow → List UserRow
not_of uid rows = filter (λ r. not (r.user_id ==ℕ uid)) rows

-- `ondelete="SET NULL"`
unfoldable pub set_null : List ℕ → Option ℕ → Option ℕ
set_null gone none = none
set_null gone (some id) = if contains id gone then none else some id

abbrev pub is_of : ℕ → Option ℕ → Bool
is_of uid none = false
is_of uid (some id) = id ==ℕ uid

-- The rows of the sessions, before the sessions themselves.
unfoldable pub delete_session_rows : List ℕ → Rows → Rows
delete_session_rows [] db = db
delete_session_rows (s ∷ session_ids) db = record db {
  transcript_words = outside (s ∷ session_ids) db.transcript_words;
  segment_scores = outside (s ∷ session_ids) db.segment_scores;
  session_metrics = outside (s ∷ session_ids) db.session_metrics;
}

abbrev pub unlinked_story : List ℕ → StoryRow → StoryRow
unlinked_story gone s = record s { source_session_id = set_null gone s.source_session_id }

abbrev pub unlinked_usage : List ℕ → UsageRow → UsageRow
unlinked_usage gone u = record u { session_id = set_null gone u.session_id }

-- The sessions of a user; stories and usage logs lose their reference to them.
unfoldable pub delete_sessions : ℕ → List ℕ → Rows → Rows
unfolding set_null
delete_sessions uid session_ids db = record db {
  sessions = filter (λ s. not (InterviewSession.user_id s ==ℕ uid)) db.sessions;
  stories = map (λ s. unlinked_story session_ids s) db.stories;
  usage_logs = map (λ u. unlinked_usage session_ids u) db.usage_logs;
}

-- The rows of a user, and the user with what cascades.
unfoldable pub delete_user_rows : ℕ → Rows → Rows
delete_user_rows uid db = record db {
  skill_graph = not_of uid db.skill_graph;
  stories = filter (λ s. not (StoryRow.user_id s ==ℕ uid)) db.stories;
  usage_logs = filter (λ u. not (is_of uid (UsageRow.user_id u))) db.usage_logs;
  cascading = not_of uid db.cascading;
  users = filter (λ u. not (u ==ℕ uid)) db.users;
}

unfoldable pub delete_account : ℕ → Rows → Rows
unfolding delete_session_rows delete_sessions delete_user_rows
delete_account uid db =
    let session_ids = ids (of_user uid db.sessions) in
    delete_user_rows uid (delete_sessions uid session_ids (delete_session_rows session_ids db))
