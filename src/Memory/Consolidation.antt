-- ===== src/Memory/Consolidation.antt =====
-- The batch jobs that consolidate a memory (backend/app/services/memory/builder.py): a job is submitted
-- by `consolidate_memory`, and its result applied by `apply_consolidation_batch`. What the batch
-- service answers is a parameter; its result is a document, one that is not an object is left out.
pub mod Pending
mod Tests
use interviewcraft.Prelude.{
  ℕ, ◌+◌, ◌/◌, String, Bool, true, false, not, Option, none, some, get_or, if◌then◌else◌, nat_eq,
  string_eq, is_empty,
}
use interviewcraft.Memory.Documents.{MemoryDocument, UserMemory, Tables}
use interviewcraft.Memory.Builder.{Json}

-- What is read of a job that has ended: an exception, as of a text that is not JSON; no result that
-- succeeded; or a document, `none` where it is `{}`.
pub data Answer : Type 0 where
  unreadable no_result : Answer
  consolidated : Option MemoryDocument → Answer

-- `batches.retrieve`: an exception, a job that has not ended, or one that has.
pub data Batch : Type 0 where
  retrieve_failed in_progress : Batch
  ended : Answer → Batch

-- The commit of the result and the deletion of the cache entry that follows it in the same `try`.
pub data Commit : Type 0 where
  commit_failed cache_failed saved : Commit

-- `if memory.batch_job_id`
unfoldable pub is_pending : Option String → Bool
is_pending none = false
is_pending (some id) = not (is_empty id)

unfoldable pub has_document : Option MemoryDocument → Bool
has_document none = false
has_document (some doc) = true

abbrev pub with_memory : UserMemory → Tables → Tables
with_memory memory tables = record tables { memory = some memory }

-- The job's id, or an exception.
unfoldable pub submitted : Option String → UserMemory → Tables → Bool × Tables
submitted none memory tables = (false, tables)
submitted (some id) memory tables =
    (true, with_memory (record memory { batch_job_id = some id }) tables)

unfoldable pub consolidate_row : Option String → Option UserMemory → Tables → Bool × Tables
consolidate_row created none tables = (false, tables)
consolidate_row created (some memory) tables =
    if not (has_document memory.memory_document)
    then (false, tables)
    else if is_pending memory.batch_job_id
    then (false, tables)
    else submitted created memory tables

unfoldable pub consolidate_memory : Option String → Tables → Bool × Tables
consolidate_memory created tables = consolidate_row created tables.memory tables

-- `len(json.dumps(doc))`, which is 2 for `{}`.
unfoldable pub document_length : Json → Option MemoryDocument → ℕ
document_length js none = 2
document_length js (some doc) = js.dumps_length doc

unfoldable pub write_consolidated : Json → Option MemoryDocument → UserMemory → UserMemory
write_consolidated js doc memory = record memory {
  memory_document = doc;
  version = memory.version + 1;
  token_count = document_length js doc / 4;
  sessions_since_consolidation = 0;
  batch_job_id = none;
}

unfoldable pub apply_answer : Json → Answer → Commit → UserMemory → Tables → Bool × Tables
apply_answer js unreadable commit memory tables = (false, tables)
apply_answer js no_result commit memory tables =
    (false, with_memory (record memory { batch_job_id = none }) tables)
apply_answer js (consolidated doc) commit_failed memory tables = (false, tables)
apply_answer js (consolidated doc) cache_failed memory tables =
    (false, with_memory (write_consolidated js doc memory) tables)
apply_answer js (consolidated doc) saved memory tables =
    (true, with_memory (write_consolidated js doc memory) (record tables { cache = none }))

unfoldable pub apply_batch : Json → Batch → Commit → UserMemory → Tables → Bool × Tables
apply_batch js retrieve_failed commit memory tables = (false, tables)
apply_batch js in_progress commit memory tables = (false, tables)
apply_batch js (ended answer) commit memory tables = apply_answer js answer commit memory tables

unfoldable pub apply_row :
    Json → (String → Batch) → Commit → Option UserMemory → Tables → Bool × Tables
apply_row js retrieve commit none tables = (false, tables)
apply_row js retrieve commit (some memory) tables =
    if is_pending memory.batch_job_id
    then apply_batch js (retrieve (get_or memory.batch_job_id "")) commit memory tables
    else (false, tables)

unfoldable pub apply_consolidation_batch : Json → (String → Batch) → Commit → Tables → Bool × Tables
apply_consolidation_batch js retrieve commit tables =
    apply_row js retrieve commit tables.memory tables
