-- ===== src/Memory/Builder/Sessions.antt =====
-- `build_memory` of backend/app/services/memory/builder.py: the attempts at an extraction, its merge and
-- the trigger of a consolidation. The model's answers and whether the writes succeed are parameters.
use interviewcraft.Prelude.{
  ℕ, zero, suc, ◌+◌, String, ◌≡◌, refl, sym, ◌∙◌, subst, inl, inr, Bool, true, false, not, ◌&&◌,
  Option, none, some, List, [], ◌∷◌, leb, if◌then◌else◌, Bool-cases, nat_eq, string_eq,
}
use interviewcraft.Memory.Documents.{MemoryDocument, UserMemory, Tables}
use interviewcraft.Memory.Builder.{Json, Extraction, merge_extraction, document_of, memory_of}
use interviewcraft.Memory.Builder.Average.{IsScored}
use interviewcraft.Memory.Builder.Limits.{IsBounded}
use interviewcraft.Memory.Builder.Merge.{IsMergedTables, merge_extraction-IsMergedTables}
use interviewcraft.Memory.Consolidation.{
  consolidate_memory, consolidate_row, submitted, is_pending, has_document,
}

abbrev pub max_extraction_retries : ℕ
max_extraction_retries = 2

abbrev pub consolidation_threshold : ℕ
consolidation_threshold = 20

-- The loop of attempts, with as many passes left: an attempt is given by the number of those before it,
-- and gives no extraction where it raises an exception or the answer has no tool call.
unfoldable pub extract : ℕ → (ℕ → Option Extraction) → ℕ → Option Extraction
extract zero call retries = none
extract (suc left) call retries = elim (call retries) [
  | none ↦ extract left call (suc retries)
  | some extraction ↦ some extraction
]

-- Whether the commit of the merge, and the deletion of the cache entry, succeed.
pub record Writes : Type 0 where
  pub committed : Bool
  pub cache_deleted : Bool

unfoldable pub uncached : Bool → Tables → Tables
uncached true tables = record tables { cache = none }
uncached false tables = tables

-- A consolidation is triggered from the threshold on, where no job is pending.
unfoldable pub triggered : Option String → Option UserMemory → Tables → Tables
triggered created none tables = tables
triggered created (some memory) tables =
    if leb consolidation_threshold memory.sessions_since_consolidation
      && not (is_pending memory.batch_job_id)
    then (consolidate_memory created tables).1
    else tables

unfoldable pub built : Option String → Writes → Tables → Option Tables → Bool × Tables
built created writes tables none = (false, tables)
built created writes tables (some merged) =
    if writes.committed
    then (true, triggered created merged.memory (uncached writes.cache_deleted merged))
    else (false, tables)

unfoldable pub extracted :
    Json → Option String → Writes → List ℕ → Tables → Option Extraction → Bool × Tables
extracted js created writes scores tables none = (false, tables)
extracted js created writes scores tables (some ex) =
    built created writes tables (merge_extraction js ex scores tables)

-- `build_memory`, of a session with these scores of its segments.
unfoldable pub build_memory :
    Json → (ℕ → Option Extraction) → Option String → Writes → List ℕ → Tables → Bool × Tables
build_memory js call created writes [] tables = (false, tables)
build_memory js call created writes (s ∷ scores) tables =
    extracted js created writes (s ∷ scores) tables (extract (max_extraction_retries + 1) call 0)

-- A build that fails changes nothing; one that succeeds leaves the row merged, but for the job that it may
-- have submitted, with no cache entry where the deletion succeeded.
abbrev pub IsBuilt : Writes → Tables → Bool × Tables → Type 0
IsBuilt writes tables (false, after) = after ≡ tables
IsBuilt writes tables (true, after) =
    (memory : UserMemory) × (doc : MemoryDocument) × (after.memory ≡ some memory)
    × (memory.memory_document ≡ some doc)
    × IsBounded ((document_of (memory_of tables)).total_sessions + 1) doc
    × (memory.version ≡ (memory_of tables).version + 1)
    × (writes.cache_deleted ≡ true → after.cache ≡ none)

-- What submitting a job leaves of the row and of the cache.
abbrev pub IsKeptRow : UserMemory → Tables → Tables → Type 0
IsKeptRow before tables after =
    (memory : UserMemory) × (after.memory ≡ some memory)
    × (memory.memory_document ≡ before.memory_document)
    × (memory.version ≡ before.version)
    × (after.cache ≡ tables.cache)

submitted-IsKeptRow :
    (created : Option String) (memory : UserMemory) (tables : Tables)
    → tables.memory ≡ some memory
    → IsKeptRow memory tables (submitted created memory tables).1
unfolding submitted
submitted-IsKeptRow none memory tables t = (memory, t, refl, refl, refl)
submitted-IsKeptRow (some id) memory tables t =
    (record memory { batch_job_id = some id }, refl, refl, refl, refl)

consolidate_row-IsKeptRow :
    (created : Option String) (memory : UserMemory) (tables : Tables)
    → tables.memory ≡ some memory
    → IsKeptRow memory tables (consolidate_row created (some memory) tables).1
unfolding consolidate_row
consolidate_row-IsKeptRow created memory tables t =
    elim (Bool-cases (has_document memory.memory_document)) [
      | inr n ↦ rw n (memory, t, refl, refl, refl)
      | inl y ↦ elim (Bool-cases (is_pending memory.batch_job_id)) [
        | inl p ↦ rw (y, p) (memory, t, refl, refl, refl)
        | inr f ↦ rw (y, f) (submitted-IsKeptRow created memory tables t)
      ]
    ]

pub triggered-IsKeptRow :
    (created : Option String) (memory : UserMemory) (tables : Tables)
    → tables.memory ≡ some memory
    → IsKeptRow memory tables (triggered created (some memory) tables)
unfolding triggered consolidate_memory
triggered-IsKeptRow created memory tables t =
    elim (Bool-cases (
      leb consolidation_threshold memory.sessions_since_consolidation
      && not (is_pending memory.batch_job_id))) [
        | inr n ↦ rw n (memory, t, refl, refl, refl)
        | inl y ↦ rw y (
            subst (λ o. IsKeptRow memory tables (consolidate_row created o tables).1) (sym t)
              (consolidate_row-IsKeptRow created memory tables t))
      ]

uncached-cache :
    (deleted : Bool) (tables : Tables) → deleted ≡ true → (uncached deleted tables).cache ≡ none
unfolding uncached
uncached-cache true tables e = refl
uncached-cache false tables e = absurd cc

pub uncached-memory :
    (deleted : Bool) (tables : Tables) → (uncached deleted tables).memory ≡ tables.memory
unfolding uncached
uncached-memory true tables = refl
uncached-memory false tables = refl

built-IsBuilt :
    (created : Option String) (writes : Writes) (tables : Tables) (o : Option Tables)
    → IsMergedTables tables o
    → IsBuilt writes tables (built created writes tables o)
unfolding built
built-IsBuilt created writes tables none h = refl
built-IsBuilt created writes tables (some merged) (memory, e, (doc, d, bounded, v, since, job)) =
    let fresh = uncached writes.cache_deleted merged in
    let row = uncached-memory writes.cache_deleted merged ∙ e in
    let (m, after, same, version, cache) = triggered-IsKeptRow created memory fresh row in
    elim (Bool-cases writes.committed) [
      | inr n ↦ rw n refl
      | inl y ↦ rw y (
          subst (λ o. IsBuilt writes tables (true, triggered created o fresh)) (sym e)
            (
              m,
              doc,
              after,
              same ∙ d,
              bounded,
              version ∙ v,
              λ deleted. cache ∙ uncached-cache writes.cache_deleted merged deleted,
            ))
    ]

extracted-IsBuilt :
    (js : Json) (created : Option String) (writes : Writes) (scores : List ℕ) (tables : Tables)
    (answer : Option Extraction)
    → IsScored scores
    → (let doc = document_of (memory_of tables) in IsBounded doc.total_sessions doc)
    → IsBuilt writes tables (extracted js created writes scores tables answer)
unfolding extracted
extracted-IsBuilt js created writes scores tables none scored h = refl
extracted-IsBuilt js created writes scores tables (some ex) scored h =
    built-IsBuilt created writes tables (merge_extraction js ex scores tables)
      (merge_extraction-IsMergedTables js ex scores tables scored h)

-- For scores of at most 100 and a document within its limits (six distinct mistakes, three distinct
-- notes, four stories, three insights, four skills on either side, an average of at most 100), a
-- build that fails leaves the tables as they were, and one that succeeds leaves a document within
-- the limits with one more session, the row's next version, and no cache entry where it could be
-- deleted.
pub build_memory-IsBuilt :
    (js : Json) (call : ℕ → Option Extraction) (created : Option String) (writes : Writes)
    (scores : List ℕ) (tables : Tables)
    → IsScored scores
    → (let doc = document_of (memory_of tables) in IsBounded doc.total_sessions doc)
    → IsBuilt writes tables (build_memory js call created writes scores tables)
unfolding build_memory
build_memory-IsBuilt js call created writes [] tables scored h = refl
build_memory-IsBuilt js call created writes (s ∷ scores) tables scored h =
    extracted-IsBuilt js created writes (s ∷ scores) tables
      (extract (max_extraction_retries + 1) call 0) scored h
