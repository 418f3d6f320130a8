-- ===== src/Memory/Loader.antt =====
-- backend/app/services/memory/loader.py: the block of the system prompt that a candidate's memory
-- becomes, with its cache in Redis. The cut of a text to 12,000 characters, the number of completed
-- sessions, the stored profile and the batch service are parameters; an entry's expiry is left out, and
-- the entry for a missing memory is written before the load returns.
pub mod Format
pub mod Caching
mod Tests
use interviewcraft.Prelude.{
  ℕ, ◌/◌, String, Bool, true, false, ◌&&◌, Option, none, some, List, [], ◌∷◌, if◌then◌else◌, length,
  sum_by, pos_part, ◌==◌, nat_eq, string_eq, join, is_empty, Runtime,
}
use interviewcraft.Memory.Skills.{SkillTrend, improving, declining, stable, SkillGraphNode}
use interviewcraft.Memory.Documents.{
  BestStory, CoachingInsight, SkillSnapshot, MemoryDocument, UserMemory, Tables, snapshots,
}
use interviewcraft.Memory.Builder.{Json}
use interviewcraft.Memory.Consolidation.{Batch, Commit, is_pending, apply_consolidation_batch}
unfoldable pub use Format.{format_lines}

-- What of a profile a bootstrapped document takes: of the parsed resume and of the self-assessment.
pub record Profile : Type 0 where
  pub resume_role : Option String
  pub resume_level : Option String
  pub resume_goal : Option String
  pub assessed_role : Option String
  pub assessed_level : Option String

-- `a or b`
unfoldable pub or_text : Option String → Option String → Option String
or_text none b = b
or_text (some text) b = if is_empty text then b else some text

unfoldable pub is_missing : Option String → Bool
is_missing none = true
is_missing (some text) = is_empty text

unfoldable pub with_profile : Option Profile → MemoryDocument → MemoryDocument
unfolding is_missing or_text
with_profile none doc = doc
with_profile (some p) doc =
    if is_missing doc.target_role && is_missing doc.target_level
    then record doc {
      target_role = or_text p.resume_role p.assessed_role;
      target_level = or_text p.resume_level p.assessed_level;
      career_goal = if is_missing doc.career_goal then p.resume_goal else doc.career_goal;
    }
    else doc

-- What the tables of sessions and of users hold.
pub record Stored : Type 0 where
  pub completed : ℕ
  pub profile : Option Profile

-- `int(sum(…) / len(all_skills))`; a skill's score is not negative.
unfoldable pub skill_average : List SkillGraphNode → ℕ
skill_average [] = 0
skill_average (s ∷ skills) =
    sum_by (λ n. pos_part n.current_score) (s ∷ skills) / length (s ∷ skills)

unfoldable pub bootstrap_from_skills :
    Stored → List SkillGraphNode → MemoryDocument → MemoryDocument
unfolding with_profile skill_average snapshots
bootstrap_from_skills stored [] doc = doc
bootstrap_from_skills stored (s ∷ skills) doc =
    with_profile stored.profile (record (snapshots (s ∷ skills) doc) {
      total_sessions = stored.completed;
      avg_score = some (skill_average (s ∷ skills));
    })

unfoldable pub prepared : Stored → List SkillGraphNode → MemoryDocument → MemoryDocument
unfolding bootstrap_from_skills
prepared stored skills doc = elim doc.weakest_skills [
  | [] ↦ elim doc.recurring_mistakes [ [] ↦ bootstrap_from_skills stored skills doc | m ∷ ms ↦ doc ]
  | s ∷ ss ↦ doc
]

abbrev pub none_sentinel : String
none_sentinel = "__NONE__"

-- What a load is given besides the rows: the cut of a block, whether Redis answers and whether there is a
-- key for the batch service, with what that answers.
pub record Load : Type 0 where
  pub cut : String → String
  pub redis_up : Bool
  pub has_api_key : Bool
  pub retrieve : String → Batch
  pub commit : Commit
  pub stored : Stored

unfoldable pub cached_as : Bool → String → Tables → Tables
cached_as true entry tables = record tables { cache = some entry }
cached_as false entry tables = tables

unfoldable pub cache_miss : Load → Tables → Option String × Tables
unfolding cached_as
cache_miss ld tables = (none, cached_as ld.redis_up none_sentinel tables)

-- The block of these lines, cached.
unfoldable pub show_block : Load → List String → Tables → Option String × Tables
unfolding cache_miss cached_as join
show_block ld [] tables = cache_miss ld tables
show_block ld (line ∷ lines) tables =
    let block : String = ld.cut (join "\n" (line ∷ lines)) in
    (some block, cached_as ld.redis_up block tables)

unfoldable pub show_document :
    Runtime → Load → Option MemoryDocument → Tables → Option String × Tables
unfolding show_block prepared format_lines cache_miss
show_document rt ld none tables = cache_miss ld tables
show_document rt ld (some doc) tables =
    show_block ld (format_lines rt (prepared ld.stored tables.skills doc)) tables

abbrev pub document_in : Tables → Option MemoryDocument
document_in tables = elim tables.memory [ none ↦ none | some memory ↦ memory.memory_document ]

abbrev pub job_in : Tables → Option String
job_in tables = elim tables.memory [ none ↦ none | some memory ↦ memory.batch_job_id ]

-- A pending job's result is applied where the row has a document.
unfoldable pub applied : Json → Load → Option MemoryDocument → Tables → Tables
applied js ld none tables = tables
applied js ld (some doc) tables =
    if ld.has_api_key && is_pending (job_in tables)
    then (apply_consolidation_batch js ld.retrieve ld.commit tables).1
    else tables

unfoldable pub load_row : Runtime → Json → Load → Tables → Option String × Tables
unfolding applied show_document
load_row rt js ld tables =
    let ready : Tables = applied js ld (document_in tables) tables in
    show_document rt ld (document_in ready) ready

unfoldable pub load_cached : Runtime → Json → Load → Option String → Tables → Option String × Tables
unfolding load_row
load_cached rt js ld none tables = load_row rt js ld tables
load_cached rt js ld (some entry) tables =
    (if entry == none_sentinel then none else some entry, tables)

-- `load_memory_context`
unfoldable pub load_memory_context : Runtime → Json → Load → Tables → Option String × Tables
unfolding load_cached
load_memory_context rt js ld tables =
    load_cached rt js ld (if ld.redis_up then tables.cache else none) tables
