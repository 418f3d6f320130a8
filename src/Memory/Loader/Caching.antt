-- ===== src/Memory/Loader/Caching.antt =====
-- The cache of the memory's block: what is read again, and what a new session makes of it.
use interviewcraft.Prelude.{
  ◌+◌, String, ◌≡◌, refl, sym, ap, ◌∙◌, subst, ◌≢◌, inl, inr, Bool, true, false, Option, none, some,
  List, [], ◌∷◌, if◌then◌else◌, Bool-cases, take_last, ◌==◌, nat_eq, string_eq, ==_ne, join,
  Runtime,
}
use interviewcraft.Memory.Documents.{SkillSnapshot, MemoryDocument, Tables}
use interviewcraft.Memory.Builder.{append_new, Extraction, document_of, memory_of, Json}
use interviewcraft.Memory.Builder.Limits.{IsBounded}
use interviewcraft.Memory.Loader.{
  Load, cached_as, cache_miss, show_block, show_document, applied, load_row, load_cached,
  load_memory_context, format_lines, prepared, bootstrap_from_skills, none_sentinel, document_in,
}

-- The entry that stands for a result.
abbrev pub entry_of : Option String → String
entry_of none = none_sentinel
entry_of (some block) = block

abbrev IsCached : Option String × Tables → Type 0
IsCached (r, after) = after.cache ≡ some (entry_of r)

cached_as-cache :
    (up : Bool) (entry : String) (tables : Tables)
    → up ≡ true
    → (cached_as up entry tables).cache ≡ some entry
unfolding cached_as
cached_as-cache true entry tables e = refl
cached_as-cache false entry tables e = absurd cc

show_block-IsCached :
    (ld : Load) (lines : List String) (tables : Tables)
    → ld.redis_up ≡ true
    → IsCached (show_block ld lines tables)
unfolding show_block cache_miss
show_block-IsCached ld [] tables up = cached_as-cache ld.redis_up none_sentinel tables up
show_block-IsCached ld (line ∷ lines) tables up =
    cached_as-cache ld.redis_up (ld.cut (join "\n" (line ∷ lines))) tables up

show_document-IsCached :
    (rt : Runtime) (ld : Load) (doc : Option MemoryDocument) (tables : Tables)
    → ld.redis_up ≡ true
    → IsCached (show_document rt ld doc tables)
unfolding show_document cache_miss
show_document-IsCached rt ld none tables up = cached_as-cache ld.redis_up none_sentinel tables up
show_document-IsCached rt ld (some doc) tables up =
    show_block-IsCached ld (format_lines rt (prepared ld.stored tables.skills doc)) tables up

load_cached-IsCached :
    (rt : Runtime) (js : Json) (ld : Load) (c : Option String) (tables : Tables)
    → ld.redis_up ≡ true
    → tables.cache ≡ c
    → IsCached (load_cached rt js ld c tables)
unfolding load_cached load_row
load_cached-IsCached rt js ld none tables up e =
    let ready = applied js ld (document_in tables) tables in
    show_document-IsCached rt ld (document_in ready) ready up
load_cached-IsCached rt js ld (some entry) tables up e =
    elim (Bool-cases (entry == none_sentinel)) [
      | inl y ↦ rw y (e ∙ ap some ((string_eq.same_iff entry none_sentinel).0 y))
      | inr n ↦ rw n e
    ]

chosen : (up : Bool) (c : Option String) → up ≡ true → (if up then c else none) ≡ c
chosen true c e = refl
chosen false c e = absurd cc

load_entry :
    (rt : Runtime) (js : Json) (ld : Load) (r : Option String) (tables : Tables)
    → r ≢ some none_sentinel
    → load_cached rt js ld (some (entry_of r)) tables ≡ (r, tables)
unfolding load_cached
load_entry rt js ld none tables ne = refl
load_entry rt js ld (some block) tables ne =
    rw (==_ne block none_sentinel (λ e. ne (ap some e))) refl

-- While Redis answers and the entry stands, every load gives what the first one gave, block or
-- nothing, whatever the tables hold, and leaves them as they are; the block is not the text that
-- stands for nothing.
pub load_memory_context-again :
    (rt : Runtime) (js : Json) (ld later : Load) (tables after : Tables)
    → ld.redis_up ≡ true
    → later.redis_up ≡ true
    → after.cache ≡ (load_memory_context rt js ld tables).1.cache
    → (load_memory_context rt js ld tables).0 ≢ some none_sentinel
    → load_memory_context rt js later after ≡ ((load_memory_context rt js ld tables).0, after)
unfolding load_memory_context
load_memory_context-again rt js ld later tables after up up2 same ne =
    let pick = chosen ld.redis_up tables.cache up in
    let first : IsCached (load_memory_context rt js ld tables) =
      subst (λ c. IsCached (load_cached rt js ld c tables)) (sym pick)
        (load_cached-IsCached rt js ld tables.cache tables up refl) in
    let entry = chosen later.redis_up after.cache up2 ∙ (same ∙ first) in
    ap (λ c. load_cached rt js later c after) entry
    ∙ load_entry rt js later (load_memory_context rt js ld tables).0 after ne

-- Whether there is a weak skill or a mistake.
abbrev pub has_any : List SkillSnapshot → List String → Bool
has_any [] [] = false
has_any [] (m ∷ mistakes) = true
has_any (s ∷ skills) mistakes = true

-- Whether the document has something to show of its own.
abbrev pub is_told : MemoryDocument → Bool
is_told doc = has_any doc.weakest_skills doc.recurring_mistakes

-- What a session leaves and the next load shows: the row's document, with the extraction's mistakes
-- after the old ones, the last six, is within its limits and counts one more session; the block is of
-- this document, or of one filled from the skill graph if it has no weak skill and no mistake.
abbrev pub IsShown : Runtime → Json → Load → Extraction → Tables → Tables → Type 0
IsShown rt js ld ex before after =
    (doc : MemoryDocument) × (document_in after ≡ some doc)
    × (doc.recurring_mistakes
        ≡ take_last 6
            (append_new (document_of (memory_of before)).recurring_mistakes ex.recurring_mistakes))
    × IsBounded ((document_of (memory_of before)).total_sessions + 1) doc
    × (load_memory_context rt js ld after
        ≡ show_block ld
            (format_lines rt
              (if is_told doc then doc else bootstrap_from_skills ld.stored after.skills doc))
            after)
