-- ===== src/Memory/Consolidation/Pending.antt =====
-- A batch job whose result cannot be read stays pending.
use interviewcraft.Prelude.{
  String, ◌≡◌, refl, sym, ap, ◌∙◌, subst, inl, inr, true, Option, some, get_or, List, [], ◌∷◌,
  Bool-cases, nat_eq, string_eq,
}
use interviewcraft.Memory.Documents.{UserMemory, Tables}
use interviewcraft.Memory.Builder.{Json}
use interviewcraft.Memory.Consolidation.{
  unreadable, Batch, ended, Commit, is_pending, has_document, consolidate_row, consolidate_memory,
  apply_answer, apply_batch, apply_row, apply_consolidation_batch,
}

-- The calls on a candidate's row: a job is submitted, or its result applied.
pub data Call : Type 0 where
  consolidate : Option String → Call
  apply : Commit → Call

unfoldable pub calls : Json → (String → Batch) → List Call → Tables → Tables
calls js retrieve [] tables = tables
calls js retrieve (consolidate created ∷ rest) tables =
    calls js retrieve rest (consolidate_memory created tables).1
calls js retrieve (apply commit ∷ rest) tables =
    calls js retrieve rest (apply_consolidation_batch js retrieve commit tables).1

consolidate-pending :
    (created : Option String) (memory : UserMemory) (tables : Tables)
    → is_pending memory.batch_job_id ≡ true
    → (consolidate_row created (some memory) tables).1 ≡ tables
unfolding consolidate_row
consolidate-pending created memory tables p =
    elim (Bool-cases (has_document memory.memory_document)) [
      | inl y ↦ rw (y, p) refl
      | inr n ↦ rw n refl
    ]

apply-unreadable :
    (js : Json) (retrieve : String → Batch) (commit : Commit) (memory : UserMemory)
    (tables : Tables)
    → is_pending memory.batch_job_id ≡ true
    → retrieve (get_or memory.batch_job_id "") ≡ ended unreadable
    → (apply_row js retrieve commit (some memory) tables).1 ≡ tables
unfolding apply_row apply_batch apply_answer
apply-unreadable js retrieve commit memory tables p r = rw (p, r) refl

-- While the result of the pending job cannot be read, as when its text is not JSON, no call changes the
-- row: the job stays pending and no other is submitted, however often either is tried.
pub calls-unreadable :
    (js : Json) (retrieve : String → Batch) (cs : List Call) (memory : UserMemory) (tables : Tables)
    → tables.memory ≡ some memory
    → is_pending memory.batch_job_id ≡ true
    → retrieve (get_or memory.batch_job_id "") ≡ ended unreadable
    → calls js retrieve cs tables ≡ tables
unfolding calls consolidate_memory apply_consolidation_batch
calls-unreadable js retrieve [] memory tables t p r = refl
calls-unreadable js retrieve (consolidate created ∷ cs) memory tables t p r =
    let same : (consolidate_row created tables.memory tables).1 ≡ tables =
      subst (λ o. (consolidate_row created o tables).1 ≡ tables) (sym t)
        (consolidate-pending created memory tables p) in
    ap (λ x. calls js retrieve cs x) same ∙ calls-unreadable js retrieve cs memory tables t p r
calls-unreadable js retrieve (apply commit ∷ cs) memory tables t p r =
    let same : (apply_row js retrieve commit tables.memory tables).1 ≡ tables =
      subst (λ o. (apply_row js retrieve commit o tables).1 ≡ tables) (sym t)
        (apply-unreadable js retrieve commit memory tables p r) in
    ap (λ x. calls js retrieve cs x) same ∙ calls-unreadable js retrieve cs memory tables t p r
