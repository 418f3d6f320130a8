-- ===== src/Memory/Consolidation/Tests.antt =====
-- A job whose result is not JSON.
use interviewcraft.Prelude.{String, none, some, [], ◌∷◌, nat_eq, string_eq}
use interviewcraft.Memory.Documents.{empty_document, UserMemory, new_memory, Tables}
use interviewcraft.Memory.Builder.{Json}
use interviewcraft.Memory.Consolidation.{unreadable, ended, Batch}

abbrev js : Json
js = record { words = λ s. s ∷ []; dumps_length = λ doc. 400 }

abbrev waiting : UserMemory
waiting = record new_memory {
  memory_document = some empty_document;
  batch_job_id = some "msgbatch_1";
}

abbrev tables : Tables
tables = record { cache = none; memory = some waiting; stories = []; skills = [] }

abbrev not_json : String → Batch
not_json id = ended unreadable
