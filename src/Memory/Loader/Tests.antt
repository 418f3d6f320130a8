-- ===== src/Memory/Loader/Tests.antt =====
-- Loads of a candidate's memory before and after a session.
use interviewcraft.Prelude.{◌≡◌, refl, true, false, none, some, [], ◌∷◌, nat_eq, string_eq, Runtime}
use interviewcraft.Memory.Documents.{empty_document, new_memory, Tables}
use interviewcraft.Memory.Builder.{Json, Extraction}
use interviewcraft.Memory.Builder.Sessions.{Writes}
use interviewcraft.Memory.Consolidation.{in_progress, saved}
use interviewcraft.Memory.Loader.{
  Load, load_memory_context, load_row, load_cached, show_document, cache_miss, cached_as, applied,
}
use interviewcraft.Memory.Loader.Caching.{load_memory_context-again}

abbrev rt : Runtime
rt = record { str_int = λ n. "1"; isoformat_date = λ n. ""; set_order = λ xs. xs }

abbrev js : Json
js = record { words = λ s. s ∷ []; dumps_length = λ doc. 400 }

abbrev ld : Load
ld = record {
  cut = λ s. s;
  redis_up = true;
  has_api_key = false;
  retrieve = λ id. in_progress;
  commit = saved;
  stored = record { completed = 0; profile = none };
}

abbrev newcomer : Tables
newcomer = record { cache = none; memory = none; stories = []; skills = [] }

-- A first load finds nothing; a row that is written by then is not read.
abbrev written : Tables
written = record {
  cache = some "__NONE__";
  memory = some (record new_memory { memory_document = some empty_document });
  stories = [];
  skills = [];
}

load_memory_context-again_example :
    load_memory_context rt js ld written ≡ ((load_memory_context rt js ld newcomer).0, written)
unfolding load_memory_context load_cached load_row show_document cache_miss cached_as applied
load_memory_context-again_example =
    load_memory_context-again rt js ld ld newcomer written refl refl refl (λ e. cc)

abbrev observed : Extraction
observed = record {
  recurring_mistakes = "No metrics" ∷ [];
  story_detected = record { found = false; title = none; competencies = []; tip = none };
  communication_observations = [];
  coaching_observation = none;
  focus_suggestion = none;
}

abbrev all_well : Writes
all_well = record { committed = true; cache_deleted = true }
