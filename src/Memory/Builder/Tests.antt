-- ===== src/Memory/Builder/Tests.antt =====
-- The memory of a candidate after a short session.
use interviewcraft.Prelude.{
  ℕ, true, Option, none, some, [], ◌∷◌, arith, ◌==ℕ◌, if◌then◌else◌, nat_eq, string_eq,
}
use interviewcraft.Memory.Documents.{MemoryDocument, empty_document, Tables}
use interviewcraft.Memory.Builder.{Json, Extraction}
use interviewcraft.Memory.Builder.Sessions.{Writes, IsBuilt, build_memory, build_memory-IsBuilt}

abbrev js : Json
js = record { words = λ s. s ∷ []; dumps_length = λ doc. 400 }

abbrev seasoned : MemoryDocument
seasoned = record empty_document { total_sessions = 40; avg_score = some 60 }

abbrev observed : Extraction
observed = record {
  recurring_mistakes = "No metrics" ∷ "No metrics" ∷ [];
  story_detected = record {
    found = true;
    title = some "The outage";
    competencies = [];
    tip = none;
  };
  communication_observations = [];
  coaching_observation = some "Ask for numbers";
  focus_suggestion = none;
}

abbrev second_try : ℕ → Option Extraction
second_try retries = if retries ==ℕ 1 then some observed else none

abbrev nothing_yet : Tables
nothing_yet = record { cache = some "__NONE__"; memory = none; stories = []; skills = [] }

abbrev all_well : Writes
all_well = record { committed = true; cache_deleted = true }

build_memory-IsBuilt_example :
    IsBuilt all_well nothing_yet
      (build_memory js second_try none all_well (70 ∷ 80 ∷ []) nothing_yet)
build_memory-IsBuilt_example =
    build_memory-IsBuilt js second_try none all_well (70 ∷ 80 ∷ []) nothing_yet (ground arith)
      (ground arith)
