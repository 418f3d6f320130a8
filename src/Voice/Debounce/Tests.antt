-- ===== src/Voice/Debounce/Tests.antt =====
-- The debounce of a short answer.
use interviewcraft.Prelude.{
  ℕ, ◌-◌, ◌≡◌, refl, true, some, List, [], ◌∷◌, ◌++◌, arith, nat_eq, string_eq, concat,
}
use interviewcraft.Voice.SmartPause.{init, default_thresholds, is_user_still_speaking}
use interviewcraft.Voice.Debounce.{
  TranscriptChunk, Words, timeout, next_chunk, Pass, more, started, commit_extra_ms, quiet, heard,
  after_wait, pass, debounce,
}
use interviewcraft.Voice.Debounce.Commits.{IsCommit, last_sound, said, debounce-IsCommit}
use interviewcraft.Voice.Debounce.Listens.{is_done}

abbrev four_words : Words
four_words = record { strip = λ s. s; word_count = λ s. 4 }

abbrev first_final : TranscriptChunk
first_final = record { text = "I led"; confidence = 90 }

abbrev at_rest : ℕ → Pass
at_rest ms = record { head = ms - 200; now = ms; wait = timeout (init 0) }

abbrev second : Pass
second = record {
  head = 8000;
  now = 8100;
  wait = next_chunk (record { text = "a team"; confidence = 80 });
}

abbrev heard_so_far : List Pass
heard_so_far = second ∷ at_rest 8300 ∷ []

debounce-IsCommit_example :
    IsCommit four_words
      (last_sound default_thresholds 8000 heard_so_far)
      (said four_words "I led" heard_so_far)
      (debounce four_words default_thresholds
        (heard_so_far ++ (at_rest 8900 ∷ []))
        (more (started first_final 8000)))
unfolding debounce pass after_wait heard quiet is_user_still_speaking commit_extra_ms started init
debounce-IsCommit_example =
    debounce-IsCommit four_words default_thresholds first_final 8000 heard_so_far (at_rest 8900)
      (record {
        pending_finals = first_final ∷ record { text = "a team"; confidence = 80 } ∷ [];
        accumulated_text = concat ("I led" ∷ " " ∷ "a team" ∷ []);
        quiet_since = some 8300;
        last_activity = 8100;
      })
      (ground arith) refl

commits_in_time :
    is_done (
      debounce four_words default_thresholds
        (heard_so_far ++ (at_rest 8900 ∷ []))
        (more (started first_final 8000)))
    ≡ true
unfolding debounce pass after_wait heard quiet is_user_still_speaking commit_extra_ms started
    is_done init
commits_in_time = refl
