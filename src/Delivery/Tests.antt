-- ===== src/Delivery/Tests.antt =====
-- The delivery of a short session.
use interviewcraft.Prelude.{◌≡◌, refl, false, List, [], ◌∷◌, length, nat_eq, string_eq}
use interviewcraft.Voice.Turns.{Message, Texts, user_message, assistant_message}
use interviewcraft.Delivery.{TranscriptWord, Speech, gap, word_gaps}

abbrev sp : Speech
sp = record { matches = λ p t. 0; word_count = λ s. 12; pace = λ words ms. 1400 }

abbrev tx : Texts
tx = record {
  strip = λ s. s;
  word_count = λ s. 5;
  starts_with_wait = λ s. false;
  remove = λ old s. s;
}

abbrev spoken : List TranscriptWord
spoken =
    record { word = "Well"; start_ms = 1000; end_ms = 1300 }
    ∷ record { word = "yes"; start_ms = 4500; end_ms = 4800 }
    ∷ []

one_gap : length (word_gaps spoken) ≡ 1
unfolding word_gaps gap
one_gap = refl

abbrev session : List Message
session =
    assistant_message "Hello!"
    ∷ user_message "I led"
    ∷ assistant_message "How?"
    ∷ user_message "Well"
    ∷ []
