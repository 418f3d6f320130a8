-- ===== src/Voice/Sentences/Tests.antt =====
-- An answer of two sentences in three tokens, its letters as code points.
use interviewcraft.Prelude.{
  ℕ, ◌≡◌, refl, Bool, false, ◌||◌, none, List, [], ◌∷◌, ◌++◌, ◌==ℕ◌, nat_eq, string_eq,
}
use interviewcraft.Voice.Sentences.{
  is_end, lstrip, cut_space, rstrip, prefixed, search, append_sentence, split, add, flush, queued,
  as_text,
}
use interviewcraft.Voice.Sentences.Kept.{flat, solid, add-search}
use interviewcraft.Voice.Sentences.Queue.{queued-solid}

abbrev blank : ℕ → Bool
blank c = c ==ℕ 32 || c ==ℕ 10

-- "Ok", ". A", "nd?"
abbrev tokens : List (List ℕ)
tokens = (79 ∷ 107 ∷ []) ∷ (46 ∷ 32 ∷ 65 ∷ []) ∷ (110 ∷ 100 ∷ 63 ∷ []) ∷ []

two_sentences : queued blank [] tokens ≡ (79 ∷ 107 ∷ 46 ∷ []) ∷ (65 ∷ 110 ∷ 100 ∷ 63 ∷ []) ∷ []
unfolding queued add split search is_end prefixed append_sentence flush as_text lstrip rstrip
    cut_space
two_sentences = refl

add-search_example : search blank false (add blank (79 ∷ 107 ∷ []) (46 ∷ 32 ∷ 65 ∷ [])).1 ≡ none
add-search_example = add-search blank (79 ∷ 107 ∷ []) (46 ∷ 32 ∷ 65 ∷ [])

queued-solid_example : solid blank (flat (queued blank [] tokens)) ≡ solid blank ([] ++ flat tokens)
queued-solid_example = queued-solid blank [] tokens
