-- ===== src/Voice/Sentences/Queue.antt =====
-- The queue of an answer's sentences and what is spoken of it, against the tokens.
use interviewcraft.Prelude.{
  ℕ, ◌≡◌, refl, sym, ap, ◌∙◌, Bool, List, [], ◌∷◌, ◌++◌, length, All, nat_eq, string_eq,
}
use interviewcraft.Voice.Sentences.{
  as_text, add, queued, strip_markdown, spoken, flush, lstrip, strip,
}
use interviewcraft.Voice.Sentences.Kept.{
  flat, solid, append_assoc, solid-append, solid-lstrip, solid-rstrip, kept, split-kept,
}

module _ (is_space : ℕ → Bool) where
  append_nil : (xs : List ℕ) → xs ++ [] ≡ xs
  append_nil [] = refl
  append_nil (x ∷ xs) = ap (λ r. x ∷ r) (append_nil xs)

  as_text-flat : (xs : List ℕ) → flat (as_text is_space xs) ≡ xs
  unfolding as_text
  as_text-flat [] = refl
  as_text-flat (x ∷ xs) = append_nil (x ∷ xs)

  flat-append : (xs ys : List (List ℕ)) → flat (xs ++ ys) ≡ flat xs ++ flat ys
  flat-append [] ys = refl
  flat-append (x ∷ xs) ys =
      ap (λ r. x ++ r) (flat-append xs ys) ∙ sym (append_assoc is_space x (flat xs) (flat ys))

  flush-solid : (buf : List ℕ) → solid is_space (flat (flush is_space buf)) ≡ solid is_space buf
  unfolding flush as_text
  flush-solid buf =
      ap (solid is_space) (as_text-flat (strip is_space buf))
      ∙ (solid-rstrip is_space (lstrip is_space buf) ∙ solid-lstrip is_space buf)

  -- The sentences that are queued for the speech task, with the flushed rest, have the characters of the
  -- model's tokens in their order, none lost and none repeated, but for spaces; markdown is stripped
  -- after the queue.
  pub queued-solid :
      (buf : List ℕ) (tokens : List (List ℕ))
      → solid is_space (flat (queued is_space buf tokens)) ≡ solid is_space (buf ++ flat tokens)
  unfolding queued add
  queued-solid buf [] = flush-solid buf ∙ ap (solid is_space) (sym (append_nil buf))
  queued-solid buf (token ∷ tokens) =
      let found = add is_space buf token in
      let rest = queued is_space found.1 tokens in
      let heard : kept is_space found ≡ solid is_space (buf ++ token) =
        split-kept is_space (length (buf ++ token)) (buf ++ token) in
      ap (solid is_space) (flat-append found.0 rest)
      ∙ (solid-append is_space (flat found.0) (flat rest)
          ∙ (ap (λ x. solid is_space (flat found.0) ++ x)
                (queued-solid found.1 tokens ∙ solid-append is_space found.1 (flat tokens))
              ∙ (sym (
                    append_assoc is_space (solid is_space (flat found.0)) (solid is_space found.1)
                      (solid is_space (flat tokens)))
                  ∙ (ap (λ x. x ++ solid is_space (flat tokens)) heard
                      ∙ (sym (solid-append is_space (buf ++ token) (flat tokens))
                          ∙ ap (solid is_space) (append_assoc is_space buf token (flat tokens)))))))

  strip_markdown-clean :
      (subs : List (List ℕ → List ℕ)) (s : List ℕ)
      → All (λ sub. sub s ≡ s) subs
      → strip_markdown is_space subs s ≡ strip is_space s
  unfolding strip_markdown
  strip_markdown-clean [] s h = refl
  strip_markdown-clean (sub ∷ subs) s h =
      ap (strip_markdown is_space subs) h.0 ∙ strip_markdown-clean subs s h.1

  spoken-clean :
      (subs : List (List ℕ → List ℕ)) (sentences : List (List ℕ))
      → All (λ s. All (λ sub. sub s ≡ s) subs) sentences
      → solid is_space (flat (spoken is_space subs sentences)) ≡ solid is_space (flat sentences)
  unfolding spoken
  spoken-clean subs [] h = refl
  spoken-clean subs (s ∷ sentences) h =
      ap (solid is_space) (flat-append (as_text is_space (strip_markdown is_space subs s)) _)
      ∙ (solid-append is_space (flat (as_text is_space (strip_markdown is_space subs s))) _
          ∙ (ap (λ x. solid is_space x ++ solid is_space (flat (spoken is_space subs sentences)))
                (as_text-flat (strip_markdown is_space subs s) ∙ strip_markdown-clean subs s h.0)
              ∙ (ap (λ x. x ++ solid is_space (flat (spoken is_space subs sentences)))
                    (solid-rstrip is_space (lstrip is_space s) ∙ solid-lstrip is_space s)
                  ∙ (ap (λ x. solid is_space s ++ x) (spoken-clean subs sentences h.1)
                      ∙ sym (solid-append is_space s (flat sentences))))))

  -- Of an answer that is not interrupted and in none of whose sentences a markdown pattern changes
  -- anything, all is spoken: the characters of the model's tokens in their order, none lost and none
  -- repeated, but for spaces.
  pub spoken-solid :
      (subs : List (List ℕ → List ℕ)) (tokens : List (List ℕ))
      → All (λ s. All (λ sub. sub s ≡ s) subs) (queued is_space [] tokens)
      → solid is_space (flat (spoken is_space subs (queued is_space [] tokens)))
        ≡ solid is_space (flat tokens)
  spoken-solid subs tokens h =
      spoken-clean subs (queued is_space [] tokens) h ∙ queued-solid [] tokens
