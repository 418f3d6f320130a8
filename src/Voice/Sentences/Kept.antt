-- ===== src/Voice/Sentences/Kept.antt =====
-- What the sentence buffer keeps of a token, and the end of its loop.
use interviewcraft.Prelude.{
  ℕ, zero, suc, ◌≤◌, ◌≡◌, refl, sym, ap, ◌∙◌, subst, inl, inr, Bool, false, ◌&&◌, Option, none,
  some, List, [], ◌∷◌, ◌++◌, arith, if◌then◌else◌, Bool-cases, Option-cases, length, length-append,
  nat_eq, string_eq,
}
use interviewcraft.Voice.Sentences.{
  add, is_end, lstrip, cut_space, rstrip, strip, Match, prefixed, search, append_sentence, split,
}

-- All the characters of the texts, one text after the other.
abbrev pub flat : List (List ℕ) → List ℕ
flat [] = []
flat (s ∷ rest) = s ++ flat rest

module _ (is_space : ℕ → Bool) where
  pub append_assoc : (xs ys zs : List ℕ) → (xs ++ ys) ++ zs ≡ xs ++ (ys ++ zs)
  append_assoc [] ys zs = refl
  append_assoc (x ∷ xs) ys zs = ap (λ r. x ∷ r) (append_assoc xs ys zs)

  -- The characters of a text but its spaces.
  unfoldable pub solid : List ℕ → List ℕ
  solid [] = []
  solid (c ∷ cs) = let rest = solid cs in if is_space c then rest else c ∷ rest

  pub solid-append : (xs ys : List ℕ) → solid (xs ++ ys) ≡ solid xs ++ solid ys
  unfolding solid
  solid-append [] ys = refl
  solid-append (x ∷ xs) ys = ground (arith, solid-append xs ys)

  pub solid-lstrip : (xs : List ℕ) → solid (lstrip is_space xs) ≡ solid xs
  unfolding solid lstrip
  solid-lstrip [] = refl
  solid-lstrip (x ∷ xs) = ground (arith, solid-lstrip xs)

  solid-cut_space : (c : ℕ) (xs : List ℕ) → solid (cut_space is_space c xs) ≡ solid (c ∷ xs)
  unfolding solid cut_space
  solid-cut_space c [] = ground arith
  solid-cut_space c (d ∷ xs) = refl

  pub solid-rstrip : (xs : List ℕ) → solid (rstrip is_space xs) ≡ solid xs
  unfolding solid rstrip
  solid-rstrip [] = refl
  solid-rstrip (x ∷ xs) = solid-cut_space x (rstrip is_space xs) ∙ ground (arith, solid-rstrip xs)

  length-lstrip : (xs : List ℕ) → length (lstrip is_space xs) ≤ length xs
  unfolding lstrip
  length-lstrip [] = omega arith
  length-lstrip (x ∷ xs) = ground (arith, length-lstrip xs)

  -- A match takes the text apart.
  abbrev IsFound : List ℕ → Option Match → Type 0
  IsFound xs none = Unit
  IsFound xs (some (before, space, rest)) = xs ≡ before ++ (space ∷ rest)

  prefixed-IsFound :
      (c : ℕ) (xs : List ℕ) (m : Option Match)
      → IsFound xs m
      → IsFound (c ∷ xs) (prefixed is_space c m)
  unfolding prefixed
  prefixed-IsFound c xs none h = tt
  prefixed-IsFound c xs (some (before, space, rest)) h = ap (λ r. c ∷ r) h

  search-IsFound : (ended : Bool) (xs : List ℕ) → IsFound xs (search is_space ended xs)
  unfolding search
  search-IsFound ended [] = tt
  search-IsFound ended (c ∷ cs) = elim (Bool-cases (ended && is_space c)) [
    | inl y ↦ rw y refl
    | inr n ↦
        rw n (prefixed-IsFound c cs (search is_space (is_end c) cs) (search-IsFound (is_end c) cs))
  ]

  -- The characters of the sentences and of the buffer after them.
  abbrev pub kept : List (List ℕ) × List ℕ → List ℕ
  kept r = solid (flat r.0) ++ solid r.1

  append_sentence-kept :
      (s : List ℕ) (r : List (List ℕ) × List ℕ)
      → kept (append_sentence is_space s r) ≡ solid s ++ kept r
  unfolding append_sentence solid
  append_sentence-kept [] (sentences, buf) = refl
  append_sentence-kept (c ∷ cs) (sentences, buf) =
      ap (λ x. x ++ solid buf) (solid-append (c ∷ cs) (flat sentences))
      ∙ append_assoc (solid (c ∷ cs)) (solid (flat sentences)) (solid buf)

  -- A sentence that is cut off a buffer, and what the rest of the buffer keeps.
  found-kept :
      (buf : List ℕ) (m : Match) (r : List (List ℕ) × List ℕ)
      → buf ≡ m.0 ++ (m.1 ∷ m.2)
      → kept r ≡ solid (lstrip is_space m.2)
      → kept (append_sentence is_space (strip is_space (m.0 ++ (m.1 ∷ []))) r) ≡ solid buf
  found-kept buf (before, space, rest) r e h =
      let sentence = before ++ (space ∷ []) in
      let solid_sentence : solid (strip is_space sentence) ≡ solid sentence =
        solid-rstrip (lstrip is_space sentence) ∙ solid-lstrip sentence in
      let back : solid buf ≡ solid sentence ++ solid rest =
        ap solid (e ∙ sym (append_assoc before (space ∷ []) rest)) ∙ solid-append sentence rest in
      append_sentence-kept (strip is_space sentence) r
      ∙ (ap (λ x. x ++ kept r) solid_sentence
          ∙ (ap (λ x. solid sentence ++ x) (h ∙ solid-lstrip rest) ∙ sym back))

  split-none :
      (fuel : ℕ) (buf : List ℕ)
      → search is_space false buf ≡ none
      → split is_space (suc fuel) buf ≡ ([], buf)
  unfolding split
  split-none fuel buf e = rw (split, e) refl

  split-some :
      (fuel : ℕ) (buf : List ℕ) (m : Match)
      → search is_space false buf ≡ some m
      → split is_space (suc fuel) buf
        ≡ append_sentence is_space
            (strip is_space (m.0 ++ (m.1 ∷ [])))
            (split is_space fuel (lstrip is_space m.2))
  unfolding split
  split-some fuel buf m e = rw (split, e) refl

  pub split-kept : (fuel : ℕ) (buf : List ℕ) → kept (split is_space fuel buf) ≡ solid buf
  unfolding split solid
  split-kept zero buf = refl
  split-kept (suc fuel) buf = elim (Option-cases (search is_space false buf)) [
    | inl n ↦ ap kept (split-none fuel buf n)
    | inr (m, e) ↦
        let taken : IsFound buf (some m) = subst (IsFound buf) e (search-IsFound false buf) in
        ap kept (split-some fuel buf m e)
        ∙ found-kept buf m (split is_space fuel (lstrip is_space m.2)) taken
            (split-kept fuel (lstrip is_space m.2))
  ]

  append_sentence-buffer :
      (s : List ℕ) (r : List (List ℕ) × List ℕ) → (append_sentence is_space s r).1 ≡ r.1
  unfolding append_sentence
  append_sentence-buffer [] r = refl
  append_sentence-buffer (c ∷ cs) r = refl

  split-search :
      (fuel : ℕ) (buf : List ℕ)
      → length buf ≤ fuel
      → search is_space false (split is_space fuel buf).1 ≡ none
  unfolding split search
  split-search zero [] le = refl
  split-search zero (c ∷ buf) le = absurd (omega arith)
  split-search (suc fuel) buf le = elim (Option-cases (search is_space false buf)) [
    | inl n ↦ ap (λ r. search is_space false r.1) (split-none fuel buf n) ∙ n
    | inr (m, e) ↦
        let taken : IsFound buf (some m) = subst (IsFound buf) e (search-IsFound false buf) in
        let rest = lstrip is_space m.2 in
        let shorter : length rest ≤ fuel =
          omega (arith, length-lstrip m.2, ap length taken, length-append m.0 (m.1 ∷ m.2)) in
        ap (λ r. search is_space false r.1) (split-some fuel buf m e)
        ∙ (ap (search is_space false) (
              append_sentence-buffer (strip is_space (m.0 ++ (m.1 ∷ [])))
                (split is_space fuel rest))
            ∙ split-search fuel rest shorter)
  ]

  -- The loop of `add` ends with a buffer in which no sentence is complete, since its fuel is enough: every
  -- sentence that the tokens have completed is given out at once.
  pub add-search : (buf token : List ℕ) → search is_space false (add is_space buf token).1 ≡ none
  unfolding add
  add-search buf token = split-search (length (buf ++ token)) (buf ++ token) (omega arith)
