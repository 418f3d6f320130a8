-- ===== src/Scoring/Retry/Outcome.antt =====
-- What `_call_with_retry` comes to, from what its attempts come to.
use interviewcraft.Prelude.{
  ℕ, zero, suc, ◌≤◌, String, ◌≡◌, refl, sym, ap, ◌∙◌, subst, inl, inr, Bool, true, false, some,
  get_or, List, [], ◌∷◌, map, arith, ◌==ℕ◌, if◌then◌else◌, Bool-cases, find?, All, nat_eq,
  string_eq, concat, is_empty,
}
use interviewcraft.Scoring.Json.{
  attribute_error, text, member, Json, object, Members, no_members, runtime_error, Result, returned,
  failed, get, put, truthy, get-put_self, get-put,
}
use interviewcraft.Scoring.Retry.{
  Response, Block, is_output, call_anthropic, Api, Metrics, members_of, and_then, has_text, diff_of,
  check_diff, repaired, attempt_once, is_caught, nudge, retry_loop, call_with_retry,
}

-- The prompt with as many nudges.
abbrev pub nudged : String → ℕ → String
nudged prompt zero = prompt
nudged prompt (suc n) = concat (nudged prompt n ∷ nudge ∷ [])

-- The first outcome that is not a caught failure.
abbrev pub first_settled : List (Result (Members × Metrics)) → Result (Members × Metrics)
first_settled [] = failed runtime_error
first_settled (returned r ∷ _) = returned r
first_settled (failed e ∷ rest) = if is_caught e then first_settled rest else failed e

-- Whether a result has a rewrite with a text.
abbrev pub has_rewrite : String → Members → Result Bool
has_rewrite version result = and_then (diff_of result) (has_text version)

settle :
    (r next : Result (Members × Metrics)) (rest : List (Result (Members × Metrics)))
    → next ≡ first_settled rest
    → (elim r [ returned a ↦ returned a | failed e ↦ if is_caught e then next else failed e ])
      ≡ first_settled (r ∷ rest)
settle (returned a) next rest h = refl
settle (failed e) next rest h = rw h refl

-- The attempts in a row, as one list.
call_with_retry_attempts :
    (api : Api) (prompt : String)
    → call_with_retry api prompt
      ≡ first_settled (map (λ k. attempt_once api k (nudged prompt k)) (0 ∷ 1 ∷ 2 ∷ []))
unfolding call_with_retry retry_loop
call_with_retry_attempts api prompt =
    let once : ℕ → Result (Members × Metrics) = (λ k. attempt_once api k (nudged prompt k)) in
    settle (once 0) _ (once 1 ∷ once 2 ∷ [])
      (settle (once 1) _ (once 2 ∷ []) (settle (once 2) _ [] refl))

-- Whether an attempt failed with an error that the loop catches.
abbrev pub is_retried : Result (Members × Metrics) → Bool
is_retried (returned r) = false
is_retried (failed e) = is_caught e

settled-next :
    (r : Result (Members × Metrics)) (rest : List (Result (Members × Metrics)))
    → is_retried r ≡ true
    → first_settled (r ∷ rest) ≡ first_settled rest
settled-next (returned a) rest h = cc
settled-next (failed e) rest h = rw h refl

settled-here :
    (r : Result (Members × Metrics)) (rest : List (Result (Members × Metrics)))
    → is_retried r ≡ false
    → first_settled (r ∷ rest) ≡ r
settled-here (returned a) rest h = refl
settled-here (failed e) rest h = rw h refl

-- What a call comes to, if the attempts before the `n`th, counted from 0, fail with an error that the
-- loop catches: for `n` below 3 the outcome of the `n`th attempt, made with `n` nudges after the prompt,
-- if that does not fail so; for `n` = 3 a `RuntimeError`. So it makes three attempts at most.
pub call_with_retry_settles :
    (api : Api) (prompt : String) (n : ℕ)
    → n ≤ 3
    → ((k : ℕ) → suc k ≤ n → is_retried (attempt_once api k (nudged prompt k)) ≡ true)
    → (suc n ≤ 3 → is_retried (attempt_once api n (nudged prompt n)) ≡ false)
    → call_with_retry api prompt
      ≡ (if n ==ℕ 3 then failed runtime_error else attempt_once api n (nudged prompt n))
call_with_retry_settles api prompt zero le before at =
    call_with_retry_attempts api prompt ∙ settled-here _ _ (at (ground arith))
call_with_retry_settles api prompt (suc zero) le before at =
    call_with_retry_attempts api prompt
    ∙ (settled-next _ _ (before 0 (ground arith)) ∙ settled-here _ _ (at (ground arith)))
call_with_retry_settles api prompt (suc (suc zero)) le before at =
    call_with_retry_attempts api prompt
    ∙ (settled-next _ _ (before 0 (ground arith))
        ∙ (settled-next _ _ (before 1 (ground arith)) ∙ settled-here _ _ (at (ground arith))))
call_with_retry_settles api prompt (suc (suc (suc zero))) le before at =
    call_with_retry_attempts api prompt
    ∙ (settled-next _ _ (before 0 (ground arith))
        ∙ (settled-next _ _ (before 1 (ground arith)) ∙ settled-next _ _ (before 2 (ground arith))))
call_with_retry_settles api prompt (suc (suc (suc (suc n)))) le before at = absurd (omega arith)

-- A sequence that returns: its first part returned, and so did the second.
and_then-returned :
    {A B Q : Type 0} (r : Result A) (f : A → Result B) (b : B)
    → and_then r f ≡ returned b
    → ((a : A) → r ≡ returned a → f a ≡ returned b → Q)
    → Q
unfolding and_then
and_then-returned (returned a) f b h k = k a refl h
and_then-returned (failed e) f b h k = cc

diff_of-put :
    (diff result : Members)
    → truthy (object diff) ≡ true
    → diff_of (put "diff_versions" (object diff) result) ≡ returned diff
unfolding diff_of members_of
diff_of-put diff result t = rw (get-put_self "diff_versions" (object diff) result, t) refl

put-truthy : (key : String) (value : Json) (d : Members) → truthy (object (put key value d)) ≡ true
unfolding put truthy
put-truthy key value no_members = refl
put-truthy key value (member k v rest) = ground arith

-- The rewrites that stand once the medium one stands in for the ideal one.
abbrev stand_in : Members → Members
stand_in diff = put "ideal" (get_or (get "medium" diff) (object no_members)) diff

has_text-stand_in :
    (diff : Members)
    → (has_text "minimal" (stand_in diff) ≡ has_text "minimal" diff)
      × (has_text "medium" (stand_in diff) ≡ has_text "medium" diff)
      × (has_text "ideal" (stand_in diff) ≡ has_text "medium" diff)
unfolding has_text
has_text-stand_in diff =
    let v = get_or (get "medium" diff) (object no_members) in
    (
      rw (get-put "minimal" "ideal" v diff refl) refl,
      rw (get-put "medium" "ideal" v diff refl) refl,
      rw (get-put_self "ideal" v diff) refl,
    )

has_rewrite-of :
    (version : String) (result diff : Members) (b : Bool)
    → diff_of result ≡ returned diff
    → has_text version diff ≡ returned b
    → b ≡ true
    → has_rewrite version result ≡ returned true
unfolding and_then
has_rewrite-of version result diff b d h t = rw (d, h, t) refl

abbrev IsComplete : Members → Type 0
IsComplete result =
    (has_rewrite "minimal" result ≡ returned true)
    × (has_rewrite "medium" result ≡ returned true)
    × (has_rewrite "ideal" result ≡ returned true)

repaired-IsComplete :
    (result checked diff : Members) (a b c : Bool)
    → diff_of result ≡ returned diff
    → has_text "minimal" diff ≡ returned a
    → has_text "medium" diff ≡ returned b
    → has_text "ideal" diff ≡ returned c
    → repaired result diff a b c ≡ returned checked
    → IsComplete checked
unfolding repaired
repaired-IsComplete result checked diff false b c d minimal medium ideal h = cc
repaired-IsComplete result checked diff true false c d minimal medium ideal h = cc
repaired-IsComplete result checked diff true true true d minimal medium ideal h =
    let same : result ≡ checked = cc in
    subst IsComplete same (
      has_rewrite-of "minimal" result diff true d minimal refl,
      has_rewrite-of "medium" result diff true d medium refl,
      has_rewrite-of "ideal" result diff true d ideal refl,
    )
repaired-IsComplete result checked diff true true false d minimal medium ideal h =
    let new = put "diff_versions" (object (stand_in diff)) result in
    let same : new ≡ checked = cc in
    let d' = diff_of-put (stand_in diff) result (put-truthy "ideal" _ diff) in
    let (m, e, s) = has_text-stand_in diff in
    subst IsComplete same (
      has_rewrite-of "minimal" new (stand_in diff) true d' (m ∙ minimal) refl,
      has_rewrite-of "medium" new (stand_in diff) true d' (e ∙ medium) refl,
      has_rewrite-of "ideal" new (stand_in diff) true d' (s ∙ medium) refl,
    )

check_diff-IsComplete :
    (result checked : Members) → check_diff result ≡ returned checked → IsComplete checked
unfolding check_diff
check_diff-IsComplete result checked h = and_then-returned _ _ checked h (λ diff d h1.
    and_then-returned _ _ checked h1 (λ a minimal h2.
      and_then-returned _ _ checked h2 (λ b medium h3.
        and_then-returned _ _ checked h3
          (λ c ideal h4. repaired-IsComplete result checked diff a b c d minimal medium ideal h4))))

attempt_once-IsComplete :
    (api : Api) (attempt : ℕ) (prompt : String) (result : Members) (metrics : Metrics)
    → attempt_once api attempt prompt ≡ returned (result, metrics)
    → IsComplete result × (metrics.retries ≡ attempt)
unfolding attempt_once
attempt_once-IsComplete api attempt prompt result metrics h =
    and_then-returned _ _ _ h (λ called c h1. and_then-returned _ _ _ h1 (λ checked d h2.
      let same : ◌≡◌ {A = Members × Metrics} (checked, record (called.1) { retries = attempt })
          (result, metrics) =
        cc in
      (
        check_diff-IsComplete (called.0) result (d ∙ ap returned (ap (λ x. x.0) same)),
        sym (ap (λ x. Metrics.retries (x.1)) same),
      )))

settled-All :
    (Q : Members × Metrics → Type 0) (x : Members × Metrics)
    (rs : List (Result (Members × Metrics)))
    → first_settled rs ≡ returned x
    → All (λ r. r ≡ returned x → Q x) rs
    → Q x
settled-All Q x [] h all = cc
settled-All Q x (returned r ∷ rest) h all = all.0 h
settled-All Q x (failed e ∷ rest) h all = elim (Bool-cases (is_caught e)) [
  | inl t ↦ settled-All Q x rest (rw t at h) all.1
  | inr f ↦ let h' : failed e ≡ returned x = rw f at h in cc
]

-- What a call returns has a minimal, a medium and an ideal rewrite, each with a text that is not empty,
-- and was reached after at most two retries.
pub call_with_retry_complete :
    (api : Api) (prompt : String) (result : Members) (metrics : Metrics)
    → call_with_retry api prompt ≡ returned (result, metrics)
    → (has_rewrite "minimal" result ≡ returned true)
      × (has_rewrite "medium" result ≡ returned true)
      × (has_rewrite "ideal" result ≡ returned true)
      × (metrics.retries ≤ 2)
call_with_retry_complete api prompt result metrics h =
    let once : (k : ℕ)
        → k ≤ 2
        → attempt_once api k (nudged prompt k) ≡ returned (result, metrics)
        → IsComplete result × (metrics.retries ≤ 2) =
      (λ k le e.
        let (c, r) = attempt_once-IsComplete api k (nudged prompt k) result metrics e in
        (c, ground arith)) in
    let (c, few) =
      settled-All (λ x. IsComplete result × (metrics.retries ≤ 2)) (result, metrics)
        (map (λ k. attempt_once api k (nudged prompt k)) (0 ∷ 1 ∷ 2 ∷ []))
        (sym (call_with_retry_attempts api prompt) ∙ h)
        (once 0 (ground arith), (once 1 (ground arith), (once 2 (ground arith), tt))) in
    (c.0, c.1, c.2, few)

attempt_once_text_diff :
    (api : Api) (prompt s : String) (response : Response) (block : Block)
    → api 0 prompt ≡ some response
    → find? is_output response.content ≡ some block
    → get "diff_versions" block.input ≡ some (text s)
    → is_empty s ≡ false
    → attempt_once api 0 prompt ≡ failed attribute_error
unfolding attempt_once call_anthropic check_diff diff_of members_of truthy and_then
attempt_once_text_diff api prompt s response block a b d e = ground arith

-- If the first answer's tool call has its rewrites as a JSON text that is not empty, the call fails
-- with an `AttributeError` and makes no second attempt.
pub call_with_retry_text_diff :
    (api : Api) (prompt s : String) (response : Response) (block : Block)
    → api 0 prompt ≡ some response
    → find? is_output response.content ≡ some block
    → get "diff_versions" block.input ≡ some (text s)
    → is_empty s ≡ false
    → call_with_retry api prompt ≡ failed attribute_error
call_with_retry_text_diff api prompt s response block a b d e =
    call_with_retry_attempts api prompt
    ∙ rw (attempt_once_text_diff api prompt s response block a b d e) refl
