-- ===== src/Memory/Builder/Items.antt =====
-- The lists of texts and of insights in the memory document.
use interviewcraft.Prelude.{
  ◌+◌, String, ◌≡◌, refl, sym, subst, inl, inr, true, false, not, ◌&&◌, List, [], ◌∷◌, ◌++◌, arith,
  if◌then◌else◌, Bool-cases, sum_by, ◌==◌, nat_eq, string_eq, ==_refl, IsDistinct,
  IsDistinct-append_one, contains, is_empty,
}
use interviewcraft.Memory.Documents.{CoachingInsight}
use interviewcraft.Memory.Builder.{Json, append_new, similar_insight, add_insight}

pub append_new-IsDistinct :
    (existing ms : List String) → IsDistinct existing → IsDistinct (append_new existing ms)
unfolding append_new
append_new-IsDistinct existing [] d = d
append_new-IsDistinct existing (m ∷ ms) d =
    elim (Bool-cases (not (is_empty m) && not (contains m existing))) [
      | inl y ↦ rw y (
          append_new-IsDistinct (existing ++ (m ∷ [])) ms
            (IsDistinct-append_one m existing d (ground arith)))
      | inr n ↦ rw n (append_new-IsDistinct existing ms d)
    ]

contains-append :
    (x : String) (xs ys : List String) → contains x xs ≡ true → contains x (xs ++ ys) ≡ true
contains-append x [] ys h = cc
contains-append x (y ∷ xs) ys h = ground (arith, contains-append x xs ys)

contains-append_self : (x : String) (xs : List String) → contains x (xs ++ (x ∷ [])) ≡ true
contains-append_self x [] = ground (arith, ==_refl x)
contains-append_self x (y ∷ xs) = ground (arith, contains-append_self x xs)

pub append_new-keeps :
    (x : String) (existing ms : List String)
    → contains x existing ≡ true
    → contains x (append_new existing ms) ≡ true
unfolding append_new
append_new-keeps x existing [] h = h
append_new-keeps x existing (m ∷ ms) h =
    elim (Bool-cases (not (is_empty m) && not (contains m existing))) [
      | inl y ↦
          rw y
            (append_new-keeps x (existing ++ (m ∷ [])) ms (contains-append x existing (m ∷ []) h))
      | inr n ↦ rw n (append_new-keeps x existing ms h)
    ]

-- Every text observed is in the list, but for the empty one.
pub append_new-adds :
    (x : String) (existing ms : List String)
    → is_empty x ≡ false
    → contains x ms ≡ true
    → contains x (append_new existing ms) ≡ true
unfolding append_new
append_new-adds x existing [] ne h = absurd cc
append_new-adds x existing (m ∷ ms) ne h = elim (Bool-cases (x == m)) [
  | inl same ↦
      let e : x ≡ m = (string_eq.same_iff x m).0 same in
      let filled : is_empty m ≡ false = subst (λ y. is_empty y ≡ false) e ne in
      elim (Bool-cases (contains m existing)) [
        | inl there ↦
            rw (filled, there)
              (append_new-keeps x existing ms
                (subst (λ y. contains y existing ≡ true) (sym e) there))
        | inr new ↦
            rw (filled, new)
              (append_new-keeps x (existing ++ (m ∷ [])) ms (
                subst (λ y. contains y (existing ++ (m ∷ [])) ≡ true) (sym e)
                  (contains-append_self m existing)))
      ]
  | inr other ↦
      append_new-adds x
        (if not (is_empty m) && not (contains m existing) then existing ++ (m ∷ []) else existing)
        ms ne (rw other at h)
]

-- One more observation is counted, of an insight already there or of a new one.
pub add_insight-sum :
    (js : Json) (coaching : String) (insights : List CoachingInsight)
    → sum_by (λ ci. ci.evidence_count) (add_insight js coaching insights)
      ≡ sum_by (λ ci. ci.evidence_count) insights + 1
unfolding add_insight
add_insight-sum js coaching [] = refl
add_insight-sum js coaching (ci ∷ rest) =
    let rest_sum = add_insight-sum js coaching rest in
    elim (Bool-cases (similar_insight js ci.insight coaching)) [
      | inl y ↦ rw y (omega arith)
      | inr n ↦ rw n (omega (arith, rest_sum))
    ]
