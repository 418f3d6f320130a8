-- ===== src/Prelude/Sort.antt =====
-- Python's `sorted(xs, key=key, reverse=True)`: a stable sort, the largest key first.
use Prim.Native.Nat.{ℕ, zero, suc, ◌+◌}
use mathlib.Core.Path.{◌≡◌, refl}
use mathlib.Core.List.{List, [], ◌∷◌}
use mathlib.Core.Bool.{Bool, true, false}
use mathlib.Core.Logic.{inl, inr}
use native.Mathlib.Omega.{arith}
use interviewcraft.Prelude.Tests.{if◌then◌else◌, Bool-cases}
use interviewcraft.Prelude.Lists.{All, All-drop, sum_by, take, drop}

module _ {A K : Type 0} (lt : K → K → Bool) (key : A → K) where
  -- Before the first element whose key is not larger.
  unfoldable pub insert_ranked : A → List A → List A
  insert_ranked x [] = x ∷ []
  insert_ranked x (y ∷ ys) = if lt (key x) (key y) then y ∷ insert_ranked x ys else x ∷ y ∷ ys

  unfoldable pub sorted_reverse : List A → List A
  sorted_reverse [] = []
  sorted_reverse (x ∷ xs) = insert_ranked x (sorted_reverse xs)

  -- No later key is larger.
  abbrev pub IsRanked : List A → Type 0
  IsRanked [] = Unit
  IsRanked (x ∷ xs) = All (λ y. lt (key x) (key y) ≡ false) xs × IsRanked xs

  -- Every measure of the elements adds up to the same: the sort permutes them.
  pub insert_ranked-sum :
      (f : A → ℕ) (x : A) (xs : List A) → sum_by f (insert_ranked x xs) ≡ f x + sum_by f xs
  unfolding insert_ranked
  insert_ranked-sum f x [] = refl
  insert_ranked-sum f x (y ∷ ys) = ground (arith, insert_ranked-sum f x ys)

  pub sorted_reverse-sum : (f : A → ℕ) (xs : List A) → sum_by f (sorted_reverse xs) ≡ sum_by f xs
  unfolding sorted_reverse
  sorted_reverse-sum f [] = refl
  sorted_reverse-sum f (x ∷ xs) =
      ground (arith, insert_ranked-sum f x (sorted_reverse xs), sorted_reverse-sum f xs)

  All-insert_ranked :
      (P : A → Type 0) (x : A) (xs : List A) → P x → All P xs → All P (insert_ranked x xs)
  unfolding insert_ranked
  All-insert_ranked P x [] p h = (p, h)
  All-insert_ranked P x (y ∷ ys) p h = elim (Bool-cases (lt (key x) (key y))) [
    | inl t ↦ rw t (h.0, All-insert_ranked P x ys p h.1)
    | inr f ↦ rw f (p, h)
  ]

  -- The order of keys: no two are each larger than the other, and not being smaller is transitive.
  module _ (asym : (a b : K) → lt a b ≡ true → lt b a ≡ false)
      (trans : (a b c : K) → lt a b ≡ false → lt b c ≡ false → lt a c ≡ false) where
    All-trans :
        (a b : K) (xs : List A)
        → lt a b ≡ false
        → All (λ y. lt b (key y) ≡ false) xs
        → All (λ y. lt a (key y) ≡ false) xs
    All-trans a b [] h all = all
    All-trans a b (x ∷ xs) h all = (trans a b (key x) h all.0, All-trans a b xs h all.1)

    insert_ranked-IsRanked : (x : A) (xs : List A) → IsRanked xs → IsRanked (insert_ranked x xs)
    unfolding insert_ranked
    insert_ranked-IsRanked x [] r = (tt, tt)
    insert_ranked-IsRanked x (y ∷ ys) r = elim (Bool-cases (lt (key x) (key y))) [
      | inl t ↦ rw t (
        All-insert_ranked (λ z. lt (key y) (key z) ≡ false) x ys (asym (key x) (key y) t) r.0,
        insert_ranked-IsRanked x ys r.1,
      )
      | inr f ↦ rw f ((f, All-trans (key x) (key y) ys f r.0), r)
    ]

    pub sorted_reverse-IsRanked : (xs : List A) → IsRanked (sorted_reverse xs)
    unfolding sorted_reverse
    sorted_reverse-IsRanked [] = tt
    sorted_reverse-IsRanked (x ∷ xs) =
        insert_ranked-IsRanked x (sorted_reverse xs) (sorted_reverse-IsRanked xs)

  -- In a ranked list nothing after a position is larger than what stands before it.
  pub IsRanked-split :
      (n : ℕ) (xs : List A)
      → IsRanked xs
      → All (λ x. All (λ y. lt (key x) (key y) ≡ false) (drop n xs)) (take n xs)
  IsRanked-split zero xs r = tt
  IsRanked-split (suc n) [] r = tt
  IsRanked-split (suc n) (x ∷ xs) r =
      (All-drop (λ y. lt (key x) (key y) ≡ false) n xs r.0, IsRanked-split n xs r.1)
