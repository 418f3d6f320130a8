-- ===== src/Prelude/Keys.antt =====
-- Equality tests as instances, and Python dictionaries as association lists in insertion order.
use Prim.Native.Nat.{ℕ, zero, suc}
use interviewcraft.Prelude.Lists.{drop}
use Prim.Native.String.{String}
use mathlib.Core.Path.{◌≡◌, refl}
use mathlib.Core.Logic.{◌↔◌, ◌≢◌, inl, inr}
use mathlib.Core.List.{List, [], ◌∷◌, ◌++◌}
use mathlib.Core.Bool.{Bool, true, false, ◌||◌}
use mathlib.Core.Option.{Option, none, some}
use native.Mathlib.Omega.{arith}
use text.Mathlib.Text.{◌==◌ as str_eq}
use text.Mathlib.TextEquality.{eq_iff}
use interviewcraft.Prelude.Tests.{◌==ℕ◌, ==ℕ_iff, if◌then◌else◌, Bool-cases}

pub record Keyed {ℓ} (A : Type ℓ) : Type ℓ where
  pub same : A → A → Bool
  pub same_iff : (a b : A) → (same a b ≡ true) ↔ (a ≡ b)

-- Texts and numbers are the keys of the program's dictionaries.
instance abbrev pub string_eq : Keyed String
string_eq = record { same = str_eq; same_iff = eq_iff }

infix 50 ◌==◌
abbrev pub ◌==◌ {ℓ} : {A : Type ℓ} ⦃keyed : Keyed A⦄ → A → A → Bool
◌==◌ ⦃keyed⦄ x y = keyed.same x y

instance abbrev pub nat_eq : Keyed ℕ
nat_eq = record { same_iff = ==ℕ_iff; same = ◌==ℕ◌ }

module _ {ℓ} {A : Type ℓ} ⦃e : Keyed A⦄ where
  pub ==_refl : (a : A) → (a == a) ≡ true
  ==_refl a = (e.same_iff a a).1 refl

  pub ==_ne : (a b : A) → a ≢ b → (a == b) ≡ false
  ==_ne a b ne = ground (arith, e.same_iff a b)

  pub ne_of_test : (a b : A) → (a == b) ≡ false → a ≢ b
  ne_of_test a b f = λ p. ground (arith, e.same_iff a b)

  -- The test as a decision.
  pub eq_discrete : Discrete A
  eq_discrete a b = elim (Bool-cases (a == b)) [
    | inl t ↦ yes ((e.same_iff a b).0 t)
    | inr f ↦ no (λ p. ground (arith, e.same_iff a b))
  ]

  -- `x in seen`
  abbrev pub contains : A → List A → Bool
  contains x [] = false
  contains x (y ∷ seen) = x == y || contains x seen

  -- No value stands in the list twice.
  abbrev pub IsDistinct : List A → Type 0
  IsDistinct [] = Unit
  IsDistinct (x ∷ xs) = (contains x xs ≡ false) × IsDistinct xs

  contains-append_one :
      (a b : A) (xs : List A) → contains a xs ≡ false → a ≢ b → contains a (xs ++ (b ∷ [])) ≡ false
  contains-append_one a b [] h ne = ground (arith, ==_ne a b ne)
  contains-append_one a b (x ∷ xs) h ne = ground (arith, contains-append_one a b xs)

  pub IsDistinct-append_one :
      (b : A) (xs : List A) → IsDistinct xs → contains b xs ≡ false → IsDistinct (xs ++ (b ∷ []))
  IsDistinct-append_one b [] d h = ground arith
  IsDistinct-append_one b (x ∷ xs) d h = (
    contains-append_one x b xs d.0 (λ p. ground (arith, e.same_iff b x)),
    IsDistinct-append_one b xs d.1 (ground arith),
  )

  pub IsDistinct-drop : (n : ℕ) (xs : List A) → IsDistinct xs → IsDistinct (drop n xs)
  IsDistinct-drop zero xs d = d
  IsDistinct-drop (suc n) [] d = d
  IsDistinct-drop (suc n) (x ∷ xs) d = IsDistinct-drop n xs d.1

abbrev pub Dict {ℓ κ} : Type ℓ → Type κ → Type (ℓ ⊔ κ)
Dict K V = List (K × V)

module _ {ℓ κ} {K : Type ℓ} {V : Type κ} ⦃e : Keyed K⦄ where
  -- `d.get(k)`
  abbrev pub lookup : K → Dict K V → Option V
  lookup key [] = none
  lookup key ((other, value) ∷ rest) = if key == other then some value else lookup key rest

  -- `d[k] = v`: an old key keeps its place.
  abbrev pub insert : K → V → Dict K V → Dict K V
  insert key value [] = (key, value) ∷ []
  insert key value ((other, old) ∷ rest) =
      if key == other then (other, value) ∷ rest else (other, old) ∷ insert key value rest

  -- `k in d`
  abbrev pub has_key : K → Dict K V → Bool
  has_key k [] = false
  has_key k ((j, v) ∷ d) = k == j || has_key k d

  pub lookup-insert :
      (k j : K) (v : V) (d : Dict K V)
      → lookup j (insert k v d) ≡ (if j == k then some v else lookup j d)
  lookup-insert k j v [] = refl
  lookup-insert k j v ((i, w) ∷ d) = ground (
    arith,
    e.same_iff k j,
    e.same_iff j k,
    e.same_iff i k,
    e.same_iff k i,
    e.same_iff j i,
    lookup-insert k j v d,
  )

  pub lookup-insert_self : (k : K) (v : V) (d : Dict K V) → lookup k (insert k v d) ≡ some v
  lookup-insert_self k v d = simp (lookup-insert, ==_refl)

  pub has_key-insert :
      (k j : K) (v : V) (d : Dict K V) → has_key j (insert k v d) ≡ (j == k || has_key j d)
  has_key-insert k j v [] = refl
  has_key-insert k j v ((i, w) ∷ d) =
      ground (arith, e.same_iff k i, e.same_iff j i, e.same_iff j k, has_key-insert k j v d)

  pub lookup-has_key : (k : K) (d : Dict K V) → has_key k d ≡ false → lookup k d ≡ none
  lookup-has_key k [] h = refl
  lookup-has_key k ((j, v) ∷ d) h = ground (arith, lookup-has_key k d)

  -- No key stands twice.
  abbrev pub IsKeyed : Dict K V → Type 0
  IsKeyed [] = Unit
  IsKeyed ((k, v) ∷ d) = (has_key k d ≡ false) × IsKeyed d

  pub insert-IsKeyed : (k : K) (v : V) (d : Dict K V) → IsKeyed d → IsKeyed (insert k v d)
  insert-IsKeyed k v [] h = ground arith
  insert-IsKeyed k v ((j, w) ∷ d) h = elim (Bool-cases (k == j)) [
    | inl same ↦ rw same h
    | inr other ↦ rw other (
      rw has_key-insert (ground (arith, e.same_iff k j, e.same_iff j k)),
      insert-IsKeyed k v d h.1,
    )
  ]
