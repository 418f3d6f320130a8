-- ===== src/Auth/Users.antt =====
-- The users table (backend/app/models/user.py) and the outcome of a request.
use interviewcraft.Prelude.{
  ℕ, String, ◌≡◌, refl, inl, inr, Bool, true, false, Option, none, some, List, [], ◌∷◌, map, arith,
  ltb, ◌==ℕ◌, if◌then◌else◌, Bool-cases, find?, ◌==◌, nat_eq, string_eq, IsDistinct, contains,
}

pub data UserRole : Type 0 where
  user admin : UserRole

-- The columns that authentication reads and writes; moments are seconds.
pub record User : Type 0 where
  pub id : ℕ
  pub email : String
  pub hashed_password : Option String
  pub role : UserRole
  pub is_active : Bool
  pub failed_login_attempts : ℕ
  pub locked_until : Option ℕ
  pub google_id : Option String

unfoldable pub is_locked : ℕ → User → Bool
is_locked now u = elim u.locked_until [ none ↦ false | some t ↦ ltb now t ]

-- `select(User).where(User.email == email)` and `... User.id == id`; both columns are unique.
unfoldable pub by_email : String → List User → Option User
by_email email users = find? (λ u. User.email u == email) users

unfoldable pub by_id : ℕ → List User → Option User
by_id id users = find? (λ u. User.id u ==ℕ id) users

-- The assignments to a user's columns, committed.
unfoldable pub write : User → List User → List User
write u [] = []
write u (x ∷ rest) = (if x.id ==ℕ u.id then u else x) ∷ write u rest

-- A response, or an `HTTPException` with its status and detail.
pub data Http (A : Type 0) : Type 0 where
  ok : A → Http A
  raised : ℕ → String → Http A

-- A row that was written is found by its id; the other ids find what they found before.
pub by_id-write :
    (u : User) (id : ℕ) (users : List User)
    → by_id id (write u users) ≡ (
        if id ==ℕ u.id
        then elim (by_id id users) [ none ↦ none | some x ↦ some u ]
        else by_id id users)
unfolding by_id write
by_id-write u id [] = ground arith
by_id-write u id (x ∷ rest) = ground (arith, by_id-write u id rest)

pub by_id_key : (id : ℕ) (users : List User) (u : User) → by_id id users ≡ some u → u.id ≡ id
unfolding by_id
by_id_key id [] u h = cc
by_id_key id (x ∷ rest) u h = ground (arith, by_id_key id rest u)

pub by_email_key :
    (email : String) (users : List User) (u : User)
    → by_email email users ≡ some u
    → u.email ≡ email
unfolding by_email
by_email_key email [] u h = cc
by_email_key email (x ∷ rest) u h =
    ground (arith, string_eq.same_iff x.email email, by_email_key email rest u)

-- The ids of the table are distinct: it is the primary key.
abbrev pub HasKeys : List User → Type 0
HasKeys users = IsDistinct (map (λ x. User.id x) users)

by_email_listed :
    (email : String) (users : List User) (u : User)
    → by_email email users ≡ some u
    → contains u.id (map (λ x. User.id x) users) ≡ true
unfolding by_email
by_email_listed email [] u h = cc
by_email_listed email (x ∷ rest) u h = ground (arith, by_email_listed email rest u)

-- The row found under an address, written back under the same id and address, is found under it.
pub by_email-write :
    (email : String) (u v : User) (users : List User)
    → HasKeys users
    → by_email email users ≡ some u
    → v.id ≡ u.id
    → v.email ≡ u.email
    → by_email email (write v users) ≡ some v
unfolding by_email write
by_email-write email u v [] d h i e = cc
by_email-write email u v (x ∷ rest) d h i e = elim (Bool-cases (x.email == email)) [
  | inl t ↦ ground arith
  | inr f ↦
      let h' : by_email email rest ≡ some u = rw f at h in
      ground (arith, by_email_listed email rest u h', by_email-write email u v rest d.1 h' i e)
]

ids-write :
    (v : User) (users : List User)
    → map (λ x. User.id x) (write v users) ≡ map (λ x. User.id x) users
unfolding write
ids-write v [] = refl
ids-write v (x ∷ rest) = ground (arith, ids-write v rest)

pub write-HasKeys : (v : User) (users : List User) → HasKeys users → HasKeys (write v users)
write-HasKeys v users h = rw (ids-write v users) h
