-- ===== src/Auth/Sessions.antt =====
-- `refresh` (backend/app/api/v1/auth.py) and the dependencies `get_current_user` and
-- `get_current_admin` (backend/app/services/auth/dependencies.py).
use interviewcraft.Prelude.{
  ℕ, ◌+◌, String, ◌≡◌, refl, Bool, true, false, Option, none, some, List, arith, ltb, if◌then◌else◌,
  nat_eq, string_eq,
}
use interviewcraft.Auth.Users.{User, UserRole, admin, Http, ok, raised, by_id}
use interviewcraft.Auth.Tokens.{
  token_user-encode, create_reset_token, access_payload, refresh_payload, reset_payload,
  create_reset_token, create_refresh_token, create_access_token, IsDocumented, Libraries,
  token_user,
}
use interviewcraft.Auth.Login.{TokenResponse, issue}

abbrev is_admin : UserRole → Bool
is_admin admin = true
is_admin _ = false

abbrev pub credentials_exception : {A : Type 0} → Http A
credentials_exception = raised 401 "Could not validate credentials"

abbrev pub invalid_refresh : {A : Type 0} → Http A
invalid_refresh = raised 401 "Invalid or expired refresh token"

-- `a or b` on optional values: an empty one counts as none.
abbrev pub or_else : {A : Type 0} → (A → Bool) → Option A → Option A → Option A
or_else empty none b = b
or_else empty (some a) b = if empty a then b else some a

-- The row of an id, if it is active.
unfoldable pub active_user : Option ℕ → List User → Option User
active_user none users = none
active_user (some id) users = elim (by_id id users) [
  | none ↦ none
  | some u ↦ if u.is_active then some u else none
]

module _ (lib : Libraries) where
  -- `credentials` is the bearer token, if the header has one.
  unfoldable pub get_current_user : ℕ → Option lib.Token → List User → Http User
  get_current_user now none users = credentials_exception
  get_current_user now (some token) users =
      elim (active_user (token_user lib "access" now token) users) [
        | none ↦ credentials_exception
        | some u ↦ ok u
      ]

  unfoldable pub get_current_admin : ℕ → Option lib.Token → List User → Http User
  get_current_admin now credentials users = elim (get_current_user now credentials users) [
    | raised s d ↦ raised s d
    | ok u ↦ if is_admin u.role then ok u else raised 403 "Admin access required"
  ]

  -- The token of the body, or else that of the cookie.
  unfoldable pub refresh :
      ℕ → String → Option lib.Token → Option lib.Token → List User → Http (TokenResponse lib.Token)
  refresh now jti body cookie users =
      elim (or_else lib.is_blank (or_else lib.is_blank body cookie) none) [
        | none ↦ invalid_refresh
        | some raw_token ↦ elim (active_user (token_user lib "refresh" now raw_token) users) [
          | none ↦ invalid_refresh
          | some u ↦ ok (issue lib now jti u)
        ]
      ]

module _ (lib : Libraries) (doc : IsDocumented lib) where
  -- For an active account: its access token opens every guarded endpoint until 900 seconds after it was
  -- made, and no later; its refresh and password-reset tokens open none.
  pub get_current_user_tokens :
      (now later : ℕ) (jti : String) (u : User) (users : List User)
      → by_id u.id users ≡ some u
      → u.is_active ≡ true
      → (get_current_user lib later (some (create_access_token lib now u)) users
          ≡ (if ltb later (now + 900) then ok u else credentials_exception))
        × (get_current_user lib later (some (create_refresh_token lib now jti u.id)) users
            ≡ credentials_exception)
        × (get_current_user lib later (some (create_reset_token lib now u.id)) users
            ≡ credentials_exception)
  unfolding get_current_user active_user create_access_token create_refresh_token create_reset_token
  get_current_user_tokens now later jti u users h a = (
    ground (
      arith,
      token_user-encode lib doc later u.id "access" (access_payload lib now u) "access" refl refl,
    ),
    ground (
      arith,
      token_user-encode lib doc later u.id "access" (refresh_payload lib now jti u.id) "refresh"
          refl refl,
    ),
    ground (
      arith,
      token_user-encode lib doc later u.id "access" (reset_payload lib now u.id) "password_reset"
          refl refl,
    ),
  )

  -- A refresh token, in the body or in the cookie of a request without a body's token, is exchanged for
  -- new tokens of its active account until seven days after it was made; an access token is refused in
  -- the body, whatever the cookie is, and in the cookie of a request without a body's token.
  pub refresh_tokens :
      (now later : ℕ) (jti fresh : String) (u : User) (users : List User)
      → by_id u.id users ≡ some u
      → u.is_active ≡ true
      → let answer =
          if ltb later (now + 604_800) then ok (issue lib later fresh u) else invalid_refresh in
        let token = create_refresh_token lib now jti u.id in
        ((cookie : Option lib.Token) → refresh lib later fresh (some token) cookie users ≡ answer)
        × (refresh lib later fresh none (some token) users ≡ answer)
        × (refresh lib later fresh none (some (create_access_token lib now u)) users
            ≡ invalid_refresh)
        × ((cookie : Option lib.Token)
            → refresh lib later fresh (some (create_access_token lib now u)) cookie users
              ≡ invalid_refresh)
  unfolding refresh active_user create_access_token create_refresh_token
  refresh_tokens now later jti fresh u users h a =
      let own =
        token_user-encode lib doc later u.id "refresh" (refresh_payload lib now jti u.id) "refresh"
          refl refl in
      let other =
        token_user-encode lib doc later u.id "refresh" (access_payload lib now u) "access" refl
          refl in
      (
        λ cookie. ground (arith, doc.encode_nonempty (refresh_payload lib now jti u.id), own),
        ground (arith, doc.encode_nonempty (refresh_payload lib now jti u.id), own),
        ground (arith, doc.encode_nonempty (access_payload lib now u), other),
        λ cookie. ground (arith, doc.encode_nonempty (access_payload lib now u), other),
      )
