-- ===== src/Auth/Login.antt =====
-- `login` and `register` of backend/app/api/v1/auth.py. The rate limit, which runs
-- before them, is RateLimit; the refresh cookie is the second token of the answer.
use interviewcraft.Prelude.{
  ℕ, ◌+◌, ◌-◌, ◌/◌, String, Bool, true, false, not, ◌&&◌, Option, none, some, get_or, List, [], ◌∷◌,
  ◌++◌, leb, if◌then◌else◌, nat_eq, string_eq, concat, is_empty,
}
use interviewcraft.Auth.Users.{User, user, Http, ok, raised, by_email, is_locked, write}
use interviewcraft.Auth.Tokens.{Libraries, create_access_token, create_refresh_token}

abbrev pub lockout_attempts : ℕ
lockout_attempts = 5

abbrev pub lockout_seconds : ℕ
lockout_seconds = 900

-- The access token of the body and the refresh token of the cookie.
pub record TokenResponse (Token : Type 0) : Type 0 where
  pub access_token : Token
  pub refresh_cookie : Token

abbrev pub auth_error : {A : Type 0} → Http A
auth_error = raised 401 "Incorrect email or password"

-- A wrong password: the counter, and the lock once it reaches the limit.
unfoldable pub failed : ℕ → User → User
failed now u =
    let n = u.failed_login_attempts + 1 in
    record u {
      failed_login_attempts = n;
      locked_until =
          if leb lockout_attempts n then some (now + lockout_seconds) else u.locked_until;
    }

unfoldable pub succeeded : User → User
succeeded u = record u { failed_login_attempts = 0; locked_until = none }

-- `fresh` is the new row's id.
abbrev pub new_user : ℕ → String → Option String → Option String → User
new_user fresh email hash google = record {
  id = fresh;
  email = email;
  hashed_password = hash;
  role = user;
  is_active = true;
  failed_login_attempts = 0;
  locked_until = none;
  google_id = google;
}

module _ (lib : Libraries) where
  unfoldable pub issue : ℕ → String → User → TokenResponse lib.Token
  issue now jti u = record {
    access_token = create_access_token lib now u;
    refresh_cookie = create_refresh_token lib now jti u.id;
  }

  unfoldable pub password_matches : String → User → Bool
  password_matches password u = elim u.hashed_password [
    | none ↦ false
    | some h ↦ not (is_empty h) && lib.verify_password password h
  ]

-- `minutes` is the decimal text of the minutes that a lock lasts.
module _ (lib : Libraries) (minutes : ℕ → String) where
  unfoldable pub login_user :
      ℕ → String → String → User → List User → Http (TokenResponse lib.Token) × List User
  login_user now jti password u users =
      if is_locked now u
      then (
        raised 429 (
            concat (
              "Account locked. Try again in "
              ∷ minutes ((get_or u.locked_until now - now) / 60)
              ∷ " minute(s)."
              ∷ [])),
        users,
      )
      else if not (password_matches lib password u)
      then (auth_error, write (failed now u) users)
      else (ok (issue lib now jti (succeeded u)), write (succeeded u) users)

  unfoldable pub login :
      ℕ → String → String → String → List User → Http (TokenResponse lib.Token) × List User
  login now jti email password users = elim (by_email email users) [
    | none ↦ (auth_error, users)
    | some u ↦ login_user now jti password u users
  ]

  unfoldable pub register :
      ℕ → String → ℕ → String → String → List User → Http (TokenResponse lib.Token) × List User
  register now jti fresh email password users = elim (by_email email users) [
    | some u ↦ (raised 409 "An account with this email already exists", users)
    | none ↦
        let u = new_user fresh email (some (lib.hash_password password)) none in
        (ok (issue lib now jti u), users ++ (u ∷ []))
  ]
