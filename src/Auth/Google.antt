-- ===== src/Auth/Google.antt =====
-- Signing in with Google: `google_oauth` of backend/app/api/v1/auth.py.
use interviewcraft.Prelude.{
  ℕ, String, ◌≡◌, refl, false, not, ◌||◌, Option, none, some, get_or, List, [], ◌∷◌, ◌++◌, arith,
  ◌==ℕ◌, if◌then◌else◌, filter, ◌==◌, nat_eq, string_eq, ==_refl, is_empty,
}
use interviewcraft.Auth.Users.{User, Http, ok, raised, write}
use interviewcraft.Auth.Tokens.{Libraries}
use interviewcraft.Auth.Login.{TokenResponse, issue, new_user}

-- The rows that the query for a Google account finds.
unfoldable pub google_matches : String → String → List User → List User
google_matches email google_id users =
    filter (λ u. get_or u.google_id "" == google_id || u.email == email) users

module _ (lib : Libraries) where
  unfoldable pub google_sign_in :
      ℕ
      → String
      → ℕ
      → String
      → String
      → List User
      → List User
      → Http (TokenResponse lib.Token) × List User
  google_sign_in now jti fresh email google_id [] users =
      let u = new_user fresh email none (some google_id) in
      (ok (issue lib now jti u), users ++ (u ∷ []))
  google_sign_in now jti fresh email google_id (u ∷ []) users =
      let linked = record u { google_id = some google_id } in
      if is_empty (get_or u.google_id "")
      then (ok (issue lib now jti linked), write linked users)
      else (ok (issue lib now jti u), users)
  google_sign_in now jti fresh email google_id (_ ∷ _ ∷ _) users =
      (raised 500 "Internal Server Error", users)

  unfoldable pub google_user :
      ℕ → String → ℕ → String → String → List User → Http (TokenResponse lib.Token) × List User
  google_user now jti fresh email google_id users =
      if is_empty email || is_empty google_id
      then (raised 401 "Google token missing email or sub", users)
      else google_sign_in now jti fresh email google_id (google_matches email google_id users) users

  -- What Google's tokeninfo endpoint answers: its status, and the e-mail and id of a token it takes.
  -- `fresh` is the id of a new row; the error of a query for one row that finds two is a 500.
  unfoldable pub google_oauth :
      ℕ
      → String
      → ℕ
      → Option (ℕ × Option String × Option String)
      → List User
      → Http (TokenResponse lib.Token) × List User
  google_oauth now jti fresh none users = (raised 502 "Failed to verify Google token", users)
  google_oauth now jti fresh (some (status, email, sub)) users =
      if not (status ==ℕ 200)
      then (raised 401 "Invalid Google token", users)
      else google_user now jti fresh (get_or email "") (get_or sub "") users

google_matches-append :
    (email google_id : String) (users more : List User)
    → google_matches email google_id (users ++ more)
      ≡ google_matches email google_id users ++ google_matches email google_id more
unfolding google_matches
google_matches-append email google_id [] more = refl
google_matches-append email google_id (u ∷ users) more =
    ground (arith, google_matches-append email google_id users more)

module _ (lib : Libraries) where
  -- The first sign-in of an account that the table does not know, neither by its id nor by its e-mail,
  -- adds one row without a password, and each later one is answered for that row and adds none.
  pub google_oauth_twice :
      (now later fresh other : ℕ) (jti jti' email google_id : String) (users : List User)
      → is_empty email ≡ false
      → is_empty google_id ≡ false
      → google_matches email google_id users ≡ []
      → let u = new_user fresh email none (some google_id) in
        let asked : Option (ℕ × Option String × Option String) =
          some (200, some email, some google_id) in
        let (first, after) = google_oauth lib now jti fresh asked users in
        (first ≡ ok (issue lib now jti u))
        × (after ≡ users ++ (u ∷ []))
        × (google_oauth lib later jti' other asked after ≡ (ok (issue lib later jti' u), after))
  unfolding google_oauth google_user google_sign_in google_matches
  google_oauth_twice now later fresh other jti jti' email google_id users e g none_yet =
      let u = new_user fresh email none (some google_id) in
      ground (
        arith,
        google_matches-append email google_id users (u ∷ []),
        ==_refl google_id,
        string_eq.same_iff email "",
        string_eq.same_iff google_id "",
      )
