-- ===== src/Auth/Lockout.antt =====
-- The lockout of `login` (backend/app/api/v1/auth.py): what failed attempts add up to.
use interviewcraft.Prelude.{
  ℕ, ◌+◌, ◌≤◌, ◌<◌, String, ◌≡◌, refl, ap, ◌∙◌, ◌≢◌, true, false, none, some, List, [], ◌∷◌, arith,
  length, All, nat_eq, string_eq,
}
use interviewcraft.Auth.Users.{
  User, ok, by_email, is_locked, write, HasKeys, by_email-write, write-HasKeys,
}
use interviewcraft.Auth.Tokens.{Libraries}
use interviewcraft.Auth.Login.{
  TokenResponse, auth_error, failed, succeeded, issue, password_matches, login, login_user,
  lockout_seconds,
}

failed_few :
    (now : ℕ) (u : User)
    → u.locked_until ≡ none
    → u.failed_login_attempts + 1 < 5
    → failed now u ≡ record u { failed_login_attempts = u.failed_login_attempts + 1 }
unfolding failed
failed_few now u l few = ground arith

module _ (lib : Libraries) (minutes : ℕ → String) where
  login_wrong :
      (now : ℕ) (jti email password : String) (users : List User) (u : User)
      → by_email email users ≡ some u
      → is_locked now u ≡ false
      → password_matches lib password u ≡ false
      → login lib minutes now jti email password users ≡ (auth_error, write (failed now u) users)
  unfolding login login_user
  login_wrong now jti email password users u h l w = ground arith

  login_locked :
      (now until : ℕ) (jti email password : String) (users : List User) (u : User)
      → by_email email users ≡ some u
      → u.locked_until ≡ some until
      → now < until
      → (login lib minutes now jti email password users).1 ≡ users
        × ((r : TokenResponse lib.Token)
            → (login lib minutes now jti email password users).0 ≢ ok r)
  unfolding login login_user is_locked
  login_locked now until jti email password users u h l lt = ground arith

  -- Attempts that fail: each with its moment and a password that does not match.
  abbrev pub AreWrong : User → List (ℕ × String) → Type 0
  AreWrong u ws = All (λ w. password_matches lib (w.1) u ≡ false) ws

  pub attempts : String → List (ℕ × String) → List User → List User
  attempts email [] users = users
  attempts email ((now, password) ∷ ws) users =
      attempts email ws (login lib minutes now "" email password users).1

  -- Up to four failures only count up.
  attempts_lem :
      (email : String) (ws : List (ℕ × String)) (users : List User) (u : User)
      → HasKeys users
      → by_email email users ≡ some u
      → u.locked_until ≡ none
      → AreWrong u ws
      → u.failed_login_attempts + length ws < 5
      → HasKeys (attempts email ws users)
        × (by_email email (attempts email ws users)
            ≡ some (record u { failed_login_attempts = u.failed_login_attempts + length ws }))
  unfolding attempts password_matches
  attempts_lem email [] users u k h l w few = (k, h ∙ ground arith)
  attempts_lem email ((now, password) ∷ ws) users u k h l w few =
      let u' = record u { failed_login_attempts = u.failed_login_attempts + 1 } in
      let (k', h') =
        attempts_lem email ws (write u' users) u' (write-HasKeys u' users k)
          (by_email-write email u u' users k h refl refl) l w.1 (omega arith) in
      rw
        (
          login_wrong now "" email password users u h (unfold is_locked in ground arith) w.0,
          failed_few now u l (omega arith),
        )
        (k', h' ∙ ap (λ n. some (record u { failed_login_attempts = n })) (omega arith))

  -- A failure that is at least the fifth locks the account.
  fifth_locks :
      (now later : ℕ) (email wrong jti password : String) (users : List User) (u : User)
      → HasKeys users
      → by_email email users ≡ some u
      → is_locked now u ≡ false
      → password_matches lib wrong u ≡ false
      → 4 ≤ u.failed_login_attempts
      → later < now + lockout_seconds
      → let locked = (login lib minutes now "" email wrong users).1 in
        let (answer, after) = login lib minutes later jti email password locked in
        ((r : TokenResponse lib.Token) → answer ≢ ok r) × (after ≡ locked)
  unfolding failed
  fifth_locks now later email wrong jti password users u k h open_now bad many lt =
      let found = by_email-write email u (failed now u) users k h refl refl in
      let (same, refused) =
        login_locked later (now + lockout_seconds) jti email password (write (failed now u) users)
          (failed now u) found (ground arith) lt in
      rw (login_wrong now "" email wrong users u h open_now bad) (refused, same)

  pub login_right :
      (now : ℕ) (jti email password : String) (users : List User) (u : User)
      → by_email email users ≡ some u
      → is_locked now u ≡ false
      → password_matches lib password u ≡ true
      → login lib minutes now jti email password users
        ≡ (ok (issue lib now jti (succeeded u)), write (succeeded u) users)
  unfolding login login_user
  login_right now jti email password users u h l w = ground arith

  -- From an account with no failures counted and no lock, up to four failed attempts do not keep the
  -- right password out, at any later moment: it is answered by tokens, the counter is back at zero and
  -- no lock is left.
  pub login_after_few :
      (email : String) (ws : List (ℕ × String)) (users : List User) (u : User) (now : ℕ)
      (jti password : String)
      → HasKeys users
      → by_email email users ≡ some u
      → u.locked_until ≡ none
      → u.failed_login_attempts ≡ 0
      → AreWrong u ws
      → length ws < 5
      → password_matches lib password u ≡ true
      → let (answer, after) = login lib minutes now jti email password (attempts email ws users) in
        (answer ≡ ok (issue lib now jti u)) × (by_email email after ≡ some u)
  unfolding password_matches
  login_after_few email ws users u now jti password k h l z w few right =
      let u' = record u { failed_login_attempts = u.failed_login_attempts + length ws } in
      let (k', h') = attempts_lem email ws users u k h l w (omega arith) in
      let back : succeeded u' ≡ u = unfold succeeded in ground arith in
      let found =
        by_email-write email u' (succeeded u') _ k' h' (unfold succeeded in refl)
          (unfold succeeded in refl) in
      rw
        (
          login_right now jti email password (attempts email ws users) u' h'
              (unfold is_locked in ground arith) right,
          back,
        )
        (refl, by_email-write email u' u (attempts email ws users) k' h' refl refl)

  -- From an account with no failures counted and no lock, a fifth failed attempt after four locks it:
  -- until 900 seconds after it no password is answered by tokens, and no attempt changes the table.
  pub login_locks :
      (email : String) (ws : List (ℕ × String)) (users : List User) (u : User) (fifth now : ℕ)
      (wrong jti password : String)
      → HasKeys users
      → by_email email users ≡ some u
      → u.locked_until ≡ none
      → u.failed_login_attempts ≡ 0
      → AreWrong u ws
      → length ws ≡ 4
      → password_matches lib wrong u ≡ false
      → now < fifth + lockout_seconds
      → let locked = attempts email ((fifth, wrong) ∷ []) (attempts email ws users) in
        let (answer, after) = login lib minutes now jti email password locked in
        ((r : TokenResponse lib.Token) → answer ≢ ok r) × (after ≡ locked)
  unfolding attempts password_matches
  login_locks email ws users u fifth now wrong jti password k h l z w four bad lt =
      let u' = record u { failed_login_attempts = u.failed_login_attempts + length ws } in
      let (k', h') = attempts_lem email ws users u k h l w (omega arith) in
      fifth_locks fifth now email wrong jti password (attempts email ws users) u' k' h'
        (unfold is_locked in ground arith) bad (omega arith) lt

  -- When a lock has run out the counter is still at five or more, so one failed attempt locks the
  -- account again.
  pub login_relocks :
      (email : String) (users : List User) (u : User) (until now later : ℕ)
      (wrong jti password : String)
      → HasKeys users
      → by_email email users ≡ some u
      → u.locked_until ≡ some until
      → 5 ≤ u.failed_login_attempts
      → until ≤ now
      → password_matches lib wrong u ≡ false
      → later < now + lockout_seconds
      → let locked = (login lib minutes now "" email wrong users).1 in
        let (answer, after) = login lib minutes later jti email password locked in
        ((r : TokenResponse lib.Token) → answer ≢ ok r) × (after ≡ locked)
  login_relocks email users u until now later wrong jti password k h l five past bad lt =
      fifth_locks now later email wrong jti password users u k h (unfold is_locked in ground arith)
        bad (omega arith) lt
