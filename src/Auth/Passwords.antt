-- ===== src/Auth/Passwords.antt =====
-- `forgot_password` and `reset_password` of backend/app/api/v1/auth.py. The e-mail with the link is
-- sent by a library and changes no state of the program.
use interviewcraft.Prelude.{
  ℕ, ◌+◌, ◌≤◌, ◌<◌, String, ◌≡◌, refl, ap, ◌∙◌, inl, inr, Bool, true, false, not, ◌||◌, Option,
  none, some, get_or, List, arith, ltb, if◌then◌else◌, ltb→lt, Bool-cases, ◌==◌, nat_eq, string_eq,
  is_empty,
}
use interviewcraft.Auth.Users.{
  User, Http, ok, raised, by_email, by_id, is_locked, write, HasKeys, by_email-write,
}
use interviewcraft.Auth.Tokens.{
  Payload, create_access_token, create_refresh_token, create_reset_token, access_payload,
  refresh_payload, reset_payload, Libraries, IsDocumented, token_user, token_user-encode,
  create_reset_token,
}
use interviewcraft.Auth.Lockout.{login_right}
use interviewcraft.Auth.Sessions.{active_user}
use interviewcraft.Auth.Login.{succeeded, issue, login, password_matches}

pub record ForgotAnswer (Token : Type 0) : Type 0 where
  pub message : String
  pub reset_token : Option Token

abbrev pub forgot_message : String
forgot_message = "If an account with that email exists, a password reset link has been sent."

abbrev pub has_password : User → Bool
has_password u = elim u.hashed_password [ none ↦ false | some h ↦ not (is_empty h) ]

module _ (lib : Libraries) where
  -- `is_dev` is `settings.app_env in ("development", "test")`.
  unfoldable pub forgot_password : Bool → ℕ → String → List User → ForgotAnswer lib.Token
  forgot_password is_dev now email users = elim (by_email email users) [
    | none ↦ record { message = forgot_message; reset_token = none }
    | some u ↦
        if not u.is_active || not (has_password u)
        then record { message = forgot_message; reset_token = none }
        else record {
          message = forgot_message;
          reset_token = if is_dev then some (create_reset_token lib now u.id) else none;
        }
  ]

  unfoldable pub with_password : String → User → User
  with_password new_password u = record u {
    hashed_password = some (lib.hash_password new_password);
    failed_login_attempts = 0;
    locked_until = none;
  }

  -- A token of another type and one that does not decode differ in the detail of the refusal.
  unfoldable pub reset_password : ℕ → lib.Token → String → List User → Http String × List User
  reset_password now token new_password users = elim (lib.decode now token) [
    | none ↦ (raised 400 "Invalid or expired reset token", users)
    | some p ↦
        if not (get_or p.type "" == "password_reset")
        then (raised 400 "Invalid reset token", users)
        else elim (active_user (token_user lib "password_reset" now token) users) [
          | none ↦ (raised 400 "Invalid or expired reset token", users)
          | some u ↦ (
            ok "Password has been reset successfully. You can now sign in.",
            write (with_password new_password u) users,
          )
        ]
  ]

module _ (lib : Libraries) (minutes : ℕ → String) (doc : IsDocumented lib) where
  refused_type :
      (later : ℕ) (p : Payload) (type new : String) (users : List User)
      → p.type ≡ some type
      → (type == "password_reset") ≡ false
      → (detail : String) × (reset_password lib later (lib.encode p) new users
          ≡ (raised 400 detail, users))
  unfolding reset_password
  refused_type later p type new users t ne = elim (Bool-cases (ltb later p.exp)) [
    | inl live ↦
        ("Invalid reset token", ground (arith, doc.decode-encode later p (ltb→lt _ _ live)))
    | inr dead ↦ (
      "Invalid or expired reset token",
      ground (arith, doc.decode_expired later p (ground arith)),
    )
  ]

  reset_password_works :
      (now later : ℕ) (new : String) (u : User) (users : List User)
      → by_id u.id users ≡ some u
      → u.is_active ≡ true
      → later < now + 1800
      → reset_password lib later (create_reset_token lib now u.id) new users ≡ (
        ok "Password has been reset successfully. You can now sign in.",
        write (with_password lib new u) users,
      )
  unfolding reset_password active_user create_reset_token
  reset_password_works now later new u users h a lt = ground (
    arith,
    doc.decode-encode later (reset_payload lib now u.id) lt,
    token_user-encode lib doc later u.id "password_reset" (reset_payload lib now u.id)
        "password_reset" refl refl,
  )

  -- A reset token of an active account resets its password until 1800 seconds after it was made; from
  -- then on the new password is answered by tokens at every moment, also if the account was locked.
  pub login-reset_password :
      (now later : ℕ) (new : String) (u : User) (users : List User)
      → HasKeys users
      → by_id u.id users ≡ some u
      → by_email u.email users ≡ some u
      → u.is_active ≡ true
      → later < now + 1800
      → let (answer, after) =
          reset_password lib later (create_reset_token lib now u.id) new users in
        (answer ≡ ok "Password has been reset successfully. You can now sign in.")
        × ((moment : ℕ) (jti : String)
            → (login lib minutes moment jti u.email new after).0
              ≡ ok (issue lib moment jti (with_password lib new u)))
  login-reset_password now later new u users k h e a lt =
      let v = with_password lib new u in
      rw (reset_password_works now later new u users h a lt) (
        refl,
        λ moment jti.
            let found =
              by_email-write u.email u v users k e (unfold with_password in refl)
                (unfold with_password in refl) in
            ap (λ x. x.0)
              (login_right lib minutes moment jti u.email new (write v users) v found
                (unfold is_locked with_password in refl)
                (unfold password_matches with_password in
                  ground (arith, doc.hash_nonempty new, doc.verify-hash new)))
            ∙ unfold succeeded with_password in refl,
      )

  -- A reset token is refused from 1800 seconds after it was made, and an access or refresh token is
  -- refused at every moment: the status is 400 and the table does not change.
  pub reset_password_refused :
      (now later : ℕ) (new jti : String) (u : User) (users : List User)
      → (now + 1800 ≤ later
          → reset_password lib later (create_reset_token lib now u.id) new users
            ≡ (raised 400 "Invalid or expired reset token", users))
        × ((detail : String) × (reset_password lib later (create_access_token lib now u) new users
              ≡ (raised 400 detail, users)))
        × ((detail : String) × (reset_password lib later
                (create_refresh_token lib now jti u.id)
                new
                users
              ≡ (raised 400 detail, users)))
  unfolding reset_password create_reset_token create_access_token create_refresh_token
  reset_password_refused now later new jti u users = (
    λ le. ground (arith, doc.decode_expired later (reset_payload lib now u.id) le),
    refused_type later (access_payload lib now u) "access" new users refl refl,
    refused_type later (refresh_payload lib now jti u.id) "refresh" new users refl refl,
  )
