-- ===== src/Auth/Tests.antt =====
-- An instance of the libraries and of Redis, and authentication's theorems at concrete users.
use interviewcraft.Prelude.{
  ℕ, zero, suc, ◌+◌, min, String, ◌≡◌, refl, ap, ◌≢◌, inl, inr, Bool, true, false, Option, none,
  some, List, [], ◌∷◌, arith, ltb, if◌then◌else◌, Bool-cases, ◌==◌, nat_eq, string_eq, ==_refl,
  is_empty,
}
use interviewcraft.Auth.Users.{User, ok, by_email, by_id, HasKeys}
use interviewcraft.Auth.Tokens.{
  Payload, Libraries, IsDocumented, create_access_token, create_refresh_token, create_reset_token,
}
use interviewcraft.Auth.Login.{TokenResponse, issue, new_user, login, password_matches}
use interviewcraft.Auth.Lockout.{attempts, login_locks}
use interviewcraft.Auth.Sessions.{
  get_current_user, refresh, credentials_exception, invalid_refresh, get_current_user_tokens,
  refresh_tokens,
}
use interviewcraft.Auth.Passwords.{reset_password, with_password, login-reset_password}
use interviewcraft.Auth.RateLimit.{
  Redis, IsRedis, Counter, live, incremented, passed, passed_window,
}
use Prim.Native.String.{[] as blank, ◌∷◌ as char_and}

-- Tokens are their claims, a password's hash is the password, a UUID is written in unary.
unfoldable hash : String → String
hash plain = if is_empty plain then "blank" else plain

unfoldable unary : ℕ → String
unary zero = blank
unary (suc n) = char_and "1" (unary n)

unfoldable digits : String → ℕ
digits blank = 0
digits (char_and _ s) = suc (digits s)

digits-unary : (n : ℕ) → digits (unary n) ≡ n
unfolding unary digits
digits-unary zero = refl
digits-unary (suc n) = ap suc (digits-unary n)

hash-nonempty : (plain : String) → is_empty (hash plain) ≡ false
unfolding hash
hash-nonempty plain = elim (Bool-cases (is_empty plain)) [
  | inl t ↦ rw t refl
  | inr f ↦ rw (f, f) refl
]

abbrev lib : Libraries
lib = record {
  Token = Payload;
  is_blank = λ p. false;
  encode = λ p. p;
  decode = λ now p. if ltb now p.exp then some p else none;
  hash_password = hash;
  verify_password = λ plain h. hash plain == h;
  str_uuid = unary;
  parse_uuid = λ s. some (digits s);
}

lib-IsDocumented : IsDocumented lib
unfolding hash
lib-IsDocumented = record {
  decode-encode = λ now p lt. ground arith;
  decode_expired = λ now p le. ground arith;
  verify-hash = λ plain. ==_refl (hash plain);
  encode_nonempty = λ p. refl;
  hash_nonempty = hash-nonempty;
  parse-str = λ id. ap some (digits-unary id);
}

abbrev minutes : ℕ → String
minutes n = "some"

abbrev ann : User
ann = new_user 1 "ann@example.org" (some "secret") none

abbrev bob : User
bob = new_user 2 "bob@example.org" (some "hunter2") (some "g-2")

abbrev users : List User
users = bob ∷ ann ∷ []

users-HasKeys : HasKeys users
users-HasKeys = (refl, (refl, tt))

login_locks_example :
    let locked = attempts lib minutes "ann@example.org" ((50, "e") ∷ []) (
      attempts lib minutes "ann@example.org"
        ((10, "a") ∷ (20, "b") ∷ (30, "c") ∷ (40, "d") ∷ [])
        users) in
    let (answer, after) = login lib minutes 60 "j" "ann@example.org" "secret" locked in
    ((r : TokenResponse Payload) → answer ≢ ok r) × (after ≡ locked)
unfolding by_email password_matches hash
login_locks_example =
    login_locks lib minutes "ann@example.org" ((10, "a") ∷ (20, "b") ∷ (30, "c") ∷ (40, "d") ∷ [])
      users ann 50 60 "e" "j" "secret" users-HasKeys refl refl refl
      (refl, (refl, (refl, (refl, tt)))) refl refl (ground arith)

-- Locked until 950, after five failures.
abbrev locked_ann : User
locked_ann = record ann { failed_login_attempts = 5; locked_until = some 950 }

get_current_user_tokens_example :
    (get_current_user lib 100 (some (create_access_token lib 7 ann)) users
      ≡ (if ltb 100 (7 + 900) then ok ann else credentials_exception))
    × (get_current_user lib 100 (some (create_refresh_token lib 7 "j" 1)) users
        ≡ credentials_exception)
    × (get_current_user lib 100 (some (create_reset_token lib 7 1)) users ≡ credentials_exception)
unfolding by_id
get_current_user_tokens_example =
    get_current_user_tokens lib lib-IsDocumented 7 100 "j" ann users refl refl

refresh_tokens_example :
    let answer = if ltb 100 (7 + 604_800) then ok (issue lib 100 "k" ann) else invalid_refresh in
    let token = create_refresh_token lib 7 "j" 1 in
    ((cookie : Option Payload) → refresh lib 100 "k" (some token) cookie users ≡ answer)
    × (refresh lib 100 "k" none (some token) users ≡ answer)
    × (refresh lib 100 "k" none (some (create_access_token lib 7 ann)) users ≡ invalid_refresh)
    × ((cookie : Option Payload)
        → refresh lib 100 "k" (some (create_access_token lib 7 ann)) cookie users ≡ invalid_refresh)
unfolding by_id
refresh_tokens_example = refresh_tokens lib lib-IsDocumented 7 100 "j" "k" ann users refl refl

login-reset_password_example :
    let (answer, after) =
      reset_password lib 100 (create_reset_token lib 7 1) "new" (bob ∷ locked_ann ∷ []) in
    (answer ≡ ok "Password has been reset successfully. You can now sign in.")
    × ((moment : ℕ) (jti : String)
        → (login lib minutes moment jti "ann@example.org" "new" after).0
          ≡ ok (issue lib moment jti (with_password lib "new" locked_ann)))
unfolding by_id by_email
login-reset_password_example =
    login-reset_password lib minutes lib-IsDocumented 7 100 "new" locked_ann (bob ∷ locked_ann ∷ [])
      (refl, (refl, tt)) refl refl refl (ground arith)

-- A Redis whose store is a function of the key, and whose `EXPIRE` works or always fails.
unfoldable timed : Bool → ℕ → Option Counter → Option Counter
timed works deadline none = none
timed works deadline (some c) = some (if works then record c { deadline = some deadline } else c)

abbrev redis : Bool → Redis
redis works = record {
  State = String → Option Counter;
  incr = λ now key s.
      let c = incremented (live now (s key)) in
      (some c.value, λ k. if k == key then some c else s k);
  expire = λ now key seconds s.
      (works, λ k. if k == key then timed works (now + seconds) (s key) else s k);
  entry = λ key s. s key;
}

redis-IsRedis : (works : Bool) → IsRedis (redis works)
redis-IsRedis works = record {
  incr_done = λ now key s. refl;
  incr_entry = λ now key s. rw (==_refl key) refl;
  expire_entry = λ now key seconds s c h. rw (==_refl key, h) (unfold timed in refl);
}

passed_window_example :
    passed (redis true) (some "10.0.0.1") (7 ∷ 8 ∷ 9 ∷ 60 ∷ 61 ∷ 65 ∷ 66 ∷ []) (λ key. none)
    ≡ min 5 (1 + 6)
unfolding live
passed_window_example =
    passed_window (redis true) (redis-IsRedis true) (some "10.0.0.1") 7
      (8 ∷ 9 ∷ 60 ∷ 61 ∷ 65 ∷ 66 ∷ []) (λ key. none) refl refl
      (refl, (refl, (refl, (refl, (refl, (refl, tt))))))
