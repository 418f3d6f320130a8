-- ===== src/Auth/Tokens.antt =====
-- backend/app/services/auth/jwt_utils.py and password.py, over the libraries that they call: PyJWT,
-- passlib and uuid are parameters.
use interviewcraft.Prelude.{
  ℕ, ◌+◌, ◌≤◌, ◌<◌, String, ◌≡◌, inl, inr, Bool, true, false, ◌&&◌, Option, none, some, get_or,
  arith, ltb, if◌then◌else◌, ltb→lt, Bool-cases, ◌==◌, nat_eq, string_eq, is_empty,
}
use interviewcraft.Auth.Users.{User, UserRole}

-- The claims that the program writes and reads.
pub record Payload : Type 0 where
  pub sub : Option String
  pub email : Option String
  pub role : Option UserRole
  pub type : Option String
  pub jti : Option String
  pub exp : ℕ

-- The libraries, under the application's secret: PyJWT's tokens (an empty one counts as none) with
-- `jwt.encode` and `jwt.decode` at a moment (`none` is an `InvalidTokenError`), bcrypt, and UUIDs as
-- texts (`none` is a `ValueError`).
pub record Libraries : Type 1 where
  pub Token : Type 0
  pub is_blank : Token → Bool
  pub encode : Payload → Token
  pub decode : ℕ → Token → Option Payload
  pub hash_password : String → String
  pub verify_password : String → String → Bool
  pub str_uuid : ℕ → String
  pub parse_uuid : String → Option ℕ

-- What their documentation says: a signed token decodes to its claims until it expires and is
-- refused from then on, a hash verifies its password, and a UUID is read back from its text.
pub record IsDocumented (lib : Libraries) : Type 0 where
  pub decode-encode : (now : ℕ) (p : Payload) → now < p.exp → lib.decode now (lib.encode p) ≡ some p
  pub decode_expired : (now : ℕ) (p : Payload) → p.exp ≤ now → lib.decode now (lib.encode p) ≡ none
  pub verify-hash : (plain : String) → lib.verify_password plain (lib.hash_password plain) ≡ true
  pub encode_nonempty : (p : Payload) → lib.is_blank (lib.encode p) ≡ false
  pub hash_nonempty : (plain : String) → is_empty (lib.hash_password plain) ≡ false
  pub parse-str : (id : ℕ) → lib.parse_uuid (lib.str_uuid id) ≡ some id

-- `settings.jwt_access_token_expire_minutes` and `settings.jwt_refresh_token_expire_days`, in seconds.
abbrev pub access_seconds : ℕ
access_seconds = 900

abbrev pub refresh_seconds : ℕ
refresh_seconds = 604_800

abbrev pub reset_seconds : ℕ
reset_seconds = 1800

module _ (lib : Libraries) where
  abbrev pub access_payload : ℕ → User → Payload
  access_payload now u = record {
    sub = some (lib.str_uuid u.id);
    email = some u.email;
    role = some u.role;
    type = some "access";
    jti = none;
    exp = now + access_seconds;
  }

  unfoldable pub create_access_token : ℕ → User → lib.Token
  create_access_token now u = lib.encode (access_payload now u)

  -- `jti` is the fresh identifier.
  abbrev pub refresh_payload : ℕ → String → ℕ → Payload
  refresh_payload now jti id = record {
    sub = some (lib.str_uuid id);
    email = none;
    role = none;
    type = some "refresh";
    jti = some jti;
    exp = now + refresh_seconds;
  }

  unfoldable pub create_refresh_token : ℕ → String → ℕ → lib.Token
  create_refresh_token now jti id = lib.encode (refresh_payload now jti id)

  -- `_create_reset_token`
  abbrev pub reset_payload : ℕ → ℕ → Payload
  reset_payload now id = record {
    sub = some (lib.str_uuid id);
    email = none;
    role = none;
    type = some "password_reset";
    jti = none;
    exp = now + reset_seconds;
  }

  unfoldable pub create_reset_token : ℕ → ℕ → lib.Token
  create_reset_token now id = lib.encode (reset_payload now id)

  -- The claims of a token of one type, down to the user's id; `none` is every way to be refused.
  unfoldable pub token_user : String → ℕ → lib.Token → Option ℕ
  token_user type now token = elim (lib.decode now token) [
    | none ↦ none
    | some p ↦
        if get_or p.type "" == type
        then elim p.sub [ none ↦ none | some s ↦ lib.parse_uuid s ]
        else none
  ]

-- A token is taken for its own type until it expires, and for no other type.
module _ (lib : Libraries) (doc : IsDocumented lib) (later id : ℕ) (wanted : String) where
  open doc use {decode-encode, decode_expired, parse-str}

  pub token_user-encode :
      (p : Payload) (type : String)
      → p.sub ≡ some (lib.str_uuid id)
      → p.type ≡ some type
      → token_user lib wanted later (lib.encode p)
        ≡ (if ltb later p.exp && type == wanted then some id else none)
  unfolding token_user
  token_user-encode p type s t = elim (Bool-cases (ltb later p.exp)) [
    | inl live ↦ ground (arith, decode-encode later p (ltb→lt _ _ live), parse-str id)
    | inr dead ↦ ground (arith, decode_expired later p (ground arith))
  ]
