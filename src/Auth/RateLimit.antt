-- ===== src/Auth/RateLimit.antt =====
-- `auth_rate_limit` of backend/app/middleware/rate_limit.py, which runs before the handlers of
-- authentication. Redis is a parameter; `get_redis`, which only makes the client, is taken to return.
use interviewcraft.Prelude.{
  ℕ, ◌+◌, ◌≤◌, min, String, ◌≡◌, refl, Bool, true, false, Option, none, some, get_or, List, [], ◌∷◌,
  arith, ltb, ◌==ℕ◌, if◌then◌else◌, length, All, nat_eq, string_eq, concat,
}
use interviewcraft.Auth.Users.{Http, ok, raised}

-- A stored counter and the moment at which it expires, if it has one.
pub record Counter : Type 0 where
  pub value : ℕ
  pub deadline : Option ℕ

-- `INCR` (`none` is an exception) and `EXPIRE` (`false` is an exception) at a moment, and what is
-- stored under a key.
pub record Redis : Type 1 where
  pub State : Type 0
  pub incr : ℕ → String → State → Option ℕ × State
  pub expire : ℕ → String → ℕ → State → Bool × State
  pub entry : String → State → Option Counter

-- A deadline that has not passed, and the counter that is still there at a moment.
abbrev pub is_before : ℕ → Option ℕ → Bool
is_before now none = true
is_before now (some d) = ltb now d

unfoldable pub live : ℕ → Option Counter → Option Counter
live now none = none
live now (some c) = if is_before now c.deadline then some c else none

-- `INCR` starts a missing key at 1 without a deadline and keeps the deadline of one that is there;
-- `EXPIRE` sets the deadline; a command that fails leaves the key.
unfoldable pub incremented : Option Counter → Counter
incremented none = record { value = 1; deadline = none }
incremented (some c) = record c { value = c.value + 1 }

pub record IsRedis (redis : Redis) : Type 0 where
  pub incr_done :
      (now : ℕ) (key : String) (s : redis.State)
      → redis.incr now key s ≡ (
        some (Counter.value (incremented (live now (redis.entry key s)))),
        (redis.incr now key s).1,
      )
  pub incr_entry :
      (now : ℕ) (key : String) (s : redis.State)
      → redis.entry key (redis.incr now key s).1 ≡ some (incremented (live now (redis.entry key s)))
  pub expire_entry :
      (now : ℕ) (key : String) (seconds : ℕ) (s : redis.State) (c : Counter)
      → redis.entry key s ≡ some c
      → redis.entry key (redis.expire now key seconds s).1
        ≡ some (
            if (redis.expire now key seconds s).0
            then record c { deadline = some (now + seconds) }
            else c)

-- `settings.rate_limit_auth_requests` and `settings.rate_limit_auth_window_seconds`
abbrev pub rate_limit_auth_requests : ℕ
rate_limit_auth_requests = 5

abbrev pub rate_limit_auth_window_seconds : ℕ
rate_limit_auth_window_seconds = 60

unfoldable pub rate_limit_key : Option String → String
rate_limit_key host = concat ("rate_limit:auth:" ∷ get_or host "unknown" ∷ [])

-- The answer to a count: the handler runs, or the request is refused.
unfoldable pub judge : ℕ → Http Bool
judge count =
    if ltb rate_limit_auth_requests count
    then raised 429 "Too many requests. Please wait before trying again."
    else ok true

-- A failing command lets the request through: the limiter fails open.
unfoldable pub auth_rate_limit :
    (redis : Redis) → ℕ → Option String → redis.State → Http Bool × redis.State
auth_rate_limit redis now host s =
    let (counted, after) = redis.incr now (rate_limit_key host) s in
    elim counted [
      | none ↦ (ok true, after)
      | some count ↦
          let (set, timed) =
            redis.expire now (rate_limit_key host) rate_limit_auth_window_seconds after in
          if count ==ℕ 1
          then (if set then judge count else ok true, timed)
          else (judge count, after)
    ]

abbrev is_ok : Http Bool → ℕ
is_ok (ok _) = 1
is_ok (raised _ _) = 0

-- How many of the requests of one host at these moments are let through.
pub passed : (redis : Redis) → Option String → List ℕ → redis.State → ℕ
passed redis host [] s = 0
passed redis host (now ∷ rest) s =
    let (answer, after) = auth_rate_limit redis now host s in
    is_ok answer + passed redis host rest after

All-refl : (ws : List ℕ) → All (λ w. true ≡ true) ws
All-refl [] = tt
All-refl (w ∷ ws) = (refl, All-refl ws)

module _ (redis : Redis) (doc : IsRedis redis) (host : Option String) where
  open doc use {incr_done, incr_entry, expire_entry}

  -- The first request of a window.
  first_request :
      (now : ℕ) (s : redis.State)
      → live now (redis.entry (rate_limit_key host) s) ≡ none
      → (is_ok (auth_rate_limit redis now host s).0 ≡ 1)
        × (redis.entry (rate_limit_key host) (auth_rate_limit redis now host s).1
            ≡ some (record {
              value = 1;
              deadline =
                  if (redis.expire now
                    (rate_limit_key host)
                    60
                    (redis.incr now (rate_limit_key host) s).1).0
                  then some (now + 60)
                  else none;
            }))
  unfolding auth_rate_limit judge incremented
  first_request now s h =
      let key = rate_limit_key host in
      let fresh : Counter = record { value = 1; deadline = none } in
      ground (
        arith,
        incr_done now key s,
        incr_entry now key s,
        expire_entry now key 60 (redis.incr now key s).1 fresh,
      )

  -- A later request of it.
  next_request :
      (now value : ℕ) (deadline : Option ℕ) (s : redis.State)
      → redis.entry (rate_limit_key host) s ≡ some (record { value = value; deadline = deadline })
      → is_before now deadline ≡ true
      → 1 ≤ value
      → (is_ok (auth_rate_limit redis now host s).0 ≡ (if ltb value 5 then 1 else 0))
        × (redis.entry (rate_limit_key host) (auth_rate_limit redis now host s).1
            ≡ some (record { value = value + 1; deadline = deadline }))
  unfolding auth_rate_limit judge incremented live
  next_request now value deadline s h l one =
      let key = rate_limit_key host in ground (arith, incr_done now key s, incr_entry now key s)

  later_requests :
      (ws : List ℕ) (value : ℕ) (deadline : Option ℕ) (s : redis.State)
      → redis.entry (rate_limit_key host) s ≡ some (record { value = value; deadline = deadline })
      → All (λ w. is_before w deadline ≡ true) ws
      → 1 ≤ value
      → passed redis host ws s + min 5 value ≡ min 5 (value + length ws)
  unfolding passed
  later_requests [] value deadline s h l one = omega arith
  later_requests (w ∷ ws) value deadline s h l one =
      let (answer, kept) = next_request w value deadline s h l.0 one in
      let rest =
        later_requests ws (value + 1) deadline (auth_rate_limit redis w host s).1 kept l.1
          (omega arith) in
      ground (arith, answer, rest)

  -- From a key that is missing or has expired, of the requests of one host within 60 seconds of its
  -- first one the first five are let through and no other, where Redis works.
  pub passed_window :
      (now : ℕ) (ws : List ℕ) (s : redis.State)
      → live now (redis.entry (rate_limit_key host) s) ≡ none
      → (redis.expire now (rate_limit_key host) 60 (redis.incr now (rate_limit_key host) s).1).0
        ≡ true
      → All (λ w. ltb w (now + 60) ≡ true) ws
      → passed redis host (now ∷ ws) s ≡ min 5 (1 + length ws)
  unfolding passed
  passed_window now ws s gone set within =
      let (answer, kept) = first_request now s gone in
      let rest =
        later_requests ws 1 (some (now + 60)) (auth_rate_limit redis now host s).1 (rw set at kept)
          within (omega arith) in
      ground (arith, answer, rest)

  -- If `EXPIRE` fails for the first request of a window, five requests are let through and no later
  -- one, at whatever moment it comes: the counter never expires.
  pub passed_no_expiry :
      (now : ℕ) (ws : List ℕ) (s : redis.State)
      → live now (redis.entry (rate_limit_key host) s) ≡ none
      → (redis.expire now (rate_limit_key host) 60 (redis.incr now (rate_limit_key host) s).1).0
        ≡ false
      → passed redis host (now ∷ ws) s ≡ min 5 (1 + length ws)
  unfolding passed
  passed_no_expiry now ws s gone failed =
      let (answer, kept) = first_request now s gone in
      let rest =
        later_requests ws 1 none (auth_rate_limit redis now host s).1 (rw failed at kept)
          (All-refl ws) (omega arith) in
      ground (arith, answer, rest)
