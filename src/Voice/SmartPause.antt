-- ===== src/Voice/SmartPause.antt =====
-- backend/app/services/voice/smart_pause.py. Moments are milliseconds of the monotonic clock, which
-- every method reads once; the thresholds come from the environment (voice/tuning.py).
pub mod Polls
mod Tests
use interviewcraft.Prelude.{
  ℕ, ◌-◌, Bool, true, false, not, ◌&&◌, ltb, leb, if◌then◌else◌, nat_eq, string_eq,
}

pub data PauseAction : Type 0 where
  nothing soft_prompt re_engage : PauseAction

-- `PARTIAL_TIMEOUT_MS`, `SOFT_PROMPT_MS`, `RE_ENGAGE_MS`
pub record Thresholds : Type 0 where
  pub partial_timeout_ms : ℕ
  pub soft_prompt_ms : ℕ
  pub re_engage_ms : ℕ

-- The values that hold where the environment sets none.
abbrev pub default_thresholds : Thresholds
default_thresholds = record {
  partial_timeout_ms = 2000;
  soft_prompt_ms = 10_000;
  re_engage_ms = 18_000;
}

pub record SmartPause : Type 0 where
  pub last_partial_ts : ℕ
  pub last_final_ts : ℕ
  pub silence_start : ℕ
  pub soft_prompt_fired : Bool
  pub re_engage_fired : Bool
  pub active : Bool

-- `__init__`
unfoldable pub init : ℕ → SmartPause
init now = record {
  last_partial_ts = now;
  last_final_ts = now;
  silence_start = now;
  soft_prompt_fired = false;
  re_engage_fired = false;
  active = false;
}

unfoldable pub activate : ℕ → SmartPause → SmartPause
activate now p = record p {
  active = true;
  silence_start = now;
  soft_prompt_fired = false;
  re_engage_fired = false;
}

unfoldable pub deactivate : SmartPause → SmartPause
deactivate p = record p { active = false }

unfoldable pub on_partial : ℕ → SmartPause → SmartPause
on_partial now p = record p {
  last_partial_ts = now;
  soft_prompt_fired = false;
  re_engage_fired = false;
}

unfoldable pub on_final : ℕ → SmartPause → SmartPause
on_final now p = record p {
  last_final_ts = now;
  silence_start = now;
  soft_prompt_fired = false;
  re_engage_fired = false;
}

module _ (t : Thresholds) where
  unfoldable pub is_user_still_speaking : ℕ → SmartPause → Bool
  is_user_still_speaking now p = ltb (now - p.last_partial_ts) t.partial_timeout_ms

  unfoldable pub check : ℕ → SmartPause → PauseAction × SmartPause
  unfolding is_user_still_speaking
  check now p =
      let silence_ms = now - p.silence_start in
      if not p.active
      then (nothing, p)
      else if is_user_still_speaking now p
      then (nothing, p)
      else if leb t.re_engage_ms silence_ms && not p.re_engage_fired
      then (re_engage, record p { re_engage_fired = true })
      else if leb t.soft_prompt_ms silence_ms && not p.soft_prompt_fired
      then (soft_prompt, record p { soft_prompt_fired = true })
      else (nothing, p)
