-- ===== src/Voice/SmartPause/Polls.antt =====
-- What a client of `SmartPause` (voice/smart_pause.py) sees over any sequence of calls.
use interviewcraft.Prelude.{
  ℕ, ◌+◌, ◌-◌, ◌≤◌, ◌≡◌, ◌≢◌, Bool, true, false, List, [], ◌∷◌, arith, nat_eq, string_eq,
}
use interviewcraft.Voice.SmartPause.{
  PauseAction, nothing, soft_prompt, re_engage, Thresholds, SmartPause, init, activate, deactivate,
  on_partial, on_final, is_user_still_speaking, check,
}

-- A prompt is given only while detection is active, with no partial in the last
-- `partial_timeout_ms`, and after its full silence since the last final or activation; the re-engage
-- prompt has then not been given since the last reset, and is marked as given; likewise the soft one.
pub check_prompt :
    (t : Thresholds) (now : ℕ) (p : SmartPause)
    → let (action, q) = check t now p in
      (action ≡ nothing → q ≡ p)
      × (action ≢ nothing → (p.active ≡ true) × (is_user_still_speaking t now p ≡ false))
      × (action ≡ re_engage
          → (t.re_engage_ms ≤ now - p.silence_start)
            × (p.re_engage_fired ≡ false)
            × (q ≡ record p { re_engage_fired = true }))
      × (action ≡ soft_prompt
          → (t.soft_prompt_ms ≤ now - p.silence_start)
            × (p.soft_prompt_fired ≡ false)
            × (q ≡ record p { soft_prompt_fired = true }))
unfolding check
check_prompt t now p = ground arith

-- The calls of the voice pipeline.
pub data Call : Type 0 where
  activated partial final polled : ℕ → Call
  deactivated : Call

unfoldable pub step : Thresholds → Call → SmartPause → PauseAction × SmartPause
step t (activated now) p = (nothing, activate now p)
step t (partial now) p = (nothing, on_partial now p)
step t (final now) p = (nothing, on_final now p)
step t (polled now) p = check t now p
step t deactivated p = (nothing, deactivate p)

-- How often a prompt is given in a sequence of calls.
abbrev is_re_engage : PauseAction → ℕ
is_re_engage re_engage = 1
is_re_engage _ = 0

abbrev is_soft : PauseAction → ℕ
is_soft soft_prompt = 1
is_soft _ = 0

unfoldable pub re_engagements : Thresholds → List Call → SmartPause → ℕ
re_engagements t [] p = 0
re_engagements t (c ∷ cs) p =
    let (action, q) = step t c p in is_re_engage action + re_engagements t cs q

unfoldable pub soft_prompts : Thresholds → List Call → SmartPause → ℕ
soft_prompts t [] p = 0
soft_prompts t (c ∷ cs) p = let (action, q) = step t c p in is_soft action + soft_prompts t cs q

-- The calls that allow each prompt to be given once more.
abbrev is_reset : Call → ℕ
is_reset (polled now) = 0
is_reset deactivated = 0
is_reset _ = 1

pub resets : List Call → ℕ
resets [] = 0
resets (c ∷ cs) = is_reset c + resets cs

abbrev unfired : Bool → ℕ
unfired true = 0
unfired false = 1

step_spends :
    (t : Thresholds) (c : Call) (p : SmartPause)
    → let (action, q) = step t c p in
      (is_re_engage action + unfired q.re_engage_fired ≤ unfired p.re_engage_fired + is_reset c)
      × (is_soft action + unfired q.soft_prompt_fired ≤ unfired p.soft_prompt_fired + is_reset c)
unfolding step activate on_partial on_final deactivate check
step_spends t (activated now) p = ground arith
step_spends t _ p = ground arith

prompts_from :
    (t : Thresholds) (cs : List Call) (p : SmartPause)
    → (re_engagements t cs p ≤ unfired p.re_engage_fired + resets cs)
      × (soft_prompts t cs p ≤ unfired p.soft_prompt_fired + resets cs)
unfolding re_engagements soft_prompts resets
prompts_from t [] p = omega arith
prompts_from t (c ∷ cs) p =
    let (spent_r, spent_s) = step_spends t c p in
    let (r, s) = prompts_from t cs (step t c p).1 in
    (omega (arith, spent_r, r), omega (arith, spent_s, s))

-- In any sequence of calls on a fresh detector each of the two prompts is given at most once more
-- than there are activations, partials and finals.
pub prompts_bounded :
    (t : Thresholds) (cs : List Call) (now : ℕ)
    → (re_engagements t cs (init now) ≤ 1 + resets cs)
      × (soft_prompts t cs (init now) ≤ 1 + resets cs)
prompts_bounded t cs now = unfold init in prompts_from t cs (init now)

-- Speech that produces partials and no final does not move the start of the silence: at the first
-- poll after it the re-engage prompt may come first, and the next poll then gives the soft prompt.
pub re_engage_before_soft :
    (t : Thresholds) (now later : ℕ) (p : SmartPause)
    → p.active ≡ true
    → p.soft_prompt_fired ≡ false
    → p.re_engage_fired ≡ false
    → p.last_partial_ts + t.partial_timeout_ms ≤ now
    → p.silence_start + t.re_engage_ms ≤ now
    → t.soft_prompt_ms ≤ t.re_engage_ms
    → now ≤ later
    → ((check t now p).0 ≡ re_engage) × ((check t later (check t now p).1).0 ≡ soft_prompt)
unfolding check
re_engage_before_soft t now later p a s r quiet silent order le = ground arith
