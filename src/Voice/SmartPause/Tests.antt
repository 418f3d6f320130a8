-- ===== src/Voice/SmartPause/Tests.antt =====
-- Runs of the pause detector, and its theorems at concrete calls.
use interviewcraft.Prelude.{◌≡◌, refl, true, false, List, [], ◌∷◌, nat_eq, string_eq}
use interviewcraft.Voice.SmartPause.{SmartPause, init, activate, check, default_thresholds}
use interviewcraft.Voice.SmartPause.Polls.{
  step, Call, activated, polled, re_engagements, soft_prompts,
}

-- Ten seconds of silence, then eighteen; polls in between give nothing.
abbrev calls : List Call
calls =
    activated 0 ∷ polled 9500 ∷ polled 10_000 ∷ polled 10_500 ∷ polled 18_000 ∷ polled 18_500 ∷ []

calls_prompt :
    (re_engagements default_thresholds calls (init 0) ≡ 1)
    × (soft_prompts default_thresholds calls (init 0) ≡ 1)
unfolding re_engagements soft_prompts step check activate init
calls_prompt = (refl, refl)

-- Listening since 0, partials until 17 seconds, no final.
abbrev talker : SmartPause
talker = record {
  last_partial_ts = 17_000;
  last_final_ts = 0;
  silence_start = 0;
  soft_prompt_fired = false;
  re_engage_fired = false;
  active = true;
}
