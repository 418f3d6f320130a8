-- ===== src/Voice/Debounce/Commits.antt =====
-- When the debounce loop commits an answer, and what it commits.
use interviewcraft.Prelude.{
  ℕ, ◌+◌, ◌-◌, ◌≤◌, ◌<◌, String, ◌≡◌, refl, sym, ap, subst, inl, inr, Bool, true, false, Option,
  none, some, List, [], ◌∷◌, ◌++◌, arith, ltb, leb, if◌then◌else◌, ltb→lt, leb→le, Bool-cases,
  nat_eq, string_eq, concat,
}
use interviewcraft.Voice.SmartPause.{Thresholds, is_user_still_speaking}
use interviewcraft.Voice.Debounce.{
  TranscriptChunk, Words, Wait, timeout, closed, next_chunk, Pass, Reason, stalled, silent, ended,
  Debounce, Outcome, more, done, is_confident, started, commit_extra_ms, quiet, heard, after_wait,
  pass, debounce, hard_cap_ms,
}

-- Whether a pass ends in a sound of the candidate's.
unfoldable pub is_sound : Thresholds → ℕ → Wait → Bool
is_sound t now (timeout pause) = is_user_still_speaking t now pause
is_sound t now closed = false
is_sound t now (next_chunk chunk) = true

-- When the candidate was last heard, of someone first heard at `at`.
unfoldable pub last_sound : Thresholds → ℕ → List Pass → ℕ
last_sound t at [] = at
last_sound t at (p ∷ rest) = last_sound t (if is_sound t p.now p.wait then p.now else at) rest

-- The texts of the confident chunks, joined.
unfoldable pub said_with : Words → String → Wait → String
said_with ws text (timeout pause) = text
said_with ws text closed = text
said_with ws text (next_chunk chunk) =
    if is_confident chunk then ws.strip (concat (text ∷ " " ∷ chunk.text ∷ [])) else text

unfoldable pub said : Words → String → List Pass → String
said ws text [] = text
said ws text (p ∷ rest) = said ws (said_with ws text p.wait) rest

unfoldable last_now : ℕ → List Pass → ℕ
last_now from [] = from
last_now from (p ∷ rest) = last_now p.now rest

-- The clock does not run backwards.
abbrev pub IsOrdered : ℕ → List Pass → Type 0
IsOrdered from [] = Unit
IsOrdered from (p ∷ rest) = (from ≤ p.head) × (p.head ≤ p.now) × IsOrdered p.now rest

-- The time silence is counted from is at or after the last sound.
abbrev pub IsQuietSince : ℕ → Option ℕ → Type 0
IsQuietSince activity none = Unit
IsQuietSince activity (some since) = activity ≤ since

-- The variables of the loop while it goes on.
abbrev IsTracked : ℕ → String → ℕ → Debounce → Type 0
IsTracked at text now d =
    (d.last_activity ≡ at)
    × (d.accumulated_text ≡ text)
    × IsQuietSince at d.quiet_since
    × (at ≤ now)

abbrev Tracks : ℕ → String → ℕ → Outcome → Type 0
Tracks at text now (more d) = IsTracked at text now d
Tracks at text now (done reason time d) = Unit

-- An outcome commits the text, and has waited since the last sound for as long as its reason says.
abbrev pub IsCommit : Words → ℕ → String → Outcome → Type 0
IsCommit ws at text (more d) = Unit
IsCommit ws at text (done silent time d) =
    (at + commit_extra_ms ws text ≤ time) × (d.accumulated_text ≡ text)
IsCommit ws at text (done stalled time d) = (at + hard_cap_ms < time) × (d.accumulated_text ≡ text)
IsCommit ws at text (done ended time d) = d.accumulated_text ≡ text

quiet-Tracks :
    (ws : Words) (at : ℕ) (text : String) (now : ℕ) (q : Option ℕ) (d : Debounce)
    → IsTracked at text now d
    → d.quiet_since ≡ q
    → Tracks at text now (quiet ws now q d) × IsCommit ws at text (quiet ws now q d)
unfolding quiet
quiet-Tracks ws at text now none d (e, r, s, le) eq = ((e, r, le, le), tt)
quiet-Tracks ws at text now (some since) d (e, r, s, le) eq =
    let sound : at ≤ since = subst (IsQuietSince at) eq s in
    elim (Bool-cases (leb (commit_extra_ms ws d.accumulated_text) (now - since))) [
      | inl y ↦
          let waited = subst (λ x. commit_extra_ms ws x ≤ now - since) r (leb→le _ _ y) in
          rw y (tt, (omega (arith, sound, waited, le), r))
      | inr n ↦ rw n ((e, r, s, le), tt)
    ]

after_wait-Tracks :
    (ws : Words) (t : Thresholds) (at : ℕ) (text : String) (now : ℕ) (w : Wait) (d : Debounce)
    → IsTracked at text now d
    → Tracks
        (if is_sound t now w then now else at)
        (said_with ws text w)
        now
        (after_wait ws t now w d)
      × IsCommit ws at text (after_wait ws t now w d)
unfolding after_wait is_sound said_with heard
after_wait-Tracks ws t at text now (timeout pause) d tracked =
    elim (Bool-cases (is_user_still_speaking t now pause)) [
      | inl y ↦ rw y ((refl, tracked.1, tt, omega arith), tt)
      | inr n ↦ rw n (quiet-Tracks ws at text now d.quiet_since d tracked refl)
    ]
after_wait-Tracks ws t at text now closed d tracked = (tt, tracked.1)
after_wait-Tracks ws t at text now (next_chunk chunk) d tracked =
    elim (Bool-cases (is_confident chunk)) [
      | inl y ↦ rw y (
        (refl, ap (λ x. ws.strip (concat (x ∷ " " ∷ chunk.text ∷ []))) tracked.1, tt, omega arith),
        tt,
      )
      | inr n ↦ rw n ((refl, tracked.1, tt, omega arith), tt)
    ]

pass-Tracks :
    (ws : Words) (t : Thresholds) (at : ℕ) (text : String) (from : ℕ) (p : Pass) (d : Debounce)
    → IsOrdered from (p ∷ [])
    → IsTracked at text from d
    → Tracks
        (if is_sound t p.now p.wait then p.now else at)
        (said_with ws text p.wait)
        p.now
        (pass ws t p d)
      × IsCommit ws at text (pass ws t p d)
unfolding pass
pass-Tracks ws t at text from p d (le1, le2, o) tracked =
    elim (Bool-cases (ltb hard_cap_ms (p.head - d.last_activity))) [
      | inl y ↦ rw y (tt, (omega (arith, tracked.0, ltb→lt _ _ y), tracked.1))
      | inr n ↦ rw n (
          after_wait-Tracks ws t at text p.now p.wait d
            (tracked.0, tracked.1, tracked.2, omega (arith, le1, le2, tracked.3)))
    ]

debounce-done :
    (ws : Words) (t : Thresholds) (ps : List Pass) (reason : Reason) (time : ℕ) (d : Debounce)
    → debounce ws t ps (done reason time d) ≡ done reason time d
unfolding debounce
debounce-done ws t [] reason time d = refl
debounce-done ws t (p ∷ ps) reason time d = refl

pub debounce-append :
    (ws : Words) (t : Thresholds) (ps qs : List Pass) (o : Outcome)
    → debounce ws t (ps ++ qs) o ≡ debounce ws t qs (debounce ws t ps o)
unfolding debounce
debounce-append ws t [] qs o = refl
debounce-append ws t (p ∷ ps) qs (more d) = debounce-append ws t ps qs (pass ws t p d)
debounce-append ws t (p ∷ ps) qs (done reason time d) = sym (debounce-done ws t qs reason time d)

IsOrdered-split :
    (from : ℕ) (ps : List Pass) (p : Pass)
    → IsOrdered from (ps ++ (p ∷ []))
    → IsOrdered from ps × IsOrdered (last_now from ps) (p ∷ [])
unfolding last_now
IsOrdered-split from [] p o = (tt, o)
IsOrdered-split from (q ∷ ps) p (le1, le2, o) =
    let (front, back) = IsOrdered-split q.now ps p o in ((le1, le2, front), back)

debounce-Tracks :
    (ws : Words) (t : Thresholds) (at : ℕ) (text : String) (from : ℕ) (ps : List Pass) (o : Outcome)
    (d : Debounce)
    → IsOrdered from ps
    → Tracks at text from o
    → debounce ws t ps o ≡ more d
    → IsTracked (last_sound t at ps) (said ws text ps) (last_now from ps) d
unfolding debounce last_sound said last_now
debounce-Tracks ws t at text from [] o d order tracked e = subst (Tracks at text from) e tracked
debounce-Tracks ws t at text from (p ∷ ps) (more d0) d (le1, le2, order) tracked e =
    debounce-Tracks ws t (if is_sound t p.now p.wait then p.now else at) (said_with ws text p.wait)
      p.now ps (pass ws t p d0) d order
      (pass-Tracks ws t at text from p d0 (le1, le2, tt) tracked).0 e
debounce-Tracks ws t at text from (p ∷ ps) (done reason time d0) d order tracked e = absurd cc

-- With a clock that does not run backwards, an answer is committed with every confident chunk of
-- it, by silence only 0.5 s after the candidate's last sound (1.5 s with ten words or more), and by
-- a stall only after more than 30 s without a sound.
pub debounce-IsCommit :
    (ws : Words) (t : Thresholds) (first : TranscriptChunk) (at : ℕ) (ps : List Pass) (p : Pass)
    (d : Debounce)
    → IsOrdered at (ps ++ (p ∷ []))
    → debounce ws t ps (more (started first at)) ≡ more d
    → IsCommit ws
        (last_sound t at ps)
        (said ws first.text ps)
        (debounce ws t (ps ++ (p ∷ [])) (more (started first at)))
unfolding debounce started
debounce-IsCommit ws t first at ps p d order e =
    let (front, back) = IsOrdered-split at ps p order in
    let tracked =
      debounce-Tracks ws t at first.text at ps (more (started first at)) d front
        (refl, refl, tt, omega arith) e in
    rw (debounce-append ws t ps (p ∷ []) (more (started first at)), e)
      (pass-Tracks ws t (last_sound t at ps) (said ws first.text ps) (last_now at ps) p d back
        tracked).1
