-- ===== src/Voice/Debounce/Listens.antt =====
-- The debounce loop ends once the candidate is silent.
use interviewcraft.Prelude.{
  ℕ, ◌+◌, ◌-◌, ◌≤◌, String, ◌≡◌, refl, ◌⊎◌, inl, inr, Bool, true, false, none, some, List, [], ◌∷◌,
  ◌++◌, arith, ltb, leb, Bool-cases, All, nat_eq, string_eq,
}
use interviewcraft.Voice.SmartPause.{SmartPause, Thresholds, is_user_still_speaking}
use interviewcraft.Voice.Debounce.{
  Words, timeout, Pass, Debounce, Outcome, more, done, commit_extra_ms, quiet, after_wait, pass,
  debounce, hard_cap_ms, commit_long_ms,
}

unfoldable pub is_done : Outcome → Bool
is_done (more d) = false
is_done (done reason time d) = true

-- A pass whose wait times out while the candidate makes no sound.
abbrev pub IsSilence : Thresholds → Pass → Type 0
IsSilence t p =
    (pause : SmartPause) × (p.wait ≡ timeout pause) × (is_user_still_speaking t p.now pause ≡ false)

done-is_done :
    (ws : Words) (t : Thresholds) (ps : List Pass) (o : Outcome)
    → is_done o ≡ true
    → is_done (debounce ws t ps o) ≡ true
unfolding debounce is_done
done-is_done ws t [] o h = h
done-is_done ws t (p ∷ ps) (more d) h = absurd cc
done-is_done ws t (p ∷ ps) (done reason time d) h = refl

pass_silence :
    (ws : Words) (t : Thresholds) (p : Pass) (d : Debounce)
    → IsSilence t p
    → (is_done (pass ws t p d) ≡ true) ⊎ (pass ws t p d ≡ quiet ws p.now d.quiet_since d)
unfolding pass is_done after_wait
pass_silence ws t p d (pause, e, n) =
    elim (Bool-cases (ltb hard_cap_ms (p.head - d.last_activity))) [
      | inl y ↦ inl (rw y refl)
      | inr m ↦ inr (rw (m, e, n) refl)
    ]

le-leb : (a b : ℕ) → a ≤ b → leb a b ≡ true
le-leb a b h = ground arith

extra_long : (ws : Words) (text : String) → commit_extra_ms ws text ≤ commit_long_ms
unfolding commit_extra_ms
extra_long ws text = ground arith

-- A silence already counted from `since` ends the loop 1.5 seconds later, or before.
counted-is_done :
    (ws : Words) (t : Thresholds) (since : ℕ) (ps : List Pass) (last : Pass) (d : Debounce)
    → d.quiet_since ≡ some since
    → All (IsSilence t) (ps ++ (last ∷ []))
    → since + commit_long_ms ≤ last.now
    → is_done (debounce ws t (ps ++ (last ∷ [])) (more d)) ≡ true
unfolding debounce quiet is_done
counted-is_done ws t since [] last d q (s, u) late = elim (pass_silence ws t last d s) [
  | inl ends ↦ ends
  | inr e ↦
      let long = extra_long ws d.accumulated_text in
      rw (e, q, le-leb (commit_extra_ms ws d.accumulated_text) (last.now - since) (omega arith))
        refl
]
counted-is_done ws t since (p ∷ ps) last d q (s, u) late = elim (pass_silence ws t p d s) [
  | inl ends ↦ done-is_done ws t (ps ++ (last ∷ [])) (pass ws t p d) ends
  | inr e ↦ elim (Bool-cases (leb (commit_extra_ms ws d.accumulated_text) (p.now - since))) [
    | inl y ↦ done-is_done ws t (ps ++ (last ∷ [])) (pass ws t p d) (rw (e, q, y) refl)
    | inr n ↦
        rw (debounce, e, q, n)
          (counted-is_done ws t since ps last (record d { quiet_since = some since }) refl u late)
  ]
]

-- After any sound of the candidate, 1.5 seconds in which every wait times out in silence end the loop,
-- however the polls fall in them.
pub silence-is_done :
    (ws : Words) (t : Thresholds) (first : Pass) (ps : List Pass) (last : Pass) (d : Debounce)
    → d.quiet_since ≡ none
    → All (IsSilence t) (first ∷ (ps ++ (last ∷ [])))
    → first.now + commit_long_ms ≤ last.now
    → is_done (debounce ws t (first ∷ (ps ++ (last ∷ []))) (more d)) ≡ true
unfolding debounce quiet is_done
silence-is_done ws t first ps last d q (s, u) late = elim (pass_silence ws t first d s) [
  | inl ends ↦ done-is_done ws t (ps ++ (last ∷ [])) (pass ws t first d) ends
  | inr e ↦
      rw (debounce, e, q)
        (counted-is_done ws t first.now ps last (record d { quiet_since = some first.now }) refl u
          late)
]
