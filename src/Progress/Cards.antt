-- ===== src/Progress/Cards.antt =====
-- How long a shared card can be read, and by whom.
use interviewcraft.Prelude.{
  ℕ, ◌+◌, String, ◌≡◌, refl, ap, ◌∙◌, ◌≢◌, inl, inr, Bool, false, none, some, List, [], ◌∷◌, ◌++◌,
  arith, ltb, if◌then◌else◌, Bool-cases, find?, ◌==◌, nat_eq, string_eq, ==_refl,
}
use interviewcraft.Auth.Users.{ok, raised}
use interviewcraft.Memory.Skills.{SkillGraphNode}
use interviewcraft.Memory.DrillPlanner.{Floats}
use interviewcraft.Interviews.{InterviewSession}
use interviewcraft.Progress.{
  shown_card, Forms, ShareCard, snapshot_of, completed_count, new_card, public_card,
  create_share_card, get_share_card,
}

module _ (fl : Floats) where
  abbrev pub has_token : String → ShareCard fl → Bool
  has_token token c = c.token == token

  found-append_one :
      (token : String) (cards : List (ShareCard fl)) (c : ShareCard fl)
      → find? (has_token token) cards ≡ none
      → find? (has_token token) (cards ++ (c ∷ [])) ≡ (if c.token == token then some c else none)
  found-append_one token [] c e = refl
  found-append_one token (x ∷ cards) c e = elim (Bool-cases (x.token == token)) [
    | inl y ↦ let no : some x ≡ none = rw y at e in absurd cc
    | inr n ↦
        let e' : find? (has_token token) cards ≡ none = rw n at e in
        rw n (found-append_one token cards c e')
  ]

  other-append_one :
      (token : String) (cards : List (ShareCard fl)) (c : ShareCard fl)
      → (c.token == token) ≡ false
      → find? (has_token token) (cards ++ (c ∷ [])) ≡ find? (has_token token) cards
  other-append_one token [] c e = rw e refl
  other-append_one token (x ∷ cards) c e = elim (Bool-cases (x.token == token)) [
    | inl y ↦ rw y refl
    | inr n ↦ rw n (other-append_one token cards c e)
  ]

  module _ (fm : Forms fl) where
    -- A card made under a token that no card has is read under it by anyone, with the snapshot of the moment it
    -- was made, for 30 days and no longer; every other token gives what it gave before.
    pub get-create_share_card :
        (now later user_id : ℕ) (token other : String) (n : SkillGraphNode)
        (nodes : List SkillGraphNode) (sessions : List InterviewSession)
        (cards : List (ShareCard fl))
        → find? (has_token token) cards ≡ none
        → other ≢ token
        → let snapshot = snapshot_of fl fm now (n ∷ nodes) (completed_count user_id sessions) in
          let after = (create_share_card fl fm now token user_id (n ∷ nodes) sessions cards).1 in
          (get_share_card fl fm later token after ≡ (
            if ltb (now + 2_592_000) later
            then raised 404 "Card has expired."
            else ok (public_card fl fm (new_card fl fm now token user_id snapshot))))
          × (get_share_card fl fm later other after ≡ get_share_card fl fm later other cards)
    unfolding create_share_card get_share_card shown_card
    get-create_share_card now later user_id token other n nodes sessions cards fresh ne =
        let snapshot = snapshot_of fl fm now (n ∷ nodes) (completed_count user_id sessions) in
        let c = new_card fl fm now token user_id snapshot in
        (
          ap (λ o. shown_card fl fm later o) (found-append_one token cards c fresh)
              ∙ rw (==_refl token) refl,
          ap (λ o. shown_card fl fm later o)
              (other-append_one other cards c (ground (arith, string_eq.same_iff token other))),
        )
