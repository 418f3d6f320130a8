-- ===== src/Memory/SkillGraph/Signals.antt =====
-- Which signal each skill gets (memory/skill_graph.py, the three sources of
-- `update_from_scoring_result` and their precedence).
use interviewcraft.Prelude.{
  String, ◌≡◌, refl, sym, ap, ◌∙◌, subst, ◌≢◌, inl, inr, Bool, true, false, not, ◌&&◌, ◌||◌, Option,
  none, some, get_or, List, [], ◌∷◌, map, arith, if◌then◌else◌, Bool-cases, Option-cases, ◌==◌,
  nat_eq, string_eq, ==_refl, ==_ne, eq_discrete, contains, lookup, insert, has_key, lookup-insert,
  IsKeyed, insert-IsKeyed, Runtime,
}
use interviewcraft.Memory.Skills.{rule_skill_map}
use interviewcraft.Memory.SkillGraph.{
  Signals, RuleHit, SkillSignal, Scoring, rule_signals, hint_signal, hint_signals, base_signals,
  is_known, skill_signals_of, type_primary_skills, base_direction,
}

-- Every source keeps the keys of the dictionary distinct.
rule_signals-IsKeyed :
    (hits : List RuleHit) (ids : List String) (d : Signals)
    → IsKeyed d
    → IsKeyed (rule_signals hits ids d)
unfolding rule_signals
rule_signals-IsKeyed hits [] d k = k
rule_signals-IsKeyed hits (id ∷ ids) d k = elim (Option-cases (lookup id rule_skill_map)) [
  | inl e ↦ rw e (rule_signals-IsKeyed hits ids d k)
  | inr (s, e) ↦ rw e (rule_signals-IsKeyed hits ids _ (insert-IsKeyed s _ d k))
]

hint_signal-IsKeyed : (s : SkillSignal) (d : Signals) → IsKeyed d → IsKeyed (hint_signal s d)
unfolding hint_signal
hint_signal-IsKeyed s d k =
    elim (Bool-cases (
      is_known (get_or s.skill "")
      && (not (has_key (get_or s.skill "") d) || get_or s.direction "positive" == "positive"))) [
        | inl t ↦ rw t (insert-IsKeyed (get_or s.skill "") _ d k)
        | inr f ↦ rw f k
      ]

hint_signals-IsKeyed : (l : List SkillSignal) (d : Signals) → IsKeyed d → IsKeyed (hint_signals l d)
unfolding hint_signals
hint_signals-IsKeyed [] d k = k
hint_signals-IsKeyed (s ∷ r) d k = hint_signals-IsKeyed r _ (hint_signal-IsKeyed s d k)

base_signals-IsKeyed :
    (signal : String × String) (l : List String) (d : Signals)
    → IsKeyed d
    → IsKeyed (base_signals signal l d)
unfolding base_signals
base_signals-IsKeyed signal [] d k = k
base_signals-IsKeyed signal (s ∷ r) d k = elim (Bool-cases (has_key s d)) [
  | inl t ↦ rw t (base_signals-IsKeyed signal r d k)
  | inr f ↦ rw f (base_signals-IsKeyed signal r _ (insert-IsKeyed s signal d k))
]

pub skill_signals_of-IsKeyed : (rt : Runtime) (sc : Scoring) → IsKeyed (skill_signals_of rt sc)
unfolding skill_signals_of
skill_signals_of-IsKeyed rt sc =
    let ids = rt.set_order (map (λ r. RuleHit.rule r) sc.rules_triggered) in
    let rules = rule_signals sc.rules_triggered ids [] in
    let hints = hint_signals (get_or sc.skill_signals []) rules in
    let from_rules = rule_signals-IsKeyed sc.rules_triggered ids [] tt in
    base_signals-IsKeyed _ (get_or (lookup sc.question_type type_primary_skills) []) hints
      (hint_signals-IsKeyed (get_or sc.skill_signals []) rules from_rules)

-- The direction that a skill has in a dictionary of signals.
abbrev pub direction_in : String → Signals → Option String
direction_in skill d = elim (lookup skill d) [ none ↦ none | some x ↦ some (x.0) ]

-- The rule is mapped to the skill, and some rule of a list is.
pub maps_to : String → String → Bool
maps_to skill id = elim (lookup id rule_skill_map) [ none ↦ false | some s ↦ s == skill ]

pub is_weak : String → List String → Bool
is_weak skill [] = false
is_weak skill (id ∷ ids) = maps_to skill id || is_weak skill ids

-- A hint names the skill, one that the graph knows.
abbrev names : String → SkillSignal → Bool
names skill s = get_or s.skill "" == skill && is_known skill

abbrev is_positive : SkillSignal → Bool
is_positive s = get_or s.direction "positive" == "positive"

-- What the hints make of a direction: a positive hint wins, and the first hint fills a gap.
pub hinted : String → List SkillSignal → Option String → Option String
hinted skill [] o = o
hinted skill (s ∷ r) o = hinted skill r (
    if names skill s
    then (if is_positive s
        then some "positive"
        else elim o [ none ↦ some (get_or s.direction "positive") | some d ↦ some d ])
    else o)

-- The direction of a skill's signal, in the order of precedence: a positive hint, a triggered rule,
-- the first hint, and for the primary skills of the question's type the overall score.
pub expected_direction : Scoring → List String → String → Option String
expected_direction sc rule_ids skill =
    elim (hinted skill (get_or sc.skill_signals [])
      (if is_weak skill rule_ids then some "negative" else none)) [
        | some d ↦ some d
        | none ↦
            if contains skill (get_or (lookup sc.question_type type_primary_skills) [])
            then some (base_direction sc.overall_score)
            else none
      ]

direction_in-insert :
    (k j : String) (x : String × String) (d : Signals)
    → direction_in j (insert k x d) ≡ (if j == k then some (x.0) else direction_in j d)
direction_in-insert k j x d = ground (arith, lookup-insert k j x d)

has_key-direction_in :
    (k : String) (d : Signals)
    → has_key k d ≡ elim (direction_in k d) [ none ↦ false | some _ ↦ true ]
has_key-direction_in k [] = refl
has_key-direction_in k ((j, x) ∷ d) = ground (arith, has_key-direction_in k d)

rule_signals-direction :
    (skill : String) (hits : List RuleHit) (ids : List String) (d : Signals)
    → direction_in skill (rule_signals hits ids d)
      ≡ (if is_weak skill ids then some "negative" else direction_in skill d)
unfolding rule_signals is_weak maps_to
rule_signals-direction skill hits [] d = refl
rule_signals-direction skill hits (id ∷ ids) d = elim (Option-cases (lookup id rule_skill_map)) [
  | inl e ↦ rw (e, maps_to) (rule_signals-direction skill hits ids d)
  | inr (s, e) ↦
      rw (e, maps_to, rule_signals-direction skill hits ids _, direction_in-insert s skill _ d)
        (ground (arith, string_eq.same_iff s skill, string_eq.same_iff skill s))
]

base_signals-direction :
    (skill : String) (signal : String × String) (l : List String) (d : Signals)
    → direction_in skill (base_signals signal l d) ≡ elim (direction_in skill d) [
      | some x ↦ some x
      | none ↦ if contains skill l then some (signal.0) else none
    ]
unfolding base_signals
base_signals-direction skill signal [] d = ground arith
base_signals-direction skill signal (s ∷ r) d = elim (Bool-cases (has_key s d)) [
  | inl t ↦
      rw (t, base_signals-direction skill signal r d)
        (ground (arith, has_key-direction_in s d, string_eq.same_iff skill s))
  | inr f ↦
      rw (f, base_signals-direction skill signal r _, direction_in-insert s skill signal d)
        (ground (arith, has_key-direction_in s d, string_eq.same_iff skill s))
]

-- One hint about the skill itself.
hint_self :
    (known : Bool) (name direction note : String) (d : Signals)
    → direction_in name (
        if known && (not (has_key name d) || direction == "positive")
        then insert name (direction, note) d
        else d)
      ≡ (if known
          then (if direction == "positive"
              then some "positive"
              else elim (direction_in name d) [ none ↦ some direction | some x ↦ some x ])
          else direction_in name d)
hint_self false name direction note d = refl
hint_self true name direction note d = ground (
  arith,
  direction_in-insert name name (direction, note) d,
  has_key-direction_in name d,
  ==_refl name,
  string_eq.same_iff direction "positive",
)

-- One hint about another skill.
hint_other :
    (known : Bool) (name skill direction note : String) (d : Signals)
    → name ≢ skill
    → direction_in skill (
        if known && (not (has_key name d) || direction == "positive")
        then insert name (direction, note) d
        else d)
      ≡ direction_in skill d
hint_other known name skill direction note d ne =
    elim (Bool-cases (known && (not (has_key name d) || direction == "positive"))) [
      | inl t ↦ rw (
        t,
        direction_in-insert name skill (direction, note) d,
        ==_ne skill name (λ p. ne (sym p)),
      )
      | inr f ↦ rw f
    ]

hint_signal-direction :
    (skill : String) (s : SkillSignal) (d : Signals)
    → direction_in skill (hint_signal s d) ≡ hinted skill (s ∷ []) (direction_in skill d)
unfolding hint_signal hinted
hint_signal-direction skill s d =
    let name = get_or s.skill "" in
    elim (eq_discrete name skill) [
      | yes e ↦
          subst (λ x. direction_in x (hint_signal s d) ≡ hinted x (s ∷ []) (direction_in x d)) e
            (rw (==_refl (get_or s.skill ""))
              (hint_self (is_known (get_or s.skill "")) (get_or s.skill "") _ (get_or s.note "") d))
      | no ne ↦
          rw (==_ne name skill ne) (hint_other (is_known name) name skill _ (get_or s.note "") d ne)
    ]

hint_signals-direction :
    (skill : String) (l : List SkillSignal) (d : Signals)
    → direction_in skill (hint_signals l d) ≡ hinted skill l (direction_in skill d)
unfolding hint_signals hinted
hint_signals-direction skill [] d = refl
hint_signals-direction skill (s ∷ r) d =
    hint_signals-direction skill r (hint_signal s d)
    ∙ ap (hinted skill r) (hint_signal-direction skill s d)

-- The direction of every skill's signal is the expected one, for the rule identifiers in the order
-- in which the set is iterated.
pub direction_in-skill_signals_of :
    (rt : Runtime) (sc : Scoring) (skill : String)
    → direction_in skill (skill_signals_of rt sc)
      ≡ expected_direction sc (rt.set_order (map (λ r. RuleHit.rule r) sc.rules_triggered)) skill
unfolding skill_signals_of expected_direction
direction_in-skill_signals_of rt sc skill =
    let ids = rt.set_order (map (λ r. RuleHit.rule r) sc.rules_triggered) in
    let rules = rule_signals sc.rules_triggered ids [] in
    rw (
      base_signals-direction skill _ (get_or (lookup sc.question_type type_primary_skills) []) _,
      hint_signals-direction skill (get_or sc.skill_signals []) rules,
      rule_signals-direction skill sc.rules_triggered ids [],
    )

is_weak_at :
    (skill id : String) (ids : List String)
    → contains id ids ≡ true
    → maps_to skill id ≡ true
    → is_weak skill ids ≡ true
unfolding is_weak
is_weak_at skill id [] h m = cc
is_weak_at skill id (i ∷ ids) h m = ground (arith, string_eq.same_iff id i, is_weak_at skill id ids)

is_weak_mono :
    (skill : String) (xs ys : List String)
    → ((id : String) → contains id xs ≡ true → contains id ys ≡ true)
    → is_weak skill xs ≡ true
    → is_weak skill ys ≡ true
unfolding is_weak
is_weak_mono skill [] ys sub h = cc
is_weak_mono skill (x ∷ xs) ys sub h = elim (Bool-cases (maps_to skill x)) [
  | inl t ↦ is_weak_at skill x ys (sub x (rw (==_refl x))) t
  | inr f ↦ is_weak_mono skill xs ys (λ id m. sub id (ground arith)) (rw f at h)
]

-- Only the members of the list of rules count.
pub expected_direction_congr :
    (sc : Scoring) (skill : String) (xs ys : List String)
    → ((id : String) → contains id xs ≡ contains id ys)
    → expected_direction sc xs skill ≡ expected_direction sc ys skill
unfolding expected_direction
expected_direction_congr sc skill xs ys same =
    let there = is_weak_mono skill xs ys (λ id m. sym (same id) ∙ m) in
    let back = is_weak_mono skill ys xs (λ id m. same id ∙ m) in
    let e : is_weak skill xs ≡ is_weak skill ys = ground (arith, there, back) in
    rw (e, expected_direction)
