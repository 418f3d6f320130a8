-- ===== src/Memory/SkillGraph/Table.antt =====
-- What `update_from_scoring_result` (memory/skill_graph.py) does to the table, row by row.
use interviewcraft.Prelude.{
  ℕ, String, ◌≡◌, refl, sym, ◌∙◌, ◌≢◌, inl, inr, true, false, ◌&&◌, Option, none, some, get_or,
  List, [], ◌∷◌, ◌++◌, arith, ◌==ℕ◌, if◌then◌else◌, Bool-cases, Option-cases, find?, All,
  All-append, All-find?, ◌==◌, nat_eq, string_eq, ==_refl, ==_ne, eq_discrete, lookup,
  lookup-has_key, IsKeyed, Runtime,
}
use interviewcraft.Memory.Skills.{SkillGraphNode}
use interviewcraft.Memory.SkillGraph.Rows.{IsValid, new_node-IsValid, updated_node-IsValid}
use interviewcraft.Memory.SkillGraph.{
  Signals, updated_node, apply_signals, Scoring, get_or_create_node, is_row, new_node, save,
}

pub row : ℕ → String → List SkillGraphNode → Option SkillGraphNode
row u s table = find? (is_row u s) table

-- The row of a user and a skill, or the fresh one that stands for it.
pub row_or_new : ℕ → String → List SkillGraphNode → SkillGraphNode
row_or_new u s table = get_or (row u s table) (new_node u s)

row-append :
    (u : ℕ) (s : String) (table : List SkillGraphNode) (n : SkillGraphNode)
    → row u s (table ++ (n ∷ []))
      ≡ elim (row u s table) [ none ↦ if is_row u s n then some n else none | some r ↦ some r ]
unfolding row
row-append u s [] n = refl
row-append u s (r ∷ table) n = ground (arith, row-append u s table n)

-- Saving a row replaces what its own key finds, and nothing else.
row-save :
    (u : ℕ) (s : String) (table : List SkillGraphNode) (n : SkillGraphNode)
    → row u s (save n table) ≡ (
        if is_row u s n
        then elim (row u s table) [ none ↦ none | some r ↦ some n ]
        else row u s table)
unfolding save row
row-save u s [] n = ground arith
row-save u s (r ∷ table) n = ground (
  arith,
  string_eq.same_iff r.skill_name n.skill_name,
  string_eq.same_iff r.skill_name s,
  string_eq.same_iff n.skill_name s,
  row-save u s table n,
)

-- A row that is found has the key that it was found by.
row_key :
    (u : ℕ) (s : String) (table : List SkillGraphNode) (n : SkillGraphNode)
    → row u s table ≡ some n
    → (n.user_id ≡ u) × (n.skill_name ≡ s)
unfolding row
row_key u s [] n h = cc
row_key u s (r ∷ table) n h = ground (arith, string_eq.same_iff r.skill_name s, row_key u s table n)

module _ (u : ℕ) (s : String) (table : List SkillGraphNode) where
  get_or_create_node_lem : (get_or_create_node u s table).0 ≡ row_or_new u s table
  unfolding get_or_create_node row_or_new row
  get_or_create_node_lem = ground arith

  row_or_new_key : ((row_or_new u s table).user_id ≡ u) × ((row_or_new u s table).skill_name ≡ s)
  unfolding row_or_new
  row_or_new_key = elim (Option-cases (row u s table)) [
    | inl e ↦ rw e (unfold new_node in (refl, refl))
    | inr (n, e) ↦ rw e (row_key u s table n e)
  ]

  row-get_or_create_self : row u s (get_or_create_node u s table).1 ≡ some (row_or_new u s table)
  unfolding get_or_create_node new_node row_or_new row
  row-get_or_create_self =
      ground (arith, row-append u s table (new_node u s), string_eq.same_iff s s)

  row-get_or_create_ne :
      (v : ℕ) (j : String)
      → (u ==ℕ v && s == j) ≡ false
      → row v j (get_or_create_node u s table).1 ≡ row v j table
  unfolding get_or_create_node new_node row
  row-get_or_create_ne v j ne = ground (arith, row-append v j table (new_node u s))

same_key : (u v : ℕ) (s j : String) → (u ==ℕ v && s == j) ≡ true → (u ≡ v) × (s ≡ j)
same_key u v s j h = ground (arith, string_eq.same_iff s j)

row-save_at :
    (u : ℕ) (s : String) (table : List SkillGraphNode) (n : SkillGraphNode) (v : ℕ) (j : String)
    → n.user_id ≡ u
    → n.skill_name ≡ s
    → row v j (save n table) ≡ (
        if u ==ℕ v && s == j
        then elim (row v j table) [ none ↦ none | some r ↦ some n ]
        else row v j table)
row-save_at u s table n v j eu es = ground (arith, row-save v j table n)

module _ (rt : Runtime) (sc : Scoring) where
  updated_node_key :
      (direction note : String) (n : SkillGraphNode)
      → ((updated_node rt sc direction note n).user_id ≡ n.user_id)
        × ((updated_node rt sc direction note n).skill_name ≡ n.skill_name)
  unfolding updated_node
  updated_node_key direction note n = (refl, refl)

  -- The table after one round of the loop.
  abbrev step : String → String → String → List SkillGraphNode → List SkillGraphNode
  step s direction note table =
      save (updated_node rt sc direction note (get_or_create_node sc.user s table).0)
        (get_or_create_node sc.user s table).1

  row-step :
      (s direction note : String) (table : List SkillGraphNode) (v : ℕ) (j : String)
      → row v j (step s direction note table) ≡ (
          if sc.user ==ℕ v && s == j
          then some (updated_node rt sc direction note (row_or_new sc.user s table))
          else row v j table)
  row-step s direction note table v j =
      let node = row_or_new sc.user s table in
      let (ku, ks) = row_or_new_key sc.user s table in
      let (uu, us) = updated_node_key direction note node in
      let t = (get_or_create_node sc.user s table).1 in
      rw (get_or_create_node_lem sc.user s table) ground (
        arith,
        row-save_at sc.user s t (updated_node rt sc direction note node) v j (uu ∙ ku) (us ∙ ks),
        same_key sc.user v s j,
        row-get_or_create_self sc.user s table,
        row-get_or_create_ne sc.user s table v j,
      )

  row-step_self :
      (s direction note : String) (table : List SkillGraphNode)
      → row sc.user s (step s direction note table)
        ≡ some (updated_node rt sc direction note (row_or_new sc.user s table))
  row-step_self s direction note table =
      ground (arith, row-step s direction note table sc.user s, string_eq.same_iff s s)

  row-step_ne :
      (s direction note : String) (table : List SkillGraphNode) (v : ℕ) (j : String)
      → s ≢ j
      → row v j (step s direction note table) ≡ row v j table
  row-step_ne s direction note table v j ne =
      ground (arith, row-step s direction note table v j, string_eq.same_iff s j)

  -- What one user's signals, as found for a skill, make of that skill's row.
  pub signalled :
      Option (String × String) → ℕ → String → List SkillGraphNode → Option SkillGraphNode
  signalled none v j table = row v j table
  signalled (some (direction, note)) v j table =
      some (updated_node rt sc direction note (row_or_new v j table))

  signalled-step :
      (s direction note : String) (table : List SkillGraphNode) (v : ℕ) (j : String)
      → s ≢ j
      → (o : Option (String × String))
      → signalled o v j (step s direction note table) ≡ signalled o v j table
  unfolding signalled row_or_new
  signalled-step s direction note table v j ne none = row-step_ne s direction note table v j ne
  signalled-step s direction note table v j ne (some (d, m)) =
      rw (row-step_ne s direction note table v j ne)

  -- The table after an update, as a function of the signals.
  pub row-apply_signals :
      (signals : Signals) (table : List SkillGraphNode) (j : String)
      → IsKeyed signals
      → row sc.user j (apply_signals rt sc signals table).1
        ≡ signalled (lookup j signals) sc.user j table
  unfolding apply_signals
  row-apply_signals [] table j k = unfold signalled in refl
  row-apply_signals ((s, (direction, note)) ∷ rest) table j k =
      rw (row-apply_signals rest (step s direction note table) j k.1) (elim (eq_discrete j s) [
        | yes e ↦
            rw (e, ==_refl s, lookup-has_key s rest k.0)
              (unfold signalled in row-step_self s direction note table)
        | no ne ↦
            rw (==_ne j s ne)
              (signalled-step s direction note table sc.user j (λ p. ne (sym p)) (lookup j rest))
      ])

  pub row-apply_signals_other :
      (signals : Signals) (table : List SkillGraphNode) (v : ℕ) (j : String)
      → v ≢ sc.user
      → row v j (apply_signals rt sc signals table).1 ≡ row v j table
  unfolding apply_signals
  row-apply_signals_other [] table v j ne = refl
  row-apply_signals_other ((s, (direction, note)) ∷ rest) table v j ne = ground (
    arith,
    row-apply_signals_other rest (step s direction note table) v j ne,
    row-step s direction note table v j,
  )

save-All :
    (n : SkillGraphNode) (table : List SkillGraphNode)
    → IsValid n
    → All IsValid table
    → All IsValid (save n table)
unfolding save
save-All n [] v h = h
save-All n (r ∷ table) v h = elim (Bool-cases (is_row n.user_id n.skill_name r)) [
  | inl t ↦ rw t (v, save-All n table v h.1)
  | inr f ↦ rw f (h.0, save-All n table v h.1)
]

get_or_create_node-All :
    (u : ℕ) (s : String) (table : List SkillGraphNode)
    → All IsValid table
    → let (n, t) = get_or_create_node u s table in IsValid n × All IsValid t
unfolding get_or_create_node
get_or_create_node-All u s table h = elim (Option-cases (find? (is_row u s) table)) [
  | inl e ↦
      let new = new_node-IsValid u s in
      rw (e, get_or_create_node) (new, All-append IsValid table (new_node u s ∷ []) h (new, tt))
  | inr (n, e) ↦ rw (e, get_or_create_node) (All-find? IsValid (is_row u s) table n h e, h)
]

pub apply_signals-All :
    (rt : Runtime) (sc : Scoring) (signals : Signals) (table : List SkillGraphNode)
    → All IsValid table
    → let (updated, t) = apply_signals rt sc signals table in All IsValid updated × All IsValid t
unfolding apply_signals
apply_signals-All rt sc [] table h = (tt, h)
apply_signals-All rt sc ((s, (direction, note)) ∷ rest) table h =
    let (n, t) = get_or_create_node sc.user s table in
    let (vn, vt) = get_or_create_node-All sc.user s table h in
    let v = updated_node-IsValid rt sc direction note n vn in
    let (us, ts) = apply_signals-All rt sc rest _ (save-All _ t v vt) in ((v, us), ts)
