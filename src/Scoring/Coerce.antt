-- ===== src/Scoring/Coerce.antt =====
-- `_coerce_json_fields` of backend/app/services/scoring/scorer.py. `json.loads` is a parameter.
use interviewcraft.Prelude.{
  String, ◌≡◌, refl, sym, ap, ◌∙◌, subst, inl, inr, false, Option, none, some, List, [], ◌∷◌, arith,
  if◌then◌else◌, Bool-cases, ◌==◌, nat_eq, string_eq, ==_refl, IsDistinct, contains,
}
use interviewcraft.Scoring.Json.{
  get-put, Json, null, boolean, number, text, array, object, no_items, Members, no_members, get,
  put, get-put_self,
}

abbrev pub dict_fields : List String
dict_fields = "categories" ∷ "level_assessment" ∷ "diff_versions" ∷ "memory_hints" ∷ []

module _ (loads : String → Option Json) where
  -- The parsed text of a field that should be a dict; a text that does not parse leaves an empty one.
  unfoldable pub store_dict : String → Option Json → Members → Members
  store_dict field none result = put field (object no_members) result
  store_dict field (some (object d)) result = put field (object d) result
  store_dict field (some _) result = result

  unfoldable pub store_list : String → Option Json → Members → Members
  store_list field none result = put field (array no_items) result
  store_list field (some (array xs)) result = put field (array xs) result
  store_list field (some _) result = result

  -- A pass of the first loop, and of the second.
  unfoldable pub coerce_dict : String → Option Json → Members → Members
  coerce_dict field (some (text s)) result = store_dict field (loads s) result
  coerce_dict field _ result = result

  unfoldable pub coerce_list : String → Option Json → Members → Members
  coerce_list field (some (text s)) result = store_list field (loads s) result
  coerce_list field _ result = result

  unfoldable pub coerce_dicts : List String → Members → Members
  coerce_dicts [] result = result
  coerce_dicts (f ∷ fields) result = coerce_dicts fields (coerce_dict f (get f result) result)

  unfoldable pub coerce_json_fields : Members → Members
  coerce_json_fields result =
      let dicts =
        coerce_dicts ("categories" ∷ "level_assessment" ∷ "diff_versions" ∷ "memory_hints" ∷ [])
          result in
      coerce_list "rules_triggered" (get "rules_triggered" dicts) dicts

  -- What a field of each kind should hold.
  abbrev pub dict_or : Json → Option Json → Json
  dict_or v none = object no_members
  dict_or v (some (object d)) = object d
  dict_or v (some _) = v

  abbrev pub list_or : Json → Option Json → Json
  list_or v none = array no_items
  list_or v (some (array xs)) = array xs
  list_or v (some _) = v

  abbrev pub as_dict : Option Json → Option Json
  as_dict (some (text s)) = some (dict_or (text s) (loads s))
  as_dict v = v

  abbrev pub as_list : Option Json → Option Json
  as_list (some (text s)) = some (list_or (text s) (loads s))
  as_list v = v

  store_dict_self :
      (field s : String) (parsed : Option Json) (r : Members)
      → get field r ≡ some (text s)
      → get field (store_dict field parsed r) ≡ some (dict_or (text s) parsed)
  unfolding store_dict
  store_dict_self field s none r h = get-put_self field _ r
  store_dict_self field s (some null) r h = h
  store_dict_self field s (some (boolean _)) r h = h
  store_dict_self field s (some (number _)) r h = h
  store_dict_self field s (some (text _)) r h = h
  store_dict_self field s (some (array _)) r h = h
  store_dict_self field s (some (object _)) r h = get-put_self field _ r

  coerce_dict_self :
      (field : String) (v : Option Json) (r : Members)
      → get field r ≡ v
      → get field (coerce_dict field v r) ≡ as_dict v
  unfolding coerce_dict
  coerce_dict_self field none r h = h
  coerce_dict_self field (some null) r h = h
  coerce_dict_self field (some (boolean _)) r h = h
  coerce_dict_self field (some (number _)) r h = h
  coerce_dict_self field (some (text s)) r h = store_dict_self field s (loads s) r h
  coerce_dict_self field (some (array _)) r h = h
  coerce_dict_self field (some (object _)) r h = h

  store_dict_other :
      (field key : String) (parsed : Option Json) (r : Members)
      → (field == key) ≡ false
      → get key (store_dict field parsed r) ≡ get key r
  unfolding store_dict
  store_dict_other field key none r ne = get-put key field _ r ne
  store_dict_other field key (some (object _)) r ne = get-put key field _ r ne
  store_dict_other field key (some null) r ne = refl
  store_dict_other field key (some (boolean _)) r ne = refl
  store_dict_other field key (some (number _)) r ne = refl
  store_dict_other field key (some (text _)) r ne = refl
  store_dict_other field key (some (array _)) r ne = refl

  coerce_dict_other :
      (field key : String) (v : Option Json) (r : Members)
      → (field == key) ≡ false
      → get key (coerce_dict field v r) ≡ get key r
  unfolding coerce_dict
  coerce_dict_other field key (some (text s)) r ne = store_dict_other field key (loads s) r ne
  coerce_dict_other field key none r ne = refl
  coerce_dict_other field key (some null) r ne = refl
  coerce_dict_other field key (some (boolean _)) r ne = refl
  coerce_dict_other field key (some (number _)) r ne = refl
  coerce_dict_other field key (some (array _)) r ne = refl
  coerce_dict_other field key (some (object _)) r ne = refl

  -- A field is coerced if it is listed, and else kept.
  coerce_dicts_lem :
      (fields : List String) (key : String) (r : Members)
      → IsDistinct fields
      → get key (coerce_dicts fields r)
        ≡ (if contains key fields then as_dict (get key r) else get key r)
  unfolding coerce_dicts
  coerce_dicts_lem [] key r d = refl
  coerce_dicts_lem (f ∷ fields) key r d =
      let next = coerce_dict f (get f r) r in
      elim (Bool-cases (key == f)) [
        | inl t ↦
            let at_f : get f (coerce_dicts fields next)
                ≡ (if contains f (f ∷ fields) then as_dict (get f r) else get f r) =
              coerce_dicts_lem fields f next d.1
              ∙ rw (d.0, ==_refl f) (coerce_dict_self f (get f r) r refl) in
            subst
              (λ k.
                get k (coerce_dicts fields next)
                ≡ (if contains k (f ∷ fields) then as_dict (get k r) else get k r))
              (sym (ground (arith, string_eq.same_iff key f))) at_f
        | inr n ↦
            let other : (f == key) ≡ false =
              ground (arith, string_eq.same_iff key f, string_eq.same_iff f key) in
            coerce_dicts_lem fields key next d.1
            ∙ rw (coerce_dict_other f key (get f r) r other, n) refl
      ]

  store_list_self :
      (field s : String) (parsed : Option Json) (r : Members)
      → get field r ≡ some (text s)
      → get field (store_list field parsed r) ≡ some (list_or (text s) parsed)
  unfolding store_list
  store_list_self field s none r h = get-put_self field _ r
  store_list_self field s (some null) r h = h
  store_list_self field s (some (boolean _)) r h = h
  store_list_self field s (some (number _)) r h = h
  store_list_self field s (some (text _)) r h = h
  store_list_self field s (some (array _)) r h = get-put_self field _ r
  store_list_self field s (some (object _)) r h = h

  coerce_list_self :
      (field : String) (v : Option Json) (r : Members)
      → get field r ≡ v
      → get field (coerce_list field v r) ≡ as_list v
  unfolding coerce_list
  coerce_list_self field none r h = h
  coerce_list_self field (some null) r h = h
  coerce_list_self field (some (boolean _)) r h = h
  coerce_list_self field (some (number _)) r h = h
  coerce_list_self field (some (text s)) r h = store_list_self field s (loads s) r h
  coerce_list_self field (some (array _)) r h = h
  coerce_list_self field (some (object _)) r h = h

  store_list_other :
      (field key : String) (parsed : Option Json) (r : Members)
      → (field == key) ≡ false
      → get key (store_list field parsed r) ≡ get key r
  unfolding store_list
  store_list_other field key none r ne = get-put key field _ r ne
  store_list_other field key (some (array _)) r ne = get-put key field _ r ne
  store_list_other field key (some null) r ne = refl
  store_list_other field key (some (boolean _)) r ne = refl
  store_list_other field key (some (number _)) r ne = refl
  store_list_other field key (some (text _)) r ne = refl
  store_list_other field key (some (object _)) r ne = refl

  coerce_list_other :
      (field key : String) (v : Option Json) (r : Members)
      → (field == key) ≡ false
      → get key (coerce_list field v r) ≡ get key r
  unfolding coerce_list
  coerce_list_other field key (some (text s)) r ne = store_list_other field key (loads s) r ne
  coerce_list_other field key none r ne = refl
  coerce_list_other field key (some null) r ne = refl
  coerce_list_other field key (some (boolean _)) r ne = refl
  coerce_list_other field key (some (number _)) r ne = refl
  coerce_list_other field key (some (array _)) r ne = refl
  coerce_list_other field key (some (object _)) r ne = refl

  -- Each of the four dict fields and the one list field that came as a text holds the parsed value if
  -- it is of the field's kind, is empty if the text does not parse, and else stays; the value under
  -- every other key, and every value that is not a text, stays.
  pub coerce_json_fields_lem :
      (key : String) (r : Members)
      → get key (coerce_json_fields r) ≡ (
          if key == "rules_triggered"
          then as_list (get key r)
          else if contains key dict_fields
          then as_dict (get key r)
          else get key r)
  unfolding coerce_json_fields
  coerce_json_fields_lem key r =
      let dicts = coerce_dicts dict_fields r in
      let distinct : IsDistinct dict_fields = (refl, (refl, (refl, (refl, tt)))) in
      let rules : String = "rules_triggered" in
      elim (Bool-cases (key == rules)) [
        | inl t ↦
            subst
              (λ k. get k (coerce_list rules (get rules dicts) dicts) ≡ (
                if k == rules
                then as_list (get k r)
                else if contains k dict_fields
                then as_dict (get k r)
                else get k r))
              (sym (ground (arith, string_eq.same_iff key rules)))
              (coerce_list_self rules (get rules dicts) dicts refl
                ∙ ap as_list (coerce_dicts_lem dict_fields rules r distinct))
        | inr n ↦
            let other : (rules == key) ≡ false =
              ground (arith, string_eq.same_iff key rules, string_eq.same_iff rules key) in
            coerce_list_other rules key (get rules dicts) dicts other
            ∙ coerce_dicts_lem dict_fields key r distinct
            ∙ rw n refl
      ]
