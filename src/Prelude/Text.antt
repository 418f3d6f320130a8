-- ===== src/Prelude/Text.antt =====
-- Python's joins and f-strings over native texts, and the parts of the interpreter and of its
-- standard library that the program's results depend on.
use Prim.Native.Nat.{ℕ}
use Prim.Native.String.{String, ◌++◌ as append}
use mathlib.Core.List.{List, [], ◌∷◌}
use mathlib.Core.Bool.{Bool}
use interviewcraft.Prelude.Int.{ℤ}
use interviewcraft.Prelude.Keys.{◌==◌, string_eq}

-- `"".join(parts)`; an f-string is the join of its parts.
unfoldable pub concat : List String → String
concat [] = ""
concat (s ∷ []) = s
concat (s ∷ r) = append s (concat r)

-- `"\n".join(parts)` and its like.
unfoldable pub join : String → List String → String
join sep [] = ""
join sep (s ∷ []) = s
join sep (s ∷ r) = append s (append sep (join sep r))

-- `not s`
abbrev pub is_empty : String → Bool
is_empty s = s == ""

-- What the model takes from Python and its standard library as it is: the decimal text of an
-- integer, the ISO date of a moment, and the order in which a set of texts is iterated.
pub record Runtime : Type 0 where
  pub str_int : ℤ → String
  pub isoformat_date : ℕ → String
  pub set_order : List String → List String
