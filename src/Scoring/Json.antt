-- ===== src/Scoring/Json.antt =====
-- The values that a model's tool call holds, as Python's dynamic values: the operations of `dict` that
-- the scorer uses on them, and its exceptions.
use interviewcraft.Prelude.{
  zero, String, ◌≡◌, refl, Bool, true, false, not, Option, none, some, arith, if◌then◌else◌, ℤ, pos,
  ◌==◌, nat_eq, string_eq, ==_refl, is_empty,
}

-- Numbers are integers, which is what the schema asks for.
mutual
  pub data Json : Type 0 where
    null : Json
    boolean : Bool → Json
    number : ℤ → Json
    text : String → Json
    array : Items → Json
    object : Members → Json

  pub data Items : Type 0 where
    no_items : Items
    item : Json → Items → Items

  pub data Members : Type 0 where
    no_members : Members
    member : String → Json → Members → Members

-- The exceptions that the scorer tells apart.
pub data Error : Type 0 where
  value_error key_error json_decode_error attribute_error type_error runtime_error api_error : Error

pub data Result (A : Type 0) : Type 0 where
  returned : A → Result A
  failed : Error → Result A

-- `d.get(key)`
unfoldable pub get : String → Members → Option Json
get key no_members = none
get key (member k v rest) = if k == key then some v else get key rest

-- `d[key] = value`
unfoldable pub put : String → Json → Members → Members
put key value no_members = member key value no_members
put key value (member k v rest) =
    if k == key then member k value rest else member k v (put key value rest)

-- `bool(value)`
unfoldable pub truthy : Json → Bool
truthy null = false
truthy (boolean b) = b
truthy (number (pos zero)) = false
truthy (number _) = true
truthy (text s) = not (is_empty s)
truthy (array no_items) = false
truthy (array _) = true
truthy (object no_members) = false
truthy (object _) = true

pub get-put_self :
    (key : String) (value : Json) (d : Members) → get key (put key value d) ≡ some value
unfolding get put
get-put_self key value no_members = rw (==_refl key) refl
get-put_self key value (member k v rest) = ground (arith, get-put_self key value rest)

pub get-put :
    (key other : String) (value : Json) (d : Members)
    → (other == key) ≡ false
    → get key (put other value d) ≡ get key d
unfolding get put
get-put key other value no_members ne = rw ne refl
get-put key other value (member k v rest) ne = ground (
  arith,
  get-put key other value rest ne,
  string_eq.same_iff k key,
  string_eq.same_iff k other,
  string_eq.same_iff other key,
)
