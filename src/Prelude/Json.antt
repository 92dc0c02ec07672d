-- ===== src/Prelude/Json.antt =====
-- Values of Python that the agent passes about as JSON: content blocks, tool inputs, results.
use mathlib.Core.Bool.{Bool, true, false, not, ◌&&◌, ◌||◌}
use mathlib.Core.List.{List, [], ◌∷◌}
use mathlib.Core.Option.{Option, none, some}
use koraku.Prelude.Tests.{leb, nat_beq, if◌then◌else◌}
use koraku.Prelude.Eq.{◌==◌, text_equality}
use koraku.Prelude.Text.{Text, text, is_empty}

-- A number is kept as its JSON text.
mutual
  pub data Value : Type 0 where
    null : Value
    bool : Bool → Value
    num : Text → Value
    str : Text → Value
    arr : Items → Value
    obj : Fields → Value

  pub data Items : Type 0 where
    nil : Items
    cons : Value → Items → Items

  pub data Fields : Type 0 where
    end : Fields
    field : Text → Value → Fields → Fields

abbrev pub field_of : Fields → Text → Option Value
field_of end key = none
field_of (field k v fields) key =
    let rest = field_of fields key in elim (k == key) [ true ↦ some v | false ↦ rest ]

-- value.get(key), on a dict; a value that is no dict has no keys
abbrev pub get : Value → Text → Option Value
get (obj fields) key = field_of fields key
get _ key = none

-- isinstance(value, dict)
abbrev pub is_dict : Value → Bool
is_dict (obj _) = true
is_dict _ = false

-- A dict literal.
abbrev pub fields : List (Text × Value) → Fields
fields [] = end
fields ((k, v) ∷ rest) = field k v (fields rest)

abbrev pub dict : List (Text × Value) → Value
dict entries = obj (fields entries)

-- d[key] = v, on the fields of a dict
abbrev pub set_field : Fields → Text → Value → Fields
set_field end key v = field key v end
set_field (field k w rest) key v =
    let later = set_field rest key v in
    elim (k == key) [ true ↦ field k v rest | false ↦ field k w later ]

-- value == "text"
abbrev pub is_text : Option Value → Text → Bool
is_text (some (str s)) t = s == t
is_text _ t = false

-- block.get("type") == t
abbrev pub has_type : Value → Text → Bool
has_type block t = is_text (get block (text "type")) t

-- str(value); `repr` is Python's text of a value that is no string.
abbrev pub as_text : (Value → Text) → Value → Text
as_text repr (str s) = s
as_text repr v = repr v

-- str(block.get(key, default))
abbrev pub text_or : (Value → Text) → Text → Option Value → Text
text_or repr default none = default
text_or repr default (some v) = as_text repr v

-- The digits of a number that say whether it is zero: those before an exponent.
abbrev pub is_nonzero : Text → Bool
is_nonzero [] = false
is_nonzero (c ∷ s) =
    let rest = is_nonzero s in
    if leb 49 c && leb c 57 then true else if nat_beq c 69 || nat_beq c 101 then false else rest

-- bool(value)
abbrev pub truthy : Value → Bool
truthy null = false
truthy (bool b) = b
truthy (num s) = is_nonzero s
truthy (str s) = not (is_empty s)
truthy (arr nil) = false
truthy (arr (cons _ _)) = true
truthy (obj end) = false
truthy (obj (field _ _ _)) = true

abbrev pub items : List Value → Items
items [] = nil
items (v ∷ vs) = cons v (items vs)

abbrev pub to_list : Items → List Value
to_list nil = []
to_list (cons v vs) = v ∷ to_list vs
